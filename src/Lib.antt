-- ===== src/Lib.antt =====
-- The wire formats and the fee estimator of the Phantasma Python SDK.
--
-- The SDK builds transactions, signs them and sends them to a node. The part modelled here is
-- src/phantasma_py/carbon.py: the binary format of the Carbon chain, the messages and the
-- signed messages, the arguments of the contracts it calls, and the estimate of a fee; and the
-- primitives of src/phantasma_py/binary.py, the binary format of the VM, with the transaction of
-- src/phantasma_py/transaction.py that is written in it, the addresses of
-- src/phantasma_py/crypto.py, and the objects and the script builder of src/phantasma_py/vm.py.
--
-- How the parts fit together. A class has a method `write_carbon(writer)` and a class method
-- `read_carbon(reader)`; `serialize` runs the first on an empty buffer, `deserialize` the second
-- on the given bytes and refuses bytes that are left over. `sign_tx_msg` serializes a message,
-- has the key pair sign the bytes, and pairs the message with the witness; `SignedTxMsg` writes
-- the message and then the witnesses in the form that the message's type wants. The fee
-- estimator prices the bytes of that form.
--
-- Files, with the code that each is about:
--   Prelude           numbers, Boolean tests, lists, exceptions as a result type, methods as
--                     functions of an object's state
--   Bytes             byte strings, little-endian words, two's complement (`_check_unsigned`,
--                     `_check_signed`, Python's struct and int.from_bytes)
--   Text              texts as code points, and UTF-8 as in Python's str.encode and bytes.decode;
--                     Text/Sorting: the order of strings, and list.sort
--   Carbon/Writer     CarbonWriter: write1 ... write_int_array, _big_int_word
--   Carbon/Reader     CarbonReader: read1 ... read_int_array, _int_from_word
--   Carbon/Codec      serialize, deserialize; Encodes, which says that a reading method undoes a
--                     writing method, and its rules for numbers, arrays and big integers
--   Carbon/Values     SmallString, IntX
--   Carbon/Fungible, NonFungible, Trades, Calls
--                     the payloads TxMsgTransferFungible ... TxMsgPhantasmaRaw, TxMsgCall with
--                     its argument sections, TxMsgCallMulti, TxMsgSpecialResolution
--   Carbon/TxMsgs     TxType, TxMsg, _read_payload
--   Carbon/Signed     Witness, SignedTxMsg, _payload_from_address, sign_tx_msg,
--                     sign_and_serialize_tx_msg, PhantasmaKeys.sign of crypto.py
--   Carbon/Args, Market, Listings
--                     the arguments of the token and market methods, TokenListing
--   Carbon/Config, Tokens
--                     ChainConfig, GasConfig, TokensConfig, TokenInfo
--   Carbon/Schemas    VMType, VMVariableSchema, VMNamedVariableSchema, VMStructSchema,
--                     TokenSchemas
--   Carbon/Dynamic    VMDynamicVariable, VMNamedDynamicVariable, VMDynamicStruct, VMStructArray:
--                     Fields and Writing, what is written with a schema and without one;
--                     Reading, what is read; Defaults, _default_vm_value
--   Carbon/Series, MarketById
--                     SeriesInfo, and the arguments that carry a series or a dynamic value
--   Carbon/Fees       NativeFeeKind, estimate_native_fee and its helpers; Fees/Options: the
--                     classes of fee options and envelope_bytes_for
--   Carbon/RoundTrips the statements about each wire format
--   Binary            BinaryWriter and BinaryReader of binary.py; Binary/BigInts: the words of
--                     big integers
--   Transaction       Transaction of transaction.py; Hash.difficulty and Ed25519Signature of
--                     crypto.py; Transaction/Mining: the loop of mine,
--                     Transaction/Difficulty: what the difficulty of a hash counts
--   Address           the bytes of Address of crypto.py
--   Vm                Opcode of vm.py; Vm/Script: ScriptBuilder, Vm/Script/Calls: the calls of
--                     contracts, Vm/Script/Commands: any sequence of calls of its methods;
--                     Vm/Objects: VMObject
--   Carbon/Examples, Carbon/Fees/Examples, Binary/Examples, Transaction/Examples,
--   Address/Examples, Vm/Examples
--                     the statements on concrete objects
-- The method write_carbon of a class TxMsgCall is write_tx_msg_call here, read_carbon is
-- read_tx_msg_call, and so on.
--
-- Conventions. A byte string is a list of numbers; an object of a FixedBytes class stands as its
-- bytes, whose length the reading and writing methods check as the constructor does. An int that
-- can be out of range at run time is an integer. A raised exception is a value, and the state of a
-- reader or writer at the raise is not kept, since every caller drops the object. Loops are
-- structural recursion on a list or a count. The loop of mine takes fuel: 2 ^ 32 rounds, since
-- the nonce is written in four bytes and a larger one raises. The reading methods of schemas, of
-- dynamic values and of VM objects call themselves; they are given one call more than there are
-- bytes left, which is enough, since each takes a byte before it calls itself
-- (Carbon/Codec/Recursion). Python's limit on the depth of calls is not modelled.
--
-- The data of a dynamic variable is of the kind that its type calls for: an integer of any size for
-- the integer types, bytes of any length for the byte types, and so on. What the code makes of data
-- of another kind (None for the default, objects that are converted) is not modelled.
--
-- Parameters. The package cryptography is a parameter: a key pair is a public key and a function
-- from messages to signatures. So is SHA-256, a function on byte strings, and Python's str.lower
-- and int of a text, functions on texts. The statements that need it assume that a public key has 32
-- bytes, a signature 64 and a hash 32. In the fee estimator the prices and the sizes that the code
-- does not check are natural numbers.
--
-- Not modelled: the builders of token metadata (the rest of carbon.py), VMObject's conversions to
-- strings (vm.py), the verification of signatures, WIF and Base58 (crypto.py, encoding.py), the
-- decoding of resolutions and events for display (special_resolution_arguments.py,
-- extended_events.py), and the RPC client (rpc.py), which is input and output.
pub mod Prelude
pub mod Bytes
pub mod Text
pub mod Carbon
pub mod Binary
pub mod Transaction
pub mod Address
pub mod Vm
