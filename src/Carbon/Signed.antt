-- ===== src/Carbon/Signed.antt =====
-- `Witness`, `SignedTxMsg` and the signing functions of carbon.py. The signatures are Ed25519's,
-- made by the package `cryptography`: a key pair is a parameter.
pub mod RoundTrip
pub mod Signing
use phantasma_py.Carbon.Writer.{Write, write_carbon_array, write32, write64}
use phantasma_py.Bytes.{Bytes}
use phantasma_py.Carbon.Reader.{Read, read32, read64, read_carbon_array}
use phantasma_py.Carbon.Codec.{serialize}
use phantasma_py.Carbon.TxMsgs.{TxMsg, TxType, TxPayload, write_tx_msg, read_tx_msg}
use phantasma_py.Prelude.{
  List, Result, ◌>>=◌, Bool, and_then, if◌then◌else◌, pure, replicate, ◌>>◌, ◌∷◌, [], length, ok,
  raise, serialization, true, ◌==◌, err, false, crypto, ◌&&◌,
}

pub record Witness : Type 0 where
  pub address : Bytes
  pub signature : Bytes

unfoldable pub write_witness : Witness → Write
write_witness w = do write32 w.address; write64 w.signature

unfoldable pub read_witness : Read Witness
read_witness = do
  address ← read32
  signature ← read64
  pure (record { address = address; signature = signature })

pub record SignedTxMsg : Type 0 where
  pub msg : TxMsg
  pub witnesses : List Witness

-- The four sets of types that `write_carbon` and `read_carbon` tell apart
pub data WitnessForm : Type 0 where
  single gas_payer listed bare : WitnessForm

unfoldable pub witness_form : TxType → WitnessForm
witness_form TxType.call = listed
witness_form TxType.call_multi = listed
witness_form TxType.trade = listed
witness_form TxType.transfer_fungible = single
witness_form TxType.transfer_fungible_gas_payer = gas_payer
witness_form TxType.transfer_non_fungible_single = single
witness_form TxType.transfer_non_fungible_single_gas_payer = gas_payer
witness_form TxType.transfer_non_fungible_multi = single
witness_form TxType.transfer_non_fungible_multi_gas_payer = gas_payer
witness_form TxType.mint_fungible = single
witness_form TxType.burn_fungible = single
witness_form TxType.burn_fungible_gas_payer = gas_payer
witness_form TxType.mint_non_fungible = single
witness_form TxType.burn_non_fungible = single
witness_form TxType.burn_non_fungible_gas_payer = gas_payer
witness_form TxType.phantasma = listed
witness_form TxType.phantasma_raw = bare

-- `==` on byte strings
unfoldable pub same_bytes : Bytes → Bytes → Bool
same_bytes [] [] = true
same_bytes [] (y ∷ ys) = false
same_bytes (x ∷ xs) [] = false
same_bytes (x ∷ xs) (y ∷ ys) = (x == y) && same_bytes xs ys

-- `_payload_from_address`
unfoldable pub payload_from_address : TxPayload → Bytes
payload_from_address (TxPayload.transfer_fungible_gas_payer m) = m.from_address
payload_from_address (TxPayload.transfer_non_fungible_single_gas_payer m) = m.from_address
payload_from_address (TxPayload.transfer_non_fungible_multi_gas_payer m) = m.from_address
payload_from_address (TxPayload.burn_fungible_gas_payer m) = m.from_address
payload_from_address (TxPayload.burn_non_fungible_gas_payer m) = m.from_address
payload_from_address p = replicate 32 0

unfoldable pub write_single : Bytes → List Witness → Write
write_single gas_from (w ∷ []) =
    if same_bytes w.address gas_from then write64 w.signature else raise serialization
write_single gas_from ws = raise serialization

-- The address of the second witness is not looked at.
unfoldable pub write_gas_payer : Bytes → List Witness → Write
write_gas_payer gas_from (w ∷ w' ∷ []) =
    if same_bytes w.address gas_from
    then (write64 w.signature >> write64 w'.signature)
    else raise serialization
write_gas_payer gas_from ws = raise serialization

unfoldable pub write_raw : List Witness → Write
write_raw [] = pure tt
write_raw (w ∷ ws) = raise serialization

unfoldable pub write_witnesses : WitnessForm → TxMsg → List Witness → Write
write_witnesses single m ws = write_single m.gas_from ws
write_witnesses gas_payer m ws = write_gas_payer m.gas_from ws
write_witnesses listed m ws = write_carbon_array write_witness ws
write_witnesses bare m ws = write_raw ws

unfoldable pub write_signed_tx_msg : SignedTxMsg → Write
write_signed_tx_msg s = do
  write_tx_msg s.msg
  write_witnesses (witness_form s.msg.type) s.msg s.witnesses

unfoldable pub read_witnesses : WitnessForm → TxMsg → Read (List Witness)
read_witnesses single m = do
  signature ← read64
  pure (record { address = m.gas_from; signature = signature } ∷ [])
read_witnesses gas_payer m = do
  first ← read64
  second ← read64
  pure (
      record { address = m.gas_from; signature = first }
      ∷ record { address = payload_from_address m.msg; signature = second }
      ∷ [])
read_witnesses listed m = read_carbon_array read_witness
read_witnesses bare m = pure []

unfoldable pub read_signed_tx_msg : Read SignedTxMsg
read_signed_tx_msg = do
  m ← read_tx_msg
  witnesses ← read_witnesses (witness_form m.type) m
  pure (record { msg = m; witnesses = witnesses })

-- `bytes32_from_public_key`
unfoldable pub bytes32_from_public_key : Bytes → Result Bytes
bytes32_from_public_key raw = if length raw == 32 then ok raw else err crypto

-- The package's key pair: the raw public key, and the signature of a message.
pub record Ed25519PrivateKey : Type 0 where
  pub public_key : Bytes
  pub sign : Bytes → Bytes

-- `PhantasmaKeys.sign`: the constructor of `Ed25519Signature` checks the length.
unfoldable pub sign : Ed25519PrivateKey → Bytes → Result Bytes
sign keys message =
    let signature = keys.sign message in if length signature == 64 then ok signature else err crypto

unfoldable pub sign_tx_msg : TxMsg → Ed25519PrivateKey → Result SignedTxMsg
sign_tx_msg m keys = and_then (serialize (write_tx_msg m)) (λ message.
    and_then (sign keys message) (λ signature.
      and_then (bytes32_from_public_key keys.public_key) (λ address. ok (record {
        msg = m;
        witnesses = record { address = address; signature = signature } ∷ [];
      }))))

unfoldable pub sign_and_serialize_tx_msg : TxMsg → Ed25519PrivateKey → Result Bytes
sign_and_serialize_tx_msg m keys =
    and_then (sign_tx_msg m keys) (λ signed. serialize (write_signed_tx_msg signed))
