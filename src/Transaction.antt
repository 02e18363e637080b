-- ===== src/Transaction.antt =====
-- `Transaction` of transaction.py, the transaction of a VM script, with `Ed25519Signature` and
-- `Hash.difficulty` of crypto.py. SHA-256 and Ed25519 are Python's hashlib and the package
-- `cryptography`: parameters.
pub mod RoundTrip
pub mod Mining
pub mod Difficulty
mod Examples
use phantasma_py.Binary.{
  read_string, read_u8, read_var_uint, write_string, write_u8, write_var_uint, read_var_bytes,
  write_var_bytes, max_array_size, write_u32_le, read_u32_le,
}
use phantasma_py.Carbon.Signed.{Ed25519PrivateKey}
use phantasma_py.Prelude.{
  Bool, List, ℕ, ◌>>=◌, ◌>>◌, Option, Result, if◌then◌else◌, suc, ℤ, ◌-◌, ◌∷◌, [], and_then, length,
  negsuc, none, pos, pos_part, ◌==◌, ◌^◌, false, ok, some, ◌+◌, err, lift, ltb, pure, zero, ◌*◌,
  ◌++◌, crypto, raise, value, overflow,
}
use phantasma_py.Bytes.{Bytes, to_le}
use Prim.Native.Nat.{bit_and}
use phantasma_py.Prelude.{true, false}
use phantasma_py.Text.{Text}
use phantasma_py.Carbon.Reader.{Read, read_each}
use phantasma_py.Carbon.Writer.{Write, write_each}
use phantasma_py.Carbon.Codec.{serialize, deserialize}

pub record Ed25519Signature : Type 0 where
  pub «data» : Bytes

-- The constructor with `__post_init__`
unfoldable pub ed25519_signature : Bytes → Result Ed25519Signature
ed25519_signature raw = if length raw == 64 then ok (record { «data» = raw }) else err crypto

pub record Transaction : Type 0 where
  pub nexus_name : Text
  pub chain_name : Text
  pub script : Bytes
  pub expiration : ℤ
  pub payload : Bytes
  pub signatures : List Ed25519Signature

-- `SignatureKind.ED25519`
abbrev ed25519_kind : ℕ
ed25519_kind = 1

unfoldable pub write_signature : Ed25519Signature → Write
write_signature s = do write_u8 (pos ed25519_kind); write_var_bytes s.«data»

unfoldable pub write_signatures : List Ed25519Signature → Write
write_signatures ss = do write_var_uint (pos (length ss)); write_each write_signature ss

unfoldable pub write_transaction : Bool → Transaction → Write
write_transaction with_signatures tx = do
  write_string tx.nexus_name
  write_string tx.chain_name
  write_var_bytes tx.script
  write_u32_le tx.expiration
  write_var_bytes tx.payload
  if with_signatures then write_signatures tx.signatures else pure tt

unfoldable pub to_bytes : Bool → Transaction → Result Bytes
to_bytes with_signatures tx = serialize (write_transaction with_signatures tx)

-- A kind that is no `SignatureKind`, and one that is not Ed25519, are both a ValueError.
unfoldable pub read_signature_of : ℕ → Read Ed25519Signature
read_signature_of kind =
    if kind == ed25519_kind
    then (do raw ← read_var_bytes max_array_size; lift (ed25519_signature raw))
    else raise value

unfoldable pub read_signature : Read Ed25519Signature
read_signature = do kind ← read_u8; read_signature_of kind

unfoldable pub read_signatures : Read (List Ed25519Signature)
read_signatures = do count ← read_var_uint; read_each (pos_part count) read_signature

unfoldable pub read_transaction : Read Transaction
read_transaction = do
  nexus_name ← read_string
  chain_name ← read_string
  script ← read_var_bytes max_array_size
  expiration ← read_u32_le
  payload ← read_var_bytes max_array_size
  signatures ← read_signatures
  pure (record {
    nexus_name = nexus_name;
    chain_name = chain_name;
    script = script;
    expiration = expiration;
    payload = payload;
    signatures = signatures;
  })

unfoldable pub from_bytes : Bytes → Result Transaction
from_bytes raw = deserialize read_transaction raw

-- `sign`: the signature is appended to those of the transaction.
unfoldable pub sign_transaction :
    Transaction → Ed25519PrivateKey → Result (Ed25519Signature × Transaction)
sign_transaction tx keys = and_then (to_bytes false tx) (λ message.
    and_then (ed25519_signature (keys.sign message))
      (λ signature. ok (signature, record tx { signatures = tx.signatures ++ signature ∷ [] })))

-- The loops of `Hash.difficulty`: over the bits of a byte, below `bit_index`, and over the bytes
unfoldable pub last_bit : ℕ → ℕ → ℕ → ℕ → ℕ
last_bit byte byte_index zero last_set_bit = last_set_bit
last_bit byte byte_index (suc bit_index) last_set_bit =
    let before = last_bit byte byte_index bit_index last_set_bit in
    if bit_and byte (2 ^ bit_index) == 0 then before else 1 + byte_index * 8 + bit_index

unfoldable pub last_bit_of : Bytes → ℕ → ℕ → ℕ
last_bit_of [] byte_index last_set_bit = last_set_bit
last_bit_of (byte ∷ raw) byte_index last_set_bit =
    last_bit_of raw (suc byte_index) (last_bit byte byte_index 8 last_set_bit)

unfoldable pub difficulty : Bytes → ℕ
difficulty raw = 256 - last_bit_of raw 0 0

-- One round of the loop of `mine`: the test, and the payload of the next round
unfoldable pub mine_round :
    ℕ → ℕ → Transaction → Option (Result Transaction) → Result ℕ → Option (Result Transaction)
mine_round wanted nonce tx further (err e) = some (err e)
mine_round wanted nonce tx further (ok d) =
    if ltb d wanted
    then (if ltb (suc nonce) (2 ^ 32) then further else some (err overflow))
    else some (ok tx)

module _ (sha256 : Bytes → Bytes) where
  unfoldable pub transaction_hash : Transaction → Result Bytes
  transaction_hash tx = and_then (to_bytes false tx) (λ raw. ok (sha256 raw))

  unfoldable pub transaction_difficulty : Transaction → Result ℕ
  transaction_difficulty tx = and_then (transaction_hash tx) (λ hash. ok (difficulty hash))

  -- The loop of `mine`. The nonce is written in four bytes, and Python raises an OverflowError for
  -- one that needs more; `none` is a run that takes more than `fuel` rounds.
  unfoldable pub mine_from : ℕ → ℕ → ℕ → Transaction → Option (Result Transaction)
  mine_from zero wanted nonce tx = none
  mine_from (suc fuel) wanted nonce tx =
      let further =
        mine_from fuel wanted (suc nonce) (record tx { payload = to_le 4 (suc nonce) }) in
      mine_round wanted nonce tx further (transaction_difficulty tx)

  unfoldable pub mine : ℤ → Transaction → Option (Result Transaction)
  mine (negsuc n) tx = some (ok tx)
  mine (pos zero) tx = some (ok tx)
  mine (pos (suc n)) tx = mine_from (2 ^ 32) (suc n) 0 tx
