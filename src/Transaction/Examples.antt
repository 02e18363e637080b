-- ===== src/Transaction/Examples.antt =====
-- A transaction, its bytes, and mining with a hash function that is a constant.
use phantasma_py.Transaction.Difficulty.{difficulty-le_iff, mine-below}
use phantasma_py.Bytes.LittleEndian.{IsByte}
use phantasma_py.Carbon.Signed.{Ed25519PrivateKey}
use phantasma_py.Carbon.Writer.{write_unsigned, write}
use phantasma_py.Transaction.Mining.{mine_total, Mined, mine-Mined, last_step}
use phantasma_py.Binary.{write_string, write_var_bytes, write_var_uint, write_u8, write_u32_le}
use phantasma_py.Carbon.Codec.{serialize}
use phantasma_py.Prelude.{
  Result, replicate, true, ◌∷◌, [], pos, ◌≡◌, arith, ok, some, refl, ℕ, ◌++◌, err, serialization,
  lift, pure, ◌>>=◌, ◌>>◌, false, ap, and_then, ◌^◌, ◌-◌, ◌∙◌, length, All, ◌≤◌, ◌<◌, ◌↔◌,
}
use phantasma_py.Bytes.{Bytes, check_unsigned, to_le, from_le}
use phantasma_py.Transaction.RoundTrip.{
  IsTransaction, to_bytes-from_bytes, sign_transaction-to_bytes,
}
use phantasma_py.Text.{encode_utf8, encode_char}
use phantasma_py.Transaction.{
  Transaction, to_bytes, mine, write_transaction, from_bytes, transaction_difficulty,
  transaction_hash, difficulty, last_bit_of, last_bit, sign_transaction, ed25519_signature,
}

abbrev tx : Transaction
tx = record {
  nexus_name = 109 ∷ [];
  chain_name = 97 ∷ [];
  script = 1 ∷ 2 ∷ [];
  expiration = pos 1754000000;
  payload = 7 ∷ [];
  signatures = record { «data» = replicate 64 3 } ∷ [];
}

m_utf8 : encode_utf8 (109 ∷ []) ≡ ok (109 ∷ [])
unfolding encode_utf8 encode_char
m_utf8 = refl

a_utf8 : encode_utf8 (97 ∷ []) ≡ ok (97 ∷ [])
unfolding encode_utf8 encode_char
a_utf8 = refl

tx-IsTransaction : IsTransaction tx
tx-IsTransaction = record {
  nexus_name = (109 ∷ [], m_utf8, omega arith);
  chain_name = (97 ∷ [], a_utf8, omega arith);
  script = omega arith;
  expiration = omega arith;
  payload = omega arith;
  signatures = (omega arith, (refl, tt));
}

to_bytes-from_bytes_example :
    (raw : Bytes) × (to_bytes true tx ≡ ok raw)
    × (from_bytes raw ≡ ok tx)
    × ((x : ℕ) (extra : Bytes) → from_bytes (raw ++ x ∷ extra) ≡ err serialization)
to_bytes-from_bytes_example = to_bytes-from_bytes tx tx-IsTransaction

-- The hash is zero, so its difficulty is 256.
abbrev zero_hash : Bytes → Bytes
zero_hash raw = replicate 32 0

mine_total_example : (r : Result Transaction) × (mine zero_hash (pos 5) tx ≡ some r)
mine_total_example = mine_total zero_hash (pos 5) tx

message : to_bytes false tx ≡ ok (1 ∷ 109 ∷ 1 ∷ 97 ∷ 2 ∷ 1 ∷ 2 ∷ 128 ∷ 234 ∷ 139 ∷ 104 ∷ 1 ∷ 7 ∷ [])
unfolding to_bytes serialize write_transaction write_string write_var_bytes write_var_uint write_u8
    write_u32_le write_unsigned check_unsigned to_le write lift pure ◌>>=◌ ◌>>◌ encode_utf8
    encode_char
message = refl

zero_difficulty : difficulty (replicate 32 0) ≡ 256
unfolding difficulty last_bit_of last_bit
zero_difficulty = refl

found : transaction_difficulty zero_hash tx ≡ ok 256
unfolding transaction_difficulty transaction_hash
found =
    ap (λ m. and_then (and_then m (λ raw. ok (zero_hash raw))) (λ hash. ok (difficulty hash)))
      message
    ∙ ap ok zero_difficulty

mined : mine zero_hash (pos 5) tx ≡ some (ok tx)
unfolding mine
mined = last_step zero_hash 5 (2 ^ 32 - 1) 0 tx found refl

mine-Mined_example : Mined zero_hash 5 tx tx
mine-Mined_example = mine-Mined zero_hash 4 tx mined

abbrev keys : Ed25519PrivateKey
keys = record { public_key = replicate 32 1; sign = λ raw. replicate 64 2 }

abbrev signed_tx : Transaction
signed_tx = record tx {
  signatures = record { «data» = replicate 64 3 } ∷ record { «data» = replicate 64 2 } ∷ [];
}

signed : sign_transaction tx keys ≡ ok (record { «data» = replicate 64 2 }, signed_tx)
unfolding sign_transaction ed25519_signature
signed =
    ap
      (λ (m : Result Bytes). and_then m (λ raw.
        and_then (ed25519_signature (keys.sign raw))
          (λ s. ok (s, record tx { signatures = tx.signatures ++ s ∷ [] }))))
      message

sign_transaction-to_bytes_example :
    (message : Bytes) × (to_bytes false tx ≡ ok message)
    × (replicate 64 2 ≡ keys.sign message)
    × (length (replicate {A = ℕ} 64 2) ≡ 64)
    × (◌≡◌ {A = Transaction} signed_tx
        (record tx { signatures = tx.signatures ++ record { «data» = replicate 64 2 } ∷ [] }))
    × (to_bytes false signed_tx ≡ ok message)
sign_transaction-to_bytes_example = sign_transaction-to_bytes tx keys signed

-- The number 5
abbrev five_hash : Bytes
five_hash = 5 ∷ replicate 31 0

five_hash-bytes : All IsByte five_hash
five_hash-bytes = omega arith

difficulty-le_iff_example : (250 ≤ difficulty five_hash) ↔ (from_le five_hash < 2 ^ (256 - 250))
difficulty-le_iff_example = difficulty-le_iff five_hash 250 five_hash-bytes refl (omega arith)

zero_hash-bytes : All IsByte (replicate 32 0)
zero_hash-bytes = omega arith

mine-below_example :
    (hash : Bytes) × (transaction_hash zero_hash tx ≡ ok hash) × (from_le hash < 2 ^ (256 - 5))
mine-below_example = mine-below zero_hash (λ raw. (refl, zero_hash-bytes)) 4 tx (omega arith) mined
