-- ===== src/Carbon/Signed/RoundTrip.antt =====
-- A signed message whose witnesses fit its type reads back, and only such a message is written.
use phantasma_py.Carbon.Signed.{single, gas_payer, listed, bare}
use phantasma_py.Carbon.Codec.Arrays.{write_carbon_array_lem}
use phantasma_py.Carbon.Codec.Numbers.{write32_lem, write64_lem}
use phantasma_py.Carbon.Codec.{Encodes, Encodes-bind, Encodes-weaken, Encodes-last, Encodes-pure}
use phantasma_py.Bytes.{Bytes}
use phantasma_py.Carbon.TxMsgs.RoundTrip.{IsTxMsg, write_tx_msg_lem}
use phantasma_py.Carbon.TxMsgs.{TxMsg}
use phantasma_py.Prelude.{
  length, List, ◌≡◌, true, ◌∷◌, [], arith, refl, ◌<◌, ◌^◌, All, ◌≢◌, false, Bool-cases, inl, inr,
}
use phantasma_py.Carbon.Signed.{
  SignedTxMsg, Witness, WitnessForm, same_bytes, write_gas_payer, write_signed_tx_msg, write_single,
  write_witness, write_witnesses, read_signed_tx_msg, read_witness, read_witnesses, witness_form,
  write_raw, payload_from_address, gas_payer, single,
}

abbrev pub IsWitness : Witness → Type 0
IsWitness w = (length w.address ≡ 32) × (length w.signature ≡ 64)

-- A list of witnesses as `read_carbon` makes it for a message of this form
abbrev pub Fit : WitnessForm → TxMsg → List Witness → Type 0
Fit single m ws =
    (s : Bytes) × (length s ≡ 64) × (ws ≡ record { address = m.gas_from; signature = s } ∷ [])
Fit gas_payer m ws =
    (s : Bytes) × (t : Bytes) × (length s ≡ 64)
    × (length t ≡ 64)
    × (ws
        ≡ record { address = m.gas_from; signature = s }
          ∷ record { address = payload_from_address m.msg; signature = t }
          ∷ [])
Fit listed m ws = (length ws < 2 ^ 31) × All IsWitness ws
Fit bare m ws = ws ≡ []

pub record IsSignedTxMsg (s : SignedTxMsg) : Type 0 where
  pub msg : IsTxMsg s.msg
  pub witnesses : Fit (witness_form s.msg.type) s.msg s.witnesses

pub same_bytes_refl : (xs : Bytes) → same_bytes xs xs ≡ true
unfolding same_bytes
same_bytes_refl [] = refl
same_bytes_refl (x ∷ xs) = ground (arith, same_bytes_refl xs)

pub same_bytes→eq : (xs ys : Bytes) → same_bytes xs ys ≡ true → xs ≡ ys
unfolding same_bytes
same_bytes→eq [] [] h = refl
same_bytes→eq [] (y ∷ ys) h = cc
same_bytes→eq (x ∷ xs) [] h = cc
same_bytes→eq (x ∷ xs) (y ∷ ys) h = ground (arith, same_bytes→eq xs ys)

pub different_bytes : (xs ys : Bytes) → xs ≢ ys → same_bytes xs ys ≡ false
different_bytes xs ys h = elim (Bool-cases (same_bytes xs ys)) [
  | inl e ↦ absurd (h (same_bytes→eq xs ys e))
  | inr e ↦ e
]

pub write_witness_lem : (w : Witness) → IsWitness w → Encodes 32 (write_witness w) read_witness w
unfolding write_witness read_witness
write_witness_lem w (a, s) =
    Encodes-bind (write32_lem w.address a) _ (Encodes-last (write64_lem w.signature s) _)

pub single_lem :
    (m : TxMsg) (s : Bytes)
    → length s ≡ 64
    → Encodes 0
        (write_single m.gas_from (record { address = m.gas_from; signature = s } ∷ []))
        (read_witnesses single m)
        (record { address = m.gas_from; signature = s } ∷ [])
unfolding write_single read_witnesses
single_lem m s h =
    rw (same_bytes_refl m.gas_from)
      (Encodes-weaken 0 (omega arith) (Encodes-last (write64_lem s h) _))

pub gas_payer_lem :
    (m : TxMsg) (s t a : Bytes)
    → length s ≡ 64
    → length t ≡ 64
    → Encodes 0
        (write_gas_payer m.gas_from (
          record { address = m.gas_from; signature = s }
          ∷ record { address = a; signature = t }
          ∷ []))
        (read_witnesses gas_payer m)
        (record { address = m.gas_from; signature = s }
          ∷ record { address = payload_from_address m.msg; signature = t }
          ∷ [])
unfolding write_gas_payer read_witnesses
gas_payer_lem m s t a h h' = rw (same_bytes_refl m.gas_from) (
    Encodes-weaken 0 (omega arith)
      (Encodes-bind (write64_lem s h) _ (Encodes-last (write64_lem t h') _)))

pub write_witnesses_lem :
    (f : WitnessForm) (m : TxMsg) (ws : List Witness)
    → Fit f m ws
    → Encodes 0 (write_witnesses f m ws) (read_witnesses f m) ws
unfolding write_witnesses read_witnesses write_raw
write_witnesses_lem single m ws (s, h, e) = rw e (single_lem m s h)
write_witnesses_lem gas_payer m ws (s, t, h, h', e) =
    rw e (gas_payer_lem m s t (payload_from_address m.msg) h h')
write_witnesses_lem listed m ws (h, hs) =
    Encodes-weaken 0 (omega arith) (
      write_carbon_array_lem (λ w i. Encodes-weaken 1 (omega arith) (write_witness_lem w i)) ws h
        hs)
write_witnesses_lem bare m ws e = rw e (Encodes-pure [])

pub write_signed_tx_msg_lem :
    (s : SignedTxMsg) → IsSignedTxMsg s → Encodes 1 (write_signed_tx_msg s) read_signed_tx_msg s
unfolding write_signed_tx_msg read_signed_tx_msg
write_signed_tx_msg_lem s h =
    Encodes-bind (write_tx_msg_lem s.msg h.msg) _
      (Encodes-last (write_witnesses_lem (witness_form s.msg.type) s.msg s.witnesses h.witnesses) _)
