-- ===== src/Carbon/Fees/Envelope.antt =====
-- `envelope_bytes_for` is the length of the signed message that `SignedTxMsg` writes.
use phantasma_py.Carbon.TxMsgs.RoundTrip.{write_tx_msg_lem}
use phantasma_py.Bytes.LittleEndian.{length-to_le}
use phantasma_py.Carbon.Codec.Numbers.{fixed_bytes-eq-ok, check_signed-eq-ok}
use phantasma_py.Carbon.TxMsgs.{TxMsg, write_tx_msg}
use phantasma_py.Carbon.Signed.RoundTrip.{IsSignedTxMsg, IsWitness, Fit, same_bytes_refl}
use phantasma_py.Bytes.{Bytes, twos_complement, to_le}
use phantasma_py.Carbon.Fees.{NativeFeeKind}
use phantasma_py.Carbon.Codec.{serialize, new_writer}
use phantasma_py.Carbon.Fees.Options.{envelope_bytes_for, has_native_signature}
use phantasma_py.Carbon.Writer.{
  write4, write_each, write_fixed, Write, write32, write64, write_carbon_array, write_signed,
  CarbonWriter, write,
}
use phantasma_py.Prelude.{
  ℕ, ◌>>◌, pure, ◌*◌, ◌>>=◌, List, lift, pos, ◌+◌, All, length, ◌++◌, ◌≡◌, append-nil, append_assoc,
  ok, suc, true, ◌∷◌, [], arith, false, ◌<◌, ap, length-append, refl, ◌^◌, ◌∙◌,
}
use phantasma_py.Carbon.Signed.{
  single, gas_payer, listed, bare, WitnessForm, write_gas_payer, write_single, write_witness,
  write_witnesses, write_signed_tx_msg, SignedTxMsg, Witness, write_raw, witness_form,
  payload_from_address,
}

-- A method that appends so many bytes, whatever stands in the buffer.
abbrev Appends : ℕ → Write → Type 0
Appends n w =
    (b : CarbonWriter)
    → (raw : Bytes) × (w b ≡ ok (tt, record { buffer = b.buffer ++ raw })) × (length raw ≡ n)

Appends-bind : {j k : ℕ} {w w' : Write} → Appends j w → Appends k w' → Appends (j + k) (w >> w')
unfolding ◌>>◌
Appends-bind first second b =
    let (raw, e, h) = first b in
    let (raw', e', h') = second (record { buffer = b.buffer ++ raw }) in
    (raw ++ raw', rw (e, e', append_assoc), omega (arith, length-append {0} raw raw'))

Appends-fixed :
    (n : ℕ) (raw : Bytes) → length raw ≡ suc n → Appends (suc n) (write_fixed (suc n) raw)
unfolding write_fixed ◌>>=◌ lift write
Appends-fixed n raw h b = (raw, rw (fixed_bytes-eq-ok n raw h), h)

Appends-write4 : (n : ℕ) → n < 2 ^ 31 → Appends 4 (write4 (pos n))
unfolding write4 write_signed ◌>>=◌ lift write twos_complement
Appends-write4 n h b = (to_le 4 n, rw (check_signed-eq-ok 32 (pos n) h), length-to_le 4 n)

Appends-witness : (w : Witness) → IsWitness w → Appends 96 (write_witness w)
unfolding write_witness write32 write64
Appends-witness w (a, s) =
    Appends-bind (Appends-fixed 31 w.address a) (Appends-fixed 63 w.signature s)

Appends-witnesses :
    (ws : List Witness) → All IsWitness ws → Appends (96 * length ws) (write_each write_witness ws)
unfolding write_each pure
Appends-witnesses [] h b = ([], rw append-nil, refl)
Appends-witnesses (w ∷ ws) (h, hs) b =
    let (raw, e, sum) = Appends-bind (Appends-witness w h) (Appends-witnesses ws hs) b in
    (raw, e, omega (arith, sum))

-- The bytes behind the message
abbrev witness_bytes : WitnessForm → ℕ → ℕ
witness_bytes single n = 64 * n
witness_bytes gas_payer n = 64 * n
witness_bytes listed n = 4 + 96 * n
witness_bytes bare n = 0

Appends-single :
    (a s : Bytes)
    → length s ≡ 64
    → Appends 64 (write_single a (record { address = a; signature = s } ∷ []))
unfolding write_single write64
Appends-single a s h = rw (same_bytes_refl a) (Appends-fixed 63 s h)

Appends-gas_payer :
    (a a' s t : Bytes)
    → length s ≡ 64
    → length t ≡ 64
    → Appends 128 (
        write_gas_payer a
          (record { address = a; signature = s } ∷ record { address = a'; signature = t } ∷ []))
unfolding write_gas_payer write64
Appends-gas_payer a a' s t h h' =
    rw (same_bytes_refl a) (Appends-bind (Appends-fixed 63 s h) (Appends-fixed 63 t h'))

Appends-write_witnesses :
    (f : WitnessForm) (m : TxMsg) (ws : List Witness)
    → Fit f m ws
    → Appends (witness_bytes f (length ws)) (write_witnesses f m ws)
unfolding write_witnesses write_carbon_array write_raw pure
Appends-write_witnesses single m ws (s, h, e) = rw e (Appends-single m.gas_from s h)
Appends-write_witnesses gas_payer m ws (s, t, h, h', e) =
    rw e (Appends-gas_payer m.gas_from (payload_from_address m.msg) s t h h')
Appends-write_witnesses listed m ws (h, hs) =
    Appends-bind (Appends-write4 (length ws) h) (Appends-witnesses ws hs)
Appends-write_witnesses bare m ws e = rw e (λ b. ([], rw append-nil, refl))

-- Which kinds of the estimator stand for the messages of a form
abbrev pub MatchesKind : WitnessForm → NativeFeeKind → Type 0
MatchesKind single kind = has_native_signature kind ≡ true
MatchesKind gas_payer kind = has_native_signature kind ≡ true
MatchesKind listed kind = has_native_signature kind ≡ false
MatchesKind bare kind = ⊥

envelope_of_form :
    (f : WitnessForm) (kind : NativeFeeKind) (n k : ℕ)
    → MatchesKind f kind
    → envelope_bytes_for kind (pos n) (pos k) ≡ ok (n + witness_bytes f k)
unfolding envelope_bytes_for
envelope_of_form single kind n k h = rw h
envelope_of_form gas_payer kind n k h = rw h
envelope_of_form listed kind n k h =
    let e : n + 4 + 96 * k ≡ n + (4 + 96 * k) = omega arith in rw h (ap ok e)
envelope_of_form bare kind n k h = absurd h

-- For a well-formed signed message and a kind with its form of witnesses, the estimate of the
-- envelope is the length of what is written of the signed message.
pub envelope_bytes_for-length :
    (s : SignedTxMsg) (kind : NativeFeeKind) {message raw : Bytes}
    → IsSignedTxMsg s
    → MatchesKind (witness_form s.msg.type) kind
    → serialize (write_tx_msg s.msg) ≡ ok message
    → serialize (write_signed_tx_msg s) ≡ ok raw
    → envelope_bytes_for kind (pos (length message)) (pos (length s.witnesses)) ≡ ok (length raw)
unfolding serialize write_signed_tx_msg ◌>>◌
envelope_bytes_for-length s kind {message} {raw} h k e e' =
    let form = witness_form s.msg.type in
    let m = write_tx_msg_lem s.msg h.msg in
    let (tail, e₁, n) =
      Appends-write_witnesses form s.msg s.witnesses h.witnesses (record { buffer = m.bytes }) in
    let e₂ : serialize (write_tx_msg s.msg) ≡ ok m.bytes = rw (m.writes new_writer) in
    let e₃ : serialize (write_signed_tx_msg s) ≡ ok (m.bytes ++ tail) =
      rw (m.writes new_writer, e₁) in
    let p : message ≡ m.bytes = cc in
    let q : raw ≡ m.bytes ++ tail = cc in
    let sum : length m.bytes + witness_bytes form (length s.witnesses) ≡ length raw =
      rw q (omega (arith, length-append {0} m.bytes tail, n)) in
    rw p (envelope_of_form form kind (length m.bytes) (length s.witnesses) k ∙ ap ok sum)
