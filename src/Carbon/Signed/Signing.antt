-- ===== src/Carbon/Signed/Signing.antt =====
-- Which signed messages `SignedTxMsg.write_carbon` takes, what is read back of them, and
-- `sign_and_serialize_tx_msg`.
use phantasma_py.Carbon.TxMsgs.RoundTrip.{IsTxMsg, write_tx_msg_lem}
use phantasma_py.Bytes.{Bytes}
use phantasma_py.Carbon.Signed.RoundTrip.{
  IsWitness, write_witnesses_lem, same_bytes→eq, gas_payer_lem, single_lem, Fit, IsSignedTxMsg,
  different_bytes, write_signed_tx_msg_lem,
}
use phantasma_py.Carbon.Codec.{
  Encodes, serialize, deserialize, Encodes-weaken, Encodes-bind, Encodes-last, Encodes-RoundTrips,
  new_writer,
}
use phantasma_py.Carbon.Reader.{Read}
use phantasma_py.Prelude.{
  List, ◌∷◌, ◌⊎◌, [], raise, length, ◌≡◌, Bool-cases, err, ◌<◌, serialization, ◌^◌, All, inl, inr,
  refl, sym, ok, ◌>>◌, arith, subst, ◌≢◌,
}
use phantasma_py.Carbon.TxMsgs.{TxMsg, write_tx_msg}
use phantasma_py.Carbon.Writer.{Write, CarbonWriter}
use phantasma_py.Carbon.Signed.{
  single, gas_payer, listed, bare, SignedTxMsg, WitnessForm, write_witnesses, Witness, witness_form,
  write_single, write_gas_payer, write_raw, payload_from_address, read_witnesses, same_bytes,
  write_signed_tx_msg, read_signed_tx_msg, Ed25519PrivateKey, sign_and_serialize_tx_msg,
  sign_tx_msg, sign, bytes32_from_public_key,
}

-- What is read back of the witnesses: of a second witness that pays no gas only the signature is
-- written, and its address is taken from the payload.
abbrev pub witnesses_as_read : WitnessForm → TxMsg → List Witness → List Witness
witnesses_as_read gas_payer m (w ∷ w' ∷ []) =
    w ∷ record { address = payload_from_address m.msg; signature = w'.signature } ∷ []
witnesses_as_read f m ws = ws

abbrev pub as_read : SignedTxMsg → SignedTxMsg
as_read s = record {
  msg = s.msg;
  witnesses = witnesses_as_read (witness_form s.msg.type) s.msg s.witnesses;
}

-- A writer that reads back, or that refuses.
abbrev pub ReadsOrRefuses : {A : Type 0} → Write → Read A → A → Type 0
ReadsOrRefuses w r v = Encodes 0 w r v ⊎ ((b : CarbonWriter) → w b ≡ err serialization)

readdressed :
    {a : Bytes} (w : Witness)
    → w.address ≡ a
    → ◌≡◌ {A = Witness} (record { address = a; signature = w.signature }) w
readdressed w e = λ i. record { address = sym e i; signature = w.signature }

single_cases :
    (m : TxMsg) (w : Witness)
    → IsWitness w
    → ReadsOrRefuses (write_single m.gas_from (w ∷ [])) (read_witnesses single m) (w ∷ [])
unfolding write_single raise
single_cases m w h = elim (Bool-cases (same_bytes w.address m.gas_from)) [
  | inl e ↦ inl (
      subst (λ x. Encodes 0 (write_single m.gas_from (x ∷ [])) (read_witnesses single m) (x ∷ []))
        (readdressed w (same_bytes→eq w.address m.gas_from e)) (single_lem m w.signature h.1))
  | inr e ↦ inr (λ b. rw e)
]

gas_payer_cases :
    (m : TxMsg) (w w' : Witness)
    → IsWitness w
    → IsWitness w'
    → ReadsOrRefuses
        (write_gas_payer m.gas_from (w ∷ w' ∷ []))
        (read_witnesses gas_payer m)
        (witnesses_as_read gas_payer m (w ∷ w' ∷ []))
unfolding write_gas_payer raise
gas_payer_cases m w w' h h' = elim (Bool-cases (same_bytes w.address m.gas_from)) [
  | inl e ↦ inl (
      subst
        (λ x.
          Encodes 0 (write_gas_payer m.gas_from (x ∷ w' ∷ [])) (read_witnesses gas_payer m)
            (witnesses_as_read gas_payer m (x ∷ w' ∷ [])))
        (readdressed w (same_bytes→eq w.address m.gas_from e))
        (gas_payer_lem m w.signature w'.signature w'.address h.1 h'.1))
  | inr e ↦ inr (λ b. rw e)
]

write_witnesses_cases :
    (f : WitnessForm) (m : TxMsg) (ws : List Witness)
    → length ws < 2 ^ 31
    → All IsWitness ws
    → ReadsOrRefuses (write_witnesses f m ws) (read_witnesses f m) (witnesses_as_read f m ws)
unfolding write_witnesses write_single write_gas_payer write_raw raise
write_witnesses_cases single m [] h hs = inr (λ b. refl)
write_witnesses_cases single m (w ∷ []) h hs = single_cases m w hs.0
write_witnesses_cases single m (w ∷ w' ∷ ws) h hs = inr (λ b. refl)
write_witnesses_cases gas_payer m [] h hs = inr (λ b. refl)
write_witnesses_cases gas_payer m (w ∷ []) h hs = inr (λ b. refl)
write_witnesses_cases gas_payer m (w ∷ w' ∷ []) h hs = gas_payer_cases m w w' hs.0 hs.1.0
write_witnesses_cases gas_payer m (w ∷ w' ∷ w'' ∷ ws) h hs = inr (λ b. refl)
write_witnesses_cases listed m ws h hs = inl (write_witnesses_lem listed m ws (h, hs))
write_witnesses_cases bare m [] h hs = inl (write_witnesses_lem bare m [] refl)
write_witnesses_cases bare m (w ∷ ws) h hs = inr (λ b. refl)

pub write_signed_tx_msg_cases :
    (s : SignedTxMsg)
    → IsTxMsg s.msg
    → length s.witnesses < 2 ^ 31
    → All IsWitness s.witnesses
    → ReadsOrRefuses (write_signed_tx_msg s) read_signed_tx_msg (as_read s)
unfolding write_signed_tx_msg read_signed_tx_msg ◌>>◌
write_signed_tx_msg_cases s hm h hs =
    let m = write_tx_msg_lem s.msg hm in
    elim (write_witnesses_cases (witness_form s.msg.type) s.msg s.witnesses h hs) [
      | inl e ↦ inl (Encodes-weaken 0 (omega arith) (Encodes-bind m _ (Encodes-last e _)))
      | inr e ↦ inr (λ b. rw (m.writes, e))
    ]

-- Of a well-formed message with fewer than 2 ^ 31 witnesses of the right lengths, whatever the
-- writer takes reads back with the same message and witnesses, but for the address of the second
-- witness of a type with a gas payer: it is read as the payload's.
pub reads_back :
    (s : SignedTxMsg) {written : Bytes}
    → IsTxMsg s.msg
    → length s.witnesses < 2 ^ 31
    → All IsWitness s.witnesses
    → serialize (write_signed_tx_msg s) ≡ ok written
    → deserialize read_signed_tx_msg written ≡ ok (as_read s)
unfolding serialize
reads_back s {written} hm h hs taken = elim (write_signed_tx_msg_cases s hm h hs) [
  | inl e ↦ let (raw, e1, e2, e3) = Encodes-RoundTrips e in cc
  | inr e ↦ let no : serialize (write_signed_tx_msg s) ≡ err serialization = rw (e new_writer) in cc
]

-- What a key pair makes of a message
abbrev pub signed_by : Ed25519PrivateKey → TxMsg → Bytes → SignedTxMsg
signed_by keys m message = record {
  msg = m;
  witnesses = record { address = keys.public_key; signature = keys.sign message } ∷ [];
}

-- One witness, the key pair's, is what the message's type wants.
abbrev pub Signable : Ed25519PrivateKey → TxMsg → Type 0
Signable keys m =
    (witness_form m.type ≡ listed)
    ⊎ ((witness_form m.type ≡ single) × (keys.public_key ≡ m.gas_from))

-- The type wants two witnesses or none, or another address pays for the gas.
abbrev pub Unsignable : Ed25519PrivateKey → TxMsg → Type 0
Unsignable keys m =
    (witness_form m.type ≡ gas_payer)
    ⊎ (witness_form m.type ≡ bare)
    ⊎ ((witness_form m.type ≡ single) × (keys.public_key ≢ m.gas_from))

module _ (keys : Ed25519PrivateKey) (public_key : length keys.public_key ≡ 32)
    (signature : (message : Bytes) → length (keys.sign message) ≡ 64) where
  sign_tx_msg_lem :
      (m : TxMsg) {message : Bytes}
      → serialize (write_tx_msg m) ≡ ok message
      → sign_tx_msg m keys ≡ ok (signed_by keys m message)
  unfolding sign_tx_msg sign bytes32_from_public_key
  sign_tx_msg_lem m {message} e = rw (e, signature message, public_key)

  signed_by-Fit :
      (m : TxMsg) (message : Bytes)
      → Signable keys m
      → Fit (witness_form m.type) m (signed_by keys m message).witnesses
  signed_by-Fit m message (inl e) = rw e (omega arith, ((public_key, signature message), tt))
  signed_by-Fit m message (inr (e, a)) = rw e (
    keys.sign message,
    signature message,
    λ i. record { address = a i; signature = keys.sign message } ∷ [],
  )

  -- A key pair with a public key of 32 bytes and signatures of 64 signs a well-formed message whose
  -- type wants one witness of the sender, the key pair's, or a list of witnesses: what it returns
  -- reads back as the message with that witness, whose signature is that of the message's bytes.
  pub signs :
      (m : TxMsg)
      → IsTxMsg m
      → Signable keys m
      → (message : Bytes) × (raw : Bytes) × (serialize (write_tx_msg m) ≡ ok message)
        × (sign_and_serialize_tx_msg m keys ≡ ok raw)
        × (deserialize read_signed_tx_msg raw ≡ ok (signed_by keys m message))
  unfolding sign_and_serialize_tx_msg
  signs m hm h =
      let (message, e, back, longer) = Encodes-RoundTrips (write_tx_msg_lem m hm) in
      let valid : IsSignedTxMsg (signed_by keys m message) = record {
        msg = hm;
        witnesses = signed_by-Fit m message h;
      } in
      let (raw, written, read, last) = Encodes-RoundTrips (write_signed_tx_msg_lem _ valid) in
      (message, raw, e, rw (sign_tx_msg_lem m e) written, read)

  refuses_one :
      (m : TxMsg) (message : Bytes) (b : CarbonWriter)
      → Unsignable keys m
      → write_witnesses (witness_form m.type) m (signed_by keys m message).witnesses b
        ≡ err serialization
  unfolding write_witnesses write_gas_payer write_raw write_single raise
  refuses_one m message b (inl e) = rw e
  refuses_one m message b (inr (inl e)) = rw e
  refuses_one m message b (inr (inr (e, other))) =
      rw (e, different_bytes keys.public_key m.gas_from other)

  -- A key pair with a public key of 32 bytes and signatures of 64 does not sign a well-formed message
  -- whose type wants two witnesses or none, nor one whose type wants the sender's witness alone and
  -- whose gas is paid for by another address than the key pair's: the serialization is refused.
  pub refuses_to_sign :
      (m : TxMsg)
      → IsTxMsg m
      → Unsignable keys m
      → sign_and_serialize_tx_msg m keys ≡ err serialization
  unfolding sign_and_serialize_tx_msg serialize write_signed_tx_msg ◌>>◌
  refuses_to_sign m hm h =
      let (message, e, back, longer) = Encodes-RoundTrips (write_tx_msg_lem m hm) in
      let written = (write_tx_msg_lem m hm).writes new_writer in
      rw (sign_tx_msg_lem m e, written, refuses_one m message _ h)
