-- ===== src/Transaction/RoundTrip.antt =====
-- A transaction that is written with its signatures reads back, and signing keeps it valid.
use phantasma_py.Carbon.Signed.{Ed25519PrivateKey}
use phantasma_py.Carbon.Codec.Arrays.{write_each_lem}
use phantasma_py.Binary.RoundTrip.{
  write_string_lem, write_u32_le_lem, write_u8_lem, write_var_bytes_lem, write_var_uint_lem,
}
use phantasma_py.Binary.{write_string, max_array_size, read_string, write_var_bytes, read_var_bytes}
use phantasma_py.Carbon.Codec.{
  Encodes, Encodes-bind, Encodes-last, Encodes-lift, Encodes-RoundTrips,
}
use phantasma_py.Prelude.{
  length, List, true, ◌≡◌, ◌≤◌, ok, ◌<◌, IsUnsigned, ℕ, ◌^◌, All, arith, ◌++◌, ◌∷◌, err, pos,
  serialization, [], false, and_then-eq-ok, subst, guard-eq-ok, ◌==◌, crypto, ==_iff, ap, sym, ◌∙◌,
}
use phantasma_py.Bytes.{Bytes}
use phantasma_py.Text.{Text, encode_utf8}
use phantasma_py.Transaction.{
  Ed25519Signature, Transaction, to_bytes, write_signature, write_signatures, write_transaction,
  from_bytes, read_signature, read_signatures, read_transaction, read_signature_of,
  ed25519_signature, sign_transaction,
}

abbrev pub IsSignature : Ed25519Signature → Type 0
IsSignature s = length s.«data» ≡ 64

-- A text whose UTF-8 is no longer than the reader takes
abbrev pub IsShortText : Text → Type 0
IsShortText text = (raw : Bytes) × (encode_utf8 text ≡ ok raw) × (length raw ≤ max_array_size)

pub record IsTransaction (tx : Transaction) : Type 0 where
  pub nexus_name : IsShortText tx.nexus_name
  pub chain_name : IsShortText tx.chain_name
  pub script : length tx.script ≤ max_array_size
  pub expiration : IsUnsigned 32 tx.expiration
  pub payload : length tx.payload ≤ max_array_size
  pub signatures : (length tx.signatures < 2 ^ 64) × All IsSignature tx.signatures

short_bytes_lem :
    (raw : Bytes)
    → length raw ≤ max_array_size
    → Encodes 1 (write_var_bytes raw) (read_var_bytes max_array_size) raw
short_bytes_lem raw h = write_var_bytes_lem max_array_size raw h (omega arith)

short_text_lem : (text : Text) → IsShortText text → Encodes 1 (write_string text) read_string text
short_text_lem text (raw, e, h) = write_string_lem text e h

write_signature_lem :
    (s : Ed25519Signature) → IsSignature s → Encodes 1 (write_signature s) read_signature s
unfolding write_signature read_signature read_signature_of ed25519_signature
write_signature_lem s h = Encodes-bind (write_u8_lem 1 (omega arith)) read_signature_of (
    Encodes-lift (short_bytes_lem s.«data» (omega (arith, h))) ed25519_signature
      (ground (arith, h)))

write_signatures_lem :
    (ss : List Ed25519Signature)
    → length ss < 2 ^ 64
    → All IsSignature ss
    → Encodes 1 (write_signatures ss) read_signatures ss
unfolding write_signatures read_signatures
write_signatures_lem ss h hs =
    Encodes-bind (write_var_uint_lem (pos (length ss)) h) _
      (write_each_lem write_signature_lem ss hs)

pub write_transaction_lem :
    (tx : Transaction)
    → IsTransaction tx
    → Encodes 1 (write_transaction true tx) read_transaction tx
unfolding write_transaction read_transaction
write_transaction_lem tx h = Encodes-bind (short_text_lem tx.nexus_name h.nexus_name) _ (
    Encodes-bind (short_text_lem tx.chain_name h.chain_name) _ (
      Encodes-bind (short_bytes_lem tx.script h.script) _ (
        Encodes-bind (write_u32_le_lem tx.expiration h.expiration) _ (
          Encodes-bind (short_bytes_lem tx.payload h.payload) _
            (Encodes-last (write_signatures_lem tx.signatures h.signatures.0 h.signatures.1) _)))))

-- A transaction whose names, script and payload have at most 2 ^ 24 bytes, whose expiration is an
-- unsigned 32-bit number and whose signatures have 64 bytes is written, reads back with all its
-- signatures, and is refused with any byte behind it.
pub to_bytes-from_bytes :
    (tx : Transaction)
    → IsTransaction tx
    → (raw : Bytes) × (to_bytes true tx ≡ ok raw)
      × (from_bytes raw ≡ ok tx)
      × ((x : ℕ) (extra : Bytes) → from_bytes (raw ++ x ∷ extra) ≡ err serialization)
unfolding to_bytes from_bytes
to_bytes-from_bytes tx h = Encodes-RoundTrips (write_transaction_lem tx h)

ed25519_signature-eq-ok :
    (raw : Bytes) {s : Ed25519Signature}
    → ed25519_signature raw ≡ ok s
    → (s.«data» ≡ raw) × (length raw ≡ 64)
unfolding ed25519_signature
ed25519_signature-eq-ok raw {s} h =
    let (long, e) = guard-eq-ok (length raw == 64) crypto h in
    let p : ◌≡◌ {A = Ed25519Signature} (record { «data» = raw }) s = cc in
    (ap (λ (t : Ed25519Signature). t.«data») (sym p), (==_iff _ _).0 long)

-- Signing returns the key pair's signature, of 64 bytes, of the transaction's bytes without its
-- signatures, and the transaction with this signature behind those it had. These bytes are the same
-- for the signed transaction, so that any number of key pairs sign, one after the other, the same
-- message.
pub sign_transaction-to_bytes :
    (tx : Transaction) (keys : Ed25519PrivateKey) {s : Ed25519Signature} {tx' : Transaction}
    → sign_transaction tx keys ≡ ok (s, tx')
    → (message : Bytes) × (to_bytes false tx ≡ ok message)
      × (s.«data» ≡ keys.sign message)
      × (length s.«data» ≡ 64)
      × (tx' ≡ record tx { signatures = tx.signatures ++ s ∷ [] })
      × (to_bytes false tx' ≡ ok message)
unfolding sign_transaction
sign_transaction-to_bytes tx keys {s} {tx'} h =
    let (message, e, h') = and_then-eq-ok (to_bytes false tx) _ h in
    let (signature, e', h'') = and_then-eq-ok (ed25519_signature (keys.sign message)) _ h' in
    let p : signature ≡ s = cc in
    let q : ◌≡◌ {A = Transaction} (record tx { signatures = tx.signatures ++ signature ∷ [] }) tx' =
      cc in
    let (same, long) = ed25519_signature-eq-ok (keys.sign message) e' in
    (
      message,
      e,
      ap (λ (t : Ed25519Signature). t.«data») (sym p) ∙ same,
      subst IsSignature p (rw same long),
      sym q ∙ ap (λ t. record tx { signatures = tx.signatures ++ t ∷ [] }) p,
      subst (λ (t : Transaction). to_bytes false t ≡ ok message) q
          (unfold to_bytes write_transaction in e),
    )
