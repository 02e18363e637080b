-- ===== src/Text/RoundTrip.antt =====
-- Decoding gives back the text that was encoded.
use phantasma_py.Prelude.{
  ℕ, ◌≡◌, [], ◌∷◌, ◌++◌, arith, ok, and_then, and_then-eq-ok, All, ◌<◌, ◌==◌, false, refl, ◌⊎◌, ◌≤◌,
  value_or,
}
use phantasma_py.Bytes.{Bytes}
use phantasma_py.Text.{
  decode_utf8, encode_utf8, encode_char, decode_from, next_byte, first_byte, idle, Text, has_zero,
}

-- The bytes of one code point, read from between two code points.
decode_from-encode_char :
    (c : ℕ) (raw rest : Bytes)
    → encode_char c ≡ ok raw
    → decode_from idle (raw ++ rest) ≡ and_then (decode_from idle rest) (λ text. ok (c ∷ text))
unfolding encode_char decode_from next_byte first_byte
decode_from-encode_char c raw rest h = ground arith

-- Decoding undoes encoding, on every text that has an encoding.
pub decode_utf8-encode_utf8 :
    (text : Text) {raw : Bytes} → encode_utf8 text ≡ ok raw → decode_utf8 raw ≡ ok text
unfolding decode_utf8 encode_utf8
decode_utf8-encode_utf8 [] h = ground arith
decode_utf8-encode_utf8 (c ∷ text) h =
    let (head, e, h') = and_then-eq-ok (encode_char c) _ h in
    let (tail, e', h'') = and_then-eq-ok (encode_utf8 text) _ h' in
    ground (arith, decode_from-encode_char c head tail e, decode_utf8-encode_utf8 text e')

-- The code points that have an encoding
abbrev pub IsScalar : ℕ → Type 0
IsScalar c = (c < 0xd800) ⊎ ((0xe000 ≤ c) × (c < 0x110000))

encode_char_total : (c : ℕ) → IsScalar c → (raw : Bytes) × (encode_char c ≡ ok raw)
unfolding encode_char
encode_char_total c h = (value_or [] (encode_char c), ground arith)

pub encode_utf8_total :
    (text : Text) → All IsScalar text → (raw : Bytes) × (encode_utf8 text ≡ ok raw)
unfolding encode_utf8
encode_utf8_total [] h = ([], refl)
encode_utf8_total (c ∷ text) (hc, hs) =
    let (head, e) = encode_char_total c hc in
    let (tail, e') = encode_utf8_total text hs in (head ++ tail, rw (e, e'))

has_zero-append :
    (xs ys : Bytes) → has_zero xs ≡ false → has_zero ys ≡ false → has_zero (xs ++ ys) ≡ false
has_zero-append [] ys h h' = h'
has_zero-append (x ∷ xs) ys h h' = ground (arith, has_zero-append xs ys)

encode_char-has_zero :
    (c : ℕ) (raw : Bytes) → (c == 0) ≡ false → encode_char c ≡ ok raw → has_zero raw ≡ false
unfolding encode_char
encode_char-has_zero c raw h e = ground arith

-- A text with no zero has no zero byte.
pub encode_utf8-has_zero :
    (text : Text) {raw : Bytes}
    → has_zero text ≡ false
    → encode_utf8 text ≡ ok raw
    → has_zero raw ≡ false
unfolding encode_utf8
encode_utf8-has_zero [] h e = ground arith
encode_utf8-has_zero (c ∷ text) h e =
    let (head, e₁, e') = and_then-eq-ok (encode_char c) _ e in
    let (tail, e₂, e'') = and_then-eq-ok (encode_utf8 text) _ e' in
    ground (
      arith,
      encode_char-has_zero c head (ground arith) e₁,
      encode_utf8-has_zero text (ground arith) e₂,
      has_zero-append head tail,
    )
