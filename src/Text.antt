-- ===== src/Text.antt =====
-- Python's `str` as a list of code points, and the strict UTF-8 codec.
pub mod RoundTrip
pub mod Sorting
use phantasma_py.Prelude.{
  ℕ, zero, suc, ◌+◌, ◌-◌, ◌*◌, ◌/◌, ◌%◌, List, [], ◌∷◌, ◌++◌, ltb, leb, ◌&&◌, ◌==◌, Bool,
  if◌then◌else◌, Result, ok, err, and_then, unicode, false, ◌||◌,
}
use phantasma_py.Bytes.{Bytes}

abbrev pub Text : Type 0
Text = List ℕ

abbrev is_surrogate : ℕ → Bool
is_surrogate c = leb 0xd800 c && ltb c 0xe000

-- The bytes of one code point; a surrogate has none.
unfoldable pub encode_char : ℕ → Result Bytes
encode_char c =
    if ltb c 0x80
    then ok (c ∷ [])
    else if ltb c 0x800
    then ok ((0xc0 + c / 64) ∷ (0x80 + c % 64) ∷ [])
    else if is_surrogate c
    then err unicode
    else if ltb c 0x10000
    then ok ((0xe0 + c / 4096) ∷ (0x80 + c / 64 % 64) ∷ (0x80 + c % 64) ∷ [])
    else if ltb c 0x110000
    then ok
        ((0xf0 + c / 262144) ∷ (0x80 + c / 4096 % 64) ∷ (0x80 + c / 64 % 64) ∷ (0x80 + c % 64) ∷ [])
    else err unicode

-- `text.encode("utf-8")`
unfoldable pub encode_utf8 : Text → Result Bytes
encode_utf8 [] = ok []
encode_utf8 (c ∷ text) =
    and_then (encode_char c) λ head. and_then (encode_utf8 text) λ tail. ok (head ++ tail)

-- Between two bytes the decoder has `more` continuation bytes to come, the bits read so far in
-- `acc`, and the least code point that the length of the sequence allows.
pub record Pending : Type 0 where
  pub more : ℕ
  pub acc : ℕ
  pub least : ℕ

abbrev pub idle : Pending
idle = record { more = 0; acc = 0; least = 0 }

-- What a byte does: it starts or continues a sequence, or it completes a code point.
pub data Step : Type 0 where
  wait : Pending → Step
  emit : ℕ → Step
  fail : Step

unfoldable pub first_byte : ℕ → Step
first_byte b =
    if ltb b 0x80
    then emit b
    else if ltb b 0xc2
    then fail
    else if ltb b 0xe0
    then wait (record { more = 1; acc = b - 0xc0; least = 0x80 })
    else if ltb b 0xf0
    then wait (record { more = 2; acc = b - 0xe0; least = 0x800 })
    else if ltb b 0xf5
    then wait (record { more = 3; acc = b - 0xf0; least = 0x10000 })
    else fail

unfoldable pub next_byte : ℕ → ℕ → ℕ → ℕ → Step
next_byte zero acc least b = first_byte b
next_byte (suc more) acc least b =
    let acc' = acc * 64 + (b - 0x80) in
    if leb 0x80 b && ltb b 0xc0
    then (if more == 0
        then (if ltb acc' least
            then fail
            else if is_surrogate acc'
            then fail
            else if ltb acc' 0x110000
            then emit acc'
            else fail)
        else wait (record { more = more; acc = acc'; least = least }))
    else fail

-- `raw.decode("utf-8")` from the middle of a sequence
unfoldable pub decode_from : Pending → Bytes → Result Text
decode_from p [] = if p.more == 0 then ok [] else err unicode
decode_from p (b ∷ raw) = elim (next_byte p.more p.acc p.least b) [
  | wait q ↦ decode_from q raw
  | emit c ↦ and_then (decode_from idle raw) (λ text. ok (c ∷ text))
  | fail ↦ err unicode
]

unfoldable pub decode_utf8 : Bytes → Result Text
unfolding decode_from next_byte first_byte
decode_utf8 raw = decode_from idle raw

-- `"\x00" in text`
abbrev pub has_zero : List ℕ → Bool
has_zero [] = false
has_zero (c ∷ text) = c == 0 || has_zero text
