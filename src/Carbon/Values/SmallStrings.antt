-- ===== src/Carbon/Values/SmallStrings.antt =====
-- A `SmallString` that the constructor accepts reads back.
use phantasma_py.Prelude.{◌≡◌, length, ok, and_then, ◌<◌, and_then-eq-ok, arith}
use phantasma_py.Bytes.{Bytes}
use phantasma_py.Text.{encode_utf8, decode_utf8}
use phantasma_py.Text.RoundTrip.{decode_utf8-encode_utf8}
use phantasma_py.Carbon.Codec.{Encodes, Encodes-bind, Encodes-lift}
use phantasma_py.Carbon.Codec.Numbers.{Encodes-checked, write1_lem, write_lem}
use phantasma_py.Carbon.Values.{SmallString, small_string, write_small_string, read_small_string}

-- What `__post_init__` guarantees of every object of the class
abbrev pub IsSmallString : SmallString → Type 0
IsSmallString s = small_string s.value ≡ ok s

small_string-eq-ok :
    (s : SmallString)
    → IsSmallString s
    → (raw : Bytes) × (encode_utf8 s.value ≡ ok raw) × (length raw < 256)
unfolding small_string
small_string-eq-ok s h =
    let (raw, e, h') = and_then-eq-ok (encode_utf8 s.value) _ h in (raw, e, ground arith)

pub write_small_string_lem :
    (s : SmallString) → IsSmallString s → Encodes 1 (write_small_string s) read_small_string s
unfolding write_small_string read_small_string
write_small_string_lem s h =
    let (raw, e, short) = small_string-eq-ok s h in
    Encodes-checked (encode_utf8 s.value) _ e (
      Encodes-bind (write1_lem (length raw) short) _ (
        Encodes-lift (write_lem raw) (λ x. and_then (decode_utf8 x) small_string)
          (rw (decode_utf8-encode_utf8 s.value e) h)))
