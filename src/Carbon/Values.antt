-- ===== src/Carbon/Values.antt =====
-- The small values of carbon.py: `SmallString` and `IntX`.
pub mod IntXs
pub mod SmallStrings
use Prim.Native.Nat.{bit_and}
use phantasma_py.Prelude.{
  ℕ, Result, if◌then◌else◌, ℤ, Bool, and_then, not, ltb, pos, length, ◌==◌, ◌^◌, err, negsuc,
  serialization, ok, ◌>>=◌, ◌>>◌, is_negative, lift, ◌++◌, replicate, raise, pure, same,
}
use phantasma_py.Bytes.{Bytes, from_le, from_twos_complement}
use phantasma_py.Text.{Text, encode_utf8, decode_utf8}
use phantasma_py.Carbon.Writer.{Write, write, write1, write8, write_big_int}
use phantasma_py.Carbon.Reader.{Read, read, read1, read_big_int_with_header, int_from_word}

pub record SmallString : Type 0 where
  pub value : Text

-- The constructor with `__post_init__`: at most 255 bytes.
unfoldable pub small_string : Text → Result SmallString
small_string value =
    and_then (encode_utf8 value)
      λ raw. if ltb 255 (length raw) then err serialization else ok (record { value = value })

unfoldable pub write_small_string : SmallString → Write
write_small_string s = do raw ← lift (encode_utf8 s.value); write1 (pos (length raw)); write raw

unfoldable pub read_small_string : Read SmallString
read_small_string = do n ← read1; raw ← read n; lift (and_then (decode_utf8 raw) small_string)

pub record IntX : Type 0 where
  pub value : ℤ

unfoldable pub is_8_byte_safe : ℤ → Bool
is_8_byte_safe (pos n) = ltb n (2 ^ 63)
is_8_byte_safe (negsuc n) = ltb n (2 ^ 63)

unfoldable pub write_int_x : IntX → Write
write_int_x x =
    if is_8_byte_safe x.value
    then (do write1 (pos (if is_negative x.value then 0x88 else 0x08)); write8 x.value)
    else write_big_int x.value

-- Eight bytes whose sign is not the header's are the low bytes of a larger number.
unfoldable pub widen : ℕ → Bytes → Result IntX
widen header raw =
    let value = from_twos_complement 64 (from_le raw) in
    let header_negative = not (bit_and header 0x80 == 0) in
    let fill : ℕ = if header_negative then 0xff else 0x00 in
    let word =
      and_then (int_from_word (raw ++ replicate 24 fill)) (λ v. ok (record { value = v })) in
    if same header_negative (is_negative value) then ok (record { value = value }) else word

-- The rest of `IntX.read_carbon`, behind the header
unfoldable pub read_int_x_with_header : ℕ → Read IntX
read_int_x_with_header header =
    let n = bit_and header 0x3f in
    if ltb n 8
    then raise serialization
    else if n == 8
    then (do raw ← read 8; lift (widen header raw))
    else (do value ← read_big_int_with_header header; pure (record { value = value }))

unfoldable pub read_int_x : Read IntX
read_int_x = do header ← read1; read_int_x_with_header header
