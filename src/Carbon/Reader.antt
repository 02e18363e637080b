-- ===== src/Carbon/Reader.antt =====
-- `CarbonReader` of carbon.py: the data and the offset of the next byte.
use Prim.Native.Nat.{bit_and}
use phantasma_py.Prelude.{
  ℕ, zero, suc, ◌+◌, ◌-◌, ◌*◌, ◌^◌, List, [], ◌∷◌, ◌++◌, ◌==◌, ltb, if◌then◌else◌, Bool, true,
  false, ℤ, pos, negsuc, Result, ok, err, and_then, serialization, Method, ◌>>=◌, pure, raise, lift,
  length, get_or, take, drop, replicate, ◌||◌, not,
}
use phantasma_py.Bytes.{Bytes, from_le, from_twos_complement}
use phantasma_py.Text.{Text, decode_utf8}
use phantasma_py.Carbon.Writer.{fixed_bytes}

pub record CarbonReader : Type 0 where
  pub contents : Bytes
  pub offset : ℕ

abbrev pub Read : Type 0 → Type 0
Read = Method CarbonReader

unfoldable pub remaining : CarbonReader → ℕ
remaining r = length r.contents - r.offset

unfoldable pub assert_eof : Read (Unit {0})
assert_eof r = if remaining r == 0 then ok (tt, r) else err serialization

-- A count is never negative where the code calls `read`.
unfoldable pub read : ℕ → Read Bytes
unfolding remaining
read count r =
    if ltb (remaining r) count
    then err serialization
    else ok (take count (drop r.offset r.contents), record r { offset = r.offset + count })

unfoldable pub read1 : Read ℕ
read1 = do raw ← read 1; pure (get_or raw 0 0)

-- `struct.unpack` of `width` bytes, signed and unsigned
unfoldable pub read_signed : ℕ → Read ℤ
read_signed width = do raw ← read width; pure (from_twos_complement (8 * width) (from_le raw))

unfoldable pub read_unsigned : ℕ → Read ℤ
read_unsigned width = do raw ← read width; pure (pos (from_le raw))

unfoldable pub read2 : Read ℤ
read2 = read_signed 2

unfoldable pub read4 : Read ℤ
read4 = read_signed 4

unfoldable pub read4u : Read ℤ
read4u = read_unsigned 4

unfoldable pub read8 : Read ℤ
read8 = read_signed 8

unfoldable pub read8u : Read ℤ
read8u = read_unsigned 8

-- The length of an array: never negative, and never more than the bytes that are left.
unfoldable pub check_length : ℤ → Read ℕ
unfolding remaining
check_length (pos n) r = if ltb (remaining r) n then err serialization else ok (n, r)
check_length (negsuc n) r = err serialization

unfoldable pub read_length : Read ℕ
read_length = do n ← read4; check_length n

unfoldable pub read_fixed : ℕ → Read Bytes
read_fixed size = do raw ← read size; lift (fixed_bytes size raw)

unfoldable pub read16 : Read Bytes
read16 = read_fixed 16

unfoldable pub read32 : Read Bytes
read32 = read_fixed 32

unfoldable pub read64 : Read Bytes
read64 = read_fixed 64

-- `_int_from_word`
unfoldable pub int_from_word : Bytes → Result ℤ
int_from_word word =
    if length word == 32
    then ok (
        if bit_and (get_or word 31 0) 0x80 == 0
        then pos (from_le word)
        else negsuc (2 ^ 256 - from_le word - 1))
    else err serialization

-- `read_big_int_with_header` from the reading of the header on, its bytes read
unfoldable pub word_of : ℕ → ℕ → Bytes → Bytes
word_of header n raw =
    let fill : ℕ = if bit_and header 0x80 == 0 then 0x00 else 0xff in raw ++ replicate (32 - n) fill

unfoldable pub check_word : ℕ → Bytes → Result ℤ
check_word header word =
    if bit_and (get_or word 31 0) 0x80 == bit_and header 0x80
    then int_from_word word
    else err serialization

unfoldable pub read_big_int_with_header : ℕ → Read ℤ
read_big_int_with_header header =
    if header == 0
    then pure (pos 0)
    else let n = bit_and header 0x3f in
      if not (bit_and header 0x40 == 0) || ltb 32 n
      then raise serialization
      else do raw ← read n; lift (check_word header (word_of header n raw))

unfoldable pub read_big_int : Read ℤ
read_big_int = do header ← read1; read_big_int_with_header header

-- `[... for _ in range(count)]`
unfoldable pub read_each : {A : Type 0} → ℕ → Read A → Read (List A)
read_each zero read_item = pure []
read_each (suc count) read_item = do x ← read_item; xs ← read_each count read_item; pure (x ∷ xs)

-- `_read_carbon_array`, and the shape of the other arrays that are read
unfoldable pub read_carbon_array : {A : Type 0} → Read A → Read (List A)
read_carbon_array read_item = do count ← read_length; read_each count read_item

unfoldable pub read_big_int_array : Read (List ℤ)
read_big_int_array = read_carbon_array read_big_int

-- The loop of `read_string_z` over the bytes from the offset on: those before the first zero.
unfoldable pub scan_zero : Bytes → Result Bytes
scan_zero [] = err serialization
scan_zero (b ∷ rest) =
    let more = scan_zero rest in if b == 0 then ok [] else and_then more (λ raw. ok (b ∷ raw))

unfoldable pub read_raw_z : Read Bytes
read_raw_z r =
    and_then (scan_zero (drop r.offset r.contents))
      λ raw. ok (raw, record r { offset = r.offset + length raw + 1 })

unfoldable pub read_string_z : Read Text
read_string_z = do raw ← read_raw_z; lift (decode_utf8 raw)

unfoldable pub read_string_z_array : Read (List Text)
read_string_z_array = read_carbon_array read_string_z

unfoldable pub read_byte_array : Read Bytes
read_byte_array = do count ← read_length; read count

unfoldable pub read_byte_arrays : Read (List Bytes)
read_byte_arrays = read_carbon_array read_byte_array

-- `if signed and value >= 0x80: value -= 0x100`
unfoldable pub signed_byte : Bool → ℕ → ℤ
signed_byte true n = from_twos_complement 8 n
signed_byte false n = pos n

unfoldable pub read_int_item : ℕ → Bool → Read ℤ
read_int_item width signed =
    if width == 1
    then (do n ← read1; pure (signed_byte signed n))
    else if width == 2
    then read2
    else if width == 4
    then read4
    else if width == 8
    then (if signed then read8 else read8u)
    else raise serialization

unfoldable pub read_int_array : ℕ → Bool → Read (List ℤ)
read_int_array width signed = read_carbon_array (read_int_item width signed)

-- `read1` where the program keeps the byte as a number
unfoldable pub read1_int : Read ℤ
read1_int = do n ← read1; pure (pos n)
