-- ===== src/Carbon/Writer.antt =====
-- `CarbonWriter` of carbon.py: an append-only buffer. A writing method returns nothing.
use Prim.Native.Nat.{bit_and, bit_or}
use phantasma_py.Prelude.{
  ℕ, zero, suc, ◌-◌, List, [], ◌∷◌, ◌++◌, ◌==◌, ltb, if◌then◌else◌, Bool, ℤ, pos, negsuc,
  fits_bit_length, Result, ok, err, serialization, Method, ◌>>=◌, ◌>>◌, pure, raise, lift, length,
  get_or, take, replicate, ◌%◌, ◌*◌,
}
use phantasma_py.Bytes.{Bytes, to_le, twos_complement, check_unsigned, check_signed}
use phantasma_py.Text.{Text, encode_utf8, has_zero}

pub record CarbonWriter : Type 0 where
  pub buffer : Bytes

-- A method that writes and returns nothing.
abbrev pub Write : Type 0
Write = Method CarbonWriter (Unit {0})

unfoldable pub write : Bytes → Write
write raw w = ok (tt, record { buffer = w.buffer ++ raw })

unfoldable pub write1 : ℤ → Write
write1 (pos n) = if ltb 0xff n then raise serialization else write (n ∷ [])
write1 (negsuc n) = raise serialization

-- `struct.pack` of a checked value, signed and unsigned
unfoldable pub write_signed : ℕ → ℤ → Write
write_signed width value = do
  checked ← lift (check_signed (8 * width) value)
  write (to_le width (twos_complement (8 * width) checked))

unfoldable pub write_unsigned : ℕ → ℤ → Write
write_unsigned width value = do
  checked ← lift (check_unsigned (8 * width) value)
  write (to_le width checked)

unfoldable pub write2 : ℤ → Write
write2 = write_signed 2

unfoldable pub write4 : ℤ → Write
write4 = write_signed 4

unfoldable pub write4u : ℤ → Write
write4u = write_unsigned 4

unfoldable pub write8 : ℤ → Write
write8 = write_signed 8

unfoldable pub write8u : ℤ → Write
write8u = write_unsigned 8

-- `FixedBytes(value)` for bytes: no bytes at all stand for zeroes.
unfoldable pub fixed_bytes : ℕ → Bytes → Result Bytes
fixed_bytes size [] = ok (replicate size 0)
fixed_bytes size (b ∷ raw) = if length (b ∷ raw) == size then ok (b ∷ raw) else err serialization

unfoldable pub write_fixed : ℕ → Bytes → Write
write_fixed size value = do raw ← lift (fixed_bytes size value); write raw

unfoldable pub write16 : Bytes → Write
write16 = write_fixed 16

unfoldable pub write32 : Bytes → Write
write32 = write_fixed 32

unfoldable pub write64 : Bytes → Write
write64 = write_fixed 64

-- `_big_int_word`: 32 bytes of the value modulo 2 ^ 256.
unfoldable pub big_int_word : ℤ → Result Bytes
big_int_word value =
    if fits_bit_length 256 value
    then ok (to_le 32 (twos_complement 256 value))
    else err serialization

-- `while length > 0 and word[length - 1] == fill: length -= 1`
unfoldable pub trimmed_length : Bytes → ℕ → ℕ → ℕ
trimmed_length word fill zero = zero
trimmed_length word fill (suc n) =
    let shorter = trimmed_length word fill n in if get_or word n 0 == fill then shorter else suc n

unfoldable pub word_fill : Bytes → ℕ
word_fill word = if bit_and (get_or word 31 0) 0x80 == 0 then 0x00 else 0xff

unfoldable pub big_int_header : ℕ → ℕ → ℕ
big_int_header n fill =
    let header = bit_and n 0x3f in if fill == 0xff then bit_or header 0x80 else header

unfoldable pub write_word : Bytes → Write
write_word word =
    let fill = word_fill word in
    let n = trimmed_length word fill (length word) in
    do write1 (pos (big_int_header n fill)); write (take n word)

unfoldable pub write_big_int : ℤ → Write
write_big_int (pos zero) = write1 (pos 0)
write_big_int (pos (suc n)) = do word ← lift (big_int_word (pos (suc n))); write_word word
write_big_int (negsuc n) = do word ← lift (big_int_word (negsuc n)); write_word word

-- `for value in values: ...`
unfoldable pub write_each : {A : Type 0} → (A → Write) → List A → Write
write_each write_item [] = pure tt
write_each write_item (x ∷ xs) = do write_item x; write_each write_item xs

-- A length of four bytes, then the items: the shape of every array that is written, and
-- `_write_carbon_array`.
unfoldable pub write_carbon_array : {A : Type 0} → (A → Write) → List A → Write
write_carbon_array write_item values = do write4 (pos (length values)); write_each write_item values

unfoldable pub write_big_int_array : List ℤ → Write
write_big_int_array = write_carbon_array write_big_int

unfoldable pub write_string_z : Text → Write
write_string_z value =
    if has_zero value
    then raise serialization
    else do raw ← lift (encode_utf8 value); write raw; write1 (pos 0)

unfoldable pub write_string_z_array : List Text → Write
write_string_z_array = write_carbon_array write_string_z

unfoldable pub write_byte_array : Bytes → Write
write_byte_array raw = do write4 (pos (length raw)); write raw

unfoldable pub write_byte_arrays : List Bytes → Write
write_byte_arrays = write_carbon_array write_byte_array

-- `value & 0xFF`
unfoldable pub low_byte : ℤ → ℕ
low_byte (pos n) = n % 256
low_byte (negsuc n) = 255 - n % 256

-- The body of the loop of `write_int_array`
unfoldable pub write_int_item : ℕ → Bool → ℤ → Write
write_int_item width signed value =
    if width == 1
    then write1 (pos (low_byte value))
    else if width == 2
    then write2 value
    else if width == 4
    then write4 value
    else if width == 8
    then (if signed then write8 value else write8u value)
    else raise serialization

unfoldable pub write_int_array : List ℤ → ℕ → Bool → Write
write_int_array values width signed = write_carbon_array (write_int_item width signed) values
