-- ===== src/Binary.antt =====
-- `BinaryWriter` and `BinaryReader` of binary.py. They keep what `CarbonWriter` and `CarbonReader`
-- keep, an append-only buffer, and the data with an offset, so these records stand for them too;
-- `write`, `read`, `remaining` and `assert_eof` have the same bodies.
pub mod RoundTrip
pub mod BigInts
mod Examples
use phantasma_py.Carbon.Writer.{Write, write_signed, write_unsigned, write}
use phantasma_py.Bytes.{Bytes}
use phantasma_py.Prelude.{
  Bool, ℕ, ℤ, ◌>>=◌, Result, if◌then◌else◌, lift, negsuc, pos, pure, ◌>>◌, get_or, length, ltb, not,
  raise, ◌==◌, err, serialization, leb, ok, ◌∷◌, [],
}
use phantasma_py.Carbon.Reader.{Read, read, read_unsigned, read_signed}
use phantasma_py.Text.{Text, encode_utf8, decode_utf8}

unfoldable pub write_u8 : ℤ → Write
write_u8 (pos n) = if ltb 0xff n then raise serialization else write (n ∷ [])
write_u8 (negsuc n) = raise serialization

unfoldable pub write_u16_le : ℤ → Write
write_u16_le = write_unsigned 2

unfoldable pub write_u32_le : ℤ → Write
write_u32_le = write_unsigned 4

unfoldable pub write_u64_le : ℤ → Write
write_u64_le = write_unsigned 8

unfoldable pub write_i64_le : ℤ → Write
write_i64_le = write_signed 8

unfoldable pub write_bool : Bool → Write
write_bool flag = write_u8 (pos (if flag then 1 else 0))

unfoldable pub write_var_uint : ℤ → Write
write_var_uint (negsuc n) = raise serialization
write_var_uint (pos n) =
    if ltb n 0xfd
    then write_u8 (pos n)
    else if leb n 0xffff
    then (do write_u8 (pos 0xfd); write_u16_le (pos n))
    else if leb n 0xffffffff
    then (do write_u8 (pos 0xfe); write_u32_le (pos n))
    else do write_u8 (pos 0xff); write_u64_le (pos n)

unfoldable pub write_var_bytes : Bytes → Write
write_var_bytes raw = do write_var_uint (pos (length raw)); write raw

unfoldable pub write_string : Text → Write
write_string text = do raw ← lift (encode_utf8 text); write_var_bytes raw

abbrev pub max_array_size : ℕ
max_array_size = 0x1000000

unfoldable pub read_u8 : Read ℕ
read_u8 = do raw ← read 1; pure (get_or raw 0 0)

unfoldable pub read_u16_le : Read ℤ
read_u16_le = read_unsigned 2

unfoldable pub read_u32_le : Read ℤ
read_u32_le = read_unsigned 4

unfoldable pub read_u64_le : Read ℤ
read_u64_le = read_unsigned 8

unfoldable pub read_i64_le : Read ℤ
read_i64_le = read_signed 8

unfoldable pub read_bool : Read Bool
read_bool = do n ← read_u8; pure (not (n == 0))

-- `read_var_uint` behind the first byte
unfoldable pub read_var_uint_from : ℕ → Read ℤ
read_var_uint_from first =
    if first == 0xfd
    then read_u16_le
    else if first == 0xfe
    then read_u32_le
    else if first == 0xff
    then read_u64_le
    else pure (pos first)

unfoldable pub read_var_uint : Read ℤ
read_var_uint = do first ← read_u8; read_var_uint_from first

-- `if size > max_size: raise`
unfoldable pub check_size : ℕ → ℤ → Result ℕ
check_size max_size (pos n) = if ltb max_size n then err serialization else ok n
check_size max_size (negsuc n) = err serialization

unfoldable pub read_sized : ℕ → ℤ → Read Bytes
read_sized max_size size = do n ← lift (check_size max_size size); read n

unfoldable pub read_var_bytes : ℕ → Read Bytes
read_var_bytes max_size = do size ← read_var_uint; read_sized max_size size

unfoldable pub read_string : Read Text
read_string = do raw ← read_var_bytes max_array_size; lift (decode_utf8 raw)
