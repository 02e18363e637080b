-- ===== src/Binary/BigInts.antt =====
-- The signed big integers of binary.py: the shortest word of C#'s BigInteger, and the padded word
-- that the VM stores.
pub mod Words
use phantasma_py.Binary.{read_var_bytes, max_array_size, write_var_bytes}
use phantasma_py.Carbon.Reader.{Read}
use phantasma_py.Carbon.Writer.{Write}
use phantasma_py.Bytes.{Bytes, from_twos_complement, from_le, to_le, twos_complement}
use phantasma_py.Prelude.{
  pos, negsuc, ℕ, ℤ, Result, get_or, if◌then◌else◌, max, suc, ◌∷◌, and_then, length, ltb, ok, ◌+◌,
  ◌/◌, ◌^◌, [], zero, ◌*◌, ◌++◌, ◌-◌, ◌==◌, not, err, overflow, ◌>>=◌, lift, pure,
}

-- `int.bit_length`, with as many halvings as there can be
unfoldable pub halvings : ℕ → ℕ → ℕ
halvings zero n = 0
halvings (suc k) zero = 0
halvings (suc k) (suc n) = suc (halvings k (suc n / 2))

unfoldable pub bit_length : ℕ → ℕ
bit_length n = halvings n n

-- `value`, or `~value` for a negative one
unfoldable pub magnitude : ℤ → ℕ
magnitude (pos n) = n
magnitude (negsuc n) = n

-- `int.to_bytes(width, "little", signed=True)`
unfoldable pub signed_to_bytes : ℕ → ℤ → Result Bytes
signed_to_bytes width value =
    if ltb (magnitude value) (2 ^ (8 * width - 1))
    then ok (to_le width (twos_complement (8 * width) value))
    else err overflow

unfoldable pub big_int_to_csharp_bytes : ℤ → Result Bytes
big_int_to_csharp_bytes (pos zero) = ok (0 ∷ [])
big_int_to_csharp_bytes value =
    let bit_count = bit_length (magnitude value) + 1 in
    signed_to_bytes (max 1 ((bit_count + 7) / 8)) value

unfoldable pub vm_bytes_to_big_int : Bytes → ℤ
vm_bytes_to_big_int [] = pos 0
vm_bytes_to_big_int (b ∷ raw) = from_twos_complement (8 * length (b ∷ raw)) (from_le (b ∷ raw))

abbrev last_byte : Bytes → ℕ
last_byte raw = get_or raw (length raw - 1) 0

-- The bytes that are added to the shortest word
unfoldable pub padding : ℤ → Bytes → Bytes
padding (negsuc n) raw =
    if length raw == 1 then 0xff ∷ 0xff ∷ [] else if last_byte raw == 0xff then 0xff ∷ [] else []
padding (pos n) raw = if not (last_byte raw == 0) then 0 ∷ [] else []

unfoldable pub big_int_to_vm_bytes : ℤ → Result Bytes
big_int_to_vm_bytes value =
    and_then (big_int_to_csharp_bytes value) λ raw. ok (raw ++ padding value raw)

unfoldable pub write_big_integer : ℤ → Write
write_big_integer value = do raw ← lift (big_int_to_vm_bytes value); write_var_bytes raw

unfoldable pub read_big_integer : Read ℤ
read_big_integer = do raw ← read_var_bytes max_array_size; pure (vm_bytes_to_big_int raw)
