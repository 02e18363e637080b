-- ===== src/Bytes.antt =====
-- Integers as bytes, the part of Python's `struct`, `int.to_bytes` and `int.from_bytes` that the
-- binary formats use: little endian, of a fixed width, unsigned or in two's complement. A byte
-- string is a list of numbers.
pub mod LittleEndian
pub mod Bits
use phantasma_py.Prelude.{
  ℕ, zero, suc, ◌+◌, ◌-◌, ◌*◌, ◌/◌, ◌%◌, ◌^◌, List, [], ◌∷◌, ℤ, pos, negsuc, ltb, if◌then◌else◌,
  Result, ok, err, serialization,
}

abbrev pub Bytes : Type 0
Bytes = List ℕ

-- The `width` lowest bytes of a number, lowest first.
unfoldable pub to_le : ℕ → ℕ → Bytes
to_le zero n = []
to_le (suc width) n = (n % 256) ∷ to_le width (n / 256)

-- `int.from_bytes(raw, "little", signed=False)`
unfoldable pub from_le : Bytes → ℕ
from_le [] = 0
from_le (b ∷ raw) = b + 256 * from_le raw

-- `value % 2 ^ bits` for a value of at most `bits` bits and a sign
unfoldable pub twos_complement : ℕ → ℤ → ℕ
twos_complement bits (pos n) = n
twos_complement bits (negsuc n) = 2 ^ bits - suc n

-- The signed integer that a word of `bits` bits stands for.
unfoldable pub from_twos_complement : ℕ → ℕ → ℤ
from_twos_complement bits n = if ltb n (2 ^ (bits - 1)) then pos n else negsuc (2 ^ bits - n - 1)

-- `_check_unsigned` of carbon.py and of binary.py
unfoldable pub check_unsigned : ℕ → ℤ → Result ℕ
check_unsigned bits (pos n) = if ltb n (2 ^ bits) then ok n else err serialization
check_unsigned bits (negsuc n) = err serialization

-- `_check_signed` of carbon.py and of binary.py: -2 ^ (bits - 1) is the least value.
unfoldable pub check_signed : ℕ → ℤ → Result ℤ
check_signed bits (pos n) = if ltb n (2 ^ (bits - 1)) then ok (pos n) else err serialization
check_signed bits (negsuc n) = if ltb n (2 ^ (bits - 1)) then ok (negsuc n) else err serialization
