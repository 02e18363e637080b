-- ===== src/Carbon/Codec/SignedArrays.antt =====
-- Signed bytes, and arrays of signed numbers: what is written reads back.
use phantasma_py.Carbon.Codec.Arrays.{write_carbon_array_lem}
use phantasma_py.Carbon.Codec.Numbers.{write2_lem, write4_lem, write8_lem, write1_lem}
use phantasma_py.Carbon.Codec.{Encodes, Encodes-weaken, Encodes-last}
use phantasma_py.Bytes.{from_twos_complement}
use phantasma_py.Carbon.Reader.{signed_byte, read_int_item, read1, read_int_array}
use phantasma_py.Carbon.Writer.{low_byte, write_int_item, write1, write_int_array}
use phantasma_py.Prelude.{
  pos, negsuc, true, List, ℕ, ℤ, IsSigned, length, ◌<◌, arith, ◌*◌, ◌^◌, ◌≡◌, All, ◌>>=◌, pure,
  subst, ap,
}

low_byte-lt : (v : ℤ) → low_byte v < 256
unfolding low_byte
low_byte-lt (pos n) = omega arith
low_byte-lt (negsuc n) = omega arith

-- `value & 0xFF` and the sign that is given back to it
signed_byte-low_byte : (v : ℤ) → IsSigned 8 v → signed_byte true (low_byte v) ≡ v
unfolding signed_byte low_byte from_twos_complement
signed_byte-low_byte (pos n) h = ground arith
signed_byte-low_byte (negsuc n) h = ground arith

-- A signed byte, and what is made of it
pub write_int8_lem :
    {A : Type 0} (g : ℤ → A) (v : ℤ)
    → IsSigned 8 v
    → Encodes 1 (write1 (pos (low_byte v))) (read1 >>= λ n. pure (g (signed_byte true n))) (g v)
write_int8_lem {A} g v h =
    subst
      (λ (x : A).
        Encodes 1 (write1 (pos (low_byte v))) (read1 >>= λ n. pure (g (signed_byte true n))) x)
      (ap g (signed_byte-low_byte v h))
      (Encodes-last (write1_lem (low_byte v) (low_byte-lt v)) (λ n. g (signed_byte true n)))

write_int8_item :
    (v : ℤ) → IsSigned 8 v → Encodes 1 (write_int_item 1 true v) (read_int_item 1 true) v
unfolding write_int_item read_int_item
write_int8_item = write_int8_lem (λ v. v)

write_int16_item :
    (v : ℤ) → IsSigned 16 v → Encodes 1 (write_int_item 2 true v) (read_int_item 2 true) v
unfolding write_int_item read_int_item
write_int16_item = λ v h. Encodes-weaken 1 (omega arith) (write2_lem v h)

write_int32_item :
    (v : ℤ) → IsSigned 32 v → Encodes 1 (write_int_item 4 true v) (read_int_item 4 true) v
unfolding write_int_item read_int_item
write_int32_item = λ v h. Encodes-weaken 1 (omega arith) (write4_lem v h)

write_int64_item :
    (v : ℤ) → IsSigned 64 v → Encodes 1 (write_int_item 8 true v) (read_int_item 8 true) v
unfolding write_int_item read_int_item
write_int64_item = λ v h. Encodes-weaken 1 (omega arith) (write8_lem v h)

module _ (width : ℕ)
    (item : (v : ℤ)
      → IsSigned (8 * width) v
      → Encodes 1 (write_int_item width true v) (read_int_item width true) v) where
  signed_array_lem :
      (vs : List ℤ)
      → length vs < 2 ^ 31
      → All (IsSigned (8 * width)) vs
      → Encodes 4 (write_int_array vs width true) (read_int_array width true) vs
  unfolding write_int_array read_int_array
  signed_array_lem = write_carbon_array_lem item

pub write_int8_array_lem :
    (vs : List ℤ)
    → length vs < 2 ^ 31
    → All (IsSigned 8) vs
    → Encodes 4 (write_int_array vs 1 true) (read_int_array 1 true) vs
write_int8_array_lem = signed_array_lem 1 write_int8_item

pub write_int16_array_lem :
    (vs : List ℤ)
    → length vs < 2 ^ 31
    → All (IsSigned 16) vs
    → Encodes 4 (write_int_array vs 2 true) (read_int_array 2 true) vs
write_int16_array_lem = signed_array_lem 2 write_int16_item

pub write_int32_array_lem :
    (vs : List ℤ)
    → length vs < 2 ^ 31
    → All (IsSigned 32) vs
    → Encodes 4 (write_int_array vs 4 true) (read_int_array 4 true) vs
write_int32_array_lem = signed_array_lem 4 write_int32_item

pub write_int64_array_lem :
    (vs : List ℤ)
    → length vs < 2 ^ 31
    → All (IsSigned 64) vs
    → Encodes 4 (write_int_array vs 8 true) (read_int_array 8 true) vs
write_int64_array_lem = signed_array_lem 8 write_int64_item
