-- ===== src/Carbon/Values/IntXs.antt =====
-- Every signed 256-bit value of an `IntX` reads back.
mod Large
use phantasma_py.Carbon.Values.IntXs.Large.{unsafe_lem}
use Prim.Native.Nat.{bit_and}
use phantasma_py.Prelude.{
  ℕ, replicate, ◌++◌, ◌≡◌, if◌then◌else◌, true, is_negative, refl, not, arith, ok, ◌==◌, Bool-cases,
  IsSigned, ℤ, inl, pos, ◌>>◌, inr, negsuc, same, and_then, Result,
}
use phantasma_py.Bytes.{check_signed, to_le, twos_complement}
use phantasma_py.Bytes.LittleEndian.{
  length-to_le, twos_complement-lt, from_le-to_le, from_twos_complement-twos_complement,
}
use phantasma_py.Carbon.Writer.{write, write1, write8, write_signed}
use phantasma_py.Carbon.Reader.{int_from_word}
use phantasma_py.Carbon.Codec.{Encodes, Encodes-bind, Encodes-lift}
use phantasma_py.Carbon.Codec.Numbers.{
  check_signed-eq-ok, Encodes-checked, write1_lem, write-length,
}
use phantasma_py.Carbon.Values.{
  IntX, is_8_byte_safe, write_int_x, read_int_x, read_int_x_with_header, widen,
}

abbrev safe_header : ℤ → ℕ
safe_header v = if is_negative v then 0x88 else 0x08

widen-safe :
    (v : ℤ)
    → IsSigned 64 v
    → widen (safe_header v) (to_le 8 (twos_complement 64 v)) ≡ ok (record { value = v })
unfolding widen
widen-safe v h =
    rw
      (
        from_le-to_le 8 _ (twos_complement-lt 64 v refl h),
        from_twos_complement-twos_complement 64 v refl h,
      )
      (safe_sign v)
  where
    safe_sign :
        (v : ℤ)
        → ◌≡◌ {A = Result IntX}
            (if same (not (bit_and (safe_header v) 0x80 == 0)) (is_negative v)
              then ok (record { value = v })
              else and_then
                  (int_from_word (
                    to_le 8 (twos_complement 64 v)
                    ++ replicate 24
                        (if not (bit_and (safe_header v) 0x80 == 0) then 0xff else 0x00)))
                  (λ w. ok (record { value = w })))
            (ok (record { value = v }))
    safe_sign (pos n) = refl
    safe_sign (negsuc n) = refl

safe_rest :
    (v : ℤ)
    → IsSigned 64 v
    → Encodes 8
        (write (to_le 8 (twos_complement 64 v)))
        (read_int_x_with_header (safe_header v))
        (record { value = v })
unfolding read_int_x_with_header
safe_rest (pos n) h =
    Encodes-lift (write-length 8 (to_le 8 n') (length-to_le 8 n')) (widen 0x08)
      (widen-safe (pos n) h)
  where
    n' : ℕ
    n' = twos_complement 64 (pos n)
safe_rest (negsuc n) h =
    Encodes-lift (write-length 8 (to_le 8 n') (length-to_le 8 n')) (widen 0x88)
      (widen-safe (negsuc n) h)
  where
    n' : ℕ
    n' = twos_complement 64 (negsuc n)

safe_lem :
    (v : ℤ)
    → IsSigned 64 v
    → Encodes 1 (write1 (pos (safe_header v)) >> write8 v) read_int_x (record { value = v })
unfolding read_int_x write8 write_signed
safe_lem v h = Encodes-bind (write1_lem (safe_header v) (ground arith)) read_int_x_with_header (
    Encodes-checked (check_signed 64 v) (λ x. write (to_le 8 (twos_complement 64 x)))
      (check_signed-eq-ok 64 v h) (safe_rest v h))

is_8_byte_safe-IsSigned : (v : ℤ) → is_8_byte_safe v ≡ true → IsSigned 64 v
unfolding is_8_byte_safe
is_8_byte_safe-IsSigned (pos n) h = ground arith
is_8_byte_safe-IsSigned (negsuc n) h = ground arith

-- Every signed 256-bit value reads back.
pub write_int_x_lem : (x : IntX) → IsSigned 256 x.value → Encodes 1 (write_int_x x) read_int_x x
unfolding write_int_x
write_int_x_lem x h = elim (Bool-cases (is_8_byte_safe x.value)) [
  | inl safe ↦ rw safe (safe_lem x.value (is_8_byte_safe-IsSigned x.value safe))
  | inr unsafe ↦ rw unsafe (unsafe_lem x.value h unsafe)
]
