-- ===== src/Carbon/Values/IntXs/Large.antt =====
-- The values of an `IntX` that do not fit in eight bytes: the compact form, and the eight bytes
-- whose sign is not the header's.
use Prim.Native.Nat.{bit_and}
use native.Mathlib.Decide.{dec_lt}
use mathlib.Core.Bool.{false≢true}
use phantasma_py.Prelude.{
  ℕ, All, Bool, replicate, ◌<◌, suc, ◌++◌, ◌^◌, ◌≡◌, if◌then◌else◌, length, zero, ◌+◌, ◌∷◌, false,
  true, ◌*◌, ◌-◌, is_negative, refl, sym, not, ◌∙◌, ap, arith, length-append, ok, ◌≤◌, append_assoc,
  length-replicate, ◌==◌, All-append, Bool-cases, IsSigned, ℤ, All-replicate, inl, pos, le→ltb,
  ==_iff, inr, negsuc, lift, same, subst, ◌>>=◌,
}
use phantasma_py.Bytes.{Bytes, to_le, from_le, twos_complement, from_twos_complement}
use phantasma_py.Bytes.LittleEndian.{
  from_le-append, from_le-lt, from_le-to_le, IsByte, from_twos_complement-twos_complement,
}
use phantasma_py.Bytes.Bits.{bit_and_3f, bit_and_80}
use phantasma_py.Carbon.Writer.{write, write_word, write_big_int, big_int_word}
use phantasma_py.Carbon.Codec.{Encodes, Encodes-bind, Encodes-weaken, Encodes-lift, Encodes-last}
use phantasma_py.Carbon.Codec.Numbers.{Encodes-checked, write1_lem, write-length}
use phantasma_py.Carbon.Codec.Words.{
  significant_bytes-IsByte, significant, significant-le, significant_bytes,
  length-significant_bytes, significant_bytes-completes, write_word-eq, header-lt, significant-read,
  is_high, sign_fill, sign_bit, int_from_word-to_le,
}
use phantasma_py.Carbon.Codec.BigInts.{big_int_word-eq, fits_of_IsSigned}
use phantasma_py.Carbon.Values.{is_8_byte_safe, read_int_x, read_int_x_with_header, widen}

replicate-add : (n m b : ℕ) → replicate n b ++ replicate m b ≡ replicate (n + m) b
replicate-add zero m b = ap (λ k. replicate k b) (omega arith)
replicate-add (suc n) m b =
    ap (λ l. b ∷ l) (replicate-add n m b)
    ∙ ap (λ k. replicate k b) (let e : suc (n + m) ≡ suc n + m = omega arith in e)

fill_up :
    (raw : Bytes) (n m k b : ℕ)
    → n ≤ m
    → (raw ++ replicate (m - n) b) ++ replicate k b ≡ raw ++ replicate (m + k - n) b
fill_up raw n m k b h =
    append_assoc raw (replicate (m - n) b) (replicate k b)
    ∙ ap (λ l. raw ++ l) (replicate-add (m - n) k b ∙ ap (λ j. replicate j b) (omega arith))

from_le-fill :
    (negative : Bool)
    → (from_le (replicate 25 (sign_fill negative)) ≡ (if negative then 256 ^ 25 - 1 else 0))
      × (from_le (replicate 24 (sign_fill negative)) ≡ (if negative then 256 ^ 24 - 1 else 0))
unfolding from_le
from_le-fill true = (refl, refl)
from_le-fill false = (refl, refl)

same-not : (b : Bool) → same b (not b) ≡ false
same-not true = refl
same-not false = refl

module _ (u : ℕ) (h : u < 2 ^ 256) where
  value_of :
      (raw : Bytes) (m k : ℕ)
      → length raw ≡ m
      → raw ++ replicate k (sign_fill (is_high u)) ≡ to_le 32 u
      → u ≡ from_le raw + 256 ^ m * from_le (replicate k (sign_fill (is_high u)))
  value_of raw m k size e = sym (from_le-to_le 32 u h) ∙ rw (← e) (rw (from_le-append, size))

  -- Seven bytes are enough for no value but those that are safe.
  seven_bytes :
      (raw : Bytes)
      → length raw ≡ 7
      → All IsByte raw
      → raw ++ replicate 25 (sign_fill (is_high u)) ≡ to_le 32 u
      → is_8_byte_safe (from_twos_complement 256 u) ≡ true
  unfolding is_8_byte_safe from_twos_complement
  seven_bytes raw size bytes e =
      let low : from_le raw < 256 ^ 7 = rw size at (from_le-lt raw bytes) in
      ground (arith, value_of raw 7 25 size e, from_le-fill (is_high u))

  eight_bytes :
      (raw : Bytes)
      → length raw ≡ 8
      → All IsByte raw
      → raw ++ replicate 24 (sign_fill (is_high u)) ≡ to_le 32 u
      → is_8_byte_safe (from_twos_complement 256 u) ≡ false
      → is_negative (from_twos_complement 64 (from_le raw)) ≡ not (is_high u)
  unfolding is_8_byte_safe from_twos_complement
  eight_bytes raw size bytes e =
      let low : from_le raw < 256 ^ 8 = rw size at (from_le-lt raw bytes) in
      ground (arith, value_of raw 8 24 size e, from_le-fill (is_high u))

  -- The bytes that are written, filled up to seven
  filled : Bytes
  filled = significant_bytes u h ++ replicate (7 - significant u h) (sign_fill (is_high u))

  length-filled : significant u h < 8 → length filled ≡ 7
  unfolding filled
  length-filled few = omega (
    arith,
    length-append {0} (significant_bytes u h)
        (replicate (7 - significant u h) (sign_fill (is_high u))),
    length-replicate {0} (7 - significant u h) (sign_fill (is_high u)),
    length-significant_bytes u h,
  )

  filled-completes :
      significant u h < 8 → filled ++ replicate 25 (sign_fill (is_high u)) ≡ to_le 32 u
  unfolding filled
  filled-completes few =
      fill_up (significant_bytes u h) (significant u h) 7 25 (sign_fill (is_high u)) (omega arith)
      ∙ significant_bytes-completes u h

  filled-IsByte : All IsByte filled
  unfolding filled
  filled-IsByte =
      All-append IsByte (significant_bytes u h) _ (significant_bytes-IsByte u h)
        (All-replicate IsByte (7 - significant u h) (sign_fill (is_high u)) (ground arith))

  module _ (unsafe : is_8_byte_safe (from_twos_complement 256 u) ≡ false) where
    eight-le-significant : 8 ≤ significant u h
    eight-le-significant = elim (dec_lt (significant u h) 8) [
      | yes few ↦ absurd (
          false≢true (
            sym unsafe
            ∙ seven_bytes filled (length-filled few) filled-IsByte (filled-completes few)))
      | no many ↦ omega arith
    ]

    header : ℕ
    header = significant u h + sign_bit (is_high u)

    header-n : bit_and header 0x3f ≡ significant u h
    unfolding header
    header-n = rw (bit_and_3f _ (header-lt u h)) (ground (arith, significant-le u h))

    header-sign : not (bit_and header 0x80 == 0) ≡ is_high u
    unfolding header
    header-sign = rw (bit_and_80 _ (header-lt u h)) (ground (arith, significant-le u h))

    eight-completes :
        significant u h ≡ 8
        → significant_bytes u h ++ replicate 24 (sign_fill (is_high u)) ≡ to_le 32 u
    eight-completes e = rw e at (significant_bytes-completes u h)

    widen-header :
        significant u h ≡ 8
        → widen header (significant_bytes u h) ≡ ok (record { value = from_twos_complement 256 u })
    unfolding widen
    widen-header e = rw (
      header-sign,
      eight_bytes (significant_bytes u h) (length-significant_bytes u h ∙ e)
          (significant_bytes-IsByte u h) (eight-completes e) unsafe,
      same-not (is_high u),
      eight-completes e,
      int_from_word-to_le u h,
    )

    read_lem :
        Encodes 0
          (write (significant_bytes u h))
          (read_int_x_with_header header)
          (record { value = from_twos_complement 256 u })
    unfolding read_int_x_with_header
    read_lem = elim (Bool-cases (significant u h == 8)) [
      | inl e ↦
          rw (header-n, le→ltb _ _ eight-le-significant, e)
            (Encodes-weaken 0 (omega arith) (
              Encodes-lift
                (write-length 8 (significant_bytes u h)
                  (length-significant_bytes u h ∙ (==_iff _ _).0 e))
                (widen header) (widen-header ((==_iff _ _).0 e))))
      | inr ne ↦
          rw (header-n, le→ltb _ _ eight-le-significant, ne)
            (unfold header in
              Encodes-last (significant-read u h) (λ value. record { value = value }))
    ]

module _ (v : ℤ) (h : IsSigned 256 v) (unsafe : is_8_byte_safe v ≡ false) where
  unwrapped : from_twos_complement 256 (twos_complement 256 v) ≡ v
  unwrapped = from_twos_complement-twos_complement 256 v refl h

  unsafe_word :
      twos_complement 256 v < 2 ^ 256
      → Encodes 1 (write_word (to_le 32 (twos_complement 256 v))) read_int_x (record { value = v })
  unfolding read_int_x header
  unsafe_word small =
      let u = twos_complement 256 v in
      rw (write_word-eq u small) (
        Encodes-bind (write1_lem _ (header-lt u small)) read_int_x_with_header (
          subst
            (λ x.
              Encodes 0 (write (significant_bytes u small))
                (read_int_x_with_header (significant u small + sign_bit (is_high u)))
                (record { value = x }))
            unwrapped (read_lem u small (ap is_8_byte_safe unwrapped ∙ unsafe))))

  unsafe_checked :
      Encodes 1 (lift (big_int_word v) >>= write_word) read_int_x (record { value = v })
  unsafe_checked =
      let (word, small) = big_int_word-eq v (fits_of_IsSigned v h) in
      Encodes-checked (big_int_word v) write_word word (unsafe_word small)

pub unsafe_lem :
    (v : ℤ)
    → IsSigned 256 v
    → is_8_byte_safe v ≡ false
    → Encodes 1 (write_big_int v) read_int_x (record { value = v })
unfolding write_big_int
unsafe_lem (pos zero) h unsafe = absurd (false≢true (unfold is_8_byte_safe in sym unsafe))
unsafe_lem (pos (suc n)) h unsafe = unsafe_checked (pos (suc n)) h unsafe
unsafe_lem (negsuc n) h unsafe = unsafe_checked (negsuc n) h unsafe
