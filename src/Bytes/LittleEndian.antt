-- ===== src/Bytes/LittleEndian.antt =====
-- What the little-endian bytes of a number give back.
use phantasma_py.Prelude.{
  ℕ, zero, suc, ◌+◌, ◌-◌, ◌*◌, ◌/◌, ◌^◌, ◌<◌, ◌≡◌, refl, ap, [], ◌∷◌, ◌++◌, arith, length, All, ℤ,
  pos, negsuc, IsSigned,
}
use phantasma_py.Bytes.{Bytes, to_le, from_le, twos_complement, from_twos_complement}
use native.Mathlib.Nat.{pow-suc}

pub length-to_le : (width n : ℕ) → length (to_le width n) ≡ width
unfolding to_le
length-to_le zero n = refl
length-to_le (suc width) n = omega (arith, length-to_le width (n / 256))

pub from_le-to_le : (width n : ℕ) → n < 256 ^ width → from_le (to_le width n) ≡ n
unfolding to_le from_le
from_le-to_le zero n h = omega arith
from_le-to_le (suc width) n h =
    omega (arith, from_le-to_le width (n / 256) (omega (arith, pow-suc 256 width)))

-- A byte
abbrev pub IsByte : ℕ → Type 0
IsByte b = b < 256

pub to_le-IsByte : (width n : ℕ) → All IsByte (to_le width n)
unfolding to_le
to_le-IsByte zero n = tt
to_le-IsByte (suc width) n = (omega arith, to_le-IsByte width (n / 256))

pub from_le-lt : (raw : Bytes) → All IsByte raw → from_le raw < 256 ^ length raw
unfolding from_le
from_le-lt [] h = omega arith
from_le-lt (b ∷ raw) (hb, hs) = omega (arith, from_le-lt raw hs, pow-suc 256 (length raw))

pub to_le-from_le : (raw : Bytes) → All IsByte raw → to_le (length raw) (from_le raw) ≡ raw
unfolding to_le from_le
to_le-from_le [] h = refl
to_le-from_le (b ∷ raw) (hb, hs) = ground (arith, to_le-from_le raw hs)

pub from_le-append :
    (xs ys : Bytes) → from_le (xs ++ ys) ≡ from_le xs + 256 ^ length xs * from_le ys
unfolding from_le
from_le-append [] ys = omega arith
from_le-append (x ∷ xs) ys =
    omega (arith, from_le-append xs ys, ap (λ (t : ℕ). t * from_le ys) (pow-suc 256 (length xs)))

-- Two's complement keeps every value of its range.
pub from_twos_complement-twos_complement :
    (bits : ℕ) (v : ℤ)
    → 2 ^ bits ≡ 2 * 2 ^ (bits - 1)
    → IsSigned bits v
    → from_twos_complement bits (twos_complement bits v) ≡ v
unfolding from_twos_complement twos_complement
from_twos_complement-twos_complement bits (pos n) e h = ground arith
from_twos_complement-twos_complement bits (negsuc n) e h = ground arith

pub twos_complement-lt :
    (bits : ℕ) (v : ℤ)
    → 2 ^ bits ≡ 2 * 2 ^ (bits - 1)
    → IsSigned bits v
    → twos_complement bits v < 2 ^ bits
unfolding twos_complement
twos_complement-lt bits (pos n) e h = omega arith
twos_complement-lt bits (negsuc n) e h = omega arith
