-- ===== src/Bytes/Bits.antt =====
-- Masks on one byte as arithmetic; each is a table that is checked by evaluation.
use Prim.Native.Nat.{bit_and, bit_or}
use phantasma_py.Prelude.{
  ℕ, zero, suc, ◌+◌, ◌*◌, ◌/◌, ◌%◌, ◌<◌, ◌≤◌, ◌≡◌, refl, Bool, true, ◌&&◌, arith, ◌==◌, ==_iff, inl,
  ◌⊎◌, inr, subst, sym, and-true, ◌^◌, ◌-◌, ltb, if◌then◌else◌, Bool-cases,
}

last_or_before : (x n : ℕ) → x ≤ suc n → (x ≤ n) ⊎ (x ≡ suc n)
last_or_before x n inside = ground arith

module _ (f g : ℕ → ℕ) where
  -- The two functions have the same values at 0 up to `limit`.
  pub agree : ℕ → Bool
  agree zero = f 0 == g 0
  agree (suc limit) = (f (suc limit) == g (suc limit)) && agree limit

  pub tabulated : (limit : ℕ) → agree limit ≡ true → (x : ℕ) → x ≤ limit → f x ≡ g x
  unfolding agree
  tabulated zero checked zero inside = (==_iff _ _).0 checked
  tabulated zero checked (suc x) inside = absurd (omega arith)
  tabulated (suc limit) checked x inside =
      let (last, earlier) = and-true (f (suc limit) == g (suc limit)) (agree limit) checked in
      elim (last_or_before x limit inside) [
        | inl before ↦ tabulated limit earlier x before
        | inr e ↦ subst (λ y. f y ≡ g y) (sym e) ((==_iff _ _).0 last)
      ]

pub bit_and_3f : (x : ℕ) → x < 256 → bit_and x 0x3f ≡ x % 64
unfolding agree
bit_and_3f x small = tabulated (λ y. bit_and y 0x3f) (λ y. y % 64) 255 refl x (omega arith)

pub bit_and_40 : (x : ℕ) → x < 256 → bit_and x 0x40 ≡ x / 64 % 2 * 64
unfolding agree
bit_and_40 x small = tabulated (λ y. bit_and y 0x40) (λ y. y / 64 % 2 * 64) 255 refl x (omega arith)

pub bit_and_80 : (x : ℕ) → x < 256 → bit_and x 0x80 ≡ x / 128 * 128
unfolding agree
bit_and_80 x small = tabulated (λ y. bit_and y 0x80) (λ y. y / 128 * 128) 255 refl x (omega arith)

pub bit_or_80 : (x : ℕ) → x < 128 → bit_or x 0x80 ≡ x + 128
unfolding agree
bit_or_80 x small = tabulated (λ y. bit_or y 0x80) (λ y. y + 128) 127 refl x (omega arith)

-- The highest bit of a number of so many bits, as a mask gives it
abbrev pub top : ℕ → ℕ → ℕ
top m b = if ltb b (2 ^ m) then 0 else 2 ^ m

checked : ℕ → ℕ
unfolding agree
checked m = if agree (λ b. bit_and b (2 ^ m)) (top m) (2 ^ suc m - 1) then 1 else 0

checked-agree :
    (m : ℕ) → checked m ≡ 1 → agree (λ b. bit_and b (2 ^ m)) (top m) (2 ^ suc m - 1) ≡ true
unfolding checked
checked-agree m h = elim (Bool-cases (agree (λ b. bit_and b (2 ^ m)) (top m) (2 ^ suc m - 1))) [
  | inl all ↦ all
  | inr other ↦ let e : checked m ≡ 0 = rw other in absurd (omega arith)
]

all_checked : agree checked (λ _. 1) 7 ≡ true
unfolding agree checked
all_checked = refl

pub bit_and-top : (m b : ℕ) → m < 8 → b < 2 ^ suc m → bit_and b (2 ^ m) ≡ top m b
bit_and-top m b few small =
    tabulated (λ x. bit_and x (2 ^ m)) (top m) (2 ^ suc m - 1)
      (checked-agree m (tabulated checked (λ _. 1) 7 all_checked m (omega arith))) b (omega arith)
