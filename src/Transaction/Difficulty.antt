-- ===== src/Transaction/Difficulty.antt =====
-- `Hash.difficulty` counts the leading zeros of a hash that is read as a little-endian number.
use Prim.Native.Nat.{bit_and}
use native.Mathlib.Nat.{pow-suc, pow-le-pow_right}
use phantasma_py.Bytes.{Bytes, from_le}
use phantasma_py.Bytes.Bits.{bit_and-top}
use phantasma_py.Bytes.LittleEndian.{IsByte, from_le-lt}
use phantasma_py.Transaction.Mining.{mine-Mined}
use phantasma_py.Transaction.{
  to_bytes, mine, Transaction, last_bit, last_bit_of, difficulty, transaction_difficulty,
  transaction_hash,
}
use phantasma_py.Prelude.{
  ap, ◌⊎◌, ltb→lt, le_of_ltb, ℕ, zero, suc, ◌+◌, ◌*◌, ◌-◌, ◌^◌, ◌<◌, ◌≤◌, ◌≡◌, ◌↔◌, ◌==◌,
  Bool-cases, inl, inr, true, false, ltb, arith, refl, All, ◌∷◌, [], length, ◌∙◌, subst, ok, pos,
  some, and_then-eq-ok,
}

power_pos : (n : ℕ) → 0 < 2 ^ n
power_pos zero = omega arith
power_pos (suc n) = omega (arith, power_pos n, pow-suc 2 n)

power_8 : (n : ℕ) → 2 ^ (8 + n) ≡ 256 * 2 ^ n
power_8 n =
    let e : 8 + n ≡ suc (suc (suc (suc (suc (suc (suc (suc n))))))) = omega arith in
    ap (λ x. 2 ^ x) e
    ∙ omega (
      arith,
      pow-suc 2 n,
      pow-suc 2 (suc n),
      pow-suc 2 (suc (suc n)),
      pow-suc 2 (suc (suc (suc n))),
      pow-suc 2 (suc (suc (suc (suc n)))),
      pow-suc 2 (suc (suc (suc (suc (suc n))))),
      pow-suc 2 (suc (suc (suc (suc (suc (suc n)))))),
      pow-suc 2 (suc (suc (suc (suc (suc (suc (suc n))))))),
    )

exponent_lt : (m k b : ℕ) → 2 ^ m ≤ b → b < 2 ^ k → m < k
exponent_lt m k b above h = elim (Bool-cases (ltb m k)) [
  | inl less ↦ ltb→lt m k less
  | inr more ↦
      let no : 2 ^ k ≤ 2 ^ m = pow-le-pow_right {n = 2} (omega arith) (le_of_ltb m k more) in
      absurd (omega arith)
]

-- The test of a bit above which a byte has none
bit_cases :
    (m b : ℕ)
    → m < 8
    → b < 2 ^ suc m
    → ((b < 2 ^ m) × ((bit_and b (2 ^ m) == 0) ≡ true))
      ⊎ ((2 ^ m ≤ b) × ((bit_and b (2 ^ m) == 0) ≡ false))
bit_cases m b few small = elim (Bool-cases (ltb b (2 ^ m))) [
  | inl below ↦ inl (ltb→lt b (2 ^ m) below, rw (bit_and-top m b few small, below) refl)
  | inr above ↦
      let positive : (2 ^ m == 0) ≡ false = ground (arith, power_pos m) in
      inr (le_of_ltb b (2 ^ m) above, rw (bit_and-top m b few small, above) positive)
]

-- Of the bits of a byte below `m`, the last one that is set says how many bits the byte has.
last_bit-le_iff :
    (b i l m k : ℕ) → m ≤ 8 → l ≤ i * 8 → b < 2 ^ m → (last_bit b i m l ≤ i * 8 + k) ↔ (b < 2 ^ k)
unfolding last_bit
last_bit-le_iff b i l zero k few before small = (λ h. omega (arith, power_pos k), λ h. omega arith)
last_bit-le_iff b i l (suc m) k few before small = elim (bit_cases m b (omega arith) small) [
  | inl (below, unset) ↦ rw unset (last_bit-le_iff b i l m k (omega arith) before below)
  | inr (above, set) ↦ rw set (
    λ h. omega (arith, pow-le-pow_right {n = 2} (omega arith) {i = suc m} {j = k} (omega arith)),
    λ h. omega (arith, exponent_lt m k b above h),
  )
]

last_bit_zero : (i l m : ℕ) → m ≤ 8 → last_bit 0 i m l ≡ l
unfolding last_bit
last_bit_zero i l zero few = refl
last_bit_zero i l (suc m) few = elim (bit_cases m 0 (omega arith) (power_pos (suc m))) [
  | inl (below, unset) ↦ rw unset (last_bit_zero i l m (omega arith))
  | inr (above, set) ↦ absurd (omega (arith, power_pos m))
]

last_bit_of_zero : (raw : Bytes) (i l : ℕ) → from_le raw ≡ 0 → last_bit_of raw i l ≡ l
unfolding last_bit_of from_le
last_bit_of_zero [] i l h = refl
last_bit_of_zero (b ∷ raw) i l h =
    let e : b ≡ 0 = omega arith in
    let e' : from_le raw ≡ 0 = omega arith in
    rw (e, last_bit_zero i l 8 (omega arith)) (last_bit_of_zero raw (suc i) l e')

-- The last bit that is set says how many bits the number has.
last_bit_of-le_iff :
    (raw : Bytes) (i l k : ℕ)
    → All IsByte raw
    → l ≤ i * 8
    → (last_bit_of raw i l ≤ i * 8 + k) ↔ (from_le raw < 2 ^ k)
unfolding last_bit_of from_le
last_bit_of-le_iff [] i l k h before = (λ h. power_pos k, λ h. omega arith)
last_bit_of-le_iff (b ∷ raw) i l k (hb, hs) before =
    let l' : ℕ = last_bit b i 8 l in
    let of_byte : (j : ℕ) → (l' ≤ i * 8 + j) ↔ (b < 2 ^ j) =
      λ j. last_bit-le_iff b i l 8 j (omega arith) before hb in
    let inside : l' ≤ suc i * 8 = omega (arith, (of_byte 8).1 hb) in
    let rest : (j : ℕ) → (last_bit_of raw (suc i) l' ≤ suc i * 8 + j) ↔ (from_le raw < 2 ^ j) =
      λ j. last_bit_of-le_iff raw (suc i) l' j hs inside in
    elim (Bool-cases (ltb k 8)) [
      | inl narrow ↦
          let most : 2 ^ k ≤ 128 =
            pow-le-pow_right {n = 2} (omega arith) {i = k} {j = 7}
              (omega (arith, ltb→lt k 8 narrow)) in
          let alone : from_le raw ≡ 0 → last_bit_of raw (suc i) l' ≡ l' =
            λ z. last_bit_of_zero raw (suc i) l' z in
          (
            λ h.
                let few : from_le raw < 1 = (rest 0).0 (omega (arith, ltb→lt k 8 narrow)) in
                let z : from_le raw ≡ 0 = omega arith in
                let e = alone z in let small = (of_byte k).0 (omega arith) in omega arith,
            λ h.
                let z : from_le raw ≡ 0 = omega arith in
                let e = alone z in let small = (of_byte k).1 (omega arith) in omega arith,
          )
      | inr wide ↦
          let e : k ≡ 8 + (k - 8) = omega (arith, le_of_ltb k 8 wide) in
          let power : 2 ^ k ≡ 256 * 2 ^ (k - 8) = ap (λ x. 2 ^ x) e ∙ power_8 (k - 8) in
          (
            λ h. let small = (rest (k - 8)).0 (omega arith) in omega arith,
            λ h.
                let small : from_le raw < 2 ^ (k - 8) = omega arith in
                let fits = (rest (k - 8)).1 small in omega arith,
          )
    ]

all_bits : {n : ℕ} → n ≡ 32 → 256 ^ n ≡ 2 ^ 256
all_bits e = ap (λ x. 256 ^ x) e

-- A hash of 32 bytes has at least a difficulty of up to 256 exactly if, read as a little-endian
-- number, it is below 2 to the power of 256 less that difficulty: as many of its highest bits are
-- zero.
pub difficulty-le_iff :
    (raw : Bytes) (wanted : ℕ)
    → All IsByte raw
    → length raw ≡ 32
    → wanted ≤ 256
    → (wanted ≤ difficulty raw) ↔ (from_le raw < 2 ^ (256 - wanted))
unfolding difficulty
difficulty-le_iff raw wanted h long fits =
    let bits = last_bit_of-le_iff raw 0 0 (256 - wanted) h (omega arith) in
    let within : last_bit_of raw 0 0 ≤ 256 =
      (last_bit_of-le_iff raw 0 0 256 h (omega arith)).1
        (subst (λ p. from_le raw < p) (all_bits long) (from_le-lt raw h)) in
    (λ below. bits.0 (omega arith), λ below. omega (arith, bits.1 below))

-- What mining for a positive difficulty of up to 256 returns has a hash that, read as a
-- little-endian number, is below 2 to the power of 256 less that difficulty, for every hash function
-- whose values have 32 bytes.
pub mine-below :
    (sha256 : Bytes → Bytes)
    → ((raw : Bytes) → (length (sha256 raw) ≡ 32) × All IsByte (sha256 raw))
    → (n : ℕ) (tx : Transaction) {tx' : Transaction} → suc n ≤ 256
    → mine sha256 (pos (suc n)) tx ≡ some (ok tx')
    → (hash : Bytes) × (transaction_hash sha256 tx' ≡ ok hash) × (from_le hash < 2 ^ (256 - suc n))
unfolding transaction_difficulty transaction_hash
mine-below sha256 hashes n tx {tx'} fits mined =
    let ((d, found, hard), others) = mine-Mined sha256 n tx mined in
    let (hash, e, e') = and_then-eq-ok (transaction_hash sha256 tx') _ found in
    let (message, e″, same) = and_then-eq-ok (to_bytes false tx') _ e in
    let p : sha256 message ≡ hash = cc in
    let q : difficulty hash ≡ d = cc in
    let (long, bytes) = subst (λ h. (length h ≡ 32) × All IsByte h) p (hashes message) in
    (hash, e, (difficulty-le_iff hash (suc n) bytes long fits).0 (omega (arith, hard, q)))
