-- ===== src/Carbon/Fees/Validity.antt =====
-- Which inputs have an estimate, and how the price of a symbol falls with its length.
use phantasma_py.Text.{encode_utf8}
use phantasma_py.Bytes.{Bytes}
use phantasma_py.Carbon.Values.{SmallString}
use phantasma_py.Carbon.Fees.Options.{
  calculate_max_gas_for_symbol, symbol_part, CreateTokenFeeOptions,
}
use phantasma_py.Carbon.Fees.Bounds.{two_pow_pos}
use phantasma_py.Prelude.{
  ℕ, ℤ, pos, ◌≡◌, ◌≤◌, ok, ◌/◌, ◌⊎◌, inr, negsuc, suc, ◌^◌, and_then-eq-ok, arith, true, ◌↔◌,
  guard-eq-ok, zero, refl, value, pos_part, ◌-◌, length, ◌+◌, ◌*◌, Result, ap, and_then, sym, ◌∙◌,
}
use native.Mathlib.Nat.{
  le-div_iff_mul-le, div-mul-le_self, mul-le-mul_left, mul-le-mul_right, pow-le-pow_right,
}
use phantasma_py.Carbon.Fees.{
  transfer_fungible, transfer_non_fungible, mint_fungible, mint_non_fungible, burn_fungible,
  burn_non_fungible, create_token, create_token_series, register_name, script, NativeFeeKind,
  estimate_native_fee, symbol_shift, work_of, GasRates, estimate_for, FeeInputs, NativeFeeEstimate,
  Work, is_positive, token_work, name_work, estimate_of,
}

-- A length that the chain admits: none given, or within the maximum if there is one.
abbrev Admitted : ℤ → ℕ → Type 0
Admitted (pos n) max_length = (max_length ≡ 0) ⊎ (n ≤ max_length)
Admitted (negsuc n) max_length = ⊥

abbrev LengthsFit : NativeFeeKind → GasRates → FeeInputs → Type 0
LengthsFit create_token c i = Admitted i.symbol_length c.max_token_symbol_length
LengthsFit register_name c i =
    (is_positive i.name_length ≡ true) × Admitted i.name_length c.max_name_length
LengthsFit kind c i = Unit {0}

-- What the estimator wants of its inputs
abbrev pub IsEstimable : NativeFeeKind → GasRates → FeeInputs → Type 0
IsEstimable kind c i = (is_positive i.count ≡ true) × LengthsFit kind c i

symbol_shift_total :
    (n : ℤ) (max_length : ℕ)
    → Admitted n max_length
    → (shift : ℕ) × (symbol_shift n max_length ≡ ok shift)
unfolding symbol_shift
symbol_shift_total (pos zero) max_length h = (0, refl)
symbol_shift_total (pos (suc n)) max_length h = (n, ground arith)
symbol_shift_total (negsuc n) max_length h = absurd h

symbol_shift-eq-ok :
    (n : ℤ) (max_length : ℕ) {shift : ℕ}
    → symbol_shift n max_length ≡ ok shift
    → Admitted n max_length
unfolding symbol_shift
symbol_shift-eq-ok (pos zero) max_length h = inr (omega arith)
symbol_shift-eq-ok (pos (suc n)) max_length h = ground arith
symbol_shift-eq-ok (negsuc n) max_length h = cc

work_of_total :
    (kind : NativeFeeKind) (c : GasRates) (count : ℕ) (i : FeeInputs)
    → LengthsFit kind c i
    → (w : Work) × (work_of kind c count i ≡ ok w)
unfolding work_of
work_of_total transfer_fungible c count i h = (_, refl)
work_of_total mint_fungible c count i h = (_, refl)
work_of_total burn_fungible c count i h = (_, refl)
work_of_total transfer_non_fungible c count i h = (_, refl)
work_of_total mint_non_fungible c count i h = (_, refl)
work_of_total burn_non_fungible c count i h = (_, refl)
work_of_total create_token c count i h =
    let (shift, e) = symbol_shift_total i.symbol_length c.max_token_symbol_length h in
    (token_work c i.symbol_length shift, rw e)
work_of_total create_token_series c count i h = (_, refl)
work_of_total register_name c count i (named, h) =
    let (shift, e) = symbol_shift_total i.name_length c.max_name_length h in
    (name_work c shift, rw (named, e))
work_of_total script c count i h = (_, refl)

work_of-eq-ok :
    (kind : NativeFeeKind) (c : GasRates) (count : ℕ) (i : FeeInputs) {w : Work}
    → work_of kind c count i ≡ ok w
    → LengthsFit kind c i
unfolding work_of
work_of-eq-ok create_token c count i h =
    symbol_shift-eq-ok i.symbol_length c.max_token_symbol_length
      ((and_then-eq-ok (symbol_shift i.symbol_length c.max_token_symbol_length) _ h).1)
work_of-eq-ok register_name c count i h =
    let (named, h') = guard-eq-ok (is_positive i.name_length) value h in
    (
      named,
      symbol_shift-eq-ok i.name_length c.max_name_length
          ((and_then-eq-ok (symbol_shift i.name_length c.max_name_length) _ h').1),
    )
work_of-eq-ok transfer_fungible c count i h = tt
work_of-eq-ok mint_fungible c count i h = tt
work_of-eq-ok burn_fungible c count i h = tt
work_of-eq-ok transfer_non_fungible c count i h = tt
work_of-eq-ok mint_non_fungible c count i h = tt
work_of-eq-ok burn_non_fungible c count i h = tt
work_of-eq-ok create_token_series c count i h = tt
work_of-eq-ok script c count i h = tt

-- There is an estimate exactly if the count is positive, the symbol's length is zero or admitted
-- by the chain where a token is created, and the name's length is positive and admitted where a
-- name is registered.
pub estimate_native_fee-IsEstimable :
    (kind : NativeFeeKind) (c : GasRates) (i : FeeInputs)
    → ((e : NativeFeeEstimate) × (estimate_native_fee kind c i ≡ ok e)) ↔ IsEstimable kind c i
unfolding estimate_native_fee estimate_for
estimate_native_fee-IsEstimable kind c i = (
  λ p.
      let (positive, h) = guard-eq-ok (is_positive i.count) value p.1 in
      (
        positive,
        work_of-eq-ok kind c (pos_part i.count) i
            ((and_then-eq-ok (work_of kind c (pos_part i.count) i) _ h).1),
      ),
  λ q.
      let (w, e) = work_of_total kind c (pos_part i.count) i q.1 in
      (estimate_of kind c (pos_part i.count) i w, rw (q.0, e)),
)

div_anti : (a b j k : ℕ) → a ≤ b → j ≤ k → a / 2 ^ k ≤ b / 2 ^ j
div_anti a b j k h h' = (le-div_iff_mul-le (two_pow_pos j)).1 (
    omega (
      arith,
      div-mul-le_self a (2 ^ k),
      mul-le-mul_left (a / 2 ^ k) (pow-le-pow_right {n = 2} (omega arith) h'),
    ))

symbol_part_anti : (price a b : ℕ) → a ≤ b → symbol_part price b ≤ symbol_part price a
unfolding symbol_part
symbol_part_anti price a b h =
    ground (arith, div_anti price price (a - 1) (b - 1) (omega arith) (omega arith))

-- A longer symbol is no dearer: with the same options, a token whose symbol has no fewer bytes
-- costs no more gas.
pub calculate_max_gas_for_symbol-anti :
    (o : CreateTokenFeeOptions) (s t : SmallString) {a b : Bytes} {short long : ℕ}
    → encode_utf8 s.value ≡ ok a
    → encode_utf8 t.value ≡ ok b
    → length a ≤ length b
    → calculate_max_gas_for_symbol o s ≡ ok short
    → calculate_max_gas_for_symbol o t ≡ ok long
    → long ≤ short
unfolding calculate_max_gas_for_symbol
calculate_max_gas_for_symbol-anti o s t {a} {b} {short} {long} e e' h p q =
    let part = symbol_part_anti o.gas_fee_create_token_symbol (length a) (length b) h in
    let f : Bytes → ℕ = λ raw.
      (o.gas_fee_base
        + o.gas_fee_create_token_base
        + symbol_part o.gas_fee_create_token_symbol (length raw))
      * o.fee_multiplier in
    let p' : ◌≡◌ {A = Result ℕ} (ok (f a)) (ok short) =
      ap (λ r. and_then r (λ raw. ok (f raw))) (sym e) ∙ p in
    let q' : ◌≡◌ {A = Result ℕ} (ok (f b)) (ok long) =
      ap (λ r. and_then r (λ raw. ok (f raw))) (sym e') ∙ q in
    let p'' : f a ≡ short = cc in
    let q'' : f b ≡ long = cc in
    omega (
      arith,
      p'',
      q'',
      mul-le-mul_right
          {m = o.gas_fee_base
            + o.gas_fee_create_token_base
            + symbol_part o.gas_fee_create_token_symbol (length b)}
          {n = o.gas_fee_base
            + o.gas_fee_create_token_base
            + symbol_part o.gas_fee_create_token_symbol (length a)}
          o.fee_multiplier (omega (arith, part)),
    )
