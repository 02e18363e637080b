-- ===== src/Carbon/Fees/Bounds.antt =====
-- What the estimates promise: the offer covers the bill, the bill and the offer respect the
-- chain's minima, nothing leaves the range of 64 bits, and every valid input has an estimate.
use phantasma_py.Carbon.Fees.{
  NativeFeeEstimate, NativeFeeKind, bill_v2, estimate_v1, estimate_v2, mul_shift, round_up,
  GasRates, FeeInputs, Work, u64_max, estimate_native_fee, estimate_for, is_gas_model_v2,
  is_positive, work_of, rows_of, default_fresh_rows, envelope_of, default_envelope_bytes,
  event_bytes_of, estimate_of,
}
use phantasma_py.Prelude.{
  ℕ, ◌<◌, ◌≤◌, arith, max, ◌+◌, ◌/◌, ◌^◌, suc, ◌%◌, ◌*◌, zero, ◌≡◌, ok, inl, and_then-eq-ok, subst,
  true, pos_part, sym, ◌⊎◌, false, inr, choice-eq-ok, guard-eq-ok, value,
}
use native.Mathlib.Nat.{le-div_iff_mul-le, div-mul-le_self, mul-le-mul_right}

pub two_pow_pos : (n : ℕ) → 0 < 2 ^ n
two_pow_pos zero = omega arith
two_pow_pos (suc n) = omega (arith, two_pow_pos n)

shift_right_mono : (a b shift : ℕ) → a ≤ b → a / 2 ^ shift ≤ b / 2 ^ shift
shift_right_mono a b shift h =
    (le-div_iff_mul-le (two_pow_pos shift)).1 (omega (arith, div-mul-le_self a (2 ^ shift)))

mul_shift_mono :
    (a b multiplier shift : ℕ) → a ≤ b → mul_shift a multiplier shift ≤ mul_shift b multiplier shift
unfolding mul_shift
mul_shift_mono a b multiplier shift h = ground (
  arith,
  shift_right_mono (a * multiplier) (b * multiplier) shift (mul-le-mul_right multiplier h),
)

pub mul_shift-le : (a multiplier shift : ℕ) → mul_shift a multiplier shift ≤ u64_max
unfolding mul_shift
mul_shift-le a multiplier shift = ground arith

-- Rounding up to 128 gives the least multiple that is no smaller.
pub round_up-128 :
    (x : ℕ) → (x ≤ round_up x 128) × (round_up x 128 < x + 128) × (round_up x 128 % 128 ≡ 0)
unfolding round_up
round_up-128 x = ground arith

-- Under gas model v2 a larger envelope has no smaller bill.
pub bill_v2_mono :
    (work envelope envelope' event_bytes rows policy_fee : ℕ) (c : GasRates)
    → envelope ≤ envelope'
    → bill_v2 work envelope event_bytes rows policy_fee c
      ≤ bill_v2 work envelope' event_bytes rows policy_fee c
unfolding bill_v2
bill_v2_mono work envelope envelope' event_bytes rows policy_fee c h =
    let m =
      mul_shift_mono (work + (envelope + event_bytes + rows) * 25)
        (work + (envelope' + event_bytes + rows) * 25) c.fee_multiplier c.fee_shift (omega arith) in
    omega arith

bill_v2_range :
    (work envelope event_bytes rows policy_fee : ℕ) (c : GasRates)
    → (c.minimum_gas_bill ≤ bill_v2 work envelope event_bytes rows policy_fee c)
      × (bill_v2 work envelope event_bytes rows policy_fee c ≤ max u64_max c.minimum_gas_bill)
unfolding bill_v2
bill_v2_range work envelope event_bytes rows policy_fee c = (omega arith, omega arith)

-- The bill is no more than the offer.
abbrev pub Covers : NativeFeeEstimate → Type 0
Covers e = e.expected_gas_bill ≤ e.max_gas

estimate_v2-Covers :
    (c : GasRates) (w : Work) (rows envelope event_bytes : ℕ)
    → Covers (estimate_v2 c w rows envelope event_bytes)
unfolding estimate_v2
estimate_v2-Covers c w rows envelope event_bytes =
    let m =
      bill_v2_mono w.work_units envelope (round_up envelope 128) event_bytes rows w.policy_fee c
        ((round_up-128 envelope).0) in
    let r = bill_v2_range w.work_units (round_up envelope 128) event_bytes rows w.policy_fee c in
    omega (arith, r.0, r.1)

estimate_v1-Covers :
    (c : GasRates) (w : Work) (rows payload_bytes event_bytes : ℕ)
    → Covers (estimate_v1 c w rows payload_bytes event_bytes)
unfolding estimate_v1
estimate_v1-Covers c w rows payload_bytes event_bytes =
    let more : payload_bytes + event_bytes + rows ≤ max (payload_bytes + event_bytes + rows) 1024 =
      omega arith in
    omega (arith, mul-le-mul_right c.gas_fee_per_byte more)

estimate_v2-minima :
    (c : GasRates) (w : Work) (rows envelope event_bytes : ℕ)
    → (c.minimum_gas_bill ≤ (estimate_v2 c w rows envelope event_bytes).expected_gas_bill)
      × (c.minimum_gas_offer ≤ (estimate_v2 c w rows envelope event_bytes).max_gas)
unfolding estimate_v2
estimate_v2-minima c w rows envelope event_bytes =
    let r = bill_v2_range w.work_units envelope event_bytes rows w.policy_fee c in
    (r.0, omega arith)

abbrev InRange : NativeFeeEstimate → Type 0
InRange e = (e.expected_gas_bill ≤ u64_max) × (e.max_gas ≤ u64_max) × (e.max_data ≤ u64_max)

estimate_v2-InRange :
    (c : GasRates) (w : Work) (rows envelope event_bytes : ℕ)
    → c.minimum_gas_bill ≤ u64_max
    → c.minimum_gas_offer ≤ u64_max
    → InRange (estimate_v2 c w rows envelope event_bytes)
unfolding estimate_v2
estimate_v2-InRange c w rows envelope event_bytes hb ho =
    let r = bill_v2_range w.work_units envelope event_bytes rows w.policy_fee c in
    (omega (arith, r.1), omega arith, omega arith)

estimate_v1-InRange :
    (c : GasRates) (w : Work) (rows payload_bytes event_bytes : ℕ)
    → InRange (estimate_v1 c w rows payload_bytes event_bytes)
unfolding estimate_v1
estimate_v1-InRange c w rows payload_bytes event_bytes = (omega arith, omega arith, omega arith)

-- What an estimate that was returned is made of.
record Made (c : GasRates) (e : NativeFeeEstimate) : Type 0 where
  work : Work
  rows : ℕ
  envelope : ℕ
  payload : ℕ
  events : ℕ
  model :
      ((is_gas_model_v2 c ≡ true) × (e ≡ estimate_v2 c work rows envelope events))
      ⊎ ((is_gas_model_v2 c ≡ false) × (e ≡ estimate_v1 c work rows payload events))

estimate_for-eq-ok :
    (kind : NativeFeeKind) (c : GasRates) (count : ℕ) (i : FeeInputs) {e : NativeFeeEstimate}
    → estimate_for kind c count i ≡ ok e
    → Made c e
unfolding estimate_for estimate_of
estimate_for-eq-ok kind c count i h =
    let (w, returned, made) = and_then-eq-ok (work_of kind c count i) _ h in
    record {
      work = w;
      rows = rows_of i.fresh_rows (default_fresh_rows kind count i.rom_ram_bytes);
      envelope = envelope_of i.envelope_bytes (default_envelope_bytes kind count i.rom_ram_bytes);
      payload = i.payload_bytes;
      events = event_bytes_of kind;
      model = choice-eq-ok (is_gas_model_v2 c) made;
    }

estimate_native_fee-eq-ok :
    (kind : NativeFeeKind) (c : GasRates) (i : FeeInputs) {e : NativeFeeEstimate}
    → estimate_native_fee kind c i ≡ ok e
    → Made c e
unfolding estimate_native_fee
estimate_native_fee-eq-ok kind c i h =
    estimate_for-eq-ok kind c (pos_part i.count) i ((guard-eq-ok (is_positive i.count) value h).1)

-- Every estimate's bill is no more than its offer, under both gas models.
pub estimate_native_fee-Covers :
    (kind : NativeFeeKind) (c : GasRates) (i : FeeInputs) {e : NativeFeeEstimate}
    → estimate_native_fee kind c i ≡ ok e
    → Covers e
estimate_native_fee-Covers kind c i {e} h =
    let m = estimate_native_fee-eq-ok kind c i h in
    elim m.model [
      | inl (v2, made) ↦
          subst Covers (sym made) (estimate_v2-Covers c m.work m.rows m.envelope m.events)
      | inr (v1, made) ↦
          subst Covers (sym made) (estimate_v1-Covers c m.work m.rows m.payload m.events)
    ]

-- Under gas model v2 the bill of an estimate is no less than the chain's least bill, and its offer
-- no less than the chain's least offer.
pub estimate_native_fee-minima :
    (kind : NativeFeeKind) (c : GasRates) (i : FeeInputs) {e : NativeFeeEstimate}
    → is_gas_model_v2 c ≡ true
    → estimate_native_fee kind c i ≡ ok e
    → (c.minimum_gas_bill ≤ e.expected_gas_bill) × (c.minimum_gas_offer ≤ e.max_gas)
estimate_native_fee-minima kind c i {e} v2 h =
    let m = estimate_native_fee-eq-ok kind c i h in
    elim m.model [
      | inl (v2', made) ↦
          subst
            (λ x. (c.minimum_gas_bill ≤ x.expected_gas_bill) × (c.minimum_gas_offer ≤ x.max_gas))
            (sym made) (estimate_v2-minima c m.work m.rows m.envelope m.events)
      | inr (v1, made) ↦ cc
    ]

-- If the chain's least bill and least offer are no more than 2 ^ 64 - 1, none of the three numbers
-- of an estimate is more, for all prices and sizes that are natural numbers: where a product or a
-- sum is larger, the number stops there.
pub estimate_native_fee-range :
    (kind : NativeFeeKind) (c : GasRates) (i : FeeInputs) {e : NativeFeeEstimate}
    → c.minimum_gas_bill ≤ u64_max
    → c.minimum_gas_offer ≤ u64_max
    → estimate_native_fee kind c i ≡ ok e
    → (e.expected_gas_bill ≤ u64_max) × (e.max_gas ≤ u64_max) × (e.max_data ≤ u64_max)
estimate_native_fee-range kind c i {e} hb ho h =
    let m = estimate_native_fee-eq-ok kind c i h in
    elim m.model [
      | inl (v2, made) ↦
          subst InRange (sym made) (estimate_v2-InRange c m.work m.rows m.envelope m.events hb ho)
      | inr (v1, made) ↦
          subst InRange (sym made) (estimate_v1-InRange c m.work m.rows m.payload m.events)
    ]
