-- ===== src/Carbon/Fees.antt =====
-- The fee estimator of carbon.py. The fields of the gas configuration, the options and the sizes
-- that the code never compares with zero (`payload_bytes`, `rom_ram_bytes` and
-- `script_units_allowance`) are natural numbers, as they are on the chain; the counts and lengths
-- that it compares are integers. The code does not check the former: what it computes of a negative
-- price or size is not modelled.
pub mod Options
pub mod Envelope
pub mod Bounds
pub mod Validity
mod Examples
use phantasma_py.Prelude.{
  Bool, Result, if◌then◌else◌, ℕ, ℤ, and_then, leb, min, negsuc, ok, pos, pos_part, ◌%◌, ◌+◌, ◌/◌,
  ◌^◌, err, ltb, max, suc, ◌*◌, ◌-◌, ◌==◌, false, value, zero, not, ◌&&◌,
}

-- The fields of `GasConfig` that the estimator reads
pub record GasRates : Type 0 where
  pub version : ℕ
  pub max_name_length : ℕ
  pub max_token_symbol_length : ℕ
  pub fee_shift : ℕ
  pub fee_multiplier : ℕ
  pub minimum_gas_offer : ℕ
  pub data_escrow_per_row : ℕ
  pub gas_fee_transfer : ℕ
  pub gas_fee_create_token_base : ℕ
  pub gas_fee_create_token_symbol : ℕ
  pub gas_fee_create_token_series : ℕ
  pub gas_fee_per_byte : ℕ
  pub gas_fee_register_name : ℕ
  pub minimum_gas_bill : ℕ
  pub policy_fee_create_token_base : ℕ
  pub policy_fee_create_token_symbol : ℕ
  pub policy_fee_create_token_series : ℕ
  pub policy_fee_register_name : ℕ

unfoldable pub is_gas_model_v2 : GasRates → Bool
is_gas_model_v2 c = leb 1 c.version

pub data NativeFeeKind : Type 0 where
  transfer_fungible transfer_non_fungible mint_fungible mint_non_fungible : NativeFeeKind
  burn_fungible burn_non_fungible create_token create_token_series : NativeFeeKind
  register_name script : NativeFeeKind

-- The keyword arguments of `estimate_native_fee`
pub record FeeInputs : Type 0 where
  pub count : ℤ
  pub symbol_length : ℤ
  pub name_length : ℤ
  pub envelope_bytes : ℤ
  pub payload_bytes : ℕ
  pub fresh_rows : ℤ
  pub rom_ram_bytes : ℕ
  pub script_units_allowance : ℕ

pub record NativeFeeEstimate : Type 0 where
  pub max_gas : ℕ
  pub max_data : ℕ
  pub expected_gas_bill : ℕ

abbrev pub u64_max : ℕ
u64_max = 2 ^ 64 - 1

abbrev pub units_per_block_data_byte : ℕ
units_per_block_data_byte = 25

-- `x >> shift`
abbrev pub shift_right : ℕ → ℕ → ℕ
shift_right x shift = x / 2 ^ shift

unfoldable pub mul_shift : ℕ → ℕ → ℕ → ℕ
mul_shift x multiplier shift =
    if leb 64 shift then 0 else min (shift_right (x * multiplier) shift) u64_max

unfoldable pub symbol_shift : ℤ → ℕ → Result ℕ
symbol_shift (negsuc n) max_length = err value
symbol_shift (pos zero) max_length = ok 0
symbol_shift (pos (suc shift)) max_length =
    if not (max_length == 0) && leb max_length shift then err value else ok shift

unfoldable pub round_up : ℕ → ℕ → ℕ
round_up x step = let remainder = x % step in if remainder == 0 then x else x + (step - remainder)

unfoldable pub bill_v2 : ℕ → ℕ → ℕ → ℕ → ℕ → GasRates → ℕ
bill_v2 work_units envelope event_bytes rows policy_fee c =
    let block_data = envelope + event_bytes + rows in
    let byte_units = block_data * units_per_block_data_byte in
    let bill = mul_shift (work_units + byte_units) c.fee_multiplier c.fee_shift + policy_fee in
    max (min bill u64_max) c.minimum_gas_bill

unfoldable pub default_fresh_rows : NativeFeeKind → ℕ → ℕ → ℕ
default_fresh_rows transfer_fungible count rom_ram = 1
default_fresh_rows mint_fungible count rom_ram = 1
default_fresh_rows transfer_non_fungible count rom_ram = count + 1
default_fresh_rows mint_non_fungible count rom_ram = count * (2 + (rom_ram + 1023) / 1024) + 1
default_fresh_rows burn_fungible count rom_ram = 0
default_fresh_rows burn_non_fungible count rom_ram = 0
default_fresh_rows create_token count rom_ram = 8
default_fresh_rows create_token_series count rom_ram = 4
default_fresh_rows register_name count rom_ram = 2
default_fresh_rows script count rom_ram = 4

unfoldable pub default_envelope_bytes : NativeFeeKind → ℕ → ℕ → ℕ
default_envelope_bytes transfer_fungible count rom_ram = 512
default_envelope_bytes mint_fungible count rom_ram = 512
default_envelope_bytes burn_fungible count rom_ram = 512
default_envelope_bytes register_name count rom_ram = 512
default_envelope_bytes transfer_non_fungible count rom_ram = 512 + 8 * count
default_envelope_bytes burn_non_fungible count rom_ram = 512 + 8 * count
default_envelope_bytes mint_non_fungible count rom_ram = 512 + count * (64 + rom_ram)
default_envelope_bytes create_token count rom_ram = 4096
default_envelope_bytes create_token_series count rom_ram = 2048
default_envelope_bytes script count rom_ram = 1024

-- The work units of an operation, and its policy fee
pub record Work : Type 0 where
  pub work_units : ℕ
  pub policy_fee : ℕ

-- The part of a price that depends on the symbol: nothing without a symbol.
unfoldable pub symbol_price : ℤ → ℕ → ℕ → ℕ
symbol_price (pos (suc n)) price shift = shift_right price shift
symbol_price (pos zero) price shift = 0
symbol_price (negsuc n) price shift = 0

unfoldable pub token_work : GasRates → ℤ → ℕ → Work
token_work c symbol_length shift =
    if is_gas_model_v2 c
    then record {
      work_units = 0;
      policy_fee =
          c.policy_fee_create_token_base
          + symbol_price symbol_length c.policy_fee_create_token_symbol shift;
    }
    else record {
      work_units =
          c.gas_fee_create_token_base
          + symbol_price symbol_length c.gas_fee_create_token_symbol shift;
      policy_fee = 0;
    }

unfoldable pub name_work : GasRates → ℕ → Work
name_work c shift =
    if is_gas_model_v2 c
    then record { work_units = 0; policy_fee = shift_right c.policy_fee_register_name shift }
    else record { work_units = shift_right c.gas_fee_register_name shift; policy_fee = 0 }

unfoldable pub series_work : GasRates → Work
series_work c =
    if is_gas_model_v2 c
    then record { work_units = 0; policy_fee = c.policy_fee_create_token_series }
    else record { work_units = c.gas_fee_create_token_series; policy_fee = 0 }

unfoldable pub is_positive : ℤ → Bool
is_positive (pos n) = ltb 0 n
is_positive (negsuc n) = false

abbrev units : ℕ → Work
units n = record { work_units = n; policy_fee = 0 }

unfoldable pub work_of : NativeFeeKind → GasRates → ℕ → FeeInputs → Result Work
work_of transfer_fungible c count i = ok (units c.gas_fee_transfer)
work_of mint_fungible c count i = ok (units c.gas_fee_transfer)
work_of burn_fungible c count i = ok (units c.gas_fee_transfer)
work_of transfer_non_fungible c count i = ok (units (c.gas_fee_transfer * count))
work_of mint_non_fungible c count i = ok (units (c.gas_fee_transfer * count))
work_of burn_non_fungible c count i = ok (units (c.gas_fee_transfer * count))
work_of create_token c count i =
    and_then (symbol_shift i.symbol_length c.max_token_symbol_length)
      (λ shift. ok (token_work c i.symbol_length shift))
work_of create_token_series c count i = ok (series_work c)
work_of register_name c count i =
    if is_positive i.name_length
    then and_then (symbol_shift i.name_length c.max_name_length) (λ shift. ok (name_work c shift))
    else err value
work_of script c count i = ok (units i.script_units_allowance)

-- `fresh_rows if fresh_rows >= 0 else ...`
unfoldable pub rows_of : ℤ → ℕ → ℕ
rows_of (pos n) rows = n
rows_of (negsuc n) rows = rows

-- `envelope_bytes if envelope_bytes > 0 else ...`
unfoldable pub envelope_of : ℤ → ℕ → ℕ
envelope_of (pos zero) envelope = envelope
envelope_of (pos (suc n)) envelope = suc n
envelope_of (negsuc n) envelope = envelope

unfoldable pub event_bytes_of : NativeFeeKind → ℕ
event_bytes_of script = 512
event_bytes_of kind = 0

unfoldable pub estimate_v2 : GasRates → Work → ℕ → ℕ → ℕ → NativeFeeEstimate
estimate_v2 c work rows envelope event_bytes =
    let expected = bill_v2 work.work_units envelope event_bytes rows work.policy_fee c in
    let padded =
      bill_v2 work.work_units (round_up envelope 128) event_bytes rows work.policy_fee c in
    let offer = min (padded + padded / 4) u64_max in
    record {
      max_gas = max (max offer c.minimum_gas_bill) c.minimum_gas_offer;
      max_data = min (rows * c.data_escrow_per_row) u64_max;
      expected_gas_bill = expected;
    }

unfoldable pub estimate_v1 : GasRates → Work → ℕ → ℕ → ℕ → NativeFeeEstimate
estimate_v1 c work_of_kind rows payload_bytes event_bytes =
    let work = mul_shift work_of_kind.work_units c.fee_multiplier c.fee_shift in
    let block_data = payload_bytes + event_bytes + rows in
    let byte_allowance = max block_data 1024 in
    record {
      max_gas = min (c.minimum_gas_offer * 2 + work + byte_allowance * c.gas_fee_per_byte) u64_max;
      max_data = min (rows * c.data_escrow_per_row) u64_max;
      expected_gas_bill = min (work + block_data * c.gas_fee_per_byte) u64_max;
    }

-- The estimate for an operation of so much work
unfoldable pub estimate_of : NativeFeeKind → GasRates → ℕ → FeeInputs → Work → NativeFeeEstimate
estimate_of kind c count i work =
    let rows = rows_of i.fresh_rows (default_fresh_rows kind count i.rom_ram_bytes) in
    let envelope =
      envelope_of i.envelope_bytes (default_envelope_bytes kind count i.rom_ram_bytes) in
    if is_gas_model_v2 c
    then estimate_v2 c work rows envelope (event_bytes_of kind)
    else estimate_v1 c work rows i.payload_bytes (event_bytes_of kind)

-- `estimate_native_fee` behind the check of the count
unfoldable pub estimate_for : NativeFeeKind → GasRates → ℕ → FeeInputs → Result NativeFeeEstimate
estimate_for kind c count i =
    and_then (work_of kind c count i) (λ work. ok (estimate_of kind c count i work))

unfoldable pub estimate_native_fee : NativeFeeKind → GasRates → FeeInputs → Result NativeFeeEstimate
estimate_native_fee kind c i =
    if is_positive i.count then estimate_for kind c (pos_part i.count) i else err value
