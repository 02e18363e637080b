-- ===== src/Carbon/Fees/Options.antt =====
-- The classes of fee options of carbon.py, and `envelope_bytes_for`.
use phantasma_py.Carbon.Fees.{
  transfer_fungible, transfer_non_fungible, mint_fungible, mint_non_fungible, burn_fungible,
  burn_non_fungible, create_token, create_token_series, register_name, script,
}
use phantasma_py.Text.{encode_utf8}
use phantasma_py.Carbon.Fees.{NativeFeeKind, shift_right}
use phantasma_py.Carbon.Values.{SmallString}
use phantasma_py.Prelude.{
  Result, ℕ, ℤ, Bool, and_then, negsuc, pos, ◌-◌, err, if◌then◌else◌, ok, true, false, ltb, value,
  ◌*◌, ◌+◌, ◌==◌, length, suc, zero,
}

pub record FeeOptions : Type 0 where
  pub gas_fee_base : ℕ
  pub fee_multiplier : ℕ

-- `_parse_positive_count` of an integer
unfoldable pub parse_positive_count : ℤ → Result ℕ
parse_positive_count (pos zero) = err value
parse_positive_count (pos (suc n)) = ok (suc n)
parse_positive_count (negsuc n) = err value

unfoldable pub calculate_max_gas : FeeOptions → ℤ → Result ℕ
calculate_max_gas o count =
    and_then (parse_positive_count count) (λ n. ok (o.gas_fee_base * o.fee_multiplier * n))

pub record CreateTokenFeeOptions : Type 0 where
  pub gas_fee_base : ℕ
  pub fee_multiplier : ℕ
  pub gas_fee_create_token_base : ℕ
  pub gas_fee_create_token_symbol : ℕ

-- The price of a symbol of so many bytes
unfoldable pub symbol_part : ℕ → ℕ → ℕ
symbol_part price n = let shift = n - 1 in if ltb shift 64 then shift_right price shift else 0

unfoldable pub calculate_max_gas_for_symbol : CreateTokenFeeOptions → SmallString → Result ℕ
calculate_max_gas_for_symbol o symbol = and_then (encode_utf8 symbol.value) (λ raw. ok (
    (o.gas_fee_base
      + o.gas_fee_create_token_base
      + symbol_part o.gas_fee_create_token_symbol (length raw))
    * o.fee_multiplier))

pub record CreateSeriesFeeOptions : Type 0 where
  pub gas_fee_base : ℕ
  pub fee_multiplier : ℕ
  pub gas_fee_create_series_base : ℕ

unfoldable pub calculate_max_gas_for_series : CreateSeriesFeeOptions → ℤ → Result ℕ
calculate_max_gas_for_series o count = and_then (parse_positive_count count) (λ n.
    if n == 1
    then ok ((o.gas_fee_base + o.gas_fee_create_series_base) * o.fee_multiplier)
    else err value)

-- `MintNFTFeeOptions.calculate_max_gas` takes a count, or tokens that it counts.
pub data MintCount : Type 0 where
  number : ℤ → MintCount
  sequence : ℕ → MintCount

unfoldable pub parse_mint_count : MintCount → Result ℕ
parse_mint_count (number n) = parse_positive_count n
parse_mint_count (sequence n) = parse_positive_count (pos n)

unfoldable pub calculate_max_gas_for_mint : FeeOptions → MintCount → Result ℕ
calculate_max_gas_for_mint o minted =
    and_then (parse_mint_count minted) (λ n. ok (o.gas_fee_base * o.fee_multiplier * n))

-- `kind in _NATIVE_SIGNATURE_KINDS`
unfoldable pub has_native_signature : NativeFeeKind → Bool
has_native_signature transfer_fungible = true
has_native_signature transfer_non_fungible = true
has_native_signature mint_fungible = true
has_native_signature mint_non_fungible = true
has_native_signature burn_fungible = true
has_native_signature burn_non_fungible = true
has_native_signature create_token = false
has_native_signature create_token_series = false
has_native_signature register_name = false
has_native_signature script = false

unfoldable pub envelope_bytes_for : NativeFeeKind → ℤ → ℤ → Result ℕ
envelope_bytes_for kind (negsuc n) witness_count = err value
envelope_bytes_for kind (pos n) (negsuc k) = err value
envelope_bytes_for kind (pos n) (pos k) =
    ok (if has_native_signature kind then n + 64 * k else n + 4 + 96 * k)
