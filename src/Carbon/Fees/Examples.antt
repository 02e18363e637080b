-- ===== src/Carbon/Fees/Examples.antt =====
-- The estimator on concrete rates.
use phantasma_py.Carbon.TxMsgs.{TxType}
use phantasma_py.Carbon.Fees.Envelope.{MatchesKind, envelope_bytes_for-length}
use phantasma_py.Carbon.RoundTrips.{signed_tx_msg-RoundTrips, tx_msg-RoundTrips}
use phantasma_py.Carbon.Fees.Validity.{IsEstimable, estimate_native_fee-IsEstimable}
use phantasma_py.Carbon.Signed.{witness_form}
use phantasma_py.Bytes.{Bytes}
use phantasma_py.Text.{encode_utf8, encode_char}
use phantasma_py.Carbon.Values.{SmallString}
use phantasma_py.Carbon.Fees.Options.{
  CreateTokenFeeOptions, calculate_max_gas_for_symbol, envelope_bytes_for, has_native_signature,
  symbol_part,
}
use phantasma_py.Prelude.{◌≤◌, pos, ◌∷◌, ◌≡◌, [], arith, length, negsuc, ok, true, refl, ◌↔◌}
use phantasma_py.Carbon.Fees.Bounds.{
  Covers, estimate_native_fee-Covers, estimate_native_fee-minima, estimate_native_fee-range,
}
use phantasma_py.Carbon.Fees.{
  transfer_fungible, mint_non_fungible, create_token, FeeInputs, GasRates, NativeFeeEstimate,
  bill_v2, estimate_native_fee, is_gas_model_v2, is_positive, u64_max, estimate_for, work_of,
  estimate_of, estimate_v2, mul_shift, round_up, rows_of, envelope_of, default_fresh_rows,
  default_envelope_bytes, event_bytes_of,
}
use phantasma_py.Carbon.Examples.{
  soul, transfer, transfer-IsTxMsg, signed_transfer, signed_transfer-IsSignedTxMsg,
}

abbrev rates : GasRates
rates = record {
  version = 1;
  max_name_length = 64;
  max_token_symbol_length = 10;
  fee_shift = 5;
  fee_multiplier = 10000;
  minimum_gas_offer = 100000;
  data_escrow_per_row = 200;
  gas_fee_transfer = 10;
  gas_fee_create_token_base = 1000;
  gas_fee_create_token_symbol = 1000000;
  gas_fee_create_token_series = 500;
  gas_fee_per_byte = 10;
  gas_fee_register_name = 3000;
  minimum_gas_bill = 50000;
  policy_fee_create_token_base = 1000000000;
  policy_fee_create_token_symbol = 1000000000;
  policy_fee_create_token_series = 500000000;
  policy_fee_register_name = 10000000;
}

abbrev inputs : FeeInputs
inputs = record {
  count = pos 2;
  symbol_length = pos 4;
  name_length = pos 0;
  envelope_bytes = pos 300;
  payload_bytes = 0;
  fresh_rows = negsuc 0;
  rom_ram_bytes = 100;
  script_units_allowance = 5000;
}

-- 300 bytes are rounded up to 384, and the offer is a quarter more than the padded bill.
minting :
    estimate_native_fee mint_non_fungible rates inputs
    ≡ ok (record { max_gas = 3826171; max_data = 1400; expected_gas_bill = 2404687 })
unfolding estimate_native_fee is_positive estimate_for work_of estimate_of is_gas_model_v2
    estimate_v2 bill_v2 mul_shift round_up rows_of envelope_of default_fresh_rows
    default_envelope_bytes event_bytes_of
minting = refl

v2 : is_gas_model_v2 rates ≡ true
unfolding is_gas_model_v2
v2 = refl

estimate_native_fee-Covers_example :
    Covers (record { max_gas = 3826171; max_data = 1400; expected_gas_bill = 2404687 })
estimate_native_fee-Covers_example =
    estimate_native_fee-Covers mint_non_fungible rates inputs minting

estimate_native_fee-minima_example : (50000 ≤ 2404687) × (100000 ≤ 3826171)
estimate_native_fee-minima_example =
    estimate_native_fee-minima mint_non_fungible rates inputs v2 minting

estimate_native_fee-range_example : (2404687 ≤ u64_max) × (3826171 ≤ u64_max) × (1400 ≤ u64_max)
estimate_native_fee-range_example =
    estimate_native_fee-range mint_non_fungible rates inputs (omega arith) (omega arith) minting

estimate_native_fee-IsEstimable_example :
    ((e : NativeFeeEstimate) × (estimate_native_fee create_token rates inputs ≡ ok e))
    ↔ IsEstimable create_token rates inputs
estimate_native_fee-IsEstimable_example = estimate_native_fee-IsEstimable create_token rates inputs

abbrev options : CreateTokenFeeOptions
options = record {
  gas_fee_base = 10000;
  fee_multiplier = 10000;
  gas_fee_create_token_base = 10000000000;
  gas_fee_create_token_symbol = 10000000000;
}

abbrev ab : SmallString
ab = record { value = 97 ∷ 98 ∷ [] }

price_of_ab : calculate_max_gas_for_symbol options ab ≡ ok 150000100000000
unfolding calculate_max_gas_for_symbol encode_utf8 encode_char symbol_part
price_of_ab = refl

price_of_soul : calculate_max_gas_for_symbol options soul ≡ ok 112500100000000
unfolding calculate_max_gas_for_symbol encode_utf8 encode_char symbol_part
price_of_soul = refl

abbrev message_bytes : Bytes
message_bytes = (tx_msg-RoundTrips transfer transfer-IsTxMsg).0

abbrev signed_bytes : Bytes
signed_bytes = (signed_tx_msg-RoundTrips signed_transfer signed_transfer-IsSignedTxMsg).0

transfer_kind : MatchesKind (witness_form TxType.transfer_fungible) transfer_fungible
unfolding witness_form has_native_signature
transfer_kind = refl

envelope_bytes_for-length_example :
    envelope_bytes_for transfer_fungible (pos (length message_bytes)) (pos 1)
    ≡ ok (length signed_bytes)
envelope_bytes_for-length_example =
    envelope_bytes_for-length signed_transfer transfer_fungible signed_transfer-IsSignedTxMsg
      transfer_kind ((tx_msg-RoundTrips transfer transfer-IsTxMsg).1)
      ((signed_tx_msg-RoundTrips signed_transfer signed_transfer-IsSignedTxMsg).1)
