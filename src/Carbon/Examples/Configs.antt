-- ===== src/Carbon/Examples/Configs.antt =====
-- Configurations on concrete objects.
use phantasma_py.Carbon.RoundTrips.{gas_config-RoundTrips}
use phantasma_py.Carbon.Config.GasConfigs.{IsGasConfig}
use phantasma_py.Prelude.{arith, pos}
use phantasma_py.Carbon.Config.{GasConfig, is_version_0, write_gas_config, read_gas_config}
use phantasma_py.Carbon.Codec.{RoundTrips}

abbrev gas_config : GasConfig
gas_config = record {
  version = pos 1;
  max_name_length = pos 3;
  max_token_symbol_length = pos 4;
  fee_shift = pos 5;
  max_structure_size = pos 6;
  fee_multiplier = pos 7;
  gas_token_id = pos 8;
  data_token_id = pos 9;
  minimum_gas_offer = pos 10;
  data_escrow_per_row = pos 11;
  gas_fee_transfer = pos 12;
  gas_fee_query = pos 13;
  gas_fee_create_token_base = pos 14;
  gas_fee_create_token_symbol = pos 15;
  gas_fee_create_token_series = pos 16;
  gas_fee_per_byte = pos 17;
  gas_fee_register_name = pos 18;
  gas_burn_ratio_mul = pos 19;
  gas_burn_ratio_shift = pos 20;
  minimum_gas_bill = pos 21;
  gas_producer_ratio_mul = pos 22;
  gas_producer_ratio_shift = pos 23;
  gas_dapp_ratio_mul = pos 24;
  gas_dapp_ratio_shift = pos 25;
  policy_fee_create_token_base = pos 26;
  policy_fee_create_token_symbol = pos 27;
  policy_fee_create_token_series = pos 28;
  policy_fee_register_name = pos 29;
  legacy_data_escrow_per_row = pos 30;
}

gas_config-IsGasConfig : IsGasConfig gas_config
unfolding is_version_0
gas_config-IsGasConfig = record {
  v1 = record {
    version = omega arith;
    max_name_length = omega arith;
    max_token_symbol_length = omega arith;
    fee_shift = omega arith;
    max_structure_size = omega arith;
    fee_multiplier = omega arith;
    gas_token_id = omega arith;
    data_token_id = omega arith;
    minimum_gas_offer = omega arith;
    data_escrow_per_row = omega arith;
    gas_fee_transfer = omega arith;
    gas_fee_query = omega arith;
    gas_fee_create_token_base = omega arith;
    gas_fee_create_token_symbol = omega arith;
    gas_fee_create_token_series = omega arith;
    gas_fee_per_byte = omega arith;
    gas_fee_register_name = omega arith;
    gas_burn_ratio_mul = omega arith;
    gas_burn_ratio_shift = omega arith;
  };
  v2 = record {
    minimum_gas_bill = omega arith;
    gas_producer_ratio_mul = omega arith;
    gas_producer_ratio_shift = omega arith;
    gas_dapp_ratio_mul = omega arith;
    gas_dapp_ratio_shift = omega arith;
    policy_fee_create_token_base = omega arith;
    policy_fee_create_token_symbol = omega arith;
    policy_fee_create_token_series = omega arith;
    policy_fee_register_name = omega arith;
    legacy_data_escrow_per_row = omega arith;
  };
}

gas_config-RoundTrips_example : RoundTrips (write_gas_config gas_config) read_gas_config gas_config
gas_config-RoundTrips_example = gas_config-RoundTrips gas_config gas_config-IsGasConfig
