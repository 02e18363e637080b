-- ===== src/Carbon/Config.antt =====
-- The chain, gas and token configurations of carbon.py.
pub mod RoundTrip
pub mod GasConfigs
use phantasma_py.Prelude.{
  ℕ, ℤ, pos, negsuc, ◌>>=◌, ◌>>◌, pure, false, if◌then◌else◌, ◌==◌, Bool, leb,
}
use phantasma_py.Carbon.Writer.{Write, write1, write4u, write8u}
use phantasma_py.Carbon.Reader.{Read, read1, read1_int, read4u, read8u}

pub record ChainConfig : Type 0 where
  pub version : ℤ
  pub reserved1 : ℤ
  pub reserved2 : ℤ
  pub reserved3 : ℤ
  pub allowed_tx_types : ℤ
  pub expiry_window : ℤ
  pub block_rate_target : ℤ

unfoldable pub write_chain_config : ChainConfig → Write
write_chain_config m = do
  write1 m.version
  write1 m.reserved1
  write1 m.reserved2
  write1 m.reserved3
  write4u m.allowed_tx_types
  write4u m.expiry_window
  write4u m.block_rate_target

unfoldable pub read_chain_config : Read ChainConfig
read_chain_config = do
  version ← read1_int
  reserved1 ← read1_int
  reserved2 ← read1_int
  reserved3 ← read1_int
  allowed_tx_types ← read4u
  expiry_window ← read4u
  block_rate_target ← read4u
  pure (record {
    version = version;
    reserved1 = reserved1;
    reserved2 = reserved2;
    reserved3 = reserved3;
    allowed_tx_types = allowed_tx_types;
    expiry_window = expiry_window;
    block_rate_target = block_rate_target;
  })

pub record TokensConfig : Type 0 where
  pub flags : ℕ

unfoldable pub write_tokens_config : TokensConfig → Write
write_tokens_config m = write1 (pos m.flags)

unfoldable pub read_tokens_config : Read TokensConfig
read_tokens_config = do flags ← read1; pure (record { flags = flags })

-- The fields behind `gas_burn_ratio_shift` are on the wire from version 1 on.
pub record GasConfig : Type 0 where
  pub version : ℤ
  pub max_name_length : ℤ
  pub max_token_symbol_length : ℤ
  pub fee_shift : ℤ
  pub max_structure_size : ℤ
  pub fee_multiplier : ℤ
  pub gas_token_id : ℤ
  pub data_token_id : ℤ
  pub minimum_gas_offer : ℤ
  pub data_escrow_per_row : ℤ
  pub gas_fee_transfer : ℤ
  pub gas_fee_query : ℤ
  pub gas_fee_create_token_base : ℤ
  pub gas_fee_create_token_symbol : ℤ
  pub gas_fee_create_token_series : ℤ
  pub gas_fee_per_byte : ℤ
  pub gas_fee_register_name : ℤ
  pub gas_burn_ratio_mul : ℤ
  pub gas_burn_ratio_shift : ℤ
  pub minimum_gas_bill : ℤ
  pub gas_producer_ratio_mul : ℤ
  pub gas_producer_ratio_shift : ℤ
  pub gas_dapp_ratio_mul : ℤ
  pub gas_dapp_ratio_shift : ℤ
  pub policy_fee_create_token_base : ℤ
  pub policy_fee_create_token_symbol : ℤ
  pub policy_fee_create_token_series : ℤ
  pub policy_fee_register_name : ℤ
  pub legacy_data_escrow_per_row : ℤ

-- `version == 0`
unfoldable pub is_version_0 : ℤ → Bool
is_version_0 (pos n) = n == 0
is_version_0 (negsuc n) = false

-- `version >= 1`
unfoldable pub is_version_1 : ℤ → Bool
is_version_1 (pos n) = leb 1 n
is_version_1 (negsuc n) = false

unfoldable pub has_gas_model_v2 : GasConfig → Bool
unfolding is_version_1
has_gas_model_v2 m = is_version_1 m.version

unfoldable pub write_gas_model_v2 : GasConfig → Write
write_gas_model_v2 m = do
  write8u m.minimum_gas_bill
  write8u m.gas_producer_ratio_mul
  write1 m.gas_producer_ratio_shift
  write8u m.gas_dapp_ratio_mul
  write1 m.gas_dapp_ratio_shift
  write8u m.policy_fee_create_token_base
  write8u m.policy_fee_create_token_symbol
  write8u m.policy_fee_create_token_series
  write8u m.policy_fee_register_name
  write8u m.legacy_data_escrow_per_row

unfoldable pub write_gas_config : GasConfig → Write
write_gas_config m = do
  write1 m.version
  write1 m.max_name_length
  write1 m.max_token_symbol_length
  write1 m.fee_shift
  write4u m.max_structure_size
  write8u m.fee_multiplier
  write8u m.gas_token_id
  write8u m.data_token_id
  write8u m.minimum_gas_offer
  write8u m.data_escrow_per_row
  write8u m.gas_fee_transfer
  write8u m.gas_fee_query
  write8u m.gas_fee_create_token_base
  write8u m.gas_fee_create_token_symbol
  write8u m.gas_fee_create_token_series
  write8u m.gas_fee_per_byte
  write8u m.gas_fee_register_name
  write8u m.gas_burn_ratio_mul
  write1 m.gas_burn_ratio_shift
  if is_version_0 m.version then pure tt else write_gas_model_v2 m

-- The tail, read into an object whose tail is zero
unfoldable pub read_gas_model_v2 : GasConfig → Read GasConfig
read_gas_model_v2 config = do
  minimum_gas_bill ← read8u
  gas_producer_ratio_mul ← read8u
  gas_producer_ratio_shift ← read1_int
  gas_dapp_ratio_mul ← read8u
  gas_dapp_ratio_shift ← read1_int
  policy_fee_create_token_base ← read8u
  policy_fee_create_token_symbol ← read8u
  policy_fee_create_token_series ← read8u
  policy_fee_register_name ← read8u
  legacy_data_escrow_per_row ← read8u
  pure (record config {
    minimum_gas_bill = minimum_gas_bill;
    gas_producer_ratio_mul = gas_producer_ratio_mul;
    gas_producer_ratio_shift = gas_producer_ratio_shift;
    gas_dapp_ratio_mul = gas_dapp_ratio_mul;
    gas_dapp_ratio_shift = gas_dapp_ratio_shift;
    policy_fee_create_token_base = policy_fee_create_token_base;
    policy_fee_create_token_symbol = policy_fee_create_token_symbol;
    policy_fee_create_token_series = policy_fee_create_token_series;
    policy_fee_register_name = policy_fee_register_name;
    legacy_data_escrow_per_row = legacy_data_escrow_per_row;
  })

unfoldable pub read_gas_tail : GasConfig → Read GasConfig
read_gas_tail config = if is_version_0 config.version then pure config else read_gas_model_v2 config

unfoldable pub read_gas_config : Read GasConfig
read_gas_config = do
  version ← read1_int
  max_name_length ← read1_int
  max_token_symbol_length ← read1_int
  fee_shift ← read1_int
  max_structure_size ← read4u
  fee_multiplier ← read8u
  gas_token_id ← read8u
  data_token_id ← read8u
  minimum_gas_offer ← read8u
  data_escrow_per_row ← read8u
  gas_fee_transfer ← read8u
  gas_fee_query ← read8u
  gas_fee_create_token_base ← read8u
  gas_fee_create_token_symbol ← read8u
  gas_fee_create_token_series ← read8u
  gas_fee_per_byte ← read8u
  gas_fee_register_name ← read8u
  gas_burn_ratio_mul ← read8u
  gas_burn_ratio_shift ← read1_int
  read_gas_tail (record {
    version = version;
    max_name_length = max_name_length;
    max_token_symbol_length = max_token_symbol_length;
    fee_shift = fee_shift;
    max_structure_size = max_structure_size;
    fee_multiplier = fee_multiplier;
    gas_token_id = gas_token_id;
    data_token_id = data_token_id;
    minimum_gas_offer = minimum_gas_offer;
    data_escrow_per_row = data_escrow_per_row;
    gas_fee_transfer = gas_fee_transfer;
    gas_fee_query = gas_fee_query;
    gas_fee_create_token_base = gas_fee_create_token_base;
    gas_fee_create_token_symbol = gas_fee_create_token_symbol;
    gas_fee_create_token_series = gas_fee_create_token_series;
    gas_fee_per_byte = gas_fee_per_byte;
    gas_fee_register_name = gas_fee_register_name;
    gas_burn_ratio_mul = gas_burn_ratio_mul;
    gas_burn_ratio_shift = gas_burn_ratio_shift;
    minimum_gas_bill = pos 0;
    gas_producer_ratio_mul = pos 0;
    gas_producer_ratio_shift = pos 0;
    gas_dapp_ratio_mul = pos 0;
    gas_dapp_ratio_shift = pos 0;
    policy_fee_create_token_base = pos 0;
    policy_fee_create_token_symbol = pos 0;
    policy_fee_create_token_series = pos 0;
    policy_fee_register_name = pos 0;
    legacy_data_escrow_per_row = pos 0;
  })
