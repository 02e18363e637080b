-- ===== src/Carbon/Config/GasConfigs.antt =====
-- What is written of a gas configuration of either version reads back.
use phantasma_py.Prelude.{pos, ◌≡◌, arith, IsUnsigned, pure, false, true, if◌then◌else◌, Bool}
use phantasma_py.Carbon.Codec.{Encodes, Encodes-bind, Encodes-last, Encodes-pure, Encodes-weaken}
use phantasma_py.Carbon.Codec.Numbers.{write1_int_lem, write4u_lem, write8u_lem}
use phantasma_py.Carbon.Config.{
  GasConfig, is_version_0, write_gas_model_v2, write_gas_config, read_gas_model_v2, read_gas_tail,
  read_gas_config,
}

-- The ranges of the fields that every version has
pub record HasGasModelV1 (m : GasConfig) : Type 0 where
  pub version : IsUnsigned 8 m.version
  pub max_name_length : IsUnsigned 8 m.max_name_length
  pub max_token_symbol_length : IsUnsigned 8 m.max_token_symbol_length
  pub fee_shift : IsUnsigned 8 m.fee_shift
  pub max_structure_size : IsUnsigned 32 m.max_structure_size
  pub fee_multiplier : IsUnsigned 64 m.fee_multiplier
  pub gas_token_id : IsUnsigned 64 m.gas_token_id
  pub data_token_id : IsUnsigned 64 m.data_token_id
  pub minimum_gas_offer : IsUnsigned 64 m.minimum_gas_offer
  pub data_escrow_per_row : IsUnsigned 64 m.data_escrow_per_row
  pub gas_fee_transfer : IsUnsigned 64 m.gas_fee_transfer
  pub gas_fee_query : IsUnsigned 64 m.gas_fee_query
  pub gas_fee_create_token_base : IsUnsigned 64 m.gas_fee_create_token_base
  pub gas_fee_create_token_symbol : IsUnsigned 64 m.gas_fee_create_token_symbol
  pub gas_fee_create_token_series : IsUnsigned 64 m.gas_fee_create_token_series
  pub gas_fee_per_byte : IsUnsigned 64 m.gas_fee_per_byte
  pub gas_fee_register_name : IsUnsigned 64 m.gas_fee_register_name
  pub gas_burn_ratio_mul : IsUnsigned 64 m.gas_burn_ratio_mul
  pub gas_burn_ratio_shift : IsUnsigned 8 m.gas_burn_ratio_shift

-- The ranges of the fields that are there from version 1 on
pub record HasGasModelV2 (m : GasConfig) : Type 0 where
  pub minimum_gas_bill : IsUnsigned 64 m.minimum_gas_bill
  pub gas_producer_ratio_mul : IsUnsigned 64 m.gas_producer_ratio_mul
  pub gas_producer_ratio_shift : IsUnsigned 8 m.gas_producer_ratio_shift
  pub gas_dapp_ratio_mul : IsUnsigned 64 m.gas_dapp_ratio_mul
  pub gas_dapp_ratio_shift : IsUnsigned 8 m.gas_dapp_ratio_shift
  pub policy_fee_create_token_base : IsUnsigned 64 m.policy_fee_create_token_base
  pub policy_fee_create_token_symbol : IsUnsigned 64 m.policy_fee_create_token_symbol
  pub policy_fee_create_token_series : IsUnsigned 64 m.policy_fee_create_token_series
  pub policy_fee_register_name : IsUnsigned 64 m.policy_fee_register_name
  pub legacy_data_escrow_per_row : IsUnsigned 64 m.legacy_data_escrow_per_row

abbrev without_v2 : GasConfig → GasConfig
without_v2 m = record m {
  minimum_gas_bill = pos 0;
  gas_producer_ratio_mul = pos 0;
  gas_producer_ratio_shift = pos 0;
  gas_dapp_ratio_mul = pos 0;
  gas_dapp_ratio_shift = pos 0;
  policy_fee_create_token_base = pos 0;
  policy_fee_create_token_symbol = pos 0;
  policy_fee_create_token_series = pos 0;
  policy_fee_register_name = pos 0;
  legacy_data_escrow_per_row = pos 0;
}

-- The fields of the later versions are zero where they are not written.
abbrev TailFits : Bool → GasConfig → Type 0
TailFits true m = without_v2 m ≡ m
TailFits false m = HasGasModelV2 m

pub record IsGasConfig (m : GasConfig) : Type 0 where
  pub v1 : HasGasModelV1 m
  pub v2 : TailFits (is_version_0 m.version) m

write_gas_model_v2_lem :
    (m : GasConfig)
    → HasGasModelV2 m
    → Encodes 8 (write_gas_model_v2 m) (read_gas_model_v2 (without_v2 m)) m
unfolding write_gas_model_v2 read_gas_model_v2
write_gas_model_v2_lem m h = Encodes-bind (write8u_lem m.minimum_gas_bill h.minimum_gas_bill) _ (
    Encodes-bind (write8u_lem m.gas_producer_ratio_mul h.gas_producer_ratio_mul) _ (
      Encodes-bind (write1_int_lem m.gas_producer_ratio_shift h.gas_producer_ratio_shift) _ (
        Encodes-bind (write8u_lem m.gas_dapp_ratio_mul h.gas_dapp_ratio_mul) _ (
          Encodes-bind (write1_int_lem m.gas_dapp_ratio_shift h.gas_dapp_ratio_shift) _ (
            Encodes-bind (write8u_lem m.policy_fee_create_token_base h.policy_fee_create_token_base)
              _
              (Encodes-bind
                (write8u_lem m.policy_fee_create_token_symbol h.policy_fee_create_token_symbol) _
                (Encodes-bind
                  (write8u_lem m.policy_fee_create_token_series h.policy_fee_create_token_series) _
                  (Encodes-bind (write8u_lem m.policy_fee_register_name h.policy_fee_register_name)
                    _
                    (Encodes-last
                      (write8u_lem m.legacy_data_escrow_per_row h.legacy_data_escrow_per_row)
                      _)))))))))

gas_tail_lem :
    (m : GasConfig) (b : Bool)
    → TailFits b m
    → Encodes 0
        (if b then pure tt else write_gas_model_v2 m)
        (if b then pure (without_v2 m) else read_gas_model_v2 (without_v2 m))
        m
gas_tail_lem m true h = rw h (Encodes-pure m)
gas_tail_lem m false h = Encodes-weaken 0 (omega arith) (write_gas_model_v2_lem m h)

pub write_gas_config_lem :
    (m : GasConfig) → IsGasConfig m → Encodes 1 (write_gas_config m) read_gas_config m
unfolding write_gas_config read_gas_config read_gas_tail
write_gas_config_lem m fits =
    let h = fits.v1 in
    Encodes-bind (write1_int_lem m.version h.version) _ (
      Encodes-bind (write1_int_lem m.max_name_length h.max_name_length) _ (
        Encodes-bind (write1_int_lem m.max_token_symbol_length h.max_token_symbol_length) _ (
          Encodes-bind (write1_int_lem m.fee_shift h.fee_shift) _ (
            Encodes-bind (write4u_lem m.max_structure_size h.max_structure_size) _ (
              Encodes-bind (write8u_lem m.fee_multiplier h.fee_multiplier) _ (
                Encodes-bind (write8u_lem m.gas_token_id h.gas_token_id) _ (
                  Encodes-bind (write8u_lem m.data_token_id h.data_token_id) _ (
                    Encodes-bind (write8u_lem m.minimum_gas_offer h.minimum_gas_offer) _ (
                      Encodes-bind (write8u_lem m.data_escrow_per_row h.data_escrow_per_row) _ (
                        Encodes-bind (write8u_lem m.gas_fee_transfer h.gas_fee_transfer) _ (
                          Encodes-bind (write8u_lem m.gas_fee_query h.gas_fee_query) _ (
                            Encodes-bind
                              (write8u_lem m.gas_fee_create_token_base h.gas_fee_create_token_base)
                              _
                              (Encodes-bind
                                (write8u_lem m.gas_fee_create_token_symbol
                                  h.gas_fee_create_token_symbol)
                                _
                                (Encodes-bind
                                  (write8u_lem m.gas_fee_create_token_series
                                    h.gas_fee_create_token_series)
                                  _
                                  (Encodes-bind (write8u_lem m.gas_fee_per_byte h.gas_fee_per_byte)
                                    _
                                    (Encodes-bind
                                      (write8u_lem m.gas_fee_register_name h.gas_fee_register_name)
                                      _
                                      (Encodes-bind
                                        (write8u_lem m.gas_burn_ratio_mul h.gas_burn_ratio_mul) _
                                        (Encodes-bind
                                          (write1_int_lem m.gas_burn_ratio_shift
                                            h.gas_burn_ratio_shift)
                                          _
                                          (gas_tail_lem m (is_version_0 m.version)
                                            fits.v2)))))))))))))))))))
