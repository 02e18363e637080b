-- ===== src/Carbon/Config/RoundTrip.antt =====
-- What is written of the types of the parent reads back.
use phantasma_py.Prelude.{◌<◌, IsUnsigned}
use phantasma_py.Carbon.Codec.{Encodes, Encodes-bind, Encodes-last}
use phantasma_py.Carbon.Codec.Numbers.{write1_lem, write1_int_lem, write4u_lem}
use phantasma_py.Carbon.Config.{
  ChainConfig, write_chain_config, read_chain_config, TokensConfig, write_tokens_config,
  read_tokens_config,
}

-- The objects that fit their wire form
pub record IsChainConfig (m : ChainConfig) : Type 0 where
  pub version : IsUnsigned 8 m.version
  pub reserved1 : IsUnsigned 8 m.reserved1
  pub reserved2 : IsUnsigned 8 m.reserved2
  pub reserved3 : IsUnsigned 8 m.reserved3
  pub allowed_tx_types : IsUnsigned 32 m.allowed_tx_types
  pub expiry_window : IsUnsigned 32 m.expiry_window
  pub block_rate_target : IsUnsigned 32 m.block_rate_target

pub write_chain_config_lem :
    (m : ChainConfig) → IsChainConfig m → Encodes 1 (write_chain_config m) read_chain_config m
unfolding write_chain_config read_chain_config
write_chain_config_lem m h = Encodes-bind (write1_int_lem m.version h.version) _ (
    Encodes-bind (write1_int_lem m.reserved1 h.reserved1) _ (
      Encodes-bind (write1_int_lem m.reserved2 h.reserved2) _ (
        Encodes-bind (write1_int_lem m.reserved3 h.reserved3) _ (
          Encodes-bind (write4u_lem m.allowed_tx_types h.allowed_tx_types) _ (
            Encodes-bind (write4u_lem m.expiry_window h.expiry_window) _
              (Encodes-last (write4u_lem m.block_rate_target h.block_rate_target) _))))))

-- The objects that fit their wire form
pub record IsTokensConfig (m : TokensConfig) : Type 0 where
  pub flags : m.flags < 256

pub write_tokens_config_lem :
    (m : TokensConfig) → IsTokensConfig m → Encodes 1 (write_tokens_config m) read_tokens_config m
unfolding write_tokens_config read_tokens_config
write_tokens_config_lem m h = Encodes-last (write1_lem m.flags h.flags) _
