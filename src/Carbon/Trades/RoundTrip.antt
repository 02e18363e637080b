-- ===== src/Carbon/Trades/RoundTrip.antt =====
-- What is written of the types of the parent reads back.
use phantasma_py.Prelude.{◌^◌, ◌<◌, length, All}
use phantasma_py.Carbon.Codec.{Encodes, Encodes-bind, Encodes-last}
use phantasma_py.Carbon.Codec.Arrays.{write_byte_array_lem, write_carbon_array_lem}
use phantasma_py.Carbon.Values.SmallStrings.{IsSmallString, write_small_string_lem}
use phantasma_py.Carbon.Trades.{
  TxMsgTrade, write_tx_msg_trade, read_tx_msg_trade, TxMsgPhantasma, write_tx_msg_phantasma,
  read_tx_msg_phantasma, TxMsgPhantasmaRaw, write_tx_msg_phantasma_raw, read_tx_msg_phantasma_raw,
}
use phantasma_py.Carbon.Fungible.RoundTrip.{
  IsTxMsgBurnFungibleGasPayer, IsTxMsgMintFungible, IsTxMsgTransferFungibleGasPayer,
  write_tx_msg_burn_fungible_gas_payer_lem, write_tx_msg_mint_fungible_lem,
  write_tx_msg_transfer_fungible_gas_payer_lem,
}
use phantasma_py.Carbon.NonFungible.RoundTrip.{
  IsTxMsgBurnNonFungibleGasPayer, IsTxMsgMintNonFungible, IsTxMsgTransferNonFungibleSingleGasPayer,
  write_tx_msg_burn_non_fungible_gas_payer_lem, write_tx_msg_mint_non_fungible_lem,
  write_tx_msg_transfer_non_fungible_single_gas_payer_lem,
}

-- The objects that fit their wire form
pub record IsTxMsgTrade (m : TxMsgTrade) : Type 0 where
  pub transfer_f : (length m.transfer_f < 2 ^ 31) × All IsTxMsgTransferFungibleGasPayer m.transfer_f
  pub transfer_n :
      (length m.transfer_n < 2 ^ 31) × All IsTxMsgTransferNonFungibleSingleGasPayer m.transfer_n
  pub mint_f : (length m.mint_f < 2 ^ 31) × All IsTxMsgMintFungible m.mint_f
  pub burn_f : (length m.burn_f < 2 ^ 31) × All IsTxMsgBurnFungibleGasPayer m.burn_f
  pub mint_n : (length m.mint_n < 2 ^ 31) × All IsTxMsgMintNonFungible m.mint_n
  pub burn_n : (length m.burn_n < 2 ^ 31) × All IsTxMsgBurnNonFungibleGasPayer m.burn_n

pub write_tx_msg_trade_lem :
    (m : TxMsgTrade) → IsTxMsgTrade m → Encodes 4 (write_tx_msg_trade m) read_tx_msg_trade m
unfolding write_tx_msg_trade read_tx_msg_trade
write_tx_msg_trade_lem m h =
    Encodes-bind
      (write_carbon_array_lem write_tx_msg_transfer_fungible_gas_payer_lem m.transfer_f
        (h.transfer_f.0) (h.transfer_f.1))
      _
      (Encodes-bind
        (write_carbon_array_lem write_tx_msg_transfer_non_fungible_single_gas_payer_lem m.transfer_n
          (h.transfer_n.0) (h.transfer_n.1))
        _
        (Encodes-bind
          (write_carbon_array_lem write_tx_msg_mint_fungible_lem m.mint_f (h.mint_f.0) (h.mint_f.1))
          _
          (Encodes-bind
            (write_carbon_array_lem write_tx_msg_burn_fungible_gas_payer_lem m.burn_f (h.burn_f.0)
              (h.burn_f.1))
            _
            (Encodes-bind
              (write_carbon_array_lem write_tx_msg_mint_non_fungible_lem m.mint_n (h.mint_n.0)
                (h.mint_n.1))
              _
              (Encodes-last
                (write_carbon_array_lem write_tx_msg_burn_non_fungible_gas_payer_lem m.burn_n
                  (h.burn_n.0) (h.burn_n.1))
                _)))))

-- The objects that fit their wire form
pub record IsTxMsgPhantasma (m : TxMsgPhantasma) : Type 0 where
  pub nexus : IsSmallString m.nexus
  pub chain : IsSmallString m.chain
  pub script : length m.script < 2 ^ 31

pub write_tx_msg_phantasma_lem :
    (m : TxMsgPhantasma)
    → IsTxMsgPhantasma m
    → Encodes 1 (write_tx_msg_phantasma m) read_tx_msg_phantasma m
unfolding write_tx_msg_phantasma read_tx_msg_phantasma
write_tx_msg_phantasma_lem m h = Encodes-bind (write_small_string_lem m.nexus h.nexus) _ (
    Encodes-bind (write_small_string_lem m.chain h.chain) _
      (Encodes-last (write_byte_array_lem m.script h.script) _))

-- The objects that fit their wire form
pub record IsTxMsgPhantasmaRaw (m : TxMsgPhantasmaRaw) : Type 0 where
  pub transaction : length m.transaction < 2 ^ 31

pub write_tx_msg_phantasma_raw_lem :
    (m : TxMsgPhantasmaRaw)
    → IsTxMsgPhantasmaRaw m
    → Encodes 4 (write_tx_msg_phantasma_raw m) read_tx_msg_phantasma_raw m
unfolding write_tx_msg_phantasma_raw read_tx_msg_phantasma_raw
write_tx_msg_phantasma_raw_lem m h =
    Encodes-last (write_byte_array_lem m.transaction h.transaction) _
