-- ===== src/Carbon/Fungible/RoundTrip.antt =====
-- What is written of the types of the parent reads back.
use phantasma_py.Prelude.{◌≡◌, length, IsUnsigned, IsSigned}
use phantasma_py.Carbon.Codec.{Encodes, Encodes-bind, Encodes-last}
use phantasma_py.Carbon.Codec.Numbers.{write8u_lem, write32_lem}
use phantasma_py.Carbon.Values.IntXs.{write_int_x_lem}
use phantasma_py.Carbon.Fungible.{
  TxMsgTransferFungible, write_tx_msg_transfer_fungible, read_tx_msg_transfer_fungible,
  TxMsgTransferFungibleGasPayer, write_tx_msg_transfer_fungible_gas_payer,
  read_tx_msg_transfer_fungible_gas_payer, TxMsgMintFungible, write_tx_msg_mint_fungible,
  read_tx_msg_mint_fungible, TxMsgBurnFungible, write_tx_msg_burn_fungible,
  read_tx_msg_burn_fungible, TxMsgBurnFungibleGasPayer, write_tx_msg_burn_fungible_gas_payer,
  read_tx_msg_burn_fungible_gas_payer,
}

-- The objects that fit their wire form
pub record IsTxMsgTransferFungible (m : TxMsgTransferFungible) : Type 0 where
  pub to : length m.to ≡ 32
  pub token_id : IsUnsigned 64 m.token_id
  pub amount : IsUnsigned 64 m.amount

pub write_tx_msg_transfer_fungible_lem :
    (m : TxMsgTransferFungible)
    → IsTxMsgTransferFungible m
    → Encodes 32 (write_tx_msg_transfer_fungible m) read_tx_msg_transfer_fungible m
unfolding write_tx_msg_transfer_fungible read_tx_msg_transfer_fungible
write_tx_msg_transfer_fungible_lem m h = Encodes-bind (write32_lem m.to h.to) _ (
    Encodes-bind (write8u_lem m.token_id h.token_id) _
      (Encodes-last (write8u_lem m.amount h.amount) _))

-- The objects that fit their wire form
pub record IsTxMsgTransferFungibleGasPayer (m : TxMsgTransferFungibleGasPayer) : Type 0 where
  pub to : length m.to ≡ 32
  pub from_address : length m.from_address ≡ 32
  pub token_id : IsUnsigned 64 m.token_id
  pub amount : IsUnsigned 64 m.amount

pub write_tx_msg_transfer_fungible_gas_payer_lem :
    (m : TxMsgTransferFungibleGasPayer)
    → IsTxMsgTransferFungibleGasPayer m
    → Encodes 32
        (write_tx_msg_transfer_fungible_gas_payer m)
        read_tx_msg_transfer_fungible_gas_payer
        m
unfolding write_tx_msg_transfer_fungible_gas_payer read_tx_msg_transfer_fungible_gas_payer
write_tx_msg_transfer_fungible_gas_payer_lem m h = Encodes-bind (write32_lem m.to h.to) _ (
    Encodes-bind (write32_lem m.from_address h.from_address) _ (
      Encodes-bind (write8u_lem m.token_id h.token_id) _
        (Encodes-last (write8u_lem m.amount h.amount) _)))

-- The objects that fit their wire form
pub record IsTxMsgMintFungible (m : TxMsgMintFungible) : Type 0 where
  pub token_id : IsUnsigned 64 m.token_id
  pub to : length m.to ≡ 32
  pub amount : IsSigned 256 m.amount.value

pub write_tx_msg_mint_fungible_lem :
    (m : TxMsgMintFungible)
    → IsTxMsgMintFungible m
    → Encodes 8 (write_tx_msg_mint_fungible m) read_tx_msg_mint_fungible m
unfolding write_tx_msg_mint_fungible read_tx_msg_mint_fungible
write_tx_msg_mint_fungible_lem m h =
    Encodes-bind (write8u_lem m.token_id h.token_id) _
      (Encodes-bind (write32_lem m.to h.to) _ (Encodes-last (write_int_x_lem m.amount h.amount) _))

-- The objects that fit their wire form
pub record IsTxMsgBurnFungible (m : TxMsgBurnFungible) : Type 0 where
  pub token_id : IsUnsigned 64 m.token_id
  pub amount : IsSigned 256 m.amount.value

pub write_tx_msg_burn_fungible_lem :
    (m : TxMsgBurnFungible)
    → IsTxMsgBurnFungible m
    → Encodes 8 (write_tx_msg_burn_fungible m) read_tx_msg_burn_fungible m
unfolding write_tx_msg_burn_fungible read_tx_msg_burn_fungible
write_tx_msg_burn_fungible_lem m h =
    Encodes-bind (write8u_lem m.token_id h.token_id) _
      (Encodes-last (write_int_x_lem m.amount h.amount) _)

-- The objects that fit their wire form
pub record IsTxMsgBurnFungibleGasPayer (m : TxMsgBurnFungibleGasPayer) : Type 0 where
  pub token_id : IsUnsigned 64 m.token_id
  pub from_address : length m.from_address ≡ 32
  pub amount : IsSigned 256 m.amount.value

pub write_tx_msg_burn_fungible_gas_payer_lem :
    (m : TxMsgBurnFungibleGasPayer)
    → IsTxMsgBurnFungibleGasPayer m
    → Encodes 8 (write_tx_msg_burn_fungible_gas_payer m) read_tx_msg_burn_fungible_gas_payer m
unfolding write_tx_msg_burn_fungible_gas_payer read_tx_msg_burn_fungible_gas_payer
write_tx_msg_burn_fungible_gas_payer_lem m h = Encodes-bind (write8u_lem m.token_id h.token_id) _ (
    Encodes-bind (write32_lem m.from_address h.from_address) _
      (Encodes-last (write_int_x_lem m.amount h.amount) _))
