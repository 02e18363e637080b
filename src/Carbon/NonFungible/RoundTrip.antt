-- ===== src/Carbon/NonFungible/RoundTrip.antt =====
-- What is written of the types of the parent reads back.
use phantasma_py.Prelude.{◌^◌, ◌<◌, ◌≡◌, length, All, IsUnsigned}
use phantasma_py.Carbon.Codec.{Encodes, Encodes-bind, Encodes-last}
use phantasma_py.Carbon.Codec.Numbers.{write4u_lem, write8u_lem, write32_lem}
use phantasma_py.Carbon.Codec.Arrays.{write_byte_array_lem, write_int_array_u64}
use phantasma_py.Carbon.NonFungible.{
  TxMsgTransferNonFungibleSingle, write_tx_msg_transfer_non_fungible_single,
  read_tx_msg_transfer_non_fungible_single, TxMsgTransferNonFungibleSingleGasPayer,
  write_tx_msg_transfer_non_fungible_single_gas_payer,
  read_tx_msg_transfer_non_fungible_single_gas_payer, TxMsgTransferNonFungibleMulti,
  write_tx_msg_transfer_non_fungible_multi, read_tx_msg_transfer_non_fungible_multi,
  TxMsgTransferNonFungibleMultiGasPayer, write_tx_msg_transfer_non_fungible_multi_gas_payer,
  read_tx_msg_transfer_non_fungible_multi_gas_payer, TxMsgMintNonFungible,
  write_tx_msg_mint_non_fungible, read_tx_msg_mint_non_fungible, TxMsgBurnNonFungible,
  write_tx_msg_burn_non_fungible, read_tx_msg_burn_non_fungible, TxMsgBurnNonFungibleGasPayer,
  write_tx_msg_burn_non_fungible_gas_payer, read_tx_msg_burn_non_fungible_gas_payer,
}

-- The objects that fit their wire form
pub record IsTxMsgTransferNonFungibleSingle (m : TxMsgTransferNonFungibleSingle) : Type 0 where
  pub to : length m.to ≡ 32
  pub token_id : IsUnsigned 64 m.token_id
  pub instance_id : IsUnsigned 64 m.instance_id

pub write_tx_msg_transfer_non_fungible_single_lem :
    (m : TxMsgTransferNonFungibleSingle)
    → IsTxMsgTransferNonFungibleSingle m
    → Encodes 32
        (write_tx_msg_transfer_non_fungible_single m)
        read_tx_msg_transfer_non_fungible_single
        m
unfolding write_tx_msg_transfer_non_fungible_single read_tx_msg_transfer_non_fungible_single
write_tx_msg_transfer_non_fungible_single_lem m h = Encodes-bind (write32_lem m.to h.to) _ (
    Encodes-bind (write8u_lem m.token_id h.token_id) _
      (Encodes-last (write8u_lem m.instance_id h.instance_id) _))

-- The objects that fit their wire form
pub record IsTxMsgTransferNonFungibleSingleGasPayer (m : TxMsgTransferNonFungibleSingleGasPayer)
    : Type 0 where
  pub to : length m.to ≡ 32
  pub from_address : length m.from_address ≡ 32
  pub token_id : IsUnsigned 64 m.token_id
  pub instance_id : IsUnsigned 64 m.instance_id

pub write_tx_msg_transfer_non_fungible_single_gas_payer_lem :
    (m : TxMsgTransferNonFungibleSingleGasPayer)
    → IsTxMsgTransferNonFungibleSingleGasPayer m
    → Encodes 32
        (write_tx_msg_transfer_non_fungible_single_gas_payer m)
        read_tx_msg_transfer_non_fungible_single_gas_payer
        m
unfolding write_tx_msg_transfer_non_fungible_single_gas_payer
    read_tx_msg_transfer_non_fungible_single_gas_payer
write_tx_msg_transfer_non_fungible_single_gas_payer_lem m h =
    Encodes-bind (write32_lem m.to h.to) _ (
      Encodes-bind (write32_lem m.from_address h.from_address) _ (
        Encodes-bind (write8u_lem m.token_id h.token_id) _
          (Encodes-last (write8u_lem m.instance_id h.instance_id) _)))

-- The objects that fit their wire form
pub record IsTxMsgTransferNonFungibleMulti (m : TxMsgTransferNonFungibleMulti) : Type 0 where
  pub to : length m.to ≡ 32
  pub token_id : IsUnsigned 64 m.token_id
  pub instance_ids : (length m.instance_ids < 2 ^ 31) × All (IsUnsigned 64) m.instance_ids

pub write_tx_msg_transfer_non_fungible_multi_lem :
    (m : TxMsgTransferNonFungibleMulti)
    → IsTxMsgTransferNonFungibleMulti m
    → Encodes 32
        (write_tx_msg_transfer_non_fungible_multi m)
        read_tx_msg_transfer_non_fungible_multi
        m
unfolding write_tx_msg_transfer_non_fungible_multi read_tx_msg_transfer_non_fungible_multi
write_tx_msg_transfer_non_fungible_multi_lem m h = Encodes-bind (write32_lem m.to h.to) _ (
    Encodes-bind (write8u_lem m.token_id h.token_id) _
      (Encodes-last (write_int_array_u64 m.instance_ids (h.instance_ids.0) (h.instance_ids.1)) _))

-- The objects that fit their wire form
pub record IsTxMsgTransferNonFungibleMultiGasPayer (m : TxMsgTransferNonFungibleMultiGasPayer)
    : Type 0 where
  pub to : length m.to ≡ 32
  pub from_address : length m.from_address ≡ 32
  pub token_id : IsUnsigned 64 m.token_id
  pub instance_ids : (length m.instance_ids < 2 ^ 31) × All (IsUnsigned 64) m.instance_ids

pub write_tx_msg_transfer_non_fungible_multi_gas_payer_lem :
    (m : TxMsgTransferNonFungibleMultiGasPayer)
    → IsTxMsgTransferNonFungibleMultiGasPayer m
    → Encodes 32
        (write_tx_msg_transfer_non_fungible_multi_gas_payer m)
        read_tx_msg_transfer_non_fungible_multi_gas_payer
        m
unfolding write_tx_msg_transfer_non_fungible_multi_gas_payer
    read_tx_msg_transfer_non_fungible_multi_gas_payer
write_tx_msg_transfer_non_fungible_multi_gas_payer_lem m h =
    Encodes-bind (write32_lem m.to h.to) _ (
      Encodes-bind (write32_lem m.from_address h.from_address) _ (
        Encodes-bind (write8u_lem m.token_id h.token_id) _ (
          Encodes-last (write_int_array_u64 m.instance_ids (h.instance_ids.0) (h.instance_ids.1))
            _)))

-- The objects that fit their wire form
pub record IsTxMsgMintNonFungible (m : TxMsgMintNonFungible) : Type 0 where
  pub token_id : IsUnsigned 64 m.token_id
  pub to : length m.to ≡ 32
  pub series_id : IsUnsigned 32 m.series_id
  pub rom : length m.rom < 2 ^ 31
  pub ram : length m.ram < 2 ^ 31

pub write_tx_msg_mint_non_fungible_lem :
    (m : TxMsgMintNonFungible)
    → IsTxMsgMintNonFungible m
    → Encodes 8 (write_tx_msg_mint_non_fungible m) read_tx_msg_mint_non_fungible m
unfolding write_tx_msg_mint_non_fungible read_tx_msg_mint_non_fungible
write_tx_msg_mint_non_fungible_lem m h = Encodes-bind (write8u_lem m.token_id h.token_id) _ (
    Encodes-bind (write32_lem m.to h.to) _ (
      Encodes-bind (write4u_lem m.series_id h.series_id) _ (
        Encodes-bind (write_byte_array_lem m.rom h.rom) _
          (Encodes-last (write_byte_array_lem m.ram h.ram) _))))

-- The objects that fit their wire form
pub record IsTxMsgBurnNonFungible (m : TxMsgBurnNonFungible) : Type 0 where
  pub token_id : IsUnsigned 64 m.token_id
  pub instance_id : IsUnsigned 64 m.instance_id

pub write_tx_msg_burn_non_fungible_lem :
    (m : TxMsgBurnNonFungible)
    → IsTxMsgBurnNonFungible m
    → Encodes 8 (write_tx_msg_burn_non_fungible m) read_tx_msg_burn_non_fungible m
unfolding write_tx_msg_burn_non_fungible read_tx_msg_burn_non_fungible
write_tx_msg_burn_non_fungible_lem m h =
    Encodes-bind (write8u_lem m.token_id h.token_id) _
      (Encodes-last (write8u_lem m.instance_id h.instance_id) _)

-- The objects that fit their wire form
pub record IsTxMsgBurnNonFungibleGasPayer (m : TxMsgBurnNonFungibleGasPayer) : Type 0 where
  pub token_id : IsUnsigned 64 m.token_id
  pub from_address : length m.from_address ≡ 32
  pub instance_id : IsUnsigned 64 m.instance_id

pub write_tx_msg_burn_non_fungible_gas_payer_lem :
    (m : TxMsgBurnNonFungibleGasPayer)
    → IsTxMsgBurnNonFungibleGasPayer m
    → Encodes 8
        (write_tx_msg_burn_non_fungible_gas_payer m)
        read_tx_msg_burn_non_fungible_gas_payer
        m
unfolding write_tx_msg_burn_non_fungible_gas_payer read_tx_msg_burn_non_fungible_gas_payer
write_tx_msg_burn_non_fungible_gas_payer_lem m h =
    Encodes-bind (write8u_lem m.token_id h.token_id) _ (
      Encodes-bind (write32_lem m.from_address h.from_address) _
        (Encodes-last (write8u_lem m.instance_id h.instance_id) _))
