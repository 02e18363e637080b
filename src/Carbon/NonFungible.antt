-- ===== src/Carbon/NonFungible.antt =====
-- The transaction messages of carbon.py that move, mint and burn non-fungible tokens.
pub mod RoundTrip
use phantasma_py.Prelude.{ℤ, List, ◌>>=◌, ◌>>◌, pure, false}
use phantasma_py.Bytes.{Bytes}
use phantasma_py.Carbon.Writer.{Write, write4u, write8u, write32, write_byte_array, write_int_array}
use phantasma_py.Carbon.Reader.{Read, read4u, read8u, read32, read_byte_array, read_int_array}

pub record TxMsgTransferNonFungibleSingle : Type 0 where
  pub to : Bytes
  pub token_id : ℤ
  pub instance_id : ℤ

unfoldable pub write_tx_msg_transfer_non_fungible_single : TxMsgTransferNonFungibleSingle → Write
write_tx_msg_transfer_non_fungible_single m = do
  write32 m.to
  write8u m.token_id
  write8u m.instance_id

unfoldable pub read_tx_msg_transfer_non_fungible_single : Read TxMsgTransferNonFungibleSingle
read_tx_msg_transfer_non_fungible_single = do
  to ← read32
  token_id ← read8u
  instance_id ← read8u
  pure (record { to = to; token_id = token_id; instance_id = instance_id })

pub record TxMsgTransferNonFungibleSingleGasPayer : Type 0 where
  pub to : Bytes
  pub from_address : Bytes
  pub token_id : ℤ
  pub instance_id : ℤ

unfoldable pub write_tx_msg_transfer_non_fungible_single_gas_payer :
    TxMsgTransferNonFungibleSingleGasPayer → Write
write_tx_msg_transfer_non_fungible_single_gas_payer m = do
  write32 m.to
  write32 m.from_address
  write8u m.token_id
  write8u m.instance_id

unfoldable pub read_tx_msg_transfer_non_fungible_single_gas_payer :
    Read TxMsgTransferNonFungibleSingleGasPayer
read_tx_msg_transfer_non_fungible_single_gas_payer = do
  to ← read32
  from_address ← read32
  token_id ← read8u
  instance_id ← read8u
  pure (record {
    to = to;
    from_address = from_address;
    token_id = token_id;
    instance_id = instance_id;
  })

pub record TxMsgTransferNonFungibleMulti : Type 0 where
  pub to : Bytes
  pub token_id : ℤ
  pub instance_ids : List ℤ

unfoldable pub write_tx_msg_transfer_non_fungible_multi : TxMsgTransferNonFungibleMulti → Write
write_tx_msg_transfer_non_fungible_multi m = do
  write32 m.to
  write8u m.token_id
  write_int_array m.instance_ids 8 false

unfoldable pub read_tx_msg_transfer_non_fungible_multi : Read TxMsgTransferNonFungibleMulti
read_tx_msg_transfer_non_fungible_multi = do
  to ← read32
  token_id ← read8u
  instance_ids ← read_int_array 8 false
  pure (record { to = to; token_id = token_id; instance_ids = instance_ids })

pub record TxMsgTransferNonFungibleMultiGasPayer : Type 0 where
  pub to : Bytes
  pub from_address : Bytes
  pub token_id : ℤ
  pub instance_ids : List ℤ

unfoldable pub write_tx_msg_transfer_non_fungible_multi_gas_payer :
    TxMsgTransferNonFungibleMultiGasPayer → Write
write_tx_msg_transfer_non_fungible_multi_gas_payer m = do
  write32 m.to
  write32 m.from_address
  write8u m.token_id
  write_int_array m.instance_ids 8 false

unfoldable pub read_tx_msg_transfer_non_fungible_multi_gas_payer :
    Read TxMsgTransferNonFungibleMultiGasPayer
read_tx_msg_transfer_non_fungible_multi_gas_payer = do
  to ← read32
  from_address ← read32
  token_id ← read8u
  instance_ids ← read_int_array 8 false
  pure (record {
    to = to;
    from_address = from_address;
    token_id = token_id;
    instance_ids = instance_ids;
  })

pub record TxMsgMintNonFungible : Type 0 where
  pub token_id : ℤ
  pub to : Bytes
  pub series_id : ℤ
  pub rom : Bytes
  pub ram : Bytes

unfoldable pub write_tx_msg_mint_non_fungible : TxMsgMintNonFungible → Write
write_tx_msg_mint_non_fungible m = do
  write8u m.token_id
  write32 m.to
  write4u m.series_id
  write_byte_array m.rom
  write_byte_array m.ram

unfoldable pub read_tx_msg_mint_non_fungible : Read TxMsgMintNonFungible
read_tx_msg_mint_non_fungible = do
  token_id ← read8u
  to ← read32
  series_id ← read4u
  rom ← read_byte_array
  ram ← read_byte_array
  pure (record { token_id = token_id; to = to; series_id = series_id; rom = rom; ram = ram })

pub record TxMsgBurnNonFungible : Type 0 where
  pub token_id : ℤ
  pub instance_id : ℤ

unfoldable pub write_tx_msg_burn_non_fungible : TxMsgBurnNonFungible → Write
write_tx_msg_burn_non_fungible m = do write8u m.token_id; write8u m.instance_id

unfoldable pub read_tx_msg_burn_non_fungible : Read TxMsgBurnNonFungible
read_tx_msg_burn_non_fungible = do
  token_id ← read8u
  instance_id ← read8u
  pure (record { token_id = token_id; instance_id = instance_id })

pub record TxMsgBurnNonFungibleGasPayer : Type 0 where
  pub token_id : ℤ
  pub from_address : Bytes
  pub instance_id : ℤ

unfoldable pub write_tx_msg_burn_non_fungible_gas_payer : TxMsgBurnNonFungibleGasPayer → Write
write_tx_msg_burn_non_fungible_gas_payer m = do
  write8u m.token_id
  write32 m.from_address
  write8u m.instance_id

unfoldable pub read_tx_msg_burn_non_fungible_gas_payer : Read TxMsgBurnNonFungibleGasPayer
read_tx_msg_burn_non_fungible_gas_payer = do
  token_id ← read8u
  from_address ← read32
  instance_id ← read8u
  pure (record { token_id = token_id; from_address = from_address; instance_id = instance_id })
