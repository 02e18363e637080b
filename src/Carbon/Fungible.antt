-- ===== src/Carbon/Fungible.antt =====
-- The transaction messages of carbon.py that move, mint and burn fungible tokens.
pub mod RoundTrip
use phantasma_py.Prelude.{ℤ, ◌>>=◌, ◌>>◌, pure}
use phantasma_py.Bytes.{Bytes}
use phantasma_py.Carbon.Writer.{Write, write8u, write32}
use phantasma_py.Carbon.Reader.{Read, read8u, read32}
use phantasma_py.Carbon.Values.{IntX, write_int_x, read_int_x}

pub record TxMsgTransferFungible : Type 0 where
  pub to : Bytes
  pub token_id : ℤ
  pub amount : ℤ

unfoldable pub write_tx_msg_transfer_fungible : TxMsgTransferFungible → Write
write_tx_msg_transfer_fungible m = do write32 m.to; write8u m.token_id; write8u m.amount

unfoldable pub read_tx_msg_transfer_fungible : Read TxMsgTransferFungible
read_tx_msg_transfer_fungible = do
  to ← read32
  token_id ← read8u
  amount ← read8u
  pure (record { to = to; token_id = token_id; amount = amount })

pub record TxMsgTransferFungibleGasPayer : Type 0 where
  pub to : Bytes
  pub from_address : Bytes
  pub token_id : ℤ
  pub amount : ℤ

unfoldable pub write_tx_msg_transfer_fungible_gas_payer : TxMsgTransferFungibleGasPayer → Write
write_tx_msg_transfer_fungible_gas_payer m = do
  write32 m.to
  write32 m.from_address
  write8u m.token_id
  write8u m.amount

unfoldable pub read_tx_msg_transfer_fungible_gas_payer : Read TxMsgTransferFungibleGasPayer
read_tx_msg_transfer_fungible_gas_payer = do
  to ← read32
  from_address ← read32
  token_id ← read8u
  amount ← read8u
  pure (record { to = to; from_address = from_address; token_id = token_id; amount = amount })

pub record TxMsgMintFungible : Type 0 where
  pub token_id : ℤ
  pub to : Bytes
  pub amount : IntX

unfoldable pub write_tx_msg_mint_fungible : TxMsgMintFungible → Write
write_tx_msg_mint_fungible m = do write8u m.token_id; write32 m.to; write_int_x m.amount

unfoldable pub read_tx_msg_mint_fungible : Read TxMsgMintFungible
read_tx_msg_mint_fungible = do
  token_id ← read8u
  to ← read32
  amount ← read_int_x
  pure (record { token_id = token_id; to = to; amount = amount })

pub record TxMsgBurnFungible : Type 0 where
  pub token_id : ℤ
  pub amount : IntX

unfoldable pub write_tx_msg_burn_fungible : TxMsgBurnFungible → Write
write_tx_msg_burn_fungible m = do write8u m.token_id; write_int_x m.amount

unfoldable pub read_tx_msg_burn_fungible : Read TxMsgBurnFungible
read_tx_msg_burn_fungible = do
  token_id ← read8u
  amount ← read_int_x
  pure (record { token_id = token_id; amount = amount })

pub record TxMsgBurnFungibleGasPayer : Type 0 where
  pub token_id : ℤ
  pub from_address : Bytes
  pub amount : IntX

unfoldable pub write_tx_msg_burn_fungible_gas_payer : TxMsgBurnFungibleGasPayer → Write
write_tx_msg_burn_fungible_gas_payer m = do
  write8u m.token_id
  write32 m.from_address
  write_int_x m.amount

unfoldable pub read_tx_msg_burn_fungible_gas_payer : Read TxMsgBurnFungibleGasPayer
read_tx_msg_burn_fungible_gas_payer = do
  token_id ← read8u
  from_address ← read32
  amount ← read_int_x
  pure (record { token_id = token_id; from_address = from_address; amount = amount })
