-- ===== src/Carbon/Trades.antt =====
-- The transaction messages of carbon.py that trade, and that carry a VM script or transaction.
pub mod RoundTrip
use phantasma_py.Prelude.{List, ◌>>=◌, ◌>>◌, pure}
use phantasma_py.Bytes.{Bytes}
use phantasma_py.Carbon.Writer.{Write, write_byte_array, write_carbon_array}
use phantasma_py.Carbon.Reader.{Read, read_byte_array, read_carbon_array}
use phantasma_py.Carbon.Values.{SmallString, write_small_string, read_small_string}
use phantasma_py.Carbon.Fungible.{
  TxMsgBurnFungibleGasPayer, TxMsgMintFungible, TxMsgTransferFungibleGasPayer,
  read_tx_msg_burn_fungible_gas_payer, read_tx_msg_mint_fungible,
  read_tx_msg_transfer_fungible_gas_payer, write_tx_msg_burn_fungible_gas_payer,
  write_tx_msg_mint_fungible, write_tx_msg_transfer_fungible_gas_payer,
}
use phantasma_py.Carbon.NonFungible.{
  TxMsgBurnNonFungibleGasPayer, TxMsgMintNonFungible, TxMsgTransferNonFungibleSingleGasPayer,
  read_tx_msg_burn_non_fungible_gas_payer, read_tx_msg_mint_non_fungible,
  read_tx_msg_transfer_non_fungible_single_gas_payer, write_tx_msg_burn_non_fungible_gas_payer,
  write_tx_msg_mint_non_fungible, write_tx_msg_transfer_non_fungible_single_gas_payer,
}

pub record TxMsgTrade : Type 0 where
  pub transfer_f : List TxMsgTransferFungibleGasPayer
  pub transfer_n : List TxMsgTransferNonFungibleSingleGasPayer
  pub mint_f : List TxMsgMintFungible
  pub burn_f : List TxMsgBurnFungibleGasPayer
  pub mint_n : List TxMsgMintNonFungible
  pub burn_n : List TxMsgBurnNonFungibleGasPayer

unfoldable pub write_tx_msg_trade : TxMsgTrade → Write
write_tx_msg_trade m = do
  write_carbon_array write_tx_msg_transfer_fungible_gas_payer m.transfer_f
  write_carbon_array write_tx_msg_transfer_non_fungible_single_gas_payer m.transfer_n
  write_carbon_array write_tx_msg_mint_fungible m.mint_f
  write_carbon_array write_tx_msg_burn_fungible_gas_payer m.burn_f
  write_carbon_array write_tx_msg_mint_non_fungible m.mint_n
  write_carbon_array write_tx_msg_burn_non_fungible_gas_payer m.burn_n

unfoldable pub read_tx_msg_trade : Read TxMsgTrade
read_tx_msg_trade = do
  transfer_f ← read_carbon_array read_tx_msg_transfer_fungible_gas_payer
  transfer_n ← read_carbon_array read_tx_msg_transfer_non_fungible_single_gas_payer
  mint_f ← read_carbon_array read_tx_msg_mint_fungible
  burn_f ← read_carbon_array read_tx_msg_burn_fungible_gas_payer
  mint_n ← read_carbon_array read_tx_msg_mint_non_fungible
  burn_n ← read_carbon_array read_tx_msg_burn_non_fungible_gas_payer
  pure (record {
    transfer_f = transfer_f;
    transfer_n = transfer_n;
    mint_f = mint_f;
    burn_f = burn_f;
    mint_n = mint_n;
    burn_n = burn_n;
  })

pub record TxMsgPhantasma : Type 0 where
  pub nexus : SmallString
  pub chain : SmallString
  pub script : Bytes

unfoldable pub write_tx_msg_phantasma : TxMsgPhantasma → Write
write_tx_msg_phantasma m = do
  write_small_string m.nexus
  write_small_string m.chain
  write_byte_array m.script

unfoldable pub read_tx_msg_phantasma : Read TxMsgPhantasma
read_tx_msg_phantasma = do
  nexus ← read_small_string
  chain ← read_small_string
  script ← read_byte_array
  pure (record { nexus = nexus; chain = chain; script = script })

pub record TxMsgPhantasmaRaw : Type 0 where
  pub transaction : Bytes

unfoldable pub write_tx_msg_phantasma_raw : TxMsgPhantasmaRaw → Write
write_tx_msg_phantasma_raw m = write_byte_array m.transaction

unfoldable pub read_tx_msg_phantasma_raw : Read TxMsgPhantasmaRaw
read_tx_msg_phantasma_raw = do
  transaction ← read_byte_array
  pure (record { transaction = transaction })
