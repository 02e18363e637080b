-- ===== src/Carbon/TxMsgs.antt =====
-- `TxMsg` of carbon.py: the seventeen types of transactions, their payloads, and the message.
pub mod RoundTrip
use phantasma_py.Prelude.{
  ℕ, ℤ, ◌>>=◌, ◌>>◌, pure, List, Result, lift, pos, err, ◌∷◌, [], value, ok, suc, zero,
}
use phantasma_py.Bytes.{Bytes}
use phantasma_py.Carbon.Writer.{Write, write1, write8, write8u, write32}
use phantasma_py.Carbon.Reader.{Read, read1, read8, read8u, read32}
use phantasma_py.Carbon.Values.{SmallString, write_small_string, read_small_string}
use phantasma_py.Carbon.Calls.{
  TxMsgCall, write_tx_msg_call, read_tx_msg_call, TxMsgCallMulti, write_tx_msg_call_multi,
  read_tx_msg_call_multi,
}
use phantasma_py.Carbon.Trades.{
  TxMsgTrade, write_tx_msg_trade, read_tx_msg_trade, TxMsgPhantasma, write_tx_msg_phantasma,
  read_tx_msg_phantasma, TxMsgPhantasmaRaw, write_tx_msg_phantasma_raw, read_tx_msg_phantasma_raw,
}
use phantasma_py.Carbon.Fungible.{
  TxMsgTransferFungible, write_tx_msg_transfer_fungible, read_tx_msg_transfer_fungible,
  TxMsgTransferFungibleGasPayer, write_tx_msg_transfer_fungible_gas_payer,
  read_tx_msg_transfer_fungible_gas_payer, TxMsgMintFungible, write_tx_msg_mint_fungible,
  read_tx_msg_mint_fungible, TxMsgBurnFungible, write_tx_msg_burn_fungible,
  read_tx_msg_burn_fungible, TxMsgBurnFungibleGasPayer, write_tx_msg_burn_fungible_gas_payer,
  read_tx_msg_burn_fungible_gas_payer,
}
use phantasma_py.Carbon.NonFungible.{
  TxMsgTransferNonFungibleSingle, write_tx_msg_transfer_non_fungible_single,
  read_tx_msg_transfer_non_fungible_single, TxMsgTransferNonFungibleSingleGasPayer,
  write_tx_msg_transfer_non_fungible_single_gas_payer,
  read_tx_msg_transfer_non_fungible_single_gas_payer, TxMsgTransferNonFungibleMulti,
  write_tx_msg_transfer_non_fungible_multi, read_tx_msg_transfer_non_fungible_multi,
  TxMsgTransferNonFungibleMultiGasPayer, write_tx_msg_transfer_non_fungible_multi_gas_payer,
  read_tx_msg_transfer_non_fungible_multi_gas_payer, TxMsgMintNonFungible,
  write_tx_msg_mint_non_fungible, read_tx_msg_mint_non_fungible, TxMsgBurnNonFungible,
  write_tx_msg_burn_non_fungible, read_tx_msg_burn_non_fungible, TxMsgBurnNonFungibleGasPayer,
  write_tx_msg_burn_non_fungible_gas_payer, read_tx_msg_burn_non_fungible_gas_payer,
}

pub data TxType : Type 0 where
  call : TxType
  call_multi : TxType
  trade : TxType
  transfer_fungible : TxType
  transfer_fungible_gas_payer : TxType
  transfer_non_fungible_single : TxType
  transfer_non_fungible_single_gas_payer : TxType
  transfer_non_fungible_multi : TxType
  transfer_non_fungible_multi_gas_payer : TxType
  mint_fungible : TxType
  burn_fungible : TxType
  burn_fungible_gas_payer : TxType
  mint_non_fungible : TxType
  burn_non_fungible : TxType
  burn_non_fungible_gas_payer : TxType
  phantasma : TxType
  phantasma_raw : TxType

unfoldable pub tx_code : TxType → ℕ
tx_code TxType.call = 0
tx_code TxType.call_multi = 1
tx_code TxType.trade = 2
tx_code TxType.transfer_fungible = 3
tx_code TxType.transfer_fungible_gas_payer = 4
tx_code TxType.transfer_non_fungible_single = 5
tx_code TxType.transfer_non_fungible_single_gas_payer = 6
tx_code TxType.transfer_non_fungible_multi = 7
tx_code TxType.transfer_non_fungible_multi_gas_payer = 8
tx_code TxType.mint_fungible = 9
tx_code TxType.burn_fungible = 10
tx_code TxType.burn_fungible_gas_payer = 11
tx_code TxType.mint_non_fungible = 12
tx_code TxType.burn_non_fungible = 13
tx_code TxType.burn_non_fungible_gas_payer = 14
tx_code TxType.phantasma = 15
tx_code TxType.phantasma_raw = 16

abbrev tx_types : List TxType
tx_types =
    TxType.call ∷ TxType.call_multi ∷ TxType.trade ∷ TxType.transfer_fungible
    ∷ TxType.transfer_fungible_gas_payer ∷ TxType.transfer_non_fungible_single
    ∷ TxType.transfer_non_fungible_single_gas_payer ∷ TxType.transfer_non_fungible_multi
    ∷ TxType.transfer_non_fungible_multi_gas_payer ∷ TxType.mint_fungible ∷ TxType.burn_fungible
    ∷ TxType.burn_fungible_gas_payer ∷ TxType.mint_non_fungible ∷ TxType.burn_non_fungible
    ∷ TxType.burn_non_fungible_gas_payer ∷ TxType.phantasma ∷ TxType.phantasma_raw ∷ []

-- `TxType(n)`: the member at the place `n`, else a ValueError.
member_at : List TxType → ℕ → Result TxType
member_at [] n = err value
member_at (t ∷ ts) zero = ok t
member_at (t ∷ ts) (suc n) = member_at ts n

unfoldable pub tx_type : ℕ → Result TxType
unfolding member_at
tx_type n = member_at tx_types n

unfoldable pub read_tx_type : Read TxType
read_tx_type = do n ← read1; lift (tx_type n)

pub data TxPayload : Type 0 where
  call : TxMsgCall → TxPayload
  call_multi : TxMsgCallMulti → TxPayload
  trade : TxMsgTrade → TxPayload
  transfer_fungible : TxMsgTransferFungible → TxPayload
  transfer_fungible_gas_payer : TxMsgTransferFungibleGasPayer → TxPayload
  transfer_non_fungible_single : TxMsgTransferNonFungibleSingle → TxPayload
  transfer_non_fungible_single_gas_payer : TxMsgTransferNonFungibleSingleGasPayer → TxPayload
  transfer_non_fungible_multi : TxMsgTransferNonFungibleMulti → TxPayload
  transfer_non_fungible_multi_gas_payer : TxMsgTransferNonFungibleMultiGasPayer → TxPayload
  mint_fungible : TxMsgMintFungible → TxPayload
  burn_fungible : TxMsgBurnFungible → TxPayload
  burn_fungible_gas_payer : TxMsgBurnFungibleGasPayer → TxPayload
  mint_non_fungible : TxMsgMintNonFungible → TxPayload
  burn_non_fungible : TxMsgBurnNonFungible → TxPayload
  burn_non_fungible_gas_payer : TxMsgBurnNonFungibleGasPayer → TxPayload
  phantasma : TxMsgPhantasma → TxPayload
  phantasma_raw : TxMsgPhantasmaRaw → TxPayload

unfoldable pub write_payload : TxPayload → Write
write_payload (TxPayload.call m) = write_tx_msg_call m
write_payload (TxPayload.call_multi m) = write_tx_msg_call_multi m
write_payload (TxPayload.trade m) = write_tx_msg_trade m
write_payload (TxPayload.transfer_fungible m) = write_tx_msg_transfer_fungible m
write_payload (TxPayload.transfer_fungible_gas_payer m) = write_tx_msg_transfer_fungible_gas_payer m
write_payload (TxPayload.transfer_non_fungible_single m) =
    write_tx_msg_transfer_non_fungible_single m
write_payload (TxPayload.transfer_non_fungible_single_gas_payer m) =
    write_tx_msg_transfer_non_fungible_single_gas_payer m
write_payload (TxPayload.transfer_non_fungible_multi m) = write_tx_msg_transfer_non_fungible_multi m
write_payload (TxPayload.transfer_non_fungible_multi_gas_payer m) =
    write_tx_msg_transfer_non_fungible_multi_gas_payer m
write_payload (TxPayload.mint_fungible m) = write_tx_msg_mint_fungible m
write_payload (TxPayload.burn_fungible m) = write_tx_msg_burn_fungible m
write_payload (TxPayload.burn_fungible_gas_payer m) = write_tx_msg_burn_fungible_gas_payer m
write_payload (TxPayload.mint_non_fungible m) = write_tx_msg_mint_non_fungible m
write_payload (TxPayload.burn_non_fungible m) = write_tx_msg_burn_non_fungible m
write_payload (TxPayload.burn_non_fungible_gas_payer m) = write_tx_msg_burn_non_fungible_gas_payer m
write_payload (TxPayload.phantasma m) = write_tx_msg_phantasma m
write_payload (TxPayload.phantasma_raw m) = write_tx_msg_phantasma_raw m

-- `_read_payload`
unfoldable pub read_payload : TxType → Read TxPayload
read_payload TxType.call = do m ← read_tx_msg_call; pure (TxPayload.call m)
read_payload TxType.call_multi = do m ← read_tx_msg_call_multi; pure (TxPayload.call_multi m)
read_payload TxType.trade = do m ← read_tx_msg_trade; pure (TxPayload.trade m)
read_payload TxType.transfer_fungible = do
  m ← read_tx_msg_transfer_fungible
  pure (TxPayload.transfer_fungible m)
read_payload TxType.transfer_fungible_gas_payer = do
  m ← read_tx_msg_transfer_fungible_gas_payer
  pure (TxPayload.transfer_fungible_gas_payer m)
read_payload TxType.transfer_non_fungible_single = do
  m ← read_tx_msg_transfer_non_fungible_single
  pure (TxPayload.transfer_non_fungible_single m)
read_payload TxType.transfer_non_fungible_single_gas_payer = do
  m ← read_tx_msg_transfer_non_fungible_single_gas_payer
  pure (TxPayload.transfer_non_fungible_single_gas_payer m)
read_payload TxType.transfer_non_fungible_multi = do
  m ← read_tx_msg_transfer_non_fungible_multi
  pure (TxPayload.transfer_non_fungible_multi m)
read_payload TxType.transfer_non_fungible_multi_gas_payer = do
  m ← read_tx_msg_transfer_non_fungible_multi_gas_payer
  pure (TxPayload.transfer_non_fungible_multi_gas_payer m)
read_payload TxType.mint_fungible = do
  m ← read_tx_msg_mint_fungible
  pure (TxPayload.mint_fungible m)
read_payload TxType.burn_fungible = do
  m ← read_tx_msg_burn_fungible
  pure (TxPayload.burn_fungible m)
read_payload TxType.burn_fungible_gas_payer = do
  m ← read_tx_msg_burn_fungible_gas_payer
  pure (TxPayload.burn_fungible_gas_payer m)
read_payload TxType.mint_non_fungible = do
  m ← read_tx_msg_mint_non_fungible
  pure (TxPayload.mint_non_fungible m)
read_payload TxType.burn_non_fungible = do
  m ← read_tx_msg_burn_non_fungible
  pure (TxPayload.burn_non_fungible m)
read_payload TxType.burn_non_fungible_gas_payer = do
  m ← read_tx_msg_burn_non_fungible_gas_payer
  pure (TxPayload.burn_non_fungible_gas_payer m)
read_payload TxType.phantasma = do m ← read_tx_msg_phantasma; pure (TxPayload.phantasma m)
read_payload TxType.phantasma_raw = do
  m ← read_tx_msg_phantasma_raw
  pure (TxPayload.phantasma_raw m)

pub record TxMsg : Type 0 where
  pub type : TxType
  pub expiry : ℤ
  pub max_gas : ℤ
  pub max_data : ℤ
  pub gas_from : Bytes
  pub payload : SmallString
  pub msg : TxPayload

unfoldable pub write_tx_msg : TxMsg → Write
write_tx_msg m = do
  write1 (pos (tx_code m.type))
  write8 m.expiry
  write8u m.max_gas
  write8u m.max_data
  write32 m.gas_from
  write_small_string m.payload
  write_payload m.msg

unfoldable pub read_tx_msg : Read TxMsg
read_tx_msg = do
  type ← read_tx_type
  expiry ← read8
  max_gas ← read8u
  max_data ← read8u
  gas_from ← read32
  payload ← read_small_string
  msg ← read_payload type
  pure (record {
    type = type;
    expiry = expiry;
    max_gas = max_gas;
    max_data = max_data;
    gas_from = gas_from;
    payload = payload;
    msg = msg;
  })
