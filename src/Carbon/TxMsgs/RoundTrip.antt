-- ===== src/Carbon/TxMsgs/RoundTrip.antt =====
-- A message whose type is that of its payload reads back.
use phantasma_py.Prelude.{arith, pos, subst, ◌<◌, ◌≡◌, IsSigned, ok, IsUnsigned, refl, length}
use phantasma_py.Carbon.Codec.{Encodes, Encodes-bind, Encodes-last, Encodes-lift, Encodes-weaken}
use phantasma_py.Carbon.Codec.Numbers.{write1_lem, write8_lem, write8u_lem, write32_lem}
use phantasma_py.Carbon.Values.SmallStrings.{IsSmallString, write_small_string_lem}
use phantasma_py.Carbon.Writer.{write1}
use phantasma_py.Carbon.TxMsgs.{
  TxType, tx_code, tx_type, read_tx_type, TxPayload, write_payload, read_payload, TxMsg,
  write_tx_msg, read_tx_msg,
}
use phantasma_py.Carbon.Calls.RoundTrip.{
  write_tx_msg_call_lem, IsTxMsgCall, write_tx_msg_call_multi_lem, AreCalls,
}
use phantasma_py.Carbon.Trades.RoundTrip.{
  write_tx_msg_trade_lem, IsTxMsgTrade, write_tx_msg_phantasma_lem, IsTxMsgPhantasma,
  write_tx_msg_phantasma_raw_lem, IsTxMsgPhantasmaRaw,
}
use phantasma_py.Carbon.Fungible.RoundTrip.{
  write_tx_msg_transfer_fungible_lem, IsTxMsgTransferFungible,
  write_tx_msg_transfer_fungible_gas_payer_lem, IsTxMsgTransferFungibleGasPayer,
  write_tx_msg_mint_fungible_lem, IsTxMsgMintFungible, write_tx_msg_burn_fungible_lem,
  IsTxMsgBurnFungible, write_tx_msg_burn_fungible_gas_payer_lem, IsTxMsgBurnFungibleGasPayer,
}
use phantasma_py.Carbon.NonFungible.RoundTrip.{
  write_tx_msg_transfer_non_fungible_single_lem, IsTxMsgTransferNonFungibleSingle,
  write_tx_msg_transfer_non_fungible_single_gas_payer_lem, IsTxMsgTransferNonFungibleSingleGasPayer,
  write_tx_msg_transfer_non_fungible_multi_lem, IsTxMsgTransferNonFungibleMulti,
  write_tx_msg_transfer_non_fungible_multi_gas_payer_lem, IsTxMsgTransferNonFungibleMultiGasPayer,
  write_tx_msg_mint_non_fungible_lem, IsTxMsgMintNonFungible, write_tx_msg_burn_non_fungible_lem,
  IsTxMsgBurnNonFungible, write_tx_msg_burn_non_fungible_gas_payer_lem,
  IsTxMsgBurnNonFungibleGasPayer,
}

-- The type that a payload belongs to
abbrev pub payload_type : TxPayload → TxType
payload_type (TxPayload.call m) = TxType.call
payload_type (TxPayload.call_multi m) = TxType.call_multi
payload_type (TxPayload.trade m) = TxType.trade
payload_type (TxPayload.transfer_fungible m) = TxType.transfer_fungible
payload_type (TxPayload.transfer_fungible_gas_payer m) = TxType.transfer_fungible_gas_payer
payload_type (TxPayload.transfer_non_fungible_single m) = TxType.transfer_non_fungible_single
payload_type (TxPayload.transfer_non_fungible_single_gas_payer m) =
    TxType.transfer_non_fungible_single_gas_payer
payload_type (TxPayload.transfer_non_fungible_multi m) = TxType.transfer_non_fungible_multi
payload_type (TxPayload.transfer_non_fungible_multi_gas_payer m) =
    TxType.transfer_non_fungible_multi_gas_payer
payload_type (TxPayload.mint_fungible m) = TxType.mint_fungible
payload_type (TxPayload.burn_fungible m) = TxType.burn_fungible
payload_type (TxPayload.burn_fungible_gas_payer m) = TxType.burn_fungible_gas_payer
payload_type (TxPayload.mint_non_fungible m) = TxType.mint_non_fungible
payload_type (TxPayload.burn_non_fungible m) = TxType.burn_non_fungible
payload_type (TxPayload.burn_non_fungible_gas_payer m) = TxType.burn_non_fungible_gas_payer
payload_type (TxPayload.phantasma m) = TxType.phantasma
payload_type (TxPayload.phantasma_raw m) = TxType.phantasma_raw

abbrev pub IsTxPayload : TxPayload → Type 0
IsTxPayload (TxPayload.call m) = IsTxMsgCall m
IsTxPayload (TxPayload.call_multi m) = AreCalls m.calls
IsTxPayload (TxPayload.trade m) = IsTxMsgTrade m
IsTxPayload (TxPayload.transfer_fungible m) = IsTxMsgTransferFungible m
IsTxPayload (TxPayload.transfer_fungible_gas_payer m) = IsTxMsgTransferFungibleGasPayer m
IsTxPayload (TxPayload.transfer_non_fungible_single m) = IsTxMsgTransferNonFungibleSingle m
IsTxPayload (TxPayload.transfer_non_fungible_single_gas_payer m) =
    IsTxMsgTransferNonFungibleSingleGasPayer m
IsTxPayload (TxPayload.transfer_non_fungible_multi m) = IsTxMsgTransferNonFungibleMulti m
IsTxPayload (TxPayload.transfer_non_fungible_multi_gas_payer m) =
    IsTxMsgTransferNonFungibleMultiGasPayer m
IsTxPayload (TxPayload.mint_fungible m) = IsTxMsgMintFungible m
IsTxPayload (TxPayload.burn_fungible m) = IsTxMsgBurnFungible m
IsTxPayload (TxPayload.burn_fungible_gas_payer m) = IsTxMsgBurnFungibleGasPayer m
IsTxPayload (TxPayload.mint_non_fungible m) = IsTxMsgMintNonFungible m
IsTxPayload (TxPayload.burn_non_fungible m) = IsTxMsgBurnNonFungible m
IsTxPayload (TxPayload.burn_non_fungible_gas_payer m) = IsTxMsgBurnNonFungibleGasPayer m
IsTxPayload (TxPayload.phantasma m) = IsTxMsgPhantasma m
IsTxPayload (TxPayload.phantasma_raw m) = IsTxMsgPhantasmaRaw m

tx_code-lt : (t : TxType) → tx_code t < 256
unfolding tx_code
tx_code-lt TxType.call = omega arith
tx_code-lt TxType.call_multi = omega arith
tx_code-lt TxType.trade = omega arith
tx_code-lt TxType.transfer_fungible = omega arith
tx_code-lt TxType.transfer_fungible_gas_payer = omega arith
tx_code-lt TxType.transfer_non_fungible_single = omega arith
tx_code-lt TxType.transfer_non_fungible_single_gas_payer = omega arith
tx_code-lt TxType.transfer_non_fungible_multi = omega arith
tx_code-lt TxType.transfer_non_fungible_multi_gas_payer = omega arith
tx_code-lt TxType.mint_fungible = omega arith
tx_code-lt TxType.burn_fungible = omega arith
tx_code-lt TxType.burn_fungible_gas_payer = omega arith
tx_code-lt TxType.mint_non_fungible = omega arith
tx_code-lt TxType.burn_non_fungible = omega arith
tx_code-lt TxType.burn_non_fungible_gas_payer = omega arith
tx_code-lt TxType.phantasma = omega arith
tx_code-lt TxType.phantasma_raw = omega arith

tx_type-tx_code : (t : TxType) → tx_type (tx_code t) ≡ ok t
unfolding tx_type tx_code
tx_type-tx_code TxType.call = refl
tx_type-tx_code TxType.call_multi = refl
tx_type-tx_code TxType.trade = refl
tx_type-tx_code TxType.transfer_fungible = refl
tx_type-tx_code TxType.transfer_fungible_gas_payer = refl
tx_type-tx_code TxType.transfer_non_fungible_single = refl
tx_type-tx_code TxType.transfer_non_fungible_single_gas_payer = refl
tx_type-tx_code TxType.transfer_non_fungible_multi = refl
tx_type-tx_code TxType.transfer_non_fungible_multi_gas_payer = refl
tx_type-tx_code TxType.mint_fungible = refl
tx_type-tx_code TxType.burn_fungible = refl
tx_type-tx_code TxType.burn_fungible_gas_payer = refl
tx_type-tx_code TxType.mint_non_fungible = refl
tx_type-tx_code TxType.burn_non_fungible = refl
tx_type-tx_code TxType.burn_non_fungible_gas_payer = refl
tx_type-tx_code TxType.phantasma = refl
tx_type-tx_code TxType.phantasma_raw = refl

tx_type_lem : (t : TxType) → Encodes 1 (write1 (pos (tx_code t))) read_tx_type t
unfolding read_tx_type
tx_type_lem t = Encodes-lift (write1_lem (tx_code t) (tx_code-lt t)) tx_type (tx_type-tx_code t)

write_payload_lem :
    (p : TxPayload) → IsTxPayload p → Encodes 1 (write_payload p) (read_payload (payload_type p)) p
unfolding write_payload read_payload
write_payload_lem (TxPayload.call m) h =
    Encodes-weaken 1 (omega arith) (Encodes-last (write_tx_msg_call_lem m h) TxPayload.call)
write_payload_lem (TxPayload.call_multi m) h =
    Encodes-weaken 1 (omega arith)
      (Encodes-last (write_tx_msg_call_multi_lem m h) TxPayload.call_multi)
write_payload_lem (TxPayload.trade m) h =
    Encodes-weaken 1 (omega arith) (Encodes-last (write_tx_msg_trade_lem m h) TxPayload.trade)
write_payload_lem (TxPayload.transfer_fungible m) h =
    Encodes-weaken 1 (omega arith)
      (Encodes-last (write_tx_msg_transfer_fungible_lem m h) TxPayload.transfer_fungible)
write_payload_lem (TxPayload.transfer_fungible_gas_payer m) h = Encodes-weaken 1 (omega arith) (
    Encodes-last (write_tx_msg_transfer_fungible_gas_payer_lem m h)
      TxPayload.transfer_fungible_gas_payer)
write_payload_lem (TxPayload.transfer_non_fungible_single m) h = Encodes-weaken 1 (omega arith) (
    Encodes-last (write_tx_msg_transfer_non_fungible_single_lem m h)
      TxPayload.transfer_non_fungible_single)
write_payload_lem (TxPayload.transfer_non_fungible_single_gas_payer m) h =
    Encodes-weaken 1 (omega arith) (
      Encodes-last (write_tx_msg_transfer_non_fungible_single_gas_payer_lem m h)
        TxPayload.transfer_non_fungible_single_gas_payer)
write_payload_lem (TxPayload.transfer_non_fungible_multi m) h = Encodes-weaken 1 (omega arith) (
    Encodes-last (write_tx_msg_transfer_non_fungible_multi_lem m h)
      TxPayload.transfer_non_fungible_multi)
write_payload_lem (TxPayload.transfer_non_fungible_multi_gas_payer m) h =
    Encodes-weaken 1 (omega arith) (
      Encodes-last (write_tx_msg_transfer_non_fungible_multi_gas_payer_lem m h)
        TxPayload.transfer_non_fungible_multi_gas_payer)
write_payload_lem (TxPayload.mint_fungible m) h =
    Encodes-weaken 1 (omega arith)
      (Encodes-last (write_tx_msg_mint_fungible_lem m h) TxPayload.mint_fungible)
write_payload_lem (TxPayload.burn_fungible m) h =
    Encodes-weaken 1 (omega arith)
      (Encodes-last (write_tx_msg_burn_fungible_lem m h) TxPayload.burn_fungible)
write_payload_lem (TxPayload.burn_fungible_gas_payer m) h =
    Encodes-weaken 1 (omega arith) (
      Encodes-last (write_tx_msg_burn_fungible_gas_payer_lem m h) TxPayload.burn_fungible_gas_payer)
write_payload_lem (TxPayload.mint_non_fungible m) h =
    Encodes-weaken 1 (omega arith)
      (Encodes-last (write_tx_msg_mint_non_fungible_lem m h) TxPayload.mint_non_fungible)
write_payload_lem (TxPayload.burn_non_fungible m) h =
    Encodes-weaken 1 (omega arith)
      (Encodes-last (write_tx_msg_burn_non_fungible_lem m h) TxPayload.burn_non_fungible)
write_payload_lem (TxPayload.burn_non_fungible_gas_payer m) h = Encodes-weaken 1 (omega arith) (
    Encodes-last (write_tx_msg_burn_non_fungible_gas_payer_lem m h)
      TxPayload.burn_non_fungible_gas_payer)
write_payload_lem (TxPayload.phantasma m) h =
    Encodes-weaken 1 (omega arith)
      (Encodes-last (write_tx_msg_phantasma_lem m h) TxPayload.phantasma)
write_payload_lem (TxPayload.phantasma_raw m) h =
    Encodes-weaken 1 (omega arith)
      (Encodes-last (write_tx_msg_phantasma_raw_lem m h) TxPayload.phantasma_raw)

pub record IsTxMsg (m : TxMsg) : Type 0 where
  pub type : payload_type m.msg ≡ m.type
  pub expiry : IsSigned 64 m.expiry
  pub max_gas : IsUnsigned 64 m.max_gas
  pub max_data : IsUnsigned 64 m.max_data
  pub gas_from : length m.gas_from ≡ 32
  pub payload : IsSmallString m.payload
  pub msg : IsTxPayload m.msg

typed_payload :
    (m : TxMsg) → IsTxMsg m → Encodes 1 (write_payload m.msg) (read_payload m.type) m.msg
typed_payload m h =
    subst (λ t. Encodes 1 (write_payload m.msg) (read_payload t) m.msg) h.type
      (write_payload_lem m.msg h.msg)

pub write_tx_msg_lem : (m : TxMsg) → IsTxMsg m → Encodes 1 (write_tx_msg m) read_tx_msg m
unfolding write_tx_msg read_tx_msg
write_tx_msg_lem m h = Encodes-bind (tx_type_lem m.type) _ (
    Encodes-bind (write8_lem m.expiry h.expiry) _ (
      Encodes-bind (write8u_lem m.max_gas h.max_gas) _ (
        Encodes-bind (write8u_lem m.max_data h.max_data) _ (
          Encodes-bind (write32_lem m.gas_from h.gas_from) _ (
            Encodes-bind (write_small_string_lem m.payload h.payload) _
              (Encodes-last (typed_payload m h) _))))))
