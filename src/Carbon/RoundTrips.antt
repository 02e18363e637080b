-- ===== src/Carbon/RoundTrips.antt =====
-- The wire form of each part of carbon.py: what `serialize` writes, `deserialize` reads back, and
-- no two objects have one wire form.
pub mod Contracts
pub mod Dynamic
pub mod Series
use phantasma_py.Carbon.Codec.Arrays.{write_byte_arrays_lem, write_string_z_lem}
use phantasma_py.Carbon.Codec.BigInts.{wrap_256, write_big_int_lem}
use phantasma_py.Carbon.Values.IntXs.{write_int_x_lem}
use phantasma_py.Text.RoundTrip.{IsScalar}
use phantasma_py.Carbon.Codec.{RoundTrips, serialize, Encodes-RoundTrips}
use phantasma_py.Carbon.Values.SmallStrings.{IsSmallString, write_small_string_lem}
use phantasma_py.Carbon.Listings.RoundTrip.{IsTokenListing, write_token_listing_lem}
use phantasma_py.Carbon.Tokens.RoundTrip.{IsTokenInfo, write_token_info_lem}
use phantasma_py.Carbon.Config.GasConfigs.{IsGasConfig, write_gas_config_lem}
use phantasma_py.Carbon.Calls.RoundTrip.{
  AreCalls, write_tx_msg_call_multi_lem, write_tx_msg_special_resolution_lem,
}
use phantasma_py.Bytes.{Bytes}
use phantasma_py.Carbon.TxMsgs.RoundTrip.{IsTxMsg, write_tx_msg_lem}
use phantasma_py.Carbon.Signed.RoundTrip.{IsSignedTxMsg, write_signed_tx_msg_lem}
use phantasma_py.Carbon.Reader.{Read, read_big_int, read_byte_arrays, read_string_z}
use phantasma_py.Text.{Text, has_zero}
use phantasma_py.Prelude.{
  List, ℤ, All, IsSigned, IsUnsigned, fits_bit_length, length, ℕ, ◌≡◌, ok, true, ◌<◌, false, ◌^◌,
  ◌≢◌, ◌++◌, ◌∷◌,
}
use phantasma_py.Carbon.Values.{
  IntX, SmallString, write_int_x, write_small_string, read_int_x, read_small_string,
}
use phantasma_py.Carbon.Listings.{TokenListing, write_token_listing, read_token_listing}
use phantasma_py.Carbon.Tokens.{TokenInfo, write_token_info, read_token_info}
use phantasma_py.Carbon.Config.{GasConfig, write_gas_config, read_gas_config}
use phantasma_py.Carbon.Calls.{
  TxMsgCallMulti, TxMsgSpecialResolution, write_tx_msg_call_multi, write_tx_msg_special_resolution,
  read_tx_msg_call_multi, read_tx_msg_special_resolution,
}
use phantasma_py.Carbon.TxMsgs.{TxMsg, write_tx_msg, read_tx_msg}
use phantasma_py.Carbon.Signed.{SignedTxMsg, write_signed_tx_msg, read_signed_tx_msg}
use phantasma_py.Carbon.Writer.{Write, write_big_int, write_byte_arrays, write_string_z}

module _ {A : Type 0} (w : A → Write) (r : Read A) where
  -- A form that reads back determines the object.
  injective_of_RoundTrips :
      (a b : A)
      → RoundTrips (w a) r a
      → RoundTrips (w b) r b
      → serialize (w a) ≡ serialize (w b)
      → a ≡ b
  injective_of_RoundTrips a b (raw, e, back, longer) (raw', e', back', longer') same_form = cc

  -- A form that reads back is no beginning of another.
  prefix_free_of_RoundTrips :
      (a b : A) {raw : Bytes} (x : ℕ) (extra : Bytes)
      → RoundTrips (w a) r a
      → RoundTrips (w b) r b
      → serialize (w a) ≡ ok raw
      → serialize (w b) ≢ ok (raw ++ x ∷ extra)
  prefix_free_of_RoundTrips a b {raw} x extra (p, e, back, longer) (q, e', back', longer') h h' =
      cc (longer x extra)

-- A signed message whose payload is that of its type, whose fields are in their ranges and whose
-- witnesses are those its type wants is written, reads back as itself, and is refused with any
-- byte behind it, if each of its calls has one form of arguments: plain bytes and no sections, or
-- no plain bytes and at least one section; and if each section has one form too: bytes at the
-- register offset 0, or a negative offset and no bytes.
pub signed_tx_msg-RoundTrips :
    (s : SignedTxMsg) → IsSignedTxMsg s → RoundTrips (write_signed_tx_msg s) read_signed_tx_msg s
signed_tx_msg-RoundTrips s h = Encodes-RoundTrips (write_signed_tx_msg_lem s h)

-- A message of any of the seventeen types, whose payload is that of its type and whose fields are
-- in their ranges, is written, reads back as itself, and is refused with any byte behind it, if
-- each of its calls has one form of arguments: plain bytes and no sections, or no plain bytes and
-- at least one section; and if each section has one form too: bytes at the register offset 0, or a
-- negative offset and no bytes.
pub tx_msg-RoundTrips : (m : TxMsg) → IsTxMsg m → RoundTrips (write_tx_msg m) read_tx_msg m
tx_msg-RoundTrips m h = Encodes-RoundTrips (write_tx_msg_lem m h)

-- Two messages that are well formed and have the same bytes are the same message: the bytes that
-- are signed stand for one message only.
pub serialize-write_tx_msg-injective :
    (m n : TxMsg)
    → IsTxMsg m
    → IsTxMsg n
    → serialize (write_tx_msg m) ≡ serialize (write_tx_msg n)
    → m ≡ n
serialize-write_tx_msg-injective m n hm hn =
    injective_of_RoundTrips write_tx_msg read_tx_msg m n (tx_msg-RoundTrips m hm)
      (tx_msg-RoundTrips n hn)

-- The bytes of a well-formed signed message are no beginning of those of another one.
pub signed_tx_msg-prefix_free :
    (s t : SignedTxMsg) {raw : Bytes} (x : ℕ) (extra : Bytes)
    → IsSignedTxMsg s
    → IsSignedTxMsg t
    → serialize (write_signed_tx_msg s) ≡ ok raw
    → serialize (write_signed_tx_msg t) ≢ ok (raw ++ x ∷ extra)
signed_tx_msg-prefix_free s t x extra hs ht =
    prefix_free_of_RoundTrips write_signed_tx_msg read_signed_tx_msg s t x extra
      (signed_tx_msg-RoundTrips s hs) (signed_tx_msg-RoundTrips t ht)

-- Calls, each with plain arguments or with at least one section and no plain arguments, their
-- sections a negative register offset with no bytes or bytes at the offset 0, are written, read
-- back, and are refused with any byte behind them.
pub tx_msg_call_multi-RoundTrips :
    (m : TxMsgCallMulti)
    → AreCalls m.calls
    → RoundTrips (write_tx_msg_call_multi m) read_tx_msg_call_multi m
tx_msg_call_multi-RoundTrips m h = Encodes-RoundTrips (write_tx_msg_call_multi_lem m h)

-- A special resolution with an unsigned 64-bit number and fewer than 2 ^ 31 calls is written, reads
-- back, and is refused with any byte behind it, if the calls have unsigned 32-bit module and method
-- numbers and one form of arguments each: plain bytes and no sections, or no plain bytes and at
-- least one section, which has bytes at the register offset 0, or a negative offset and no bytes.
pub tx_msg_special_resolution-RoundTrips :
    (m : TxMsgSpecialResolution)
    → IsUnsigned 64 m.resolution_id
    → AreCalls m.calls
    → RoundTrips (write_tx_msg_special_resolution m) read_tx_msg_special_resolution m
tx_msg_special_resolution-RoundTrips m id h =
    Encodes-RoundTrips (write_tx_msg_special_resolution_lem m id h)

-- A gas configuration with fields in their ranges, of version 0 with the fields of gas model v2
-- zero or of a later version with any, is written, reads back, and is refused with any byte behind
-- it.
pub gas_config-RoundTrips :
    (m : GasConfig) → IsGasConfig m → RoundTrips (write_gas_config m) read_gas_config m
gas_config-RoundTrips m h = Encodes-RoundTrips (write_gas_config_lem m h)

-- A token's description with fields in their ranges, with no schemas if the token is fungible, is
-- written, reads back, and is refused with any byte behind it.
pub token_info-RoundTrips :
    (m : TokenInfo) → IsTokenInfo m → RoundTrips (write_token_info m) read_token_info m
token_info-RoundTrips m h = Encodes-RoundTrips (write_token_info_lem m h)

-- A listing with fields in their ranges is written, reads back, and is refused with any byte
-- behind it.
pub token_listing-RoundTrips :
    (m : TokenListing) → IsTokenListing m → RoundTrips (write_token_listing m) read_token_listing m
token_listing-RoundTrips m h = Encodes-RoundTrips (write_token_listing_lem m h)

-- A signed 256-bit `IntX`, in its form of eight bytes or in the compact form, is written, reads
-- back, and is refused with any byte behind it.
pub int_x-RoundTrips : (x : IntX) → IsSigned 256 x.value → RoundTrips (write_int_x x) read_int_x x
int_x-RoundTrips x h = Encodes-RoundTrips (write_int_x_lem x h)

-- An integer of at most 256 bits and a sign is written, and reads back as the signed number with
-- the same 256 bits; with any byte behind it it is refused.
pub big_int-RoundTrips :
    (v : ℤ) → fits_bit_length 256 v ≡ true → RoundTrips (write_big_int v) read_big_int (wrap_256 v)
big_int-RoundTrips v h = Encodes-RoundTrips (write_big_int_lem v h)

-- A `SmallString` that its constructor accepts is written, reads back, and is refused with any
-- byte behind it.
pub small_string-RoundTrips :
    (s : SmallString) → IsSmallString s → RoundTrips (write_small_string s) read_small_string s
small_string-RoundTrips s h = Encodes-RoundTrips (write_small_string_lem s h)

-- A text of code points with no surrogate and no zero is written with a zero behind it, reads
-- back, and is refused with any byte behind it.
pub string_z-RoundTrips :
    (text : Text)
    → All IsScalar text
    → has_zero text ≡ false
    → RoundTrips (write_string_z text) read_string_z text
string_z-RoundTrips text h no_zero = Encodes-RoundTrips (write_string_z_lem text h no_zero)

-- Fewer than 2 ^ 31 byte arrays, each of fewer than 2 ^ 31 bytes, are written, read back, and are
-- refused with any byte behind them.
pub byte_arrays-RoundTrips :
    (raws : List Bytes)
    → length raws < 2 ^ 31
    → All (λ raw. length raw < 2 ^ 31) raws
    → RoundTrips (write_byte_arrays raws) read_byte_arrays raws
byte_arrays-RoundTrips raws h hs = Encodes-RoundTrips (write_byte_arrays_lem raws h hs)
