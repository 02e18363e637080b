-- ===== src/Carbon/Examples.antt =====
-- The round trips of carbon.py on concrete objects.
mod Series
mod Contracts
mod Dynamic
mod Configs
mod Signing
use phantasma_py.Carbon.Reader.{read_big_int, read_byte_arrays, read_string_z}
use phantasma_py.Carbon.Values.SmallStrings.{IsSmallString}
use phantasma_py.Carbon.Codec.BigInts.{wrap_256}
use phantasma_py.Carbon.Tokens.RoundTrip.{IsTokenInfo}
use phantasma_py.Carbon.RoundTrips.{
  serialize-write_tx_msg-injective, signed_tx_msg-RoundTrips, small_string-RoundTrips,
  token_info-RoundTrips, token_listing-RoundTrips, tx_msg-RoundTrips, tx_msg_call_multi-RoundTrips,
  tx_msg_special_resolution-RoundTrips, big_int-RoundTrips, byte_arrays-RoundTrips,
  int_x-RoundTrips, signed_tx_msg-prefix_free, string_z-RoundTrips,
}
use phantasma_py.Carbon.Signed.RoundTrip.{IsSignedTxMsg}
use phantasma_py.Text.{encode_utf8, encode_char}
use phantasma_py.Carbon.Writer.{write_big_int, write_byte_arrays, write_string_z}
use phantasma_py.Carbon.Listings.{
  TokenListing, write_token_listing, fixed_price, read_token_listing,
}
use phantasma_py.Carbon.Tokens.{TokenInfo, is_non_fungible, write_token_info, read_token_info}
use phantasma_py.Carbon.Calls.{
  TxMsgSpecialResolution, write_tx_msg_call_multi, write_tx_msg_special_resolution, TxMsgCall,
  read_tx_msg_call_multi, read_tx_msg_special_resolution,
}
use phantasma_py.Carbon.Calls.RoundTrip.{AreCalls}
use phantasma_py.Prelude.{
  List, ◌≡◌, arith, negsuc, pos, replicate, ◌∷◌, ◌≢◌, [], ok, refl, ◌^◌, none, ◌++◌, ◌-◌, some, inl,
}
use phantasma_py.Carbon.Signed.{SignedTxMsg, witness_form, write_signed_tx_msg, read_signed_tx_msg}
use phantasma_py.Carbon.TxMsgs.RoundTrip.{IsTxMsg}
use phantasma_py.Carbon.TxMsgs.{TxMsg, write_tx_msg, TxType, read_tx_msg, TxPayload}
use phantasma_py.Carbon.Values.{
  SmallString, small_string, write_int_x, write_small_string, read_small_string, read_int_x,
}
use phantasma_py.Bytes.{Bytes, from_twos_complement, twos_complement}
use phantasma_py.Carbon.Codec.{RoundTrips, serialize}

abbrev pub address : Bytes
address = replicate 32 7

abbrev pub soul : SmallString
soul = record { value = 83 ∷ 79 ∷ 85 ∷ 76 ∷ [] }

soul-IsSmallString : IsSmallString soul
unfolding small_string encode_utf8 encode_char
soul-IsSmallString = refl

abbrev pub transfer : TxMsg
transfer = record {
  type = TxType.transfer_fungible;
  expiry = pos 1759711416000;
  max_gas = pos 10000000;
  max_data = pos 1000;
  gas_from = address;
  payload = soul;
  msg =
      TxPayload.transfer_fungible
        (record { to = address; token_id = pos 1; amount = pos 100000000 });
}

pub transfer-IsTxMsg : IsTxMsg transfer
transfer-IsTxMsg = record {
  type = refl;
  expiry = omega arith;
  max_gas = omega arith;
  max_data = omega arith;
  gas_from = refl;
  payload = soul-IsSmallString;
  msg = record { to = refl; token_id = omega arith; amount = omega arith };
}

abbrev pub signed_transfer : SignedTxMsg
signed_transfer = record {
  msg = transfer;
  witnesses = record { address = address; signature = replicate 64 9 } ∷ [];
}

pub signed_transfer-IsSignedTxMsg : IsSignedTxMsg signed_transfer
unfolding witness_form
signed_transfer-IsSignedTxMsg = record {
  msg = transfer-IsTxMsg;
  witnesses = (replicate 64 9, refl, refl);
}

signed_tx_msg-RoundTrips_example :
    RoundTrips (write_signed_tx_msg signed_transfer) read_signed_tx_msg signed_transfer
signed_tx_msg-RoundTrips_example =
    signed_tx_msg-RoundTrips signed_transfer signed_transfer-IsSignedTxMsg

tx_msg-RoundTrips_example : RoundTrips (write_tx_msg transfer) read_tx_msg transfer
tx_msg-RoundTrips_example = tx_msg-RoundTrips transfer transfer-IsTxMsg

serialize-write_tx_msg-injective_example : transfer ≡ transfer
serialize-write_tx_msg-injective_example =
    serialize-write_tx_msg-injective transfer transfer transfer-IsTxMsg transfer-IsTxMsg refl

abbrev signed_bytes : Bytes
signed_bytes = (signed_tx_msg-RoundTrips signed_transfer signed_transfer-IsSignedTxMsg).0

signed_tx_msg-prefix_free_example :
    serialize (write_signed_tx_msg signed_transfer) ≢ ok (signed_bytes ++ 0 ∷ [])
signed_tx_msg-prefix_free_example =
    signed_tx_msg-prefix_free signed_transfer signed_transfer 0 [] signed_transfer-IsSignedTxMsg
      signed_transfer-IsSignedTxMsg
      ((signed_tx_msg-RoundTrips signed_transfer signed_transfer-IsSignedTxMsg).1)

-- A call with plain arguments and one with two sections
abbrev calls : List TxMsgCall
calls =
    record { module_id = pos 1; method_id = pos 2; args = 1 ∷ 2 ∷ 3 ∷ []; sections = none }
    ∷ record {
      module_id = pos 0;
      method_id = pos 5;
      args = [];
      sections = some (record {
        sections =
            record { register_offset = negsuc 0; args = [] }
            ∷ record { register_offset = pos 0; args = 4 ∷ [] }
            ∷ [];
      });
    }
    ∷ []

calls-AreCalls : AreCalls calls
calls-AreCalls = (
  omega arith,
  (
    record { module_id = omega arith; method_id = omega arith; body = omega arith },
    (
      record {
        module_id = omega arith;
        method_id = omega arith;
        body = (refl, omega arith, omega arith, ((omega arith, refl), (omega arith, tt)));
      },
      tt,
    ),
  ),
)

abbrev resolution : TxMsgSpecialResolution
resolution = record { resolution_id = pos 12; calls = calls }

tx_msg_special_resolution-RoundTrips_example :
    RoundTrips
      (write_tx_msg_special_resolution resolution)
      read_tx_msg_special_resolution
      resolution
tx_msg_special_resolution-RoundTrips_example =
    tx_msg_special_resolution-RoundTrips resolution (omega arith) calls-AreCalls

abbrev nft : TokenInfo
nft = record {
  max_supply = record { value = pos (2 ^ 70) };
  flags = 2;
  decimals = pos 0;
  owner = address;
  symbol = soul;
  metadata = 1 ∷ [];
  token_schemas = 2 ∷ 3 ∷ [];
}

nft-IsTokenInfo : IsTokenInfo nft
unfolding is_non_fungible
nft-IsTokenInfo = record {
  max_supply = omega arith;
  flags = omega arith;
  decimals = omega arith;
  owner = refl;
  symbol = soul-IsSmallString;
  metadata = omega arith;
  token_schemas = omega arith;
}

token_info-RoundTrips_example : RoundTrips (write_token_info nft) read_token_info nft
token_info-RoundTrips_example = token_info-RoundTrips nft nft-IsTokenInfo

-- -(2 ^ 63) - 1 needs nine bytes.
int_x-RoundTrips_example :
    RoundTrips
      (write_int_x (record { value = negsuc (2 ^ 63) }))
      read_int_x
      (record { value = negsuc (2 ^ 63) })
int_x-RoundTrips_example = int_x-RoundTrips (record { value = negsuc (2 ^ 63) }) (omega arith)

-- 2 ^ 255 comes back as -(2 ^ 255).
big_int-RoundTrips_example :
    RoundTrips (write_big_int (pos (2 ^ 255))) read_big_int (wrap_256 (pos (2 ^ 255)))
big_int-RoundTrips_example = big_int-RoundTrips (pos (2 ^ 255)) refl

wrap_256_test : wrap_256 (pos (2 ^ 255)) ≡ negsuc (2 ^ 255 - 1)
unfolding from_twos_complement twos_complement
wrap_256_test = refl
