-- ===== src/Carbon/Tokens/RoundTrip.antt =====
-- A token's description reads back; its schemas are there for non-fungible tokens only.
use phantasma_py.Prelude.{
  Bool, IsSigned, if◌then◌else◌, length, ◌<◌, IsUnsigned, pure, ◌^◌, [], ◌≡◌, arith, true, false,
}
use phantasma_py.Bytes.{Bytes}
use phantasma_py.Carbon.Writer.{write_byte_array}
use phantasma_py.Carbon.Reader.{read_byte_array}
use phantasma_py.Carbon.Codec.{Encodes, Encodes-bind, Encodes-last, Encodes-pure, Encodes-weaken}
use phantasma_py.Carbon.Codec.Numbers.{write1_lem, write1_int_lem, write32_lem}
use phantasma_py.Carbon.Codec.Arrays.{write_byte_array_lem}
use phantasma_py.Carbon.Values.SmallStrings.{IsSmallString, write_small_string_lem}
use phantasma_py.Carbon.Values.IntXs.{write_int_x_lem}
use phantasma_py.Carbon.Tokens.{
  TokenInfo, is_non_fungible, write_token_info, read_token_schemas, read_token_info,
}

abbrev SchemasFit : Bool → Bytes → Type 0
SchemasFit true raw = length raw < 2 ^ 31
SchemasFit false raw = raw ≡ []

pub record IsTokenInfo (m : TokenInfo) : Type 0 where
  pub max_supply : IsSigned 256 m.max_supply.value
  pub flags : m.flags < 256
  pub decimals : IsUnsigned 8 m.decimals
  pub owner : length m.owner ≡ 32
  pub symbol : IsSmallString m.symbol
  pub metadata : length m.metadata < 2 ^ 31
  pub token_schemas : SchemasFit (is_non_fungible m.flags) m.token_schemas

schemas_lem :
    (b : Bool) (raw : Bytes)
    → SchemasFit b raw
    → Encodes 0
        (if b then write_byte_array raw else pure tt)
        (if b then read_byte_array else pure [])
        raw
schemas_lem true raw h = Encodes-weaken 0 (omega arith) (write_byte_array_lem raw h)
schemas_lem false raw h = rw h (Encodes-pure [])

pub write_token_info_lem :
    (m : TokenInfo) → IsTokenInfo m → Encodes 1 (write_token_info m) read_token_info m
unfolding write_token_info read_token_info read_token_schemas
write_token_info_lem m h = Encodes-bind (write_int_x_lem m.max_supply h.max_supply) _ (
    Encodes-bind (write1_lem m.flags h.flags) _ (
      Encodes-bind (write1_int_lem m.decimals h.decimals) _ (
        Encodes-bind (write32_lem m.owner h.owner) _ (
          Encodes-bind (write_small_string_lem m.symbol h.symbol) _ (
            Encodes-bind (write_byte_array_lem m.metadata h.metadata) _ (
              Encodes-last (schemas_lem (is_non_fungible m.flags) m.token_schemas h.token_schemas)
                _))))))
