-- ===== src/Carbon/Series/RoundTrip.antt =====
-- What is written of the types of the parent reads back.
use phantasma_py.Carbon.Dynamic.RoundTrip.{plain_struct_lem}
use phantasma_py.Carbon.Codec.Arrays.{write_byte_array_lem, write_byte_arrays_lem}
use phantasma_py.Carbon.Schemas.RoundTrip.{IsStructSchema, write_struct_schema_lem}
use phantasma_py.Carbon.Codec.Numbers.{write4u_lem, write8u_lem, write32_lem}
use phantasma_py.Carbon.Dynamic.Reading.{read_dynamic_struct}
use phantasma_py.Carbon.Dynamic.Writing.{write_dynamic_struct}
use phantasma_py.Carbon.Dynamic.Shapes.{IsPlainStruct}
use phantasma_py.Carbon.Codec.{Encodes, Encodes-bind, Encodes-last}
use phantasma_py.Prelude.{IsUnsigned, length, ◌≡◌, ◌<◌, ◌^◌, All}
use phantasma_py.Carbon.Series.{
  CreateMintedTokenSeriesArgs, CreateTokenSeriesArgs, SeriesInfo, UpdateTokenMetadataArgs,
  write_create_minted_token_series_args, write_create_token_series_args, write_series_info,
  write_update_token_metadata_args, read_create_minted_token_series_args,
  read_create_token_series_args, read_series_info, read_update_token_metadata_args,
}

-- The objects that fit their wire form
pub record IsSeriesInfo (m : SeriesInfo) : Type 0 where
  pub max_mint : IsUnsigned 32 m.max_mint
  pub max_supply : IsUnsigned 32 m.max_supply
  pub owner : length m.owner ≡ 32
  pub metadata : length m.metadata < 2 ^ 31
  pub rom : IsStructSchema m.rom
  pub ram : IsStructSchema m.ram

pub write_series_info_lem :
    (m : SeriesInfo) → IsSeriesInfo m → Encodes 4 (write_series_info m) read_series_info m
unfolding write_series_info read_series_info
write_series_info_lem m h = Encodes-bind (write4u_lem m.max_mint h.max_mint) _ (
    Encodes-bind (write4u_lem m.max_supply h.max_supply) _ (
      Encodes-bind (write32_lem m.owner h.owner) _ (
        Encodes-bind (write_byte_array_lem m.metadata h.metadata) _ (
          Encodes-bind (write_struct_schema_lem m.rom h.rom) _
            (Encodes-last (write_struct_schema_lem m.ram h.ram) _)))))

-- The objects that fit their wire form
pub record IsCreateTokenSeriesArgs (m : CreateTokenSeriesArgs) : Type 0 where
  pub token_id : IsUnsigned 64 m.token_id
  pub info : IsSeriesInfo m.info

pub write_create_token_series_args_lem :
    (m : CreateTokenSeriesArgs)
    → IsCreateTokenSeriesArgs m
    → Encodes 8 (write_create_token_series_args m) read_create_token_series_args m
unfolding write_create_token_series_args read_create_token_series_args
write_create_token_series_args_lem m h =
    Encodes-bind (write8u_lem m.token_id h.token_id) _
      (Encodes-last (write_series_info_lem m.info h.info) _)

-- The objects that fit their wire form
pub record IsCreateMintedTokenSeriesArgs (m : CreateMintedTokenSeriesArgs) : Type 0 where
  pub token_id : IsUnsigned 64 m.token_id
  pub info : IsSeriesInfo m.info
  pub address : length m.address ≡ 32
  pub roms : (length m.roms < 2 ^ 31) × All (λ raw. length raw < 2 ^ 31) m.roms
  pub rams : (length m.rams < 2 ^ 31) × All (λ raw. length raw < 2 ^ 31) m.rams

pub write_create_minted_token_series_args_lem :
    (m : CreateMintedTokenSeriesArgs)
    → IsCreateMintedTokenSeriesArgs m
    → Encodes 8 (write_create_minted_token_series_args m) read_create_minted_token_series_args m
unfolding write_create_minted_token_series_args read_create_minted_token_series_args
write_create_minted_token_series_args_lem m h = Encodes-bind (write8u_lem m.token_id h.token_id) _ (
    Encodes-bind (write_series_info_lem m.info h.info) _ (
      Encodes-bind (write32_lem m.address h.address) _ (
        Encodes-bind (write_byte_arrays_lem m.roms (h.roms.0) (h.roms.1)) _
          (Encodes-last (write_byte_arrays_lem m.rams (h.rams.0) (h.rams.1)) _))))

-- The objects that fit their wire form
pub record IsUpdateTokenMetadataArgs (m : UpdateTokenMetadataArgs) : Type 0 where
  pub token_id : IsUnsigned 64 m.token_id
  pub metadata : IsPlainStruct m.metadata

pub write_update_token_metadata_args_lem :
    (m : UpdateTokenMetadataArgs)
    → IsUpdateTokenMetadataArgs m
    → Encodes 8 (write_update_token_metadata_args m) read_update_token_metadata_args m
unfolding write_update_token_metadata_args read_update_token_metadata_args write_dynamic_struct
    read_dynamic_struct
write_update_token_metadata_args_lem m h =
    Encodes-bind (write8u_lem m.token_id h.token_id) _
      (Encodes-last (plain_struct_lem m.metadata h.metadata) _)
