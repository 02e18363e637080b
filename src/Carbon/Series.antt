-- ===== src/Carbon/Series.antt =====
-- `SeriesInfo` of carbon.py, and the arguments of the token contract's methods that create a series
-- and change the metadata of a token.
pub mod RoundTrip
use phantasma_py.Carbon.Dynamic.Reading.{read_dynamic_struct}
use phantasma_py.Carbon.Dynamic.Writing.{write_dynamic_struct}
use phantasma_py.Carbon.Schemas.{VmStructSchema, read_struct_schema, write_struct_schema}
use phantasma_py.Carbon.Dynamic.{VmDynamicStruct}
use phantasma_py.Bytes.{Bytes}
use phantasma_py.Carbon.Reader.{Read, read4u, read8u, read32, read_byte_array, read_byte_arrays}
use phantasma_py.Carbon.Writer.{
  Write, write4u, write8u, write32, write_byte_array, write_byte_arrays,
}
use phantasma_py.Prelude.{ℤ, ◌>>=◌, ◌>>◌, List, pure}

pub record SeriesInfo : Type 0 where
  pub max_mint : ℤ
  pub max_supply : ℤ
  pub owner : Bytes
  pub metadata : Bytes
  pub rom : VmStructSchema
  pub ram : VmStructSchema

unfoldable pub write_series_info : SeriesInfo → Write
write_series_info m = do
  write4u m.max_mint
  write4u m.max_supply
  write32 m.owner
  write_byte_array m.metadata
  write_struct_schema m.rom
  write_struct_schema m.ram

unfoldable pub read_series_info : Read SeriesInfo
read_series_info = do
  max_mint ← read4u
  max_supply ← read4u
  owner ← read32
  metadata ← read_byte_array
  rom ← read_struct_schema
  ram ← read_struct_schema
  pure (record {
    max_mint = max_mint;
    max_supply = max_supply;
    owner = owner;
    metadata = metadata;
    rom = rom;
    ram = ram;
  })

pub record CreateTokenSeriesArgs : Type 0 where
  pub token_id : ℤ
  pub info : SeriesInfo

unfoldable pub write_create_token_series_args : CreateTokenSeriesArgs → Write
write_create_token_series_args m = do write8u m.token_id; write_series_info m.info

unfoldable pub read_create_token_series_args : Read CreateTokenSeriesArgs
read_create_token_series_args = do
  token_id ← read8u
  info ← read_series_info
  pure (record { token_id = token_id; info = info })

pub record CreateMintedTokenSeriesArgs : Type 0 where
  pub token_id : ℤ
  pub info : SeriesInfo
  pub address : Bytes
  pub roms : List Bytes
  pub rams : List Bytes

unfoldable pub write_create_minted_token_series_args : CreateMintedTokenSeriesArgs → Write
write_create_minted_token_series_args m = do
  write8u m.token_id
  write_series_info m.info
  write32 m.address
  write_byte_arrays m.roms
  write_byte_arrays m.rams

unfoldable pub read_create_minted_token_series_args : Read CreateMintedTokenSeriesArgs
read_create_minted_token_series_args = do
  token_id ← read8u
  info ← read_series_info
  address ← read32
  roms ← read_byte_arrays
  rams ← read_byte_arrays
  pure (record { token_id = token_id; info = info; address = address; roms = roms; rams = rams })

pub record UpdateTokenMetadataArgs : Type 0 where
  pub token_id : ℤ
  pub metadata : VmDynamicStruct

unfoldable pub write_update_token_metadata_args : UpdateTokenMetadataArgs → Write
write_update_token_metadata_args m = do write8u m.token_id; write_dynamic_struct m.metadata

unfoldable pub read_update_token_metadata_args : Read UpdateTokenMetadataArgs
read_update_token_metadata_args = do
  token_id ← read8u
  metadata ← read_dynamic_struct
  pure (record { token_id = token_id; metadata = metadata })
