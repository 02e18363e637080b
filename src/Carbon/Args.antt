-- ===== src/Carbon/Args.antt =====
-- The arguments of the token contract of carbon.py.
pub mod RoundTrip
use phantasma_py.Prelude.{ℤ, List, ◌>>=◌, ◌>>◌, pure, false}
use phantasma_py.Bytes.{Bytes}
use phantasma_py.Carbon.Writer.{
  Write, write4u, write8u, write32, write_byte_array, write_int_array, write_carbon_array,
}
use phantasma_py.Carbon.Reader.{
  Read, read4u, read8u, read32, read_byte_array, read_int_array, read_carbon_array,
}
use phantasma_py.Carbon.Values.{IntX, write_int_x, read_int_x}

pub record NftMintInfo : Type 0 where
  pub series_id : ℤ
  pub rom : Bytes
  pub ram : Bytes

unfoldable pub write_nft_mint_info : NftMintInfo → Write
write_nft_mint_info m = do write4u m.series_id; write_byte_array m.rom; write_byte_array m.ram

unfoldable pub read_nft_mint_info : Read NftMintInfo
read_nft_mint_info = do
  series_id ← read4u
  rom ← read_byte_array
  ram ← read_byte_array
  pure (record { series_id = series_id; rom = rom; ram = ram })

pub record MintNonFungibleArgs : Type 0 where
  pub token_id : ℤ
  pub address : Bytes
  pub tokens : List NftMintInfo

unfoldable pub write_mint_non_fungible_args : MintNonFungibleArgs → Write
write_mint_non_fungible_args m = do
  write8u m.token_id
  write32 m.address
  write_carbon_array write_nft_mint_info m.tokens

unfoldable pub read_mint_non_fungible_args : Read MintNonFungibleArgs
read_mint_non_fungible_args = do
  token_id ← read8u
  address ← read32
  tokens ← read_carbon_array read_nft_mint_info
  pure (record { token_id = token_id; address = address; tokens = tokens })

pub record PhantasmaNftMintInfo : Type 0 where
  pub phantasma_series_id : IntX
  pub rom : Bytes
  pub ram : Bytes

unfoldable pub write_phantasma_nft_mint_info : PhantasmaNftMintInfo → Write
write_phantasma_nft_mint_info m = do
  write_int_x m.phantasma_series_id
  write_byte_array m.rom
  write_byte_array m.ram

unfoldable pub read_phantasma_nft_mint_info : Read PhantasmaNftMintInfo
read_phantasma_nft_mint_info = do
  phantasma_series_id ← read_int_x
  rom ← read_byte_array
  ram ← read_byte_array
  pure (record { phantasma_series_id = phantasma_series_id; rom = rom; ram = ram })

pub record MintPhantasmaNonFungibleArgs : Type 0 where
  pub token_id : ℤ
  pub address : Bytes
  pub tokens : List PhantasmaNftMintInfo

unfoldable pub write_mint_phantasma_non_fungible_args : MintPhantasmaNonFungibleArgs → Write
write_mint_phantasma_non_fungible_args m = do
  write8u m.token_id
  write32 m.address
  write_carbon_array write_phantasma_nft_mint_info m.tokens

unfoldable pub read_mint_phantasma_non_fungible_args : Read MintPhantasmaNonFungibleArgs
read_mint_phantasma_non_fungible_args = do
  token_id ← read8u
  address ← read32
  tokens ← read_carbon_array read_phantasma_nft_mint_info
  pure (record { token_id = token_id; address = address; tokens = tokens })

pub record PhantasmaNftMintResult : Type 0 where
  pub phantasma_nft_id : Bytes
  pub carbon_instance_id : ℤ

unfoldable pub write_phantasma_nft_mint_result : PhantasmaNftMintResult → Write
write_phantasma_nft_mint_result m = do write32 m.phantasma_nft_id; write8u m.carbon_instance_id

unfoldable pub read_phantasma_nft_mint_result : Read PhantasmaNftMintResult
read_phantasma_nft_mint_result = do
  phantasma_nft_id ← read32
  carbon_instance_id ← read8u
  pure (record { phantasma_nft_id = phantasma_nft_id; carbon_instance_id = carbon_instance_id })

pub record MintFungibleArgs : Type 0 where
  pub token_id : ℤ
  pub to : Bytes
  pub amount : IntX

unfoldable pub write_mint_fungible_args : MintFungibleArgs → Write
write_mint_fungible_args m = do write8u m.token_id; write32 m.to; write_int_x m.amount

unfoldable pub read_mint_fungible_args : Read MintFungibleArgs
read_mint_fungible_args = do
  token_id ← read8u
  to ← read32
  amount ← read_int_x
  pure (record { token_id = token_id; to = to; amount = amount })

pub record TransferFungibleArgs : Type 0 where
  pub to : Bytes
  pub from_address : Bytes
  pub token_id : ℤ
  pub amount : IntX

unfoldable pub write_transfer_fungible_args : TransferFungibleArgs → Write
write_transfer_fungible_args m = do
  write32 m.to
  write32 m.from_address
  write8u m.token_id
  write_int_x m.amount

unfoldable pub read_transfer_fungible_args : Read TransferFungibleArgs
read_transfer_fungible_args = do
  to ← read32
  from_address ← read32
  token_id ← read8u
  amount ← read_int_x
  pure (record { to = to; from_address = from_address; token_id = token_id; amount = amount })

pub record TransferNonFungibleArgs : Type 0 where
  pub to : Bytes
  pub from_address : Bytes
  pub token_id : ℤ
  pub instance_ids : List ℤ

unfoldable pub write_transfer_non_fungible_args : TransferNonFungibleArgs → Write
write_transfer_non_fungible_args m = do
  write32 m.to
  write32 m.from_address
  write8u m.token_id
  write_int_array m.instance_ids 8 false

unfoldable pub read_transfer_non_fungible_args : Read TransferNonFungibleArgs
read_transfer_non_fungible_args = do
  to ← read32
  from_address ← read32
  token_id ← read8u
  instance_ids ← read_int_array 8 false
  pure (record {
    to = to;
    from_address = from_address;
    token_id = token_id;
    instance_ids = instance_ids;
  })

pub record BurnFungibleArgs : Type 0 where
  pub token_id : ℤ
  pub from_address : Bytes
  pub amount : IntX

unfoldable pub write_burn_fungible_args : BurnFungibleArgs → Write
write_burn_fungible_args m = do write8u m.token_id; write32 m.from_address; write_int_x m.amount

unfoldable pub read_burn_fungible_args : Read BurnFungibleArgs
read_burn_fungible_args = do
  token_id ← read8u
  from_address ← read32
  amount ← read_int_x
  pure (record { token_id = token_id; from_address = from_address; amount = amount })

pub record BurnNonFungibleArgs : Type 0 where
  pub token_id : ℤ
  pub from_address : Bytes
  pub instance_ids : List ℤ

unfoldable pub write_burn_non_fungible_args : BurnNonFungibleArgs → Write
write_burn_non_fungible_args m = do
  write8u m.token_id
  write32 m.from_address
  write_int_array m.instance_ids 8 false

unfoldable pub read_burn_non_fungible_args : Read BurnNonFungibleArgs
read_burn_non_fungible_args = do
  token_id ← read8u
  from_address ← read32
  instance_ids ← read_int_array 8 false
  pure (record { token_id = token_id; from_address = from_address; instance_ids = instance_ids })

pub record UpdateSeriesMetadataArgs : Type 0 where
  pub token_id : ℤ
  pub series_id : ℤ
  pub metadata : Bytes

unfoldable pub write_update_series_metadata_args : UpdateSeriesMetadataArgs → Write
write_update_series_metadata_args m = do
  write8u m.token_id
  write4u m.series_id
  write_byte_array m.metadata

unfoldable pub read_update_series_metadata_args : Read UpdateSeriesMetadataArgs
read_update_series_metadata_args = do
  token_id ← read8u
  series_id ← read4u
  metadata ← read_byte_array
  pure (record { token_id = token_id; series_id = series_id; metadata = metadata })
