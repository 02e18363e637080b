-- ===== src/Carbon/Args/RoundTrip.antt =====
-- What is written of the types of the parent reads back.
use phantasma_py.Prelude.{◌^◌, ◌<◌, ◌≡◌, length, All, IsUnsigned, IsSigned}
use phantasma_py.Carbon.Codec.{Encodes, Encodes-bind, Encodes-last}
use phantasma_py.Carbon.Codec.Numbers.{write4u_lem, write8u_lem, write32_lem}
use phantasma_py.Carbon.Codec.Arrays.{
  write_byte_array_lem, write_int_array_u64, write_carbon_array_lem,
}
use phantasma_py.Carbon.Values.IntXs.{write_int_x_lem}
use phantasma_py.Carbon.Args.{
  NftMintInfo, write_nft_mint_info, read_nft_mint_info, MintNonFungibleArgs,
  write_mint_non_fungible_args, read_mint_non_fungible_args, PhantasmaNftMintInfo,
  write_phantasma_nft_mint_info, read_phantasma_nft_mint_info, MintPhantasmaNonFungibleArgs,
  write_mint_phantasma_non_fungible_args, read_mint_phantasma_non_fungible_args,
  PhantasmaNftMintResult, write_phantasma_nft_mint_result, read_phantasma_nft_mint_result,
  MintFungibleArgs, write_mint_fungible_args, read_mint_fungible_args, TransferFungibleArgs,
  write_transfer_fungible_args, read_transfer_fungible_args, TransferNonFungibleArgs,
  write_transfer_non_fungible_args, read_transfer_non_fungible_args, BurnFungibleArgs,
  write_burn_fungible_args, read_burn_fungible_args, BurnNonFungibleArgs,
  write_burn_non_fungible_args, read_burn_non_fungible_args, UpdateSeriesMetadataArgs,
  write_update_series_metadata_args, read_update_series_metadata_args,
}

-- The objects that fit their wire form
pub record IsNftMintInfo (m : NftMintInfo) : Type 0 where
  pub series_id : IsUnsigned 32 m.series_id
  pub rom : length m.rom < 2 ^ 31
  pub ram : length m.ram < 2 ^ 31

pub write_nft_mint_info_lem :
    (m : NftMintInfo) → IsNftMintInfo m → Encodes 4 (write_nft_mint_info m) read_nft_mint_info m
unfolding write_nft_mint_info read_nft_mint_info
write_nft_mint_info_lem m h = Encodes-bind (write4u_lem m.series_id h.series_id) _ (
    Encodes-bind (write_byte_array_lem m.rom h.rom) _
      (Encodes-last (write_byte_array_lem m.ram h.ram) _))

-- The objects that fit their wire form
pub record IsMintNonFungibleArgs (m : MintNonFungibleArgs) : Type 0 where
  pub token_id : IsUnsigned 64 m.token_id
  pub address : length m.address ≡ 32
  pub tokens : (length m.tokens < 2 ^ 31) × All IsNftMintInfo m.tokens

pub write_mint_non_fungible_args_lem :
    (m : MintNonFungibleArgs)
    → IsMintNonFungibleArgs m
    → Encodes 8 (write_mint_non_fungible_args m) read_mint_non_fungible_args m
unfolding write_mint_non_fungible_args read_mint_non_fungible_args
write_mint_non_fungible_args_lem m h = Encodes-bind (write8u_lem m.token_id h.token_id) _ (
    Encodes-bind (write32_lem m.address h.address) _ (
      Encodes-last
        (write_carbon_array_lem write_nft_mint_info_lem m.tokens (h.tokens.0) (h.tokens.1)) _))

-- The objects that fit their wire form
pub record IsPhantasmaNftMintInfo (m : PhantasmaNftMintInfo) : Type 0 where
  pub phantasma_series_id : IsSigned 256 m.phantasma_series_id.value
  pub rom : length m.rom < 2 ^ 31
  pub ram : length m.ram < 2 ^ 31

pub write_phantasma_nft_mint_info_lem :
    (m : PhantasmaNftMintInfo)
    → IsPhantasmaNftMintInfo m
    → Encodes 1 (write_phantasma_nft_mint_info m) read_phantasma_nft_mint_info m
unfolding write_phantasma_nft_mint_info read_phantasma_nft_mint_info
write_phantasma_nft_mint_info_lem m h =
    Encodes-bind (write_int_x_lem m.phantasma_series_id h.phantasma_series_id) _ (
      Encodes-bind (write_byte_array_lem m.rom h.rom) _
        (Encodes-last (write_byte_array_lem m.ram h.ram) _))

-- The objects that fit their wire form
pub record IsMintPhantasmaNonFungibleArgs (m : MintPhantasmaNonFungibleArgs) : Type 0 where
  pub token_id : IsUnsigned 64 m.token_id
  pub address : length m.address ≡ 32
  pub tokens : (length m.tokens < 2 ^ 31) × All IsPhantasmaNftMintInfo m.tokens

pub write_mint_phantasma_non_fungible_args_lem :
    (m : MintPhantasmaNonFungibleArgs)
    → IsMintPhantasmaNonFungibleArgs m
    → Encodes 8 (write_mint_phantasma_non_fungible_args m) read_mint_phantasma_non_fungible_args m
unfolding write_mint_phantasma_non_fungible_args read_mint_phantasma_non_fungible_args
write_mint_phantasma_non_fungible_args_lem m h =
    Encodes-bind (write8u_lem m.token_id h.token_id) _ (
      Encodes-bind (write32_lem m.address h.address) _ (
        Encodes-last
          (write_carbon_array_lem write_phantasma_nft_mint_info_lem m.tokens (h.tokens.0)
            (h.tokens.1))
          _))

-- The objects that fit their wire form
pub record IsPhantasmaNftMintResult (m : PhantasmaNftMintResult) : Type 0 where
  pub phantasma_nft_id : length m.phantasma_nft_id ≡ 32
  pub carbon_instance_id : IsUnsigned 64 m.carbon_instance_id

pub write_phantasma_nft_mint_result_lem :
    (m : PhantasmaNftMintResult)
    → IsPhantasmaNftMintResult m
    → Encodes 32 (write_phantasma_nft_mint_result m) read_phantasma_nft_mint_result m
unfolding write_phantasma_nft_mint_result read_phantasma_nft_mint_result
write_phantasma_nft_mint_result_lem m h =
    Encodes-bind (write32_lem m.phantasma_nft_id h.phantasma_nft_id) _
      (Encodes-last (write8u_lem m.carbon_instance_id h.carbon_instance_id) _)

-- The objects that fit their wire form
pub record IsMintFungibleArgs (m : MintFungibleArgs) : Type 0 where
  pub token_id : IsUnsigned 64 m.token_id
  pub to : length m.to ≡ 32
  pub amount : IsSigned 256 m.amount.value

pub write_mint_fungible_args_lem :
    (m : MintFungibleArgs)
    → IsMintFungibleArgs m
    → Encodes 8 (write_mint_fungible_args m) read_mint_fungible_args m
unfolding write_mint_fungible_args read_mint_fungible_args
write_mint_fungible_args_lem m h =
    Encodes-bind (write8u_lem m.token_id h.token_id) _
      (Encodes-bind (write32_lem m.to h.to) _ (Encodes-last (write_int_x_lem m.amount h.amount) _))

-- The objects that fit their wire form
pub record IsTransferFungibleArgs (m : TransferFungibleArgs) : Type 0 where
  pub to : length m.to ≡ 32
  pub from_address : length m.from_address ≡ 32
  pub token_id : IsUnsigned 64 m.token_id
  pub amount : IsSigned 256 m.amount.value

pub write_transfer_fungible_args_lem :
    (m : TransferFungibleArgs)
    → IsTransferFungibleArgs m
    → Encodes 32 (write_transfer_fungible_args m) read_transfer_fungible_args m
unfolding write_transfer_fungible_args read_transfer_fungible_args
write_transfer_fungible_args_lem m h = Encodes-bind (write32_lem m.to h.to) _ (
    Encodes-bind (write32_lem m.from_address h.from_address) _ (
      Encodes-bind (write8u_lem m.token_id h.token_id) _
        (Encodes-last (write_int_x_lem m.amount h.amount) _)))

-- The objects that fit their wire form
pub record IsTransferNonFungibleArgs (m : TransferNonFungibleArgs) : Type 0 where
  pub to : length m.to ≡ 32
  pub from_address : length m.from_address ≡ 32
  pub token_id : IsUnsigned 64 m.token_id
  pub instance_ids : (length m.instance_ids < 2 ^ 31) × All (IsUnsigned 64) m.instance_ids

pub write_transfer_non_fungible_args_lem :
    (m : TransferNonFungibleArgs)
    → IsTransferNonFungibleArgs m
    → Encodes 32 (write_transfer_non_fungible_args m) read_transfer_non_fungible_args m
unfolding write_transfer_non_fungible_args read_transfer_non_fungible_args
write_transfer_non_fungible_args_lem m h = Encodes-bind (write32_lem m.to h.to) _ (
    Encodes-bind (write32_lem m.from_address h.from_address) _ (
      Encodes-bind (write8u_lem m.token_id h.token_id) _ (
        Encodes-last (write_int_array_u64 m.instance_ids (h.instance_ids.0) (h.instance_ids.1)) _)))

-- The objects that fit their wire form
pub record IsBurnFungibleArgs (m : BurnFungibleArgs) : Type 0 where
  pub token_id : IsUnsigned 64 m.token_id
  pub from_address : length m.from_address ≡ 32
  pub amount : IsSigned 256 m.amount.value

pub write_burn_fungible_args_lem :
    (m : BurnFungibleArgs)
    → IsBurnFungibleArgs m
    → Encodes 8 (write_burn_fungible_args m) read_burn_fungible_args m
unfolding write_burn_fungible_args read_burn_fungible_args
write_burn_fungible_args_lem m h = Encodes-bind (write8u_lem m.token_id h.token_id) _ (
    Encodes-bind (write32_lem m.from_address h.from_address) _
      (Encodes-last (write_int_x_lem m.amount h.amount) _))

-- The objects that fit their wire form
pub record IsBurnNonFungibleArgs (m : BurnNonFungibleArgs) : Type 0 where
  pub token_id : IsUnsigned 64 m.token_id
  pub from_address : length m.from_address ≡ 32
  pub instance_ids : (length m.instance_ids < 2 ^ 31) × All (IsUnsigned 64) m.instance_ids

pub write_burn_non_fungible_args_lem :
    (m : BurnNonFungibleArgs)
    → IsBurnNonFungibleArgs m
    → Encodes 8 (write_burn_non_fungible_args m) read_burn_non_fungible_args m
unfolding write_burn_non_fungible_args read_burn_non_fungible_args
write_burn_non_fungible_args_lem m h = Encodes-bind (write8u_lem m.token_id h.token_id) _ (
    Encodes-bind (write32_lem m.from_address h.from_address) _
      (Encodes-last (write_int_array_u64 m.instance_ids (h.instance_ids.0) (h.instance_ids.1)) _))

-- The objects that fit their wire form
pub record IsUpdateSeriesMetadataArgs (m : UpdateSeriesMetadataArgs) : Type 0 where
  pub token_id : IsUnsigned 64 m.token_id
  pub series_id : IsUnsigned 32 m.series_id
  pub metadata : length m.metadata < 2 ^ 31

pub write_update_series_metadata_args_lem :
    (m : UpdateSeriesMetadataArgs)
    → IsUpdateSeriesMetadataArgs m
    → Encodes 8 (write_update_series_metadata_args m) read_update_series_metadata_args m
unfolding write_update_series_metadata_args read_update_series_metadata_args
write_update_series_metadata_args_lem m h = Encodes-bind (write8u_lem m.token_id h.token_id) _ (
    Encodes-bind (write4u_lem m.series_id h.series_id) _
      (Encodes-last (write_byte_array_lem m.metadata h.metadata) _))
