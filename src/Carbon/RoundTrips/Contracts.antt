-- ===== src/Carbon/RoundTrips/Contracts.antt =====
-- The arguments, results and configurations of the contracts that carbon.py calls.
use phantasma_py.Carbon.Codec.{RoundTrips, Encodes-RoundTrips}
use phantasma_py.Carbon.Config.RoundTrip.{
  IsChainConfig, IsTokensConfig, write_chain_config_lem, write_tokens_config_lem,
}
use phantasma_py.Carbon.Market.RoundTrip.{
  IsMarketSellTokenArgs, IsMarketCancelSaleArgs, IsMarketBuyTokenArgs, IsMarketConfig,
  write_market_sell_token_args_lem, write_market_cancel_sale_args_lem,
  write_market_buy_token_args_lem, write_market_config_lem,
}
use phantasma_py.Carbon.Args.RoundTrip.{
  IsMintFungibleArgs, IsMintNonFungibleArgs, IsTransferNonFungibleArgs, IsBurnNonFungibleArgs,
  IsMintPhantasmaNonFungibleArgs, IsTransferFungibleArgs, IsBurnFungibleArgs,
  IsPhantasmaNftMintResult, IsUpdateSeriesMetadataArgs, write_mint_fungible_args_lem,
  write_mint_non_fungible_args_lem, write_transfer_non_fungible_args_lem,
  write_burn_non_fungible_args_lem, write_mint_phantasma_non_fungible_args_lem,
  write_transfer_fungible_args_lem, write_burn_fungible_args_lem,
  write_phantasma_nft_mint_result_lem, write_update_series_metadata_args_lem,
}
use phantasma_py.Carbon.Config.{
  ChainConfig, TokensConfig, write_chain_config, read_chain_config, write_tokens_config,
  read_tokens_config,
}
use phantasma_py.Carbon.Market.{
  MarketSellTokenArgs, MarketCancelSaleArgs, MarketBuyTokenArgs, MarketConfig,
  write_market_sell_token_args, read_market_sell_token_args, write_market_cancel_sale_args,
  read_market_cancel_sale_args, write_market_buy_token_args, write_market_config,
  read_market_buy_token_args, read_market_config,
}
use phantasma_py.Carbon.Args.{
  MintFungibleArgs, MintNonFungibleArgs, TransferNonFungibleArgs, BurnNonFungibleArgs,
  MintPhantasmaNonFungibleArgs, TransferFungibleArgs, BurnFungibleArgs, PhantasmaNftMintResult,
  UpdateSeriesMetadataArgs, write_mint_fungible_args, write_mint_non_fungible_args,
  write_transfer_non_fungible_args, read_mint_fungible_args, read_mint_non_fungible_args,
  read_transfer_non_fungible_args, write_burn_non_fungible_args,
  write_mint_phantasma_non_fungible_args, write_transfer_fungible_args, read_burn_non_fungible_args,
  read_mint_phantasma_non_fungible_args, read_transfer_fungible_args, write_burn_fungible_args,
  write_phantasma_nft_mint_result, write_update_series_metadata_args, read_burn_fungible_args,
  read_phantasma_nft_mint_result, read_update_series_metadata_args,
}

-- The arguments of the three methods on fungible tokens, with fields in their ranges, are written,
-- read back, and are refused with any byte behind them.
pub fungible_args-RoundTrips :
    (mint : MintFungibleArgs) (transfer : TransferFungibleArgs) (burn : BurnFungibleArgs)
    → IsMintFungibleArgs mint
    → IsTransferFungibleArgs transfer
    → IsBurnFungibleArgs burn
    → RoundTrips (write_mint_fungible_args mint) read_mint_fungible_args mint
      × RoundTrips (write_transfer_fungible_args transfer) read_transfer_fungible_args transfer
      × RoundTrips (write_burn_fungible_args burn) read_burn_fungible_args burn
fungible_args-RoundTrips mint transfer burn h h' h'' = (
  Encodes-RoundTrips (write_mint_fungible_args_lem mint h),
  Encodes-RoundTrips (write_transfer_fungible_args_lem transfer h'),
  Encodes-RoundTrips (write_burn_fungible_args_lem burn h''),
)

-- The arguments of the methods that transfer and burn non-fungible tokens and change a series,
-- with fields in their ranges, are written, read back, and are refused with any byte behind them.
pub non_fungible_args-RoundTrips :
    (transfer : TransferNonFungibleArgs) (burn : BurnNonFungibleArgs)
    (update : UpdateSeriesMetadataArgs)
    → IsTransferNonFungibleArgs transfer
    → IsBurnNonFungibleArgs burn
    → IsUpdateSeriesMetadataArgs update
    → RoundTrips
        (write_transfer_non_fungible_args transfer)
        read_transfer_non_fungible_args
        transfer
      × RoundTrips (write_burn_non_fungible_args burn) read_burn_non_fungible_args burn
      × RoundTrips
          (write_update_series_metadata_args update)
          read_update_series_metadata_args
          update
non_fungible_args-RoundTrips transfer burn update h h' h'' = (
  Encodes-RoundTrips (write_transfer_non_fungible_args_lem transfer h),
  Encodes-RoundTrips (write_burn_non_fungible_args_lem burn h'),
  Encodes-RoundTrips (write_update_series_metadata_args_lem update h''),
)

-- The arguments of the two methods that mint non-fungible tokens, and the result of the second, are
-- written, read back, and are refused with any byte behind them, if their numbers fit the widths of
-- their fields, addresses and identifiers have 32 bytes, and byte strings and lists fewer than
-- 2 ^ 31 items.
pub mint_args-RoundTrips :
    (mint : MintNonFungibleArgs) (phantasma : MintPhantasmaNonFungibleArgs)
    (minted : PhantasmaNftMintResult)
    → IsMintNonFungibleArgs mint
    → IsMintPhantasmaNonFungibleArgs phantasma
    → IsPhantasmaNftMintResult minted
    → RoundTrips (write_mint_non_fungible_args mint) read_mint_non_fungible_args mint
      × RoundTrips
          (write_mint_phantasma_non_fungible_args phantasma)
          read_mint_phantasma_non_fungible_args
          phantasma
      × RoundTrips (write_phantasma_nft_mint_result minted) read_phantasma_nft_mint_result minted
mint_args-RoundTrips mint phantasma minted h h' h'' = (
  Encodes-RoundTrips (write_mint_non_fungible_args_lem mint h),
  Encodes-RoundTrips (write_mint_phantasma_non_fungible_args_lem phantasma h'),
  Encodes-RoundTrips (write_phantasma_nft_mint_result_lem minted h''),
)

-- The arguments of the market's sale, cancellation and purchase are written, read back, and are
-- refused with any byte behind them, if their numbers fit the widths of their fields, the price
-- fits 256 signed bits, and addresses have 32 bytes.
pub market_args-RoundTrips :
    (sell : MarketSellTokenArgs) (cancel : MarketCancelSaleArgs) (buy : MarketBuyTokenArgs)
    → IsMarketSellTokenArgs sell
    → IsMarketCancelSaleArgs cancel
    → IsMarketBuyTokenArgs buy
    → RoundTrips (write_market_sell_token_args sell) read_market_sell_token_args sell
      × RoundTrips (write_market_cancel_sale_args cancel) read_market_cancel_sale_args cancel
      × RoundTrips (write_market_buy_token_args buy) read_market_buy_token_args buy
market_args-RoundTrips sell cancel buy h h' h'' = (
  Encodes-RoundTrips (write_market_sell_token_args_lem sell h),
  Encodes-RoundTrips (write_market_cancel_sale_args_lem cancel h'),
  Encodes-RoundTrips (write_market_buy_token_args_lem buy h''),
)

-- The chain's, the tokens' and the market's configuration, with fields in their ranges, are
-- written, read back, and are refused with any byte behind them.
pub configs-RoundTrips :
    (chain : ChainConfig) (tokens : TokensConfig) (market : MarketConfig)
    → IsChainConfig chain
    → IsTokensConfig tokens
    → IsMarketConfig market
    → RoundTrips (write_chain_config chain) read_chain_config chain
      × RoundTrips (write_tokens_config tokens) read_tokens_config tokens
      × RoundTrips (write_market_config market) read_market_config market
configs-RoundTrips chain tokens market h h' h'' = (
  Encodes-RoundTrips (write_chain_config_lem chain h),
  Encodes-RoundTrips (write_tokens_config_lem tokens h'),
  Encodes-RoundTrips (write_market_config_lem market h''),
)
