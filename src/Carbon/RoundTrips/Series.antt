-- ===== src/Carbon/RoundTrips/Series.antt =====
-- The arguments that carry schemas and dynamic values of the token contract and the market.
use phantasma_py.Carbon.Codec.{RoundTrips, Encodes-RoundTrips}
use phantasma_py.Carbon.MarketById.RoundTrip.{
  IsMarketSellTokenByIdArgs, IsMarketCancelSaleByIdArgs, IsMarketBuyTokenByIdArgs,
  IsMarketGetTokenListingInfoByIdArgs, write_market_sell_token_by_id_args_lem,
  write_market_cancel_sale_by_id_args_lem, write_market_buy_token_by_id_args_lem,
  write_market_get_token_listing_info_by_id_args_lem,
}
use phantasma_py.Carbon.Series.RoundTrip.{
  IsSeriesInfo, IsCreateTokenSeriesArgs, IsCreateMintedTokenSeriesArgs, IsUpdateTokenMetadataArgs,
  write_series_info_lem, write_create_token_series_args_lem,
  write_create_minted_token_series_args_lem, write_update_token_metadata_args_lem,
}
use phantasma_py.Carbon.MarketById.{
  MarketSellTokenByIdArgs, MarketCancelSaleByIdArgs, MarketBuyTokenByIdArgs,
  MarketGetTokenListingInfoByIdArgs, write_market_sell_token_by_id_args,
  read_market_sell_token_by_id_args, write_market_cancel_sale_by_id_args,
  read_market_cancel_sale_by_id_args, write_market_buy_token_by_id_args,
  read_market_buy_token_by_id_args, write_market_get_token_listing_info_by_id_args,
  read_market_get_token_listing_info_by_id_args,
}
use phantasma_py.Carbon.Series.{
  SeriesInfo, CreateTokenSeriesArgs, CreateMintedTokenSeriesArgs, UpdateTokenMetadataArgs,
  write_series_info, read_series_info, write_create_token_series_args,
  read_create_token_series_args, write_create_minted_token_series_args,
  read_create_minted_token_series_args, write_update_token_metadata_args,
  read_update_token_metadata_args,
}

-- A series, and the arguments of the methods that create one, that create one with its first
-- tokens, and that change the metadata of a token, are written, read back, and are refused with any
-- byte behind them. The numbers, addresses, lengths and schemas fit; the metadata that changes has
-- fewer than 2 ^ 31 fields, sorted by name, whose names a small string admits and whose values read
-- back as dynamic variables do: their numbers, lengths and texts fit their types, their structs are
-- sorted by name and, where a schema comes with them, have the schema's fields in the schema's
-- order, no two of one name, and each struct of an array takes at least one byte.
pub series_args-RoundTrips :
    (info : SeriesInfo) (create : CreateTokenSeriesArgs) (minted : CreateMintedTokenSeriesArgs)
    (update : UpdateTokenMetadataArgs)
    → IsSeriesInfo info
    → IsCreateTokenSeriesArgs create
    → IsCreateMintedTokenSeriesArgs minted
    → IsUpdateTokenMetadataArgs update
    → RoundTrips (write_series_info info) read_series_info info
      × RoundTrips (write_create_token_series_args create) read_create_token_series_args create
      × RoundTrips
          (write_create_minted_token_series_args minted)
          read_create_minted_token_series_args
          minted
      × RoundTrips (write_update_token_metadata_args update) read_update_token_metadata_args update
series_args-RoundTrips info create minted update h h' h'' h''' = (
  Encodes-RoundTrips (write_series_info_lem info h),
  Encodes-RoundTrips (write_create_token_series_args_lem create h'),
  Encodes-RoundTrips (write_create_minted_token_series_args_lem minted h''),
  Encodes-RoundTrips (write_update_token_metadata_args_lem update h'''),
)

-- The arguments of the market's sale, cancellation, purchase and query of a token named by a symbol
-- and a dynamic value are written, read back, and are refused with any byte behind them. The
-- numbers, addresses and symbols fit, and the dynamic value is one that reads back: its numbers,
-- lengths and texts fit their types, its structs are sorted by name and, where a schema comes with
-- them, have the schema's fields in the schema's order, no two of one name, and each struct of an
-- array takes at least one byte.
pub by_id_args-RoundTrips :
    (sell : MarketSellTokenByIdArgs) (cancel : MarketCancelSaleByIdArgs)
    (buy : MarketBuyTokenByIdArgs) (query : MarketGetTokenListingInfoByIdArgs)
    → IsMarketSellTokenByIdArgs sell
    → IsMarketCancelSaleByIdArgs cancel
    → IsMarketBuyTokenByIdArgs buy
    → IsMarketGetTokenListingInfoByIdArgs query
    → RoundTrips (write_market_sell_token_by_id_args sell) read_market_sell_token_by_id_args sell
      × RoundTrips
          (write_market_cancel_sale_by_id_args cancel)
          read_market_cancel_sale_by_id_args
          cancel
      × RoundTrips (write_market_buy_token_by_id_args buy) read_market_buy_token_by_id_args buy
      × RoundTrips
          (write_market_get_token_listing_info_by_id_args query)
          read_market_get_token_listing_info_by_id_args
          query
by_id_args-RoundTrips sell cancel buy query h h' h'' h''' = (
  Encodes-RoundTrips (write_market_sell_token_by_id_args_lem sell h),
  Encodes-RoundTrips (write_market_cancel_sale_by_id_args_lem cancel h'),
  Encodes-RoundTrips (write_market_buy_token_by_id_args_lem buy h''),
  Encodes-RoundTrips (write_market_get_token_listing_info_by_id_args_lem query h'''),
)
