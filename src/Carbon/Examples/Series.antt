-- ===== src/Carbon/Examples/Series.antt =====
-- The arguments that carry schemas and dynamic values on concrete objects.
use phantasma_py.Text.Sorting.{sort_by, insert_by}
use phantasma_py.Carbon.RoundTrips.Series.{by_id_args-RoundTrips, series_args-RoundTrips}
use phantasma_py.Carbon.Values.SmallStrings.{IsSmallString}
use phantasma_py.Carbon.Schemas.RoundTrip.{IsStructSchema}
use phantasma_py.Text.{encode_utf8, encode_char}
use phantasma_py.Prelude.{arith, pos, replicate, ◌∷◌, [], refl, negsuc, ◌≡◌}
use phantasma_py.Carbon.MarketById.RoundTrip.{
  IsMarketBuyTokenByIdArgs, IsMarketCancelSaleByIdArgs, IsMarketGetTokenListingInfoByIdArgs,
  IsMarketSellTokenByIdArgs,
}
use phantasma_py.Carbon.MarketById.{
  MarketBuyTokenByIdArgs, MarketCancelSaleByIdArgs, MarketGetTokenListingInfoByIdArgs,
  MarketSellTokenByIdArgs, write_market_sell_token_by_id_args, read_market_sell_token_by_id_args,
  write_market_cancel_sale_by_id_args, read_market_cancel_sale_by_id_args,
  write_market_buy_token_by_id_args, read_market_buy_token_by_id_args,
  write_market_get_token_listing_info_by_id_args, read_market_get_token_listing_info_by_id_args,
}
use phantasma_py.Carbon.Codec.{RoundTrips}
use phantasma_py.Carbon.Dynamic.Shapes.{fields_length, IsPlainStruct}
use phantasma_py.Carbon.Dynamic.{
  VmDynamicStruct, VmDynamicVariable, sort, dynamic_struct, int8_value, more_fields, named_variable,
  no_fields, fields_list, fields_of_list,
}
use phantasma_py.Carbon.Series.RoundTrip.{
  IsCreateMintedTokenSeriesArgs, IsCreateTokenSeriesArgs, IsSeriesInfo, IsUpdateTokenMetadataArgs,
}
use phantasma_py.Carbon.Series.{
  CreateMintedTokenSeriesArgs, CreateTokenSeriesArgs, SeriesInfo, UpdateTokenMetadataArgs,
  write_series_info, read_series_info, write_create_token_series_args,
  read_create_token_series_args, write_create_minted_token_series_args,
  read_create_minted_token_series_args, write_update_token_metadata_args,
  read_update_token_metadata_args,
}
use phantasma_py.Carbon.Schemas.{
  VmStructSchema, has_struct, schemas_length, struct_schema, more_schemas, named_schema,
  variable_schema, int8, no_struct, no_schemas,
}
use phantasma_py.Carbon.Values.{SmallString, small_string}
use phantasma_py.Bytes.{Bytes}

abbrev owner : Bytes
owner = replicate 32 3

abbrev symbol : SmallString
symbol = record { value = 65 ∷ [] }

symbol-IsSmallString : IsSmallString symbol
unfolding small_string encode_utf8 encode_char
symbol-IsSmallString = refl

-- `a` is a small number
abbrev schema : VmStructSchema
schema =
    struct_schema (more_schemas (named_schema symbol (variable_schema int8 no_struct)) no_schemas) 0

schema-IsStructSchema : IsStructSchema schema
unfolding has_struct schemas_length
schema-IsStructSchema = (omega arith, ((symbol-IsSmallString, tt), tt), omega arith)

abbrev info : SeriesInfo
info = record {
  max_mint = pos 10;
  max_supply = pos 10;
  owner = owner;
  metadata = 1 ∷ [];
  rom = schema;
  ram = schema;
}

info-IsSeriesInfo : IsSeriesInfo info
info-IsSeriesInfo = record {
  max_mint = omega arith;
  max_supply = omega arith;
  owner = refl;
  metadata = omega arith;
  rom = schema-IsStructSchema;
  ram = schema-IsStructSchema;
}

abbrev creating : CreateTokenSeriesArgs
creating = record { token_id = pos 1; info = info }

creating-IsCreateTokenSeriesArgs : IsCreateTokenSeriesArgs creating
creating-IsCreateTokenSeriesArgs = record { token_id = omega arith; info = info-IsSeriesInfo }

abbrev creating_minted : CreateMintedTokenSeriesArgs
creating_minted = record {
  token_id = pos 1;
  info = info;
  address = owner;
  roms = (1 ∷ []) ∷ [];
  rams = [] ∷ [];
}

creating_minted-IsCreateMintedTokenSeriesArgs : IsCreateMintedTokenSeriesArgs creating_minted
creating_minted-IsCreateMintedTokenSeriesArgs = record {
  token_id = omega arith;
  info = info-IsSeriesInfo;
  address = refl;
  roms = (omega arith, (omega arith, tt));
  rams = (omega arith, (omega arith, tt));
}

abbrev metadata : VmDynamicStruct
metadata = dynamic_struct (more_fields (named_variable symbol (int8_value (negsuc 4))) no_fields)

metadata-sorted : sort metadata ≡ metadata
unfolding sort sort_by insert_by fields_list fields_of_list
metadata-sorted = refl

metadata-IsPlainStruct : IsPlainStruct metadata
unfolding fields_length
metadata-IsPlainStruct = (metadata-sorted, omega arith, (symbol-IsSmallString, omega arith, tt))

abbrev updating : UpdateTokenMetadataArgs
updating = record { token_id = pos 1; metadata = metadata }

updating-IsUpdateTokenMetadataArgs : IsUpdateTokenMetadataArgs updating
updating-IsUpdateTokenMetadataArgs = record {
  token_id = omega arith;
  metadata = metadata-IsPlainStruct;
}

series_args-RoundTrips_example :
    RoundTrips (write_series_info info) read_series_info info
    × RoundTrips (write_create_token_series_args creating) read_create_token_series_args creating
    × RoundTrips
        (write_create_minted_token_series_args creating_minted)
        read_create_minted_token_series_args
        creating_minted
    × RoundTrips
        (write_update_token_metadata_args updating)
        read_update_token_metadata_args
        updating
series_args-RoundTrips_example =
    series_args-RoundTrips info creating creating_minted updating info-IsSeriesInfo
      creating-IsCreateTokenSeriesArgs creating_minted-IsCreateMintedTokenSeriesArgs
      updating-IsUpdateTokenMetadataArgs

abbrev instance_id : VmDynamicVariable
instance_id = int8_value (pos 7)

abbrev selling : MarketSellTokenByIdArgs
selling = record {
  from_address = owner;
  symbol = symbol;
  instance_id = instance_id;
  quote_symbol = symbol;
  price = record { value = pos 100 };
  end_date = pos 5;
}

selling-IsMarketSellTokenByIdArgs : IsMarketSellTokenByIdArgs selling
selling-IsMarketSellTokenByIdArgs = record {
  from_address = refl;
  symbol = symbol-IsSmallString;
  instance_id = omega arith;
  quote_symbol = symbol-IsSmallString;
  price = omega arith;
  end_date = omega arith;
}

abbrev cancelling : MarketCancelSaleByIdArgs
cancelling = record { symbol = symbol; instance_id = instance_id }

cancelling-IsMarketCancelSaleByIdArgs : IsMarketCancelSaleByIdArgs cancelling
cancelling-IsMarketCancelSaleByIdArgs = record {
  symbol = symbol-IsSmallString;
  instance_id = omega arith;
}

abbrev buying : MarketBuyTokenByIdArgs
buying = record { from_address = owner; symbol = symbol; instance_id = instance_id }

buying-IsMarketBuyTokenByIdArgs : IsMarketBuyTokenByIdArgs buying
buying-IsMarketBuyTokenByIdArgs = record {
  from_address = refl;
  symbol = symbol-IsSmallString;
  instance_id = omega arith;
}

abbrev querying : MarketGetTokenListingInfoByIdArgs
querying = record { symbol = symbol; instance_id = instance_id }

querying-IsMarketGetTokenListingInfoByIdArgs : IsMarketGetTokenListingInfoByIdArgs querying
querying-IsMarketGetTokenListingInfoByIdArgs = record {
  symbol = symbol-IsSmallString;
  instance_id = omega arith;
}

by_id_args-RoundTrips_example :
    RoundTrips
      (write_market_sell_token_by_id_args selling)
      read_market_sell_token_by_id_args
      selling
    × RoundTrips
        (write_market_cancel_sale_by_id_args cancelling)
        read_market_cancel_sale_by_id_args
        cancelling
    × RoundTrips (write_market_buy_token_by_id_args buying) read_market_buy_token_by_id_args buying
    × RoundTrips
        (write_market_get_token_listing_info_by_id_args querying)
        read_market_get_token_listing_info_by_id_args
        querying
by_id_args-RoundTrips_example =
    by_id_args-RoundTrips selling cancelling buying querying selling-IsMarketSellTokenByIdArgs
      cancelling-IsMarketCancelSaleByIdArgs buying-IsMarketBuyTokenByIdArgs
      querying-IsMarketGetTokenListingInfoByIdArgs
