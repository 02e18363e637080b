-- ===== src/Carbon/MarketById/RoundTrip.antt =====
-- What is written of the types of the parent reads back.
use phantasma_py.Carbon.Schemas.{no_struct}
use phantasma_py.Carbon.Values.IntXs.{write_int_x_lem}
use phantasma_py.Carbon.Dynamic.RoundTrip.{write_dynamic_variable_lem}
use phantasma_py.Carbon.Codec.Numbers.{write32_lem, write8_lem}
use phantasma_py.Carbon.Codec.{Encodes, Encodes-bind, Encodes-last}
use phantasma_py.Carbon.Dynamic.Reading.{read_dynamic_variable}
use phantasma_py.Carbon.Dynamic.Shapes.{IsData}
use phantasma_py.Carbon.Dynamic.Writing.{write_dynamic_variable}
use phantasma_py.Carbon.Values.SmallStrings.{IsSmallString, write_small_string_lem}
use phantasma_py.Prelude.{length, ◌≡◌, IsSigned}
use phantasma_py.Carbon.MarketById.{
  MarketBuyTokenByIdArgs, MarketCancelSaleByIdArgs, MarketGetTokenListingInfoByIdArgs,
  MarketSellTokenByIdArgs, write_market_buy_token_by_id_args, write_market_cancel_sale_by_id_args,
  write_market_get_token_listing_info_by_id_args, write_market_sell_token_by_id_args,
  read_market_buy_token_by_id_args, read_market_cancel_sale_by_id_args,
  read_market_get_token_listing_info_by_id_args, read_market_sell_token_by_id_args,
}

-- The objects that fit their wire form
pub record IsMarketSellTokenByIdArgs (m : MarketSellTokenByIdArgs) : Type 0 where
  pub from_address : length m.from_address ≡ 32
  pub symbol : IsSmallString m.symbol
  pub instance_id : IsData m.instance_id no_struct
  pub quote_symbol : IsSmallString m.quote_symbol
  pub price : IsSigned 256 m.price.value
  pub end_date : IsSigned 64 m.end_date

pub write_market_sell_token_by_id_args_lem :
    (m : MarketSellTokenByIdArgs)
    → IsMarketSellTokenByIdArgs m
    → Encodes 32 (write_market_sell_token_by_id_args m) read_market_sell_token_by_id_args m
unfolding write_market_sell_token_by_id_args read_market_sell_token_by_id_args
    write_dynamic_variable read_dynamic_variable
write_market_sell_token_by_id_args_lem m h =
    Encodes-bind (write32_lem m.from_address h.from_address) _ (
      Encodes-bind (write_small_string_lem m.symbol h.symbol) _ (
        Encodes-bind (write_dynamic_variable_lem m.instance_id h.instance_id) _ (
          Encodes-bind (write_small_string_lem m.quote_symbol h.quote_symbol) _ (
            Encodes-bind (write_int_x_lem m.price h.price) _
              (Encodes-last (write8_lem m.end_date h.end_date) _)))))

-- The objects that fit their wire form
pub record IsMarketCancelSaleByIdArgs (m : MarketCancelSaleByIdArgs) : Type 0 where
  pub symbol : IsSmallString m.symbol
  pub instance_id : IsData m.instance_id no_struct

pub write_market_cancel_sale_by_id_args_lem :
    (m : MarketCancelSaleByIdArgs)
    → IsMarketCancelSaleByIdArgs m
    → Encodes 1 (write_market_cancel_sale_by_id_args m) read_market_cancel_sale_by_id_args m
unfolding write_market_cancel_sale_by_id_args read_market_cancel_sale_by_id_args
    write_dynamic_variable read_dynamic_variable
write_market_cancel_sale_by_id_args_lem m h =
    Encodes-bind (write_small_string_lem m.symbol h.symbol) _
      (Encodes-last (write_dynamic_variable_lem m.instance_id h.instance_id) _)

-- The objects that fit their wire form
pub record IsMarketBuyTokenByIdArgs (m : MarketBuyTokenByIdArgs) : Type 0 where
  pub from_address : length m.from_address ≡ 32
  pub symbol : IsSmallString m.symbol
  pub instance_id : IsData m.instance_id no_struct

pub write_market_buy_token_by_id_args_lem :
    (m : MarketBuyTokenByIdArgs)
    → IsMarketBuyTokenByIdArgs m
    → Encodes 32 (write_market_buy_token_by_id_args m) read_market_buy_token_by_id_args m
unfolding write_market_buy_token_by_id_args read_market_buy_token_by_id_args write_dynamic_variable
    read_dynamic_variable
write_market_buy_token_by_id_args_lem m h =
    Encodes-bind (write32_lem m.from_address h.from_address) _ (
      Encodes-bind (write_small_string_lem m.symbol h.symbol) _
        (Encodes-last (write_dynamic_variable_lem m.instance_id h.instance_id) _))

-- The objects that fit their wire form
pub record IsMarketGetTokenListingInfoByIdArgs (m : MarketGetTokenListingInfoByIdArgs)
    : Type 0 where
  pub symbol : IsSmallString m.symbol
  pub instance_id : IsData m.instance_id no_struct

pub write_market_get_token_listing_info_by_id_args_lem :
    (m : MarketGetTokenListingInfoByIdArgs)
    → IsMarketGetTokenListingInfoByIdArgs m
    → Encodes 1
        (write_market_get_token_listing_info_by_id_args m)
        read_market_get_token_listing_info_by_id_args
        m
unfolding write_market_get_token_listing_info_by_id_args
    read_market_get_token_listing_info_by_id_args write_dynamic_variable read_dynamic_variable
write_market_get_token_listing_info_by_id_args_lem m h =
    Encodes-bind (write_small_string_lem m.symbol h.symbol) _
      (Encodes-last (write_dynamic_variable_lem m.instance_id h.instance_id) _)
