-- ===== src/Carbon/Market/RoundTrip.antt =====
-- What is written of the types of the parent reads back.
use phantasma_py.Prelude.{◌≡◌, length, IsUnsigned, IsSigned}
use phantasma_py.Carbon.Codec.{Encodes, Encodes-bind, Encodes-last}
use phantasma_py.Carbon.Codec.Numbers.{write4u_lem, write8_lem, write8u_lem, write32_lem}
use phantasma_py.Carbon.Values.IntXs.{write_int_x_lem}
use phantasma_py.Carbon.Market.{
  MarketConfig, write_market_config, read_market_config, MarketSellTokenArgs,
  write_market_sell_token_args, read_market_sell_token_args, MarketCancelSaleArgs,
  write_market_cancel_sale_args, read_market_cancel_sale_args, MarketBuyTokenArgs,
  write_market_buy_token_args, read_market_buy_token_args, MarketGetTokenListingCountArgs,
  write_market_get_token_listing_count_args, read_market_get_token_listing_count_args,
  MarketGetTokenListingInfoArgs, write_market_get_token_listing_info_args,
  read_market_get_token_listing_info_args,
}

-- The objects that fit their wire form
pub record IsMarketConfig (m : MarketConfig) : Type 0 where
  pub minimum_listing_time : IsUnsigned 64 m.minimum_listing_time
  pub maximum_listing_time : IsUnsigned 64 m.maximum_listing_time
  pub delisting_grace : IsUnsigned 64 m.delisting_grace
  pub flags : IsUnsigned 32 m.flags

pub write_market_config_lem :
    (m : MarketConfig) → IsMarketConfig m → Encodes 8 (write_market_config m) read_market_config m
unfolding write_market_config read_market_config
write_market_config_lem m h =
    Encodes-bind (write8u_lem m.minimum_listing_time h.minimum_listing_time) _ (
      Encodes-bind (write8u_lem m.maximum_listing_time h.maximum_listing_time) _ (
        Encodes-bind (write8u_lem m.delisting_grace h.delisting_grace) _
          (Encodes-last (write4u_lem m.flags h.flags) _)))

-- The objects that fit their wire form
pub record IsMarketSellTokenArgs (m : MarketSellTokenArgs) : Type 0 where
  pub from_address : length m.from_address ≡ 32
  pub token_id : IsUnsigned 64 m.token_id
  pub instance_id : IsUnsigned 64 m.instance_id
  pub quote_token_id : IsUnsigned 64 m.quote_token_id
  pub price : IsSigned 256 m.price.value
  pub end_date : IsSigned 64 m.end_date

pub write_market_sell_token_args_lem :
    (m : MarketSellTokenArgs)
    → IsMarketSellTokenArgs m
    → Encodes 32 (write_market_sell_token_args m) read_market_sell_token_args m
unfolding write_market_sell_token_args read_market_sell_token_args
write_market_sell_token_args_lem m h = Encodes-bind (write32_lem m.from_address h.from_address) _ (
    Encodes-bind (write8u_lem m.token_id h.token_id) _ (
      Encodes-bind (write8u_lem m.instance_id h.instance_id) _ (
        Encodes-bind (write8u_lem m.quote_token_id h.quote_token_id) _ (
          Encodes-bind (write_int_x_lem m.price h.price) _
            (Encodes-last (write8_lem m.end_date h.end_date) _)))))

-- The objects that fit their wire form
pub record IsMarketCancelSaleArgs (m : MarketCancelSaleArgs) : Type 0 where
  pub token_id : IsUnsigned 64 m.token_id
  pub instance_id : IsUnsigned 64 m.instance_id

pub write_market_cancel_sale_args_lem :
    (m : MarketCancelSaleArgs)
    → IsMarketCancelSaleArgs m
    → Encodes 8 (write_market_cancel_sale_args m) read_market_cancel_sale_args m
unfolding write_market_cancel_sale_args read_market_cancel_sale_args
write_market_cancel_sale_args_lem m h =
    Encodes-bind (write8u_lem m.token_id h.token_id) _
      (Encodes-last (write8u_lem m.instance_id h.instance_id) _)

-- The objects that fit their wire form
pub record IsMarketBuyTokenArgs (m : MarketBuyTokenArgs) : Type 0 where
  pub from_address : length m.from_address ≡ 32
  pub token_id : IsUnsigned 64 m.token_id
  pub instance_id : IsUnsigned 64 m.instance_id

pub write_market_buy_token_args_lem :
    (m : MarketBuyTokenArgs)
    → IsMarketBuyTokenArgs m
    → Encodes 32 (write_market_buy_token_args m) read_market_buy_token_args m
unfolding write_market_buy_token_args read_market_buy_token_args
write_market_buy_token_args_lem m h = Encodes-bind (write32_lem m.from_address h.from_address) _ (
    Encodes-bind (write8u_lem m.token_id h.token_id) _
      (Encodes-last (write8u_lem m.instance_id h.instance_id) _))

-- The objects that fit their wire form
pub record IsMarketGetTokenListingCountArgs (m : MarketGetTokenListingCountArgs) : Type 0 where
  pub token_id : IsUnsigned 64 m.token_id

pub write_market_get_token_listing_count_args_lem :
    (m : MarketGetTokenListingCountArgs)
    → IsMarketGetTokenListingCountArgs m
    → Encodes 8
        (write_market_get_token_listing_count_args m)
        read_market_get_token_listing_count_args
        m
unfolding write_market_get_token_listing_count_args read_market_get_token_listing_count_args
write_market_get_token_listing_count_args_lem m h =
    Encodes-last (write8u_lem m.token_id h.token_id) _

-- The objects that fit their wire form
pub record IsMarketGetTokenListingInfoArgs (m : MarketGetTokenListingInfoArgs) : Type 0 where
  pub token_id : IsUnsigned 64 m.token_id
  pub instance_id : IsUnsigned 64 m.instance_id

pub write_market_get_token_listing_info_args_lem :
    (m : MarketGetTokenListingInfoArgs)
    → IsMarketGetTokenListingInfoArgs m
    → Encodes 8
        (write_market_get_token_listing_info_args m)
        read_market_get_token_listing_info_args
        m
unfolding write_market_get_token_listing_info_args read_market_get_token_listing_info_args
write_market_get_token_listing_info_args_lem m h =
    Encodes-bind (write8u_lem m.token_id h.token_id) _
      (Encodes-last (write8u_lem m.instance_id h.instance_id) _)
