-- ===== src/Carbon/Market.antt =====
-- The market module of carbon.py: its configuration, and the arguments that name tokens by number.
pub mod RoundTrip
use phantasma_py.Prelude.{ℤ, ◌>>=◌, ◌>>◌, pure}
use phantasma_py.Bytes.{Bytes}
use phantasma_py.Carbon.Writer.{Write, write4u, write8, write8u, write32}
use phantasma_py.Carbon.Reader.{Read, read4u, read8, read8u, read32}
use phantasma_py.Carbon.Values.{IntX, write_int_x, read_int_x}

pub record MarketConfig : Type 0 where
  pub minimum_listing_time : ℤ
  pub maximum_listing_time : ℤ
  pub delisting_grace : ℤ
  pub flags : ℤ

unfoldable pub write_market_config : MarketConfig → Write
write_market_config m = do
  write8u m.minimum_listing_time
  write8u m.maximum_listing_time
  write8u m.delisting_grace
  write4u m.flags

unfoldable pub read_market_config : Read MarketConfig
read_market_config = do
  minimum_listing_time ← read8u
  maximum_listing_time ← read8u
  delisting_grace ← read8u
  flags ← read4u
  pure (record {
    minimum_listing_time = minimum_listing_time;
    maximum_listing_time = maximum_listing_time;
    delisting_grace = delisting_grace;
    flags = flags;
  })

pub record MarketSellTokenArgs : Type 0 where
  pub from_address : Bytes
  pub token_id : ℤ
  pub instance_id : ℤ
  pub quote_token_id : ℤ
  pub price : IntX
  pub end_date : ℤ

unfoldable pub write_market_sell_token_args : MarketSellTokenArgs → Write
write_market_sell_token_args m = do
  write32 m.from_address
  write8u m.token_id
  write8u m.instance_id
  write8u m.quote_token_id
  write_int_x m.price
  write8 m.end_date

unfoldable pub read_market_sell_token_args : Read MarketSellTokenArgs
read_market_sell_token_args = do
  from_address ← read32
  token_id ← read8u
  instance_id ← read8u
  quote_token_id ← read8u
  price ← read_int_x
  end_date ← read8
  pure (record {
    from_address = from_address;
    token_id = token_id;
    instance_id = instance_id;
    quote_token_id = quote_token_id;
    price = price;
    end_date = end_date;
  })

pub record MarketCancelSaleArgs : Type 0 where
  pub token_id : ℤ
  pub instance_id : ℤ

unfoldable pub write_market_cancel_sale_args : MarketCancelSaleArgs → Write
write_market_cancel_sale_args m = do write8u m.token_id; write8u m.instance_id

unfoldable pub read_market_cancel_sale_args : Read MarketCancelSaleArgs
read_market_cancel_sale_args = do
  token_id ← read8u
  instance_id ← read8u
  pure (record { token_id = token_id; instance_id = instance_id })

pub record MarketBuyTokenArgs : Type 0 where
  pub from_address : Bytes
  pub token_id : ℤ
  pub instance_id : ℤ

unfoldable pub write_market_buy_token_args : MarketBuyTokenArgs → Write
write_market_buy_token_args m = do write32 m.from_address; write8u m.token_id; write8u m.instance_id

unfoldable pub read_market_buy_token_args : Read MarketBuyTokenArgs
read_market_buy_token_args = do
  from_address ← read32
  token_id ← read8u
  instance_id ← read8u
  pure (record { from_address = from_address; token_id = token_id; instance_id = instance_id })

pub record MarketGetTokenListingCountArgs : Type 0 where
  pub token_id : ℤ

unfoldable pub write_market_get_token_listing_count_args : MarketGetTokenListingCountArgs → Write
write_market_get_token_listing_count_args m = write8u m.token_id

unfoldable pub read_market_get_token_listing_count_args : Read MarketGetTokenListingCountArgs
read_market_get_token_listing_count_args = do
  token_id ← read8u
  pure (record { token_id = token_id })

pub record MarketGetTokenListingInfoArgs : Type 0 where
  pub token_id : ℤ
  pub instance_id : ℤ

unfoldable pub write_market_get_token_listing_info_args : MarketGetTokenListingInfoArgs → Write
write_market_get_token_listing_info_args m = do write8u m.token_id; write8u m.instance_id

unfoldable pub read_market_get_token_listing_info_args : Read MarketGetTokenListingInfoArgs
read_market_get_token_listing_info_args = do
  token_id ← read8u
  instance_id ← read8u
  pure (record { token_id = token_id; instance_id = instance_id })
