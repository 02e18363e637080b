-- ===== src/Carbon/MarketById.antt =====
-- The arguments of the market's methods of carbon.py that name a token by its symbol and a dynamic
-- value.
pub mod RoundTrip
use phantasma_py.Carbon.Dynamic.Reading.{read_dynamic_variable}
use phantasma_py.Carbon.Dynamic.Writing.{write_dynamic_variable}
use phantasma_py.Prelude.{◌>>=◌, ◌>>◌, ℤ, pure}
use phantasma_py.Carbon.Dynamic.{VmDynamicVariable}
use phantasma_py.Carbon.Values.{
  SmallString, IntX, read_small_string, write_small_string, read_int_x, write_int_x,
}
use phantasma_py.Carbon.Reader.{Read, read32, read8}
use phantasma_py.Carbon.Writer.{Write, write32, write8}
use phantasma_py.Bytes.{Bytes}

pub record MarketSellTokenByIdArgs : Type 0 where
  pub from_address : Bytes
  pub symbol : SmallString
  pub instance_id : VmDynamicVariable
  pub quote_symbol : SmallString
  pub price : IntX
  pub end_date : ℤ

unfoldable pub write_market_sell_token_by_id_args : MarketSellTokenByIdArgs → Write
write_market_sell_token_by_id_args m = do
  write32 m.from_address
  write_small_string m.symbol
  write_dynamic_variable m.instance_id
  write_small_string m.quote_symbol
  write_int_x m.price
  write8 m.end_date

unfoldable pub read_market_sell_token_by_id_args : Read MarketSellTokenByIdArgs
read_market_sell_token_by_id_args = do
  from_address ← read32
  symbol ← read_small_string
  instance_id ← read_dynamic_variable
  quote_symbol ← read_small_string
  price ← read_int_x
  end_date ← read8
  pure (record {
    from_address = from_address;
    symbol = symbol;
    instance_id = instance_id;
    quote_symbol = quote_symbol;
    price = price;
    end_date = end_date;
  })

pub record MarketCancelSaleByIdArgs : Type 0 where
  pub symbol : SmallString
  pub instance_id : VmDynamicVariable

unfoldable pub write_market_cancel_sale_by_id_args : MarketCancelSaleByIdArgs → Write
write_market_cancel_sale_by_id_args m = do
  write_small_string m.symbol
  write_dynamic_variable m.instance_id

unfoldable pub read_market_cancel_sale_by_id_args : Read MarketCancelSaleByIdArgs
read_market_cancel_sale_by_id_args = do
  symbol ← read_small_string
  instance_id ← read_dynamic_variable
  pure (record { symbol = symbol; instance_id = instance_id })

pub record MarketBuyTokenByIdArgs : Type 0 where
  pub from_address : Bytes
  pub symbol : SmallString
  pub instance_id : VmDynamicVariable

unfoldable pub write_market_buy_token_by_id_args : MarketBuyTokenByIdArgs → Write
write_market_buy_token_by_id_args m = do
  write32 m.from_address
  write_small_string m.symbol
  write_dynamic_variable m.instance_id

unfoldable pub read_market_buy_token_by_id_args : Read MarketBuyTokenByIdArgs
read_market_buy_token_by_id_args = do
  from_address ← read32
  symbol ← read_small_string
  instance_id ← read_dynamic_variable
  pure (record { from_address = from_address; symbol = symbol; instance_id = instance_id })

pub record MarketGetTokenListingInfoByIdArgs : Type 0 where
  pub symbol : SmallString
  pub instance_id : VmDynamicVariable

unfoldable pub write_market_get_token_listing_info_by_id_args :
    MarketGetTokenListingInfoByIdArgs → Write
write_market_get_token_listing_info_by_id_args m = do
  write_small_string m.symbol
  write_dynamic_variable m.instance_id

unfoldable pub read_market_get_token_listing_info_by_id_args :
    Read MarketGetTokenListingInfoByIdArgs
read_market_get_token_listing_info_by_id_args = do
  symbol ← read_small_string
  instance_id ← read_dynamic_variable
  pure (record { symbol = symbol; instance_id = instance_id })
