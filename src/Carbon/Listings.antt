-- ===== src/Carbon/Listings.antt =====
-- `TokenListing` of carbon.py.
pub mod RoundTrip
use phantasma_py.Prelude.{
  ℕ, ℤ, ◌>>=◌, ◌>>◌, pure, Result, lift, pos, if◌then◌else◌, ◌==◌, ok, err, value,
}
use phantasma_py.Bytes.{Bytes}
use phantasma_py.Carbon.Writer.{Write, write1, write8, write8u, write32}
use phantasma_py.Carbon.Reader.{Read, read1, read8, read8u, read32}
use phantasma_py.Carbon.Values.{IntX, write_int_x, read_int_x}

pub data ListingType : Type 0 where
  fixed_price : ListingType

unfoldable pub listing_code : ListingType → ℕ
listing_code fixed_price = 0

-- `ListingType(n)`: any other number is a ValueError.
unfoldable pub listing_type : ℕ → Result ListingType
listing_type n = if n == 0 then ok fixed_price else err value

unfoldable pub read_listing_type : Read ListingType
read_listing_type = do n ← read1; lift (listing_type n)

pub record TokenListing : Type 0 where
  pub type : ListingType
  pub seller : Bytes
  pub quote_token_id : ℤ
  pub price : IntX
  pub start_date : ℤ
  pub end_date : ℤ

unfoldable pub write_token_listing : TokenListing → Write
write_token_listing m = do
  write1 (pos (listing_code m.type))
  write32 m.seller
  write8u m.quote_token_id
  write_int_x m.price
  write8 m.start_date
  write8 m.end_date

unfoldable pub read_token_listing : Read TokenListing
read_token_listing = do
  type ← read_listing_type
  seller ← read32
  quote_token_id ← read8u
  price ← read_int_x
  start_date ← read8
  end_date ← read8
  pure (record {
    type = type;
    seller = seller;
    quote_token_id = quote_token_id;
    price = price;
    start_date = start_date;
    end_date = end_date;
  })
