-- ===== src/Carbon/Listings/RoundTrip.antt =====
-- A listing reads back.
use phantasma_py.Prelude.{length, pos, arith, ◌≡◌, IsUnsigned, refl, IsSigned}
use phantasma_py.Carbon.Codec.{Encodes, Encodes-bind, Encodes-last, Encodes-lift}
use phantasma_py.Carbon.Codec.Numbers.{write1_lem, write8_lem, write8u_lem, write32_lem}
use phantasma_py.Carbon.Values.IntXs.{write_int_x_lem}
use phantasma_py.Carbon.Writer.{write1}
use phantasma_py.Carbon.Listings.{
  ListingType, fixed_price, listing_code, listing_type, read_listing_type, TokenListing,
  write_token_listing, read_token_listing,
}

pub record IsTokenListing (m : TokenListing) : Type 0 where
  pub seller : length m.seller ≡ 32
  pub quote_token_id : IsUnsigned 64 m.quote_token_id
  pub price : IsSigned 256 m.price.value
  pub start_date : IsSigned 64 m.start_date
  pub end_date : IsSigned 64 m.end_date

listing_type_lem : (t : ListingType) → Encodes 1 (write1 (pos (listing_code t))) read_listing_type t
unfolding read_listing_type listing_code listing_type
listing_type_lem fixed_price = Encodes-lift (write1_lem 0 (omega arith)) listing_type refl

pub write_token_listing_lem :
    (m : TokenListing) → IsTokenListing m → Encodes 1 (write_token_listing m) read_token_listing m
unfolding write_token_listing read_token_listing
write_token_listing_lem m h = Encodes-bind (listing_type_lem m.type) _ (
    Encodes-bind (write32_lem m.seller h.seller) _ (
      Encodes-bind (write8u_lem m.quote_token_id h.quote_token_id) _ (
        Encodes-bind (write_int_x_lem m.price h.price) _ (
          Encodes-bind (write8_lem m.start_date h.start_date) _
            (Encodes-last (write8_lem m.end_date h.end_date) _)))))
