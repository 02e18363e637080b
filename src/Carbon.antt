-- ===== src/Carbon.antt =====
-- carbon.py
pub mod Writer
pub mod Reader
pub mod Codec
pub mod Values
pub mod Fungible
pub mod NonFungible
pub mod Trades
pub mod Args
pub mod Market
pub mod Calls
pub mod Config
pub mod Schemas
pub mod Dynamic
pub mod Series
pub mod MarketById
pub mod Tokens
pub mod Listings
pub mod TxMsgs
pub mod Signed
pub mod Fees
pub mod RoundTrips
mod Examples
