-- ===== src/Carbon/Examples/Contracts.antt =====
-- The contracts' arguments on concrete objects.
use phantasma_py.Carbon.RoundTrips.Contracts.{market_args-RoundTrips, mint_args-RoundTrips}
use phantasma_py.Prelude.{arith, negsuc, pos, replicate, refl, ◌∷◌, []}
use phantasma_py.Carbon.Market.RoundTrip.{
  IsMarketBuyTokenArgs, IsMarketCancelSaleArgs, IsMarketSellTokenArgs,
}
use phantasma_py.Carbon.Market.{
  MarketBuyTokenArgs, MarketCancelSaleArgs, MarketSellTokenArgs, write_market_sell_token_args,
  read_market_sell_token_args, write_market_cancel_sale_args, read_market_cancel_sale_args,
  write_market_buy_token_args, read_market_buy_token_args,
}
use phantasma_py.Carbon.Args.RoundTrip.{
  IsMintNonFungibleArgs, IsMintPhantasmaNonFungibleArgs, IsPhantasmaNftMintResult,
}
use phantasma_py.Carbon.Args.{
  MintNonFungibleArgs, MintPhantasmaNonFungibleArgs, PhantasmaNftMintResult,
  write_mint_non_fungible_args, read_mint_non_fungible_args, write_mint_phantasma_non_fungible_args,
  read_mint_phantasma_non_fungible_args, write_phantasma_nft_mint_result,
  read_phantasma_nft_mint_result,
}
use phantasma_py.Carbon.Values.{IntX}
use phantasma_py.Bytes.{Bytes}
use phantasma_py.Carbon.Codec.{RoundTrips}

abbrev owner : Bytes
owner = replicate 32 3

abbrev amount : IntX
amount = record { value = negsuc 41 }

abbrev minting_nfts : MintNonFungibleArgs
minting_nfts = record {
  token_id = pos 1;
  address = owner;
  tokens = record { series_id = pos 4; rom = 1 ∷ []; ram = [] } ∷ [];
}

minting_nfts-IsMintNonFungibleArgs : IsMintNonFungibleArgs minting_nfts
minting_nfts-IsMintNonFungibleArgs = record {
  token_id = omega arith;
  address = refl;
  tokens =
      (omega arith, (record { series_id = omega arith; rom = omega arith; ram = omega arith }, tt));
}

abbrev minting_phantasma : MintPhantasmaNonFungibleArgs
minting_phantasma = record {
  token_id = pos 1;
  address = owner;
  tokens = record { phantasma_series_id = amount; rom = 1 ∷ []; ram = [] } ∷ [];
}

minting_phantasma-IsMintPhantasmaNonFungibleArgs : IsMintPhantasmaNonFungibleArgs minting_phantasma
minting_phantasma-IsMintPhantasmaNonFungibleArgs = record {
  token_id = omega arith;
  address = refl;
  tokens = (
    omega arith,
    (record { phantasma_series_id = omega arith; rom = omega arith; ram = omega arith }, tt),
  );
}

abbrev minted_nft : PhantasmaNftMintResult
minted_nft = record { phantasma_nft_id = owner; carbon_instance_id = pos 7 }

minted_nft-IsPhantasmaNftMintResult : IsPhantasmaNftMintResult minted_nft
minted_nft-IsPhantasmaNftMintResult = record {
  phantasma_nft_id = refl;
  carbon_instance_id = omega arith;
}

mint_args-RoundTrips_example :
    RoundTrips (write_mint_non_fungible_args minting_nfts) read_mint_non_fungible_args minting_nfts
    × RoundTrips
        (write_mint_phantasma_non_fungible_args minting_phantasma)
        read_mint_phantasma_non_fungible_args
        minting_phantasma
    × RoundTrips
        (write_phantasma_nft_mint_result minted_nft)
        read_phantasma_nft_mint_result
        minted_nft
mint_args-RoundTrips_example =
    mint_args-RoundTrips minting_nfts minting_phantasma minted_nft
      minting_nfts-IsMintNonFungibleArgs minting_phantasma-IsMintPhantasmaNonFungibleArgs
      minted_nft-IsPhantasmaNftMintResult

abbrev selling : MarketSellTokenArgs
selling = record {
  from_address = owner;
  token_id = pos 1;
  instance_id = pos 2;
  quote_token_id = pos 3;
  price = amount;
  end_date = pos 4;
}

selling-IsMarketSellTokenArgs : IsMarketSellTokenArgs selling
selling-IsMarketSellTokenArgs = record {
  from_address = refl;
  token_id = omega arith;
  instance_id = omega arith;
  quote_token_id = omega arith;
  price = omega arith;
  end_date = omega arith;
}

abbrev cancelling : MarketCancelSaleArgs
cancelling = record { token_id = pos 1; instance_id = pos 2 }

cancelling-IsMarketCancelSaleArgs : IsMarketCancelSaleArgs cancelling
cancelling-IsMarketCancelSaleArgs = record { token_id = omega arith; instance_id = omega arith }

abbrev buying : MarketBuyTokenArgs
buying = record { from_address = owner; token_id = pos 1; instance_id = pos 2 }

buying-IsMarketBuyTokenArgs : IsMarketBuyTokenArgs buying
buying-IsMarketBuyTokenArgs = record {
  from_address = refl;
  token_id = omega arith;
  instance_id = omega arith;
}

market_args-RoundTrips_example :
    RoundTrips (write_market_sell_token_args selling) read_market_sell_token_args selling
    × RoundTrips (write_market_cancel_sale_args cancelling) read_market_cancel_sale_args cancelling
    × RoundTrips (write_market_buy_token_args buying) read_market_buy_token_args buying
market_args-RoundTrips_example =
    market_args-RoundTrips selling cancelling buying selling-IsMarketSellTokenArgs
      cancelling-IsMarketCancelSaleArgs buying-IsMarketBuyTokenArgs
