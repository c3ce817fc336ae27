-- ===== src/Tests/Venues.antt =====
-- The clients of the venues.
use augury.Prelude.{◌≡◌, refl, none, some, [], ◌∷◌, ◌↔◌, ◌⊎◌, Result, Error, ok, err, List, String}
use augury.Prelude.Int.{ℤ, pos, ◌+ℤ◌, ◌-ℤ◌}
use augury.Prelude.Micro.{micro, micro-IsOrdered}
use augury.Venues.{parse_money, extreme}
use augury.Prelude.Json.{get_or, to_text, or_json, iterate, array, cons, nil, object, field, text}
use augury.Models.{Market, market_id, kalshi, polymarket, PriceTick, DateTime}
use augury.Models.Laws.{IsConsistent}
use augury.Venues.Kalshi
use augury.Venues.Kalshi.{KalshiClient}
use augury.Venues.Polymarket
use augury.Venues.Polymarket.{PolymarketClient, yes_token_id}
use augury.Venues.Listed.{get_market-ok, get_market_raw-ok, stated_outcome, printed_outcome}
use augury.Venues.Tokens.{yes_token_id-IsAtYes_iff, IsYesToken}
use augury.Venues.Best.{read_book-best, IsHighest, IsLowest}
use augury.Tests.Samples.{plain, J, kalshi_market, kalshi_more, token_fields, clob_book}

abbrev kalshi_url : KalshiClient
kalshi_url = record { base_url = "https://kalshi" }

abbrev polymarket_url : PolymarketClient
polymarket_url = record { gamma_url = "https://gamma"; clob_url = "https://clob" }

abbrev answer : J → String → List (String × J) → Result J
answer body url params = ok body

get_market-ok_example :
    (m : Market) × (Kalshi.get_market (answer kalshi_market) kalshi_url "FED" none ≡ ok m)
    × (m.market_id ≡ market_id kalshi "FED")
    × (m.resolved_outcome ≡ stated_outcome (field "title" (text "Rates") kalshi_more))
    × IsConsistent m
unfolding get_or to_text or_json
get_market-ok_example =
    get_market-ok (answer kalshi_market) kalshi_url "FED" none kalshi_market (text "Rates") "title"
      "" kalshi_more refl refl refl

get_market_raw-ok_example :
    ((m : Market) × (Polymarket.get_market
          (answer (array (cons (object token_fields) nil)))
          polymarket_url
          "0x1"
          none
        ≡ ok m)
      × (m.market_id ≡ market_id polymarket "0x1")
      × (printed_outcome token_fields ≡ ok m.resolved_outcome)
      × IsConsistent m)
    ⊎ ((e : Error) × (printed_outcome token_fields ≡ err e)
        × (Polymarket.get_market
              (answer (array (cons (object token_fields) nil)))
              polymarket_url
              "0x1"
              none
            ≡ err e))
get_market_raw-ok_example =
    get_market_raw-ok (answer (array (cons (object token_fields) nil))) polymarket_url "0x1" none
      token_fields nil refl

yes_token_id-IsAtYes_iff_example :
    (yes_token_id (object token_fields) ≡ ok "82") ↔ IsYesToken token_fields "82"
yes_token_id-IsAtYes_iff_example = yes_token_id-IsAtYes_iff token_fields "82"

abbrev best_tick : PriceTick ℤ
best_tick = record {
  market_id = market_id polymarket "0x1";
  ts = 5;
  source = augury.Models.book;
  yes_price = some (pos 420_000);
  yes_bid = some (pos 410_000);
  yes_ask = some (pos 430_000);
  spread = some (pos 20_000);
  depth_bid = some (pos 5_000_000);
  depth_ask = some (pos 7_000_000);
  volume = none;
  fetched_at = some 6;
}

abbrev bids : List (ℤ × ℤ)
bids = (pos 410_000, pos 5_000_000) ∷ []

abbrev asks : List (ℤ × ℤ)
asks = (pos 430_000, pos 7_000_000) ∷ []

read_book-best_example :
    IsHighest bids (pos 410_000, pos 5_000_000) × IsLowest asks (pos 430_000, pos 7_000_000)
unfolding Polymarket.read_levels get_or iterate or_json parse_money Polymarket.read_book
    Polymarket.quote_mid extreme ◌+ℤ◌ ◌-ℤ◌
read_book-best_example =
    read_book-best micro-IsOrdered "0x1" 5 6 clob_book best_tick bids asks (pos 410_000)
      (pos 5_000_000) (pos 430_000) (pos 7_000_000) refl refl (refl, tt) (refl, tt) refl refl refl
      refl refl
