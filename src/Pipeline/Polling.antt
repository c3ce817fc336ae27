-- ===== src/Pipeline/Polling.antt =====
-- pipeline/steps.py: `venue_client`, `sync_config`, `poll_prices` and `ingest_posts`. `respond` is the
-- HTTP session of the venues while a step runs: the same request has the same answer.
use mathlib.Core.List
use augury.Prelude.{
  ℕ, suc, ◌+◌, String, Bool, true, Option, none, some, List, [], ◌∷◌, if◌then◌else◌, Result, ok,
  err, ◌>>=◌, Exec,
}
use augury.Prelude.Int.{ℤ, pos, ltb_ℤ}
use augury.Prelude.Float.{Float}
use augury.Prelude.Json.{Json, Builtins, is_empty, before_dash}
use augury.Models.{
  DateTime, Market, make_market, Venue, kalshi, polymarket, PriceTick, Post, to_x_query,
}
use augury.Config.{Settings, TrackedMarket, MarketConfig}
use augury.Db.{Database, upsert_market, replace_market_queries}
use augury.Venues.Kalshi
use augury.Venues.Kalshi.{KalshiClient, days_before}
use augury.Venues.Polymarket
use augury.Venues.Polymarket.{PolymarketClient}

pub data VenueClient : Type 0 where
  kalshi_client : KalshiClient → VenueClient
  polymarket_client : PolymarketClient → VenueClient

unfoldable pub venue_client : {F : Type 0} → Venue → Settings F → VenueClient
venue_client kalshi settings = kalshi_client (Kalshi.make_client settings.kalshi_base_url)
venue_client polymarket settings =
    polymarket_client
      (Polymarket.make_client settings.polymarket_gamma_url settings.polymarket_clob_url)

-- `a or b`
abbrev pub or_option : Option String → Option String → Option String
or_option none b = b
or_option (some a) b = if is_empty a then b else some a

-- the record that the sync stores: the target is the configuration's, the rest is the venue's
unfoldable pub refreshed : Market → Market → Result Market
refreshed configured fetched = make_market (record fetched {
  target = configured.target;
  series_ticker = or_option configured.series_ticker fetched.series_ticker;
  tracked = true;
})

-- what a step keeps when a call raised: `except Exception`
abbrev pub or_keep {ℓ} : {A : Type ℓ} → Result A → A → A
or_keep (ok a) kept = a
or_keep (err e) kept = kept

module _ {F : Type 0} ⦃d : Float F⦄ ⦃py : Builtins F⦄
    (respond : String → List (String × Json F) → Result (Json F)) where
  unfoldable pub fetch_market : VenueClient → String → String → Result Market
  fetch_market (kalshi_client client) ticker target =
      Kalshi.get_market respond client ticker (some target)
  fetch_market (polymarket_client client) ticker target =
      Polymarket.get_market respond client ticker (some target)

  -- the body of the loop of `sync_config`, before the writes
  unfoldable pub sync_market : Settings F → TrackedMarket F → Market
  unfolding fetch_market refreshed
  sync_market settings t =
      let found : Result Market = do
        fetched ←
            fetch_market (venue_client t.market.venue settings) t.market.ticker t.market.target
        refreshed t.market fetched
      in or_keep found t.market

  -- `sync_config`: how many markets and how many terms were written
  unfoldable pub sync_markets :
      Settings F → DateTime → List (TrackedMarket F) → ℕ × ℕ → Database F → (ℕ × ℕ) × Database F
  unfolding sync_market
  sync_markets settings now [] counts db = (counts, db)
  sync_markets settings now (t ∷ ts) counts db =
      let (terms, db') =
        replace_market_queries t.query (upsert_market now (sync_market settings t) db) in
      sync_markets settings now ts (suc counts.0, counts.1 + terms) db'

  unfoldable pub sync_config :
      MarketConfig F → Settings F → DateTime → Database F → (ℕ × ℕ) × Database F
  unfolding sync_markets
  sync_config config settings now db = sync_markets settings now config.markets (0, 0) db

  -- the bars of `poll_prices`
  unfoldable pub fetch_history :
      VenueClient
      → Market
      → (lookback_days : ℤ) (now : DateTime) (clock : ℕ → DateTime) → Result (List (PriceTick F))
  fetch_history (kalshi_client client) m lookback_days now clock =
      Kalshi.get_candlesticks respond client (series_of m.series_ticker) m.ticker 60 lookback_days
        none now clock
    where
      series_of : Option String → String
      series_of none = before_dash m.ticker
      series_of (some s) = if is_empty s then before_dash m.ticker else s
  fetch_history (polymarket_client client) m lookback_days now clock =
      Polymarket.get_price_history respond client m.ticker none
        (if ltb_ℤ (pos 7) lookback_days then "1m" else "1w") (pos 60) now

  unfoldable pub fetch_book :
      VenueClient → Market → (now fetched_at : DateTime) → Result (PriceTick F)
  fetch_book (kalshi_client client) m now fetched_at =
      Kalshi.get_orderbook respond client m.ticker (pos 10) now fetched_at
  fetch_book (polymarket_client client) m now fetched_at =
      Polymarket.get_orderbook respond client m.ticker none now fetched_at

  abbrev one_tick : Result (PriceTick F) → List (PriceTick F)
  one_tick (ok t) = t ∷ []
  one_tick (err e) = []

  -- `poll_prices`: the bars, unless they are not wanted or the venue fails, then the book
  unfoldable pub poll_prices :
      Settings F
      → TrackedMarket F
      → (lookback_days : ℤ) (include_history : Bool)
      → (now at fetched_at : DateTime) (clock : ℕ → DateTime) → List (PriceTick F)
  unfolding fetch_history fetch_book
  poll_prices settings t lookback_days include_history now at fetched_at clock =
      let client = venue_client t.market.venue settings in
      let bars =
        if include_history
        then or_keep (fetch_history client t.market lookback_days now clock) []
        else [] in
      List.◌++◌ bars (one_tick (fetch_book client t.market at fetched_at))

-- `ingest_posts`, over the client's search
unfoldable pub ingest_posts :
    {F S : Type 0}
    → (String → String → ℕ → Option DateTime → Exec S (List Post))
    → TrackedMarket F
    → MarketConfig F
    → (max_results lookback_days : ℕ) (now : DateTime) → Exec S (List Post)
ingest_posts search t config max_results lookback_days now s =
    let window : Result (String × DateTime) = do
      query ← to_x_query t.query config.language config.global_exclude
      start ← days_before now lookback_days
      ok (query, start)
    in elim window [
      | err e ↦ (err e, s)
      | ok (query, start) ↦ search query t.market.market_id max_results (some start) s
    ]
