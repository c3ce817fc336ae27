-- ===== src/Venues/Series.antt =====
-- The series that the two clients return.
use augury.Prelude.{
  ℕ, suc, String, Option, List, [], ◌∷◌, ◌≡◌, refl, ok, arith, All, Result, err, ◌>>=◌, IsPost,
  IsPost->>=, IsPost-ok, ltb,
}
use augury.Prelude.Int.{ℤ}
use augury.Prelude.Float.{Float}
use augury.Prelude.Json.{
  Json, Builtins, get, get_or, array, nil, iterate, or_json, to_int, from_timestamp,
}
use augury.Models.{DateTime, PriceTick, candle, kalshi, polymarket, market_id}
use augury.Signal.Bisect.{IsAscending}
use augury.Db.{sort_by}
use augury.Db.Effects.{All-sort_by}
use augury.Pipeline.Sorting.{by_time-IsAscending}
use augury.Venues.Money.{money}
use augury.Venues.Kalshi
use augury.Venues.Kalshi.{KalshiClient, no_fields}
use augury.Venues.Polymarket
use augury.Venues.Polymarket.{PolymarketClient, token_id_of}

-- a bar of the market
abbrev pub IsBar : {F : Type 0} → String → PriceTick F → Type 0
IsBar mid t = (t.market_id ≡ mid) × (t.source ≡ candle)

module _ {F : Type 0} ⦃d : Float F⦄ ⦃py : Builtins F⦄ where
  read_candle-IsBar :
      (mid : String) (fetched_at : DateTime) (bar ts : Json F)
      → IsPost (IsBar mid) (Kalshi.read_candle mid fetched_at bar ts)
  unfolding Kalshi.read_candle
  read_candle-IsBar mid fetched_at bar ts =
      let P : PriceTick F → Type 0 = IsBar mid in
      IsPost->>= P (get bar "price") _ λ price. IsPost->>= P (get bar "yes_bid") _ λ bid.
        IsPost->>= P (get bar "yes_ask") _ λ ask.
          IsPost->>= P (get (or_json price no_fields) "close_dollars") _ λ close.
            IsPost->>= P (money close) _ λ yes_price.
              IsPost->>= P (get (or_json bid no_fields) "close_dollars") _ λ bid_close.
                IsPost->>= P (money bid_close) _ λ yes_bid.
                  IsPost->>= P (get (or_json ask no_fields) "close_dollars") _ λ ask_close.
                    IsPost->>= P (money ask_close) _ λ yes_ask.
                      IsPost->>= P (to_int ts) _ λ seconds.
                        IsPost->>= P (from_timestamp seconds) _ λ at.
                          IsPost->>= P (get bar "volume_fp") _
                            λ raw_volume. IsPost->>= P (money raw_volume) _ λ volume. (refl, refl)

  read_candles-IsBar :
      (mid : String) (clock : ℕ → DateTime) (i : ℕ) (bars : List (Json F))
      → IsPost (All (IsBar mid)) (Kalshi.read_candles mid clock i bars)
  unfolding Kalshi.read_candles
  read_candles-IsBar mid clock i [] = tt
  read_candles-IsBar mid clock i (bar ∷ bars) =
      IsPost->>= (All (IsBar mid)) (get bar "end_period_ts") _ λ ts.
        ground
          (arith, read_candles-IsBar mid clock (suc i) bars, read_candle-IsBar mid (clock i) bar ts)

  read_points-IsBar :
      (mid : String) (now : DateTime) (points : List (Json F))
      → IsPost (All (IsBar mid)) (Polymarket.read_points mid now points)
  unfolding Polymarket.read_points
  read_points-IsBar mid now [] = tt
  read_points-IsBar mid now (point ∷ points) = IsPost->>= (All (IsBar mid)) (get point "t") _ λ t.
      IsPost->>= (All (IsBar mid)) (get point "p") _ λ p.
        IsPost->>= (All (IsBar mid)) (money p) _
          λ parsed. ground (arith, read_points-IsBar mid now points)

  -- a series of bars of the market, the earliest first
  abbrev pub IsSeries : String → List (PriceTick F) → Type 0
  IsSeries mid ticks = IsAscending (λ t. t.ts) ticks × All (IsBar mid) ticks

  sort_by-IsSeries :
      (mid : String) (ticks : List (PriceTick F))
      → All (IsBar mid) ticks
      → IsSeries mid (sort_by (λ a b. ltb a.ts b.ts) ticks)
  sort_by-IsSeries mid ticks h = (
    by_time-IsAscending (λ t. t.ts) ticks,
    All-sort_by (IsBar mid) (λ a b. ltb a.ts b.ts) ticks h,
  )

  sorted-IsSeries :
      (mid : String) (found : Result (List (PriceTick F)))
      → IsPost (All (IsBar mid)) found
      → IsPost (IsSeries mid) (found >>= λ ticks. ok (sort_by (λ a b. ltb a.ts b.ts) ticks))
  sorted-IsSeries mid (ok ticks) h = sort_by-IsSeries mid ticks h
  sorted-IsSeries mid (err e) h = tt

  module _ (respond : String → List (String × Json F) → Result (Json F)) where
    get_candlesticks-IsPost :
        (client : KalshiClient) (series_ticker ticker : String) (period : ℕ) (lookback : ℤ)
        → (last : Option DateTime) (now : DateTime) (clock : ℕ → DateTime)
        → IsPost (IsSeries (market_id kalshi ticker)) (
            Kalshi.get_candlesticks respond client series_ticker ticker period lookback last now
              clock)
    unfolding Kalshi.get_candlesticks
    get_candlesticks-IsPost client series_ticker ticker period lookback last now clock =
        IsPost->>= (IsSeries (market_id kalshi ticker)) (Kalshi.check_window period lookback) _
          λ days.
            IsPost->>= (IsSeries (market_id kalshi ticker))
              (Kalshi.days_before (Kalshi.from_option last now) days) _
              λ start. IsPost->>= (IsSeries (market_id kalshi ticker)) (respond _ _) _ λ payload.
                IsPost->>= (IsSeries (market_id kalshi ticker))
                  (get_or payload "candlesticks" (array nil)) _
                  λ found. IsPost->>= (IsSeries (market_id kalshi ticker)) (iterate found) _ λ bars.
                    sorted-IsSeries (market_id kalshi ticker) _
                      (read_candles-IsBar (market_id kalshi ticker) clock 0 bars)

    -- The ticks that `get_candlesticks` returns are bars of the market that was asked for, in the order of
    -- their times.
    pub get_candlesticks-IsSeries :
        (client : KalshiClient) (series_ticker ticker : String) (period : ℕ) (lookback : ℤ)
        → (last : Option DateTime) (now : DateTime) (clock : ℕ → DateTime)
        → (ticks : List (PriceTick F))
        → Kalshi.get_candlesticks respond client series_ticker ticker period lookback last now clock
          ≡ ok ticks
        → IsSeries (market_id kalshi ticker) ticks
    get_candlesticks-IsSeries client series_ticker ticker period lookback last now clock ticks h =
        IsPost-ok (IsSeries (market_id kalshi ticker)) _ ticks
          (get_candlesticks-IsPost client series_ticker ticker period lookback last now clock) h

    pub get_price_history-IsSeries :
        (client : PolymarketClient) (condition_id : String) (token_id : Option String)
        → (interval : String) (fidelity : ℤ) (now : DateTime) (ticks : List (PriceTick F))
        → Polymarket.get_price_history respond client condition_id token_id interval fidelity now
          ≡ ok ticks
        → IsSeries (market_id polymarket condition_id) ticks
    unfolding Polymarket.get_price_history
    get_price_history-IsSeries client condition_id token_id interval fidelity now ticks h =
        let mid = market_id polymarket condition_id in
        let P = IsSeries mid in
        IsPost-ok P _ ticks
          (IsPost->>= P (token_id_of respond client condition_id token_id) _ λ token.
            IsPost->>= P (respond _ _) _ λ payload.
              IsPost->>= P (get_or payload "history" (array nil)) _ λ found.
                IsPost->>= P (iterate found) _
                  λ points. sorted-IsSeries mid _ (read_points-IsBar mid now points))
          h
