-- ===== src/Venues/Kalshi.antt =====
-- clients/kalshi.py: `KalshiClient`. The HTTP session is third-party code behind `respond`: it takes the
-- URL and the query parameters, and answers with the decoded body or raises. `clock` is `datetime.now`.
use mathlib.Core.Option
use Prim.Native.String.{◌++◌}
use augury.Prelude.{
  ℕ, suc, ◌-◌, ◌*◌, ◌/◌, String, true, not, ◌||◌, Option, none, some, List, [], ◌∷◌, if◌then◌else◌,
  is_some, Result, ok, err, value_error, overflow_error, ◌>>=◌, ◌>>◌, raise_if, leb, ltb,
}
use augury.Prelude.Int.{ℤ, pos, negsuc, ◌-ℤ◌, ltb_ℤ}
use augury.Prelude.Keys.{◌==◌, string_key, nat_key}
use augury.Prelude.Float.{Float}
use augury.Prelude.Json.{
  Json, integer, text, array, object, end, cons, nil, Builtins, get, get_or, truthy, or_json,
  elements, iterate, str, to_text, to_int, from_timestamp, rstrip_slash, before_dash, or_text,
  or_none, is_empty, is_null, unix_epoch,
}
use augury.Models.{
  DateTime, day, Market, make_market, MarketStatus, open_status, closed, settled, unknown, kalshi,
  market_id, is_settled, PriceTick, candle, book,
}
use augury.Db.{sort_by}
use augury.Venues.Money.{money, parse_ts}
use augury.Venues.Levels.{both, add_level, highest_of, spread_of, mid_price_of}

pub record KalshiClient : Type 0 where
  pub base_url : String

unfoldable pub make_client : String → KalshiClient
make_client base_url = record { base_url = rstrip_slash base_url }

-- `_STATUS_MAP.get(text, UNKNOWN)`
unfoldable pub status_map : String → MarketStatus
status_map s =
    if s == "active" || s == "open" || s == "initialized"
    then open_status
    else if s == "closed" || s == "determined"
    then closed
    else if s == "settled" || s == "finalized"
    then settled
    else unknown

-- `{"yes": 1, "no": 0}.get(text)`
unfoldable pub outcome_of : String → Option ℤ
outcome_of s = if s == "yes" then some (pos 1) else if s == "no" then some (pos 0) else none

-- the status, once the outcome is trusted
unfoldable pub settle_status : MarketStatus → Option ℤ → MarketStatus
settle_status status none = if is_settled status then closed else status
settle_status status (some o) = if is_settled status then status else settled

-- `int(t.timestamp())`
unfoldable pub timestamp : DateTime → ℤ
timestamp t =
    let epoch = unix_epoch * 1_000_000 in
    if leb epoch t then pos ((t - epoch) / 1_000_000) else pos 0 -ℤ pos ((epoch - t) / 1_000_000)

-- `t - timedelta(days=n)`
unfoldable pub days_before : DateTime → ℕ → Result DateTime
days_before t n = if leb (n * day) t then ok (t - n * day) else err overflow_error

-- the period and the number of days of a request for bars
unfoldable pub check_window : ℕ → ℤ → Result ℕ
check_window period_minutes (negsuc n) = err value_error
check_window period_minutes (pos n) = do
  raise_if (not (period_minutes == 1 || period_minutes == 60 || period_minutes == 1440)) value_error
  raise_if (n == 0) value_error
  ok n

-- `min(a, b)`
abbrev pub min_ℤ : ℤ → ℤ → ℤ
min_ℤ a b = if ltb_ℤ b a then b else a

abbrev pub from_option : Option DateTime → DateTime → DateTime
from_option none now = now
from_option (some t) now = t

-- `if series_ticker: params["series_ticker"] = series_ticker`
series_parameter : {F : Type 0} → Option String → List (String × Json F)
series_parameter none = []
series_parameter (some s) = if is_empty s then [] else ("series_ticker", text s) ∷ []

module _ {F : Type 0} ⦃d : Float F⦄ ⦃py : Builtins F⦄ where
  abbrev pub no_fields : Json F
  no_fields = object end

  -- `str(raw.get(key, "")).strip().lower()` is the result; the status is not stripped
  unfoldable pub read_market : Json F → String → Option String → Result Market
  unfolding status_map outcome_of settle_status
  read_market raw ticker target = do
    raw_status ← get_or raw "status" (text "")
    raw_result ← get_or raw "result" (text "")
    title ← get_or raw "title" (text ticker)
    raw_event ← get raw "event_ticker"
    event ← to_text (or_json raw_event (text ""))
    opens ← get raw "open_time"
    closes ← get raw "close_time"
    expires ← get raw "expected_expiration_time"
    let outcome = outcome_of (py.lower (py.strip (str raw_result)))
    make_market (record {
      market_id = market_id kalshi ticker;
      venue = kalshi;
      ticker = ticker;
      title = str title;
      target = or_text target (str title);
      series_ticker = or_none (before_dash event);
      open_time = parse_ts opens;
      close_time = parse_ts closes;
      status = settle_status (status_map (py.lower (str raw_status))) outcome;
      resolved_outcome = outcome;
      resolution_time = if is_some outcome then parse_ts expires else none;
      tracked = true;
    })

  unfoldable pub read_candle :
      String → (fetched_at : DateTime) → Json F → Json F → Result (PriceTick F)
  read_candle mid fetched_at bar ts = do
    price ← get bar "price"
    bid ← get bar "yes_bid"
    ask ← get bar "yes_ask"
    close ← get (or_json price no_fields) "close_dollars"
    yes_price ← money close
    bid_close ← get (or_json bid no_fields) "close_dollars"
    yes_bid ← money bid_close
    ask_close ← get (or_json ask no_fields) "close_dollars"
    yes_ask ← money ask_close
    seconds ← to_int ts
    at ← from_timestamp seconds
    raw_volume ← get bar "volume_fp"
    volume ← money raw_volume
    ok (record {
      market_id = mid;
      ts = at;
      source = candle;
      yes_price = yes_price;
      yes_bid = yes_bid;
      yes_ask = yes_ask;
      spread = spread_of yes_bid yes_ask;
      depth_bid = none;
      depth_ask = none;
      volume = volume;
      fetched_at = some fetched_at;
    })

  -- the loop over the bars; the i-th bar is fetched at `clock i`
  unfoldable pub read_candles :
      String → (clock : ℕ → DateTime) → ℕ → List (Json F) → Result (List (PriceTick F))
  unfolding read_candle
  read_candles mid clock i [] = ok []
  read_candles mid clock i (bar ∷ bars) =
      let rest = read_candles mid clock (suc i) bars in
      do
        ts ← get bar "end_period_ts"
        if is_null ts
            then rest
            else do tick ← read_candle mid (clock i) bar ts; ticks ← rest; ok (tick ∷ ticks)

  -- `len(level) < 2`, `level[0]` and `level[1]`, of a level that is a list
  unfoldable pub level_of : Json F → Result (Option (F × F))
  level_of (array (cons raw_price (cons raw_size xs))) = do
    price ← money raw_price
    size ← money raw_size
    ok (both price size)
  level_of _ = ok none

  unfoldable pub levels_of : List (Json F) → Result (List (F × F))
  unfolding level_of
  levels_of [] = ok []
  levels_of (level ∷ levels) = do
    found ← level_of level
    rest ← levels_of levels
    ok (add_level found rest)

  -- highest-priced level and its size, from [[price, size], ...]
  unfoldable pub best : Json F → Result (Option F × Option F)
  unfolding levels_of
  best (array xs) = do levels ← levels_of (elements xs); ok (highest_of levels)
  best _ = ok (none, none)

  -- the tick of one book
  unfoldable pub read_book : String → (now fetched_at : DateTime) → Json F → Result (PriceTick F)
  unfolding best
  read_book ticker now fetched_at payload = do
    fp ← get payload "orderbook_fp"
    plain ← get payload "orderbook"
    let resting = or_json fp (or_json plain no_fields)
    yes_dollars ← get resting "yes_dollars"
    plain_yes ← get resting "yes"
    no_dollars ← get resting "no_dollars"
    plain_no ← get resting "no"
    bid ← best (or_json yes_dollars plain_yes)
    no_bid ← best (or_json no_dollars plain_no)
    let ask = Option.map (λ p. d.sub (d.lit 1 0) p) no_bid.0
    ok (record {
      market_id = market_id kalshi ticker;
      ts = now;
      source = book;
      yes_price = mid_price_of bid.0 ask;
      yes_bid = bid.0;
      yes_ask = ask;
      spread = spread_of bid.0 ask;
      depth_bid = bid.1;
      depth_ask = no_bid.1;
      volume = none;
      fetched_at = some fetched_at;
    })

  module _ (respond : String → List (String × Json F) → Result (Json F))
      (client : KalshiClient) where
    unfoldable pub list_markets : Option String → String → ℤ → Result (Json F)
    unfolding series_parameter
    list_markets series_ticker status limit = do
      payload ← respond (client.base_url ++ "/markets") (
          ("status", text status)
          ∷ ("limit", integer (min_ℤ limit (pos 1000)))
          ∷ series_parameter series_ticker)
      get_or payload "markets" (array nil)

    unfoldable pub get_market : String → Option String → Result Market
    unfolding read_market
    get_market ticker target = do
      payload ← respond (client.base_url ++ "/markets/" ++ ticker) []
      raw ← get_or payload "market" no_fields
      raise_if (not (truthy raw)) value_error
      read_market raw ticker target

    -- `now` is the end of the window when the caller gives none
    unfoldable pub get_candlesticks :
        (series_ticker ticker : String)
        → (period_minutes : ℕ) (lookback_days : ℤ) (last : Option DateTime)
        → (now : DateTime) (clock : ℕ → DateTime) → Result (List (PriceTick F))
    unfolding read_candles
    get_candlesticks series_ticker ticker period_minutes lookback_days last now clock = do
      days ← check_window period_minutes lookback_days
      let end_dt = from_option last now
      start_dt ← days_before end_dt days
      payload ←
          respond
            (client.base_url ++ "/series/" ++ series_ticker ++ "/markets/" ++ ticker
              ++ "/candlesticks")
            (("start_ts", integer (timestamp start_dt))
              ∷ ("end_ts", integer (timestamp end_dt))
              ∷ ("period_interval", integer (pos period_minutes))
              ∷ [])
      found ← get_or payload "candlesticks" (array nil)
      bars ← iterate found
      ticks ← read_candles (market_id kalshi ticker) clock 0 bars
      ok (sort_by (λ a b. ltb a.ts b.ts) ticks)

    unfoldable pub get_orderbook : String → ℤ → (now fetched_at : DateTime) → Result (PriceTick F)
    unfolding read_book
    get_orderbook ticker depth now fetched_at = do
      payload ←
          respond (client.base_url ++ "/markets/" ++ ticker ++ "/orderbook")
            (("depth", integer depth) ∷ [])
      read_book ticker now fetched_at payload

    -- the i-th book is read at `clock i`; the pauses are not modelled
    unfoldable pub poll_orderbooks :
        (clock : ℕ → DateTime × DateTime) → ℕ → List String → Result (List (PriceTick F))
    unfolding get_orderbook
    poll_orderbooks clock i [] = ok []
    poll_orderbooks clock i (ticker ∷ tickers) =
        let rest = poll_orderbooks clock (suc i) tickers in
        do
          tick ← get_orderbook ticker (pos 10) (clock i).0 (clock i).1
          ticks ← rest
          ok (tick ∷ ticks)
