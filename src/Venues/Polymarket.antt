-- ===== src/Venues/Polymarket.antt =====
-- clients/polymarket.py: `PolymarketClient`. The HTTP session is third-party code behind `respond`: it
-- takes the URL and the query parameters, and answers with the decoded body or raises. `now` and
-- `fetched_at` are the readings of `datetime.now`.
use Prim.Native.String.{◌++◌}
use augury.Prelude.{
  String, Bool, true, false, not, Option, none, some, List, [], ◌∷◌, map, if◌then◌else◌, is_some,
  Result, ok, err, value_error, index_error, ◌>>=◌, ◌>>◌, raise_if, ltb, length,
}
use augury.Prelude.Int.{ℤ, pos}
use augury.Prelude.Keys.{◌==◌, string_key, nat_key}
use augury.Prelude.Float.{Float}
use augury.Prelude.Json.{
  Json, null, integer, text, array, object, nil, Builtins, get, get_or, truthy, or_json, elements,
  iterate, str, to_int, from_timestamp, rstrip_slash, or_text, is_null, entry, or_else,
}
use augury.Models.{
  DateTime, Market, make_market, MarketStatus, open_status, closed, settled, polymarket, market_id,
  PriceTick, candle, book,
}
use augury.Db.{sort_by, traverse}
use augury.Venues.Money.{money, parse_ts}
use augury.Venues.Levels.{both, add_level, highest_of, lowest_of, spread_of}

pub record PolymarketClient : Type 0 where
  pub gamma_url : String
  pub clob_url : String

unfoldable pub make_client : String → String → PolymarketClient
make_client gamma_url clob_url = record {
  gamma_url = rstrip_slash gamma_url;
  clob_url = rstrip_slash clob_url;
}

-- the token at the place of the first outcome that is "yes"; the lists are equally long
unfoldable pub token_of_yes : List String → List String → Result String
token_of_yes [] tokens = err value_error
token_of_yes (name ∷ names) [] = err index_error
token_of_yes (name ∷ names) (token ∷ tokens) =
    if name == "yes" then ok token else token_of_yes names tokens

abbrev pub status_of : Bool → Option ℤ → MarketStatus
status_of false outcome = open_status
status_of true (some o) = settled
status_of true none = closed

module _ {F : Type 0} ⦃d : Float F⦄ ⦃py : Builtins F⦄ where
  -- `payload if isinstance(payload, list) else []`
  abbrev pub array_elements : Json F → List (Json F)
  array_elements (array xs) = elements xs
  array_elements _ = []

  -- `markets[0]` of markets that are found
  abbrev first_market : List (Json F) → Result (Json F)
  first_market [] = err value_error
  first_market (raw ∷ raws) = ok raw

  -- `raw.get("slug")`
  abbrev slug_of : Json F → Option String
  slug_of null = none
  slug_of v = some (str v)

  abbrev point_tick : String → (now at : DateTime) → F → PriceTick F
  point_tick mid now at price = record {
    market_id = mid;
    ts = at;
    source = candle;
    yes_price = some price;
    yes_bid = none;
    yes_ask = none;
    spread = none;
    depth_bid = none;
    depth_ask = none;
    volume = none;
    fetched_at = some now;
  }

  unfoldable pub decoded_list : Option (Json F) → List (Json F)
  decoded_list (some (array xs)) = elements xs
  decoded_list _ = []

  -- `_json_field`, of the value that `raw` has for the key
  unfoldable pub json_field : Json F → Result (List (Json F))
  unfolding decoded_list
  json_field (array xs) = ok (elements xs)
  json_field (text s) = do decoded ← py.loads s; ok (decoded_list decoded)
  json_field _ = ok []

  -- `str(o).strip().lower()`
  abbrev pub outcome_names : List (Json F) → List String
  outcome_names = map (λ o. py.lower (py.strip (str o)))

  unfoldable pub yes_token_id : Json F → Result String
  unfolding json_field token_of_yes
  yes_token_id raw = do
    raw_outcomes ← get raw "outcomes"
    raw_tokens ← get raw "clobTokenIds"
    listed_outcomes ← json_field raw_outcomes
    listed_tokens ← json_field raw_tokens
    let outcomes = outcome_names listed_outcomes
    let token_ids = map str listed_tokens
    raise_if (length token_ids == 0) value_error
    raise_if (not (length outcomes == length token_ids)) value_error
    token_of_yes outcomes token_ids

  -- the outcome that the price of YES shows
  unfoldable pub corner : F → Option ℤ
  corner price =
      if d.le (d.lit 99 2) price
      then some (pos 1)
      else if d.le price (d.lit 1 2)
      then some (pos 0)
      else none

  -- the loop over the names and the prices: it stops at the first YES that has a price
  unfoldable pub outcome_from : List String → List (Option F) → Option ℤ
  unfolding corner
  outcome_from (name ∷ names) (some price ∷ prices) =
      if name == "yes" then corner price else outcome_from names prices
  outcome_from (name ∷ names) (none ∷ prices) = outcome_from names prices
  outcome_from _ _ = none

  -- the outcome of a market, which is read when it is closed
  unfoldable pub read_outcome : Bool → (raw_prices raw_outcomes : Json F) → Result (Option ℤ)
  unfolding outcome_from json_field
  read_outcome false raw_prices raw_outcomes = ok none
  read_outcome true raw_prices raw_outcomes = do
    listed_prices ← json_field raw_prices
    prices ← traverse money listed_prices
    listed_outcomes ← json_field raw_outcomes
    ok (outcome_from (outcome_names listed_outcomes) prices)

  unfoldable pub read_market : Json F → String → Option String → Result Market
  unfolding read_outcome
  read_market raw condition_id target = do
    raw_closed ← get raw "closed"
    raw_prices ← get raw "outcomePrices"
    raw_outcomes ← get raw "outcomes"
    raw_question ← get raw "question"
    slug ← get raw "slug"
    starts ← get raw "startDate"
    ends ← get raw "endDate"
    updated ← get raw "updatedAt"
    let is_closed = truthy raw_closed
    outcome ← read_outcome is_closed raw_prices raw_outcomes
    let question = str (or_json raw_question (text condition_id))
    make_market (record {
      market_id = market_id polymarket condition_id;
      venue = polymarket;
      ticker = condition_id;
      title = question;
      target = or_text target question;
      series_ticker = slug_of slug;
      open_time = parse_ts starts;
      close_time = parse_ts ends;
      status = status_of is_closed outcome;
      resolved_outcome = outcome;
      resolution_time = if is_some outcome then parse_ts updated else none;
      tracked = true;
    })

  -- `mid` of a quote: the last trade stands in for a missing side
  unfoldable pub quote_mid : Option F → Option F → Json F → Result (Option F)
  quote_mid (some bid) (some ask) last = ok (some (d.div (d.add bid ask) (d.lit 2 0)))
  quote_mid _ _ last = money last

  abbrev pub first_of : Option F → Option F → Option F
  first_of (some x) y = some x
  first_of none y = y

  -- the fields of the level that are numbers; a level that is no object has none
  unfoldable pub level_of : Json F → Result (Option (F × F))
  level_of (object fs) = do
    price ← money (or_else (entry fs "price") null)
    size ← money (or_else (entry fs "size") null)
    ok (both price size)
  level_of _ = ok none

  unfoldable pub levels_of : List (Json F) → Result (List (F × F))
  unfolding level_of
  levels_of [] = ok []
  levels_of (level ∷ levels) = do
    found ← level_of level
    rest ← levels_of levels
    ok (add_level found rest)

  -- `levels(key)` over `book.get(key) or []`
  unfoldable pub read_levels : Json F → String → Result (List (F × F))
  unfolding levels_of
  read_levels payload key = do
    found ← get payload key
    levels ← iterate (or_json found (array nil))
    levels_of levels

  unfoldable pub read_book : String → (now fetched_at : DateTime) → Json F → Result (PriceTick F)
  unfolding read_levels
  read_book condition_id now fetched_at payload = do
    bids ← read_levels payload "bids"
    asks ← read_levels payload "asks"
    last ← get payload "last_trade_price"
    let bid = highest_of bids
    let ask = lowest_of asks
    mid ← quote_mid bid.0 ask.0 last
    ok (record {
      market_id = market_id polymarket condition_id;
      ts = now;
      source = book;
      yes_price = mid;
      yes_bid = bid.0;
      yes_ask = ask.0;
      spread = spread_of bid.0 ask.0;
      depth_bid = bid.1;
      depth_ask = ask.1;
      volume = none;
      fetched_at = some fetched_at;
    })

  -- one point of the history; a point without a time or a price is skipped
  unfoldable pub read_points : String → DateTime → List (Json F) → Result (List (PriceTick F))
  read_points mid now [] = ok []
  read_points mid now (point ∷ points) =
      let rest = read_points mid now points in
      do
        t ← get point "t"
        p ← get point "p"
        parsed ← money p
        elim parsed [
          | none ↦ rest
          | some price ↦ if is_null t then rest else do
            seconds ← to_int t
            at ← from_timestamp seconds
            ticks ← rest
            ok (point_tick mid now at price ∷ ticks)
        ]

  module _ (respond : String → List (String × Json F) → Result (Json F))
      (client : PolymarketClient) where
    unfoldable pub list_markets : Bool → ℤ → String → Result (List (Json F))
    list_markets is_closed limit order = do
      payload ← respond (client.gamma_url ++ "/markets") (
          ("closed", text (if is_closed then "true" else "false"))
          ∷ ("limit", integer limit)
          ∷ ("order", text order)
          ∷ ("ascending", text "false")
          ∷ [])
      ok (array_elements payload)

    unfoldable pub get_market_raw : String → Result (Json F)
    get_market_raw condition_id = do
      payload ← respond (client.gamma_url ++ "/markets") (("condition_ids", text condition_id) ∷ [])
      first_market (array_elements payload)

    unfoldable pub get_market : String → Option String → Result Market
    unfolding get_market_raw read_market
    get_market condition_id target = do
      raw ← get_market_raw condition_id
      read_market raw condition_id target

    unfoldable pub get_quote : String → (now fetched_at : DateTime) → Result (PriceTick F)
    unfolding get_market_raw quote_mid
    get_quote condition_id now fetched_at = do
      raw ← get_market_raw condition_id
      best_bid ← get raw "bestBid"
      best_ask ← get raw "bestAsk"
      raw_spread ← get raw "spread"
      last ← get raw "lastTradePrice"
      raw_volume ← get raw "volumeNum"
      bid ← money best_bid
      ask ← money best_ask
      given_spread ← money raw_spread
      mid ← quote_mid bid ask last
      volume ← money raw_volume
      ok (record {
        market_id = market_id polymarket condition_id;
        ts = now;
        source = book;
        yes_price = mid;
        yes_bid = bid;
        yes_ask = ask;
        spread = first_of given_spread (spread_of bid ask);
        depth_bid = none;
        depth_ask = none;
        volume = volume;
        fetched_at = some fetched_at;
      })

    -- the token that the caller gives, or the YES token of the market
    unfoldable pub token_id_of : String → Option String → Result String
    unfolding get_market_raw yes_token_id
    token_id_of condition_id (some token) = ok token
    token_id_of condition_id none = do raw ← get_market_raw condition_id; yes_token_id raw

    unfoldable pub get_orderbook :
        String → Option String → (now fetched_at : DateTime) → Result (PriceTick F)
    unfolding token_id_of read_book
    get_orderbook condition_id token_id now fetched_at = do
      token ← token_id_of condition_id token_id
      payload ← respond (client.clob_url ++ "/book") (("token_id", text token) ∷ [])
      read_book condition_id now fetched_at payload

    unfoldable pub get_price_history :
        String
        → Option String
        → (interval : String) (fidelity_minutes : ℤ) (now : DateTime) → Result (List (PriceTick F))
    unfolding token_id_of read_points
    get_price_history condition_id token_id interval fidelity_minutes now = do
      token ← token_id_of condition_id token_id
      payload ← respond (client.clob_url ++ "/prices-history") (
          ("market", text token)
          ∷ ("interval", text interval)
          ∷ ("fidelity", integer fidelity_minutes)
          ∷ [])
      found ← get_or payload "history" (array nil)
      points ← iterate found
      ticks ← read_points (market_id polymarket condition_id) now points
      ok (sort_by (λ a b. ltb a.ts b.ts) ticks)
