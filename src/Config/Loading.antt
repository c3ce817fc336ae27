-- ===== src/Config/Loading.antt =====
-- config.py: `load_market_config`, over the value that `yaml.safe_load` returns for the file. A title, a
-- ticker or a term that is no text is kept as its `str`.
use augury.Prelude.{
  String, Bool, true, false, not, Option, none, some, List, [], ◌∷◌, map, if◌then◌else◌, Result, ok,
  err, value_error, type_error, ◌>>=◌, ◌>>◌, raise_if,
}
use augury.Prelude.Int.{pos}
use augury.Prelude.Keys.{◌==◌, string_key, nat_key}
use augury.Prelude.Float.{Float}
use augury.Prelude.Json.{
  Json, null, boolean, integer, decimal, text, array, object, end, nil, Builtins, get, get_or,
  truthy, or_json, iterate, str, to_float, entry, is_unhashable,
}
use augury.Models.{
  make_market, MarketQuery, all_terms, contains, Venue, kalshi, polymarket, open_status, market_id,
}
use augury.Signal.{AdaptiveDecayConfig}
use augury.Config.Tracked.{TrackedMarket, MarketConfig}

abbrev pub is_nil : List String → Bool
is_nil [] = true
is_nil (x ∷ xs) = false

-- `any(p(x) for x in xs)`
abbrev is_any : {A : Type 0} → (A → Bool) → List A → Bool
is_any p [] = false
is_any p (x ∷ xs) = if p x then true else is_any p xs

module _ {F : Type 0} ⦃d : Float F⦄ where
  -- `version == 1`
  unfoldable pub is_one : Json F → Bool
  is_one (integer (pos n)) = n == 1
  is_one (boolean b) = b
  is_one (decimal x) = d.eq x (d.lit 1 0)
  is_one _ = false

  abbrev pub is_object : Json F → Bool
  is_object (object fs) = true
  is_object _ = false

  or_missing : Option (Json F) → Result (Json F)
  or_missing none = err value_error
  or_missing (some v) = ok v

  -- `entry[key]`, with the KeyError turned into a ValueError
  unfoldable pub required : Json F → String → Result (Json F)
  unfolding or_missing
  required (object fs) key = or_missing (entry fs key)
  required _ key = err type_error

  -- `Venue(value)`
  unfoldable pub venue_of : Json F → Result Venue
  venue_of (text s) =
      if s == "kalshi"
      then ok kalshi
      else if s == "polymarket"
      then ok polymarket
      else err value_error
  venue_of _ = err value_error

  -- whether the `id` of an entry, when it gives one, is the expected one
  unfoldable pub id_matches : Json F → String → Bool
  id_matches given expected = if truthy given then is_that given else true
    where
      is_that : Json F → Bool
      is_that (text s) = s == expected
      is_that _ = false

module _ {F : Type 0} ⦃d : Float F⦄ ⦃py : Builtins F⦄ where
  -- `list(raw.get(key) or [])`
  unfoldable pub read_list : Json F → String → Result (List String)
  read_list raw key = do
    given ← get raw key
    values ← iterate (or_json given (array nil))
    ok (map str values)

  -- the same list of terms, each of which `all_terms` makes a key of a dict
  unfoldable pub read_terms : Json F → String → Result (List String)
  read_terms raw key = do
    given ← get raw key
    values ← iterate (or_json given (array nil))
    raise_if (is_any is_unhashable values) type_error
    ok (map str values)

  unfoldable pub read_query : Json F → String → Result MarketQuery
  unfolding read_list read_terms
  read_query raw mid = do
    keywords ← read_terms raw "keywords"
    tickers ← read_terms raw "tickers"
    entities ← read_terms raw "entities"
    aliases ← read_terms raw "aliases"
    exclude ← read_list raw "exclude"
    ok (record {
      market_id = mid;
      keywords = keywords;
      tickers = tickers;
      entities = entities;
      aliases = aliases;
      exclude = exclude;
    })

  -- `AdaptiveDecayConfig(...)` of a mapping, with what stands for the keys that it does not have
  unfoldable pub read_adaptive : Json F → AdaptiveDecayConfig F → Result (AdaptiveDecayConfig F)
  read_adaptive raw missing = do
    enabled ← get_or raw "enabled" (boolean missing.enabled)
    raw_min ← get_or raw "min_half_life_hours" (decimal missing.min_half_life_hours)
    min_half_life_hours ← to_float raw_min
    raw_multiple ← get_or raw "volume_surge_multiple" (decimal missing.volume_surge_multiple)
    volume_surge_multiple ← to_float raw_multiple
    raw_threshold ← get_or raw "price_move_threshold" (decimal missing.price_move_threshold)
    price_move_threshold ← to_float raw_threshold
    ok (record {
      enabled = truthy enabled;
      min_half_life_hours = min_half_life_hours;
      volume_surge_multiple = volume_surge_multiple;
      price_move_threshold = price_move_threshold;
    })

  -- `AdaptiveDecayConfig()`
  abbrev pub adaptive_defaults : AdaptiveDecayConfig F
  adaptive_defaults = record {
    enabled = true;
    min_half_life_hours = d.lit 5 1;
    volume_surge_multiple = d.lit 3 0;
    price_move_threshold = d.lit 5 2;
  }

  series_of : Json F → Option String
  series_of null = none
  series_of v = some (str v)

  abbrev pub entry_adaptive : Json F → AdaptiveDecayConfig F → Result (AdaptiveDecayConfig F)
  entry_adaptive raw adaptive = if truthy raw then read_adaptive raw adaptive else ok adaptive

  -- one turn of the loop over `markets`; `seen` are the ids of the entries before
  unfoldable pub load_entry :
      AdaptiveDecayConfig F → F → (seen : List String) → Json F → Result (TrackedMarket F)
  unfolding required venue_of id_matches read_query series_of
  load_entry adaptive default_half_life seen raw = do
    raw_venue ← required raw "venue"
    venue ← venue_of raw_venue
    raw_ticker ← required raw "ticker"
    title ← required raw "title"
    target ← required raw "target"
    let ticker = str raw_ticker
    let mid = market_id venue ticker
    given ← get raw "id"
    raise_if (not (id_matches given mid)) value_error
    raise_if (contains seen mid) value_error
    raw_query ← get raw "query"
    query ← read_query (or_json raw_query (object end)) mid
    raise_if (is_nil (all_terms query)) value_error
    raw_adaptive ← get raw "adaptive_decay"
    decay ← entry_adaptive raw_adaptive adaptive
    series_ticker ← get raw "series_ticker"
    market ← make_market (record {
      market_id = mid;
      venue = venue;
      ticker = ticker;
      title = str title;
      target = str target;
      series_ticker = series_of series_ticker;
      open_time = none;
      close_time = none;
      status = open_status;
      resolved_outcome = none;
      resolution_time = none;
      tracked = true;
    })
    raw_half_life ← get_or raw "half_life_hours" (decimal default_half_life)
    half_life_hours ← to_float raw_half_life
    ok (record {
      market = market;
      query = query;
      half_life_hours = half_life_hours;
      adaptive = decay;
    })

  unfoldable pub load_entries :
      AdaptiveDecayConfig F
      → F
      → (seen : List String) → List (Json F)
      → Result (List (TrackedMarket F))
  unfolding load_entry
  load_entries adaptive default_half_life seen [] = ok []
  load_entries adaptive default_half_life seen (raw ∷ raws) = do
    t ← load_entry adaptive default_half_life seen raw
    ts ← load_entries adaptive default_half_life (t.market.market_id ∷ seen) raws
    ok (t ∷ ts)

  unfoldable pub load_market_config : Json F → Result (MarketConfig F)
  unfolding is_one read_adaptive read_list load_entries
  load_market_config raw = do
    raise_if (not (is_object raw)) value_error
    version ← get raw "version"
    raise_if (not (is_one version)) value_error
    raw_defaults ← get raw "defaults"
    let defaults = or_json raw_defaults (object end)
    raw_adaptive ← get defaults "adaptive_decay"
    adaptive ← read_adaptive (or_json raw_adaptive (object end)) adaptive_defaults
    raw_half_life ← get_or defaults "half_life_hours" (decimal (d.lit 6 0))
    default_half_life ← to_float raw_half_life
    global_exclude ← read_list defaults "global_exclude"
    raw_markets ← get raw "markets"
    let entries = or_json raw_markets (array nil)
    raise_if (not (truthy entries)) value_error
    raws ← iterate entries
    markets ← load_entries adaptive default_half_life [] raws
    language ← get_or defaults "language" (text "en")
    ok (record {
      language = str language;
      half_life_hours = default_half_life;
      adaptive = adaptive;
      global_exclude = global_exclude;
      markets = markets;
    })
