-- ===== src/Tests/Samples.antt =====
-- Sample answers of the venues, a sample configuration, and simple stand-ins for third-party code.
use augury.Prelude.{
  ℕ, String, true, false, none, some, List, [], ◌∷◌, if◌then◌else◌, Result, ok, err, http_error,
  map,
}
use augury.Prelude.Int.{ℤ, pos}
use augury.Prelude.Keys.{◌==◌, string_key}
use augury.Prelude.Micro.{micro}
use augury.Prelude.Json.{
  Json, Fields, boolean, integer, text, array, object, nil, cons, end, field, Builtins,
}
use augury.Analytics.{Statistics}
use augury.Bus.{Broker}
use augury.Config.{Settings, TrackedMarket}
use augury.Tests.Columns.{dropna, shift, paired}
use augury.Models.{kalshi, open_status}
use augury.Signal.{StanceModel}

-- texts are in lower case and stripped already, and two of them are numbers
instance abbrev pub plain : Builtins ℤ
plain = record {
  strip = λ s. s;
  lower = λ s. s;
  float_of = λ s.
      if s == "0.41" then some (pos 410_000) else if s == "0.43" then some (pos 430_000) else none;
  int_of = λ s. none;
  truncate = λ x. ok (pos 0);
  repr = λ v. "";
  loads = λ s. ok none;
  fromisoformat = λ s. if s == "noon" then some 800_000_000_000_000 else none;
  equal = λ v w. false;
}

abbrev pub J : Type 0
J = Json ℤ

abbrev pub one_field : String → J → J
one_field key value = object (field key value end)

abbrev pub kalshi_more : Fields ℤ
kalshi_more = field "status" (text "settled") (field "result" (text "yes") end)

abbrev pub kalshi_market : J
kalshi_market = one_field "market" (object (field "title" (text "Rates") kalshi_more))

abbrev pub token_fields : Fields ℤ
token_fields = field "outcomes" (array (cons (text "no") (cons (text "yes") nil))) (
    field "clobTokenIds" (array (cons (text "71") (cons (text "82") nil))) (
      field "closed" (boolean true)
        (field "outcomePrices" (array (cons (text "0.43") (cons (integer (pos 1)) nil))) end)))

abbrev pub level : String → ℕ → J
level price size = object (field "price" (text price) (field "size" (integer (pos size)) end))

abbrev pub clob_book : J
clob_book = object (
    field "bids" (array (cons (level "0.41" 5) nil))
      (field "asks" (array (cons (level "0.43" 7) nil)) end))

-- one market, with one keyword
abbrev pub yaml_entry : J
yaml_entry = object (
    field "venue" (text "kalshi") (
      field "ticker" (text "FED") (
        field "title" (text "Rates") (
          field "target" (text "The Fed cuts")
            (field "query" (one_field "keywords" (array (cons (text "fed") nil))) end)))))

abbrev pub yaml : J
yaml =
    object (field "version" (integer (pos 1)) (field "markets" (array (cons yaml_entry nil)) end))

abbrev pub bars : J
bars = one_field "candlesticks" (
    array (
      cons (object (field "end_period_ts" (integer (pos 7200)) end))
        (cons (object (field "end_period_ts" (integer (pos 3600)) end)) nil)))

abbrev pub unreachable : String → List (String × J) → Result J
unreachable url params = err http_error

abbrev pub statistics : Statistics ℤ
statistics = record {
  adfuller = λ xs regression. ok (pos 0, pos 10_000, 0, 20);
  select_order = λ frame usable criterion. ok (pos usable);
  granger = λ frame lag. ok (pos 2_000_000, pos 30_000);
  corr = λ pairs. pos 500_000;
  dropna = dropna;
  shift = shift;
  paired = paired;
  multipletests = λ xs alpha. ok xs;
}

abbrev pub broker : Broker ℤ
broker = record {
  from_url = λ url. ok tt;
  ping = ok true;
  publish = λ channel payload. ok tt;
  close = ok tt;
  load_schema = λ name. none;
  has_jsonschema = true;
  is_valid = λ payload schema. true;
}

abbrev pub settings : Settings ℤ
settings = record {
  database_url = "";
  redis_url = "";
  kalshi_base_url = "https://kalshi";
  polymarket_gamma_url = "https://gamma";
  polymarket_clob_url = "https://clob";
  x_bearer_token = none;
  x_live = false;
  max_daily_reads = pos 2000;
  half_life_hours = pos 6_000_000;
  min_half_life_hours = pos 500_000;
  stance_model = "vader";
  stance_model_name = "";
  stance_device = "cpu";
  log_level = "info";
}

-- every text is neutral
abbrev pub neutral : StanceModel ℤ
neutral = record {
  model_version = "v1";
  score = λ texts target. ok (map (λ t. record { stance = pos 0; confidence = pos 0 }) texts);
}

abbrev pub tracked : TrackedMarket ℤ
tracked = record {
  market = record {
    market_id = "kalshi:FED";
    venue = kalshi;
    ticker = "FED";
    title = "Rates";
    target = "The Fed cuts";
    series_ticker = none;
    open_time = none;
    close_time = none;
    status = open_status;
    resolved_outcome = none;
    resolution_time = none;
    tracked = true;
  };
  query = record {
    market_id = "kalshi:FED";
    keywords = "fed" ∷ [];
    tickers = [];
    entities = [];
    aliases = [];
    exclude = [];
  };
  half_life_hours = pos 6_000_000;
  adaptive = record {
    enabled = true;
    min_half_life_hours = pos 500_000;
    volume_surge_multiple = pos 3_000_000;
    price_move_threshold = pos 50_000;
  };
}
