-- ===== src/Tests/Data.antt =====
-- Sample records.
use augury.Prelude.{String, true, false, none, some, [], ◌∷◌}
use augury.Prelude.Int.{ℤ, pos}
use augury.Prelude.Micro.{micro}
use augury.Models.{
  DateTime, Market, kalshi, open_status, settled, Post, accepted, Stance, SignalPoint, PriceTick,
  book, MarketQuery,
}
use augury.Db.{Database, Position}
use augury.Budget.{ReadBudget, File, counters}
use augury.Signal.{Contribution}

abbrev pub noon : DateTime
noon = 2_592_000_000_000

abbrev pub fed : Market
fed = record {
  market_id = "kalshi:FED";
  venue = kalshi;
  ticker = "FED";
  title = "Rates";
  target = "The Fed cuts";
  series_ticker = none;
  open_time = none;
  close_time = some noon;
  status = open_status;
  resolved_outcome = none;
  resolution_time = none;
  tracked = true;
}

abbrev pub fed_settled : Market
fed_settled = record fed { status = settled; resolved_outcome = some (pos 1) }

abbrev pub query : MarketQuery
query = record {
  market_id = "kalshi:FED";
  keywords = "rate cut" ∷ "fed" ∷ [];
  tickers = "FED" ∷ [];
  entities = "fed" ∷ [];
  aliases = [];
  exclude = "spam" ∷ [];
}

abbrev pub post : String → DateTime → Post
post id at = record {
  post_id = id;
  market_id = "kalshi:FED";
  created_at = at;
  text = "cut";
  author_id = none;
  author_created_at = none;
  followers = pos 10;
  engagements = pos 2;
  lang = none;
  ingested_at = none;
  minhash = none;
  lsh_bucket = none;
  filter_verdict = accepted;
  filter_reason = none;
  source = "x";
}

abbrev pub stance : String → DateTime → Stance ℤ
stance id at = record {
  post_id = id;
  market_id = "kalshi:FED";
  created_at = at;
  model_version = "vader-1";
  stance = pos 500_000;
  confidence = pos 500_000;
  disagreement = none;
}

abbrev pub tick : DateTime → ℤ → PriceTick ℤ
tick at price = record {
  market_id = "kalshi:FED";
  ts = at;
  source = book;
  yes_price = some price;
  yes_bid = some (pos 400_000);
  yes_ask = some (pos 600_000);
  spread = none;
  depth_bid = some (pos 40_000_000);
  depth_ask = some (pos 60_000_000);
  volume = none;
  fetched_at = none;
}

abbrev pub signal : DateTime → SignalPoint ℤ
signal at = record {
  market_id = "kalshi:FED";
  ts = at;
  model_version = "vader-1";
  s_t = pos 200_000;
  n_posts = 2;
  weight_sum = pos 3_000_000;
  half_life_seconds = pos 3_600_000_000;
  p_hat = none;
  calibration = none;
  computed_at = none;
}

abbrev pub empty : Database ℤ
empty = record {
  markets = [];
  market_queries = [];
  posts = [];
  stances = [];
  signals = [];
  market_prices = [];
  sim_prices = [];
  ledger_fills = [];
  positions = [];
  scores = [];
  granger_results = [];
  read_budget = [];
}

abbrev pub held : Position ℤ
held = record {
  market_id = "kalshi:FED";
  strategy = "signal_v1";
  qty_yes = pos 3_000_000;
  qty_no = pos 0;
  cash = pos 0;
  realized_pnl = pos 0;
  settled = false;
}

abbrev pub stored : Database ℤ
stored = record empty {
  markets = record { market = fed; updated_at = 0 } ∷ [];
  posts = post "a" 5 ∷ post "b" 9 ∷ [];
  signals = signal 5 ∷ [];
  market_prices = tick 5 (pos 500_000) ∷ [];
  positions = held ∷ [];
}

abbrev pub contribution : DateTime → Contribution ℤ
contribution at = record {
  created_at = at;
  stance = pos 500_000;
  followers = pos 10;
  engagements = pos 2;
  weight_override = none;
}

abbrev pub hundred : ReadBudget
hundred = record { max_daily_reads = pos 100; service = "x" }

abbrev pub ledger : File
ledger = counters (("2026-11-25:x", pos 40) ∷ [])

abbrev pub cpi : Market
cpi = record fed { market_id = "kalshi:CPI"; ticker = "CPI" }

abbrev pub two_markets : Database ℤ
two_markets = record stored {
  markets = record { market = fed; updated_at = 0 } ∷ record { market = cpi; updated_at = 0 } ∷ [];
}
