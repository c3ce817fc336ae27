-- ===== src/Db/Series.antt =====
-- `market_prices`, `signals` and `sim_prices`.
use augury.Prelude.{
  ℕ, String, Bool, true, ◌&&◌, Option, none, some, List, map, leb, ltb, filter, length, get_last?,
}
use augury.Prelude.Keys.{◌==◌, string_key, pair_key, nat_key}
use augury.Models.{DateTime, SignalPoint, PriceTick, SimTick, PriceSource, candle, book}
use augury.Db.Table.{upsert, upsert_all, sort_by}
use augury.Db.Rows.{Database, price_key, signal_key, sim_key}
use augury.Db.Posts.{or_now}

abbrev same_source : PriceSource → PriceSource → Bool
same_source candle candle = true
same_source book book = true
same_source _ _ = Bool.false

abbrev source_ok : Option PriceSource → PriceSource → Bool
source_ok none s = true
source_ok (some q) s = same_source q s

abbrev since_ok : Option DateTime → DateTime → Bool
since_ok none t = true
since_ok (some s) t = leb s t

module _ {F : Type 0} where
  abbrev pub price_row : DateTime → PriceTick F → PriceTick F
  price_row now t = record t { fetched_at = or_now now t.fetched_at }

  -- the SET list leaves `fetched_at` alone
  abbrev pub merge_price : PriceTick F → PriceTick F → PriceTick F
  merge_price old new = record new { fetched_at = old.fetched_at }

  unfoldable pub insert_price_ticks : DateTime → List (PriceTick F) → Database F → ℕ × Database F
  insert_price_ticks now ticks db =
      let rows = map (price_row now) ticks in
      (
        length rows,
        record db { market_prices = upsert_all price_key merge_price rows db.market_prices },
      )

  -- `computed_at` is the database's time, whatever the point carries
  abbrev pub signal_row : DateTime → SignalPoint F → SignalPoint F
  signal_row now p = record p { computed_at = some now }

  unfoldable pub insert_signal : DateTime → SignalPoint F → Database F → Database F
  insert_signal now p db = record db {
    signals = upsert signal_key (λ old new. new) (signal_row now p) db.signals;
  }

  -- `trade_size` and `signal` have no column
  abbrev pub sim_row : SimTick F → SimTick F
  sim_row t = record t { trade_size = none; signal = none }

  unfoldable pub insert_sim_ticks : List (SimTick F) → Database F → ℕ × Database F
  insert_sim_ticks ticks db =
      let rows = map sim_row ticks in
      (
        length rows,
        record db { sim_prices = upsert_all sim_key (λ old new. new) rows db.sim_prices },
      )

  unfoldable pub price_series :
      String → Option DateTime → Option PriceSource → Database F → List (PriceTick F)
  price_series mid since source db =
      sort_by (λ a b. ltb a.ts b.ts)
        (filter (λ t. t.market_id == mid && since_ok since t.ts && source_ok source t.source)
          db.market_prices)

  unfoldable pub signal_series :
      String → String → Option DateTime → Database F → List (SignalPoint F)
  signal_series mid version since db =
      sort_by (λ a b. ltb a.ts b.ts)
        (filter (λ p. p.market_id == mid && p.model_version == version && since_ok since p.ts)
          db.signals)

  -- ORDER BY ts DESC LIMIT 1
  unfoldable pub latest_signal : String → String → Database F → Option (SignalPoint F)
  unfolding signal_series
  latest_signal mid version db = get_last? (signal_series mid version none db)
