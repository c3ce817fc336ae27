-- ===== src/Db/Markets.antt =====
-- `markets` and `market_queries`: upsert_market, replace_market_queries and the reads.
use augury.Prelude.{
  ℕ, String, Bool, false, not, ◌&&◌, Option, none, some, List, ◌++◌, map, leb, ltb, filter, length,
  Result, ok, ◌>>=◌,
}
use augury.Prelude.Keys.{◌==◌, string_key, pair_key, nat_key}
use augury.Models.{DateTime, Market, make_market, is_settled, MarketQuery}
use augury.Db.Table.{find_row, upsert, upsert_all, sort_by, traverse, delete_where, text_before}
use augury.Db.Rows.{
  MarketRow, TermType, keyword, ticker, entity, alias, exclude, QueryRow, Database, market_key,
  query_key,
}

-- the SET list of `upsert_market`: what it does not name keeps its old value
abbrev pub merge_market : MarketRow → MarketRow → MarketRow
merge_market old new = record {
  market = record old.market {
    title = new.market.title;
    target = new.market.target;
    close_time = new.market.close_time;
    status = new.market.status;
    resolved_outcome = new.market.resolved_outcome;
    resolution_time = new.market.resolution_time;
    tracked = new.market.tracked;
  };
  updated_at = new.updated_at;
}

-- `_market_from_row`: the constructor checks the row
abbrev pub market_from_row : MarketRow → Result Market
market_from_row r = make_market r.market

-- the rows of one list of terms
abbrev pub term_rows : String → TermType → List String → List QueryRow
term_rows mid type = map (λ t. record { market_id = mid; term_type = type; term = t })

abbrev pub query_rows : MarketQuery → List QueryRow
query_rows q =
    term_rows q.market_id keyword q.keywords
    ++ (term_rows q.market_id ticker q.tickers
        ++ (term_rows q.market_id entity q.entities
            ++ (term_rows q.market_id alias q.aliases ++ term_rows q.market_id exclude q.exclude)))

abbrev close_of : MarketRow → Option DateTime
close_of r = r.market.close_time

-- `close_time IS NOT NULL AND close_time <= now`
abbrev pub is_past : Option DateTime → DateTime → Bool
is_past none now = false
is_past (some t) now = leb t now

-- ORDER BY close_time
abbrev pub closes_before : MarketRow → MarketRow → Bool
closes_before r s = both r.market.close_time s.market.close_time
  where
    both : Option DateTime → Option DateTime → Bool
    both (some a) (some b) = ltb a b
    both _ _ = false

-- the WHERE clause of `open_markets_past_close`
abbrev pub is_due : DateTime → MarketRow → Bool
is_due now r =
    r.market.tracked && not (is_settled r.market.status) && is_past r.market.close_time now

module _ {F : Type 0} where
  -- `now` is the time of the transaction
  unfoldable pub upsert_market : DateTime → Market → Database F → Database F
  upsert_market now m db = record db {
    markets = upsert market_key merge_market (record { market = m; updated_at = now }) db.markets;
  }

  -- Delete-then-insert; ON CONFLICT DO NOTHING keeps the first of two equal rows.
  unfoldable pub replace_market_queries : MarketQuery → Database F → ℕ × Database F
  replace_market_queries q db =
      let rows = query_rows q in
      let others = delete_where (λ r. r.market_id == q.market_id) db.market_queries in
      (
        length rows,
        record db { market_queries = upsert_all query_key (λ old new. old) rows others },
      )

  unfoldable pub get_market : String → Database F → Result (Option Market)
  get_market mid db = elim (find_row market_key mid db.markets) [
    | none ↦ ok none
    | some r ↦ do m ← market_from_row r; ok (some m)
  ]

  unfoldable pub tracked_markets : Database F → Result (List Market)
  tracked_markets db = traverse market_from_row (
      sort_by (λ r s. text_before (market_key r) (market_key s))
        (filter (λ r. r.market.tracked) db.markets))

  unfoldable pub open_markets_past_close : DateTime → Database F → Result (List Market)
  open_markets_past_close now db =
      traverse market_from_row (sort_by closes_before (filter (is_due now) db.markets))
