-- ===== src/Db/Ledger.antt =====
-- `scores`, `granger_results`, the paper ledger and the read budget.
use augury.Prelude.{
  ℕ, String, Bool, true, not, ◌&&◌, ◌||◌, Option, none, some, List, [], ◌∷◌, ◌++◌, if◌then◌else◌,
  filter, length, ltb,
}
use augury.Prelude.Int.{ℤ, pos, ◌+ℤ◌}
use augury.Prelude.Float.{Float}
use augury.Prelude.Keys.{◌==◌, string_key, pair_key, nat_key}
use augury.Models.{DateTime, SignalPoint, is_settled}
use augury.Db.Table.{find_row, upsert, upsert_all, sort_by, text_before}
use augury.Db.Rows.{
  MarketRow, ScoreRow, FillRow, Position, GrangerRow, BudgetRow, Database, market_key, position_key,
  granger_key, budget_key,
}

-- `s.ts <= m.close_time`, or the market has no close time
abbrev before_close : Option DateTime → DateTime → Bool
before_close none t = true
before_close (some c) t = not (ltb c t)

module _ {F : Type 0} where
  unfoldable pub record_score : ScoreRow F → Database F → Database F
  record_score row db = record db { scores = db.scores ++ (row ∷ []) }

  -- the latest of the signals: DISTINCT ON with ORDER BY ts DESC
  abbrev later : Option (SignalPoint F) → SignalPoint F → Option (SignalPoint F)
  later none p = some p
  later (some q) p = if ltb q.ts p.ts then some p else some q

  latest_of : Option (SignalPoint F) → List (SignalPoint F) → Option (SignalPoint F)
  latest_of best [] = best
  latest_of best (p ∷ ps) = latest_of (later best p) ps

  abbrev pair_up : Option (SignalPoint F) → Option ℤ → List (F × ℤ) → List (F × ℤ)
  pair_up (some p) (some o) rest = (p.s_t, o) ∷ rest
  pair_up _ _ rest = rest

  pairs_of : String → List (SignalPoint F) → List MarketRow → List (F × ℤ)
  unfolding latest_of
  pairs_of version signals [] = []
  pairs_of version signals (r ∷ rs) =
      let rest = pairs_of version signals rs in
      if is_settled r.market.status
      then pair_up
          (latest_of none (
            filter
              (λ p.
                p.market_id == r.market.market_id
                && p.model_version == version
                && before_close r.market.close_time p.ts)
              signals))
          r.market.resolved_outcome rest
      else rest

  -- One pair (s_t, outcome) for each settled market that has a signal before its close.
  unfoldable pub resolved_signal_pairs : String → Database F → List (F × ℤ)
  unfolding pairs_of
  resolved_signal_pairs version db =
      pairs_of version db.signals
        (sort_by (λ r s. text_before (market_key r) (market_key s)) db.markets)

  abbrev pub merge_granger : GrangerRow F → GrangerRow F → GrangerRow F
  merge_granger old new = record old {
    p_value = new.p_value;
    p_value_adj = new.p_value_adj;
    significant = new.significant;
  }

  unfoldable pub record_granger_results : List (GrangerRow F) → Database F → ℕ × Database F
  record_granger_results rows db = (
    length rows,
    record db { granger_results = upsert_all granger_key merge_granger rows db.granger_results },
  )

  unfoldable pub record_fill : FillRow F → Database F → Database F
  record_fill row db = record db { ledger_fills = db.ledger_fills ++ (row ∷ []) }

  unfoldable pub position : String → String → Database F → Option (Position F)
  position mid strategy db = find_row position_key (mid, strategy) db.positions

module _ {F : Type 0} ⦃d : Float F⦄ where
  -- the SET list of `apply_fill_to_position`: the deltas are added to the row
  abbrev pub merge_position : Position F → Position F → Position F
  merge_position old new = record old {
    qty_yes = d.add old.qty_yes new.qty_yes;
    qty_no = d.add old.qty_no new.qty_no;
    cash = d.add old.cash new.cash;
    realized_pnl = d.add old.realized_pnl new.realized_pnl;
    settled = old.settled || new.settled;
  }

  unfoldable pub apply_fill_to_position : Position F → Database F → Database F
  apply_fill_to_position delta db = record db {
    positions = upsert position_key merge_position delta db.positions;
  }

  unfoldable pub open_positions : String → Database F → List (Position F)
  open_positions strategy db =
      sort_by (λ p q. text_before p.market_id q.market_id)
        (filter
          (λ p.
            p.strategy == strategy
            && not p.settled
            && (not (d.eq p.qty_yes (d.lit 0 0)) || not (d.eq p.qty_no (d.lit 0 0))))
          db.positions)

abbrev pub reads_of : Option BudgetRow → ℤ
reads_of none = pos 0
reads_of (some r) = r.reads_used

abbrev pub merge_budget : BudgetRow → BudgetRow → BudgetRow
merge_budget old new = record old { reads_used = old.reads_used +ℤ new.reads_used }

module _ {F : Type 0} (today : ℕ) (service : String) where
  unfoldable pub budget_used_today : Database F → ℤ
  budget_used_today db = reads_of (find_row budget_key (today, service) db.read_budget)

  -- RETURNING reads_used
  unfoldable pub budget_record : ℤ → Database F → ℤ × Database F
  unfolding budget_used_today
  budget_record reads db =
      let row : BudgetRow = record { day = today; service = service; reads_used = reads } in
      let db' = record db { read_budget = upsert budget_key merge_budget row db.read_budget } in
      (budget_used_today db', db')
