-- ===== src/Pipeline/Watcher.antt =====
-- pipeline/steps.py: `resolve_markets`; a log line is not modelled. `fetch` is the venue client's
-- `get_market`, of the market's venue, ticker and target; `now` is the time of each transaction.
use augury.Prelude.{
  String, not, none, some, List, [], ◌∷◌, if◌then◌else◌, Result, ok, err, ◌>>=◌, Exec,
}
use augury.Prelude.Int.{ℤ}
use augury.Prelude.Float.{Float}
use augury.Models.{DateTime, Market, MarketStatus, is_settled}
use augury.Db.{Database, upsert_market, open_markets_past_close}
use augury.Pipeline.Resolution.{freeze_scores}
use augury.Pipeline.Payout.{Settlement, settle_position}

-- an element of the list that `resolve_markets` returns
pub data Outcome (F : Type 0) : Type 0 where
  pending : String → MarketStatus → Outcome F
  resolved : String → ℤ → List (String × F) → Settlement F → Outcome F

module _ {F : Type 0} ⦃d : Float F⦄ (np_mean : List F → F) (fetch : Market → Result Market) where
  -- freeze the scores, then settle the position: the writes before an exception stay
  unfoldable pub close_market : String → Market → DateTime → ℤ → Exec (Database F) (Outcome F)
  unfolding freeze_scores settle_position
  close_market mid fresh now outcome db =
      let (scored, db') = freeze_scores np_mean fresh db in
      let (settled, db'') = settle_position fresh now "signal_v1" db' in
      elim scored [
        | err e ↦ (err e, db')
        | ok s ↦ ((do p ← settled; ok (resolved mid outcome s p)), db'')
      ]

  -- the body of the loop, once the venue has answered
  unfoldable pub resolve_fresh : String → Market → DateTime → Exec (Database F) (Outcome F)
  unfolding close_market upsert_market
  resolve_fresh mid fresh now db =
      let stored = upsert_market now fresh db in
      if not (is_settled fresh.status)
      then (ok (pending mid fresh.status), stored)
      else elim fresh.resolved_outcome [
        | none ↦ (ok (pending mid fresh.status), stored)
        | some outcome ↦ close_market mid fresh now outcome stored
      ]

  -- the loop over the queue: a market whose fetch fails is passed over
  unfoldable pub resolve_all : List Market → DateTime → Exec (Database F) (List (Outcome F))
  unfolding resolve_fresh
  resolve_all [] now db = (ok [], db)
  resolve_all (m ∷ ms) now db =
      let skipped = resolve_all ms now db in
      elim (fetch m) [
        | err e ↦ skipped
        | ok fresh ↦
            let (one, db') = resolve_fresh m.market_id fresh now db in
            let (rest, db'') = resolve_all ms now db' in
            elim one [ err e ↦ (err e, db') | ok o ↦ ((do os ← rest; ok (o ∷ os)), db'') ]
      ]

  unfoldable pub resolve_markets : DateTime → Exec (Database F) (List (Outcome F))
  unfolding resolve_all open_markets_past_close
  resolve_markets now db = elim (open_markets_past_close now db) [
    | err e ↦ (err e, db)
    | ok queue ↦ resolve_all queue now db
  ]
