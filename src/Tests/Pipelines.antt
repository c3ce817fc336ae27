-- ===== src/Tests/Pipelines.antt =====
-- The pipeline.
use augury.Prelude.{
  suc, ◌+◌, ◌*◌, ◌≡◌, ◌≢◌, refl, none, some, List, [], ◌∷◌, arith, filter, All, leb, if◌then◌else◌,
  Result, ok, err, http_error,
}
use augury.Prelude.Int.{ℤ, pos}
use augury.Prelude.Micro.{micro}
use augury.Models.{DateTime, Market, PriceTick, SignalPoint}
use augury.Db.{Database, position, merge_position, open_markets_past_close, upsert_market}
use augury.Pipeline.{
  bars, get_elem?, book_at, book_snapshots, simulate_lmsr, settle_position, paid_out, not_settled,
  payout_of, closing, resolve_fresh,
}
use augury.Pipeline.Grid.{get_elem?-bars}
use augury.Pipeline.Lookahead.{simulate_lmsr-up_to}
use augury.Pipeline.Settling.{settle_position-once}
use augury.Pipeline.Once.{resolve_fresh-once}
use augury.Tests.Data.{cpi, two_markets, stored, fed_settled, held, tick, signal, noon}

get_elem?-bars_example :
    get_elem? (bars (suc 19) 3 19 5) 3 ≡ (if leb (3 + 3 * 5) 19 then some (3 + 3 * 5) else none)
get_elem?-bars_example = get_elem?-bars 3 19 5 3 (omega arith)

abbrev books : List (PriceTick ℤ)
books = tick 5 (pos 450_000) ∷ tick 8 (pos 470_000) ∷ []

abbrev signals : List (SignalPoint ℤ)
signals = signal 6 ∷ signal 7 ∷ []

simulate_lmsr-up_to_example :
    simulate_lmsr signals
      (filter (λ (t : PriceTick ℤ). leb t.ts 7) books)
      "live"
      (pos 350_000)
      (some (pos 500_000))
    ≡ simulate_lmsr signals books "live" (pos 350_000) (some (pos 500_000))
unfolding book_snapshots book_at augury.Signal.Bisect.bisect_right augury.Db.sort_by
simulate_lmsr-up_to_example =
    simulate_lmsr-up_to "live" (pos 350_000) signals books (pos 500_000) 7
      ((omega arith, refl), ((omega arith, refl), tt))

settle_position-once_example :
    let payout = payout_of held.qty_yes held.qty_no (pos 1) in
    let (result, db') = settle_position fed_settled 20 "signal_v1" stored in
    (result ≡ ok (paid_out payout))
    × (position fed_settled.market_id "signal_v1" db'
        ≡ some
            (merge_position held (closing fed_settled "signal_v1" held.qty_yes held.qty_no payout)))
    × (settle_position fed_settled 30 "signal_v1" db' ≡ (ok not_settled, db'))
unfolding position
settle_position-once_example =
    settle_position-once fed_settled 20 30 "signal_v1" (pos 1) held stored refl refl refl

abbrev fetch : Market → Result Market
fetch m = err http_error

abbrev mean : List ℤ → ℤ
mean xs = pos 0

resolve_fresh-once_example : All (λ (q : Market). q.market_id ≢ fed_settled.market_id) (cpi ∷ [])
unfolding open_markets_past_close resolve_fresh augury.Db.sort_by augury.Db.insert_by
    augury.Db.upsert augury.Models.make_market
resolve_fresh-once_example =
    resolve_fresh-once mean fetch "kalshi:FED" fed_settled 20 noon two_markets (cpi ∷ []) refl
      (refl, (refl, tt)) refl
