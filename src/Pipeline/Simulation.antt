-- ===== src/Pipeline/Simulation.antt =====
-- pipeline/steps.py: `simulate_lmsr`.
use augury.Prelude.{
  String, Option, none, some, List, [], ◌∷◌, map, if◌then◌else◌, ltb, get_last?, Result, ok, ◌>>=◌,
}
use augury.Prelude.Float.{Float}
use augury.Models.{DateTime, SignalPoint, PriceTick, SimTick, mid}
use augury.Engine.{
  LmsrMarket, make_market, move_to_price, recalibrate, step_from_signal, price, cost_value,
  calibrate_b_from_depth, mean,
}
use augury.Db.{sort_by}
use augury.Pipeline.Lookup.{book_at, book_snapshots}

module _ {F : Type 0} ⦃d : Float F⦄ where
  unfoldable pub calibrate : Option (PriceTick F) → Result F
  unfolding calibrate_b_from_depth
  calibrate none = calibrate_b_from_depth none none none none mean (d.lit 100 0)
  calibrate (some book) =
      calibrate_b_from_depth book.depth_bid book.depth_ask book.yes_bid book.yes_ask mean
        (d.lit 100 0)

  -- the market with the liquidity of the book at the step, when there is one
  unfoldable pub follow_book : Option (PriceTick F) → LmsrMarket F → Result (LmsrMarket F)
  unfolding calibrate recalibrate
  follow_book none market = ok market
  follow_book (some book) market = do
    new_b ← calibrate (some book)
    if d.eq new_b market.b then ok market else recalibrate new_b market

  abbrev pub target_of : SignalPoint F → F
  target_of point = elim point.p_hat [
    | none ↦ d.div (d.add point.s_t (d.lit 1 0)) (d.lit 2 0)
    | some p ↦ p
  ]

  -- one turn of the loop: the tick, and the market after it
  unfoldable pub sim_step :
      String
      → F
      → List (PriceTick F)
      → SignalPoint F
      → LmsrMarket F
      → Result (SimTick F × LmsrMarket F)
  unfolding follow_book step_from_signal price cost_value book_at
  sim_step run_id responsiveness books point market = do
    followed ← follow_book (book_at books (map (λ t. t.ts) books) point.ts) market
    ((shares, _), after) ← step_from_signal (target_of point) responsiveness none followed
    p ← price after
    c ← cost_value after
    let tick : SimTick F = record {
      market_id = point.market_id;
      ts = point.ts;
      sim_price = p;
      b = after.b;
      q_yes = after.q_yes;
      q_no = after.q_no;
      run_id = run_id;
      cost = some c;
      trade_size = some shares;
      signal = some point.s_t;
    }
    ok (tick, after)

  unfoldable pub sim_loop :
      String
      → F
      → List (PriceTick F)
      → List (SignalPoint F)
      → LmsrMarket F
      → Result (List (SimTick F))
  unfolding sim_step
  sim_loop run_id responsiveness books [] market = ok []
  sim_loop run_id responsiveness books (point ∷ points) market = do
    (tick, after) ← sim_step run_id responsiveness books point market
    ticks ← sim_loop run_id responsiveness books points after
    ok (tick ∷ ticks)

  -- `_book_at(...) or (books[0] if books else None)`
  unfoldable pub opening_book : List (PriceTick F) → DateTime → Option (PriceTick F)
  unfolding book_at
  opening_book books at = or_first (book_at books (map (λ t. t.ts) books) at) books
    where
      or_first : Option (PriceTick F) → List (PriceTick F) → Option (PriceTick F)
      or_first (some b) bs = some b
      or_first none [] = none
      or_first none (b ∷ bs) = some b

  or_half : Option F → F
  or_half none = d.lit 5 1
  or_half (some m) = m

  mid_of : Option (PriceTick F) → Option F
  mid_of none = none
  mid_of (some book) = mid book

  -- the price that the market is anchored to
  unfoldable pub anchor_of : Option F → List (PriceTick F) → F
  unfolding or_half mid_of
  anchor_of (some p) books = p
  anchor_of none books = or_half (mid_of (get_last? books))

  -- the function after its two sorts
  unfoldable pub simulate_from :
      String → F → Option F → List (PriceTick F) → List (SignalPoint F) → Result (List (SimTick F))
  unfolding opening_book calibrate make_market anchor_of move_to_price sim_loop
  simulate_from run_id responsiveness initial_price books [] = ok []
  simulate_from run_id responsiveness initial_price books (point ∷ points) = do
    b ← calibrate (opening_book books point.ts)
    opened ← make_market b
    (_, anchored) ← move_to_price (anchor_of initial_price books) opened
    sim_loop run_id responsiveness books (point ∷ points)
        (record anchored { realized_cost = d.lit 0 0 })

  unfoldable pub simulate_lmsr :
      List (SignalPoint F) → List (PriceTick F) → String → F → Option F → Result (List (SimTick F))
  unfolding simulate_from book_snapshots sort_by
  simulate_lmsr signals price_ticks run_id responsiveness initial_price =
      simulate_from run_id responsiveness initial_price (book_snapshots price_ticks)
        (sort_by (λ a b. ltb a.ts b.ts) signals)
