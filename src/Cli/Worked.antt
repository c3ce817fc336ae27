-- ===== src/Cli/Worked.antt =====
-- cli.py: what a turn of `cmd_refresh` leaves for the scoring step.
use augury.Prelude.{
  ℕ, String, Bool, true, false, ◌≡◌, refl, sym, ap, ◌∙◌, Option, none, List, Result, ok,
  Result-cases, Bool-cases, inl, inr, Exec, All, IsPost-ok, >>=-eq-ok,
}
use augury.Prelude.Int.{pos}
use augury.Prelude.Keys.{string_key, nat_key, pair_key}
use augury.Prelude.Float.{Float}
use augury.Prelude.Json.{Json, Builtins}
use augury.Models.{DateTime, Post, Stance, PriceTick, SignalPoint, SimTick, affine}
use augury.Config.{Settings, TrackedMarket, MarketConfig}
use augury.Db.{
  Database, insert_price_ticks, insert_posts, insert_stances, insert_sim_ticks, unscored_posts,
}
use augury.Db.Backlog.{covers}
use augury.Bus.{Broker}
use augury.Pipeline.{
  ScoringModel, version_of, score_posts, build_signal_series, simulate_lmsr, poll_prices,
  ingest_posts,
}
use augury.Slice.{World, Clocks, signal_of, insert_signals}
use augury.Slice.Persisted.{insert_signals-tables, unscored_posts-unlisted}
use augury.Pipeline.Covered.{has_key, score_posts-covers}
use augury.Cli.Cycle.{
  Line, Sinks, store_sim, store_signals, store_stances, store_found, refresh_market,
}

module _ {F : Type 0} where
  -- the two tables of the scoring step
  abbrev SameWork : Database F → Database F → Type 0
  SameWork db db' = (db'.posts ≡ db.posts) × (db'.stances ≡ db.stances)

  -- the posts are covered by stances that were stored last of all in those tables
  abbrev IsWorked : String → List Post → Database F → Type 0
  IsWorked version posts db =
      (now : DateTime) × (ss : List (Stance F)) × (before : Database F) × SameWork
        (insert_stances now ss before).1 db
      × All (λ p. covers version ss p ≡ true) posts

module _ {F : Type 0} ⦃d : Float F⦄ (broker : Broker F) (utc_text : DateTime → String)
    (clocks : Clocks) (up : Bool) (t : TrackedMarket F) where
  store_sim-SameWork :
      (signals : List (SignalPoint F)) (sim : List (SimTick F)) (w : Sinks F)
      → SameWork w.db (Sinks.db (store_sim broker utc_text clocks up t signals sim w).1)
  unfolding store_sim insert_sim_ticks
  store_sim-SameWork signals sim w = elim (Bool-cases up) [
    | inl answered ↦ rw answered (refl, refl)
    | inr silent ↦ rw silent (refl, refl)
  ]

  store_signals-SameWork :
      (ticks : List (PriceTick F)) (signals : List (SignalPoint F)) (w : Sinks F)
      → SameWork w.db (Sinks.db (store_signals broker utc_text clocks up t ticks signals w).1)
  unfolding store_signals
  store_signals-SameWork ticks signals w =
      let w₁ : Sinks F = record w { db = insert_signals clocks.transactions 3 signals w.db } in
      let first = insert_signals-tables clocks.transactions 3 signals w.db in
      elim (Result-cases (simulate_lmsr signals ticks "live" (d.lit 35 2) none)) [
        | inl (e, h) ↦ rw (h, store_signals) first
        | inr (sim, h) ↦
            let last = store_sim-SameWork signals sim w₁ in
            rw (h, store_signals) (last.0 ∙ first.0, last.1 ∙ first.1)
      ]

  store_stances-SameWork :
      (ticks : List (PriceTick F)) (posts : List Post) (model : ScoringModel F)
      (stances : List (Stance F)) (w : Sinks F)
      → SameWork
          (insert_stances (clocks.transactions 2) stances w.db).1
          (Sinks.db (store_stances broker utc_text clocks up t ticks posts model stances w).1)
  unfolding store_stances
  store_stances-SameWork ticks posts model stances w =
      elim (Result-cases (
        build_signal_series (signal_of t) posts stances ticks (version_of model) 1 affine none
          clocks.computed clocks.grid_end)) [
            | inl (e, h) ↦ rw (h, store_stances) (refl, refl)
            | inr (signals, h) ↦
                rw (h, store_stances)
                  (store_signals-SameWork ticks signals
                    (record w { db = (insert_stances (clocks.transactions 2) stances w.db).1 }))
          ]

  store_found-IsWorked :
      (ticks : List (PriceTick F)) (posts : List Post) (model : ScoringModel F) (w : Sinks F)
      (done : ℕ × List (SignalPoint F))
      → (store_found broker utc_text clocks up t ticks posts model w).0 ≡ ok done
      → IsWorked
          (version_of model)
          posts
          (Sinks.db (store_found broker utc_text clocks up t ticks posts model w).1)
  unfolding store_found
  store_found-IsWorked ticks posts model w done ran =
      let db₁ = (insert_posts (clocks.transactions 1) posts w.db).1 in
      elim (Result-cases (score_posts posts model t.market.target)) [
        | inl (e, h) ↦ let no = rw (h, store_found) at ran in cc
        | inr (stances, h) ↦
            let covered =
              IsPost-ok (λ ss. All (λ p. covers (version_of model) ss p ≡ true) posts) _ stances
                (score_posts-covers posts model t.market.target) h in
            rw (h, store_found)
              (
                clocks.transactions 2,
                stances,
                db₁,
                store_stances-SameWork ticks posts model stances (record w { db = db₁ }),
                covered,
              )
      ]

module _ {F : Type 0} {S : Type 0} ⦃d : Float F⦄ ⦃py : Builtins F⦄
    (respond : String → List (String × Json F) → Result (Json F))
    (search : String → String → ℕ → Option DateTime → Exec S (List Post)) (broker : Broker F)
    (utc_text : DateTime → String) where
  -- When the turn of `cmd_refresh` for a market returns, no page of the unscored posts of any market, under
  -- the version of the model that ran, lists a post with the id, market and time of one that the turn
  -- fetched, so no post is left behind between the storing and the scoring. This holds whether or not
  -- Redis answers.
  pub refresh_market-scored :
      (config : MarketConfig F) (settings : Settings F) (model : ScoringModel F) (up : Bool)
      (lookback_days max_posts : ℕ) (clocks : Clocks) (t : TrackedMarket F) (w w' : World S F)
      (line : Line F) (posts : List Post) (mid : String) (limit : ℕ)
      → refresh_market respond search broker utc_text config settings model up lookback_days
          max_posts clocks t w
        ≡ (ok line, w')
      → (ingest_posts search t config max_posts 7 clocks.posts_end w.client).0 ≡ ok posts
      → All (λ q. has_key posts q ≡ false) (unscored_posts mid (version_of model) limit w'.db)
  unfolding refresh_market
  refresh_market-scored config settings model up lookback_days max_posts clocks t w w' line posts
        mid limit ran found =
      let ticks =
        poll_prices respond settings t (pos lookback_days) true clocks.prices_end clocks.book_at
          clocks.book_fetched clocks.bar_fetched in
      let db₁ = (insert_price_ticks (clocks.transactions 0) ticks w.db).1 in
      let out =
        store_found broker utc_text clocks up t ticks posts model
          (record { db = db₁; bus = w.bus }) in
      let same = rw (found, refresh_market) at ran in
      let (done, kept, built) = >>=-eq-ok out.0 _ (ap (λ r. r.0) same) in
      let (now, ss, before, tables, covered) =
        store_found-IsWorked broker utc_text clocks up t ticks posts model
          (record { db = db₁; bus = w.bus }) done kept in
      let after : Sinks.db out.1 ≡ w'.db = ap (λ r. World.db r.1) same in
      unscored_posts-unlisted now ss before w'.db (sym (ap (λ b. b.posts) after) ∙ tables.0)
        (sym (ap (λ b. b.stances) after) ∙ tables.1) mid (version_of model) limit posts covered
