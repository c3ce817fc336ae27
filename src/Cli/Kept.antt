-- ===== src/Cli/Kept.antt =====
-- cli.py: the tables that `cmd_refresh` does not write.
use augury.Prelude.{
  ℕ, suc, String, Bool, true, ◌≡◌, refl, ◌∙◌, Option, none, List, [], ◌∷◌, Result, ok, Result-cases,
  Bool-cases, inl, inr, Exec, ◌>>=◌,
}
use augury.Prelude.Int.{pos}
use augury.Prelude.Float.{Float}
use augury.Prelude.Json.{Json, Builtins}
use augury.Models.{DateTime, Post, Stance, PriceTick, SignalPoint, SimTick, affine}
use augury.Config.{Settings, TrackedMarket, MarketConfig, load_settings, load_market_config}
use augury.Signal.{StanceModel}
use augury.Db.{
  Database, insert_price_ticks, insert_posts, insert_stances, insert_signal, insert_sim_ticks,
}
use augury.Bus.{Broker, available}
use augury.Pipeline.{
  ScoringModel, version_of, score_posts, build_signal_series, simulate_lmsr, poll_prices,
  ingest_posts,
}
use augury.Slice.{World, Clocks, choose_model, signal_of, insert_signals}
use augury.Cli.Cycle.{
  Sinks, Connection, store_sim, store_signals, store_stances, store_found, refresh_market,
  refresh_markets, refresh_with, cmd_refresh,
}

module _ {F : Type 0} where
  -- the markets with their terms, the paper ledger, the scores and the budget are the same
  abbrev pub IsKept : Database F → Database F → Type 0
  IsKept db db' =
      (db'.markets ≡ db.markets)
      × (db'.market_queries ≡ db.market_queries)
      × (db'.ledger_fills ≡ db.ledger_fills)
      × (db'.positions ≡ db.positions)
      × (db'.scores ≡ db.scores)
      × (db'.granger_results ≡ db.granger_results)
      × (db'.read_budget ≡ db.read_budget)

  unchanged : (db : Database F) → IsKept db db
  unchanged db = (refl, refl, refl, refl, refl, refl, refl)

  IsKept-trans : (a b c : Database F) → IsKept a b → IsKept b c → IsKept a c
  IsKept-trans a b c h k =
      (k.0 ∙ h.0, k.1 ∙ h.1, k.2 ∙ h.2, k.3 ∙ h.3, k.4 ∙ h.4, k.5 ∙ h.5, k.6 ∙ h.6)

  insert_signals-IsKept :
      (clock : ℕ → DateTime) (i : ℕ) (ps : List (SignalPoint F)) (db : Database F)
      → IsKept db (insert_signals clock i ps db)
  unfolding insert_signals insert_signal
  insert_signals-IsKept clock i [] db = unchanged db
  insert_signals-IsKept clock i (p ∷ ps) db =
      insert_signals-IsKept clock (suc i) ps (insert_signal (clock i) p db)

module _ {F : Type 0} ⦃d : Float F⦄ (broker : Broker F) (utc_text : DateTime → String)
    (clocks : Clocks) (up : Bool) (t : TrackedMarket F) where
  store_sim-IsKept :
      (signals : List (SignalPoint F)) (sim : List (SimTick F)) (w : Sinks F)
      → IsKept w.db (Sinks.db (store_sim broker utc_text clocks up t signals sim w).1)
  unfolding store_sim insert_sim_ticks
  store_sim-IsKept signals sim w = elim (Bool-cases up) [
    | inl answered ↦ rw answered (unchanged w.db)
    | inr silent ↦ rw silent (unchanged w.db)
  ]

  store_signals-IsKept :
      (ticks : List (PriceTick F)) (signals : List (SignalPoint F)) (w : Sinks F)
      → IsKept w.db (Sinks.db (store_signals broker utc_text clocks up t ticks signals w).1)
  unfolding store_signals
  store_signals-IsKept ticks signals w =
      let db₁ = insert_signals clocks.transactions 3 signals w.db in
      let first = insert_signals-IsKept clocks.transactions 3 signals w.db in
      elim (Result-cases (simulate_lmsr signals ticks "live" (d.lit 35 2) none)) [
        | inl (e, h) ↦ rw (h, store_signals) first
        | inr (sim, h) ↦
            rw (h, store_signals)
              (IsKept-trans w.db db₁
                (Sinks.db
                  (store_sim broker utc_text clocks up t signals sim (record w { db = db₁ })).1)
                first (store_sim-IsKept signals sim (record w { db = db₁ })))
      ]

  store_stances-IsKept :
      (ticks : List (PriceTick F)) (posts : List Post) (model : ScoringModel F)
      (stances : List (Stance F)) (w : Sinks F)
      → IsKept w.db
          (Sinks.db (store_stances broker utc_text clocks up t ticks posts model stances w).1)
  unfolding store_stances insert_stances
  store_stances-IsKept ticks posts model stances w =
      elim (Result-cases (
        build_signal_series (signal_of t) posts stances ticks (version_of model) 1 affine none
          clocks.computed clocks.grid_end)) [
            | inl (e, h) ↦ rw (h, store_stances) (unchanged w.db)
            | inr (signals, h) ↦
                rw (h, store_stances)
                  (store_signals-IsKept ticks signals
                    (record w { db = (insert_stances (clocks.transactions 2) stances w.db).1 }))
          ]

  store_found-IsKept :
      (ticks : List (PriceTick F)) (posts : List Post) (model : ScoringModel F) (w : Sinks F)
      → IsKept w.db (Sinks.db (store_found broker utc_text clocks up t ticks posts model w).1)
  unfolding store_found insert_posts
  store_found-IsKept ticks posts model w =
      elim (Result-cases (score_posts posts model t.market.target)) [
        | inl (e, h) ↦ rw (h, store_found) (unchanged w.db)
        | inr (stances, h) ↦
            rw (h, store_found)
              (store_stances-IsKept ticks posts model stances
                (record w { db = (insert_posts (clocks.transactions 1) posts w.db).1 }))
      ]

module _ {F : Type 0} {S : Type 0} ⦃d : Float F⦄ ⦃py : Builtins F⦄
    (respond : String → List (String × Json F) → Result (Json F))
    (search : String → String → ℕ → Option DateTime → Exec S (List Post)) (broker : Broker F)
    (utc_text : DateTime → String) where
  module _ (config : MarketConfig F) (settings : Settings F) (model : ScoringModel F) (up : Bool)
      (lookback_days max_posts : ℕ) where
    refresh_market-IsKept :
        (clocks : Clocks) (t : TrackedMarket F) (w : World S F)
        → IsKept w.db (
            World.db
              (refresh_market respond search broker utc_text config settings model up lookback_days
                max_posts clocks t w).1)
    unfolding refresh_market insert_price_ticks
    refresh_market-IsKept clocks t w =
        let ticks =
          poll_prices respond settings t (pos lookback_days) true clocks.prices_end clocks.book_at
            clocks.book_fetched clocks.bar_fetched in
        let db₁ = (insert_price_ticks (clocks.transactions 0) ticks w.db).1 in
        elim (Result-cases (ingest_posts search t config max_posts 7 clocks.posts_end w.client).0) [
          | inl (e, h) ↦ rw (h, refresh_market) (unchanged w.db)
          | inr (posts, h) ↦
              rw (h, refresh_market)
                (store_found-IsKept broker utc_text clocks up t ticks posts model
                  (record { db = db₁; bus = w.bus }))
        ]

    refresh_markets-IsKept :
        (clocks : ℕ → Clocks) (i : ℕ) (ts : List (TrackedMarket F)) (w : World S F)
        → IsKept w.db (
            World.db
              (refresh_markets respond search broker utc_text config settings model up lookback_days
                max_posts clocks i ts w).1)
    unfolding refresh_markets
    refresh_markets-IsKept clocks i [] w = unchanged w.db
    refresh_markets-IsKept clocks i (t ∷ ts) w =
        let out =
          refresh_market respond search broker utc_text config settings model up lookback_days
            max_posts (clocks i) t w in
        let first = refresh_market-IsKept (clocks i) t w in
        elim (Result-cases out.0) [
          | inl (e, h) ↦ rw (h, refresh_markets) first
          | inr (l, h) ↦
              rw (h, refresh_markets)
                (IsKept-trans w.db (World.db out.1)
                  (World.db
                    (refresh_markets respond search broker utc_text config settings model up
                      lookback_days max_posts clocks (suc i) ts out.1).1)
                  first (refresh_markets-IsKept clocks (suc i) ts out.1))
        ]

  refresh_with-IsKept :
      (model : ScoringModel F) (config : MarketConfig F) (settings : Settings F) (conn : Connection)
      (lookback_days max_posts : ℕ) (clocks : ℕ → Clocks) (w : World S F)
      → IsKept w.db (
          World.db
            (refresh_with respond search broker utc_text model config settings conn lookback_days
              max_posts clocks w).1)
  unfolding refresh_with
  refresh_with-IsKept model config settings conn lookback_days max_posts clocks w =
      let (up, bus') = available broker w.bus in
      let w₁ : World S F = record w { bus = bus' } in
      let out =
        refresh_markets respond search broker utc_text config settings model up lookback_days
          max_posts clocks 0 config.markets w₁ in
      let first =
        refresh_markets-IsKept config settings model up lookback_days max_posts clocks 0
          config.markets w₁ in
      elim (Result-cases conn.opened) [
        | inl (e, h) ↦ rw (h, refresh_with) (unchanged w.db)
        | inr (u, h) ↦ elim (Bool-cases conn.ping) [
          | inr silent ↦ rw (h, silent, refresh_with) (unchanged w.db)
          | inl answered ↦ elim (Result-cases out.0) [
            | inl (e, k) ↦ rw (h, answered, k, refresh_with) first
            | inr (ls, k) ↦ rw (h, answered, k, refresh_with) first
          ]
        ]
      ]

  -- `cmd_refresh` writes market data only: whatever the venues, the X client, the models, the database's
  -- connection and Redis do, and also when it raises halfway, it leaves the markets with their terms, the
  -- fills and positions of the paper ledger, the scores, the Granger results and the read budget of the
  -- database as they were.
  pub cmd_refresh-IsKept :
      (vader : StanceModel F) (deberta : Result (StanceModel F)) (env : String → Option String)
      (raw : Json F) (conn : Connection) (lookback_days max_posts : ℕ) (clocks : ℕ → Clocks)
      (w : World S F)
      → IsKept w.db (
          World.db
            (cmd_refresh respond search broker utc_text vader deberta env raw conn lookback_days
              max_posts clocks w).1)
  unfolding cmd_refresh
  cmd_refresh-IsKept vader deberta env raw conn lookback_days max_posts clocks w =
      let start : Result (ScoringModel F × (MarketConfig F × Settings F)) = do
        settings ← load_settings F env
        config ← load_market_config raw
        model ← choose_model vader deberta settings.stance_model
        ok (model, (config, settings))
      in elim (Result-cases start) [
        | inl (e, h) ↦ rw (h, cmd_refresh) (unchanged w.db)
        | inr (s, h) ↦
            rw (h, cmd_refresh)
              (refresh_with-IsKept s.0 s.1.0 s.1.1 conn lookback_days max_posts clocks w)
      ]
