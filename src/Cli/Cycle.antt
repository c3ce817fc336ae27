-- ===== src/Cli/Cycle.antt =====
-- cli.py: `cmd_refresh`. The stance models, the HTTP session, the search of the X client, psycopg and Redis
-- are parameters; `clocks i` are the times of the i-th market. What is printed is `Line`.
use augury.Prelude.{
  ℕ, suc, String, Bool, true, not, Option, none, some, List, [], ◌∷◌, if◌then◌else◌, length,
  get_last?, Result, ok, err, ◌>>=◌, Exec,
}
use augury.Prelude.Int.{pos}
use augury.Prelude.Float.{Float}
use augury.Prelude.Json.{Json, Builtins}
use augury.Models.{DateTime, Post, Stance, PriceTick, SignalPoint, SimTick, affine}
use augury.Config.{Settings, TrackedMarket, MarketConfig, load_settings, load_market_config}
use augury.Signal.{StanceModel}
use augury.Db.{Database, insert_price_ticks, insert_posts, insert_stances, insert_sim_ticks}
use augury.Bus.{Bus, Broker, available, close}
use augury.Pipeline.{
  ScoringModel, version_of, score_posts, build_signal_series, simulate_lmsr, poll_prices,
  ingest_posts,
}
use augury.Slice.{World, Clocks, choose_model, signal_of, insert_signals, publish_last}

-- the line of a market: how many ticks, posts, new posts and points, and the last signal
pub record Line (F : Type 0) : Type 0 where
  pub market_id : String
  pub ticks : ℕ
  pub posts : ℕ
  pub stored : ℕ
  pub points : ℕ
  pub latest : Option F

abbrev pub s_t_of : {F : Type 0} → Option (SignalPoint F) → Option F
s_t_of none = none
s_t_of (some p) = some p.s_t

-- what `with Database(...)` meets: whether the connection opens, and what `ping` answers
pub record Connection : Type 0 where
  pub opened : Result (Unit {0})
  pub ping : Bool

-- the database and the messages
pub record Sinks (F : Type 0) : Type 0 where
  pub db : Database F
  pub bus : Bus F

module _ {F : Type 0} ⦃d : Float F⦄ (broker : Broker F) (utc_text : DateTime → String)
    (clocks : Clocks) (up : Bool) (t : TrackedMarket F) where
  -- the ticks are stored, and the ends of the series are published on a bus that answered
  unfoldable pub store_sim : List (SignalPoint F) → List (SimTick F) → Exec (Sinks F) (Unit {0})
  store_sim signals sim w =
      let (written, db') = insert_sim_ticks sim w.db in
      let (told, bus') = publish_last broker utc_text signals sim w.bus in
      if up then (told, record { db = db'; bus = bus' }) else (ok tt, record w { db = db' })

  unfoldable pub store_signals :
      List (PriceTick F) → List (SignalPoint F) → Exec (Sinks F) (List (SignalPoint F))
  unfolding store_sim
  store_signals ticks signals w =
      let w' : Sinks F = record w { db = insert_signals clocks.transactions 3 signals w.db } in
      elim (simulate_lmsr signals ticks "live" (d.lit 35 2) none) [
        | err e ↦ (err e, w')
        | ok sim ↦ let (told, w'') = store_sim signals sim w' in ((do _ ← told; ok signals), w'')
      ]

  unfoldable pub store_stances :
      List (PriceTick F)
      → List Post
      → ScoringModel F
      → List (Stance F)
      → Exec (Sinks F) (List (SignalPoint F))
  unfolding store_signals
  store_stances ticks posts model stances w =
      let (written, db') = insert_stances (clocks.transactions 2) stances w.db in
      let w' : Sinks F = record w { db = db' } in
      elim (build_signal_series (signal_of t) posts stances ticks (version_of model) 1 affine none
        clocks.computed clocks.grid_end) [
          | err e ↦ (err e, w')
          | ok signals ↦ store_signals ticks signals w'
        ]

  -- from the posts of the X client on; how many of them are new
  unfoldable pub store_found :
      List (PriceTick F) → List Post → ScoringModel F → Exec (Sinks F) (ℕ × List (SignalPoint F))
  unfolding store_stances
  store_found ticks posts model w =
      let (stored, db') = insert_posts (clocks.transactions 1) posts w.db in
      let w' : Sinks F = record w { db = db' } in
      elim (score_posts posts model t.market.target) [
        | err e ↦ (err e, w')
        | ok stances ↦
            let (signals, w'') = store_stances ticks posts model stances w' in
            ((do s ← signals; ok (stored, s)), w'')
      ]

module _ {F : Type 0} {S : Type 0} ⦃d : Float F⦄ ⦃py : Builtins F⦄
    (respond : String → List (String × Json F) → Result (Json F))
    (search : String → String → ℕ → Option DateTime → Exec S (List Post)) (broker : Broker F)
    (utc_text : DateTime → String) where
  -- the body of the loop over the markets
  unfoldable pub refresh_market :
      MarketConfig F
      → Settings F
      → ScoringModel F
      → (up : Bool) (lookback_days max_posts : ℕ) → Clocks
      → TrackedMarket F
      → Exec (World S F) (Line F)
  unfolding poll_prices ingest_posts store_found
  refresh_market config settings model up lookback_days max_posts clocks t w =
      let ticks =
        poll_prices respond settings t (pos lookback_days) true clocks.prices_end clocks.book_at
          clocks.book_fetched clocks.bar_fetched in
      let (written, db') = insert_price_ticks (clocks.transactions 0) ticks w.db in
      let (found, client') = ingest_posts search t config max_posts 7 clocks.posts_end w.client in
      elim found [
        | err e ↦ (err e, record w { client = client'; db = db' })
        | ok posts ↦
            let (kept, sinks) =
              store_found broker utc_text clocks up t ticks posts model
                (record { db = db'; bus = w.bus }) in
            (
              (do
                done ← kept
                ok (record {
                  market_id = t.market.market_id;
                  ticks = length ticks;
                  posts = length posts;
                  stored = done.0;
                  points = length done.1;
                  latest = s_t_of (get_last? done.1);
                })),
              record { client = client'; db = sinks.db; bus = sinks.bus },
            )
      ]

  -- the loop; an exception ends it
  unfoldable pub refresh_markets :
      MarketConfig F
      → Settings F
      → ScoringModel F
      → (up : Bool) (lookback_days max_posts : ℕ) → (ℕ → Clocks)
      → ℕ
      → List (TrackedMarket F)
      → Exec (World S F) (List (Line F))
  unfolding refresh_market
  refresh_markets config settings model up lookback_days max_posts clocks i [] w = (ok [], w)
  refresh_markets config settings model up lookback_days max_posts clocks i (t ∷ ts) w =
      let (line, w') =
        refresh_market config settings model up lookback_days max_posts (clocks i) t w in
      elim line [
        | err e ↦ (err e, w')
        | ok l ↦
            let (lines, w'') =
              refresh_markets config settings model up lookback_days max_posts clocks (suc i) ts
                w' in
            ((do ls ← lines; ok (l ∷ ls)), w'')
      ]

  -- `cmd_refresh` with a model: the exit code, and a line for each market
  unfoldable pub refresh_with :
      ScoringModel F
      → MarketConfig F
      → Settings F
      → Connection
      → (lookback_days max_posts : ℕ) → (ℕ → Clocks)
      → Exec (World S F) (ℕ × List (Line F))
  unfolding refresh_markets
  refresh_with model config settings conn lookback_days max_posts clocks w =
      let (up, bus') = available broker w.bus in
      let w₁ : World S F = record w { bus = bus' } in
      elim conn.opened [
        | err e ↦ (err e, w₁)
        | ok _ ↦
            if not conn.ping
            then (ok (1, []), w₁)
            else let (lines, w₂) =
                refresh_markets config settings model up lookback_days max_posts clocks 0
                  config.markets w₁ in
              elim lines [
                | err e ↦ (err e, w₂)
                | ok ls ↦
                    let (closed, bus'') = close broker w₂.bus in
                    ((do _ ← closed; ok (0, ls)), record w₂ { bus = bus'' })
              ]
      ]

  -- `cmd_refresh`, over the environment and the value of the configuration file
  unfoldable pub cmd_refresh :
      (vader : StanceModel F) (deberta : Result (StanceModel F)) (env : String → Option String)
      → Json F
      → Connection
      → (lookback_days max_posts : ℕ) → (ℕ → Clocks)
      → Exec (World S F) (ℕ × List (Line F))
  unfolding refresh_with choose_model
  cmd_refresh vader deberta env raw conn lookback_days max_posts clocks w =
      let start : Result (ScoringModel F × (MarketConfig F × Settings F)) = do
        settings ← load_settings F env
        config ← load_market_config raw
        model ← choose_model vader deberta settings.stance_model
        ok (model, (config, settings))
      in elim start [
        | err e ↦ (err e, w)
        | ok (model, (config, settings)) ↦
            refresh_with model config settings conn lookback_days max_posts clocks w
      ]
