-- ===== src/Slice/Run.antt =====
-- slice.py: `run_slice` and `_persist`. The two stance models, the tests of statsmodels, the mean of
-- numpy, the HTTP session of the venues and Redis are parameters; `clock` gives the successive times.
use Prim.Native.Nat.{min}
use augury.Prelude.{
  ℕ, suc, String, Bool, true, false, not, Option, none, some, List, [], ◌∷◌, if◌then◌else◌,
  get_last?, Result, ok, err, ◌>>=◌, Exec,
}
use augury.Prelude.Int.{pos}
use augury.Prelude.Keys.{◌==◌, string_key}
use augury.Prelude.Float.{Float}
use augury.Prelude.Json.{Json, Builtins}
use augury.Models.{DateTime, Post, SignalPoint, SimTick, affine}
use augury.Config.{Settings, TrackedMarket, MarketConfig}
use augury.Signal.{StanceModel, build_stance_model}
use augury.Analytics.{Statistics}
use augury.Db.{
  Database, upsert_market, replace_market_queries, insert_price_ticks, insert_posts, insert_stances,
  insert_signal, insert_sim_ticks,
}
use augury.Bus.{Bus, Broker, available, publish_signal, publish_sim, close}
use augury.Pipeline.{
  ScoringModel, single, ensemble, version_of, score_posts, TrackedSignal, build_signal_series,
  simulate_lmsr, poll_prices, ingest_posts,
}
use augury.Slice.Analysis.{SliceResult, analyze, score_slice, no_note, no_score_note}

abbrev pub signal_of : {F : Type 0} → TrackedMarket F → TrackedSignal F
signal_of t = record {
  market_id = t.market.market_id;
  half_life_hours = t.half_life_hours;
  adaptive = t.adaptive;
}

-- `SliceResult(market=tracked)`
abbrev pub empty_result : {F : Type 0} → TrackedMarket F → SliceResult F
empty_result t = record {
  market = t;
  prices = [];
  posts = [];
  stances = [];
  signals = [];
  sim = [];
  model_version = "";
  live_posts = false;
  correlations = none;
  granger = none;
  granger_note = no_note;
  score = none;
  score_note = no_score_note;
}

module _ {F : Type 0} ⦃d : Float F⦄ ⦃py : Builtins F⦄ where
  -- VADER alone, or the ensemble of the primary model and VADER
  unfoldable pub choose_model :
      (vader : StanceModel F) (deberta : Result (StanceModel F)) → String → Result (ScoringModel F)
  unfolding build_stance_model
  choose_model vader deberta name = do
    primary ← build_stance_model vader deberta name
    ok (if not (py.lower name == "vader") then ensemble primary vader else single primary)

  module _ (stats : Statistics F) (mean : List F → F) (vader : StanceModel F)
      (deberta : Result (StanceModel F)) where
    -- the steps after the posts are in
    unfoldable pub derive :
        Settings F
        → (responsiveness : F) → (clock : DateTime → DateTime) → (now : DateTime) → SliceResult F
        → Result (SliceResult F)
    unfolding choose_model analyze score_slice
    derive settings responsiveness clock now r = do
      model ← choose_model vader deberta settings.stance_model
      stances ← score_posts r.posts model r.market.market.target
      signals ←
          build_signal_series (signal_of r.market) r.posts stances r.prices (version_of model) 1
            affine none clock now
      sim ← simulate_lmsr signals r.prices "live" responsiveness none
      analyzed ← analyze stats (record r {
        model_version = version_of model;
        stances = stances;
        signals = signals;
        sim = sim;
      })
      score_slice mean analyzed

module _ {F : Type 0} where
  -- `for point in result.signals: db.insert_signal(point)`
  unfoldable pub insert_signals :
      (clock : ℕ → DateTime) → ℕ → List (SignalPoint F) → Database F → Database F
  insert_signals clock i [] db = db
  insert_signals clock i (p ∷ ps) db =
      insert_signals clock (suc i) ps (insert_signal (clock i) p db)

  -- the database part of `_persist`; the i-th transaction begins at `clock i`
  unfoldable pub persist_rows : (clock : ℕ → DateTime) → SliceResult F → Database F → Database F
  unfolding insert_signals
  persist_rows clock r db =
      let (terms, db₁) =
        replace_market_queries r.market.query (upsert_market (clock 0) r.market.market db) in
      let (ticks, db₂) = insert_price_ticks (clock 1) r.prices db₁ in
      let (posts, db₃) = insert_posts (clock 2) r.posts db₂ in
      let (stances, db₄) = insert_stances (clock 3) r.stances db₃ in
      let (sims, db₅) = insert_sim_ticks r.sim (insert_signals clock 4 r.signals db₄) in db₅

  module _ (broker : Broker F) (utc_text : DateTime → String) where
    abbrev pub sends : {A : Type 0} → (A → Exec (Bus F) Bool) → Option A → Exec (Bus F) Bool
    sends send none bus = (ok true, bus)
    sends send (some a) bus = send a bus

    -- the last signal point and the last tick are published, where there are any
    unfoldable pub publish_last : List (SignalPoint F) → List (SimTick F) → Exec (Bus F) (Unit {0})
    publish_last signals sim bus =
        let (first, bus₁) = sends (publish_signal broker utc_text) (get_last? signals) bus in
        elim first [
          | err e ↦ (err e, bus₁)
          | ok _ ↦
              let (second, bus₂) = sends (publish_sim broker utc_text) (get_last? sim) bus₁ in
              ((do _ ← second; ok tt), bus₂)
        ]

    -- the two messages of `_persist`, and the close of the client
    publish_both : SliceResult F → Exec (Bus F) (Unit {0})
    unfolding publish_last
    publish_both r bus =
        let (told, bus') = publish_last r.signals r.sim bus in
        elim told [ err e ↦ (err e, bus') | ok _ ↦ close broker bus' ]

    -- the Redis part of `_persist`
    unfoldable pub persist_messages : SliceResult F → Exec (Bus F) (Unit {0})
    unfolding publish_both
    persist_messages r bus =
        let (up, bus') = available broker bus in if up then publish_both r bus' else (ok tt, bus')

-- what a run changes: the state of the X client, the database and the messages
pub record World (S : Type 0) (F : Type 0) : Type 0 where
  pub client : S
  pub db : Database F
  pub bus : Bus F

-- the times of one run: when the candles' window ends, the book, the posts' window and the grid, and
-- the times of the bars and of the transactions
pub record Clocks : Type 0 where
  pub prices_end : DateTime
  pub book_at : DateTime
  pub book_fetched : DateTime
  pub bar_fetched : ℕ → DateTime
  pub posts_end : DateTime
  pub grid_end : DateTime
  pub computed : DateTime → DateTime
  pub transactions : ℕ → DateTime

module _ {F : Type 0} {S : Type 0} ⦃d : Float F⦄ ⦃py : Builtins F⦄ (stats : Statistics F)
    (mean : List F → F) (vader : StanceModel F) (deberta : Result (StanceModel F))
    (respond : String → List (String × Json F) → Result (Json F))
    (search : String → String → ℕ → Option DateTime → Exec S (List Post)) (is_live : Bool)
    (broker : Broker F) (utc_text : DateTime → String) (clocks : Clocks) where
  -- `_persist`, when it is asked for
  unfoldable pub finish : Bool → SliceResult F → Exec (World S F) (SliceResult F)
  unfolding persist_rows persist_messages
  finish false r w = (ok r, w)
  finish true r w =
      let db' = persist_rows clocks.transactions r w.db in
      let (sent, bus') = persist_messages broker utc_text r w.bus in
      ((do _ ← sent; ok r), record w { db = db'; bus = bus' })

  -- `run_slice`
  unfoldable pub run_slice :
      TrackedMarket F
      → MarketConfig F
      → Settings F
      → (lookback_days max_posts : ℕ) (responsiveness : F) (persist : Bool)
      → Exec (World S F) (SliceResult F)
  unfolding poll_prices ingest_posts derive finish
  run_slice t config settings lookback_days max_posts responsiveness persist w =
      let prices =
        poll_prices respond settings t (pos lookback_days) true clocks.prices_end clocks.book_at
          clocks.book_fetched clocks.bar_fetched in
      let (found, client') =
        ingest_posts search t config max_posts (min lookback_days 7) clocks.posts_end w.client in
      let w' : World S F = record w { client = client' } in
      let result : Result (SliceResult F) = do
        posts ← found
        derive stats mean vader deberta settings responsiveness clocks.computed clocks.grid_end
            (record (empty_result t) { prices = prices; posts = posts; live_posts = is_live })
      in elim result [ err e ↦ (err e, w') | ok r ↦ finish persist r w' ]
