-- ===== src/Orchestrator/Derived.antt =====
-- orchestrator.py: the assets that are computed from the stored rows: `signals`, `sim_prices`,
-- `resolutions` and `calibration_fit`. `index_text` writes a number in decimal.
use Prim.Native.String.{◌++◌}
use augury.Prelude.{
  ℕ, suc, ◌-◌, ◌*◌, String, Bool, true, false, not, Option, none, some, List, [], ◌∷◌, map,
  if◌then◌else◌, ltb, length, get_last?, Result, ok, err, Error, value_error, ◌>>=◌, Exec,
}
use augury.Prelude.Float.{Float}
use augury.Prelude.Json.{Json, Builtins}
use augury.Models.{
  DateTime, day, Post, Stance, make_stance, SignalPoint, make_signal_point, PriceTick, SimTick,
  accepted, affine, Market,
}
use augury.Config.{Settings, TrackedMarket, load_settings}
use augury.Signal.{StanceModel, PlattParams, Arrays, fit_platt}
use augury.Db.{
  Database, Scored, scored_posts, price_series, signal_series, insert_sim_ticks,
  resolved_signal_pairs, traverse,
}
use augury.Bus.{Bus, Broker, available, publish_signal, publish_sim, close}
use augury.Pipeline.{version_of, build_signal_series, simulate_lmsr, resolve_markets}
use augury.Slice.{signal_of, choose_model, insert_signals}
use augury.Orchestrator.Assets.{tracked_of, current_model_version, settled_count}

-- the database and the messages
pub record Stores (F : Type 0) : Type 0 where
  pub db : Database F
  pub bus : Bus F

-- f"{market_id}:{index}"
abbrev pub synthetic_id : (ℕ → String) → String → ℕ → String
synthetic_id index_text mid index = mid ++ ":" ++ index_text index

module _ {F : Type 0} (index_text : ℕ → String) (mid : String) where
  -- a `Post` for each row of the JOIN
  unfoldable pub synthetic_posts : ℕ → List (Scored F) → List Post
  synthetic_posts index [] = []
  synthetic_posts index ((created_at, stance, followers, engagements) ∷ rows) =
      record {
        post_id = synthetic_id index_text mid index;
        market_id = mid;
        created_at = created_at;
        text = "";
        author_id = none;
        author_created_at = none;
        followers = followers;
        engagements = engagements;
        lang = none;
        ingested_at = none;
        minhash = none;
        lsh_bucket = none;
        filter_verdict = accepted;
        filter_reason = none;
        source = "x";
      }
      ∷ synthetic_posts (suc index) rows

  -- a `Stance` for each row of the JOIN
  unfoldable pub synthetic_stances :
      ⦃d : Float F⦄ → String → ℕ → List (Scored F) → Result (List (Stance F))
  synthetic_stances version index [] = ok []
  synthetic_stances ⦃d⦄ version index ((created_at, stance, followers, engagements) ∷ rows) = do
    s ← make_stance (record {
      post_id = synthetic_id index_text mid index;
      market_id = mid;
      created_at = created_at;
      model_version = version;
      stance = stance;
      confidence = d.abs stance;
      disagreement = none;
    })
    rest ← synthetic_stances version (suc index) rows
    ok (s ∷ rest)

module _ {F : Type 0} where
  -- the columns of a price row that the assets take over
  unfoldable pub price_tick : String → PriceTick F → PriceTick F
  price_tick mid row = record row { market_id = mid; volume = none; fetched_at = none }

  -- the columns of a signal row that the assets take over
  unfoldable pub signal_point : String → String → SignalPoint F → SignalPoint F
  signal_point mid version row = record row {
    market_id = mid;
    model_version = version;
    computed_at = none;
  }

module _ {F : Type 0} ⦃d : Float F⦄ (broker : Broker F) where
  -- the last element is published, if there is one and Redis answers
  unfoldable pub announce :
      {A : Type 0} → (A → Exec (Bus F) Bool) → Option A → Exec (Bus F) (Unit {0})
  announce send none bus = (ok tt, bus)
  announce send (some a) bus =
      let (up, bus₁) = available broker bus in
      if not up
      then (ok tt, bus₁)
      else let (sent, bus₂) = send a bus₁ in
        elim sent [ err e ↦ (err e, bus₂) | ok b ↦ close broker bus₂ ]

  module _ ⦃py : Builtins F⦄ (vader : StanceModel F) (deberta : Result (StanceModel F))
      (index_text : ℕ → String) (utc_text : DateTime → String) where
    -- the points of `signals`, from the stored posts and prices
    unfoldable pub signal_points :
        TrackedMarket F
        → String
        → (now : DateTime) (computed : DateTime → DateTime) → Database F
        → Result (List (SignalPoint F))
    unfolding synthetic_posts synthetic_stances price_tick
    signal_points t version now computed db = do
      let mid = t.market.market_id
      let rows = scored_posts mid version (some (now - 7 * day)) none db
      scored ← synthetic_stances index_text mid version 0 rows
      build_signal_series (signal_of t) (synthetic_posts index_text mid 0 rows) scored
          (map (price_tick mid) (price_series mid (some (now - 7 * day)) none db)) version 1 affine
          none computed now

    unfoldable pub signals :
        Json F
        → Settings F
        → String
        → (now : DateTime) (computed : DateTime → DateTime) (clock : ℕ → DateTime)
        → Exec (Stores F) ℕ
    unfolding signal_points announce
    signals raw settings mid now computed clock w =
        let found : Result (List (SignalPoint F)) = do
          t ← tracked_of raw mid
          model ← choose_model vader deberta settings.stance_model
          signal_points t (version_of model) now computed w.db
        in elim found [
          | err e ↦ (err e, w)
          | ok points ↦
              let (told, bus') =
                announce (publish_signal broker utc_text) (get_last? points) w.bus in
              (
                (do _ ← told; ok (length points)),
                record { db = insert_signals clock 0 points w.db; bus = bus' },
              )
        ]

    unfoldable pub sim_ticks : String → String → Database F → Result (List (SimTick F))
    unfolding price_tick signal_point
    sim_ticks mid version db = do
      points ←
          traverse (λ row. make_signal_point (signal_point mid version row))
            (signal_series mid version none db)
      simulate_lmsr points (map (price_tick mid) (price_series mid none none db)) "live"
          (d.lit 35 2) none

    unfoldable pub sim_prices : Settings F → String → Exec (Stores F) ℕ
    unfolding sim_ticks announce
    sim_prices settings mid w =
        let found : Result (List (SimTick F)) = do
          version ← current_model_version vader deberta settings.stance_model
          sim_ticks mid version w.db
        in elim found [
          | err e ↦ (err e, w)
          | ok sim ↦
              let (told, bus') = announce (publish_sim broker utc_text) (get_last? sim) w.bus in
              (
                (do _ ← told; ok (length sim)),
                record { db = (insert_sim_ticks sim w.db).1; bus = bus' },
              )
        ]

-- `resolutions`: how many of the markets that were checked are settled now
unfoldable pub resolutions :
    {F : Type 0} ⦃d : Float F⦄
    → (List F → F)
    → (Market → Result Market)
    → DateTime
    → Exec (Database F) ℕ
unfolding resolve_markets
resolutions np_mean fetch now db =
    let (outcomes, db') = resolve_markets np_mean fetch now db in
    ((do os ← outcomes; ok (settled_count os)), db')

-- what `calibration_fit` reports
pub data FitReport (F : Type 0) : Type 0 where
  too_little_history : ℕ → FitReport F
  not_identifiable : FitReport F
  fitted : PlattParams F → FitReport F

abbrev is_value_error : Error → Bool
is_value_error value_error = true
is_value_error _ = false

-- the report on the stored signals and outcomes of a version, with the defaults of `fit_platt`
unfoldable pub fit_report :
    {F : Type 0} ⦃d : Float F⦄ → Arrays F → String → Database F → Result (FitReport F)
fit_report ⦃d⦄ np version db =
    let pairs = resolved_signal_pairs version db in
    if ltb (length pairs) 2
    then ok (too_little_history (length pairs))
    else elim (fit_platt np 100 (d.lit 1 9) (map (λ p. p.0) pairs) (map (λ p. p.1) pairs)) [
      | ok fit ↦ ok (fitted fit)
      | err e ↦ if is_value_error e then ok not_identifiable else err e
    ]

module _ {F : Type 0} ⦃d : Float F⦄ ⦃py : Builtins F⦄ (env : String → Option String)
    (vader : StanceModel F) (deberta : Result (StanceModel F)) where
  -- `settings = load_settings(); version = _current_model_version(settings)`
  unfoldable pub configured_version : Result String
  configured_version = do
    settings ← load_settings F env
    current_model_version vader deberta settings.stance_model

  -- `calibration_fit`
  unfoldable pub calibration_fit : Arrays F → Database F → Result (FitReport F)
  unfolding configured_version fit_report
  calibration_fit np db = do version ← configured_version; fit_report np version db
