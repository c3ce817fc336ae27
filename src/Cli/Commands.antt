-- ===== src/Cli/Commands.antt =====
-- cli.py: the other commands. A command gives its exit code with what it prints as a value; what argparse
-- reads are arguments. The YAML value of the configuration, the environment and the connection are given.
use augury.Prelude.{
  ℕ, String, Bool, true, false, Option, none, some, List, [], ◌∷◌, map, if◌then◌else◌, ltb, length,
  Result, ok, err, Error, value_error, key_error, ◌>>=◌, Exec,
}
use augury.Prelude.Int.{ℤ}
use augury.Prelude.Float.{Float}
use augury.Prelude.Json.{Json, Builtins}
use augury.Models.{DateTime, Market, all_terms, to_x_query}
use augury.Budget.{File, Summary, make_budget, summary}
use augury.Config.{
  Settings, TrackedMarket, MarketConfig, load_settings, load_market_config, resolve,
}
use augury.Signal.{Arrays, PlattParams, apply, fit_platt}
use augury.Db.{Database, Stats, stats, resolved_signal_pairs, traverse}
use augury.Pipeline.{Outcome, sync_config, resolve_markets}
use augury.Slice.{SliceResult}
use augury.Cli.Cycle.{Connection}

-- an exit code, and what is printed when the command gets that far
abbrev pub Exit : Type 0 → Type 0
Exit A = ℕ × Option A

-- `with Database(...) as db:`, and exit code 1 when the database does not answer
unfoldable pub with_database : {D A : Type 0} → Connection → Exec D A → Exec D (Exit A)
with_database conn body db = elim conn.opened [
  | err e ↦ (err e, db)
  | ok _ ↦
      let (done, db') = body db in
      if conn.ping then ((do a ← done; ok (0, some a)), db') else (ok (1, none), db)
]

-- what `cmd_markets` prints of a market: its X query, or how many terms it has
pub data Detail : Type 0 where
  query : String → Detail
  terms : (positive excluded : ℕ) → Detail

pub record MarketLine (F : Type 0) : Type 0 where
  pub market_id : String
  pub title : String
  pub target : String
  pub half_life_hours : F
  pub min_half_life_hours : F
  pub detail : Detail

unfoldable pub detail_of : {F : Type 0} → Bool → MarketConfig F → TrackedMarket F → Result Detail
detail_of true config t = do
  q ← to_x_query t.query config.language config.global_exclude
  ok (query q)
detail_of false config t = ok (terms (length (all_terms t.query)) (length t.query.exclude))

unfoldable pub market_line :
    {F : Type 0} → Bool → MarketConfig F → TrackedMarket F → Result (MarketLine F)
unfolding detail_of
market_line verbose config t = do
  detail ← detail_of verbose config t
  ok (record {
    market_id = t.market.market_id;
    title = t.market.title;
    target = t.market.target;
    half_life_hours = t.half_life_hours;
    min_half_life_hours = t.adaptive.min_half_life_hours;
    detail = detail;
  })

-- what `cmd_calibrate` prints: too few markets, no fit, or the fit with the two maps at a few signals
pub data FitLines (F : Type 0) : Type 0 where
  too_few : ℕ → FitLines F
  cannot_fit : FitLines F
  lines : PlattParams F → List (F × (F × F)) → FitLines F

-- `except ValueError` and `except KeyError`
abbrev pub is_value_error : Error → Bool
is_value_error value_error = true
is_value_error _ = false

abbrev pub is_key_error : Error → Bool
is_key_error key_error = true
is_key_error _ = false

module _ {F : Type 0} ⦃d : Float F⦄ where
  -- the line of one signal
  unfoldable pub map_line : PlattParams F → F → Result (F × (F × F))
  map_line fit s = do p ← apply fit s; ok (s, (d.div (d.add s (d.lit 1 0)) (d.lit 2 0), p))

  unfoldable pub shown_signals : List F
  shown_signals = d.neg (d.lit 1 0) ∷ d.neg (d.lit 5 1) ∷ d.lit 0 0 ∷ d.lit 5 1 ∷ d.lit 1 0 ∷ []

  -- the part of `cmd_calibrate` behind the database
  unfoldable pub fit_lines : Arrays F → List (F × ℤ) → Result (FitLines F)
  unfolding map_line shown_signals
  fit_lines np pairs =
      if ltb (length pairs) 2
      then ok (too_few (length pairs))
      else elim (fit_platt np 100 (d.lit 1 9) (map (λ p. p.0) pairs) (map (λ p. p.1) pairs)) [
        | err e ↦ if is_value_error e then ok cannot_fit else err e
        | ok fit ↦ do rows ← traverse (map_line fit) shown_signals; ok (lines fit rows)
      ]

module _ {F : Type 0} ⦃d : Float F⦄ ⦃py : Builtins F⦄ (env : String → Option String) where
  -- `settings = load_settings(); config = load_market_config()`
  unfoldable pub load_both : Json F → Result (Settings F × MarketConfig F)
  load_both raw = do
    settings ← load_settings F env
    config ← load_market_config raw
    ok (settings, config)

  unfoldable pub cmd_markets : Json F → Bool → Result (ℕ × List (MarketLine F))
  unfolding market_line
  cmd_markets raw verbose = do
    config ← load_market_config raw
    printed ← traverse (market_line verbose config) config.markets
    ok (0, printed)

  -- `run` is `run_slice` with the options of the command
  unfoldable pub cmd_slice :
      {W : Type 0}
      → Json F
      → String
      → (MarketConfig F → Settings F → TrackedMarket F → Exec W (SliceResult F))
      → Exec W (Exit (SliceResult F))
  unfolding load_both
  cmd_slice raw needle run w = elim (load_both raw) [
    | err e ↦ (err e, w)
    | ok (settings, config) ↦ elim (resolve config needle) [
      | err e ↦ if is_key_error e then (ok (2, none), w) else (err e, w)
      | ok t ↦ let (result, w') = run config settings t w in ((do r ← result; ok (0, some r)), w')
    ]
  ]

  unfoldable pub cmd_sync_config :
      (String → List (String × Json F) → Result (Json F))
      → Json F
      → Connection
      → DateTime
      → Exec (Database F) (Exit (ℕ × ℕ))
  unfolding load_both with_database
  cmd_sync_config respond raw conn now db = elim (load_both raw) [
    | err e ↦ (err e, db)
    | ok (settings, config) ↦
        with_database conn
          (λ db₁.
            let (counts, db₂) = sync_config respond config settings now db₁ in (ok counts, db₂))
          db
  ]

  unfoldable pub cmd_watch_resolutions :
      (List F → F)
      → (Market → Result Market)
      → Connection
      → DateTime
      → Exec (Database F) (Exit (List (Outcome F)))
  unfolding with_database
  cmd_watch_resolutions np_mean fetch conn now db = elim (load_settings F env) [
    | err e ↦ (err e, db)
    | ok settings ↦ with_database conn (resolve_markets np_mean fetch now) db
  ]

  unfoldable pub cmd_calibrate :
      Arrays F → Connection → String → Exec (Database F) (Exit (FitLines F))
  unfolding with_database fit_lines
  cmd_calibrate np conn version db = elim (load_settings F env) [
    | err e ↦ (err e, db)
    | ok settings ↦
        with_database conn (λ db₁. (fit_lines np (resolved_signal_pairs version db₁), db₁)) db
  ]

  -- with whether the live mode is on, and whether there is a token
  unfoldable pub cmd_budget :
      (today local_date : String) → File → Result (ℕ × (Summary F × (Bool × Option String)))
  cmd_budget today local_date file = do
    settings ← load_settings F env
    budget ←
        make_budget
          (record { max_daily_reads = settings.max_daily_reads; service = "augury-signal" })
    s ← summary budget (d.lit 5 3) today local_date file
    ok (0, (s, (settings.x_live, settings.x_bearer_token)))

  -- `migrations` are those that `applied_migrations` lists
  unfoldable pub cmd_stats :
      List String → Connection → Exec (Database F) (Exit (Stats × List String))
  unfolding with_database
  cmd_stats migrations conn db = elim (load_settings F env) [
    | err e ↦ (err e, db)
    | ok settings ↦ with_database conn (λ db₁. (ok (stats db₁, migrations), db₁)) db
  ]
