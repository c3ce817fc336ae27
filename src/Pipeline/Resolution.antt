-- ===== src/Pipeline/Resolution.antt =====
-- pipeline/steps.py: `_freeze_scores`.
use augury.Prelude.{
  String, Bool, true, false, not, ◌||◌, Option, none, some, List, [], ◌∷◌, ◌++◌, map, if◌then◌else◌,
  filter, get_last?, nat_eq, Result, ok, err, assertion_error, ◌>>=◌, Exec,
}
use augury.Prelude.Int.{ℤ}
use augury.Prelude.Keys.{◌==◌, string_key}
use augury.Prelude.Float.{Float}
use augury.Models.{DateTime, floor_hour, Market, SignalPoint, PriceTick, Calibration, affine}
use augury.Analytics.{ScoreResult, score_market}
use augury.Db.{Database, ScoreRow, signal_series, price_series, record_score}

abbrev get_first? : {A : Type 0} → List A → Option A
get_first? [] = none
get_first? (x ∷ xs) = some x

-- SELECT DISTINCT model_version
unfoldable pub distinct : List String → List String
distinct [] = []
distinct (v ∷ vs) = v ∷ filter (λ w. not (w == v)) (distinct vs)

-- `signal_probs`, `market_probs` and the last calibration named
pub record Observations (F : Type 0) : Type 0 where
  pub signal_probs : List F
  pub market_probs : List F
  pub calibration : Calibration

or_calibration : Option Calibration → Calibration → Calibration
or_calibration none c = c
or_calibration (some c) _ = c

abbrev time_of : {F : Type 0} → Option (SignalPoint F) → Option DateTime
time_of none = none
time_of (some p) = some p.ts

module _ {F : Type 0} ⦃d : Float F⦄ where
  reference_of : Option F → Option F → Option F → Option F
  reference_of (some p) bid ask = some p
  reference_of none (some bid) (some ask) = some (d.div (d.add bid ask) (d.lit 2 0))
  reference_of none _ _ = none

  -- the price that a signal of the hour is scored against: `prices_by_hour` keeps the last row of an hour
  unfoldable pub reference_at : List (PriceTick F) → DateTime → Option F
  unfolding reference_of
  reference_at prices ts =
      elim (get_last? (filter (λ t. nat_eq (floor_hour t.ts) (floor_hour ts)) prices)) [
        | none ↦ none
        | some t ↦ reference_of t.yes_price t.yes_bid t.yes_ask
      ]

  observe : Option F → Option F → Option Calibration → Observations F → Observations F
  unfolding or_calibration
  observe (some p) (some q) c o = record {
    signal_probs = o.signal_probs ++ (p ∷ []);
    market_probs = o.market_probs ++ (q ∷ []);
    calibration = or_calibration c o.calibration;
  }
  observe _ _ c o = o

  unfoldable pub observations_from :
      List (PriceTick F) → Observations F → List (SignalPoint F) → Observations F
  unfolding observe reference_at
  observations_from prices o [] = o
  observations_from prices o (row ∷ rows) =
      observations_from prices (observe row.p_hat (reference_at prices row.ts) row.calibration o)
        rows

  unfoldable pub observations_of : List (PriceTick F) → List (SignalPoint F) → Observations F
  unfolding observations_from
  observations_of prices rows =
      observations_from prices
        (record { signal_probs = []; market_probs = []; calibration = affine }) rows

  abbrev score_row : ScoreResult F → List (SignalPoint F) → Calibration → ScoreRow F
  score_row score rows calibration = record {
    market_id = score.market_id;
    model_version = score.model_version;
    window_start = time_of (get_first? rows);
    window_end = time_of (get_last? rows);
    n_obs = score.n_obs;
    calibration = calibration;
    brier_signal = score.brier_signal;
    brier_market = score.brier_market;
    bss = score.bss;
    resolved_outcome = some score.resolved_outcome;
    final = true;
  }

abbrev is_empty : {A : Type 0} → List A → Bool
is_empty [] = true
is_empty (x ∷ xs) = false

module _ {F : Type 0} ⦃d : Float F⦄ where
  -- the `continue` tests of the loop over the versions
  unfoldable pub nothing_to_score : List (SignalPoint F) → List (PriceTick F) → Bool
  unfolding observations_of
  nothing_to_score signal_rows price_rows =
      is_empty signal_rows
      || is_empty price_rows
      || is_empty (observations_of price_rows signal_rows).signal_probs

  -- `record_score`, and the `scored_models` entry
  unfoldable pub store_score :
      String
      → Calibration
      → List (SignalPoint F)
      → Result (ScoreResult F)
      → Exec (Database F) (List (String × F))
  unfolding record_score
  store_score version calibration rows (err e) db = (err e, db)
  store_score version calibration rows (ok score) db =
      (ok ((version, score.bss) ∷ []), record_score (score_row score rows calibration) db)

module _ {F : Type 0} ⦃d : Float F⦄ (np_mean : List F → F) where
  -- scoring and storing one model version
  unfoldable pub freeze_version : Market → ℤ → String → Exec (Database F) (List (String × F))
  unfolding nothing_to_score store_score score_market signal_series price_series
  freeze_version market outcome version db =
      let signal_rows = signal_series market.market_id version none db in
      let price_rows = price_series market.market_id none none db in
      let o = observations_of price_rows signal_rows in
      if nothing_to_score signal_rows price_rows
      then (ok [], db)
      else store_score version o.calibration signal_rows
          (score_market np_mean market.market_id version o.signal_probs o.market_probs outcome
            o.calibration)
          db

  unfoldable pub freeze_versions : Market → ℤ → List String → Exec (Database F) (List (String × F))
  unfolding freeze_version
  freeze_versions market outcome [] db = (ok [], db)
  freeze_versions market outcome (version ∷ versions) db =
      let (scored, db') = freeze_version market outcome version db in
      let (rest, db'') = freeze_versions market outcome versions db' in
      elim scored [ err e ↦ (err e, db') | ok s ↦ ((do more ← rest; ok (s ++ more)), db'') ]

  unfoldable pub freeze_scores : Market → Exec (Database F) (List (String × F))
  unfolding freeze_versions distinct
  freeze_scores market db = elim market.resolved_outcome [
    | none ↦ (err assertion_error, db)
    | some outcome ↦
        freeze_versions market outcome
          (distinct
            (map (λ p. p.model_version) (filter (λ p. p.market_id == market.market_id) db.signals)))
          db
  ]
