-- ===== src/Analytics/Scoring.antt =====
-- analytics/scoring.py. `numpy.mean` is a parameter; `x ** 2` is `x * x`.
use augury.Prelude.{
  ℕ, String, not, List, map, if◌then◌else◌, Result, ok, value_error, ◌>>=◌, ◌>>◌, raise_if, length,
  nat_eq, any, some,
}
use augury.Prelude.Int.{ℤ}
use augury.Prelude.Float.{Float, py_div}
use augury.Models.{Calibration, is_outcome, in_unit}

pub record ScoreResult (F : Type 0) : Type 0 where
  pub market_id : String
  pub model_version : String
  pub calibration : Calibration
  pub n_obs : ℕ
  pub brier_signal : F
  pub brier_market : F
  pub bss : F
  pub resolved_outcome : ℤ

module _ {F : Type 0} ⦃d : Float F⦄ where
  unfoldable pub validate_probabilities : List F → Result (Unit {0})
  validate_probabilities values = do
    raise_if (nat_eq (length values) 0) value_error
    raise_if (any (λ x. not (d.is_finite x)) values) value_error
    raise_if (any (λ x. not (in_unit x)) values) value_error

  abbrev pub square_error : ℤ → F → F
  square_error outcome p = let e = d.sub p (d.float outcome) in d.mul e e

  unfoldable pub skill : F → F → Result F
  skill bs_signal bs_market =
      if d.eq bs_market (d.lit 0 0)
      then ok (if d.eq bs_signal (d.lit 0 0) then d.lit 0 0 else d.neg d.inf)
      else do ratio ← py_div bs_signal bs_market; ok (d.sub (d.lit 1 0) ratio)

module _ {F : Type 0} ⦃d : Float F⦄ (mean : List F → F) where
  unfoldable pub brier_score : List F → ℤ → Result F
  unfolding validate_probabilities
  brier_score forecasts outcome = do
    raise_if (not (is_outcome (some outcome))) value_error
    validate_probabilities forecasts
    ok (mean (map (square_error outcome) forecasts))

  unfoldable pub brier_skill_score : List F → List F → ℤ → Result F
  unfolding brier_score skill
  brier_skill_score signal_forecasts market_forecasts outcome = do
    raise_if (not (nat_eq (length signal_forecasts) (length market_forecasts))) value_error
    bs_signal ← brier_score signal_forecasts outcome
    bs_market ← brier_score market_forecasts outcome
    skill bs_signal bs_market

  unfoldable pub score_market :
      String → String → List F → List F → ℤ → Calibration → Result (ScoreResult F)
  unfolding brier_score brier_skill_score
  score_market mid version signal_probabilities market_probabilities outcome calibration = do
    bs_signal ← brier_score signal_probabilities outcome
    bs_market ← brier_score market_probabilities outcome
    bss ← brier_skill_score signal_probabilities market_probabilities outcome
    let score : ScoreResult F = record {
      market_id = mid;
      model_version = version;
      calibration = calibration;
      n_obs = length signal_probabilities;
      brier_signal = bs_signal;
      brier_market = bs_market;
      bss = bss;
      resolved_outcome = outcome;
    }
    ok score
