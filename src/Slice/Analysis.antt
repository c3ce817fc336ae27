-- ===== src/Slice/Analysis.antt =====
-- slice.py: `SliceResult`, `_analyze` and `_score`.
use Prim.Native.Nat.{min}
use augury.Prelude.{
  ℕ, ◌/◌, String, Bool, Option, none, some, List, [], ◌∷◌, if◌then◌else◌, ltb, length, get_last?,
  Result, ok, err, Error, ◌>>=◌,
}
use augury.Prelude.Int.{ℤ}
use augury.Prelude.Float.{Float}
use augury.Models.{is_settled, PriceTick, Post, Stance, SignalPoint, SimTick, affine}
use augury.Config.{TrackedMarket}
use augury.Analytics.{
  Statistics, LagRow, GrangerResult, cross_correlation, granger_test, largest, smallest,
  ScoreResult, score_market,
}
use augury.Slice.Aligned.{aligned_pairs, columns, prices_by_hour}

-- why there is no Granger result, and why there is no score
pub data GrangerNote : Type 0 where
  no_note : GrangerNote
  too_few : ℕ → GrangerNote
  not_moved : ℕ → GrangerNote
  not_interpretable : ℕ → GrangerNote
  not_run : Error → GrangerNote

pub data ScoreNote : Type 0 where
  no_score_note unresolved no_pairs : ScoreNote

pub record SliceResult (F : Type 0) : Type 0 where
  pub market : TrackedMarket F
  pub prices : List (PriceTick F)
  pub posts : List Post
  pub stances : List (Stance F)
  pub signals : List (SignalPoint F)
  pub sim : List (SimTick F)
  pub model_version : String
  pub live_posts : Bool
  pub correlations : Option (List (LagRow F))
  pub granger : Option (GrangerResult F)
  pub granger_note : GrangerNote
  pub score : Option (ScoreResult F)
  pub score_note : ScoreNote

-- MIN_GRANGER_OBS
abbrev pub min_granger_obs : ℕ
min_granger_obs = 20

module _ {F : Type 0} ⦃d : Float F⦄ where
  abbrev last_b : Option (SimTick F) → Option F
  last_b none = none
  last_b (some t) = some t.b

  -- `SliceResult.calibrated_b`
  unfoldable pub calibrated_b : SliceResult F → Option F
  calibrated_b r = last_b (get_last? r.sim)

  -- `max(price_values) - min(price_values)`, of a list that is not empty
  unfoldable pub price_range : List F → F
  price_range [] = d.lit 0 0
  price_range (x ∷ xs) = d.sub (largest x xs) (smallest x xs)

  -- DEGENERATE_PRICE_RANGE
  abbrev pub is_degenerate : List F → Bool
  is_degenerate values = d.lt (price_range values) (d.lit 1 9)

  module _ (stats : Statistics F) where
    abbrev with_granger : Result (GrangerResult F) → SliceResult F → SliceResult F
    with_granger (ok g) r = record r { granger = some g }
    with_granger (err e) r = record r { granger_note = not_run e }

    -- the Granger test of enough observations; whatever it raises becomes the note
    unfoldable pub analyze_causality : List F → List F → SliceResult F → SliceResult F
    analyze_causality signal_values price_values r =
        if ltb (length signal_values) min_granger_obs
        then record r { granger_note = not_interpretable (length signal_values) }
        else with_granger
            (granger_test stats signal_values price_values "signal_to_price" 12 "aic" Bool.false) r

    -- `_analyze`
    unfoldable pub analyze : SliceResult F → Result (SliceResult F)
    unfolding aligned_pairs price_range analyze_causality
    analyze r =
        let (signal_values, price_values) = aligned_pairs r.signals r.prices in
        if ltb (length signal_values) 5
        then ok (record r { granger_note = too_few (length signal_values) })
        else if is_degenerate price_values
        then ok (record r { granger_note = not_moved (length price_values) })
        else do
          rows ←
              cross_correlation stats signal_values price_values (min 6 (length signal_values / 3))
          ok (analyze_causality signal_values price_values (record r { correlations = some rows }))

  module _ (mean : List F → F) where
    unfoldable pub score_columns : SliceResult F → ℤ → List F × List F → Result (SliceResult F)
    score_columns r outcome ([], market_probs) = ok (record r { score_note = no_pairs })
    score_columns r outcome (p ∷ probs, market_probs) = do
      scored ←
          score_market mean r.market.market.market_id r.model_version (p ∷ probs) market_probs
            outcome affine
      ok (record r { score = some scored })

    unfoldable pub score_outcome : SliceResult F → Bool → Option ℤ → Result (SliceResult F)
    unfolding score_columns columns prices_by_hour
    score_outcome r Bool.true (some outcome) =
        score_columns r outcome (columns (λ p. p.p_hat) r.signals (prices_by_hour r.prices))
    score_outcome r _ _ = ok (record r { score_note = unresolved })

    -- `_score`
    unfoldable pub score_slice : SliceResult F → Result (SliceResult F)
    unfolding score_outcome
    score_slice r =
        score_outcome r (is_settled r.market.market.status) r.market.market.resolved_outcome
