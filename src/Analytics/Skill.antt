-- ===== src/Analytics/Skill.antt =====
-- analytics/scoring.py: when the scores exist.
use augury.Prelude.{
  suc, ◌≡◌, refl, String, true, false, not, List, [], ◌∷◌, map, arith, length, any, nat_eq,
  Bool-cases, inl, inr, ok, some, All,
}
use augury.Prelude.Int.{ℤ}
use augury.Prelude.Float.{Float, py_div}
use augury.Models.{Calibration, is_outcome, in_unit}
use augury.Analytics.{
  ScoreResult, brier_score, skill, brier_skill_score, score_market, square_error,
}

module _ {F : Type 0} ⦃d : Float F⦄ where
  -- a finite number of [0, 1]
  abbrev pub IsProbability : F → Type 0
  IsProbability p = (d.is_finite p ≡ true) × (in_unit p ≡ true)

  none_infinite : (ps : List F) → All IsProbability ps → any (λ x. not (d.is_finite x)) ps ≡ false
  none_infinite [] h = refl
  none_infinite (p ∷ ps) h = ground (arith, none_infinite ps h.1, h.0)

  none_outside : (ps : List F) → All IsProbability ps → any (λ x. not (in_unit x)) ps ≡ false
  none_outside [] h = refl
  none_outside (p ∷ ps) h = ground (arith, none_outside ps h.1, h.0)

  skill-ok : (s m : F) → (b : F) × (skill s m ≡ ok b)
  unfolding skill py_div
  skill-ok s m = elim (Bool-cases (d.eq m (d.lit 0 0))) [
    | inl e ↦ rw e (_, refl)
    | inr e ↦ rw e (_, refl)
  ]

  module _ (mean : List F → F) where
    brier_score-ok :
        (p : F) (ps : List F) (outcome : ℤ)
        → is_outcome (some outcome) ≡ true
        → All IsProbability (p ∷ ps)
        → brier_score mean (p ∷ ps) outcome ≡ ok (mean (map (square_error outcome) (p ∷ ps)))
    unfolding brier_score
    brier_score-ok p ps outcome o h =
        let filled : nat_eq (suc (length ps)) 0 ≡ false = ground arith in
        rw (o, filled, none_infinite (p ∷ ps) h, none_outside (p ∷ ps) h) refl

    -- For an outcome of 0 or 1 and two series of probabilities of one length, not empty,
    -- `score_market` returns a score: a perfect market does not make it divide by zero. The
    -- score counts the observations, keeps the outcome, its skill is the one of
    -- `brier_skill_score`, and its market score the one of `brier_score`.
    pub score_market-ok :
        (mid version : String) (p q : F) (ps qs : List F) (outcome : ℤ) (calibration : Calibration)
        → is_outcome (some outcome) ≡ true
        → All IsProbability (p ∷ ps)
        → All IsProbability (q ∷ qs)
        → length ps ≡ length qs
        → (r : ScoreResult F) × (score_market mean mid version (p ∷ ps) (q ∷ qs) outcome calibration
            ≡ ok r)
          × (length (q ∷ qs) ≡ r.n_obs)
          × (r.resolved_outcome ≡ outcome)
          × (brier_skill_score mean (p ∷ ps) (q ∷ qs) outcome ≡ ok r.bss)
          × (brier_score mean (q ∷ qs) outcome ≡ ok r.brier_market)
    unfolding score_market
    score_market-ok mid version p q ps qs outcome calibration o h k l =
        let paired : nat_eq (length (p ∷ ps)) (length (q ∷ qs)) ≡ true = ground (arith, l) in
        let bs_signal = mean (map (square_error outcome) (p ∷ ps)) in
        let bs_market = mean (map (square_error outcome) (q ∷ qs)) in
        let (bss, bss_eq) = skill-ok bs_signal bs_market in
        let signal_eq = brier_score-ok p ps outcome o h in
        let market_eq = brier_score-ok q qs outcome o k in
        rw (signal_eq, market_eq, paired, bss_eq) (_, refl, omega (arith, l), refl, refl, refl)
