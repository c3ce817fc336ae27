-- ===== src/Engine/Laws.antt =====
-- engine/lmsr.py: the range of the calibrated liquidity and the cap of a step.
use augury.Prelude.{
  ℕ, suc, ◌≡◌, refl, ◌⊎◌, inl, inr, true, false, ◌&&◌, Option, none, some, List, [], ◌∷◌, ◌++◌,
  arith, length, Bool-cases, Option-cases, Result, Error, ok, err, value_error, >>=-eq-ok, raise_if,
}
use augury.Prelude.Int.{pos}
use augury.Prelude.Float.{
  Float, IsOrdered, ◌≼◌, py_max, py_min, py_div, math_fsum, math_log, clamp_bounds,
}
use augury.Signal.{logit, eps, clamp_probability}
use augury.Engine.Trades.{ok-inj, step_from_signal-trade}
use augury.Engine.{
  Side, is_side, takes_ask, takes_bid, b_min, b_max, candidate, clamp_b, fit, calibrate_from,
  calibrate_b_from_depth, LmsrMarket, buy_yes, capped, step_from_signal,
}

-- A positive count is not zero as a float: `candidates` has one or two elements.
abbrev pub CountsNonzero : (F : Type 0) ⦃d : Float F⦄ → Type 0
CountsNonzero F ⦃d⦄ = (n : ℕ) → d.eq (d.float (pos (suc n))) (d.lit 0 0) ≡ false

-- For a float q in [1e-6, 1 - 1e-6], 1 - q is not zero and q / (1 - q) is positive.
pub record IsLogitSafe (F : Type 0) ⦃d : Float F⦄ : Type 0 where
  pub is_band : eps ≼ d.sub (d.lit 1 0) eps
  pub is_proper :
      (q : F)
      → eps ≼ q
      → q ≼ d.sub (d.lit 1 0) eps
      → (d.eq (d.sub (d.lit 1 0) q) (d.lit 0 0) ≡ false)
        × (d.le (d.div q (d.sub (d.lit 1 0) q)) (d.lit 0 0) ≡ false)

module _ {F : Type 0} ⦃d : Float F⦄ where
  -- the depths that the side takes, the ask first
  abbrev pub depths : Option F → Option F → Side → List F
  depths depth_bid depth_ask side =
      candidate (takes_ask side) depth_ask ++ candidate (takes_bid side) depth_bid

  -- the fallback, or a value of the band [B_MIN, B_MAX]
  abbrev pub IsLiquidity : F → F → Type 0
  IsLiquidity fallback b = (b ≡ fallback) ⊎ ((b_min ≼ b) × (b ≼ b_max))

  module _ (laws : IsOrdered F) where
    open laws use {le_of_eq, le_of_lt, lit-le, refl_of_le}

    clamp_b-in : (b : F) → (b_min ≼ clamp_b b) × (clamp_b b ≼ b_max)
    clamp_b-in b = clamp_bounds laws b_min b_max b (lit-le 1 1_000_000 0 (omega arith))

    nonzero : (x : F) → d.le x (d.lit 0 0) ≡ false → d.eq x (d.lit 0 0) ≡ false
    nonzero x h = ground (arith, le_of_eq x (d.lit 0 0))

    logit-ok : IsLogitSafe F → (p : F) → (l : F) × (logit p eps ≡ ok l)
    unfolding logit clamp_probability py_div math_log
    logit-ok safe p =
        let q = clamp_probability p eps in
        let (low, high) = clamp_bounds laws eps (d.sub (d.lit 1 0) eps) p safe.is_band in
        let (proper, positive) = safe.is_proper q low high in rw (proper, positive) (_, refl)

    math_fsum-ok : (xs : List F) → d.fsum_error xs ≡ none → math_fsum xs ≡ ok (d.fsum xs)
    unfolding math_fsum
    math_fsum-ok xs h = rw (h, math_fsum) refl

    math_fsum-raises : (xs : List F) (e : Error) → d.fsum_error xs ≡ some e → math_fsum xs ≡ err e
    unfolding math_fsum
    math_fsum-raises xs e h = rw (h, math_fsum) refl

    -- liquidity, or the exception that `math.fsum` raises on the depths
    abbrev pub IsCalibrated : List F → F → Result F → Type 0
    IsCalibrated cs fallback r =
        ((b : F) × (r ≡ ok b) × IsLiquidity fallback b)
        ⊎ ((e : Error) × (r ≡ err e) × (d.fsum_error cs ≡ some e))

    fit-ok :
        CountsNonzero F
        → (cs : List F) (width fallback : F) → d.le width (d.lit 0 0) ≡ false
        → IsCalibrated cs fallback (fit cs width fallback)
    unfolding fit py_div
    fit-ok counts [] width fallback h = inl (fallback, refl, inl refl)
    fit-ok counts (c ∷ cs) width fallback h =
        let depth = d.div (d.fsum (c ∷ cs)) (d.float (pos (length (c ∷ cs)))) in
        elim (Option-cases (d.fsum_error (c ∷ cs))) [
          | inr (e, raised) ↦ rw (math_fsum-raises (c ∷ cs) e raised) (inr (e, refl, raised))
          | inl fine ↦ elim (Bool-cases (d.le depth (d.lit 0 0))) [
            | inl e ↦
                rw (math_fsum-ok (c ∷ cs) fine, counts (length cs), e)
                  (inl (fallback, refl, inl refl))
            | inr e ↦
                rw (math_fsum-ok (c ∷ cs) fine, counts (length cs), e, nonzero width h)
                  (inl (clamp_b (d.div depth width), refl, inr (clamp_b-in (d.div depth width))))
          ]
        ]

    calibrate_from-ok :
        CountsNonzero F
        → IsLogitSafe F
        → (depth_bid depth_ask yes_bid yes_ask : Option F) (side : Side) (fallback : F)
        → IsCalibrated
            (depths depth_bid depth_ask side)
            fallback
            (calibrate_from depth_bid depth_ask yes_bid yes_ask side fallback)
    unfolding calibrate_from
    calibrate_from-ok counts safe depth_bid depth_ask none yes_ask side fallback =
        inl (fallback, refl, inl refl)
    calibrate_from-ok counts safe depth_bid depth_ask (some yes_bid) none side fallback =
        inl (fallback, refl, inl refl)
    calibrate_from-ok counts safe depth_bid depth_ask (some yes_bid) (some yes_ask) side fallback =
        let usable = d.le (d.lit 0 0) yes_bid && d.lt yes_bid yes_ask && d.le yes_ask (d.lit 1 0) in
        let (high, high_eq) = logit-ok safe yes_ask in
        let (low, low_eq) = logit-ok safe yes_bid in
        let cs = depths depth_bid depth_ask side in
        elim (Bool-cases usable) [
          | inr e ↦ rw e (inl (fallback, refl, inl refl))
          | inl e ↦ elim (Bool-cases (d.le (d.sub high low) (d.lit 0 0))) [
            | inl k ↦ rw (e, high_eq, low_eq, k) (inl (fallback, refl, inl refl))
            | inr k ↦ rw (e, high_eq, low_eq, k) (fit-ok counts cs (d.sub high low) fallback k)
          ]
        ]

    -- For a known side and a positive fallback, `calibrate_b_from_depth` returns on every book, crossed,
    -- locked, one-sided and empty books included, the fallback or a liquidity in [B_MIN, B_MAX], and the one
    -- thing that it raises is the exception of `math.fsum` on the depths of the side, where that raises one.
    -- A positive count is not zero as a float, and for q in [1e-6, 1 - 1e-6], which is not empty, 1 - q is not
    -- zero and q / (1 - q) is positive.
    pub calibrate_b_from_depth-ok :
        CountsNonzero F
        → IsLogitSafe F
        → (depth_bid depth_ask yes_bid yes_ask : Option F) (side : Side) (fallback : F)
        → is_side side ≡ true
        → d.le fallback (d.lit 0 0) ≡ false
        → IsCalibrated
            (depths depth_bid depth_ask side)
            fallback
            (calibrate_b_from_depth depth_bid depth_ask yes_bid yes_ask side fallback)
    unfolding calibrate_b_from_depth
    calibrate_b_from_depth-ok counts safe depth_bid depth_ask yes_bid yes_ask side fallback h k =
        rw (h, k) (calibrate_from-ok counts safe depth_bid depth_ask yes_bid yes_ask side fallback)

    cap_bounds :
        (lo hi x : F) → lo ≼ hi → (lo ≼ py_max lo (py_min hi x)) × (py_max lo (py_min hi x) ≼ hi)
    cap_bounds lo hi x h =
        ground (arith, le_of_lt lo x, le_of_lt x hi, le_of_lt lo hi, refl_of_le lo hi)

    -- When `step_from_signal` with a cap succeeds, the traded shares lie between minus the cap
    -- and the cap, whatever the gap to the signal is, and the trade is exactly `buy_yes` of
    -- these shares. Minus the cap is at most the cap.
    pub step_from_signal-capped :
        (p_target responsiveness limit shares paid : F) (m after : LmsrMarket F)
        → d.neg limit ≼ limit
        → step_from_signal p_target responsiveness (some limit) m ≡ ok ((shares, paid), after)
        → (d.neg limit ≼ shares) × (shares ≼ limit) × (buy_yes shares m ≡ ok (paid, after))
    unfolding step_from_signal capped
    step_from_signal-capped p_target responsiveness limit shares paid m after h k =
        let (gap, gap_eq, trade) =
          step_from_signal-trade p_target responsiveness (some limit) shares paid m after k in
        let (_, _, s_eq) = >>=-eq-ok (raise_if (d.lt limit (d.lit 0 0)) value_error) _ gap_eq in
        let s_is = ok-inj s_eq in
        let (low, high) = cap_bounds (d.neg limit) limit gap h in
        (rw s_is at low, rw s_is at high, trade)
