-- ===== src/Analytics/Corrected.antt =====
-- When a Granger result counts: `granger_test` leaves it uncorrected, `benjamini_hochberg` corrects a batch.
use augury.Prelude.{
  ℕ, ◌≤◌, String, Bool, true, false, not, ◌||◌, none, some, List, [], ◌∷◌, map, ◌≡◌, refl, ap, ok,
  arith, length, ltb, value_error, IsPost, IsPost->>=, IsPost-unless, IsPost-after, IsPost-ok,
  ltb→le,
}
use augury.Prelude.Float.{Float}
use augury.Prelude.Keys.{◌==◌, string_key, nat_key}
use augury.Analytics.LeadLag.{
  Statistics, GrangerResult, granger_test, benjamini_hochberg, with_adjusted, significant,
  transformed, stationarity, select_lag_order, of_float,
}

module _ {F : Type 0} ⦃d : Float F⦄ (stats : Statistics F) where
  -- at least 20 observations and one lag, and not significant before the correction
  abbrev pub IsRaw : String → GrangerResult F → Type 0
  IsRaw direction g =
      (g.direction ≡ direction) × (20 ≤ g.n_obs) × (1 ≤ g.lag_order) × (significant g ≡ false)

  select_lag_order-IsPost :
      (frame : List (F × F)) (max_lags : ℕ) (criterion : String)
      → IsPost (λ k. 1 ≤ k) (select_lag_order stats frame max_lags criterion)
  unfolding select_lag_order
  select_lag_order-IsPost frame max_lags criterion = ground arith

  granger_test-IsPost :
      (signal price : List F) (direction : String) (max_lags : ℕ) (criterion : String)
      → (already : Bool)
      → IsPost
          (IsRaw direction)
          (granger_test stats signal price direction max_lags criterion already)
  unfolding granger_test significant
  granger_test-IsPost signal price direction max_lags criterion already =
      let P = IsRaw direction in
      IsPost-unless P (not (direction == "signal_to_price" || direction == "price_to_signal"))
        value_error _
        λ known. IsPost-unless P (not (length signal == length price)) value_error _ λ same.
          IsPost->>= P (transformed stats already (map of_float signal) (map of_float price)) _
            λ series.
              let frame = stats.paired series.0 series.1 in
              IsPost-unless P (ltb (length frame) 20) value_error _ λ enough.
                IsPost->>= P (stationarity stats (map (λ r. some r.0) frame) "c") _ λ adf_signal.
                  IsPost->>= P (stationarity stats (map (λ r. some r.1) frame) "c") _ λ adf_price.
                    IsPost-after P (λ k. 1 ≤ k) (select_lag_order stats frame max_lags criterion) _
                      (select_lag_order-IsPost frame max_lags criterion)
                      λ lag_order positive.
                        IsPost->>= P (stats.granger _ lag_order) _
                          λ test. (refl, ltb→le (length frame) 20 enough, positive, refl)

  -- A result of `granger_test` has the direction that was asked for, at least 20 observations and a lag
  -- order of at least 1, and it is not significant before a correction.
  pub granger_test-IsRaw :
      (signal price : List F) (direction : String) (max_lags : ℕ) (criterion : String)
      → (already : Bool) (g : GrangerResult F)
      → granger_test stats signal price direction max_lags criterion already ≡ ok g
      → IsRaw direction g
  granger_test-IsRaw signal price direction max_lags criterion already g h =
      IsPost-ok (IsRaw direction) _ g
        (granger_test-IsPost signal price direction max_lags criterion already) h

  -- the record, apart from the corrected p-value
  abbrev pub uncorrected : GrangerResult F → GrangerResult F
  uncorrected g = record g { p_value_adj = none }

  with_adjusted-ok :
      (rs : List (GrangerResult F)) (adjusted : List F)
      → length adjusted ≡ length rs
      → (out : List (GrangerResult F)) × (with_adjusted stats rs adjusted ≡ ok out)
        × (map uncorrected out ≡ map uncorrected rs)
        × (map significant out ≡ map (λ p. d.lt p (d.lit 5 2)) adjusted)
  unfolding with_adjusted significant
  with_adjusted-ok [] [] h = ([], refl, refl, refl)
  with_adjusted-ok [] (a ∷ ps) h = absurd (omega (arith, h))
  with_adjusted-ok (r ∷ rs) [] h = absurd (omega (arith, h))
  with_adjusted-ok (r ∷ rs) (a ∷ ps) h =
      let (out, e, f, g) = with_adjusted-ok rs ps (omega (arith, h)) in
      (
        record r { p_value_adj = some a } ∷ out,
        rw e refl,
        ap (λ l. uncorrected r ∷ l) f,
        ap (λ l. d.lt a (d.lit 5 2) ∷ l) g,
      )

  -- For an `alpha` strictly between 0 and 1, and a library that adjusts each p-value, `benjamini_hochberg`
  -- returns the results in their order, changed in nothing but the adjusted p-value, and significant exactly
  -- where the adjusted p-value is below 0.05.
  pub benjamini_hochberg-ok :
      (r : GrangerResult F) (rs : List (GrangerResult F)) (alpha : F) (adjusted : List F)
      → d.lt (d.lit 0 0) alpha ≡ true
      → d.lt alpha (d.lit 1 0) ≡ true
      → stats.multipletests (map (λ g. g.p_value) (r ∷ rs)) alpha ≡ ok adjusted
      → length adjusted ≡ length (r ∷ rs)
      → (out : List (GrangerResult F)) × (benjamini_hochberg stats (r ∷ rs) alpha ≡ ok out)
        × (map uncorrected out ≡ map uncorrected (r ∷ rs))
        × (map significant out ≡ map (λ p. d.lt p (d.lit 5 2)) adjusted)
  unfolding benjamini_hochberg
  benjamini_hochberg-ok r rs alpha adjusted low high found same =
      let (out, e, f, g) = with_adjusted-ok (r ∷ rs) adjusted same in
      (out, rw (low, high, found) e, f, g)
