-- ===== src/Analytics/Lags.antt =====
-- The lags of leadlag.py: which values the row of a lag compares, and which order is selected.
use augury.Prelude.{
  ℕ, suc, ◌+◌, ◌*◌, ◌≤◌, String, true, false, Option, none, some, List, map, ◌≡◌, refl, ◌||◌, ◌⊎◌,
  ◌&&◌, ltb, nat_eq_iff, ok, err, arith, inl, IsIn, length, Result, if◌then◌else◌,
}
use augury.Prelude.Int.{ℤ, pos, negsuc, ◌-ℤ◌}
use augury.Prelude.Float.{Float}
use augury.Prelude.Keys.{◌==◌, string_key, nat_key}
use augury.Analytics.LeadLag.{
  Statistics, LagRow, lag_row, cross_correlation, range_from, select_lag_order, usable_lags,
  at_least_one, of_float, has_variation,
}
use augury.Pipeline.{get_elem?}

-- the place of the first series is `lag` before the place of the second
abbrev pub IsLed : ℤ → ℕ → ℕ → Type 0
IsLed (pos k) u t = t ≡ u + k
IsLed (negsuc k) u t = u ≡ t + suc k

-- the values x and y stand in two series so that y is `lag` places after x
abbrev pub IsLagPair : {F : Type 0} → ℤ → (s p : List (Option F)) → F × F → Type 0
IsLagPair lag s p r =
    (u t : ℕ) × (get_elem? s u ≡ some (some r.0))
    × (get_elem? p t ≡ some (some r.1))
    × IsLed lag u t

-- What pandas documents: `shift` moves each value by `lag` places, and the rows that `dropna` leaves of two
-- columns are values at the same place.
pub record IsPandas {F : Type 0} (stats : Statistics F) : Type 0 where
  pub get_elem?-shift :
      (lag : ℤ) (s : List (Option F)) (t : ℕ) (x : F)
      → get_elem? (stats.shift lag s) t ≡ some (some x)
      → (u : ℕ) × (get_elem? s u ≡ some (some x)) × IsLed lag u t
  pub is_beside :
      (xs ys : List (Option F)) (r : F × F)
      → IsIn r (stats.paired xs ys)
      → (t : ℕ) × (get_elem? xs t ≡ some (some r.0)) × (get_elem? ys t ≡ some (some r.1))

at_least_one-bounds :
    (found : Result ℤ) (max_lags n : ℕ)
    → ((o : ℕ) → found ≡ ok (pos o) → o ≤ usable_lags max_lags n)
    → (1 ≤ at_least_one found)
      × ((at_least_one found ≡ 1)
          ⊎ ((at_least_one found ≤ max_lags) × (4 * at_least_one found + 2 ≤ n)))
at_least_one-bounds (err e) max_lags n h = (omega arith, inl refl)
at_least_one-bounds (ok (negsuc o)) max_lags n h = (omega arith, inl refl)
at_least_one-bounds (ok (pos o)) max_lags n h = grind (arith, h o refl)

module _ {F : Type 0} ⦃d : Float F⦄ (stats : Statistics F) where
  -- for two series of one length and a positive `max_lag`, the rows of the lags
  pub cross_correlation-ok :
      (signal price : List F) (max_lag : ℕ)
      → length signal ≡ length price
      → 1 ≤ max_lag
      → cross_correlation stats signal price max_lag
        ≡ ok (
            map
              (lag_row stats (map of_float signal) (map of_float price))
              (range_from (pos 0 -ℤ pos max_lag) (2 * max_lag + 1)))
  unfolding cross_correlation
  cross_correlation-ok signal price max_lag same positive =
      let low : ltb max_lag 1 ≡ false = ground (arith, positive) in
      let even : (length signal == length price) ≡ true = (nat_eq_iff _ _).1 same in
      rw (low, even) refl

  -- the row compares `pairs`, of values `lag` places apart: it counts them, and its correlation is theirs,
  -- or missing unless there are more than two and both columns vary
  abbrev pub IsRowOf : (s p : List (Option F)) → LagRow F → Type 0
  IsRowOf s p row =
      (pairs : List (F × F)) × ((r : F × F) → IsIn r pairs → IsLagPair row.lag s p r)
      × (row.n_obs ≡ length pairs)
      × (row.correlation ≡ (
          if ltb 2 (length pairs)
            && has_variation (map (λ r. r.0) pairs)
            && has_variation (map (λ r. r.1) pairs)
          then of_float (stats.corr pairs)
          else none))

  -- With a known criterion, and a library that selects no order above the bound that it is given,
  -- `select_lag_order` returns an order of at least 1 that is 1, or is at most `max_lags` and leaves more
  -- than four observations for each lag.
  pub select_lag_order-ok :
      (frame : List (F × F)) (max_lags : ℕ) (criterion : String)
      → (honors : (n o : ℕ) → stats.select_order frame n criterion ≡ ok (pos o) → o ≤ n)
      → (criterion == "aic" || criterion == "bic") ≡ true
      → (k : ℕ) × (select_lag_order stats frame max_lags criterion ≡ ok k)
        × (1 ≤ k)
        × ((k ≡ 1) ⊎ ((k ≤ max_lags) × (4 * k + 2 ≤ length frame)))
  unfolding select_lag_order
  select_lag_order-ok frame max_lags criterion honors known =
      let usable = usable_lags max_lags (length frame) in
      let (low, high) =
        at_least_one-bounds (stats.select_order frame usable criterion) max_lags (length frame)
          (λ o h. honors usable o h) in
      (at_least_one (stats.select_order frame usable criterion), rw known refl, low, high)
