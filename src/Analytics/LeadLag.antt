-- ===== src/Analytics/LeadLag.antt =====
-- analytics/leadlag.py. The tests of statsmodels and what pandas does with a series are third-party code,
-- the fields of `Statistics`. A series is a list in which `none` is NaN. `align_on_grid` is not modelled.
use Prim.Native.Nat.{min, max}
use augury.Prelude.{
  ℕ, zero, suc, ◌+◌, ◌-◌, ◌*◌, ◌/◌, String, Bool, true, false, not, ◌&&◌, ◌||◌, Option, none, some,
  List, [], ◌∷◌, map, if◌then◌else◌, ltb, length, Result, ok, err, value_error, ◌>>=◌, ◌>>◌,
  raise_if,
}
use augury.Prelude.Int.{ℤ, pos, negsuc, ◌-ℤ◌, ◌+ℤ◌}
use augury.Prelude.Keys.{◌==◌, string_key, nat_key}
use augury.Prelude.Float.{Float}
use augury.Signal.{logit}

-- what the module calls: ADF (statistic, p-value, lag, observations), the order that a criterion selects
-- among at most so many lags, the F test of the second column on the first (F, p-value), the correlation,
-- and the adjusted p-values of Benjamini and Hochberg
pub record Statistics (F : Type 0) : Type 0 where
  pub adfuller : List F → String → Result (F × F × ℕ × ℕ)
  pub select_order : List (F × F) → ℕ → String → Result ℤ
  pub granger : List (F × F) → ℕ → Result (F × F)
  pub corr : List (F × F) → F
  -- `series.dropna()`, `series.shift(lag)`, and the rows of two columns beside each other that `dropna` leaves
  pub dropna : List (Option F) → List F
  pub shift : ℤ → List (Option F) → List (Option F)
  pub paired : List (Option F) → List (Option F) → List (F × F)
  pub multipletests : List F → F → Result (List F)

pub record StationarityResult (F : Type 0) : Type 0 where
  pub statistic : F
  pub p_value : F
  pub used_lag : ℕ
  pub n_obs : ℕ

pub record GrangerResult (F : Type 0) : Type 0 where
  pub direction : String
  pub lag_order : ℕ
  pub lag_criterion : String
  pub n_obs : ℕ
  pub f_statistic : F
  pub p_value : F
  pub adf_p_signal : Option F
  pub adf_p_price : Option F
  pub p_value_adj : Option F

-- one row of the table of `cross_correlation`
pub record LagRow (F : Type 0) : Type 0 where
  pub lag : ℤ
  pub correlation : Option F
  pub n_obs : ℕ
  pub interpretation : String

-- `range(start, start + n)`
abbrev pub range_from : ℤ → ℕ → List ℤ
range_from start zero = []
range_from start (suc n) = start ∷ range_from (start +ℤ pos 1) n

abbrev pub interpretation_of : ℤ → String
interpretation_of (pos zero) = "contemporaneous"
interpretation_of (pos (suc n)) = "signal leads"
interpretation_of (negsuc n) = "price leads"

-- `max(1, order)`, and 1 when the selection fails
abbrev pub at_least_one : Result ℤ → ℕ
at_least_one (ok (pos n)) = max 1 n
at_least_one _ = 1

-- at most so many lags, for the number of observations
abbrev pub usable_lags : ℕ → ℕ → ℕ
usable_lags max_lags n_obs = max 1 (min max_lags ((n_obs - 2) / 4))

module _ {F : Type 0} ⦃d : Float F⦄ where
  -- a float of a series
  abbrev pub of_float : F → Option F
  of_float x = if d.eq x x then some x else none

  abbrev pub largest : F → List F → F
  largest x [] = x
  largest x (y ∷ ys) = largest (if d.lt x y then y else x) ys

  abbrev pub smallest : F → List F → F
  smallest x [] = x
  smallest x (y ∷ ys) = smallest (if d.lt y x then y else x) ys

  -- `_has_variation`, of the values that are not NaN
  unfoldable pub has_variation : List F → Bool
  has_variation [] = false
  has_variation (x ∷ xs) = d.lt (d.lit 1 9) (d.sub (largest x xs) (smallest x xs))

  unfoldable pub is_stationary : StationarityResult F → Bool
  is_stationary r = d.lt r.p_value (d.lit 5 2)

  unfoldable pub significant : GrangerResult F → Bool
  significant g = below g.p_value_adj
    where
      below : Option F → Bool
      below none = false
      below (some p) = d.lt p (d.lit 5 2)

  unfoldable pub logit_series : List (Option F) → F → Result (List (Option F))
  logit_series [] eps = ok []
  logit_series (none ∷ xs) eps = do rest ← logit_series xs eps; ok (none ∷ rest)
  logit_series (some v ∷ xs) eps = do
    x ← logit v eps
    rest ← logit_series xs eps
    ok (of_float x ∷ rest)

  unfoldable pub signal_to_probability : List (Option F) → List (Option F)
  signal_to_probability [] = []
  signal_to_probability (none ∷ xs) = none ∷ signal_to_probability xs
  signal_to_probability (some x ∷ xs) =
      of_float (d.div (d.add x (d.lit 1 0)) (d.lit 2 0)) ∷ signal_to_probability xs

  module _ (stats : Statistics F) where
    unfoldable pub stationarity : List (Option F) → String → Result (StationarityResult F)
    unfolding has_variation
    stationarity series regression = do
      let clean = stats.dropna series
      raise_if (ltb (length clean) 10) value_error
      raise_if (not (has_variation clean)) value_error
      (statistic, p_value, used_lag, n_obs) ← stats.adfuller clean regression
      ok (record { statistic = statistic; p_value = p_value; used_lag = used_lag; n_obs = n_obs })

    unfoldable pub select_lag_order : List (F × F) → ℕ → String → Result ℕ
    select_lag_order frame max_lags criterion = do
      raise_if (not (criterion == "aic" || criterion == "bic")) value_error
      let usable = usable_lags max_lags (length frame)
      ok (at_least_one (stats.select_order frame usable criterion))

    -- the logits of both series, unless they are transformed already
    unfoldable pub transformed :
        Bool → List (Option F) → List (Option F) → Result (List (Option F) × List (Option F))
    unfolding logit_series signal_to_probability
    transformed true s p = ok (s, p)
    transformed false s p = do
      s' ← logit_series (signal_to_probability s) (d.lit 1 6)
      p' ← logit_series p (d.lit 1 6)
      ok (s', p')

    -- the column that may be caused stands first
    abbrev ordered : String → List (F × F) → List (F × F)
    ordered direction frame =
        if direction == "signal_to_price" then map (λ r. (r.1, r.0)) frame else frame

    unfoldable pub granger_test :
        List F
        → List F
        → (direction : String) (max_lags : ℕ) (criterion : String) (already_transformed : Bool)
        → Result (GrangerResult F)
    unfolding transformed stationarity select_lag_order
    granger_test signal price direction max_lags criterion already_transformed = do
      raise_if (not (direction == "signal_to_price" || direction == "price_to_signal")) value_error
      raise_if (not (length signal == length price)) value_error
      (s, p) ← transformed already_transformed (map of_float signal) (map of_float price)
      let frame = stats.paired s p
      raise_if (ltb (length frame) 20) value_error
      adf_signal ← stationarity (map (λ r. some r.0) frame) "c"
      adf_price ← stationarity (map (λ r. some r.1) frame) "c"
      lag_order ← select_lag_order frame max_lags criterion
      (f_statistic, p_value) ← stats.granger (ordered direction frame) lag_order
      ok (record {
        direction = direction;
        lag_order = lag_order;
        lag_criterion = criterion;
        n_obs = length frame;
        f_statistic = f_statistic;
        p_value = p_value;
        adf_p_signal = some adf_signal.p_value;
        adf_p_price = some adf_price.p_value;
        p_value_adj = none;
      })

    -- the correlation of the pairs of one lag
    unfoldable pub lag_row : List (Option F) → List (Option F) → ℤ → LagRow F
    unfolding has_variation
    lag_row s p lag =
        let pairs = stats.paired (stats.shift lag s) p in
        let varied =
          ltb 2 (length pairs)
          && has_variation (map (λ r. r.0) pairs)
          && has_variation (map (λ r. r.1) pairs) in
        record {
          lag = lag;
          correlation = if varied then of_float (stats.corr pairs) else none;
          n_obs = length pairs;
          interpretation = interpretation_of lag;
        }

    unfoldable pub cross_correlation : List F → List F → ℕ → Result (List (LagRow F))
    unfolding lag_row
    cross_correlation signal price max_lag = do
      raise_if (ltb max_lag 1) value_error
      raise_if (not (length signal == length price)) value_error
      let s = map of_float signal
      let p = map of_float price
      ok (map (lag_row s p) (range_from (pos 0 -ℤ pos max_lag) (2 * max_lag + 1)))

    -- `replace(r, p_value_adj=adj)`, over `zip(..., strict=True)`
    unfoldable pub with_adjusted : List (GrangerResult F) → List F → Result (List (GrangerResult F))
    with_adjusted [] [] = ok []
    with_adjusted (r ∷ rs) (adj ∷ adjs) = do
      rest ← with_adjusted rs adjs
      ok (record r { p_value_adj = some adj } ∷ rest)
    with_adjusted _ _ = err value_error

    unfoldable pub benjamini_hochberg : List (GrangerResult F) → F → Result (List (GrangerResult F))
    unfolding with_adjusted
    benjamini_hochberg [] alpha = ok []
    benjamini_hochberg (r ∷ rs) alpha = do
      raise_if (not (d.lt (d.lit 0 0) alpha && d.lt alpha (d.lit 1 0))) value_error
      adjusted ← stats.multipletests (map (λ g. g.p_value) (r ∷ rs)) alpha
      with_adjusted (r ∷ rs) adjusted
