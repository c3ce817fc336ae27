-- ===== src/Signal/Decay.antt =====
-- signal/decay.py: the weight of a post and `compute_signal`.
use augury.Prelude.{
  ℕ, ◌-◌, String, Bool, false, not, ◌||◌, Option, none, some, List, [], ◌∷◌, map, if◌then◌else◌,
  ltb, length, Result, ok, err, value_error, ◌>>=◌, ◌>>◌, raise_if,
}
use augury.Prelude.Int.{ℤ, pos, ltb_ℤ}
use augury.Prelude.Float.{Float, py_max, py_min, py_div, math_exp, math_log}
use augury.Models.{DateTime, Calibration, SignalPoint, make_signal_point, in_signed_unit}
use augury.Signal.Calibration.{to_probability}

pub record Contribution (F : Type 0) : Type 0 where
  pub created_at : DateTime
  pub stance : F
  pub followers : ℤ
  pub engagements : ℤ
  pub weight_override : Option F

-- `c.created_at < at - max_age`, when there is a `max_age`. `at - max_age` is a date, so the
-- difference does not reach below the first day.
abbrev pub is_expired : DateTime → Option ℕ → DateTime → Bool
is_expired at none t = false
is_expired at (some age) t = ltb t (at - age)

module _ {F : Type 0} ⦃d : Float F⦄ where
  -- `total_seconds()` of a number of microseconds
  abbrev pub total_seconds : ℕ → F
  total_seconds us = d.div (d.float (pos us)) (d.lit 1_000_000 0)

  unfoldable pub decay_lambda : F → Result F
  decay_lambda half_life =
      if d.le half_life (d.lit 0 0) then err value_error else py_div (d.ln (d.lit 2 0)) half_life

  unfoldable pub post_weight : ℤ → ℤ → Result F
  post_weight followers engagements = do
    raise_if (ltb_ℤ followers (pos 0)) value_error
    raise_if (ltb_ℤ engagements (pos 0)) value_error
    ok (d.mul (d.ln_1p (d.float followers)) (d.add (d.lit 1 0) (d.float engagements)))

  override_or : Option F → Result F → Result F
  override_or none w = w
  override_or (some w) _ = ok w

  unfoldable pub weight : Contribution F → Result F
  unfolding override_or post_weight
  weight c = override_or c.weight_override (post_weight c.followers c.engagements)

  -- One contribution inside the window: what it adds to `log_terms` and `stances`, in front of what
  -- the later ones add.
  unfoldable pub add_term :
      DateTime → F → Contribution F → Result (List (F × F)) → Result (List (F × F))
  unfolding weight
  add_term at lam c rest = do
    w ← weight c
    if d.le w (d.lit 0 0) then rest else do
      raise_if (not (in_signed_unit c.stance)) value_error
      ln_w ← math_log w
      terms ← rest
      ok ((d.sub ln_w (d.mul lam (total_seconds (at - c.created_at))), c.stance) ∷ terms)

  -- the loop over the contributions
  unfoldable pub log_terms : DateTime → Option ℕ → F → List (Contribution F) → Result (List (F × F))
  unfolding add_term
  log_terms at max_age lam [] = ok []
  log_terms at max_age lam (c ∷ cs) =
      let rest = log_terms at max_age lam cs in
      if ltb at c.created_at || is_expired at max_age c.created_at
      then rest
      else add_term at lam c rest

  -- `max` of a list that is not empty
  unfoldable pub maximum : F → List F → F
  maximum best [] = best
  maximum best (x ∷ xs) = maximum (py_max best x) xs

  -- `[math.exp(lt - peak) for lt in log_terms]`
  unfoldable pub relative : F → List (F × F) → Result (List F)
  relative peak [] = ok []
  relative peak ((lt, s) ∷ terms) = do
    r ← math_exp (d.sub lt peak)
    rs ← relative peak terms
    ok (r ∷ rs)

  -- `s * r for s, r in zip(stances, relative)`
  abbrev pub products : List (F × F) → List F → List F
  products ((lt, s) ∷ terms) (r ∷ rs) = d.mul s r ∷ products terms rs
  products _ _ = []

  -- `except OverflowError: weight_sum = math.inf`
  abbrev or_inf : Result F → F → F
  or_inf (ok e) denominator = d.mul e denominator
  or_inf (err e) denominator = d.inf

  calibrated : F → Option Calibration → Result (Option F)
  calibrated s_t none = ok none
  calibrated s_t (some c) = do p ← to_probability s_t c none; ok (some p)

  abbrev pub clamp_signal : F → F
  clamp_signal s = py_min (d.lit 1 0) (py_max (d.neg (d.lit 1 0)) s)

  -- the rest of `compute_signal`, on the terms of the loop
  unfoldable pub aggregate :
      DateTime
      → F
      → String
      → String
      → Option Calibration
      → List (F × F)
      → Result (Option (SignalPoint F))
  unfolding maximum relative calibrated
  aggregate at half_life mid version calibrate [] = ok none
  aggregate at half_life mid version calibrate ((lt, s) ∷ terms) = do
    let all = (lt, s) ∷ terms
    let peak = maximum lt (map (λ e. e.0) terms)
    rel ← relative peak all
    let denominator = d.fsum rel
    if d.eq denominator (d.lit 0 0) then ok none else do
      let s_t = clamp_signal (d.div (d.fsum (products all rel)) denominator)
      p_hat ← calibrated s_t calibrate
      point ← make_signal_point (record {
        market_id = mid;
        ts = at;
        model_version = version;
        s_t = s_t;
        n_posts = length all;
        weight_sum = or_inf (math_exp peak) denominator;
        half_life_seconds = half_life;
        p_hat = p_hat;
        calibration = calibrate;
        computed_at = none;
      })
      ok (some point)

  unfoldable pub compute_signal :
      List (Contribution F)
      → DateTime
      → F
      → String
      → String
      → Option ℕ
      → Option Calibration
      → Result (Option (SignalPoint F))
  unfolding decay_lambda log_terms aggregate
  compute_signal contributions at half_life mid version max_age calibrate = do
    lam ← decay_lambda half_life
    terms ← log_terms at max_age lam contributions
    aggregate at half_life mid version calibrate terms
