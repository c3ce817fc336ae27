-- ===== src/Signal/Calibration.antt =====
-- signal/calibration.py: the maps from S(t) to a probability. `fit_platt` is in Signal/Platt.
use augury.Prelude.{
  ℕ, not, Option, none, some, if◌then◌else◌, Result, ok, err, value_error, ◌>>=◌, ◌>>◌, raise_if,
}
use augury.Prelude.Float.{Float, py_max, py_min, py_div, math_exp, math_log}
use augury.Models.{Calibration, affine, platt, in_signed_unit}

pub record PlattParams (F : Type 0) : Type 0 where
  pub a : F
  pub b : F
  pub n_obs : ℕ
  pub log_loss : F

module _ {F : Type 0} ⦃d : Float F⦄ where
  -- EPS
  abbrev pub eps : F
  eps = d.lit 1 6

  unfoldable pub sigmoid : F → Result F
  sigmoid x =
      if d.le (d.lit 0 0) x
      then (do e ← math_exp (d.neg x); py_div (d.lit 1 0) (d.add (d.lit 1 0) e))
      else do z ← math_exp x; py_div z (d.add (d.lit 1 0) z)

  unfoldable pub clamp_probability : F → F → F
  clamp_probability p eps = py_min (d.sub (d.lit 1 0) eps) (py_max eps p)

  unfoldable pub logit : F → F → Result F
  unfolding clamp_probability
  logit p eps = do
    let q = clamp_probability p eps
    odds ← py_div q (d.sub (d.lit 1 0) q)
    math_log odds

  unfoldable pub apply : PlattParams F → F → Result F
  unfolding sigmoid
  apply params s = sigmoid (d.add params.a (d.mul params.b s))

  mapped : F → Calibration → Option (PlattParams F) → Result F
  unfolding apply
  mapped s_t affine params = ok (d.div (d.add s_t (d.lit 1 0)) (d.lit 2 0))
  mapped s_t platt none = err value_error
  mapped s_t platt (some params) = apply params s_t

  unfoldable pub to_probability : F → Calibration → Option (PlattParams F) → Result F
  unfolding mapped
  to_probability s_t calibration params = do
    raise_if (not (in_signed_unit s_t)) value_error
    mapped s_t calibration params
