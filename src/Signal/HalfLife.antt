-- ===== src/Signal/HalfLife.antt =====
-- signal/decay.py: `effective_half_life`.
use augury.Prelude.{Bool, if◌then◌else◌, Result, ok, value_error, ◌>>=◌, ◌>>◌, raise_if, not}
use augury.Prelude.Float.{Float, py_max, py_div}

pub record AdaptiveDecayConfig (F : Type 0) : Type 0 where
  pub enabled : Bool
  pub min_half_life_hours : F
  pub volume_surge_multiple : F
  pub price_move_threshold : F

module _ {F : Type 0} ⦃d : Float F⦄ where
  abbrev pub nought : F
  nought = d.lit 0 0

  -- MIN_BASELINE_POST_RATE, and the factor below the triggers
  abbrev pub unity : F
  unity = d.lit 1 0

  unfoldable pub volume_factor : F → F → F → Result F
  volume_factor recent_post_count baseline_post_rate volume_surge_multiple =
      if d.lt nought volume_surge_multiple
      then (do
        surge ←
            py_div recent_post_count (d.mul (py_max baseline_post_rate unity) volume_surge_multiple)
        ok (py_max unity surge))
      else ok unity

  unfoldable pub price_factor : F → F → Result F
  price_factor recent_price_move price_move_threshold =
      if d.lt nought price_move_threshold
      then (do
        ratio ← py_div (d.abs recent_price_move) price_move_threshold
        ok (py_max unity ratio))
      else ok unity

  unfoldable pub effective_half_life :
      F
      → (min_half_life recent_post_count baseline_post_rate recent_price_move : F)
      → (volume_surge_multiple price_move_threshold : F) (enabled : Bool) → Result F
  unfolding volume_factor price_factor
  effective_half_life base min_half_life recent rate move multiple threshold enabled = do
    raise_if (d.le base nought) value_error
    raise_if (d.le min_half_life nought) value_error
    if not enabled then ok base else do
      v ← volume_factor recent rate multiple
      p ← price_factor move threshold
      shortened ← py_div base (py_max v p)
      ok (py_max min_half_life shortened)
