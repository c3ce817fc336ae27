-- ===== src/Signal/Bounds.antt =====
-- signal/decay.py and signal/calibration.py: the ranges of the results.
use augury.Prelude.{
  ◌≡◌, refl, String, true, false, none, some, List, ◌∷◌, map, arith, length, Bool-cases, inl, inr,
  ok,
}
use augury.Prelude.Float.{Float, IsOrdered, ◌≼◌, py_max, py_div, clamp_bounds}
use augury.Models.{DateTime, SignalPoint, make_signal_point, in_signed_unit}
use augury.Signal.{
  aggregate, relative, products, maximum, clamp_signal, effective_half_life, volume_factor,
  price_factor,
}

module _ {F : Type 0} ⦃d : Float F⦄ (laws : IsOrdered F) where
  open laws use {
    not_le_of_lt, not_one_le_zero, le_trans, le_of_lt, refl_of_le, le_of_eq, neg_one_le_one, lit-le,
  }

  one_le_one : d.lit 1 0 ≼ d.lit 1 0
  one_le_one = lit-le 1 1 0 (omega arith)

  clamp_signal-in : (s : F) → in_signed_unit (clamp_signal s) ≡ true
  clamp_signal-in s =
      ground (arith, clamp_bounds laws (d.neg (d.lit 1 0)) (d.lit 1 0) s neg_one_le_one)

  -- On at least one term, when no calibration is asked, the exponentials do not overflow and
  -- their sum is not zero, what `compute_signal` does after its loop returns a point: the clamp
  -- makes the range check of `SignalPoint` pass whatever the rounding of the mean was, NaN
  -- included. The point lies in [-1, 1] and counts every term.
  pub aggregate-ok :
      (at : DateTime) (half_life : F) (mid version : String) (t : F × F) (terms : List (F × F))
      (rel : List F)
      → relative (maximum t.0 (map (λ e. e.0) terms)) (t ∷ terms) ≡ ok rel
      → d.eq (d.fsum rel) (d.lit 0 0) ≡ false
      → (p : SignalPoint F) × (aggregate at half_life mid version none (t ∷ terms) ≡ ok (some p))
        × (in_signed_unit p.s_t ≡ true)
        × (length (t ∷ terms) ≡ p.n_posts)
  unfolding aggregate make_signal_point
  aggregate-ok at half_life mid version t terms rel h k =
      let s = d.div (d.fsum (products (t ∷ terms) rel)) (d.fsum rel) in
      rw (h, k, clamp_signal-in s) (_, refl, clamp_signal-in s, refl)

  one_le-max : (x y : F) → d.lit 1 0 ≼ x → d.lit 1 0 ≼ py_max x y
  one_le-max x y h = ground (arith, le_of_lt x y, le_trans (d.lit 1 0) x y)

  floor_le_max : (floor x : F) → floor ≼ floor → floor ≼ py_max floor x
  floor_le_max floor x h = ground (arith, le_of_lt floor x)

  not_zero : (x : F) → d.lit 1 0 ≼ x → d.eq x (d.lit 0 0) ≡ false
  not_zero x h = elim (Bool-cases (d.eq x (d.lit 0 0))) [
    | inl e ↦
        ground
          (arith, le_of_eq x (d.lit 0 0) e, le_trans (d.lit 1 0) x (d.lit 0 0) h, not_one_le_zero)
    | inr e ↦ e
  ]

  positive-not_zero : (x : F) → d.lt (d.lit 0 0) x ≡ true → d.eq x (d.lit 0 0) ≡ false
  positive-not_zero x h = ground (arith, le_of_eq x (d.lit 0 0), not_le_of_lt (d.lit 0 0) x h)

  volume_factor-ok :
      (recent rate multiple : F)
      → d.eq (d.mul (py_max rate (d.lit 1 0)) multiple) (d.lit 0 0) ≡ false
      → (v : F) × (volume_factor recent rate multiple ≡ ok v) × (d.lit 1 0 ≼ v)
  unfolding volume_factor py_div
  volume_factor-ok recent rate multiple h = elim (Bool-cases (d.lt (d.lit 0 0) multiple)) [
    | inl e ↦ rw (e, h) (_, refl, one_le-max (d.lit 1 0) _ one_le_one)
    | inr e ↦ rw e (_, refl, one_le_one)
  ]

  price_factor-ok :
      (move threshold : F) → (v : F) × (price_factor move threshold ≡ ok v) × (d.lit 1 0 ≼ v)
  unfolding price_factor py_div
  price_factor-ok move threshold = elim (Bool-cases (d.lt (d.lit 0 0) threshold)) [
    | inl e ↦ rw (e, positive-not_zero threshold e) (_, refl, one_le-max (d.lit 1 0) _ one_le_one)
    | inr e ↦ rw e (_, refl, one_le_one)
  ]

  -- With positive half-lives and the adaptive decay enabled, `effective_half_life` returns a half-life, and
  -- it is never below the floor `min_half_life`: neither trigger can divide by zero, as long as the scaled
  -- baseline rate is not zero. The floor is not NaN.
  pub effective_half_life-ok :
      (base floor recent rate move multiple threshold : F)
      → d.le base (d.lit 0 0) ≡ false
      → d.le floor (d.lit 0 0) ≡ false
      → floor ≼ floor
      → d.eq (d.mul (py_max rate (d.lit 1 0)) multiple) (d.lit 0 0) ≡ false
      → (r : F) × (effective_half_life base floor recent rate move multiple threshold true ≡ ok r)
        × (floor ≼ r)
  unfolding effective_half_life py_div
  effective_half_life-ok base floor recent rate move multiple threshold h k l m =
      let (v, v_eq, one_le_v) = volume_factor-ok recent rate multiple m in
      let (p, p_eq, one_le_p) = price_factor-ok move threshold in
      rw (h, k, v_eq, p_eq, not_zero (py_max v p) (one_le-max v p one_le_v))
        (_, refl, floor_le_max floor _ l)
