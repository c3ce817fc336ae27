-- ===== src/Signal/Fitting.antt =====
-- signal/calibration.py: `fit_platt` always ends, and divides by zero on no input.
use augury.Prelude.{
  ℕ, zero, suc, ◌≤◌, Bool, true, false, ◌≡◌, refl, ap, List, [], ◌∷◌, map, arith, length,
  if◌then◌else◌, Result, ok, err, Error, value_error, overflow_error, Bool-cases, inl, inr, ◌⊎◌,
}
use augury.Prelude.Int.{ℤ, pos}
use augury.Prelude.Float.{Float, py_div, float_of_int}
use augury.Signal.Calibration.{PlattParams}
use augury.Signal.Platt.{
  Arrays, check_history, curvature, newton, smoothed, count_equal, fit_arrays, as_floats, fit_platt,
}

-- A float that equals 0.0 is below 1e-12 in size, and a count plus 2.0 is not 0.0.
pub record IsSound (F : Type 0) ⦃d : Float F⦄ : Type 0 where
  pub zero_is_small : (x : F) → d.eq x (d.lit 0 0) ≡ true → d.lt (d.abs x) (d.lit 1 12) ≡ true
  pub not_zero-count : (n : ℕ) → d.eq (d.add (d.float (pos n)) (d.lit 2 0)) (d.lit 0 0) ≡ false

abbrev Returns : {A : Type 0} → Result A → Type 0
Returns {A} r = (a : A) × (r ≡ ok a)

pub length-map : {A B : Type 0} (f : A → B) (xs : List A) → length (map f xs) ≡ length xs
length-map f [] = refl
length-map f (x ∷ xs) = ap suc (length-map f xs)

Returns-either :
    {A : Type 0} (b : Bool) (p q : Result A) → Returns p → Returns q → Returns (if b then p else q)
Returns-either true p q h k = h
Returns-either false p q h k = k

-- a fit of `m` pairs
abbrev pub IsFit : {F : Type 0} → ℕ → PlattParams F → Type 0
IsFit m p = (p.n_obs ≡ m) × (2 ≤ p.n_obs)

-- an outcome is too large for a float
abbrev pub is_any_huge : (F : Type 0) ⦃d : Float F⦄ → List ℤ → Bool
is_any_huge F [] = false
is_any_huge F ⦃d⦄ (n ∷ ns) = if d.is_huge n then true else is_any_huge F ns

-- what `fit_platt` raises
abbrev pub IsRefusal : (F : Type 0) ⦃d : Float F⦄ → List ℤ → Error → Type 0
IsRefusal F outcomes e =
    (e ≡ value_error) ⊎ ((e ≡ overflow_error) × (is_any_huge F outcomes ≡ true))

module _ {F : Type 0} ⦃d : Float F⦄ where
  py_div-ok : (x y : F) → d.eq y (d.lit 0 0) ≡ false → py_div x y ≡ ok (d.div x y)
  unfolding py_div
  py_div-ok x y h = rw h refl

  module _ (laws : IsSound F) (np : Arrays F) where
    det-not_zero : (x : F) → d.lt (d.abs x) (d.lit 1 12) ≡ false → d.eq x (d.lit 0 0) ≡ false
    det-not_zero x h = elim (Bool-cases (d.eq x (d.lit 0 0))) [
      | inl e ↦ ground (arith, laws.zero_is_small x e)
      | inr e ↦ e
    ]

    newton-ok :
        (tol : F) (s target : List F) (turns : ℕ) (a b : F)
        → Returns (newton np tol s target turns a b)
    unfolding newton
    newton-ok tol s target zero a b = (_, refl)
    newton-ok tol s target (suc turns) a b =
        let c = curvature np s target a b in
        elim (Bool-cases (d.lt (d.abs c.det) (d.lit 1 12))) [
          | inl flat ↦ rw flat (_, refl)
          | inr steep ↦
              rw
                (
                  steep,
                  py_div-ok _ c.det (det-not_zero c.det steep),
                  py_div-ok _ c.det (det-not_zero c.det steep),
                )
                (Returns-either _ _ _ (_, refl) (newton-ok tol s target turns _ _))
        ]

    smoothed-ok : (y : List F) → Returns (smoothed np y)
    unfolding smoothed
    smoothed-ok y =
        rw
          (
            py_div-ok _ _ (laws.not_zero-count (count_equal np (d.lit 1 0) y)),
            py_div-ok _ _ (laws.not_zero-count (count_equal np (d.lit 0 0) y)),
          )
          (_, refl)

    fit_arrays-ok :
        (max_iter : ℕ) (tol : F) (s y : List F)
        → (p : PlattParams F) × (fit_arrays np max_iter tol s y ≡ ok p) × (p.n_obs ≡ length s)
    unfolding fit_arrays
    fit_arrays-ok max_iter tol s y =
        let (labels, made) = smoothed-ok y in
        let (fit, done) =
          newton-ok tol s (map (λ o. if d.eq o (d.lit 1 0) then labels.0 else labels.1) y) max_iter
            (d.lit 0 0) (d.lit 2 0) in
        rw (made, done) (_, refl, refl)

    -- what the checks let through is long enough, and what they raise is ValueError
    check_history-cases :
        (s y : List F)
        → ((check_history np s y ≡ ok tt) × (length s ≡ length y) × (2 ≤ length s))
          ⊎ (check_history np s y ≡ err value_error)
    unfolding check_history
    check_history-cases s y = ground arith

    as_floats-cases :
        (ns : List ℤ)
        → ((as_floats np ns ≡ ok (map d.float ns)) × (is_any_huge F ns ≡ false))
          ⊎ ((as_floats np ns ≡ err overflow_error) × (is_any_huge F ns ≡ true))
    unfolding as_floats float_of_int
    as_floats-cases [] = inl (refl, refl)
    as_floats-cases (n ∷ ns) = elim (Bool-cases (d.is_huge n)) [
      | inl e ↦ rw e (inr (refl, refl))
      | inr e ↦ elim (as_floats-cases ns) [
        | inl (done, none_huge) ↦ rw (e, done) (inl (refl, none_huge))
        | inr (failed, huge) ↦ rw (e, failed) (inr (refl, huge))
      ]
    ]

    -- `fit_platt` ends on every input, whatever numpy sums, clips and averages, and never divides by zero: it
    -- returns a fit that counts the signals, of which there are at least two and as many as outcomes, or it
    -- raises ValueError, or OverflowError for an outcome that is too large for a float. A float that equals
    -- 0.0 is below 1e-12 in size, and a count plus 2.0 is not 0.0.
    pub fit_platt-ok :
        (max_iter : ℕ) (tol : F) (signals : List F) (outcomes : List ℤ)
        → ((p : PlattParams F) × (fit_platt np max_iter tol signals outcomes ≡ ok p)
            × IsFit (length signals) p
            × (length outcomes ≡ length signals))
          ⊎ ((e : Error) × (fit_platt np max_iter tol signals outcomes ≡ err e)
              × IsRefusal F outcomes e)
    unfolding fit_platt
    fit_platt-ok max_iter tol signals outcomes =
        let y = map d.float outcomes in
        elim (as_floats-cases outcomes) [
          | inr (failed, huge) ↦ inr (overflow_error, rw failed refl, inr (refl, huge))
          | inl (converted, none_huge) ↦ elim (check_history-cases signals y) [
            | inl (passed, same, enough) ↦
                let (p, done, counted) = fit_arrays-ok max_iter tol signals y in
                inl (
                  p,
                  rw (converted, passed) done,
                  (counted, omega (arith, counted, enough)),
                  omega (arith, same, length-map d.float outcomes),
                )
            | inr refused ↦ inr (value_error, rw (converted, refused) refl, inl refl)
          ]
        ]
