-- ===== src/Signal/Platt.antt =====
-- signal/calibration.py: `fit_platt`. What numpy does with an array is the record `Arrays`; the arithmetic
-- on single elements is that of `Float`, which does not raise in numpy.
use augury.Prelude.{
  ℕ, zero, suc, Bool, true, not, ◌&&◌, ◌||◌, List, [], ◌∷◌, map, if◌then◌else◌, ltb, nat_eq, length,
  filter, Result, ok, value_error, ◌>>=◌, ◌>>◌, raise_if,
}
use augury.Prelude.Int.{ℤ, pos}
use augury.Prelude.Float.{Float, py_max, py_div, float_of_int}
use augury.Models.{in_signed_unit}
use augury.Signal.Calibration.{PlattParams, eps}

pub record Arrays (F : Type 0) : Type 0 where
  -- `x.sum()`, `np.mean(x)`, `y.min()` and `y.max()`
  pub sum : List F → F
  pub mean : List F → F
  pub minimum : List F → F
  pub maximum : List F → F
  -- `np.exp`, `np.log` and `np.clip` on an element
  pub exp : F → F
  pub log : F → F
  pub clip : F → F → F → F

-- an operation on the elements of two arrays
unfoldable pub zip_with : {A B C : Type 0} → (A → B → C) → List A → List B → List C
zip_with f [] ys = []
zip_with f (x ∷ xs) [] = []
zip_with f (x ∷ xs) (y ∷ ys) = f x y ∷ zip_with f xs ys

unfoldable pub every : {A : Type 0} → (A → Bool) → List A → Bool
every p [] = true
every p (x ∷ xs) = p x && every p xs

module _ {F : Type 0} ⦃d : Float F⦄ (np : Arrays F) where
  -- the checks on `s` and `y`
  unfoldable pub check_history : List F → List F → Result (Unit {0})
  unfolding every
  check_history s y = do
    raise_if (not (nat_eq (length s) (length y))) value_error
    raise_if (ltb (length s) 2) value_error
    raise_if (not (every d.is_finite s)) value_error
    raise_if (not (every in_signed_unit s)) value_error
    raise_if (not (every (λ o. d.eq o (d.lit 0 0) || d.eq o (d.lit 1 0)) y)) value_error
    raise_if (d.eq (np.minimum y) (np.maximum y)) value_error

  -- `_sigmoid_array`
  unfoldable pub sigmoid_array : F → F
  sigmoid_array z =
      let e = np.exp (d.neg (d.abs z)) in
      if d.le (d.lit 0 0) z
      then d.div (d.lit 1 0) (d.add (d.lit 1 0) e)
      else d.div e (d.add (d.lit 1 0) e)

  -- `np.clip(_sigmoid_array(a + b * s), EPS, 1.0 - EPS)`
  unfoldable pub forecast : (a b s : F) → F
  unfolding sigmoid_array
  forecast a b s = np.clip (sigmoid_array (d.add a (d.mul b s))) eps (d.sub (d.lit 1 0) eps)

  -- the gradient and the Hessian of a turn, with its determinant
  pub record Curvature : Type 0 where
    pub grad_a : F
    pub grad_b : F
    pub h00 : F
    pub h01 : F
    pub h11 : F
    pub det : F

  unfoldable pub curvature : (s target : List F) (a b : F) → Curvature
  unfolding forecast zip_with
  curvature s target a b =
      let p = map (forecast a b) s in
      let residual = zip_with d.sub p target in
      let w = map (λ x. d.mul x (d.sub (d.lit 1 0) x)) p in
      let ws = zip_with d.mul w s in
      let h₀ = np.sum w in
      let h₁ = np.sum ws in
      let h₂ = np.sum (zip_with d.mul ws s) in
      record {
        grad_a = np.sum residual;
        grad_b = np.sum (zip_with d.mul residual s);
        h00 = h₀;
        h01 = h₁;
        h11 = h₂;
        det = d.sub (d.mul h₀ h₂) (d.mul h₁ h₁);
      }

  -- the loop, of at most `turns` turns
  unfoldable pub newton : (tol : F) (s target : List F) → ℕ → (a b : F) → Result (F × F)
  unfolding curvature
  newton tol s target zero a b = ok (a, b)
  newton tol s target (suc turns) a b =
      let c = curvature s target a b in
      let update : Result (F × F) = do
        step_a ← py_div (d.sub (d.mul c.h11 c.grad_a) (d.mul c.h01 c.grad_b)) c.det
        step_b ← py_div (d.sub (d.mul c.h00 c.grad_b) (d.mul c.h01 c.grad_a)) c.det
        let rest = newton tol s target turns (d.sub a step_a) (d.sub b step_b)
        (if d.lt (py_max (d.abs step_a) (d.abs step_b)) tol
            then ok (d.sub a step_a, d.sub b step_b)
            else rest)
      in if d.lt (d.abs c.det) (d.lit 1 12) then ok (a, b) else update

  -- the loss against the true outcomes
  unfoldable pub log_loss : (s y : List F) (a b : F) → F
  unfolding forecast zip_with
  log_loss s y a b =
      let p = map (forecast a b) s in
      d.neg (
        np.mean (
          zip_with
            (λ o x.
              d.add (d.mul o (np.log x))
                (d.mul (d.sub (d.lit 1 0) o) (np.log (d.sub (d.lit 1 0) x))))
            y p))

  -- `np.count_nonzero(y == 1.0)`, and the same for 0.0
  abbrev pub count_equal : F → List F → ℕ
  count_equal x y = length (filter (λ o. d.eq o x) y)

  -- the smoothed labels: those of a positive and of a negative outcome
  unfoldable pub smoothed : List F → Result (F × F)
  smoothed y = do
    let n_pos = d.float (pos (count_equal (d.lit 1 0) y))
    let n_neg = d.float (pos (count_equal (d.lit 0 0) y))
    hi ← py_div (d.add n_pos (d.lit 1 0)) (d.add n_pos (d.lit 2 0))
    lo ← py_div (d.lit 1 0) (d.add n_neg (d.lit 2 0))
    ok (hi, lo)

  -- the fit of a checked history
  unfoldable pub fit_arrays : ℕ → (tol : F) (s y : List F) → Result (PlattParams F)
  unfolding smoothed newton log_loss
  fit_arrays max_iter tol s y = do
    labels ← smoothed y
    fit ←
        newton tol s (map (λ o. if d.eq o (d.lit 1 0) then labels.0 else labels.1) y) max_iter
          (d.lit 0 0) (d.lit 2 0)
    ok (record { a = fit.0; b = fit.1; n_obs = length s; log_loss = log_loss s y fit.0 fit.1 })

  -- `np.asarray(outcomes, dtype=float)`
  unfoldable pub as_floats : List ℤ → Result (List F)
  unfolding float_of_int
  as_floats [] = ok []
  as_floats (n ∷ ns) = do x ← float_of_int n; xs ← as_floats ns; ok (x ∷ xs)

  -- `fit_platt`
  unfoldable pub fit_platt : ℕ → (tol : F) → List F → List ℤ → Result (PlattParams F)
  unfolding as_floats check_history fit_arrays
  fit_platt max_iter tol signals outcomes = do
    y ← as_floats outcomes
    check_history signals y
    fit_arrays max_iter tol signals y
