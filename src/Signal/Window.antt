-- ===== src/Signal/Window.antt =====
-- signal/decay.py and pipeline/steps.py: the window of time, found by binary search or by a scan.
use augury.Prelude.{
  ℕ, ◌-◌, ◌≤◌, ◌<◌, ◌≡◌, refl, ap, sym, String, Bool, true, false, not, ◌&&◌, ◌||◌, Option, some,
  List, [], ◌∷◌, map, ltb, leb, arith, All, filter, Bool-cases, inl, inr, ◌>>=◌,
}
use mathlib.Core.Path.{fun_ext}
use mathlib.Core.List.{map-id}
use augury.Prelude.Float.{Float}
use augury.Models.{DateTime, Calibration}
use augury.Signal.{
  add_term, Contribution, is_expired, log_terms, compute_signal, window, decay_lambda, aggregate,
}
use augury.Signal.Bisect.{bisect_left, bisect_right, slice, IsAscending}

-- the test of the scan: lo <= time <= hi
abbrev pub is_between : {A : Type 0} → (A → ℕ) → ℕ → ℕ → A → Bool
is_between time lo hi x = leb lo (time x) && leb (time x) hi

module _ {A : Type 0} (time : A → ℕ) where
  filter-late :
      (lo hi : ℕ) (n : ℕ) (xs : List A)
      → hi < n
      → All (λ y. n ≤ time y) xs
      → filter (is_between time lo hi) xs ≡ []
  filter-late lo hi n [] h k = refl
  filter-late lo hi n (x ∷ xs) h k = ground (arith, filter-late lo hi n xs h k.1, k.0)

  bisect_left-early :
      (lo : ℕ) (n : ℕ) (xs : List A)
      → lo ≤ n
      → All (λ y. n ≤ time y) xs
      → bisect_left (map time xs) lo ≡ 0
  unfolding bisect_left
  bisect_left-early lo n [] h k = refl
  bisect_left-early lo n (x ∷ xs) h k = ground (arith, k.0)

  pub slice-bisect :
      (lo hi : ℕ) (xs : List A)
      → IsAscending time xs
      → slice (bisect_left (map time xs) lo) (bisect_right (map time xs) hi) xs
        ≡ filter (is_between time lo hi) xs
  unfolding bisect_left bisect_right
  slice-bisect lo hi [] h = refl
  slice-bisect lo hi (x ∷ xs) h = ground (
    arith,
    slice-bisect lo hi xs h.1,
    bisect_left-early lo (time x) xs,
    filter-late lo hi (time x) xs,
    h.0,
  )

-- When the post times are in ascending order, the two binary searches of `sorted_input` select exactly
-- the posts that the scan selects, in the same order.
pub window-sorted :
    (start at : DateTime) (times : List DateTime)
    → IsAscending (λ t. t) times
    → window true start at times ≡ window false start at times
unfolding window
window-sorted start at times h = rw (map-id times) at (slice-bisect (λ t. t) start at times h)

module _ {F : Type 0} ⦃d : Float F⦄ where
  -- the posts that `compute_signal` does not skip for their time
  abbrev pub is_visible : DateTime → Option ℕ → Contribution F → Bool
  is_visible at max_age c = not (ltb at c.created_at || is_expired at max_age c.created_at)

  log_terms-skip :
      (at : DateTime) (max_age : Option ℕ) (lam : F) (c : Contribution F)
      (cs : List (Contribution F))
      → (ltb at c.created_at || is_expired at max_age c.created_at) ≡ true
      → log_terms at max_age lam (c ∷ cs) ≡ log_terms at max_age lam cs
  unfolding log_terms
  log_terms-skip at max_age lam c cs e = rw e refl

  log_terms-keep :
      (at : DateTime) (max_age : Option ℕ) (lam : F) (c : Contribution F)
      (cs : List (Contribution F))
      → (ltb at c.created_at || is_expired at max_age c.created_at) ≡ false
      → log_terms at max_age lam (c ∷ cs) ≡ add_term at lam c (log_terms at max_age lam cs)
  unfolding log_terms
  log_terms-keep at max_age lam c cs e = rw e refl

  log_terms-filter :
      (at : DateTime) (max_age : Option ℕ) (lam : F) (cs : List (Contribution F))
      → log_terms at max_age lam (filter (is_visible at max_age) cs) ≡ log_terms at max_age lam cs
  log_terms-filter at max_age lam [] = refl
  log_terms-filter at max_age lam (c ∷ cs) =
      let kept = filter (is_visible at max_age) cs in
      elim (Bool-cases (ltb at c.created_at || is_expired at max_age c.created_at)) [
        | inl e ↦ rw (e, log_terms-skip at max_age lam c cs e) (log_terms-filter at max_age lam cs)
        | inr e ↦
            rw (e, log_terms-keep at max_age lam c kept e, log_terms-keep at max_age lam c cs e)
              (ap (add_term at lam c) (log_terms-filter at max_age lam cs))
      ]

  -- `compute_signal` at a time `at` depends only on the posts of its window: dropping every post that is
  -- later than `at`, or older than `max_age`, changes neither the result nor the exception.
  pub compute_signal-filter :
      (cs : List (Contribution F)) (at : DateTime) (half_life : F) (mid version : String)
      (max_age : Option ℕ) (calibrate : Option Calibration)
      → compute_signal
          (filter (is_visible at max_age) cs)
          at
          half_life
          mid
          version
          max_age
          calibrate
        ≡ compute_signal cs at half_life mid version max_age calibrate
  unfolding compute_signal
  compute_signal-filter cs at half_life mid version max_age calibrate =
      ap
        (λ f.
          decay_lambda half_life >>= λ lam. f lam >>= aggregate at half_life mid version calibrate)
        (fun_ext (λ lam. log_terms-filter at max_age lam cs))

  filter-visible :
      (at : DateTime) (age : ℕ) (cs : List (Contribution F))
      → filter (is_visible at (some age)) cs
        ≡ filter (is_between (λ c. c.created_at) (at - age) at) cs
  filter-visible at age [] = refl
  filter-visible at age (c ∷ cs) = ground (arith, filter-visible at age cs)

  -- On contributions in ascending order of time, `compute_signal` on the slice that the two binary
  -- searches give, for the times `at - age` and `at`, is `compute_signal` on all the contributions.
  pub compute_signal-slice :
      (cs : List (Contribution F)) (at : DateTime) (half_life : F) (mid version : String) (age : ℕ)
      (calibrate : Option Calibration)
      → IsAscending (λ c. c.created_at) cs
      → let times = map (λ c. c.created_at) cs in
        compute_signal
          (slice (bisect_left times (at - age)) (bisect_right times at) cs)
          at
          half_life
          mid
          version
          (some age)
          calibrate
        ≡ compute_signal cs at half_life mid version (some age) calibrate
  compute_signal-slice cs at half_life mid version age calibrate h =
      rw (slice-bisect (λ c. c.created_at) (at - age) at cs h, sym (filter-visible at age cs))
        (compute_signal-filter cs at half_life mid version (some age) calibrate)
