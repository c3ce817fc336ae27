-- ===== src/Pipeline/Sorting.antt =====
-- Sorting by a time, filtering by a time, and the look-ups in the sorted list.
use augury.Prelude.{
  ℕ, zero, suc, ◌≤◌, ◌<◌, ◌≡◌, refl, ◌∙◌, Bool, List, [], ◌∷◌, map, if◌then◌else◌, leb, ltb, arith,
  Bool-cases, inl, inr, All, filter, length, take, get_last?, All-filter,
}
use augury.Signal.Bisect.{bisect_right, IsAscending}
use augury.Db.{insert_by, sort_by}
use augury.Pipeline.{get_elem?}

module _ {A : Type 0} (time : A → ℕ) where
  -- ORDER BY time
  abbrev pub by_time : List A → List A
  by_time = sort_by (λ a b. ltb (time a) (time b))

  -- the elements up to a time
  abbrev pub up_to : ℕ → List A → List A
  up_to at = filter (λ a. leb (time a) at)

  All-insert :
      (n : ℕ) (x : A) (ys : List A)
      → n ≤ time x
      → All (λ y. n ≤ time y) ys
      → All (λ y. n ≤ time y) (insert_by (λ a b. ltb (time a) (time b)) x ys)
  unfolding insert_by
  All-insert n x [] h k = (h, tt)
  All-insert n x (y ∷ ys) h k = elim (Bool-cases (ltb (time y) (time x))) [
    | inl e ↦ rw e (k.0, All-insert n x ys h k.1)
    | inr e ↦ rw e (h, k)
  ]

  All-later : (m n : ℕ) (xs : List A) → m ≤ n → All (λ y. n ≤ time y) xs → All (λ y. m ≤ time y) xs
  All-later m n [] h k = tt
  All-later m n (x ∷ xs) h k = (omega (arith, h, k.0), All-later m n xs h k.1)

  insert-IsAscending :
      (x : A) (ys : List A)
      → IsAscending time ys
      → IsAscending time (insert_by (λ a b. ltb (time a) (time b)) x ys)
  unfolding insert_by
  insert-IsAscending x [] h = (tt, tt)
  insert-IsAscending x (y ∷ ys) h = elim (Bool-cases (ltb (time y) (time x))) [
    | inl e ↦ rw e (All-insert (time y) x ys (ground arith) h.0, insert-IsAscending x ys h.1)
    | inr e ↦
        let first : time x ≤ time y = ground arith in
        rw e ((first, All-later (time x) (time y) ys first h.0), h)
  ]

  pub by_time-IsAscending : (xs : List A) → IsAscending time (by_time xs)
  unfolding sort_by
  by_time-IsAscending [] = tt
  by_time-IsAscending (x ∷ xs) = insert-IsAscending x (by_time xs) (by_time-IsAscending xs)

  up_to-late : (at n : ℕ) (xs : List A) → at < n → All (λ y. n ≤ time y) xs → up_to at xs ≡ []
  up_to-late at n [] h k = refl
  up_to-late at n (x ∷ xs) h k = ground (arith, up_to-late at n xs h k.1, k.0)

  up_to-insert :
      (at : ℕ) (x : A) (ys : List A)
      → IsAscending time ys
      → up_to at (insert_by (λ a b. ltb (time a) (time b)) x ys) ≡ (
          if leb (time x) at
          then insert_by (λ a b. ltb (time a) (time b)) x (up_to at ys)
          else up_to at ys)
  unfolding insert_by
  up_to-insert at x [] h = ground arith
  up_to-insert at x (y ∷ ys) h =
      ground (arith, up_to-insert at x ys h.1, up_to-late at (time y) ys, h.0)

  -- sorting and keeping the early elements commute
  pub up_to-by_time : (at : ℕ) (xs : List A) → up_to at (by_time xs) ≡ by_time (up_to at xs)
  unfolding sort_by
  up_to-by_time at [] = refl
  up_to-by_time at (x ∷ xs) =
      up_to-insert at x (by_time xs) (by_time-IsAscending xs)
      ∙ elim (Bool-cases (leb (time x) at)) [
        | inl e ↦ rw (e, up_to-by_time at xs) refl
        | inr e ↦ rw e (up_to-by_time at xs)
      ]

  pub up_to-IsAscending :
      (at : ℕ) (xs : List A) → IsAscending time xs → IsAscending time (up_to at xs)
  up_to-IsAscending at [] h = tt
  up_to-IsAscending at (x ∷ xs) h = elim (Bool-cases (leb (time x) at)) [
    | inl e ↦ rw e (
      All-filter (λ y. time x ≤ time y) (λ a. leb (time a) at) xs h.0,
      up_to-IsAscending at xs h.1,
    )
    | inr e ↦ rw e (up_to-IsAscending at xs h.1)
  ]

  pub up_to-up_to : (at last : ℕ) (xs : List A) → at ≤ last → up_to at (up_to last xs) ≡ up_to at xs
  up_to-up_to at last [] h = refl
  up_to-up_to at last (x ∷ xs) h = ground (arith, up_to-up_to at last xs h)

  pub take-bisect_right :
      (at : ℕ) (xs : List A)
      → IsAscending time xs
      → take (bisect_right (map time xs) at) xs ≡ up_to at xs
  unfolding bisect_right
  take-bisect_right at [] h = refl
  take-bisect_right at (x ∷ xs) h =
      ground (arith, take-bisect_right at xs h.1, up_to-late at (time x) xs, h.0)

  pub bisect_right-le : (at : ℕ) (xs : List A) → bisect_right (map time xs) at ≤ length xs
  unfolding bisect_right
  bisect_right-le at [] = omega arith
  bisect_right-le at (x ∷ xs) = ground (arith, bisect_right-le at xs)

module _ {A : Type 0} where
  pub filter_comm : (p q : A → Bool) (xs : List A) → filter p (filter q xs) ≡ filter q (filter p xs)
  filter_comm p q [] = refl
  filter_comm p q (x ∷ xs) = ground (arith, filter_comm p q xs)

  pub get_elem?-take :
      (i : ℕ) (xs : List A) → i < length xs → get_elem? xs i ≡ get_last? (take (suc i) xs)
  get_elem?-take i [] h = absurd (omega (arith, h))
  get_elem?-take zero (x ∷ xs) h = refl
  get_elem?-take (suc i) (x ∷ []) h = absurd (omega (arith, h))
  get_elem?-take (suc i) (x ∷ y ∷ xs) h = get_elem?-take i (y ∷ xs) (omega (arith, h))
