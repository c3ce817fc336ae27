-- ===== src/Tests/Columns.antt =====
-- A concrete shift and a concrete pairing of two columns, which do what pandas documents.
use augury.Prelude.{
  ℕ, zero, suc, ◌+◌, Option, none, some, List, [], ◌∷◌, ◌++◌, ◌≡◌, refl, arith, inl, inr, IsIn,
  length, take, drop,
}
use augury.Prelude.Int.{ℤ, pos, negsuc}
use augury.Analytics.Lags.{IsLed}
use augury.Pipeline.{get_elem?}

module _ {A : Type 0} where
  abbrev pub dropna : List (Option A) → List A
  dropna [] = []
  dropna (none ∷ xs) = dropna xs
  dropna (some x ∷ xs) = x ∷ dropna xs

  abbrev pub paired : {B : Type 0} → List (Option A) → List (Option B) → List (A × B)
  paired (some x ∷ xs) (some y ∷ ys) = (x, y) ∷ paired xs ys
  paired (some x ∷ xs) (none ∷ ys) = paired xs ys
  paired (none ∷ xs) (y ∷ ys) = paired xs ys
  paired _ _ = []

  abbrev gaps : ℕ → List (Option A)
  gaps zero = []
  gaps (suc n) = none ∷ gaps n

  -- as long as before, with no value where there is none
  abbrev pub shift : ℤ → List (Option A) → List (Option A)
  shift (pos k) xs = take (length xs) (gaps k ++ xs)
  shift (negsuc k) xs = take (length xs) (drop (suc k) xs ++ gaps (suc k))

module _ {A B : Type 0} where
  -- x stands at a place of the first list, and y at the same place of the second
  abbrev pub IsBeside : List (Option A) → List (Option B) → A × B → Type 0
  IsBeside xs ys r =
      (t : ℕ) × (get_elem? xs t ≡ some (some r.0)) × (get_elem? ys t ≡ some (some r.1))

  pub paired-IsBeside :
      (xs : List (Option A)) (ys : List (Option B)) (r : A × B)
      → IsIn r (paired xs ys)
      → IsBeside xs ys r
  paired-IsBeside (some x ∷ xs) (some y ∷ ys) r (inl e) = (zero, rw e refl, rw e refl)
  paired-IsBeside (some x ∷ xs) (some y ∷ ys) r (inr h) =
      let (t, a, b) = paired-IsBeside xs ys r h in (suc t, a, b)
  paired-IsBeside (some x ∷ xs) (none ∷ ys) r h =
      let (t, a, b) = paired-IsBeside xs ys r h in (suc t, a, b)
  paired-IsBeside (none ∷ xs) (y ∷ ys) r h =
      let (t, a, b) = paired-IsBeside xs ys r h in (suc t, a, b)
  paired-IsBeside [] ys r h = absurd h
  paired-IsBeside (some x ∷ xs) [] r h = absurd h
  paired-IsBeside (none ∷ xs) [] r h = absurd h

module _ {A : Type 0} where
  get_elem?-take :
      (n t : ℕ) (xs : List A) (a : A) → get_elem? (take n xs) t ≡ some a → get_elem? xs t ≡ some a
  get_elem?-take zero t xs a h = cc
  get_elem?-take (suc n) t [] a h = cc
  get_elem?-take (suc n) zero (x ∷ xs) a h = h
  get_elem?-take (suc n) (suc t) (x ∷ xs) a h = get_elem?-take n t xs a h

  -- what stands behind k gaps stood k places earlier
  get_elem?-gaps :
      (k t : ℕ) (xs : List (Option A)) (a : A)
      → get_elem? (gaps k ++ xs) t ≡ some (some a)
      → (u : ℕ) × (t ≡ u + k) × (get_elem? xs u ≡ some (some a))
  get_elem?-gaps zero t xs a h = (t, omega arith, h)
  get_elem?-gaps (suc k) zero xs a h = cc
  get_elem?-gaps (suc k) (suc t) xs a h =
      let (u, e, f) = get_elem?-gaps k t xs a h in (u, omega (arith, e), f)

  get_elem?-no_gap : (k t : ℕ) (a : A) → get_elem? (gaps k) t ≡ some (some a) → ⊥
  get_elem?-no_gap zero t a h = cc
  get_elem?-no_gap (suc k) zero a h = cc
  get_elem?-no_gap (suc k) (suc t) a h = get_elem?-no_gap k t a h

  -- what stands before the gaps at the end stands k places later
  get_elem?-dropped :
      (k j t : ℕ) (xs : List (Option A)) (a : A)
      → get_elem? (drop k xs ++ gaps j) t ≡ some (some a)
      → (u : ℕ) × (u ≡ t + k) × (get_elem? xs u ≡ some (some a))
  get_elem?-dropped zero j t [] a h = absurd (get_elem?-no_gap j t a h)
  get_elem?-dropped zero j zero (x ∷ xs) a h = (zero, omega arith, h)
  get_elem?-dropped zero j (suc t) (x ∷ xs) a h =
      let (u, e, f) = get_elem?-dropped zero j t xs a h in (suc u, omega (arith, e), f)
  get_elem?-dropped (suc k) j t [] a h = absurd (get_elem?-no_gap j t a h)
  get_elem?-dropped (suc k) j t (x ∷ xs) a h =
      let (u, e, f) = get_elem?-dropped k j t xs a h in (suc u, omega (arith, e), f)

module _ {A : Type 0} where
  pub get_elem?-shift :
      (lag : ℤ) (s : List (Option A)) (t : ℕ) (a : A)
      → get_elem? (shift lag s) t ≡ some (some a)
      → (u : ℕ) × (get_elem? s u ≡ some (some a)) × IsLed lag u t
  get_elem?-shift (pos k) s t a h =
      let (u, e, f) =
        get_elem?-gaps k t s a (get_elem?-take (length s) t (gaps k ++ s) (some a) h) in
      (u, f, e)
  get_elem?-shift (negsuc k) s t a h =
      let (u, e, f) =
        get_elem?-dropped (suc k) (suc k) t s a
          (get_elem?-take (length s) t (drop (suc k) s ++ gaps (suc k)) (some a) h) in
      (u, f, e)
