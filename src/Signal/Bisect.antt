-- ===== src/Signal/Bisect.antt =====
-- The standard library's `bisect_left` and `bisect_right` over ascending times, and slices. On an
-- ascending list both are the length of a prefix: the times below `x`, and the times not above it.
use augury.Prelude.{ℕ, suc, ◌-◌, ◌≤◌, List, [], ◌∷◌, if◌then◌else◌, ltb, leb, take, drop, All}

unfoldable pub bisect_right : List ℕ → ℕ → ℕ
bisect_right [] x = 0
bisect_right (t ∷ ts) x = if leb t x then suc (bisect_right ts x) else 0

unfoldable pub bisect_left : List ℕ → ℕ → ℕ
bisect_left [] x = 0
bisect_left (t ∷ ts) x = if ltb t x then suc (bisect_left ts x) else 0

-- `xs[lo:hi]`
abbrev pub slice {ℓ} : {A : Type ℓ} → ℕ → ℕ → List A → List A
slice lo hi xs = take (hi - lo) (drop lo xs)

-- ascending by a time
abbrev pub IsAscending {ℓ} : {A : Type ℓ} → (A → ℕ) → List A → Type 0
IsAscending time [] = Unit {0}
IsAscending time (x ∷ xs) = All (λ y. time x ≤ time y) xs × IsAscending time xs
