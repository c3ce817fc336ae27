-- ===== src/Pipeline/Lookup.antt =====
-- pipeline/steps.py: `latest_book`, `_price_at`, `_book_snapshots` and `_book_at`.
use augury.Prelude.{
  ℕ, zero, suc, ◌-◌, Option, none, some, List, [], ◌∷◌, if◌then◌else◌, ltb, filter,
}
use augury.Prelude.Float.{Float}
use augury.Models.{DateTime, hour, PriceTick, is_book, mid}
use augury.Signal.Bisect.{bisect_right}
use augury.Db.{sort_by}

-- `xs[i]`
abbrev pub get_elem? {ℓ} : {A : Type ℓ} → List A → ℕ → Option A
get_elem? [] i = none
get_elem? (x ∷ xs) zero = some x
get_elem? (x ∷ xs) (suc i) = get_elem? xs i

module _ {F : Type 0} where
  -- `max(books, key=ts)`: the first of the latest
  latest_of : PriceTick F → List (PriceTick F) → PriceTick F
  latest_of best [] = best
  latest_of best (t ∷ ts) = latest_of (if ltb best.ts t.ts then t else best) ts

  first_latest : List (PriceTick F) → Option (PriceTick F)
  unfolding latest_of
  first_latest [] = none
  first_latest (t ∷ ts) = some (latest_of t ts)

  unfoldable pub latest_book : List (PriceTick F) → Option (PriceTick F)
  unfolding first_latest
  latest_book ticks = first_latest (filter (λ t. is_book t.source) ticks)

  -- `ticks[index - 1]`, when `index` is not zero
  abbrev pub before_index : List (PriceTick F) → ℕ → Option (PriceTick F)
  before_index ticks zero = none
  before_index ticks (suc i) = get_elem? ticks i

  unfoldable pub book_at : List (PriceTick F) → List DateTime → DateTime → Option (PriceTick F)
  book_at books times at = before_index books (bisect_right times at)

  unfoldable pub book_snapshots : List (PriceTick F) → List (PriceTick F)
  book_snapshots price_ticks =
      sort_by (λ a b. ltb a.ts b.ts) (filter (λ t. is_book t.source) price_ticks)

module _ {F : Type 0} ⦃d : Float F⦄ where
  abbrev fresh_mid : DateTime → Option (PriceTick F) → Option F
  fresh_mid at none = none
  fresh_mid at (some best) = if ltb hour (at - best.ts) then none else mid best

  unfoldable pub price_at : List (PriceTick F) → List DateTime → DateTime → Option F
  price_at ticks times at = fresh_mid at (before_index ticks (bisect_right times at))
