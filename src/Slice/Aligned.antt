-- ===== src/Slice/Aligned.antt =====
-- slice.py: `_aligned_pairs`, and the dictionary of prices by hour that `_score` builds as well.
use augury.Prelude.{Option, none, some, List, [], ◌∷◌, if◌then◌else◌, ltb}
use augury.Prelude.Float.{Float}
use augury.Prelude.Keys.{◌==◌, nat_key}
use augury.Models.{DateTime, floor_hour, PriceTick, SignalPoint, mid}
use augury.Db.{sort_by}

module _ {F : Type 0} where
  -- `prices_by_hour[hour] = value`
  unfoldable pub put_hour : DateTime → F → List (DateTime × F) → List (DateTime × F)
  put_hour at value [] = (at, value) ∷ []
  put_hour at value ((h, old) ∷ rest) =
      if h == at then (h, value) ∷ rest else (h, old) ∷ put_hour at value rest

  -- `prices_by_hour.get(hour)`
  unfoldable pub hour_price : DateTime → List (DateTime × F) → Option F
  hour_price at [] = none
  hour_price at ((h, value) ∷ rest) = if h == at then some value else hour_price at rest

  abbrev pub put_price : DateTime → Option F → List (DateTime × F) → List (DateTime × F)
  put_price at none table = table
  put_price at (some value) table = put_hour at value table

module _ {F : Type 0} ⦃d : Float F⦄ where
  -- the loop over the ticks in ascending order
  unfoldable pub fill_hours : List (PriceTick F) → List (DateTime × F) → List (DateTime × F)
  unfolding put_hour
  fill_hours [] table = table
  fill_hours (t ∷ ts) table = fill_hours ts (put_price (floor_hour t.ts) (mid t) table)

  unfoldable pub prices_by_hour : List (PriceTick F) → List (DateTime × F)
  unfolding fill_hours
  prices_by_hour prices = fill_hours (sort_by (λ a b. ltb a.ts b.ts) prices) []

  -- what a point adds to the two columns
  abbrev pub add_pair : Option F → Option F → List F × List F → List F × List F
  add_pair (some x) (some price) (xs, ps) = (x ∷ xs, price ∷ ps)
  add_pair _ _ columns = columns

  -- the columns of the points that have a value and a price in their hour
  unfoldable pub columns :
      (SignalPoint F → Option F) → List (SignalPoint F) → List (DateTime × F) → List F × List F
  unfolding hour_price
  columns value [] table = ([], [])
  columns value (p ∷ ps) table =
      add_pair (value p) (hour_price (floor_hour p.ts) table) (columns value ps table)

  -- `_aligned_pairs`
  unfoldable pub aligned_pairs : List (SignalPoint F) → List (PriceTick F) → List F × List F
  unfolding columns prices_by_hour
  aligned_pairs signals prices = columns (λ p. some p.s_t) signals (prices_by_hour prices)
