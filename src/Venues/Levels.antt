-- ===== src/Venues/Levels.antt =====
-- The price levels of an order book: the best one, the spread and the mid price. Both clients compute
-- these the same way.
use augury.Prelude.{Bool, Option, none, some, List, [], ◌∷◌, if◌then◌else◌}
use augury.Prelude.Float.{Float}

-- the loop of `max` and `min`: a level replaces the best one only if its price is better
unfoldable pub extreme : {F : Type 0} → (F → F → Bool) → F × F → List (F × F) → F × F
extreme better best [] = best
extreme better best (level ∷ levels) =
    extreme better (if better level.0 best.0 then level else best) levels

module _ {F : Type 0} where
  -- a level with a price and a size
  abbrev pub both : Option F → Option F → Option (F × F)
  both (some price) (some size) = some (price, size)
  both _ _ = none

  -- a level that lacks one of them is skipped
  abbrev pub add_level : Option (F × F) → List (F × F) → List (F × F)
  add_level none levels = levels
  add_level (some level) levels = level ∷ levels

module _ {F : Type 0} ⦃d : Float F⦄ where
  -- `max(levels, key=price)`: the first of the highest
  abbrev pub highest : F × F → List (F × F) → F × F
  highest best levels = extreme (λ new old. d.lt old new) best levels

  -- `min(levels, key=price)`: the first of the lowest
  abbrev pub lowest : F × F → List (F × F) → F × F
  lowest best levels = extreme (λ new old. d.lt new old) best levels

  -- `(None, None)` of an empty side
  abbrev pub highest_of : List (F × F) → Option F × Option F
  highest_of [] = (none, none)
  highest_of (level ∷ levels) = let best = highest level levels in (some best.0, some best.1)

  abbrev pub lowest_of : List (F × F) → Option F × Option F
  lowest_of [] = (none, none)
  lowest_of (level ∷ levels) = let best = lowest level levels in (some best.0, some best.1)

  -- `ask - bid`, of a book that is not crossed
  abbrev pub spread_of : Option F → Option F → Option F
  spread_of (some bid) (some ask) = if d.le bid ask then some (d.sub ask bid) else none
  spread_of _ _ = none

  -- `(bid + ask) / 2.0`
  abbrev pub mid_price_of : Option F → Option F → Option F
  mid_price_of (some bid) (some ask) = some (d.div (d.add bid ask) (d.lit 2 0))
  mid_price_of _ _ = none
