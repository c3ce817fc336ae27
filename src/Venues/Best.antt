-- ===== src/Venues/Best.antt =====
-- What `best` and the CLOB book pick: the highest and the lowest price of the levels.
use augury.Prelude.{
  Bool, some, List, [], ◌∷◌, ◌≡◌, refl, sym, true, false, All, IsIn, inl, inr, Bool-cases,
  if◌then◌else◌, ok, >>=-eq-ok, String,
}
use mathlib.Core.Path.{subst}
use augury.Prelude.Float.{Float, ◌≼◌, IsOrdered}
use augury.Prelude.Json.{Json, array, elements, Builtins, Items, get}
use augury.Models.{PriceTick, DateTime}
use augury.Venues.Levels.{extreme, highest, lowest, highest_of, lowest_of}
use augury.Engine.Trades.{ok-inj}
use augury.Venues.Kalshi
use augury.Venues.Polymarket

-- one of the levels, and none is better
abbrev pub IsExtreme : {F : Type 0} → (F → F → Type 0) → List (F × F) → F × F → Type 0
IsExtreme R levels best = IsIn best levels × All (λ l. R l.0 best.0) levels

module _ {F : Type 0} (R : F → F → Type 0) (better : F → F → Bool)
    (better_lem : (x y : F) → better x y ≡ true → R y x)
    (worse_lem : (x y : F) → R x x → R y y → better x y ≡ false → R x y)
    (trans : (x y z : F) → R x y → R y z → R x z) where
  extreme-IsExtreme :
      (best : F × F) (levels : List (F × F))
      → R best.0 best.0
      → All (λ l. R l.0 l.0) levels
      → IsExtreme R (best ∷ levels) (extreme better best levels)
  unfolding extreme
  extreme-IsExtreme best [] h k = (inl refl, (h, tt))
  extreme-IsExtreme best (level ∷ levels) h k = elim (Bool-cases (better level.0 best.0)) [
    | inl e ↦
        let rest = extreme-IsExtreme level levels k.0 k.1 in
        at e (inr rest.0, (trans _ _ _ (better_lem level.0 best.0 e) rest.1.0, rest.1))
    | inr e ↦
        let rest = extreme-IsExtreme best levels h k.1 in
        at e (
          skip rest.0,
          (rest.1.0, (trans _ _ _ (worse_lem level.0 best.0 k.0 h e) rest.1.0, rest.1.1)),
        )
  ]
    where
      at :
          {b : Bool}
          → better level.0 best.0 ≡ b
          → IsExtreme R (best ∷ level ∷ levels) (extreme better (if b then level else best) levels)
          → IsExtreme R (best ∷ level ∷ levels) (extreme better best (level ∷ levels))
      at e =
          subst
            (λ c.
              IsExtreme R (best ∷ level ∷ levels)
                (extreme better (if c then level else best) levels))
            (sym e)

      skip : {x : F × F} → IsIn x (best ∷ levels) → IsIn x (best ∷ level ∷ levels)
      skip (inl e) = inl e
      skip (inr e) = inr (inr e)

module _ {F : Type 0} ⦃d : Float F⦄ where
  -- every price is a number
  abbrev pub IsNumeric : List (F × F) → Type 0
  IsNumeric levels = All (λ l. l.0 ≼ l.0) levels

  -- the price and the size of a level that no level is above
  abbrev pub IsHighest : List (F × F) → F × F → Type 0
  IsHighest = IsExtreme (λ x y. x ≼ y)

  -- the price and the size of a level that no level is below
  abbrev pub IsLowest : List (F × F) → F × F → Type 0
  IsLowest = IsExtreme (λ x y. y ≼ x)

module _ {F : Type 0} ⦃d : Float F⦄ (laws : IsOrdered F) where
  open laws use {le_of_lt, le_trans, le_of_not_lt}

  highest_of-IsHighest :
      (levels : List (F × F))
      → IsNumeric levels
      → (p s : F) → highest_of levels ≡ (some p, some s)
      → IsHighest levels (p, s)
  highest_of-IsHighest [] h p s e = cc
  highest_of-IsHighest (level ∷ levels) h p s e =
      let found : highest level levels ≡ (p, s) = cc in
      subst (IsHighest (level ∷ levels)) found (
        extreme-IsExtreme (λ x y. x ≼ y) (λ new old. d.lt old new) (λ x y. le_of_lt y x)
          (λ x y hx hy. le_of_not_lt y x hy hx) le_trans level levels h.0 h.1)

  lowest_of-IsLowest :
      (levels : List (F × F))
      → IsNumeric levels
      → (p s : F) → lowest_of levels ≡ (some p, some s)
      → IsLowest levels (p, s)
  lowest_of-IsLowest [] h p s e = cc
  lowest_of-IsLowest (level ∷ levels) h p s e =
      let found : lowest level levels ≡ (p, s) = cc in
      subst (IsLowest (level ∷ levels)) found (
        extreme-IsExtreme (λ x y. y ≼ x) (λ new old. d.lt new old) le_of_lt le_of_not_lt
          (λ x y z h k. le_trans z y x k h) level levels h.0 h.1)

module _ {F : Type 0} ⦃d : Float F⦄ ⦃py : Builtins F⦄ (laws : IsOrdered F) where
  pub best-IsHighest :
      (items : Items F) (levels : List (F × F)) (p s : F)
      → Kalshi.levels_of (elements items) ≡ ok levels
      → IsNumeric levels
      → Kalshi.best (array items) ≡ ok (some p, some s)
      → IsHighest levels (p, s)
  unfolding Kalshi.best
  best-IsHighest items levels p s parsed h e =
      highest_of-IsHighest laws levels h p s (ok-inj (rw parsed at e))

  -- A tick that the CLOB book gives, when it has both sides and the prices of its levels are numbers, quotes
  -- as bid the price and the size of a level of the bids that no bid is above, and as ask those of a level of
  -- the asks that no ask is below.
  pub read_book-best :
      (condition_id : String) (now fetched_at : DateTime) (payload : Json F) (tick : PriceTick F)
      → (bids asks : List (F × F)) (p s q r : F) → Polymarket.read_levels payload "bids" ≡ ok bids
      → Polymarket.read_levels payload "asks" ≡ ok asks
      → IsNumeric bids
      → IsNumeric asks
      → Polymarket.read_book condition_id now fetched_at payload ≡ ok tick
      → tick.yes_bid ≡ some p
      → tick.depth_bid ≡ some s
      → tick.yes_ask ≡ some q
      → tick.depth_ask ≡ some r
      → IsHighest bids (p, s) × IsLowest asks (q, r)
  unfolding Polymarket.read_book
  read_book-best condition_id now at payload tick bids asks p s q r b a nb na returned hp hs hq hr =
      let opened = >>=-eq-ok (get payload "last_trade_price") _ (rw (b, a) at returned) in
      let mid =
        >>=-eq-ok (Polymarket.quote_mid (highest_of bids).0 (lowest_of asks).0 opened.0) _
          opened.2 in
      let made = mid.2 in
      (highest_of-IsHighest laws bids nb p s cc, lowest_of-IsLowest laws asks na q r cc)
