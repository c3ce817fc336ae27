-- ===== src/Slice/Hours.antt =====
-- The dictionary of prices by hour against its description: the last mid price of each hour.
use augury.Prelude.{
  Bool, true, Option, none, some, List, [], ◌∷◌, ◌≡◌, refl, sym, ◌∙◌, arith, inl, inr, Bool-cases,
  if◌then◌else◌, get_last?,
}
use augury.Prelude.Keys.{◌==◌, nat_key}
use augury.Prelude.Float.{Float}
use augury.Models.{DateTime, floor_hour, PriceTick, mid}
use augury.Pipeline.Sorting.{by_time}
use augury.Slice.Aligned.{put_hour, hour_price, put_price, fill_hours, prices_by_hour}

module _ {F : Type 0} where
  -- what a look-up finds after a write
  hour_price-put_hour :
      (h at : DateTime) (value : F) (table : List (DateTime × F))
      → hour_price h (put_hour at value table)
        ≡ (if at == h then some value else hour_price h table)
  unfolding hour_price put_hour
  hour_price-put_hour h at value [] = refl
  hour_price-put_hour h at value ((k, old) ∷ rest) =
      ground (arith, hour_price-put_hour h at value rest)

  abbrev pub or_value : Option F → Option F → Option F
  or_value none old = old
  or_value (some x) old = some x

module _ {F : Type 0} ⦃d : Float F⦄ where
  abbrev add_mid : Bool → Option F → List F → List F
  add_mid true (some x) xs = x ∷ xs
  add_mid _ _ xs = xs

  -- the mid prices of the ticks of an hour
  abbrev pub mids_in : DateTime → List (PriceTick F) → List F
  mids_in h [] = []
  mids_in h (t ∷ ts) = add_mid (floor_hour t.ts == h) (mid t) (mids_in h ts)

  last-add : (x : F) (xs : List F) → get_last? (x ∷ xs) ≡ or_value (get_last? xs) (some x)
  last-add x [] = refl
  last-add x (y ∷ []) = refl
  last-add x (y ∷ z ∷ xs) = last-add x (z ∷ xs)

  or_value-none : (o : Option F) → or_value o none ≡ o
  or_value-none none = refl
  or_value-none (some x) = refl

  or_value-some :
      (o old : Option F) (x : F) → or_value (or_value o (some x)) old ≡ or_value o (some x)
  or_value-some none old x = refl
  or_value-some (some y) old x = refl

  -- writing before the later ticks are read is reading the tick with them
  one_tick :
      (h at : DateTime) (m : Option F) (xs : List F) (table : List (DateTime × F))
      → or_value (get_last? xs) (hour_price h (put_price at m table))
        ≡ or_value (get_last? (add_mid (at == h) m xs)) (hour_price h table)
  one_tick h at none xs table = elim (Bool-cases (at == h)) [
    | inl e ↦ rw e refl
    | inr e ↦ rw e refl
  ]
  one_tick h at (some x) xs table = elim (Bool-cases (at == h)) [
    | inl e ↦
        rw (hour_price-put_hour h at x table, e, last-add x xs)
          (sym (or_value-some (get_last? xs) (hour_price h table) x))
    | inr e ↦ rw (hour_price-put_hour h at x table, e) refl
  ]

  hour_price-fill_hours :
      (h : DateTime) (ts : List (PriceTick F)) (table : List (DateTime × F))
      → hour_price h (fill_hours ts table)
        ≡ or_value (get_last? (mids_in h ts)) (hour_price h table)
  unfolding fill_hours
  hour_price-fill_hours h [] table = refl
  hour_price-fill_hours h (t ∷ ts) table =
      hour_price-fill_hours h ts (put_price (floor_hour t.ts) (mid t) table)
      ∙ one_tick h (floor_hour t.ts) (mid t) (mids_in h ts) table

  -- The price that `prices_by_hour` has for an hour is the last mid price of the ticks of that hour in the
  -- order of time, and there is none exactly where no such tick has a mid price.
  pub hour_price-prices_by_hour :
      (h : DateTime) (prices : List (PriceTick F))
      → hour_price h (prices_by_hour prices) ≡ get_last? (mids_in h (by_time (λ t. t.ts) prices))
  unfolding prices_by_hour hour_price
  hour_price-prices_by_hour h prices =
      hour_price-fill_hours h (by_time (λ t. t.ts) prices) []
      ∙ or_value-none (get_last? (mids_in h (by_time (λ t. t.ts) prices)))
