-- ===== src/Db/Fills.antt =====
-- db.py: the paper position after a sequence of fills.
use augury.Prelude.{
  String, Bool, true, ◌||◌, ◌≡◌, refl, ap, ◌∙◌, some, List, [], ◌∷◌, map, if◌then◌else◌, filter,
  any, Bool-cases, inl, inr, arith,
}
use augury.Prelude.Float.{Float}
use augury.Prelude.Keys.{◌==◌, string_key, pair_key, pair_beq_iff}
use augury.Db.Rows.{Database, Position, position_key}
use augury.Db.Ledger.{position, apply_fill_to_position, merge_position}
use augury.Db.Table.{find_row}
use augury.Db.Upserts.{find_row-upsert, merged}

any-or : (a b c : Bool) → ((a || b) || c) ≡ (a || (if b then true else c))
any-or a b c = ground arith

module _ {F : Type 0} ⦃d : Float F⦄ where
  -- the fills that a strategy books, one after another
  unfoldable pub apply_fills : List (Position F) → Database F → Database F
  unfolding apply_fill_to_position
  apply_fills [] db = db
  apply_fills (δ ∷ δs) db = apply_fills δs (apply_fill_to_position δ db)

  -- a quantity with its changes added in their order
  abbrev pub total_after : F → List F → F
  total_after x [] = x
  total_after x (y ∷ ys) = total_after (d.add x y) ys

  -- a row after its own fills
  abbrev pub IsBookedBy : List (Position F) → Position F → Position F → Type 0
  IsBookedBy own p q =
      (q.qty_yes ≡ total_after p.qty_yes (map (λ δ. δ.qty_yes) own))
      × (q.qty_no ≡ total_after p.qty_no (map (λ δ. δ.qty_no) own))
      × (q.cash ≡ total_after p.cash (map (λ δ. δ.cash) own))
      × (q.realized_pnl ≡ total_after p.realized_pnl (map (λ δ. δ.realized_pnl) own))
      × (q.settled ≡ (p.settled || any (λ δ. δ.settled) own))

  abbrev pub own_fills : String → String → List (Position F) → List (Position F)
  own_fills mid strategy = filter (λ δ. position_key δ == (mid, strategy))

  position-apply :
      (mid strategy : String) (δ p : Position F) (db : Database F)
      → position mid strategy db ≡ some p
      → position mid strategy (apply_fill_to_position δ db)
        ≡ some (if position_key δ == (mid, strategy) then merge_position p δ else p)
  unfolding position apply_fill_to_position
  position-apply mid strategy δ p db h =
      find_row-upsert position_key merge_position (λ old new same. same) δ (mid, strategy)
        db.positions
      ∙ elim (Bool-cases (position_key δ == (mid, strategy))) [
        | inl own ↦
            let same =
              (pair_beq_iff string_key string_key (position_key δ) (mid, strategy)).0 own in
            rw own (
              ap (λ o. some (merged position_key merge_position δ o))
                (ap (λ k. find_row position_key k db.positions) same ∙ h))
        | inr other ↦ rw other h
      ]

  -- Whatever fills are booked, for whatever markets and strategies, the position of a market under a
  -- strategy is the one before with exactly its own fills added, in their order: the shares of both sides,
  -- the cash and the realized profit. It is settled exactly if it was before or one of its fills closed it.
  -- The position exists before the fills.
  pub position-apply_fills :
      (mid strategy : String) (δs : List (Position F)) (p : Position F) (db : Database F)
      → position mid strategy db ≡ some p
      → (q : Position F) × (position mid strategy (apply_fills δs db) ≡ some q)
        × IsBookedBy (own_fills mid strategy δs) p q
  unfolding apply_fills
  position-apply_fills mid strategy [] p db h = (p, h, (refl, refl, refl, refl, ground arith))
  position-apply_fills mid strategy (δ ∷ δs) p db h =
      let next = position-apply mid strategy δ p db h in
      elim (Bool-cases (position_key δ == (mid, strategy))) [
        | inl own ↦
            let (q, found, booked) =
              position-apply_fills mid strategy δs (merge_position p δ)
                (apply_fill_to_position δ db) (next ∙ rw own refl) in
            rw own (
              q,
              found,
              (booked.0, booked.1, booked.2, booked.3, booked.4 ∙ any-or p.settled δ.settled _),
            )
        | inr other ↦ rw other (
            position-apply_fills mid strategy δs p (apply_fill_to_position δ db)
              (next ∙ rw other refl))
      ]
