-- ===== src/Pipeline/Settling.antt =====
-- pipeline/steps.py: what the resolution of a market leaves in the database.
use augury.Prelude.{
  String, ◌≡◌, refl, ap, ◌∙◌, Bool, true, false, ◌&&◌, ◌||◌, Option, none, some, List, arith,
  Option-cases, Bool-cases, inl, inr, ok,
}
use augury.Prelude.Int.{ℤ, pos, ◌-ℤ◌}
use augury.Prelude.Float.{Float}
use augury.Prelude.Keys.{==_refl, string_key, pair_key}
use augury.Models.{DateTime, Market}
use augury.Db.{
  Database, Position, position, position_key, merge_position, apply_fill_to_position, upsert,
  find_row, record_fill,
}
use augury.Db.Upserts.{find_row-upsert}
use augury.Pipeline.{
  not_settled, paid_out, settle_fill, settle_open, settle_row, settle_position, payout_of, closing,
}

or_true : (b : Bool) → (b || true) ≡ true
or_true b = ground arith

module _ {F : Type 0} ⦃d : Float F⦄ where
  settle_fill-positions :
      (market : Market) (now : DateTime) (strategy side : String) (qty price : F) (db : Database F)
      → (settle_fill market now strategy side qty price db).positions ≡ db.positions
  unfolding settle_fill record_fill
  settle_fill-positions market now strategy side qty price db =
      elim (Bool-cases (d.eq qty (d.lit 0 0))) [ inl e ↦ rw e refl | inr e ↦ rw e refl ]

  settle_fill-markets :
      (market : Market) (now : DateTime) (strategy side : String) (qty price : F) (db : Database F)
      → (settle_fill market now strategy side qty price db).markets ≡ db.markets
  unfolding settle_fill record_fill
  settle_fill-markets market now strategy side qty price db =
      elim (Bool-cases (d.eq qty (d.lit 0 0))) [ inl e ↦ rw e refl | inr e ↦ rw e refl ]

  -- the position after the closing row was added to it
  closed_row :
      (market : Market) (strategy : String) (p : Position F) (payout : F) (ps : List (Position F))
      → find_row position_key (market.market_id, strategy) ps ≡ some p
      → let row = closing market strategy p.qty_yes p.qty_no payout in
        find_row position_key
          (market.market_id, strategy)
          (upsert position_key merge_position row ps)
        ≡ some (merge_position p row)
  closed_row market strategy p payout ps h =
      let row = closing market strategy p.qty_yes p.qty_no payout in
      find_row-upsert position_key merge_position (λ old new same. same) row
        (market.market_id, strategy) ps
      ∙ rw (==_refl (position_key row), h) refl

  settled_row :
      (market : Market) (now : DateTime) (strategy : String) (p : Position F) (db : Database F)
      → p.settled ≡ true
      → settle_row market now strategy (some p) db ≡ (ok not_settled, db)
  unfolding settle_row
  settled_row market now strategy p db h = rw h refl

  opened_row :
      (market : Market) (now : DateTime) (strategy : String) (outcome : ℤ) (p : Position F)
      (db : Database F)
      → market.resolved_outcome ≡ some outcome
      → (p.settled || (d.eq p.qty_yes (d.lit 0 0) && d.eq p.qty_no (d.lit 0 0))) ≡ false
      → settle_row market now strategy (some p) db
        ≡ settle_open market now strategy p.qty_yes p.qty_no outcome db
  unfolding settle_row
  opened_row market now strategy outcome p db o h = rw (o, h) refl

  position-settle_open :
      (market : Market) (now : DateTime) (strategy : String) (outcome : ℤ) (p : Position F)
      (db : Database F)
      → position market.market_id strategy db ≡ some p
      → let payout = payout_of p.qty_yes p.qty_no outcome in
        position market.market_id strategy
          (settle_open market now strategy p.qty_yes p.qty_no outcome db).1
        ≡ some (merge_position p (closing market strategy p.qty_yes p.qty_no payout))
  unfolding settle_open position apply_fill_to_position
  position-settle_open market now strategy outcome p db h =
      let payout = payout_of p.qty_yes p.qty_no outcome in
      let row = closing market strategy p.qty_yes p.qty_no payout in
      let one = settle_fill market now strategy "yes" p.qty_yes (d.float outcome) db in
      let same =
        settle_fill-positions market now strategy "no" p.qty_no (d.float (pos 1 -ℤ outcome)) one
        ∙ settle_fill-positions market now strategy "yes" p.qty_yes (d.float outcome) db in
      ap
        (λ ps.
          find_row position_key (market.market_id, strategy)
            (upsert position_key merge_position row ps))
        same
      ∙ closed_row market strategy p payout db.positions h

  settle_position-eq :
      (market : Market) (now : DateTime) (strategy : String) (p : Position F) (db : Database F)
      → position market.market_id strategy db ≡ some p
      → settle_position market now strategy db ≡ settle_row market now strategy (some p) db
  unfolding settle_position
  settle_position-eq market now strategy p db h = ap (λ o. settle_row market now strategy o db) h

  settle_open-paid :
      (market : Market) (now : DateTime) (strategy : String) (qty_yes qty_no : F) (outcome : ℤ)
      (db : Database F)
      → (settle_open market now strategy qty_yes qty_no outcome db).0
        ≡ ok (paid_out (payout_of qty_yes qty_no outcome))
  unfolding settle_open
  settle_open-paid market now strategy qty_yes qty_no outcome db = refl

  -- `settle_position` on an open position pays its shares at the outcome, and leaves the position flagged
  -- as settled, its quantities, cash and profit each moved by the closing row; a second call, at any later
  -- time, pays nothing and leaves the database as it is.
  pub settle_position-once :
      (market : Market) (now later : DateTime) (strategy : String) (outcome : ℤ) (p : Position F)
      (db : Database F)
      → position market.market_id strategy db ≡ some p
      → market.resolved_outcome ≡ some outcome
      → (p.settled || (d.eq p.qty_yes (d.lit 0 0) && d.eq p.qty_no (d.lit 0 0))) ≡ false
      → let payout = payout_of p.qty_yes p.qty_no outcome in
        let (result, db') = settle_position market now strategy db in
        (result ≡ ok (paid_out payout))
        × (position market.market_id strategy db'
            ≡ some (merge_position p (closing market strategy p.qty_yes p.qty_no payout)))
        × (settle_position market later strategy db' ≡ (ok not_settled, db'))
  settle_position-once market now later strategy outcome p db h o open_p =
      let first =
        settle_position-eq market now strategy p db h
        ∙ opened_row market now strategy outcome p db o open_p in
      let db' = (settle_open market now strategy p.qty_yes p.qty_no outcome db).1 in
      let row = closing market strategy p.qty_yes p.qty_no (payout_of p.qty_yes p.qty_no outcome) in
      let found = position-settle_open market now strategy outcome p db h in
      rw first (
        settle_open-paid market now strategy p.qty_yes p.qty_no outcome db,
        found,
        settle_position-eq market later strategy (merge_position p row) db' found
            ∙ settled_row market later strategy (merge_position p row) db' (or_true p.settled),
      )

  settle_open-markets :
      (market : Market) (now : DateTime) (strategy : String) (qty_yes qty_no : F) (outcome : ℤ)
      (db : Database F)
      → (settle_open market now strategy qty_yes qty_no outcome db).1.markets ≡ db.markets
  unfolding settle_open apply_fill_to_position
  settle_open-markets market now strategy qty_yes qty_no outcome db =
      settle_fill-markets market now strategy "no" qty_no (d.float (pos 1 -ℤ outcome)) _
      ∙ settle_fill-markets market now strategy "yes" qty_yes (d.float outcome) db

  settle_row-markets :
      (market : Market) (now : DateTime) (strategy : String) (o : Option (Position F))
      (db : Database F)
      → (settle_row market now strategy o db).1.markets ≡ db.markets
  unfolding settle_row
  settle_row-markets market now strategy none db = refl
  settle_row-markets market now strategy (some p) db =
      elim (Bool-cases (p.settled || (d.eq p.qty_yes (d.lit 0 0) && d.eq p.qty_no (d.lit 0 0)))) [
        | inl e ↦ rw e refl
        | inr e ↦ elim (Option-cases market.resolved_outcome) [
          | inl o ↦ rw (e, o) refl
          | inr (outcome, o) ↦
              rw (e, o) (settle_open-markets market now strategy p.qty_yes p.qty_no outcome db)
        ]
      ]

  pub settle_position-markets :
      (market : Market) (now : DateTime) (strategy : String) (db : Database F)
      → (settle_position market now strategy db).1.markets ≡ db.markets
  unfolding settle_position
  settle_position-markets market now strategy db =
      settle_row-markets market now strategy (position market.market_id strategy db) db
