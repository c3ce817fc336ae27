-- ===== src/Pipeline/Payout.antt =====
-- pipeline/steps.py: `_settle_position`.
use augury.Prelude.{
  String, true, ◌&&◌, ◌||◌, Option, none, some, if◌then◌else◌, ok, err, assertion_error, Exec,
}
use augury.Prelude.Int.{ℤ, pos, ◌-ℤ◌}
use augury.Prelude.Keys.{string_key}
use augury.Prelude.Float.{Float}
use augury.Models.{DateTime, Market}
use augury.Db.{Database, Position, record_fill, position, apply_fill_to_position}

-- the result of `_settle_position`: `position_settled` and the payout
pub data Settlement (F : Type 0) : Type 0 where
  not_settled : Settlement F
  paid_out : F → Settlement F

or_now : DateTime → Option DateTime → DateTime
or_now now none = now
or_now now (some t) = t

module _ {F : Type 0} ⦃d : Float F⦄ where
  -- the fill of one side of the position
  unfoldable pub settle_fill : Market → DateTime → String → String → F → F → Database F → Database F
  unfolding or_now record_fill
  settle_fill market now strategy side qty price db =
      if d.eq qty (d.lit 0 0)
      then db
      else record_fill
          (record {
            market_id = market.market_id;
            ts = or_now now market.resolution_time;
            strategy = strategy;
            side = side;
            action = "settle";
            quantity = d.abs qty;
            price = price;
            cash_flow = d.mul qty price;
            signal = none;
            note = some "market resolution";
          })
          db

  unfoldable pub payout_of : F → F → ℤ → F
  payout_of qty_yes qty_no outcome =
      d.add (d.mul qty_yes (d.float outcome)) (d.mul qty_no (d.float (pos 1 -ℤ outcome)))

  -- the row that `apply_fill_to_position` adds
  abbrev pub closing : Market → String → F → F → F → Position F
  closing market strategy qty_yes qty_no payout = record {
    market_id = market.market_id;
    strategy = strategy;
    qty_yes = d.neg qty_yes;
    qty_no = d.neg qty_no;
    cash = payout;
    realized_pnl = payout;
    settled = true;
  }

  unfoldable pub settle_open :
      Market → DateTime → String → F → F → ℤ → Exec (Database F) (Settlement F)
  unfolding settle_fill payout_of apply_fill_to_position
  settle_open market now strategy qty_yes qty_no outcome db =
      let payout = payout_of qty_yes qty_no outcome in
      let filled =
        settle_fill market now strategy "no" qty_no (d.float (pos 1 -ℤ outcome))
          (settle_fill market now strategy "yes" qty_yes (d.float outcome) db) in
      (
        ok (paid_out payout),
        apply_fill_to_position (closing market strategy qty_yes qty_no payout) filled,
      )

  unfoldable pub settle_row :
      Market → DateTime → String → Option (Position F) → Exec (Database F) (Settlement F)
  unfolding settle_open
  settle_row market now strategy none db = (ok not_settled, db)
  settle_row market now strategy (some p) db =
      if p.settled || (d.eq p.qty_yes (d.lit 0 0) && d.eq p.qty_no (d.lit 0 0))
      then (ok not_settled, db)
      else elim market.resolved_outcome [
        | none ↦ (err assertion_error, db)
        | some outcome ↦ settle_open market now strategy p.qty_yes p.qty_no outcome db
      ]

  unfoldable pub settle_position : Market → DateTime → String → Exec (Database F) (Settlement F)
  unfolding settle_row position
  settle_position market now strategy db =
      settle_row market now strategy (position market.market_id strategy db) db
