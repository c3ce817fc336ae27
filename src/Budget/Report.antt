-- ===== src/Budget/Report.antt =====
-- The reports of `ReadBudget`. The price of a read is an argument, `local_date` is `date.today()`, and the
-- line of `summary` is a record.
use augury.Prelude.{String, Option, none, some, Result, ok, ◌>>=◌}
use augury.Prelude.Int.{ℤ}
use augury.Prelude.Float.{Float}
use augury.Budget.Ledger.{ReadBudget, File, used_today, remaining}

pub record Summary (F : Type 0) : Type 0 where
  pub service : String
  pub date : String
  pub used : ℤ
  pub max_daily_reads : ℤ
  pub cost : F
  pub remaining : ℤ

module _ {F : Type 0} ⦃d : Float F⦄ (config : ReadBudget) (cost_per_read : F) (today : String) where
  -- the reads that are given, or those of the day
  unfoldable pub reads_or_used : Option ℤ → File → Result ℤ
  unfolding used_today
  reads_or_used none file = used_today config today file
  reads_or_used (some reads) file = ok reads

  unfoldable pub estimated_cost : Option ℤ → File → Result F
  unfolding reads_or_used
  estimated_cost reads file = do n ← reads_or_used reads file; ok (d.mul (d.float n) cost_per_read)

  unfoldable pub summary : (local_date : String) → File → Result (Summary F)
  unfolding used_today remaining
  summary local_date file = do
    used ← used_today config today file
    left ← remaining config today file
    ok (record {
      service = config.service;
      date = local_date;
      used = used;
      max_daily_reads = config.max_daily_reads;
      cost = d.mul (d.float used) cost_per_read;
      remaining = left;
    })
