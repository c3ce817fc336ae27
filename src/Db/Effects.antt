-- ===== src/Db/Effects.antt =====
-- What the other writes of db.py change: the resolution queue, the query terms, the database's read
-- budget, and the purge.
use augury.Prelude.{
  ℕ, ◌+◌, ◌≤◌, String, ◌≡◌, ◌≢◌, refl, Bool, true, false, Option, none, some, List, [], ◌∷◌,
  if◌then◌else◌, arith, Bool-cases, inl, inr, filter, length, ltb, All, All-filter, eq_iff, ok,
  >>=-eq-ok,
}
use augury.Prelude.Int.{ℤ, pos, ◌+ℤ◌, int_laws}
use augury.Prelude.Keys.{◌==◌, ==_refl, string_key, pair_key, nat_key}
use augury.Models.{DateTime, Market, make_market, is_settled}
use augury.Models.Laws.{make_market-IsConsistent_iff}
use augury.Db.Table.{find_row, upsert, insert_by, sort_by, traverse, delete_where}
use augury.Db.Rows.{Database, MarketRow, market_key, BudgetRow, budget_key}
use augury.Db.Markets.{
  merge_market, market_from_row, closes_before, is_due, upsert_market, open_markets_past_close,
}
use augury.Db.Ledger.{budget_used_today, budget_record, merge_budget, reads_of}
use augury.Db.Maintenance.{purge_before}
use augury.Db.Upserts.{find_row-upsert, merged, IsKeyed}

module _ {R : Type 0} (P : R → Type 0) (before : R → R → Bool) where
  All-insert_by : (r : R) (rs : List R) → P r → All P rs → All P (insert_by before r rs)
  unfolding insert_by
  All-insert_by r [] p h = (p, tt)
  All-insert_by r (q ∷ qs) p h = elim (Bool-cases (before q r)) [
    | inl e ↦ rw e (h.0, All-insert_by r qs p h.1)
    | inr e ↦ rw e (p, h)
  ]

  pub All-sort_by : (rs : List R) → All P rs → All P (sort_by before rs)
  unfolding sort_by
  All-sort_by [] h = tt
  All-sort_by (r ∷ rs) h = All-insert_by r (sort_by before rs) h.0 (All-sort_by rs h.1)

make_market-eq : (m n : Market) → make_market m ≡ ok n → n ≡ m
make_market-eq m n h = ((make_market-IsConsistent_iff m n).0 h).0

All-traverse_markets :
    (P : String → Type 0) (rs : List MarketRow) (ms : List Market)
    → All (λ r. P (market_key r)) rs
    → traverse market_from_row rs ≡ ok ms
    → All (λ m. P m.market_id) ms
All-traverse_markets P [] [] h e = tt
All-traverse_markets P [] (m ∷ ms) h e = cc
All-traverse_markets P (r ∷ rs) ms h e =
    let (m, made, rest) = >>=-eq-ok (market_from_row r) _ e in
    let (ns, done, out) = >>=-eq-ok (traverse market_from_row rs) _ rest in
    let both : ms ≡ m ∷ ns = cc in
    rw both (rw (make_market-eq r.market m made) h.0, All-traverse_markets P rs ns h.1 done)

-- `find_row` misses a key only if no row has it
none_of_find_row :
    (mid : String) (rows : List MarketRow)
    → find_row market_key mid rows ≡ none
    → All (λ r. market_key r ≢ mid) rows
none_of_find_row mid [] h = tt
none_of_find_row mid (r ∷ rs) h =
    (ground (arith, eq_iff (market_key r) mid), none_of_find_row mid rs (ground arith))

settled_not_due :
    (now : DateTime) (r : MarketRow) → is_settled r.market.status ≡ true → is_due now r ≡ false
settled_not_due now r h = ground arith

queue_without :
    (now now' : DateTime) (m : Market) (rows : List MarketRow)
    → is_settled m.status ≡ true
    → IsKeyed market_key rows
    → All
        (λ r. market_key r ≢ m.market_id)
        (filter
          (is_due now')
          (upsert market_key merge_market (record { market = m; updated_at = now }) rows))
unfolding upsert
queue_without now now' m [] s h =
    rw (settled_not_due now' (record { market = m; updated_at = now }) s) tt
queue_without now now' m (r ∷ rs) s h =
    let new : MarketRow = record { market = m; updated_at = now } in
    elim (Bool-cases (market_key r == m.market_id)) [
      | inl e ↦
          let same = (eq_iff (market_key r) m.market_id).0 e in
          rw (e, settled_not_due now' (merge_market r new) s)
            (All-filter (λ q. market_key q ≢ m.market_id) (is_due now') rs
              (none_of_find_row m.market_id rs (rw (← same) h.0)))
      | inr e ↦
          let apart : market_key r ≢ m.market_id =
            ground (arith, eq_iff (market_key r) m.market_id) in
          rw e (elim (Bool-cases (is_due now' r)) [
            | inl f ↦ rw f (apart, queue_without now now' m rs s h.1)
            | inr f ↦ rw f (queue_without now now' m rs s h.1)
          ])
    ]

budget_find :
    (row : BudgetRow) (j : ℕ × String) (table : List BudgetRow)
    → find_row budget_key j (upsert budget_key merge_budget row table) ≡ (
        if budget_key row == j
        then some (merged budget_key merge_budget row (find_row budget_key (budget_key row) table))
        else find_row budget_key j table)
budget_find = find_row-upsert budget_key merge_budget (λ old new same. same)

reads_none : (reads : ℤ) → reads ≡ pos 0 +ℤ reads
reads_none reads = omega int_laws

reads_merged :
    (row : BudgetRow) (o : Option BudgetRow)
    → (merged budget_key merge_budget row o).reads_used ≡ reads_of o +ℤ row.reads_used
reads_merged row none = reads_none row.reads_used
reads_merged row (some old) = refl

module _ {A : Type 0} where
  length-delete_where :
      (p : A → Bool) (xs : List A) → length (filter p xs) + length (delete_where p xs) ≡ length xs
  length-delete_where p [] = omega arith
  length-delete_where p (x ∷ xs) = ground (arith, length-delete_where p xs)

  All-delete_where :
      (time : A → ℕ) (cutoff : ℕ) (xs : List A)
      → All (λ a. cutoff ≤ time a) (delete_where (λ a. ltb (time a) cutoff) xs)
  All-delete_where time cutoff [] = tt
  All-delete_where time cutoff (x ∷ xs) = elim (Bool-cases (ltb (time x) cutoff)) [
    | inl e ↦ rw e (All-delete_where time cutoff xs)
    | inr e ↦ rw e (ground arith, All-delete_where time cutoff xs)
  ]

module _ {F : Type 0} where
  -- Once a market is stored as settled, no later queue of the resolution watcher that loads
  -- lists it again, provided that the table has one row for a market.
  pub open_markets_past_close-settled :
      (now now' : DateTime) (m : Market) (db : Database F) (queue : List Market)
      → is_settled m.status ≡ true
      → IsKeyed market_key db.markets
      → open_markets_past_close now' (upsert_market now m db) ≡ ok queue
      → All (λ q. q.market_id ≢ m.market_id) queue
  unfolding open_markets_past_close upsert_market
  open_markets_past_close-settled now now' m db queue s h e =
      All-traverse_markets (λ mid. mid ≢ m.market_id) _ queue
        (All-sort_by (λ r. market_key r ≢ m.market_id) closes_before _
          (queue_without now now' m db.markets s h))
        e

  -- `budget_record` returns the day's count plus the reads, the next look at the counter finds that
  -- total, and the counts of every other day and service stay.
  pub budget_record_lem :
      (today day : ℕ) (service other : String) (reads : ℤ) (db : Database F)
      → let (total, db') = budget_record today service reads db in
        (total ≡ budget_used_today today service db +ℤ reads)
        × (budget_used_today today service db' ≡ total)
        × (((today ≡ day) × (service ≡ other) → ⊥)
            → budget_used_today day other db' ≡ budget_used_today day other db)
  unfolding budget_record budget_used_today
  budget_record_lem today day service other reads db =
      let row : BudgetRow = record { day = today; service = service; reads_used = reads } in
      (
        rw (budget_find row (today, service) db.read_budget, ==_refl (budget_key row))
            (reads_merged row (find_row budget_key (today, service) db.read_budget)),
        refl,
        λ apart.
            rw (budget_find row (day, other) db.read_budget)
              (elim (Bool-cases (budget_key row == (day, other))) [
                | inl e ↦ absurd (apart (ground (arith, eq_iff service other)))
                | inr e ↦ rw e refl
              ]),
      )

  -- The purge drops exactly the rows older than the cutoff: its counts and the rows that are left add
  -- up to the rows before, none that is left is older, and markets and their terms stay.
  pub purge_before_lem :
      (cutoff : DateTime) (db : Database F)
      → let (n, db') = purge_before cutoff db in
        (n.posts + length db'.posts ≡ length db.posts)
        × (n.stances + length db'.stances ≡ length db.stances)
        × (n.signals + length db'.signals ≡ length db.signals)
        × (n.market_prices + length db'.market_prices ≡ length db.market_prices)
        × (n.sim_prices + length db'.sim_prices ≡ length db.sim_prices)
        × All (λ p. cutoff ≤ p.created_at) db'.posts
        × All (λ r. cutoff ≤ r.scored.created_at) db'.stances
        × All (λ p. cutoff ≤ p.ts) db'.signals
        × All (λ t. cutoff ≤ t.ts) db'.market_prices
        × All (λ t. cutoff ≤ t.ts) db'.sim_prices
        × (db'.markets ≡ db.markets)
        × (db'.market_queries ≡ db.market_queries)
  unfolding purge_before
  purge_before_lem cutoff db = (
    length-delete_where _ db.posts,
    length-delete_where _ db.stances,
    length-delete_where _ db.signals,
    length-delete_where _ db.market_prices,
    length-delete_where _ db.sim_prices,
    All-delete_where (λ p. p.created_at) cutoff db.posts,
    All-delete_where (λ r. r.scored.created_at) cutoff db.stances,
    All-delete_where (λ p. p.ts) cutoff db.signals,
    All-delete_where (λ t. t.ts) cutoff db.market_prices,
    All-delete_where (λ t. t.ts) cutoff db.sim_prices,
    refl,
    refl,
  )
