-- ===== src/Budget/Laws.antt =====
-- What budget.py promises: counts persist, the check is exact, an unreadable ledger blocks reads.
use text.Mathlib.TextLemmas.{append_cancel_left}
use text.Mathlib.TextEquality.{eq_iff}
use augury.Prelude.{
  suc, ◌<◌, ◌≤◌, String, ◌≡◌, ◌≢◌, refl, ◌⊎◌, inl, inr, ◌↔◌, arith, none, some, List, [], ◌∷◌,
  if◌then◌else◌, length, Bool-cases, Result, ok, err, runtime_error, ltb, value_error,
}
use augury.Prelude.Int.{ℤ, pos, ◌+ℤ◌, ◌≤ℤ◌, int_laws, ltb_ℤ, +ℤ_parts, -ℤ_parts}
use augury.Prelude.Keys.{◌==◌, string_key, ==_refl}
use augury.Budget.Ledger.{
  Counters, File, missing, unreadable, not_object, counters, ReadBudget, load, get, put, or_zero,
  remove, remove_all, stale, prune, used_in, key, used_today, remaining, check, record_reads,
  add_to,
}

-- A Python dict: no key stands twice.
abbrev pub IsDict : Counters → Type 0
IsDict [] = Unit
IsDict ((k, n) ∷ entries) = (get entries k ≡ none) × IsDict entries

pub get-put :
    (entries : Counters) (k : String) (n : ℤ) (j : String)
    → get (put entries k n) j ≡ (if k == j then some n else get entries j)
unfolding get put
get-put [] k n j = refl
get-put ((i, m) ∷ entries) k n j =
    ground (arith, get-put entries k n j, eq_iff i k, eq_iff i j, eq_iff k j)

pub put-IsDict :
    (entries : Counters) (k : String) (n : ℤ) → IsDict entries → IsDict (put entries k n)
unfolding get put
put-IsDict [] k n h = (refl, tt)
put-IsDict ((i, m) ∷ entries) k n h =
    ground (arith, put-IsDict entries k n h.1, get-put entries k n i, eq_iff i k, eq_iff k i)

get-remove :
    (entries : Counters) (k j : String)
    → IsDict entries
    → get (remove entries k) j ≡ (if k == j then none else get entries j)
unfolding get remove
get-remove [] k j h = ground arith
get-remove ((i, m) ∷ entries) k j h =
    ground (arith, get-remove entries k j h.1, eq_iff i k, eq_iff i j, eq_iff k j)

remove-IsDict : (entries : Counters) (k : String) → IsDict entries → IsDict (remove entries k)
unfolding remove
remove-IsDict [] k h = tt
remove-IsDict ((i, m) ∷ entries) k h =
    ground (arith, remove-IsDict entries k h.1, get-remove entries k i h.1)

-- pruning drops entries and changes none
get-remove_all :
    (ks : List String) (entries : Counters) (j : String)
    → IsDict entries
    → IsDict (remove_all ks entries)
      × ((get (remove_all ks entries) j ≡ none) ⊎ (get (remove_all ks entries) j ≡ get entries j))
unfolding remove_all
get-remove_all [] entries j h = (h, inr refl)
get-remove_all (k ∷ ks) entries j h = ground (
  arith,
  get-remove_all ks (remove entries k) j (remove-IsDict entries k h),
  get-remove entries k j h,
)

pub get-prune :
    (entries : Counters) (j : String)
    → IsDict entries
    → IsDict (prune entries)
      × ((get (prune entries) j ≡ none) ⊎ (get (prune entries) j ≡ get entries j))
unfolding prune
get-prune entries j h = elim (Bool-cases (ltb 90 (length entries))) [
  | inl e ↦ rw e (get-remove_all (stale entries) entries j h)
  | inr e ↦ rw e (h, inr refl)
]

-- The file holds a dict, when it holds one at all.
abbrev pub IsLedger : File → Type 0
IsLedger (counters entries) = IsDict entries
IsLedger _ = Unit

add_to_lem :
    (k : String) (actual total : ℤ) (entries : Counters)
    → IsDict entries
    → (add_to k actual entries).0 ≡ ok total
    → (total ≡ or_zero (get entries k) +ℤ actual)
      × (used_in k (add_to k actual entries).1 ≡ ok total)
      × IsLedger (add_to k actual entries).1
unfolding add_to used_in load
add_to_lem k actual total entries h e =
    let n = or_zero (get entries k) +ℤ actual in
    let (dict, found) = get-prune (put entries k n) k (put-IsDict entries k n h) in
    ground (arith, dict, found, get-put entries k n k, ==_refl k)

module _ (config : ReadBudget) (today : String) where
  -- A recorded read persists: when `record` returns, its result is the count that was in the file plus
  -- the reads just made, it is what the next load of the file finds, and the file is a ledger still.
  pub used_today-record_reads :
      (actual used total : ℤ) (file : File)
      → IsLedger file
      → used_today config today file ≡ ok used
      → (record_reads config today actual file).0 ≡ ok total
      → (total ≡ used +ℤ actual)
        × (used_today config today (record_reads config today actual file).1 ≡ ok total)
        × IsLedger (record_reads config today actual file).1
  unfolding record_reads used_today
  used_today-record_reads actual used total missing h u e =
      ground (arith, add_to_lem (key config today) actual total [] tt)
  used_today-record_reads actual used total unreadable h u e = cc
  used_today-record_reads actual used total not_object h u e =
      ground (arith, add_to_lem (key config today) actual total [] tt)
  used_today-record_reads actual used total (counters entries) h u e =
      ground (arith, add_to_lem (key config today) actual total entries h)

  -- On a ledger that loads, the check passes exactly when the request is not negative and fits
  -- into what is left of the day's budget.
  pub check-ok_iff :
      (requested used : ℤ) (file : File)
      → used_today config today file ≡ ok used
      → (check config today requested file ≡ ok tt)
        ↔ ((pos 0 ≤ℤ requested) × (used +ℤ requested ≤ℤ config.max_daily_reads))
  unfolding check
  check-ok_iff requested used file u = rw u (ground arith)

  -- On a ledger that loads, a positive request passes the check exactly when it is at most what
  -- `remaining` reports.
  pub check-remaining_iff :
      (requested left : ℤ) (file : File)
      → pos 1 ≤ℤ requested
      → remaining config today file ≡ ok left
      → (check config today requested file ≡ ok tt) ↔ (requested ≤ℤ left)
  unfolding check remaining
  check-remaining_iff requested left file p r = go (used_today config today file) refl
    where
      go :
          (u : Result ℤ)
          → used_today config today file ≡ u
          → (check config today requested file ≡ ok tt) ↔ (requested ≤ℤ left)
      go (ok used) e = ground (arith, +ℤ_parts used requested, -ℤ_parts config.max_daily_reads used)
      go (err x) e = ground arith

  -- With an unreadable ledger every call raises RuntimeError (a negative count ValueError), and the
  -- file is left as it is.
  pub unreadable-blocks :
      (n : ℤ)
      → let refusal = if ltb_ℤ n (pos 0) then value_error else runtime_error in
        (check config today n unreadable ≡ err refusal)
        × (record_reads config today n unreadable ≡ (err refusal, unreadable))
        × (remaining config today unreadable ≡ err runtime_error)
  unfolding check record_reads remaining
  unreadable-blocks n = ground arith

  -- A ledger that is valid JSON but no object reads as unspent: the check allows the whole budget.
  pub not_object-unspent :
      (requested : ℤ)
      → (check config today requested not_object ≡ ok tt)
        ↔ ((pos 0 ≤ℤ requested) × (requested ≤ℤ config.max_daily_reads))
  unfolding check used_today
  not_object-unspent requested = grind int_laws

length-put-le :
    (entries : Counters) (k : String) (n : ℤ) → length (put entries k n) ≤ suc (length entries)
unfolding put
length-put-le [] k n = omega arith
length-put-le ((i, m) ∷ entries) k n = ground (arith, length-put-le entries k n)

prune-small : (entries : Counters) → length entries ≤ 90 → prune entries ≡ entries
unfolding prune
prune-small entries h = ground arith

key-service :
    (c other : ReadBudget) (today : String)
    → key c today ≡ key other today
    → c.service ≡ other.service
unfolding key
key-service c other today h =
    append_cancel_left ":" c.service other.service (append_cancel_left today _ _ h)

module _ (config : ReadBudget) (today : String) (actual : ℤ) (entries : Counters) where
  -- `record` does not raise on a count that is not negative and a ledger of fewer than 90 entries: it
  -- returns the new total and writes that one entry.
  pub record_reads-small :
      pos 0 ≤ℤ actual
      → length entries < 90
      → let total = or_zero (get entries (key config today)) +ℤ actual in
        record_reads config today actual (counters entries)
        ≡ (ok total, counters (put entries (key config today) total))
  unfolding record_reads load add_to
  record_reads-small p h =
      let k = key config today in
      let total = or_zero (get entries k) +ℤ actual in
      let small =
        prune-small (put entries k total) (omega (arith, length-put-le entries k total)) in
      ground (arith, small, get-put entries k total k, ==_refl k)

  -- Services count separately: on a ledger of fewer than 90 entries, `record` for one service leaves
  -- the count of every other service as it was.
  pub used_today-record_reads_ne :
      (other : ReadBudget)
      → config.service ≢ other.service
      → length entries < 90
      → used_today other today (record_reads config today actual (counters entries)).1
        ≡ used_today other today (counters entries)
  unfolding record_reads load add_to used_today used_in
  used_today-record_reads_ne other ne h =
      let k = key config today in
      let j = key other today in
      let total = or_zero (get entries k) +ℤ actual in
      let small =
        prune-small (put entries k total) (omega (arith, length-put-le entries k total)) in
      let apart : k ≢ j = λ e. ne (key-service config other today e) in
      ground (arith, small, get-put entries k total j, eq_iff k j)
