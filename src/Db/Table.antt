-- ===== src/Db/Table.antt =====
-- Tables and the SQL that the service uses on them.
use Prim.Native.Nat.{Ordering}
use Prim.Native.String.{compare as str_compare}
use augury.Prelude.{
  ℕ, suc, String, Bool, true, false, Option, none, some, List, [], ◌∷◌, if◌then◌else◌, Result, ok,
  ◌>>=◌, not, filter,
}
use augury.Prelude.Keys.{Key, ◌==◌}

module _ {K R : Type 0} ⦃k : Key K⦄ (key : R → K) where
  -- the row with a key
  abbrev pub find_row : K → List R → Option R
  find_row j [] = none
  find_row j (r ∷ rs) = if key r == j then some r else find_row j rs

  -- INSERT ... ON CONFLICT (key) DO UPDATE SET: `merge old new` is the row that replaces `old`.
  -- DO NOTHING is the merge that keeps `old`.
  unfoldable pub upsert : (R → R → R) → R → List R → List R
  upsert merge r [] = r ∷ []
  upsert merge r (q ∷ qs) = if key q == key r then merge q r ∷ qs else q ∷ upsert merge r qs

  -- `executemany` of an upsert
  unfoldable pub upsert_all : (R → R → R) → List R → List R → List R
  unfolding upsert
  upsert_all merge [] table = table
  upsert_all merge (r ∷ rs) table = upsert_all merge rs (upsert merge r table)

  -- how many rows an `executemany` of INSERT ... DO NOTHING adds
  unfoldable pub count_new : List R → List R → ℕ
  unfolding upsert
  count_new [] table = 0
  count_new (r ∷ rs) table =
      count_row (find_row (key r) table) (count_new rs (upsert (λ old new. old) r table))
    where
      count_row : Option R → ℕ → ℕ
      count_row none n = suc n
      count_row (some old) n = n

module _ {R : Type 0} where
  -- ORDER BY, and Python's `sort`: insertion sort, which keeps the order of equal rows
  unfoldable pub insert_by : (R → R → Bool) → R → List R → List R
  insert_by before r [] = r ∷ []
  insert_by before r (q ∷ qs) = if before q r then q ∷ insert_by before r qs else r ∷ q ∷ qs

  unfoldable pub sort_by : (R → R → Bool) → List R → List R
  unfolding insert_by
  sort_by before [] = []
  sort_by before (r ∷ rs) = insert_by before r (sort_by before rs)

  -- `[f(r) for r in rs]` where `f` may raise
  abbrev pub traverse : {B : Type 0} → (R → Result B) → List R → Result (List B)
  traverse f [] = ok []
  traverse f (r ∷ rs) = do b ← f r; bs ← traverse f rs; ok (b ∷ bs)

  -- DELETE FROM table WHERE test
  abbrev pub delete_where : (R → Bool) → List R → List R
  delete_where test = filter (λ r. not (test r))

abbrev is_lt : Ordering → Bool
is_lt Ordering.lt = true
is_lt _ = false

abbrev pub text_before : String → String → Bool
text_before s t = is_lt (str_compare s t)
