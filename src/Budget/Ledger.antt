-- ===== src/Budget/Ledger.antt =====
-- `class ReadBudget`. The file on disk is missing, unreadable, JSON that is no object, or an object
-- of counters, which the model keeps in the order of insertion.
use Prim.Native.Nat.{Ordering}
use Prim.Native.String.{◌++◌, compare as str_compare}
use augury.Prelude.{
  ◌-◌, String, Bool, true, false, Option, none, some, List, [], ◌∷◌, map, if◌then◌else◌, ltb,
  length, take, Result, ok, err, value_error, key_error, runtime_error, read_budget_exceeded, Exec,
}
use augury.Prelude.Int.{ℤ, pos, ◌+ℤ◌, ◌-ℤ◌, ltb_ℤ}
use augury.Prelude.Keys.{◌==◌, string_key}

-- `dict[str, int]`
abbrev pub Counters : Type 0
Counters = List (String × ℤ)

pub data File : Type 0 where
  missing : File
  -- a JSONDecodeError or an OSError
  unreadable : File
  -- valid JSON that is not a dict
  not_object : File
  counters : Counters → File

pub record ReadBudget : Type 0 where
  pub max_daily_reads : ℤ
  pub service : String

-- `ReadBudget(...)` with `__post_init__`
unfoldable pub make_budget : ReadBudget → Result ReadBudget
make_budget c = if ltb_ℤ c.max_daily_reads (pos 0) then err value_error else ok c

-- `_load`
unfoldable pub load : File → Result Counters
load missing = ok []
load unreadable = err runtime_error
load not_object = ok []
load (counters entries) = ok entries

-- `entries.get(key)`
unfoldable pub get : Counters → String → Option ℤ
get [] key = none
get ((k, n) ∷ entries) key = if k == key then some n else get entries key

-- `entries.get(key, 0)`
abbrev pub or_zero : Option ℤ → ℤ
or_zero none = pos 0
or_zero (some n) = n

-- `entries[key] = n`
unfoldable pub put : Counters → String → ℤ → Counters
put [] key n = (key, n) ∷ []
put ((k, m) ∷ entries) key n = if k == key then (k, n) ∷ entries else (k, m) ∷ put entries key n

-- `entries.pop(key, None)`
unfoldable pub remove : Counters → String → Counters
remove [] key = []
remove ((k, m) ∷ entries) key = if k == key then entries else (k, m) ∷ remove entries key

abbrev before : Ordering → Bool
before Ordering.lt = true
before _ = false

-- `sorted(entries)`, by insertion
unfoldable pub insert : String → List String → List String
insert k [] = k ∷ []
insert k (j ∷ js) = if before (str_compare j k) then j ∷ insert k js else k ∷ j ∷ js

unfoldable pub sorted : List String → List String
unfolding insert
sorted [] = []
sorted (k ∷ ks) = insert k (sorted ks)

-- `for stale in sorted(entries)[:-90]: entries.pop(stale, None)`
unfoldable pub remove_all : List String → Counters → Counters
unfolding remove
remove_all [] entries = entries
remove_all (k ∷ ks) entries = remove_all ks (remove entries k)

unfoldable pub stale : Counters → List String
unfolding sorted
stale entries = take (length entries - 90) (sorted (map (λ e. e.0) entries))

unfoldable pub prune : Counters → Counters
unfolding remove_all stale
prune entries = if ltb 90 (length entries) then remove_all (stale entries) entries else entries

-- `entries[key]` of the `return`, which raises KeyError if the pruning dropped the key
or_key_error : Option ℤ → Result ℤ
or_key_error none = err key_error
or_key_error (some n) = ok n

-- the rest of `record`, on the loaded entries: add, prune, save, return
unfoldable pub add_to : String → ℤ → Counters → Result ℤ × File
unfolding or_key_error
add_to key actual entries =
    let kept = prune (put entries key (or_zero (get entries key) +ℤ actual)) in
    (or_key_error (get kept key), counters kept)

-- `int(self._load().get(key, 0))`
unfoldable pub used_in : String → File → Result ℤ
unfolding load get
used_in key file = elim (load file) [ ok entries ↦ ok (or_zero (get entries key)) | err e ↦ err e ]

module _ (config : ReadBudget) (today : String) where
  -- `_key()`
  unfoldable pub key : String
  key = today ++ ":" ++ config.service

  unfoldable pub used_today : File → Result ℤ
  unfolding used_in key
  used_today = used_in key

  -- `max(0, max_daily_reads - used)`
  unfoldable pub remaining : File → Result ℤ
  unfolding used_today
  remaining file = elim (used_today file) [
    | ok used ↦
        let left = config.max_daily_reads -ℤ used in ok (if ltb_ℤ (pos 0) left then left else pos 0)
    | err e ↦ err e
  ]

  unfoldable pub check : ℤ → File → Result (Unit {0})
  unfolding used_today
  check requested file =
      if ltb_ℤ requested (pos 0) then err value_error else elim (used_today file) [
        | ok used ↦
            if ltb_ℤ config.max_daily_reads (used +ℤ requested)
            then err read_budget_exceeded
            else ok tt
        | err e ↦ err e
      ]

  unfoldable pub record_reads : ℤ → Exec File ℤ
  unfolding load key
  record_reads actual file =
      if ltb_ℤ actual (pos 0)
      then (err value_error, file)
      else elim (load file) [ ok entries ↦ add_to key actual entries | err e ↦ (err e, file) ]
