-- ===== src/Prelude/Json.antt =====
-- A decoded JSON or YAML value, and what Python's built-ins do with it: `get`, `bool`, `str`, `float`,
-- `int`, `for`. The parts of the standard library that read texts are the fields of `Builtins`.
use Prim.Native.Nat.{ℕ, ◌+◌, ◌-◌, ◌*◌}
use Prim.Native.Char.{Char, code}
use Prim.Native.String.{String, ◌++◌ as text_append}
use mathlib.Core.Bool.{Bool, true, false, not, ◌&&◌}
use mathlib.Core.Option.{Option, none, some}
use mathlib.Core.List.{List, [], ◌∷◌}
use augury.Prelude.Tests.{if◌then◌else◌, ltb, leb}
use augury.Prelude.Lists.{length}
use augury.Prelude.Results.{Result, ok, err, attribute_error, type_error, value_error}
use augury.Prelude.Int.{ℤ, pos, negsuc, pos_part, neg_part}
use augury.Prelude.Keys.{◌==◌, string_key, nat_key}
use augury.Prelude.Float.{Float, float_of_int}

mutual
  pub data Json (F : Type 0) : Type 0 where
    null : Json F
    boolean : Bool → Json F
    integer : ℤ → Json F
    decimal : F → Json F
    text : String → Json F
    array : Items F → Json F
    object : Fields F → Json F

  pub data Items (F : Type 0) : Type 0 where
    nil : Items F
    cons : Json F → Items F → Items F

  pub data Fields (F : Type 0) : Type 0 where
    end : Fields F
    field : String → Json F → Fields F → Fields F

-- `str.strip`, `str.lower`, `float(text)` and `int(text)` with none for ValueError, `int(x)` of a

pub record Builtins (F : Type 0) : Type 0 where
  pub strip : String → String
  pub lower : String → String
  pub float_of : String → Option F
  pub int_of : String → Option ℤ
  pub truncate : F → Result ℤ
  pub repr : Json F → String
  pub loads : String → Result (Option (Json F))
  pub fromisoformat : String → Option ℕ
  pub equal : Json F → Json F → Bool

-- `s.split("-")[0]`
abbrev pub before_dash : String → String
before_dash String.[] = String.[]
before_dash (String.◌∷◌ c s) = if code c == b'-' then String.[] else String.◌∷◌ c (before_dash s)

is_slash_end : Char → String → String
is_slash_end c String.[] = if code c == b'/' then String.[] else String.◌∷◌ c String.[]
is_slash_end c (String.◌∷◌ b s) = String.◌∷◌ c (String.◌∷◌ b s)

-- `s.rstrip("/")`
unfoldable pub rstrip_slash : String → String
unfolding is_slash_end
rstrip_slash String.[] = String.[]
rstrip_slash (String.◌∷◌ c s) = is_slash_end c (rstrip_slash s)

-- `s.replace("Z", "+00:00")`
abbrev pub replace_z : String → String
replace_z String.[] = String.[]
replace_z (String.◌∷◌ c s) =
    let rest = replace_z s in
    if code c == b'Z' then text_append "+00:00" rest else String.◌∷◌ c rest

abbrev pub is_empty : String → Bool
is_empty String.[] = true
is_empty (String.◌∷◌ c s) = false

-- `a or b` on texts that may be None
abbrev pub or_text : Option String → String → String
or_text none b = b
or_text (some a) b = if is_empty a then b else a

-- `a or None`
abbrev pub or_none : String → Option String
or_none a = if is_empty a then none else some a

-- 1970-01-01 counted from the first day of the calendar, and the last second of the calendar
abbrev pub unix_epoch : ℕ
unix_epoch = 62_135_596_800

abbrev pub last_second : ℕ
last_second = 315_537_897_599

-- `datetime.fromtimestamp(z, tz=UTC)`; a year out of range is a ValueError
unfoldable pub from_timestamp : ℤ → Result ℕ
from_timestamp z =
    if leb (neg_part z) unix_epoch && leb (unix_epoch + pos_part z) last_second
    then ok ((unix_epoch + pos_part z - neg_part z) * 1_000_000)
    else err value_error

abbrev pub or_value_error : {A : Type 0} → Option A → Result A
or_value_error none = err value_error
or_value_error (some a) = ok a

module _ {F : Type 0} where
  abbrev pub elements : Items F → List (Json F)
  elements nil = []
  elements (cons x xs) = x ∷ elements xs

  abbrev pub keys : Fields F → List (Json F)
  keys end = []
  keys (field k v fs) = text k ∷ keys fs

  abbrev pub characters : String → List (Json F)
  characters String.[] = []
  characters (String.◌∷◌ c s) = text (String.◌∷◌ c String.[]) ∷ characters s

  -- `value is None`
  abbrev pub is_null : Json F → Bool
  is_null null = true
  is_null _ = false

  -- the entry of a dict
  abbrev pub entry : Fields F → String → Option (Json F)
  entry end key = none
  entry (field k v fs) key = if k == key then some v else entry fs key

  abbrev pub or_else : Option (Json F) → Json F → Json F
  or_else none v = v
  or_else (some w) v = w

  -- `raw.get(key, missing)`
  unfoldable pub get_or : Json F → String → Json F → Result (Json F)
  get_or (object fs) key missing = ok (or_else (entry fs key) missing)
  get_or _ key missing = err attribute_error

  -- `raw.get(key)`
  abbrev pub get : Json F → String → Result (Json F)
  get raw key = get_or raw key null

  -- what `for x in value` runs over
  unfoldable pub iterate : Json F → Result (List (Json F))
  iterate (array xs) = ok (elements xs)
  iterate (object fs) = ok (keys fs)
  iterate (text s) = ok (characters s)
  iterate _ = err type_error

  -- `len(value)`
  unfoldable pub len : Json F → Result ℕ
  len (array xs) = ok (length (elements xs))
  len (object fs) = ok (length (keys fs))
  len (text s) = ok (length (characters s))
  len _ = err type_error

  -- a value that is no key of a dict
  abbrev pub is_unhashable : Json F → Bool
  is_unhashable (array xs) = true
  is_unhashable (object fs) = true
  is_unhashable _ = false

module _ {F : Type 0} ⦃d : Float F⦄ where
  -- `bool(value)`
  unfoldable pub truthy : Json F → Bool
  truthy null = false
  truthy (boolean b) = b
  truthy (integer (pos n)) = ltb 0 n
  truthy (integer (negsuc n)) = true
  truthy (decimal x) = not (d.eq x (d.lit 0 0))
  truthy (text s) = not (is_empty s)
  truthy (array nil) = false
  truthy (array (cons x xs)) = true
  truthy (object end) = false
  truthy (object (field k v fs)) = true

  -- `a or b`
  unfoldable pub or_json : Json F → Json F → Json F
  unfolding truthy
  or_json a b = if truthy a then a else b

  -- `float(True)`
  abbrev pub float_of_bool : Bool → F
  float_of_bool true = d.lit 1 0
  float_of_bool false = d.lit 0 0

module _ {F : Type 0} ⦃d : Float F⦄ ⦃py : Builtins F⦄ where
  -- `str(value)`
  unfoldable pub str : Json F → String
  str (text s) = s
  str null = py.repr null
  str (boolean b) = py.repr (boolean b)
  str (integer z) = py.repr (integer z)
  str (decimal x) = py.repr (decimal x)
  str (array xs) = py.repr (array xs)
  str (object fs) = py.repr (object fs)

  -- `float(value)`
  unfoldable pub to_float : Json F → Result F
  unfolding float_of_int
  to_float (boolean b) = ok (float_of_bool b)
  to_float (integer z) = float_of_int z
  to_float (decimal x) = ok x
  to_float (text s) = or_value_error (py.float_of s)
  to_float _ = err type_error

  -- `int(value)`
  unfoldable pub to_int : Json F → Result ℤ
  to_int (boolean true) = ok (pos 1)
  to_int (boolean false) = ok (pos 0)
  to_int (integer z) = ok z
  to_int (decimal x) = py.truncate x
  to_int (text s) = or_value_error (py.int_of s)
  to_int _ = err type_error

-- the receiver of a method of texts
unfoldable pub to_text : {F : Type 0} → Json F → Result String
to_text (text s) = ok s
to_text _ = err attribute_error
