-- ===== src/Venues/Money.antt =====
-- clients/_http.py: `parse_money`; and `_parse_ts`, which both clients declare.
use augury.Prelude.{Option, none, some, if◌then◌else◌, Result, ok, ◌>>=◌}
use augury.Prelude.Float.{Float, float_of_int}
use augury.Prelude.Json.{
  Json, null, boolean, integer, decimal, text, Builtins, float_of_bool, is_empty, replace_z,
}
use augury.Models.{DateTime}

module _ {F : Type 0} ⦃d : Float F⦄ ⦃py : Builtins F⦄ where
  or_default : Option F → Option F → Option F
  or_default none default = default
  or_default (some x) default = some x

  unfoldable pub parse_money : Json F → Option F → Result (Option F)
  unfolding or_default float_of_int
  parse_money null default = ok default
  parse_money (boolean b) default = ok (some (float_of_bool b))
  parse_money (integer z) default = do x ← float_of_int z; ok (some x)
  parse_money (decimal x) default = ok (some x)
  parse_money (text s) default =
      let stripped = py.strip s in
      ok (if is_empty stripped then default else or_default (py.float_of stripped) default)
  parse_money _ default = ok default

  -- `parse_money(value)`
  abbrev pub money : Json F → Result (Option F)
  money value = parse_money value none

  unfoldable pub parse_ts : Json F → Option DateTime
  parse_ts (text s) = if is_empty s then none else py.fromisoformat (replace_z s)
  parse_ts _ = none
