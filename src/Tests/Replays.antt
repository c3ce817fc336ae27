-- ===== src/Tests/Replays.antt =====
-- A fixture file of three dated posts, replayed.
use augury.Prelude.{
  ℕ, String, ◌≡◌, refl, Option, some, none, List, [], ◌∷◌, if◌then◌else◌, true, IsPost, ok, length,
}
use augury.Prelude.Int.{ℤ}
use augury.Prelude.Keys.{◌==◌, string_key}
use augury.Prelude.Micro.{micro}
use augury.Prelude.Json.{Json, text, object, field, end, Builtins}
use augury.Models.{DateTime}
use augury.XClient.{fixture_search, shifted, newest, read_records, parse_records}
use augury.XClient.Replayed.{IsReplay, fixture_search-IsReplay}
use augury.Tests.Samples.{plain, J}

-- a post of a time
abbrev dated : String → J
dated time = object (field "post_id" (text time) (field "created_at" (text time) end))

abbrev of_time : String → Option DateTime
of_time s =
    if s == "early"
    then some 100
    else if s == "noon"
    then some 150
    else if s == "late"
    then some 200
    else none

-- a line of the file is the name of a time
abbrev builtins : Builtins ℤ
builtins = record plain { loads = λ s. ok (some (dated s)); fromisoformat = of_time }

abbrev lines : List String
lines = "// three posts" ∷ "early" ∷ "noon" ∷ "" ∷ "late" ∷ []

abbrev files : String → Option (List String)
files name = if name == "default.jsonl" then some lines else none

abbrev later_records : List (DateTime × J)
later_records = (150, dated "noon") ∷ (200, dated "late") ∷ []

-- the post of 100 is moved to 900, which is before the start
fixture_search-IsReplay_example :
    IsPost
      (IsReplay "kalshi:FED" 1000 (some 940) 2)
      (fixture_search ℤ ⦃py = builtins⦄ true 1000 1000 files "kalshi:FED" 5 (some 940))
unfolding augury.XClient.fixture_lines read_records parse_records augury.Prelude.Json.get_or
    augury.Venues.parse_ts newest
fixture_search-IsReplay_example =
    fixture_search-IsReplay ⦃py = builtins⦄ "kalshi:FED" 1000 1000 (some 940) files 5 lines
      (dated "early" ∷ dated "noon" ∷ dated "late" ∷ []) 100 (dated "early") later_records refl refl
      refl
