-- ===== src/Models/Listing.antt =====
-- `Market`, and the check of its `__post_init__`.
use augury.Prelude.{
  String, Bool, true, false, not, ◌||◌, Option, none, some, is_some, Result, ok, value_error, ◌>>◌,
  raise_if,
}
use augury.Prelude.Int.{ℤ, pos, negsuc}
use augury.Prelude.Keys.{◌==◌, nat_key}
use augury.Models.Time.{DateTime}
use augury.Models.Enums.{Venue, MarketStatus, is_settled}

pub record Market : Type 0 where
  pub market_id : String
  pub venue : Venue
  pub ticker : String
  pub title : String
  pub target : String
  pub series_ticker : Option String
  pub open_time : Option DateTime
  pub close_time : Option DateTime
  pub status : MarketStatus
  pub resolved_outcome : Option ℤ
  pub resolution_time : Option DateTime
  pub tracked : Bool

-- `resolved_outcome in (None, 0, 1)`
abbrev pub is_outcome : Option ℤ → Bool
is_outcome none = true
is_outcome (some (pos n)) = n == 0 || n == 1
is_outcome (some (negsuc n)) = false

-- `a != b` on Booleans
abbrev pub differ : Bool → Bool → Bool
differ true b = not b
differ false b = b

-- `Market(...)`: the record itself, or the ValueError of `__post_init__`
unfoldable pub make_market : Market → Result Market
make_market m = do
  raise_if (differ (is_settled m.status) (is_some m.resolved_outcome)) value_error
  raise_if (not (is_outcome m.resolved_outcome)) value_error
  ok m
