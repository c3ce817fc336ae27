-- ===== src/XClient/Client.antt =====
-- clients/x.py: `XClient`: the choice of the backend, and `search_markets`.
use augury.Prelude.{
  String, Bool, true, false, Option, none, some, List, [], ◌∷◌, if◌then◌else◌, ok, err,
  read_budget_exceeded, Exec, Error,
}
use augury.Prelude.Keys.{◌==◌, string_key}
use augury.Models.{Post}

-- which backend `from_settings` makes; `token` is none when it is unset
pub data Backend : Type 0 where
  fixture : Backend
  live : String → Backend

unfoldable pub from_settings : Bool → Option String → Backend
from_settings false token = fixture
from_settings true none = fixture
from_settings true (some token) = live token

abbrev pub is_exhausted : Error → Bool
is_exhausted read_budget_exceeded = true
is_exhausted _ = false

-- `results[market_id] = posts`
unfoldable pub put_posts :
    List (String × List Post) → String → List Post → List (String × List Post)
put_posts [] mid posts = (mid, posts) ∷ []
put_posts ((k, v) ∷ results) mid posts =
    if k == mid then (k, posts) ∷ results else (k, v) ∷ put_posts results mid posts

module _ {S : Type 0} (search : String → String → Exec S (List Post)) where
  -- `search_markets`: `search` is the backend's, at the page size and start time of the call
  unfoldable pub search_from :
      List (String × List Post) → List (String × String) → Exec S (List (String × List Post))
  unfolding put_posts
  search_from results [] s = (ok results, s)
  search_from results ((mid, query) ∷ queries) s =
      let (found, s') = search query mid s in
      elim found [
        | ok posts ↦ search_from (put_posts results mid posts) queries s'
        | err e ↦ if is_exhausted e then (ok results, s') else (err e, s')
      ]

  unfoldable pub search_markets : List (String × String) → Exec S (List (String × List Post))
  unfolding search_from
  search_markets queries s = search_from [] queries s
