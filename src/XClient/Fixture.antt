-- ===== src/XClient/Fixture.antt =====
-- clients/x.py: `FixtureXBackend`. The directory is the argument `files`: the lines of a file, if there is
-- one of that name.
use Prim.Native.Char.{code}
use Prim.Native.Nat.{max}
use Prim.Native.String.{◌++◌}
use augury.Prelude.{
  ℕ, ◌+◌, ◌-◌, String, Bool, false, ◌||◌, Option, none, some, List, [], ◌∷◌, if◌then◌else◌, ltb,
  take, Result, ok, err, value_error, ◌>>=◌,
}
use augury.Prelude.Keys.{◌==◌, string_key, nat_key}
use augury.Prelude.Float.{Float}
use augury.Prelude.Json.{
  Json, text, object, Builtins, get, get_or, or_json, is_empty, or_value_error, str,
}
use augury.Models.{DateTime, Post, FilterVerdict, accepted, duplicate, bot, low_quality, off_topic}
use augury.Db.{sort_by}
use augury.Venues.{parse_ts}
use augury.XClient.Live.{count_of, optional_text}

-- `market_id.replace(":", "_").replace("/", "_")`
unfoldable pub safe_name : String → String
safe_name String.[] = String.[]
safe_name (String.◌∷◌ c s) =
    let rest = safe_name s in
    if code c == b':' || code c == b'/' then "_" ++ rest else String.◌∷◌ c rest

-- `_fixture_path`: the file of the market, or the default one
unfoldable pub fixture_lines : (String → Option (List String)) → String → Option (List String)
unfolding safe_name
fixture_lines files market_id = elim (files (safe_name market_id ++ ".jsonl")) [
  | some lines ↦ some lines
  | none ↦ files "default.jsonl"
]

-- `text.startswith("//")`
abbrev pub is_comment : String → Bool
is_comment String.[] = false
is_comment (String.◌∷◌ c String.[]) = false
is_comment (String.◌∷◌ c (String.◌∷◌ b s)) = if code c == b'/' then code b == b'/' else false

-- `max(best, *(created for created, _ in parsed))`
unfoldable pub newest : {A : Type 0} → DateTime → List (DateTime × A) → DateTime
newest best [] = best
newest best ((created, record_of) ∷ parsed) = newest (max best created) parsed

-- `created + offset`, where `offset` is `anchor - newest`: no record is later than the newest
abbrev pub shifted : Bool → DateTime → DateTime → DateTime → DateTime
shifted anchor_to_now anchor latest t = if anchor_to_now then (t + anchor) - latest else t

abbrev pub is_early : Option DateTime → DateTime → Bool
is_early none t = false
is_early (some start) t = ltb t start

-- `FilterVerdict(value)`
unfoldable pub verdict_named : String → Result FilterVerdict
verdict_named s =
    if s == "accepted"
    then ok accepted
    else if s == "duplicate"
    then ok duplicate
    else if s == "bot"
    then ok bot
    else if s == "low_quality"
    then ok low_quality
    else if s == "off_topic"
    then ok off_topic
    else err value_error

unfoldable pub verdict_of : {F : Type 0} → Json F → Result FilterVerdict
unfolding verdict_named
verdict_of (text s) = verdict_named s
verdict_of _ = err value_error

module _ {F : Type 0} ⦃d : Float F⦄ ⦃py : Builtins F⦄ where
  -- a decoded line that is an object is a record
  abbrev keep_object : Json F → List (Json F) → List (Json F)
  keep_object (object fs) rest = object fs ∷ rest
  keep_object _ rest = rest

  -- `_read_records`: empty lines and comments are skipped
  unfoldable pub read_records : List String → Result (List (Json F))
  read_records [] = ok []
  read_records (line ∷ lines) =
      let stripped = py.strip line in
      let rest = read_records lines in
      if is_empty stripped || is_comment stripped then rest else do
        decoded ← py.loads stripped
        raw ← or_value_error decoded
        records ← rest
        ok (keep_object raw records)

  -- the records whose `created_at` parses
  unfoldable pub parse_records : List (Json F) → Result (List (DateTime × Json F))
  parse_records [] = ok []
  parse_records (raw ∷ raws) = do
    at ← get raw "created_at"
    rest ← parse_records raws
    ok (elim (parse_ts at) [ none ↦ rest | some created ↦ (created, raw) ∷ rest ])

  unfoldable pub fixture_post : String → DateTime → DateTime → Json F → Result Post
  unfolding verdict_of
  fixture_post market_id now at raw = do
    post_id ← get raw "post_id"
    id ← get raw "id"
    content ← get_or raw "text" (text "")
    author_id ← get raw "author_id"
    joined ← get raw "author_created_at"
    followers ← count_of raw "followers"
    engagements ← count_of raw "engagements"
    lang ← get raw "lang"
    named ← get_or raw "filter_verdict" (text "accepted")
    verdict ← verdict_of named
    reason ← get raw "filter_reason"
    ok (record {
      post_id = str (or_json (or_json post_id id) (text ""));
      market_id = market_id;
      created_at = at;
      text = str content;
      author_id = optional_text author_id;
      author_created_at = parse_ts joined;
      followers = followers;
      engagements = engagements;
      lang = optional_text lang;
      ingested_at = some now;
      minhash = none;
      lsh_bucket = none;
      filter_verdict = verdict;
      filter_reason = optional_text reason;
      source = "fixture";
    })

  -- the loop over `parsed`; a record before the start is skipped unread
  unfoldable pub fixture_posts :
      (market_id : String) (now : DateTime) (shift : DateTime → DateTime)
      → Option DateTime
      → List (DateTime × Json F)
      → Result (List Post)
  unfolding fixture_post
  fixture_posts market_id now shift start_time [] = ok []
  fixture_posts market_id now shift start_time ((created, raw) ∷ parsed) =
      let rest = fixture_posts market_id now shift start_time parsed in
      if is_early start_time (shift created)
      then rest
      else do post ← fixture_post market_id now (shift created) raw; posts ← rest; ok (post ∷ posts)

  unfoldable pub replay :
      (anchor_to_now : Bool) (anchor now : DateTime)
      → List (DateTime × Json F)
      → String
      → ℕ
      → Option DateTime
      → Result (List Post)
  unfolding newest fixture_posts
  replay anchor_to_now anchor now [] market_id max_results start_time = ok []
  replay anchor_to_now anchor now ((created, raw) ∷ parsed) market_id max_results start_time = do
    let shift = shifted anchor_to_now anchor (newest created parsed)
    posts ← fixture_posts market_id now shift start_time ((created, raw) ∷ parsed)
    ok (take max_results (sort_by (λ p q. ltb q.created_at p.created_at) posts))

module _ (F : Type 0) ⦃d : Float F⦄ ⦃py : Builtins F⦄ where
  -- `search`
  unfoldable pub fixture_search :
      (anchor_to_now : Bool) (anchor now : DateTime) (files : String → Option (List String))
      → String
      → ℕ
      → Option DateTime
      → Result (List Post)
  unfolding fixture_lines read_records parse_records replay
  fixture_search anchor_to_now anchor now files market_id max_results start_time =
      elim (fixture_lines files market_id) [
        | none ↦ ok []
        | some lines ↦ do
          records ← read_records {F = F} lines
          parsed ← parse_records records
          replay anchor_to_now anchor now parsed market_id max_results start_time
      ]
