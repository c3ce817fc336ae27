-- ===== src/XClient/Live.antt =====
-- clients/x.py: `LiveXBackend.search`. The HTTP session is third-party code behind `respond`: it takes
-- the query, the page size and the start time, and answers with the decoded body or raises.
use Prim.Native.Nat.{min, max}
use augury.Prelude.{
  ℕ, String, Option, none, some, List, [], ◌∷◌, if◌then◌else◌, Result, ok, err, type_error, ◌>>=◌,
  ◌>>◌, raise_if, Exec,
}
use augury.Prelude.Int.{ℤ, pos, ◌+ℤ◌}
use augury.Prelude.Float.{Float}
use augury.Prelude.Json.{
  Json, integer, text, array, object, nil, end, Builtins, entry, get, get_or, or_json, iterate, len,
  is_null, is_unhashable, str, to_int,
}
use augury.Models.{DateTime, Post, accepted}
use augury.Venues.{parse_ts}
use augury.Budget.{File, ReadBudget, check, record_reads}

-- MAX_PAGE_SIZE
abbrev pub max_page_size : ℕ
max_page_size = 100

abbrev pub page_size : ℕ → ℕ
page_size max_results = max 10 (min max_results max_page_size)

module _ {F : Type 0} where
  -- `isinstance(user, dict) and "id" in user`, and the id
  abbrev pub id_of : Json F → Option (Json F)
  id_of (object fs) = entry fs "id"
  id_of _ = none

  -- the dict `users`, the last entry first
  unfoldable pub index_users :
      List (Json F) → List (Json F × Json F) → Result (List (Json F × Json F))
  index_users [] known = ok known
  index_users (user ∷ users) known = elim (id_of user) [
    | none ↦ index_users users known
    | some key ↦ do raise_if (is_unhashable key) type_error; index_users users ((key, user) ∷ known)
  ]

  -- `raw.get("author_id")` and the like, where the record keeps the `str` of what is no text
  abbrev pub optional_text : ⦃d : Float F⦄ ⦃py : Builtins F⦄ → Json F → Option String
  optional_text v = if is_null v then none else some (str v)

module _ {F : Type 0} ⦃d : Float F⦄ ⦃py : Builtins F⦄ where
  -- `int(raw.get(key) or 0)`
  unfoldable pub count_of : Json F → String → Result ℤ
  count_of raw key = do value ← get raw key; to_int (or_json value (integer (pos 0)))

  find_user : List (Json F × Json F) → Json F → Json F
  find_user [] id = object end
  find_user ((key, user) ∷ rest) id = if py.equal key id then user else find_user rest id

  -- `users.get(author_id, {})`
  unfoldable pub user_of : List (Json F × Json F) → Json F → Result (Json F)
  unfolding find_user
  user_of known id = do raise_if (is_unhashable id) type_error; ok (find_user known id)

  -- `sum(int(metrics.get(key) or 0) for key in ...)`
  unfoldable pub engagements_of : Json F → Result ℤ
  unfolding count_of
  engagements_of metrics = do
    likes ← count_of metrics "like_count"
    retweets ← count_of metrics "retweet_count"
    replies ← count_of metrics "reply_count"
    quotes ← count_of metrics "quote_count"
    ok (pos 0 +ℤ likes +ℤ retweets +ℤ replies +ℤ quotes)

  -- the post of an element whose `created_at` parses
  unfoldable pub read_post :
      String → DateTime → List (Json F × Json F) → Json F → DateTime → Result Post
  unfolding count_of user_of engagements_of
  read_post market_id now known raw created = do
    metrics ← get raw "public_metrics"
    engagements ← engagements_of (or_json metrics (object end))
    author_id ← get raw "author_id"
    author ← user_of known author_id
    author_metrics ← get author "public_metrics"
    followers ← count_of (or_json author_metrics (object end)) "followers_count"
    post_id ← get raw "id"
    content ← get_or raw "text" (text "")
    joined ← get author "created_at"
    lang ← get raw "lang"
    ok (record {
      post_id = str post_id;
      market_id = market_id;
      created_at = created;
      text = str content;
      author_id = optional_text author_id;
      author_created_at = parse_ts joined;
      followers = followers;
      engagements = engagements;
      lang = optional_text lang;
      ingested_at = some now;
      minhash = none;
      lsh_bucket = none;
      filter_verdict = accepted;
      filter_reason = none;
      source = "x";
    })

  -- the loop over `raw_posts`; an element whose `created_at` does not parse is skipped
  unfoldable pub read_posts :
      String → DateTime → List (Json F × Json F) → List (Json F) → Result (List Post)
  unfolding read_post
  read_posts market_id now known [] = ok []
  read_posts market_id now known (raw ∷ raws) = do
    at ← get raw "created_at"
    let rest = read_posts market_id now known raws
    elim (parse_ts at) [
      | none ↦ rest
      | some created ↦ do
        post ← read_post market_id now known raw created
        posts ← rest
        ok (post ∷ posts)
    ]

  -- `payload.get("data", []) or []`
  unfoldable pub raw_posts : Json F → Result (Json F)
  raw_posts payload = do found ← get_or payload "data" (array nil); ok (or_json found (array nil))

  -- `len(raw_posts)`
  unfoldable pub page_length : Json F → Result ℕ
  unfolding raw_posts
  page_length payload = do raws ← raw_posts payload; len raws

  -- the users of the payload, then its posts
  unfoldable pub posts_of : String → DateTime → Json F → Json F → Result (List Post)
  unfolding index_users read_posts
  posts_of market_id now payload raws = do
    includes ← get_or payload "includes" (object end)
    listed ← get_or (or_json includes (object end)) "users" (array nil)
    users ← iterate (or_json listed (array nil))
    known ← index_users users []
    elements ← iterate raws
    read_posts market_id now known elements

  module _ (config : ReadBudget) (today : String) where
    -- charge the page that came back, then build its posts: what the building raises, the charge stays
    unfoldable pub charge : String → DateTime → Json F → Exec File (List Post)
    unfolding raw_posts posts_of
    charge market_id now payload file =
        let page : Result (Json F × ℕ) = do raws ← raw_posts payload; n ← len raws; ok (raws, n)
        in elim page [
          | err e ↦ (err e, file)
          | ok (raws, n) ↦
              let (recorded, file') = record_reads config today (pos n) file in
              ((do _ ← recorded; posts_of market_id now payload raws), file')
        ]

    -- the request, once the budget allows it
    unfoldable pub request :
        (String → ℕ → Option DateTime → Result (Json F))
        → String
        → String
        → ℕ
        → Option DateTime
        → DateTime
        → Exec File (List Post)
    unfolding charge
    request respond query market_id max_results start_time now file =
        elim (respond query (page_size max_results) start_time) [
          | err e ↦ (err e, file)
          | ok payload ↦ charge market_id now payload file
        ]

    -- `search`
    unfoldable pub live_search :
        (String → ℕ → Option DateTime → Result (Json F))
        → String
        → String
        → ℕ
        → Option DateTime
        → DateTime
        → Exec File (List Post)
    unfolding request
    live_search respond query market_id max_results start_time now file =
        elim (check config today (pos (page_size max_results)) file) [
          | err e ↦ (err e, file)
          | ok _ ↦ request respond query market_id max_results start_time now file
        ]
