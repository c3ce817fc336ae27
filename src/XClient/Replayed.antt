-- ===== src/XClient/Replayed.antt =====
-- clients/x.py: which posts `FixtureXBackend` replays from a file, and in what order.
use Prim.Native.Nat.{max, min}
use augury.Prelude.{
  ℕ, zero, suc, ◌≤◌, String, Bool, true, false, not, ◌≡◌, refl, ap, ◌∙◌, Option, some, List, [],
  ◌∷◌, arith, Bool-cases, inl, inr, length, take, filter, ltb, All, All-take, ok, IsPost,
  IsPost-after, IsPost->>=,
}
use augury.Prelude.Float.{Float}
use augury.Prelude.Json.{Json, text, Builtins, get, get_or}
use augury.Models.{DateTime, Post}
use augury.Db.{insert_by, sort_by}
use augury.Db.Effects.{All-sort_by}
use augury.XClient.{
  newest, shifted, is_early, fixture_lines, read_records, parse_records, verdict_of, fixture_post,
  fixture_posts, count_of, replay, fixture_search,
}

-- `p` is no later than `q`
abbrev IsUpTo : Post → Post → Type 0
IsUpTo q p = p.created_at ≤ q.created_at

-- newest first
abbrev pub IsNewestFirst : List Post → Type 0
IsNewestFirst [] = Unit
IsNewestFirst (p ∷ ps) = All (IsUpTo p) ps × IsNewestFirst ps

abbrev is_newer : Post → Post → Bool
is_newer p q = ltb q.created_at p.created_at

All-IsUpTo : (p q : Post) (ps : List Post) → IsUpTo q p → All (IsUpTo p) ps → All (IsUpTo q) ps
All-IsUpTo p q [] h k = tt
All-IsUpTo p q (r ∷ rs) h k = (omega (arith, h, k.0), All-IsUpTo p q rs h k.1)

All-insert_newer :
    (q p : Post) (ps : List Post)
    → IsUpTo q p
    → All (IsUpTo q) ps
    → All (IsUpTo q) (insert_by is_newer p ps)
unfolding insert_by
All-insert_newer q p [] h k = (h, tt)
All-insert_newer q p (r ∷ rs) h k = elim (Bool-cases (is_newer r p)) [
  | inl e ↦ rw e (k.0, All-insert_newer q p rs h k.1)
  | inr e ↦ rw e (h, k)
]

insert_by-IsNewestFirst :
    (p : Post) (ps : List Post) → IsNewestFirst ps → IsNewestFirst (insert_by is_newer p ps)
unfolding insert_by
insert_by-IsNewestFirst p [] h = (tt, tt)
insert_by-IsNewestFirst p (q ∷ qs) h = elim (Bool-cases (is_newer q p)) [
  | inl e ↦ rw e (All-insert_newer q p qs (ground arith) h.0, insert_by-IsNewestFirst p qs h.1)
  | inr e ↦ let first : IsUpTo p q = ground arith in rw e ((first, All-IsUpTo q p qs first h.0), h)
]

sort_by-IsNewestFirst : (ps : List Post) → IsNewestFirst (sort_by is_newer ps)
unfolding sort_by
sort_by-IsNewestFirst [] = tt
sort_by-IsNewestFirst (p ∷ ps) =
    insert_by-IsNewestFirst p (sort_by is_newer ps) (sort_by-IsNewestFirst ps)

take-IsNewestFirst : (n : ℕ) (ps : List Post) → IsNewestFirst ps → IsNewestFirst (take n ps)
take-IsNewestFirst zero ps h = tt
take-IsNewestFirst (suc n) [] h = tt
take-IsNewestFirst (suc n) (p ∷ ps) h = (All-take (IsUpTo p) n ps h.0, take-IsNewestFirst n ps h.1)

length-insert_by : (p : Post) (ps : List Post) → length (insert_by is_newer p ps) ≡ suc (length ps)
unfolding insert_by
length-insert_by p [] = refl
length-insert_by p (q ∷ qs) = elim (Bool-cases (is_newer q p)) [
  | inl e ↦ rw e (ap suc (length-insert_by p qs))
  | inr e ↦ rw e refl
]

length-sort_by : (ps : List Post) → length (sort_by is_newer ps) ≡ length ps
unfolding sort_by
length-sort_by [] = refl
length-sort_by (p ∷ ps) = length-insert_by p (sort_by is_newer ps) ∙ ap suc (length-sort_by ps)

length-take-min : (n : ℕ) (ps : List Post) → length (take n ps) ≡ min n (length ps)
length-take-min zero ps = omega arith
length-take-min (suc n) [] = omega arith
length-take-min (suc n) (p ∷ ps) = omega (arith, length-take-min n ps)

module _ {A : Type 0} where
  newest-le : (best : DateTime) (xs : List (DateTime × A)) → best ≤ newest best xs
  unfolding newest
  newest-le best [] = omega arith
  newest-le best ((t, a) ∷ xs) = omega (arith, newest-le (max best t) xs)

  All-newest : (best : DateTime) (xs : List (DateTime × A)) → All (λ x. x.0 ≤ newest best xs) xs
  unfolding newest
  All-newest best [] = tt
  All-newest best ((t, a) ∷ xs) =
      (omega (arith, newest-le (max best t) xs), All-newest (max best t) xs)

-- a post of the market, not before the start and not after the anchor
abbrev pub IsInReplay : String → DateTime → Option DateTime → Post → Type 0
IsInReplay market_id anchor start p =
    (p.market_id ≡ market_id) × (is_early start p.created_at ≡ false) × (p.created_at ≤ anchor)

-- the posts before the sort: as many as the records that are let through
abbrev IsPart : String → DateTime → Option DateTime → ℕ → List Post → Type 0
IsPart market_id anchor start n ps = (length ps ≡ n) × All (IsInReplay market_id anchor start) ps

-- what `search` returns of `n` records that are let through
abbrev pub IsReplay : String → DateTime → Option DateTime → ℕ → List Post → Type 0
IsReplay market_id anchor start n ps =
    (length ps ≡ n) × All (IsInReplay market_id anchor start) ps × IsNewestFirst ps

module _ {F : Type 0} ⦃d : Float F⦄ ⦃py : Builtins F⦄ where
  -- a record that the start lets through
  abbrev pub is_shown : (DateTime → DateTime) → Option DateTime → DateTime × Json F → Bool
  is_shown shift start x = not (is_early start (shift x.0))

  module _ (market_id : String) (anchor now : DateTime) (start : Option DateTime) where
    fixture_post-at :
        (at : DateTime) (raw : Json F)
        → IsPost
            (λ p. (p.market_id ≡ market_id) × (p.created_at ≡ at))
            (fixture_post market_id now at raw)
    unfolding fixture_post
    fixture_post-at at raw =
        let IsStamped : Post → Type 0 = λ p. (p.market_id ≡ market_id) × (p.created_at ≡ at) in
        IsPost->>= IsStamped (get raw "post_id") _ λ post_id.
          IsPost->>= IsStamped (get raw "id") _ λ id.
            IsPost->>= IsStamped (get_or raw "text" (text "")) _ λ content.
              IsPost->>= IsStamped (get raw "author_id") _ λ author_id.
                IsPost->>= IsStamped (get raw "author_created_at") _ λ joined.
                  IsPost->>= IsStamped (count_of raw "followers") _ λ followers.
                    IsPost->>= IsStamped (count_of raw "engagements") _ λ engagements.
                      IsPost->>= IsStamped (get raw "lang") _ λ lang.
                        IsPost->>= IsStamped (get_or raw "filter_verdict" (text "accepted")) _
                          λ named. IsPost->>= IsStamped (verdict_of named) _ λ verdict.
                            IsPost->>= IsStamped (get raw "filter_reason") _ λ reason. (refl, refl)

    anchored :
        (latest : DateTime) (xs : List (DateTime × Json F))
        → All (λ x. x.0 ≤ latest) xs
        → All (λ x. shifted true anchor latest x.0 ≤ anchor) xs
    anchored latest [] h = tt
    anchored latest (x ∷ xs) h = (omega (arith, h.0), anchored latest xs h.1)

    module _ (shift : DateTime → DateTime) where
      fixture_posts-IsPart :
          (xs : List (DateTime × Json F))
          → All (λ x. shift x.0 ≤ anchor) xs
          → IsPost
              (IsPart market_id anchor start (length (filter (is_shown shift start) xs)))
              (fixture_posts market_id now shift start xs)
      unfolding fixture_posts
      fixture_posts-IsPart [] h = (refl, tt)
      fixture_posts-IsPart ((created, raw) ∷ xs) h =
          let n = length (filter (is_shown shift start) xs) in
          elim (Bool-cases (is_early start (shift created))) [
            | inl e ↦ rw e (fixture_posts-IsPart xs h.1)
            | inr e ↦ rw e (
                IsPost-after (IsPart market_id anchor start (suc n))
                  (λ p. (p.market_id ≡ market_id) × (p.created_at ≡ shift created))
                  (fixture_post market_id now (shift created) raw) _
                  (fixture_post-at (shift created) raw)
                  λ p made.
                    IsPost-after (IsPart market_id anchor start (suc n))
                      (IsPart market_id anchor start n) (fixture_posts market_id now shift start xs)
                      _ (fixture_posts-IsPart xs h.1)
                      λ ps part. (ap suc part.0, ((made.0, rw made.1 e, rw made.1 h.0), part.1)))
          ]

    replay-IsReplay :
        (limit : ℕ) (created : DateTime) (raw : Json F) (xs : List (DateTime × Json F))
        → let shift = shifted true anchor (newest created xs) in
          IsPost
            (IsReplay market_id anchor start
              (min limit (length (filter (is_shown shift start) ((created, raw) ∷ xs)))))
            (replay true anchor now ((created, raw) ∷ xs) market_id limit start)
    unfolding replay
    replay-IsReplay limit created raw xs =
        let latest = newest created xs in
        let shift = shifted true anchor latest in
        let n = length (filter (is_shown shift start) ((created, raw) ∷ xs)) in
        IsPost-after (IsReplay market_id anchor start (min limit n))
          (IsPart market_id anchor start n)
          (fixture_posts market_id now shift start ((created, raw) ∷ xs)) _
          (fixture_posts-IsPart shift ((created, raw) ∷ xs)
            (anchored latest ((created, raw) ∷ xs) (newest-le created xs, All-newest created xs)))
          λ ps part. (
            length-take-min limit (sort_by is_newer ps)
                ∙ ap (min limit) (length-sort_by ps ∙ part.0),
            All-take (IsInReplay market_id anchor start) limit (sort_by is_newer ps)
                (All-sort_by (IsInReplay market_id anchor start) is_newer ps part.1),
            take-IsNewestFirst limit (sort_by is_newer ps) (sort_by-IsNewestFirst ps),
          )

    -- Of a file with a dated record, `search` of the fixture backend, with its timestamps anchored,
    -- returns as many posts as there are records that are not before the start, `limit` at most,
    -- newest first, each of the market, not before the start and not after the anchor, unless a
    -- record cannot be read as a post.
    pub fixture_search-IsReplay :
        (files : String → Option (List String)) (limit : ℕ) (lines : List String)
        (records : List (Json F)) (created : DateTime) (raw : Json F)
        (xs : List (DateTime × Json F))
        → fixture_lines files market_id ≡ some lines
        → read_records lines ≡ ok records
        → parse_records records ≡ ok ((created, raw) ∷ xs)
        → let shift = shifted true anchor (newest created xs) in
          IsPost
            (IsReplay market_id anchor start
              (min limit (length (filter (is_shown shift start) ((created, raw) ∷ xs)))))
            (fixture_search F true anchor now files market_id limit start)
    unfolding fixture_search
    fixture_search-IsReplay files limit lines records created raw xs found read parsed =
        rw (found, read, parsed, fixture_search) (replay-IsReplay limit created raw xs)
