-- ===== src/Db/Posts.antt =====
-- `posts` and `stances`.
use augury.Prelude.{
  ℕ, String, Bool, true, not, ◌&&◌, Option, none, some, List, [], ◌∷◌, map, leb, ltb, filter,
  length, take, is_some,
}
use augury.Prelude.Int.{ℤ}
use augury.Prelude.Keys.{◌==◌, string_key, pair_key, nat_key}
use augury.Models.{DateTime, Post, Stance, is_accepted}
use augury.Db.Table.{find_row, upsert_all, count_new, sort_by}
use augury.Db.Rows.{Database, StanceRow, post_key, stance_key}

-- `ingested_at or datetime.now(UTC)`
abbrev pub or_now : DateTime → Option DateTime → Option DateTime
or_now now none = some now
or_now now (some t) = some t

abbrev pub post_row : DateTime → Post → Post
post_row now p = record p { ingested_at = or_now now p.ingested_at }

-- the row of one post under one model version
abbrev pub stance_of : String → Post → String × (String × (String × DateTime))
stance_of version p = (p.post_id, (p.market_id, (version, p.created_at)))

abbrev since_ok : Option DateTime → DateTime → Bool
since_ok none t = true
since_ok (some s) t = leb s t

abbrev until_ok : Option DateTime → DateTime → Bool
until_ok none t = true
until_ok (some u) t = leb t u

-- one row of the JOIN of `scored_posts`: (created_at, stance, followers, engagements)
abbrev pub Scored : Type 0 → Type 0
Scored F = DateTime × F × ℤ × ℤ

module _ {F : Type 0} where
  -- The returned count is the rows that were not there before.
  unfoldable pub insert_posts : DateTime → List Post → Database F → ℕ × Database F
  insert_posts now posts db =
      let rows = map (post_row now) posts in
      (
        count_new post_key rows db.posts,
        record db { posts = upsert_all post_key (λ old new. old) rows db.posts },
      )

  abbrev pub stance_row : DateTime → Stance F → StanceRow F
  stance_row now s = record { scored = s; scored_at = now }

  unfoldable pub insert_stances : DateTime → List (Stance F) → Database F → ℕ × Database F
  insert_stances now stances db =
      let rows = map (stance_row now) stances in
      (length rows, record db { stances = upsert_all stance_key (λ old new. new) rows db.stances })

  -- `s.post_id IS NULL` after the LEFT JOIN
  abbrev pub is_unscored : String → String → Database F → Post → Bool
  is_unscored mid version db p =
      p.market_id == mid
      && is_accepted p
      && not (is_some (find_row stance_key (stance_of version p) db.stances))

  -- ORDER BY created_at DESC LIMIT limit
  unfoldable pub unscored_posts : String → String → ℕ → Database F → List Post
  unscored_posts mid version limit db = take limit (
      sort_by (λ p q. ltb q.created_at p.created_at) (filter (is_unscored mid version db) db.posts))

  abbrev with_stance : Post → Option (StanceRow F) → List (Scored F) → List (Scored F)
  with_stance p none rest = rest
  with_stance p (some r) rest = (p.created_at, r.scored.stance, p.followers, p.engagements) ∷ rest

  join_stances : String → Database F → List Post → List (Scored F)
  join_stances version db [] = []
  join_stances version db (p ∷ ps) =
      with_stance p (find_row stance_key (stance_of version p) db.stances)
        (join_stances version db ps)

  unfoldable pub scored_posts :
      String → String → Option DateTime → Option DateTime → Database F → List (Scored F)
  unfolding join_stances
  scored_posts mid version since until db =
      sort_by (λ a b. ltb a.0 b.0)
        (join_stances version db (
          filter
            (λ p.
              p.market_id == mid
              && is_accepted p
              && since_ok since p.created_at
              && until_ok until p.created_at)
            db.posts))

  unfoldable pub post_times : String → DateTime → Database F → List DateTime
  post_times mid since db = sort_by ltb (
      map (λ p. p.created_at)
        (filter (λ p. p.market_id == mid && leb since p.created_at && is_accepted p) db.posts))
