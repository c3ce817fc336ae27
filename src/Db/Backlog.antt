-- ===== src/Db/Backlog.antt =====
-- `unscored_posts`, the work list of the scorer, against `insert_stances`.
use augury.Prelude.{
  ℕ, String, ◌≡◌, refl, ap, ◌∙◌, Bool, true, false, not, ◌&&◌, ◌||◌, ◌≢◌, Option, some, List, [],
  ◌∷◌, map, arith, Bool-cases, inl, inr, any, is_some, filter, take, ltb, All, eq_iff,
}
use mathlib.Core.Path.{fun_ext}
use augury.Prelude.Keys.{◌==◌, string_key, pair_key, nat_key}
use augury.Models.{DateTime, Post, Stance, is_accepted}
use augury.Db.Table.{find_row, sort_by}
use augury.Db.Rows.{Database, StanceRow, stance_key}
use augury.Db.Posts.{stance_row, insert_stances, stance_of, is_unscored, unscored_posts}
use augury.Db.Upserts.{merged, find_row-upsert_all, overlay}

module _ {F : Type 0} where
  -- a batch has a stance for the post under the version
  abbrev pub covers : String → List (Stance F) → Post → Bool
  covers version stances p =
      any (λ s. (s.post_id, (s.market_id, (s.model_version, s.created_at))) == stance_of version p)
        stances

  abbrev replace : StanceRow F → StanceRow F → StanceRow F
  replace old new = new

  overlay-covers :
      (now : DateTime) (version : String) (p : Post) (stances : List (Stance F))
      (o : Option (StanceRow F))
      → is_some (
          overlay stance_key replace
            (λ old new same. refl)
            (stance_of version p)
            (map (stance_row now) stances)
            o)
        ≡ (covers version stances p || is_some o)
  unfolding overlay
  overlay-covers now version p [] o = refl
  overlay-covers now version p (s ∷ ss) o =
      elim (Bool-cases (stance_key (stance_row now s) == stance_of version p)) [
        | inl e ↦
            rw (e, overlay)
              (overlay-covers now version p ss
                  (some (merged stance_key replace (stance_row now s) o))
                ∙ or_true (covers version ss p))
        | inr e ↦ rw (e, overlay) (overlay-covers now version p ss o)
      ]
    where
      or_true : (b : Bool) → (b || true) ≡ true
      or_true true = refl
      or_true false = refl

  not_scored :
      (now : DateTime) (stances : List (Stance F)) (db : Database F) (version : String) (p : Post)
      → is_some
          (find_row stance_key (stance_of version p) (insert_stances now stances db).1.stances)
        ≡ (covers version stances p
            || is_some (find_row stance_key (stance_of version p) db.stances))
  unfolding insert_stances
  not_scored now stances db version p =
      rw (find_row-upsert_all stance_key replace (λ old new same. refl))
        (overlay-covers now version p stances _)

  -- After a batch of stances is stored, a post waits for the version exactly if it waited before and
  -- the batch has no stance for it under that version.
  pub is_unscored-insert_stances :
      (now : DateTime) (stances : List (Stance F)) (db : Database F) (mid version : String)
      (p : Post)
      → is_unscored mid version (insert_stances now stances db).1 p
        ≡ (is_unscored mid version db p && not (covers version stances p))
  is_unscored-insert_stances now stances db mid version p =
      rw (not_scored now stances db version p) (
        lem (p.market_id == mid) (is_accepted p) (covers version stances p)
          (is_some (find_row stance_key (stance_of version p) db.stances)))
    where
      lem : (a b c s : Bool) → (a && b && not (c || s)) ≡ ((a && b && not s) && not c)
      lem true true true true = refl
      lem true true true false = refl
      lem true true false true = refl
      lem true true false false = refl
      lem true false c s = refl
      lem false b c s = refl

  posts-insert_stances :
      (now : DateTime) (stances : List (Stance F)) (db : Database F)
      → (insert_stances now stances db).1.posts ≡ db.posts
  unfolding insert_stances
  posts-insert_stances now stances db = refl

  -- Storing stances takes from the work list of a version exactly the posts that they cover under
  -- that version, before the limit is applied.
  pub unscored_posts-insert_stances :
      (now : DateTime) (stances : List (Stance F)) (db : Database F) (mid version : String)
      (limit : ℕ)
      → unscored_posts mid version limit (insert_stances now stances db).1
        ≡ take limit (
            sort_by
              (λ p q. ltb q.created_at p.created_at)
              (filter
                (λ p. is_unscored mid version db p && not (covers version stances p))
                db.posts))
  unfolding unscored_posts
  unscored_posts-insert_stances now stances db mid version limit =
      rw (posts-insert_stances now stances db) (
        ap
          (λ (test : Post → Bool).
            take limit (sort_by (λ p q. ltb q.created_at p.created_at) (filter test db.posts)))
          (fun_ext (is_unscored-insert_stances now stances db mid version)))

  covers_other :
      (version : String) (p : Post) (stances : List (Stance F))
      → All (λ s. s.model_version ≢ version) stances
      → covers version stances p ≡ false
  covers_other version p [] h = refl
  covers_other version p (s ∷ ss) h =
      ground (arith, covers_other version p ss h.1, eq_iff s.model_version version)

  -- Stances of other model versions leave the work list of a version as it was: a new model finds
  -- the whole backlog.
  pub unscored_posts-other_version :
      (now : DateTime) (stances : List (Stance F)) (db : Database F) (mid version : String)
      (limit : ℕ)
      → All (λ s. s.model_version ≢ version) stances
      → unscored_posts mid version limit (insert_stances now stances db).1
        ≡ unscored_posts mid version limit db
  unfolding unscored_posts
  unscored_posts-other_version now stances db mid version limit h =
      rw (posts-insert_stances now stances db) (
        ap
          (λ (test : Post → Bool).
            take limit (sort_by (λ p q. ltb q.created_at p.created_at) (filter test db.posts)))
          (fun_ext λ p. ground (
            arith,
            is_unscored-insert_stances now stances db mid version p,
            covers_other version p stances h,
          )))
