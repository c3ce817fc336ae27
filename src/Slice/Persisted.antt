-- ===== src/Slice/Persisted.antt =====
-- What `_persist` leaves for the scoring step of the pipeline.
use augury.Prelude.{
  ℕ, String, Bool, true, false, not, ◌&&◌, List, [], ◌∷◌, ◌≡◌, refl, arith, All, All-take, filter,
  ltb,
}
use augury.Models.{DateTime, Post, Stance, SignalPoint}
use augury.Db.{
  Database, replace_market_queries, upsert_market, insert_price_ticks, insert_posts, unscored_posts,
  is_unscored, insert_signal, insert_stances, insert_sim_ticks,
}
use augury.Db.Backlog.{covers, unscored_posts-insert_stances}
use augury.Pipeline.Covered.{has_key, uncovered-has_key, All-map}
use augury.Db.Effects.{All-sort_by}
use augury.Slice.Analysis.{SliceResult}
use augury.Slice.Run.{persist_rows, insert_signals}

filter-uncovered :
    (q c : Post → Bool) (posts : List Post)
    → All (λ p. c p ≡ false) (filter (λ p. q p && not (c p)) posts)
filter-uncovered q c [] = tt
filter-uncovered q c (p ∷ ps) = ground (arith, filter-uncovered q c ps)

module _ {F : Type 0} where
  pub insert_signals-tables :
      (clock : ℕ → DateTime) (i : ℕ) (ps : List (SignalPoint F)) (db : Database F)
      → ((insert_signals clock i ps db).posts ≡ db.posts)
        × ((insert_signals clock i ps db).stances ≡ db.stances)
  unfolding insert_signals insert_signal
  insert_signals-tables clock i [] db = (refl, refl)
  insert_signals-tables clock i (p ∷ ps) db =
      insert_signals-tables clock _ ps (insert_signal (clock i) p db)

  -- the database when `_persist` stores the stances
  abbrev pub before_stances : (ℕ → DateTime) → SliceResult F → Database F → Database F
  before_stances clock r db =
      let (terms, db₁) =
        replace_market_queries r.market.query (upsert_market (clock 0) r.market.market db) in
      let (ticks, db₂) = insert_price_ticks (clock 1) r.prices db₁ in
      let (posts, db₃) = insert_posts (clock 2) r.posts db₂ in db₃

  -- the tables that the scoring step reads are those that the stances were stored in
  pub persist_rows-tables :
      (clock : ℕ → DateTime) (r : SliceResult F) (db : Database F)
      → ((persist_rows clock r db).posts
          ≡ (insert_stances (clock 3) r.stances (before_stances clock r db)).1.posts)
        × ((persist_rows clock r db).stances
            ≡ (insert_stances (clock 3) r.stances (before_stances clock r db)).1.stances)
  unfolding persist_rows insert_stances insert_sim_ticks
  persist_rows-tables clock r db =
      insert_signals-tables clock 4 r.signals
        (insert_stances (clock 3) r.stances (before_stances clock r db)).1

  unscored_posts-tables :
      (mid version : String) (limit : ℕ) (db db' : Database F)
      → db.posts ≡ db'.posts
      → db.stances ≡ db'.stances
      → unscored_posts mid version limit db ≡ unscored_posts mid version limit db'
  unfolding unscored_posts
  unscored_posts-tables mid version limit db db' posts stances = rw (posts, stances) refl

  -- where the two tables are those after stances were stored, the work list has no post that they cover
  pub unscored_posts-stored :
      (now : DateTime) (ss : List (Stance F)) (before db : Database F)
      → db.posts ≡ (insert_stances now ss before).1.posts
      → db.stances ≡ (insert_stances now ss before).1.stances
      → (mid version : String) (limit : ℕ)
      → All (λ p. covers version ss p ≡ false) (unscored_posts mid version limit db)
  unscored_posts-stored now ss before db posts stances mid version limit =
      rw
        (
          unscored_posts-tables mid version limit db (insert_stances now ss before).1 posts stances,
          unscored_posts-insert_stances now ss before mid version limit,
        )
        (All-take (λ p. covers version ss p ≡ false) limit _
          (All-sort_by (λ p. covers version ss p ≡ false) (λ p q. ltb q.created_at p.created_at) _
            (filter-uncovered (is_unscored mid version before) (covers version ss) before.posts)))

  -- nor any post with the key of one of the posts that they cover
  pub unscored_posts-unlisted :
      (now : DateTime) (ss : List (Stance F)) (before db : Database F)
      → db.posts ≡ (insert_stances now ss before).1.posts
      → db.stances ≡ (insert_stances now ss before).1.stances
      → (mid version : String) (limit : ℕ) (posts : List Post)
      → All (λ p. covers version ss p ≡ true) posts
      → All (λ q. has_key posts q ≡ false) (unscored_posts mid version limit db)
  unscored_posts-unlisted now ss before db same_posts same_stances mid version limit posts covered =
      All-map (λ q. covers version ss q ≡ false) (λ q. has_key posts q ≡ false) _
        (λ q left. uncovered-has_key version ss posts q covered left)
        (unscored_posts-stored now ss before db same_posts same_stances mid version limit)

  -- After `_persist`, no page of the unscored posts of any market and model version lists a post for which
  -- the run has a stance of that version.
  pub persist_rows-unscored :
      (clock : ℕ → DateTime) (r : SliceResult F) (db : Database F) (mid version : String)
      (limit : ℕ)
      → All
          (λ p. covers version r.stances p ≡ false)
          (unscored_posts mid version limit (persist_rows clock r db))
  persist_rows-unscored clock r db mid version limit =
      let (posts, stances) = persist_rows-tables clock r db in
      unscored_posts-stored (clock 3) r.stances (before_stances clock r db)
        (persist_rows clock r db) posts stances mid version limit
