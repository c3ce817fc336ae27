-- ===== src/Db/Rerun.antt =====
-- The idempotent writes of db.py, run twice over the same records.
use augury.Prelude.{
  ℕ, suc, ◌+◌, String, ◌≡◌, refl, ap, none, some, List, [], ◌∷◌, map, arith, Bool-cases,
  Option-cases, inl, inr, length, All,
}
use augury.Prelude.Keys.{Key, ◌==◌, ==_refl, string_key, pair_key, nat_key}
use augury.Models.{DateTime, Post, PriceTick, Stance}
use augury.Db.Table.{find_row, upsert, upsert_all, count_new}
use augury.Db.Rows.{Database, post_key, price_key, stance_key}
use augury.Db.Posts.{post_row, insert_posts, insert_stances, stance_row}
use augury.Db.Series.{price_row, merge_price, insert_price_ticks}
use augury.Db.Upserts.{IsOverwrite, upsert_all-rerun, upsert_all-alike, upsert_all-All-IsPresent}

module _ {K R : Type 0} ⦃k : Key K⦄ (key : R → K) where
  abbrev keep : R → R → R
  keep old new = old

  abbrev Present : List R → R → Type 0
  Present table r = (old : R) × (find_row key (key r) table ≡ some old)

  upsert-Present : (r : R) (table : List R) → Present table r → upsert key keep r table ≡ table
  unfolding upsert
  upsert-Present r [] (old, h) = cc
  upsert-Present r (q ∷ qs) (old, h) = elim (Bool-cases (key q == key r)) [
    | inl e ↦ rw e
    | inr e ↦ rw e (ap (◌∷◌ q) (upsert-Present r qs (old, ground arith)))
  ]

  find_row-keep :
      (r : R) (j : K) (table : List R) {old : R}
      → find_row key j table ≡ some old
      → find_row key j (upsert key keep r table) ≡ some old
  unfolding upsert
  find_row-keep r j [] h = cc
  find_row-keep r j (q ∷ qs) {old} h = elim (Bool-cases (key q == j)) [
    | inl e ↦ elim (Bool-cases (key q == key r)) [
      | inl f ↦ rw f h
      | inr f ↦ rw (f, e) (ground arith)
    ]
    | inr e ↦
        let below : find_row key j qs ≡ some old = ground arith in
        elim (Bool-cases (key q == key r)) [
          | inl f ↦ rw f h
          | inr f ↦ rw (f, e) (find_row-keep r j qs below)
        ]
  ]

  find_row-new : (r : R) (table : List R) → Present (upsert key keep r table) r
  unfolding upsert
  find_row-new r [] = (r, rw (==_refl (key r)))
  find_row-new r (q ∷ qs) = elim (Bool-cases (key q == key r)) [
    | inl e ↦ (q, rw e (rw e))
    | inr e ↦ let (old, h) = find_row-new r qs in (old, rw e (rw e h))
  ]

  upsert_all_keeps :
      (rows : List R) (j : K) (table : List R) {old : R}
      → find_row key j table ≡ some old
      → find_row key j (upsert_all key keep rows table) ≡ some old
  unfolding upsert_all
  upsert_all_keeps [] j table h = h
  upsert_all_keeps (r ∷ rs) j table h =
      upsert_all_keeps rs j (upsert key keep r table) (find_row-keep r j table h)

  upsert_all-Present : (rows table : List R) → All (Present (upsert_all key keep rows table)) rows
  unfolding upsert_all
  upsert_all-Present [] table = tt
  upsert_all-Present (r ∷ rs) table =
      let (old, h) = find_row-new r table in
      (
        (old, upsert_all_keeps rs (key r) (upsert key keep r table) h),
        upsert_all-Present rs (upsert key keep r table),
      )

  -- rows that are all there already change nothing and count for nothing
  keep-All :
      (rows table : List R)
      → All (Present table) rows
      → (upsert_all key keep rows table ≡ table) × (count_new key rows table ≡ 0)
  unfolding upsert_all count_new
  keep-All [] table h = (refl, refl)
  keep-All (r ∷ rs) table (there, rest) =
      let same = upsert-Present r table there in
      let (a, b) = keep-All rs table rest in (rw same a, rw (there.1, same) b)

  length-upsert_new :
      (r : R) (table : List R)
      → find_row key (key r) table ≡ none
      → length (upsert key keep r table) ≡ suc (length table)
  unfolding upsert
  length-upsert_new r [] h = refl
  length-upsert_new r (q ∷ qs) h = ground (arith, length-upsert_new r qs)

  pub count_new_lem :
      (rows table : List R)
      → length (upsert_all key keep rows table) ≡ count_new key rows table + length table
  unfolding upsert_all count_new
  count_new_lem [] table = omega arith
  count_new_lem (r ∷ rs) table = elim (Option-cases (find_row key (key r) table)) [
    | inl e ↦
        rw e
          (omega (arith, count_new_lem rs (upsert key keep r table), length-upsert_new r table e))
    | inr (old, e) ↦ rw e (
        omega (
          arith,
          count_new_lem rs (upsert key keep r table),
          ap length (upsert-Present r table (old, e)),
        ))
  ]

-- the keys of a batch of posts do not depend on the time of the write
All-Present_again :
    (now now' : DateTime) (posts table : List Post)
    → All (Present post_key table) (map (post_row now) posts)
    → All (Present post_key table) (map (post_row now') posts)
All-Present_again now now' [] table h = tt
All-Present_again now now' (p ∷ ps) table h = (h.0, All-Present_again now now' ps table h.1)

module _ {F : Type 0} where
  -- Storing the same posts a second time, at whatever time, stores nothing: the count is 0 and the
  -- database is the same.
  pub insert_posts-rerun :
      (now now' : DateTime) (posts : List Post) (db : Database F)
      → insert_posts now' posts (insert_posts now posts db).1 ≡ (0, (insert_posts now posts db).1)
  unfolding insert_posts
  insert_posts-rerun now now' posts db =
      let rows = map (post_row now) posts in
      let once = upsert_all post_key (λ old new. old) rows db.posts in
      let there = upsert_all-Present post_key rows db.posts in
      let (same, none_new) =
        keep-All post_key (map (post_row now') posts) once
          (All-Present_again now now' posts once there) in
      rw (same, none_new)

  -- The count that `insert_posts` returns is the number of rows that the table has gained.
  pub insert_posts-count :
      (now : DateTime) (posts : List Post) (db : Database F)
      → let (n, db') = insert_posts now posts db in length db'.posts ≡ n + length db.posts
  unfolding insert_posts
  insert_posts-count now posts db = count_new_lem post_key (map (post_row now) posts) db.posts

  abbrev price_over : IsOverwrite price_key (merge_price {F = F})
  price_over = record {
    keeps_key = λ old new same. refl;
    absorb = λ old a b. refl;
    idem = λ r. refl;
  }

  stance_over : IsOverwrite (stance_key {F = F}) (λ old new. new)
  stance_over = record {
    keeps_key = λ old new same. refl;
    absorb = λ old a b. refl;
    idem = λ r. refl;
  }

  -- Storing the same ticks a second time, at whatever time, leaves the row of every key as the first
  -- write left it, its fetch time included.
  pub insert_price_ticks-rerun :
      (now now' : DateTime) (ticks : List (PriceTick F)) (db : Database F)
      (j : String × (DateTime × ℕ))
      → let once = (insert_price_ticks now ticks db).1 in
        find_row price_key j (insert_price_ticks now' ticks once).1.market_prices
        ≡ find_row price_key j once.market_prices
  unfolding insert_price_ticks
  insert_price_ticks-rerun now now' ticks db j =
      let rows = map (price_row now) ticks in
      let once = upsert_all price_key merge_price rows db.market_prices in
      rw
        (← upsert_all-alike price_key merge_price price_over.keeps_key (price_row now)
          (price_row now') (λ t. refl) (λ t o. refl) ticks once
          (upsert_all-All-IsPresent price_key merge_price price_over.keeps_key rows
            db.market_prices))
        (upsert_all-rerun price_key merge_price price_over rows db.market_prices j)

  -- Writing the same stances a second time leaves the stance of every key as the first write left it.
  pub insert_stances-rerun :
      (now : DateTime) (stances : List (Stance F)) (db : Database F)
      (j : String × (String × (String × DateTime)))
      → let once = (insert_stances now stances db).1 in
        find_row stance_key j (insert_stances now stances once).1.stances
        ≡ find_row stance_key j once.stances
  unfolding insert_stances
  insert_stances-rerun now stances db j =
      upsert_all-rerun stance_key (λ old new. new) stance_over (map (stance_row now) stances)
        db.stances j
