-- ===== src/Orchestrator/Backlog.antt =====
-- What a run of the asset `stances` leaves to the next one.
use augury.Prelude.{
  ℕ, zero, suc, ◌<◌, String, Bool, true, not, ◌&&◌, List, [], ◌∷◌, ◌≡◌, refl, ap, ◌∙◌, Result-cases,
  ok, arith, inl, inr, Bool-cases, All, filter, length, take, ltb, IsPost-ok,
}
use mathlib.Core.Path.{subst}
use augury.Prelude.Float.{Float}
use augury.Models.{DateTime, Post, Stance}
use augury.Config.{TrackedMarket}
use augury.Db.{
  Database, unscored_posts, is_unscored, insert_stances, sort_by, insert_by, upsert_all,
}
use augury.Db.Backlog.{covers, unscored_posts-insert_stances}
use augury.Pipeline.Covered.{score_posts-covers}
use augury.Pipeline.{ScoringModel, version_of, score_posts}
use augury.Orchestrator.Assets.{score_backlog}

module _ {A : Type 0} where
  All-of-insert_by :
      (P : A → Type 0) (lt : A → A → Bool) (x : A) (ys : List A)
      → All P (insert_by lt x ys)
      → P x × All P ys
  unfolding insert_by
  All-of-insert_by P lt x [] h = h
  All-of-insert_by P lt x (y ∷ ys) h = elim (Bool-cases (lt y x)) [
    | inl e ↦
        let k = rw (e, insert_by) at h in
        let (a, b) = All-of-insert_by P lt x ys k.1 in (a, (k.0, b))
    | inr e ↦ rw (e, insert_by) at h
  ]

  All-of-sort_by :
      (P : A → Type 0) (lt : A → A → Bool) (xs : List A) → All P (sort_by lt xs) → All P xs
  unfolding sort_by
  All-of-sort_by P lt [] h = tt
  All-of-sort_by P lt (x ∷ xs) h =
      let (a, b) = All-of-insert_by P lt x (sort_by lt xs) h in (a, All-of-sort_by P lt xs b)

  -- a page that is not full is all there is
  take-short : (n : ℕ) (xs : List A) → length (take n xs) < n → take n xs ≡ xs
  take-short zero xs h = absurd (omega (arith, h))
  take-short (suc n) [] h = refl
  take-short (suc n) (x ∷ xs) h = ap (λ l. x ∷ l) (take-short n xs (omega (arith, h)))

  take-nil : (n : ℕ) → ◌≡◌ {A = List A} (take n []) []
  take-nil zero = refl
  take-nil (suc n) = refl

  filter-covered :
      (q c : A → Bool) (xs : List A)
      → All (λ x. c x ≡ true) (filter q xs)
      → filter (λ x. q x && not (c x)) xs ≡ []
  filter-covered q c [] h = refl
  filter-covered q c (x ∷ xs) h = elim (Bool-cases (q x)) [
    | inl e ↦ let k = rw e at h in rw (e, k.0) (filter-covered q c xs k.1)
    | inr e ↦ let k = rw e at h in rw e (filter-covered q c xs k)
  ]

module _ {F : Type 0} ⦃d : Float F⦄ where
  -- Once a page that was not full has stances for all its posts, no page of the work list holds any.
  drained :
      (mid version : String) (now : DateTime) (db : Database F) (n limit : ℕ) (ss : List (Stance F))
      → length (unscored_posts mid version n db) < n
      → All (λ p. covers version ss p ≡ true) (unscored_posts mid version n db)
      → unscored_posts mid version limit (insert_stances now ss db).1 ≡ []
  unfolding unscored_posts sort_by
  drained mid version now db n limit ss short covered =
      let later : Post → Post → Bool = λ p q. ltb q.created_at p.created_at in
      let waiting = filter (is_unscored mid version db) db.posts in
      let P : Post → Type 0 = λ p. covers version ss p ≡ true in
      let every =
        All-of-sort_by P later waiting
          (subst (All P) (take-short n (sort_by later waiting) short) covered) in
      unscored_posts-insert_stances now ss db mid version limit
      ∙ ap (λ xs. take limit (sort_by later xs))
          (filter-covered (is_unscored mid version db) (covers version ss) db.posts every)
      ∙ take-nil limit

  -- with an empty page there is nothing to store
  score_backlog-idle :
      (t : TrackedMarket F) (model : ScoringModel F) (now : DateTime) (db : Database F)
      → unscored_posts t.market.market_id (version_of model) 1000 db ≡ []
      → score_backlog t model now db ≡ (ok [], db)
  unfolding score_backlog score_posts insert_stances upsert_all
  score_backlog-idle t model now db none_left = rw (none_left, score_backlog) refl

  -- A run of the asset `stances` that returns, with fewer than 1000 posts pending, leaves none pending: the
  -- next run finds nothing to score and changes nothing.
  pub score_backlog-drained :
      (t : TrackedMarket F) (model : ScoringModel F) (now now' : DateTime) (db db' : Database F)
      → (ss : List (Stance F))
      → length (unscored_posts t.market.market_id (version_of model) 1000 db) < 1000
      → score_backlog t model now db ≡ (ok ss, db')
      → (unscored_posts t.market.market_id (version_of model) 1000 db' ≡ [])
        × (score_backlog t model now' db' ≡ (ok [], db'))
  unfolding score_backlog
  score_backlog-drained t model now now' db db' ss short ran =
      let pending = unscored_posts t.market.market_id (version_of model) 1000 db in
      elim (Result-cases (score_posts pending model t.market.target)) [
        | inl (e, f) ↦ let no = rw (f, score_backlog) at ran in cc
        | inr (made, f) ↦
            let same = rw (f, score_backlog) at ran in
            let left =
              subst (λ x. unscored_posts t.market.market_id (version_of model) 1000 x ≡ [])
                (ap (λ r. r.1) same)
                (drained t.market.market_id (version_of model) now db 1000 1000 made short (
                  IsPost-ok (λ xs. All (λ p. covers (version_of model) xs p ≡ true) pending) _ made
                    (score_posts-covers pending model t.market.target) f)) in
            (left, score_backlog-idle t model now' db' left)
      ]
