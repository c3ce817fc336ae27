-- ===== src/Pipeline/Lookahead.antt =====
-- pipeline/steps.py: what a step of the simulation sees of the order books.
use augury.Prelude.{
  ℕ, zero, suc, ◌≤◌, ◌≡◌, refl, sym, ap, ◌∙◌, String, true, false, some, List, [], ◌∷◌, map, arith,
  All, filter, length, take, get_last?, Option-cases, inl, inr, ok, ◌>>=◌, ltb, leb, is_some,
}
use mathlib.Core.Path.{fun_ext}
use augury.Prelude.Float.{Float}
use augury.Models.{DateTime, PriceTick, SignalPoint, is_book}
use augury.Engine.{LmsrMarket, make_market, move_to_price}
use augury.Signal.Bisect.{bisect_right, IsAscending}
use augury.Db.{sort_by}
use augury.Db.Effects.{All-sort_by}
use augury.Pipeline.{
  before_index, book_at, book_snapshots, opening_book, calibrate, sim_step, sim_loop, simulate_from,
  simulate_lmsr,
}
use augury.Pipeline.Sorting.{
  by_time, up_to, by_time-IsAscending, up_to-by_time, up_to-IsAscending, up_to-up_to,
  take-bisect_right, bisect_right-le, filter_comm, get_elem?-take,
}

All-map :
    {A : Type 0} {P Q : A → Type 0} → ((x : A) → P x → Q x) → (xs : List A) → All P xs → All Q xs
All-map f [] h = tt
All-map f (x ∷ xs) h = (f x h.0, All-map f xs h.1)

module _ {F : Type 0} where
  abbrev pub time_of_tick : PriceTick F → ℕ
  time_of_tick t = t.ts

  abbrev pub times_of : List (PriceTick F) → List DateTime
  times_of = map (λ t. t.ts)

  before_index-take :
      (n : ℕ) (xs : List (PriceTick F)) → n ≤ length xs → before_index xs n ≡ get_last? (take n xs)
  before_index-take zero xs h = refl
  before_index-take (suc n) xs h = get_elem?-take n xs (omega (arith, h))

  -- For books in ascending order of time, the binary search of `_book_at` finds the last of the books that
  -- are not later than `at`, and nothing when every book is later.
  pub book_at-lem :
      (books : List (PriceTick F)) (at : DateTime)
      → IsAscending time_of_tick books
      → book_at books (times_of books) at ≡ get_last? (filter (λ t. leb t.ts at) books)
  unfolding book_at
  book_at-lem books at h =
      before_index-take (bisect_right (times_of books) at) books
        (bisect_right-le time_of_tick at books)
      ∙ ap get_last? (take-bisect_right time_of_tick at books h)

  book_at-up_to :
      (books : List (PriceTick F)) (at last : DateTime)
      → IsAscending time_of_tick books
      → at ≤ last
      → book_at (up_to time_of_tick last books) (times_of (up_to time_of_tick last books)) at
        ≡ book_at books (times_of books) at
  book_at-up_to books at last h l =
      book_at-lem (up_to time_of_tick last books) at (up_to-IsAscending time_of_tick last books h)
      ∙ ap get_last? (up_to-up_to time_of_tick at last books l)
      ∙ sym (book_at-lem books at h)

  book_snapshots-up_to :
      (last : DateTime) (ticks : List (PriceTick F))
      → book_snapshots (up_to time_of_tick last ticks)
        ≡ up_to time_of_tick last (book_snapshots ticks)
  unfolding book_snapshots
  book_snapshots-up_to last ticks =
      ap (by_time time_of_tick) (filter_comm (λ t. is_book t.source) (λ t. leb t.ts last) ticks)
      ∙ sym (up_to-by_time time_of_tick last (filter (λ t. is_book t.source) ticks))

  book_snapshots-IsAscending :
      (ticks : List (PriceTick F)) → IsAscending time_of_tick (book_snapshots ticks)
  unfolding book_snapshots
  book_snapshots-IsAscending ticks =
      by_time-IsAscending time_of_tick (filter (λ t. is_book t.source) ticks)

module _ {F : Type 0} ⦃d : Float F⦄ (run_id : String) (responsiveness : F) where
  sim_step-up_to :
      (books : List (PriceTick F)) (last : DateTime) (point : SignalPoint F) (market : LmsrMarket F)
      → IsAscending time_of_tick books
      → point.ts ≤ last
      → sim_step run_id responsiveness (up_to time_of_tick last books) point market
        ≡ sim_step run_id responsiveness books point market
  unfolding sim_step
  sim_step-up_to books last point market h l = rw (book_at-up_to books point.ts last h l) refl

  sim_loop-up_to :
      (books : List (PriceTick F)) (last : DateTime) (points : List (SignalPoint F))
      (market : LmsrMarket F)
      → IsAscending time_of_tick books
      → All (λ p. p.ts ≤ last) points
      → sim_loop run_id responsiveness (up_to time_of_tick last books) points market
        ≡ sim_loop run_id responsiveness books points market
  unfolding sim_loop
  sim_loop-up_to books last [] market h l = refl
  sim_loop-up_to books last (point ∷ points) market h l =
      let seen = up_to time_of_tick last books in
      ap
        (λ step. step >>= λ r.
          sim_loop run_id responsiveness seen points r.1 >>= λ ticks. ok (r.0 ∷ ticks))
        (sim_step-up_to books last point market h l.0)
      ∙ ap
          (λ loop. sim_step run_id responsiveness books point market >>= λ r.
            loop r.1 >>= λ ticks. ok (r.0 ∷ ticks))
          (fun_ext (λ m. sim_loop-up_to books last points m h l.1))

  opening_book-found :
      (books : List (PriceTick F)) (at : DateTime) (b : PriceTick F)
      → book_at books (times_of books) at ≡ some b
      → opening_book books at ≡ some b
  unfolding opening_book
  opening_book-found books at b h = rw h refl

  opening_book-up_to :
      (books : List (PriceTick F)) (at last : DateTime)
      → IsAscending time_of_tick books
      → at ≤ last
      → is_some (book_at books (times_of books) at) ≡ true
      → opening_book (up_to time_of_tick last books) at ≡ opening_book books at
  opening_book-up_to books at last h l k = elim (Option-cases (book_at books (times_of books) at)) [
    | inl e ↦ let no : false ≡ true = rw e at k in cc
    | inr (b, e) ↦
        opening_book-found (up_to time_of_tick last books) at b
          (book_at-up_to books at last h l ∙ e)
        ∙ sym (opening_book-found books at b e)
  ]

  simulate_from-up_to :
      (initial_price : F) (books : List (PriceTick F)) (last : DateTime)
      (points : List (SignalPoint F))
      → IsAscending time_of_tick books
      → All (λ p. (p.ts ≤ last) × (is_some (book_at books (times_of books) p.ts) ≡ true)) points
      → simulate_from run_id responsiveness
          (some initial_price)
          (up_to time_of_tick last books)
          points
        ≡ simulate_from run_id responsiveness (some initial_price) books points
  unfolding simulate_from
  simulate_from-up_to initial_price books last [] h l = refl
  simulate_from-up_to initial_price books last (point ∷ points) h l =
      let early = All-map (λ p k. k.0) (point ∷ points) l in
      rw (opening_book-up_to books point.ts last h l.0.0 l.0.1) (
        ap
          (λ loop. calibrate (opening_book books point.ts) >>= λ b. make_market b >>= λ opened.
            move_to_price initial_price opened >>= λ r.
            loop (record r.1 { realized_cost = d.lit 0 0 }))
          (fun_ext (λ m. sim_loop-up_to books last (point ∷ points) m h early)))

  -- The simulation does not look ahead. With a given initial price, and a book at or before each signal
  -- point, `simulate_lmsr` gives the same ticks, or raises the same exception, when every price tick later than
  -- `last` is dropped, for any `last` that no signal point is later than.
  pub simulate_lmsr-up_to :
      (signals : List (SignalPoint F)) (ticks : List (PriceTick F)) (initial_price : F)
      (last : DateTime)
      → (let books = book_snapshots ticks in
          All (λ p. (p.ts ≤ last) × (is_some (book_at books (times_of books) p.ts) ≡ true)) signals)
      → simulate_lmsr signals
          (filter (λ t. leb t.ts last) ticks)
          run_id
          responsiveness
          (some initial_price)
        ≡ simulate_lmsr signals ticks run_id responsiveness (some initial_price)
  unfolding simulate_lmsr
  simulate_lmsr-up_to signals ticks initial_price last h =
      let books = book_snapshots ticks in
      let points = sort_by (λ a b. ltb a.ts b.ts) signals in
      ap (λ bs. simulate_from run_id responsiveness (some initial_price) bs points)
        (book_snapshots-up_to last ticks)
      ∙ simulate_from-up_to initial_price books last points (book_snapshots-IsAscending ticks) (
          All-sort_by (λ p. (p.ts ≤ last) × (is_some (book_at books (times_of books) p.ts) ≡ true))
            (λ a b. ltb a.ts b.ts) signals h)
