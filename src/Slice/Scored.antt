-- ===== src/Slice/Scored.antt =====
-- slice.py: what a run of `run_slice` leaves for the scoring step.
use augury.Prelude.{
  ℕ, String, Bool, true, false, ◌≡◌, refl, sym, ap, ◌∙◌, Option, none, some, List, [], ◌∷◌, Result,
  ok, err, Result-cases, Bool-cases, inl, inr, Exec, All, IsPost, IsPost->>=, IsPost-after,
  IsPost-ok, ◌>>=◌, length, ltb, >>=-eq-ok,
}
use Prim.Native.Nat.{min}
use mathlib.Core.Path.{subst}
use augury.Prelude.Int.{ℤ, pos}
use augury.Prelude.Float.{Float}
use augury.Prelude.Json.{Json, Builtins}
use augury.Models.{DateTime, Post, affine, is_settled}
use augury.Config.{Settings, TrackedMarket, MarketConfig}
use augury.Signal.{StanceModel}
use augury.Analytics.{Statistics, granger_test, cross_correlation, score_market}
use augury.Db.{Database, unscored_posts}
use augury.Db.Backlog.{covers}
use augury.Bus.{Broker}
use augury.Pipeline.{
  version_of, score_posts, build_signal_series, simulate_lmsr, poll_prices, ingest_posts,
}
use augury.Pipeline.Covered.{has_key, score_posts-covers}
use augury.Slice.Aligned.{aligned_pairs}
use augury.Slice.Analysis.{
  SliceResult, analyze, analyze_causality, is_degenerate, score_slice, score_outcome, score_columns,
}
use augury.Slice.Run.{
  World, Clocks, choose_model, derive, finish, run_slice, persist_messages, signal_of, empty_result,
  persist_rows,
}
use augury.Slice.Persisted.{persist_rows-tables, before_stances, unscored_posts-unlisted}

IsPost-map :
    {A : Type 0} (P Q : A → Type 0) (r : Result A) → ((a : A) → P a → Q a) → IsPost P r → IsPost Q r
IsPost-map P Q (err e) f h = tt
IsPost-map P Q (ok a) f h = f a h

ok-injective : {A : Type 0} (a b : A) → ok a ≡ ok b → a ≡ b
ok-injective a b h = cc

module _ {F : Type 0} where
  -- what the analysis and the scores leave alone
  abbrev SameRun : SliceResult F → SliceResult F → Type 0
  SameRun r out =
      (out.posts ≡ r.posts) × (out.stances ≡ r.stances) × (out.model_version ≡ r.model_version)

  -- the posts have stances of the run's version
  abbrev pub IsCovered : SliceResult F → Type 0
  IsCovered r = All (λ p. covers r.model_version r.stances p ≡ true) r.posts

  SameRun-IsCovered : (r out : SliceResult F) → SameRun r out → IsCovered r → IsCovered out
  SameRun-IsCovered r out (posts, stances, version) h = rw (posts, stances, version) h

module _ {F : Type 0} ⦃d : Float F⦄ where
  module _ (stats : Statistics F) where
    analyze_causality-SameRun :
        (xs ps : List F) (r : SliceResult F) → SameRun r (analyze_causality stats xs ps r)
    unfolding analyze_causality
    analyze_causality-SameRun xs ps r = elim (Bool-cases (ltb (length xs) 20)) [
      | inl few ↦ rw few (refl, refl, refl)
      | inr enough ↦
          elim (Result-cases (granger_test stats xs ps "signal_to_price" 12 "aic" false)) [
            | inl (e, h) ↦ rw (enough, h) (refl, refl, refl)
            | inr (g, h) ↦ rw (enough, h) (refl, refl, refl)
          ]
    ]

    analyze-SameRun : (r : SliceResult F) → IsPost (SameRun r) (analyze stats r)
    unfolding analyze
    analyze-SameRun r =
        let (xs, ps) = aligned_pairs r.signals r.prices in
        elim (Bool-cases (ltb (length xs) 5)) [
          | inl few ↦ rw few (refl, refl, refl)
          | inr enough ↦ elim (Bool-cases (is_degenerate ps)) [
            | inl flat ↦ rw (enough, flat) (refl, refl, refl)
            | inr moved ↦
                rw (enough, moved)
                  (IsPost->>= (SameRun r) (cross_correlation stats xs ps _) _
                    λ rows. analyze_causality-SameRun xs ps (record r { correlations = some rows }))
          ]
        ]

  module _ (mean : List F → F) where
    score_columns-SameRun :
        (r : SliceResult F) (outcome : ℤ) (columns : List F × List F)
        → IsPost (SameRun r) (score_columns mean r outcome columns)
    unfolding score_columns
    score_columns-SameRun r outcome ([], probs) = (refl, refl, refl)
    score_columns-SameRun r outcome (p ∷ ps, probs) =
        IsPost->>= (SameRun r)
          (score_market mean r.market.market.market_id r.model_version (p ∷ ps) probs outcome
            affine)
          _ λ scored. (refl, refl, refl)

    score_outcome-SameRun :
        (r : SliceResult F) (settled : Bool) (outcome : Option ℤ)
        → IsPost (SameRun r) (score_outcome mean r settled outcome)
    unfolding score_outcome
    score_outcome-SameRun r true (some outcome) = score_columns-SameRun r outcome _
    score_outcome-SameRun r true none = (refl, refl, refl)
    score_outcome-SameRun r false outcome = (refl, refl, refl)

    score_slice-SameRun : (r : SliceResult F) → IsPost (SameRun r) (score_slice mean r)
    unfolding score_slice
    score_slice-SameRun r =
        score_outcome-SameRun r (is_settled r.market.market.status) r.market.market.resolved_outcome

module _ {F : Type 0} ⦃d : Float F⦄ ⦃py : Builtins F⦄ (stats : Statistics F) (mean : List F → F)
    (vader : StanceModel F) (deberta : Result (StanceModel F)) where
  -- the posts stay, and what is derived from them covers them
  abbrev IsDerived : SliceResult F → SliceResult F → Type 0
  IsDerived r out = (out.posts ≡ r.posts) × IsCovered out

  finished :
      (r before : SliceResult F)
      → before.posts ≡ r.posts
      → IsCovered before
      → IsPost (IsDerived r) (do analyzed ← analyze stats before; score_slice mean analyzed)
  finished r before posts covered =
      IsPost-after (IsDerived r) (SameRun before) (analyze stats before) _
        (analyze-SameRun stats before)
        λ analyzed same.
          IsPost-map (SameRun analyzed) (IsDerived r) (score_slice mean analyzed)
            (λ out kept. (
              kept.0 ∙ same.0 ∙ posts,
              SameRun-IsCovered analyzed out kept (SameRun-IsCovered before analyzed same covered),
            ))
            (score_slice-SameRun mean analyzed)

  derive-IsDerived :
      (settings : Settings F) (responsiveness : F) (clock : DateTime → DateTime) (now : DateTime)
      (r : SliceResult F)
      → IsPost (IsDerived r) (derive stats mean vader deberta settings responsiveness clock now r)
  unfolding derive
  derive-IsDerived settings responsiveness clock now r =
      let P = IsDerived r in
      IsPost->>= P (choose_model vader deberta settings.stance_model) _ λ model.
        IsPost-after P (λ ss. All (λ p. covers (version_of model) ss p ≡ true) r.posts)
          (score_posts r.posts model r.market.market.target) _
          (score_posts-covers r.posts model r.market.market.target)
          λ ss covered.
            IsPost->>= P
              (build_signal_series (signal_of r.market) r.posts ss r.prices (version_of model) 1
                affine none clock now)
              _
              λ signals.
                IsPost->>= P (simulate_lmsr signals r.prices "live" responsiveness none) _ λ sim.
                  finished r
                    (record r {
                      model_version = version_of model;
                      stances = ss;
                      signals = signals;
                      sim = sim;
                    })
                    refl covered

module _ {F : Type 0} {S : Type 0} ⦃d : Float F⦄ ⦃py : Builtins F⦄ (stats : Statistics F)
    (mean : List F → F) (vader : StanceModel F) (deberta : Result (StanceModel F))
    (respond : String → List (String × Json F) → Result (Json F))
    (search : String → String → ℕ → Option DateTime → Exec S (List Post)) (is_live : Bool)
    (broker : Broker F) (utc_text : DateTime → String) (clocks : Clocks) where
  stored_run :
      (out r : SliceResult F) (db db' : Database F) (posts : List Post) (found : Result (List Post))
      → found ≡ ok posts
      → out.posts ≡ posts
      → IsCovered out
      → out ≡ r
      → persist_rows clocks.transactions out db ≡ db'
      → (mid : String) (limit : ℕ)
      → (found ≡ ok r.posts)
        × All (λ q. has_key r.posts q ≡ false) (unscored_posts mid r.model_version limit db')
  stored_run out r db db' posts found h kept covered same written mid limit =
      let (same_posts, same_stances) = persist_rows-tables clocks.transactions out db in
      subst
        (λ x.
          (found ≡ ok x.posts)
          × All (λ q. has_key x.posts q ≡ false) (unscored_posts mid x.model_version limit db'))
        same
        (
          h ∙ ap ok (sym kept),
          subst
              (λ y.
                All (λ q. has_key out.posts q ≡ false)
                  (unscored_posts mid out.model_version limit y))
              written
              (unscored_posts-unlisted (clocks.transactions 3) out.stances
                (before_stances clocks.transactions out db)
                (persist_rows clocks.transactions out db) same_posts same_stances mid
                out.model_version limit out.posts covered),
        )

  -- the writes of a run that persists and returns
  finish-ok :
      (out r : SliceResult F) (w w' : World S F)
      → finish stats mean vader deberta respond search is_live broker utc_text clocks true out w
        ≡ (ok r, w')
      → (out ≡ r) × (persist_rows clocks.transactions out w.db ≡ w'.db)
  unfolding finish
  finish-ok out r w w' ran =
      let (sent, told, same) =
        >>=-eq-ok (persist_messages broker utc_text out w.bus).0 (λ _. ok out)
          (ap (λ x. x.0) ran) in
      (ok-injective out r same, ap (λ x. World.db x.1) ran)

  -- After a run of `run_slice` that persists and returns, the posts of its result are those that the X client
  -- found, and no page of the unscored posts of any market, under the run's model version, lists a post
  -- with the id, market and time of one of them.
  pub run_slice-scored :
      (t : TrackedMarket F) (config : MarketConfig F) (settings : Settings F)
      (lookback_days max_posts : ℕ) (responsiveness : F) (w w' : World S F) (r : SliceResult F)
      (mid : String) (limit : ℕ)
      → run_slice stats mean vader deberta respond search is_live broker utc_text clocks t config
          settings lookback_days max_posts responsiveness true w
        ≡ (ok r, w')
      → ((ingest_posts search t config max_posts (min lookback_days 7) clocks.posts_end w.client).0
          ≡ ok r.posts)
        × All (λ q. has_key r.posts q ≡ false) (unscored_posts mid r.model_version limit w'.db)
  unfolding run_slice
  run_slice-scored t config settings lookback_days max_posts responsiveness w w' r mid limit ran =
      let found =
        ingest_posts search t config max_posts (min lookback_days 7) clocks.posts_end w.client in
      let prices =
        poll_prices respond settings t (pos lookback_days) true clocks.prices_end clocks.book_at
          clocks.book_fetched clocks.bar_fetched in
      elim (Result-cases found.0) [
        | inl (e, h) ↦ let no = rw (h, run_slice) at ran in cc
        | inr (posts, h) ↦
            let start : SliceResult F = record (empty_result t) {
              prices = prices;
              posts = posts;
              live_posts = is_live;
            } in
            let derived =
              derive stats mean vader deberta settings responsiveness clocks.computed
                clocks.grid_end start in
            let ran₁ = rw (h, run_slice) at ran in
            elim (Result-cases derived) [
              | inl (e, k) ↦ let no = rw (k, run_slice) at ran₁ in cc
              | inr (out, k) ↦
                  let ran₂ = rw (k, run_slice) at ran₁ in
                  let (same, written) = finish-ok out r (record w { client = found.1 }) w' ran₂ in
                  let (kept, covered) =
                    IsPost-ok (IsDerived stats mean vader deberta start) derived out
                      (derive-IsDerived stats mean vader deberta settings responsiveness
                        clocks.computed clocks.grid_end start)
                      k in
                  stored_run out r w.db w'.db posts found.0 h kept covered same written mid limit
            ]
      ]
