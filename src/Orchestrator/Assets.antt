-- ===== src/Orchestrator/Assets.antt =====
-- orchestrator.py: the bodies of the assets, each on the stored data. Dagster, which decides when an
-- asset runs, is third-party code; the metadata of an output are not modelled. `settings` and the value
-- of the configuration file are what the loaders read; `now` is the time of the transactions.
use Prim.Native.String.{◌++◌}
use augury.Prelude.{
  ℕ, suc, String, true, Option, List, [], ◌∷◌, if◌then◌else◌, length, Result, ok, err, ◌>>=◌, Exec,
}
use augury.Prelude.Int.{pos}
use augury.Prelude.Keys.{◌==◌, string_key}
use augury.Prelude.Float.{Float}
use augury.Prelude.Json.{Json, Builtins}
use augury.Models.{DateTime, Post, Stance}
use augury.Config.{Settings, TrackedMarket, MarketConfig, load_market_config, by_id}
use augury.Signal.{StanceModel, build_stance_model}
use augury.Db.{Database, insert_price_ticks, insert_posts, insert_stances, unscored_posts}
use augury.Pipeline.{
  ScoringModel, version_of, score_posts, poll_prices, ingest_posts, sync_config, Outcome, pending,
  resolved,
}
use augury.Slice.{choose_model}

-- `settled` of an element of the list that `resolve_markets` returns
abbrev pub settled_count : {F : Type 0} → List (Outcome F) → ℕ
settled_count [] = 0
settled_count (pending mid status ∷ os) = settled_count os
settled_count (resolved mid outcome scores p ∷ os) = suc (settled_count os)

module _ {F : Type 0} ⦃d : Float F⦄ where
  -- `stances`, of a market whose model is at hand: the pending posts are scored and stored
  unfoldable pub score_backlog :
      TrackedMarket F → ScoringModel F → DateTime → Exec (Database F) (List (Stance F))
  unfolding score_posts
  score_backlog t model now db =
      let pending = unscored_posts t.market.market_id (version_of model) 1000 db in
      elim (score_posts pending model t.market.target) [
        | err e ↦ (err e, db)
        | ok scored ↦ (ok scored, (insert_stances now scored db).1)
      ]

module _ {F : Type 0} ⦃d : Float F⦄ ⦃py : Builtins F⦄ where
  -- `_tracked`
  unfoldable pub tracked_of : Json F → String → Result (TrackedMarket F)
  unfolding load_market_config by_id
  tracked_of raw mid = do config ← load_market_config raw; by_id config mid

  module _ (respond : String → List (String × Json F) → Result (Json F)) where
    unfoldable pub market_config : Json F → Settings F → DateTime → Exec (Database F) ℕ
    unfolding sync_config
    market_config raw settings now db = elim (load_market_config raw) [
      | err e ↦ (err e, db)
      | ok config ↦
          let (counts, db') = sync_config respond config settings now db in (ok counts.0, db')
    ]

    unfoldable pub market_prices :
        Json F
        → Settings F
        → String
        → (now at fetched_at : DateTime) (clock : ℕ → DateTime) → Exec (Database F) ℕ
    unfolding tracked_of poll_prices
    market_prices raw settings mid now at fetched_at clock db = elim (tracked_of raw mid) [
      | err e ↦ (err e, db)
      | ok t ↦
          let ticks = poll_prices respond settings t (pos 7) true now at fetched_at clock in
          let (written, db') = insert_price_ticks now ticks db in (ok (length ticks), db')
    ]

  -- `posts`, over the search of the X client
  unfoldable pub store_posts :
      {S : Type 0}
      → (String → String → ℕ → Option DateTime → Exec S (List Post))
      → Json F
      → String
      → DateTime
      → Exec (S × Database F) ℕ
  unfolding tracked_of ingest_posts
  store_posts search raw mid now (s, db) =
      let found : Result (MarketConfig F × TrackedMarket F) = do
        config ← load_market_config raw
        t ← by_id config mid
        ok (config, t)
      in elim found [
        | err e ↦ (err e, (s, db))
        | ok (config, t) ↦
            let (fetched, s') = ingest_posts search t config 100 7 now s in
            elim fetched [
              | err e ↦ (err e, (s', db))
              | ok posts ↦ let (stored, db') = insert_posts now posts db in (ok stored, (s', db'))
            ]
      ]

  module _ (vader : StanceModel F) (deberta : Result (StanceModel F)) where
    unfoldable pub stances : Json F → Settings F → String → DateTime → Exec (Database F) ℕ
    unfolding tracked_of choose_model score_backlog
    stances raw settings mid now db =
        let found : Result (TrackedMarket F × ScoringModel F) = do
          t ← tracked_of raw mid
          model ← choose_model vader deberta settings.stance_model
          ok (t, model)
        in elim found [
          | err e ↦ (err e, db)
          | ok (t, model) ↦
              let (scored, db') = score_backlog t model now db in
              ((do s ← scored; ok (length s)), db')
        ]

    -- `_current_model_version`
    unfoldable pub current_model_version : String → Result String
    unfolding build_stance_model
    current_model_version name = do
      primary ← build_stance_model vader deberta name
      ok (
          if py.lower name == "vader"
          then primary.model_version
          else primary.model_version ++ "+" ++ vader.model_version)
