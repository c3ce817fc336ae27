-- ===== src/Pipeline/Once.antt =====
-- pipeline/steps.py: `_freeze_scores` and `resolve_markets` touch a market's row once.
use augury.Prelude.{
  String, ◌≡◌, ◌≢◌, refl, ◌∙◌, true, none, List, [], ◌∷◌, Option-cases, Bool-cases, inl, inr, All,
  Result, ok, err, Result-cases,
}
use augury.Prelude.Int.{ℤ}
use augury.Prelude.Float.{Float}
use augury.Prelude.Keys.{string_key, pair_key}
use augury.Models.{SignalPoint, Calibration, DateTime, Market, is_settled}
use augury.Db.{
  Database, upsert_market, open_markets_past_close, market_key, record_score, signal_series,
  price_series,
}
use augury.Db.Upserts.{IsKeyed}
use augury.Db.Effects.{open_markets_past_close-settled}
use augury.Pipeline.Settling.{settle_position-markets}
use augury.Analytics.{ScoreResult}
use augury.Pipeline.{
  store_score, nothing_to_score, freeze_version, freeze_versions, freeze_scores, close_market,
  resolve_fresh,
}

queue-markets :
    {F : Type 0} (now : DateTime) (db db' : Database F)
    → db'.markets ≡ db.markets
    → open_markets_past_close now db ≡ open_markets_past_close now db'
unfolding open_markets_past_close
queue-markets now db db' h = rw h refl

module _ {F : Type 0} ⦃d : Float F⦄ (np_mean : List F → F) where
  store_score-markets :
      (version : String) (calibration : Calibration) (rows : List (SignalPoint F))
      (r : Result (ScoreResult F)) (db : Database F)
      → (store_score version calibration rows r db).1.markets ≡ db.markets
  unfolding store_score record_score
  store_score-markets version calibration rows (err e) db = refl
  store_score-markets version calibration rows (ok score) db = refl

  freeze_version-markets :
      (market : Market) (outcome : ℤ) (version : String) (db : Database F)
      → (freeze_version np_mean market outcome version db).1.markets ≡ db.markets
  unfolding freeze_version
  freeze_version-markets market outcome version db =
      let signal_rows = signal_series market.market_id version none db in
      let price_rows = price_series market.market_id none none db in
      elim (Bool-cases (nothing_to_score signal_rows price_rows)) [
        | inl e ↦ rw e refl
        | inr e ↦ rw e (store_score-markets version _ signal_rows _ db)
      ]

  freeze_versions-markets :
      (market : Market) (outcome : ℤ) (versions : List String) (db : Database F)
      → (freeze_versions np_mean market outcome versions db).1.markets ≡ db.markets
  unfolding freeze_versions
  freeze_versions-markets market outcome [] db = refl
  freeze_versions-markets market outcome (version ∷ versions) db =
      let one = freeze_version np_mean market outcome version db in
      let kept = freeze_version-markets market outcome version db in
      elim (Result-cases one.0) [
        | inl (e, f) ↦ rw (f, freeze_versions) kept
        | inr (s, f) ↦
            rw (f, freeze_versions) (freeze_versions-markets market outcome versions one.1 ∙ kept)
      ]

  freeze_scores-markets :
      (market : Market) (db : Database F) → (freeze_scores np_mean market db).1.markets ≡ db.markets
  unfolding freeze_scores
  freeze_scores-markets market db = elim (Option-cases market.resolved_outcome) [
    | inl o ↦ rw o refl
    | inr (outcome, o) ↦ rw o (freeze_versions-markets market outcome _ db)
  ]

  module _ (fetch : Market → Result Market) where
    close_market-markets :
        (mid : String) (market : Market) (now : DateTime) (outcome : ℤ) (db : Database F)
        → (close_market np_mean fetch mid market now outcome db).1.markets ≡ db.markets
    unfolding close_market
    close_market-markets mid market now outcome db =
        let one = freeze_scores np_mean market db in
        let kept = freeze_scores-markets market db in
        elim (Result-cases one.0) [
          | inl (e, f) ↦ rw (f, close_market) kept
          | inr (s, f) ↦
              rw (f, close_market) (settle_position-markets market now "signal_v1" one.1 ∙ kept)
        ]

    resolve_fresh-markets :
        (mid : String) (market : Market) (now : DateTime) (db : Database F)
        → (resolve_fresh np_mean fetch mid market now db).1.markets
          ≡ (upsert_market now market db).markets
    unfolding resolve_fresh
    resolve_fresh-markets mid market now db = elim (Bool-cases (is_settled market.status)) [
      | inr e ↦ rw e refl
      | inl e ↦ elim (Option-cases market.resolved_outcome) [
        | inl o ↦ simp (e, o) refl
        | inr (outcome, o) ↦
            simp (e, o) (close_market-markets mid market now outcome (upsert_market now market db))
      ]
    ]

    -- Once the venue reports a market as settled, whatever `_freeze_scores` and
    -- `_settle_position` do, an exception of theirs included, no later queue of the resolution
    -- watcher that loads lists the market again. The table has one row for a market.
    pub resolve_fresh-once :
        (mid : String) (market : Market) (now later : DateTime) (db : Database F)
        (queue : List Market)
        → is_settled market.status ≡ true
        → IsKeyed market_key db.markets
        → open_markets_past_close later (resolve_fresh np_mean fetch mid market now db).1 ≡ ok queue
        → All (λ q. q.market_id ≢ market.market_id) queue
    resolve_fresh-once mid market now later db queue s h e =
        open_markets_past_close-settled now later market db queue s h
          (queue-markets later _ _ (resolve_fresh-markets mid market now db) ∙ e)
