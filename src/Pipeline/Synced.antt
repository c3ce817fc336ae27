-- ===== src/Pipeline/Synced.antt =====
-- What `sync_config` leaves in the database.
use augury.Prelude.{
  ℕ, String, true, false, Option, some, List, [], ◌∷◌, ◌≡◌, refl, sym, ◌∙◌, ok, err, arith, All,
  Result, IsPost, IsPost->>=, IsPost-unless, IsPost-after, Bool-cases, inl, inr, eq_iff,
  value_error, ◌>>=◌, not,
}
use augury.Prelude.Float.{Float}
use augury.Prelude.Keys.{◌==◌, string_key, ==_refl}
use augury.Prelude.Json.{Json, Builtins, get_or, truthy, text, to_text, or_json, get}
use augury.Models.{DateTime, Market, make_market, Venue, kalshi, polymarket, market_id, contains}
use augury.Models.Laws.{IsConsistent}
use augury.Config.{Settings, TrackedMarket, MarketConfig}
use augury.Config.Loaded.{IsTracked, IsLoaded, ids}
use augury.Db.{
  Database, MarketRow, upsert_market, replace_market_queries, merge_market, market_key, find_row,
}
use augury.Db.Upserts.{find_row-upsert, merged}
use augury.Venues.Kalshi
use augury.Venues.Kalshi.{KalshiClient, no_fields}
use augury.Venues.Polymarket
use augury.Venues.Polymarket.{PolymarketClient}
use augury.Pipeline.Polling.{
  fetch_market, venue_client, refreshed, sync_market, sync_markets, sync_config, or_keep,
}

-- the market has the id, the target and the mark of the tracked one, and is consistent
abbrev pub IsMirrored : {F : Type 0} → TrackedMarket F → Market → Type 0
IsMirrored t m =
    (m.market_id ≡ t.market.market_id)
    × (m.target ≡ t.market.target)
    × (m.tracked ≡ true)
    × IsConsistent m

-- a record that is accepted keeps its id
make_market-id :
    (m : Market) (mid : String)
    → m.market_id ≡ mid
    → IsPost (λ n. n.market_id ≡ mid) (make_market m)
unfolding make_market
make_market-id m mid same = ground (arith, same)

module _ {F : Type 0} ⦃d : Float F⦄ ⦃py : Builtins F⦄ where
  kalshi_market-id :
      (raw : Json F) (ticker : String) (target : Option String)
      → IsPost (λ m. m.market_id ≡ market_id kalshi ticker) (Kalshi.read_market raw ticker target)
  unfolding Kalshi.read_market
  kalshi_market-id raw ticker target =
      let P : Market → Type 0 = λ m. m.market_id ≡ market_id kalshi ticker in
      IsPost->>= P (get_or raw "status" (text "")) _ λ raw_status.
        IsPost->>= P (get_or raw "result" (text "")) _ λ raw_result.
          IsPost->>= P (get_or raw "title" (text ticker)) _ λ title.
            IsPost->>= P (get raw "event_ticker") _ λ raw_event.
              IsPost->>= P (to_text (or_json raw_event (text ""))) _ λ event.
                IsPost->>= P (get raw "open_time") _ λ opens.
                  IsPost->>= P (get raw "close_time") _ λ closes.
                    IsPost->>= P (get raw "expected_expiration_time") _
                      λ expires. make_market-id _ (market_id kalshi ticker) refl

  polymarket_market-id :
      (raw : Json F) (ticker : String) (target : Option String)
      → IsPost
          (λ m. m.market_id ≡ market_id polymarket ticker)
          (Polymarket.read_market raw ticker target)
  unfolding Polymarket.read_market
  polymarket_market-id raw ticker target =
      let P : Market → Type 0 = λ m. m.market_id ≡ market_id polymarket ticker in
      IsPost->>= P (get raw "closed") _ λ raw_closed.
        IsPost->>= P (get raw "outcomePrices") _ λ raw_prices.
          IsPost->>= P (get raw "outcomes") _ λ raw_outcomes.
            IsPost->>= P (get raw "question") _ λ raw_question.
              IsPost->>= P (get raw "slug") _ λ slug. IsPost->>= P (get raw "startDate") _ λ starts.
                IsPost->>= P (get raw "endDate") _ λ ends.
                  IsPost->>= P (get raw "updatedAt") _ λ updated.
                    IsPost->>= P
                      (Polymarket.read_outcome (truthy raw_closed) raw_prices raw_outcomes) _
                      λ outcome. make_market-id _ (market_id polymarket ticker) refl

  module _ (respond : String → List (String × Json F) → Result (Json F)) where
    -- what the client of a venue answers with has the id of that venue and the ticker
    fetch_market-id :
        (v : Venue) (settings : Settings F) (ticker target : String)
        → IsPost
            (λ m. m.market_id ≡ market_id v ticker)
            (fetch_market respond (venue_client v settings) ticker target)
    unfolding fetch_market venue_client Kalshi.get_market Polymarket.get_market
    fetch_market-id kalshi settings ticker target =
        let P : Market → Type 0 = λ m. m.market_id ≡ market_id kalshi ticker in
        IsPost->>= P (respond _ _) _ λ payload.
          IsPost->>= P (get_or payload "market" no_fields) _ λ raw.
            IsPost-unless P (not (truthy raw)) value_error _
              λ some_fields. kalshi_market-id raw ticker (some target)
    fetch_market-id polymarket settings ticker target =
        let P : Market → Type 0 = λ m. m.market_id ≡ market_id polymarket ticker in
        let client =
          Polymarket.make_client settings.polymarket_gamma_url settings.polymarket_clob_url in
        IsPost->>= P (Polymarket.get_market_raw respond client ticker) _
          λ raw. polymarket_market-id raw ticker (some target)

    refreshed-IsPost :
        (t : TrackedMarket F) (fetched : Market)
        → fetched.market_id ≡ t.market.market_id
        → IsPost (IsMirrored t) (refreshed t.market fetched)
    unfolding refreshed make_market
    refreshed-IsPost t fetched same = ground (arith, same)

    sync_market-IsMirrored :
        (settings : Settings F) (t : TrackedMarket F)
        → IsTracked t
        → IsMirrored t (sync_market respond settings t)
    unfolding sync_market
    sync_market-IsMirrored settings t h =
        kept
          (do
            fetched ←
                fetch_market respond (venue_client t.market.venue settings) t.market.ticker
                  t.market.target
            refreshed t.market fetched)
          (IsPost-after (IsMirrored t) (λ m. m.market_id ≡ market_id t.market.venue t.market.ticker)
            (fetch_market respond (venue_client t.market.venue settings) t.market.ticker
              t.market.target)
            (refreshed t.market)
            (fetch_market-id t.market.venue settings t.market.ticker t.market.target)
            λ fetched same. refreshed-IsPost t fetched (same ∙ sym h.0))
      where
        kept :
            (found : Result Market)
            → IsPost (IsMirrored t) found
            → IsMirrored t (or_keep found t.market)
        kept (ok m) p = p
        kept (err e) p = (refl, refl, h.3, h.4)

-- the row of the market
abbrev pub IsStored : {F : Type 0} → Database F → TrackedMarket F → Type 0
IsStored db t =
    (r : MarketRow) × (find_row market_key t.market.market_id db.markets ≡ some r)
    × IsMirrored t r.market

module _ {F : Type 0} where
  -- a write of another market leaves the row alone
  upsert_market-other :
      (now : DateTime) (m : Market) (mid : String) (db : Database F)
      → (m.market_id == mid) ≡ false
      → find_row market_key mid (upsert_market now m db).markets
        ≡ find_row market_key mid db.markets
  unfolding upsert_market
  upsert_market-other now m mid db e =
      find_row-upsert market_key merge_market (λ old new h. h)
        (record { market = m; updated_at = now }) mid db.markets
      ∙ rw e refl

  -- the row that the upsert leaves, whether it was there or not
  merged-IsMirrored :
      (now : DateTime) (m : Market) (t : TrackedMarket F) (table : List MarketRow)
      → IsMirrored t m
      → IsMirrored t (
          MarketRow.market (
            merged market_key merge_market
              (record { market = m; updated_at = now })
              (find_row market_key m.market_id table)))
  merged-IsMirrored now m t [] h = h
  merged-IsMirrored now m t (q ∷ qs) h = elim (Bool-cases (q.market.market_id == m.market_id)) [
    | inl e ↦ rw e ((eq_iff q.market.market_id m.market_id).0 e ∙ h.0, h.1, h.2, h.3)
    | inr e ↦ rw e (merged-IsMirrored now m t qs h)
  ]

  upsert_market-IsStored :
      (now : DateTime) (m : Market) (t : TrackedMarket F) (db : Database F)
      → IsMirrored t m
      → IsStored (upsert_market now m db) t
  unfolding upsert_market
  upsert_market-IsStored now m t db h = (
    merged market_key merge_market (record { market = m; updated_at = now })
        (find_row market_key m.market_id db.markets),
    find_row-upsert market_key merge_market (λ old new k. k)
          (record { market = m; updated_at = now }) t.market.market_id db.markets
        ∙ rw (h.0, ==_refl t.market.market_id) refl,
    merged-IsMirrored now m t db.markets h,
  )

  -- the terms live in a table of their own
  replace_market_queries-markets :
      (t : TrackedMarket F) (db : Database F)
      → Database.markets (replace_market_queries t.query db).1 ≡ db.markets
  unfolding replace_market_queries
  replace_market_queries-markets t db = refl

module _ {F : Type 0} ⦃d : Float F⦄ ⦃py : Builtins F⦄
    (respond : String → List (String × Json F) → Result (Json F)) (settings : Settings F) where
  sync_markets-other :
      (now : DateTime) (mid : String) (ts : List (TrackedMarket F)) (counts : ℕ × ℕ)
      (db : Database F)
      → All IsTracked ts
      → contains (ids ts) mid ≡ false
      → find_row market_key mid (sync_markets respond settings now ts counts db).1.markets
        ≡ find_row market_key mid db.markets
  unfolding sync_markets replace_market_queries
  sync_markets-other now mid [] counts db h k = refl
  sync_markets-other now mid (t ∷ ts) counts db h k =
      sync_markets-other now mid ts _ _ h.1 (ground (arith, k))
      ∙ upsert_market-other now (sync_market respond settings t) mid db
          (ground (arith, k, (sync_market-IsMirrored respond settings t h.0).0))

  sync_markets-IsStored :
      (now : DateTime) (ts : List (TrackedMarket F)) (counts : ℕ × ℕ) (db : Database F)
      → IsLoaded ts
      → All (IsStored (sync_markets respond settings now ts counts db).1) ts
  unfolding sync_markets replace_market_queries
  sync_markets-IsStored now [] counts db h = tt
  sync_markets-IsStored now (t ∷ ts) counts db h =
      let (r, there, fine) =
        upsert_market-IsStored now (sync_market respond settings t) t db
          (sync_market-IsMirrored respond settings t h.0.0) in
      (
        (r, sync_markets-other now t.market.market_id ts _ _ h.0.1 h.1.0 ∙ there, fine),
        sync_markets-IsStored now ts _ _ (h.0.1, h.1.1),
      )

  -- After `sync_config` over markets as the configuration loads them, whatever the venues answer or raise,
  -- each tracked market has a row under its id, with the target of the configuration, marked as tracked, and
  -- with a status and an outcome that agree.
  pub sync_config-IsStored :
      (now : DateTime) (config : MarketConfig F) (db : Database F)
      → IsLoaded config.markets
      → All (IsStored (sync_config respond config settings now db).1) config.markets
  unfolding sync_config
  sync_config-IsStored now config db h = sync_markets-IsStored now config.markets (0, 0) db h
