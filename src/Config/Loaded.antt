-- ===== src/Config/Loaded.antt =====
-- What `load_market_config` promises of the markets that it returns, and the look-ups in them.
use augury.Prelude.{
  String, true, false, some, List, [], ◌∷◌, map, ◌≡◌, ◌≢◌, refl, sym, ap, ◌∙◌, ok, inl, inr, arith,
  All, IsIn, IsPost, IsPost->>=, IsPost-ok, IsPost-after, IsPost-unless, not, value_error, find,
  eq_iff,
}
use augury.Prelude.Float.{Float}
use augury.Prelude.Keys.{◌==◌, string_key, ==_refl}
use augury.Prelude.Json.{
  Json, Builtins, array, nil, object, end, text, decimal, get, get_or, or_json, str, to_float,
  truthy, iterate,
}
use augury.Models.{MarketQuery, market_id, contains, all_terms, make_market}
use augury.Models.Laws.{IsConsistent, IsDistinct}
use augury.Signal.{AdaptiveDecayConfig}
use augury.Config.Tracked.{TrackedMarket, MarketConfig, by_id, resolve, has_id}
use augury.Config.Loading.{
  load_market_config, load_entries, load_entry, read_query, required, venue_of, id_matches,
  entry_adaptive, is_nil, is_one, is_object, read_adaptive, adaptive_defaults, read_list,
  read_terms,
}

module _ {F : Type 0} where
  -- the id is that of the venue and the ticker, the terms belong to it, and the record is consistent
  abbrev pub IsTracked : TrackedMarket F → Type 0
  IsTracked t =
      (t.market.market_id ≡ market_id t.market.venue t.market.ticker)
      × (t.query.market_id ≡ t.market.market_id)
      × (all_terms t.query ≢ [])
      × (t.market.tracked ≡ true)
      × IsConsistent t.market

  abbrev pub ids : List (TrackedMarket F) → List String
  ids = map (λ t. t.market.market_id)

  -- tracked markets, of which no two have the same id
  abbrev pub IsLoaded : List (TrackedMarket F) → Type 0
  IsLoaded ts = All IsTracked ts × IsDistinct (ids ts)

not_nil : (xs : List String) → is_nil xs ≡ false → xs ≢ []
not_nil [] h = cc
not_nil (x ∷ xs) h = cc

module _ {F : Type 0} where
  -- the ids of the entries after `mid` differ from it, and from those before it
  apart :
      (mid : String) (seen : List String) (ts : List (TrackedMarket F))
      → All (λ t. contains (mid ∷ seen) t.market.market_id ≡ false) ts
      → contains (ids ts) mid ≡ false
  apart mid seen [] h = refl
  apart mid seen (t ∷ ts) h =
      ground
        (arith, apart mid seen ts h.1, eq_iff mid t.market.market_id, eq_iff t.market.market_id mid)

  others :
      (mid : String) (seen : List String) (ts : List (TrackedMarket F))
      → All (λ t. contains (mid ∷ seen) t.market.market_id ≡ false) ts
      → All (λ t. contains seen t.market.market_id ≡ false) ts
  others mid seen [] h = tt
  others mid seen (t ∷ ts) h = (ground (arith, h.0), others mid seen ts h.1)

module _ {F : Type 0} ⦃d : Float F⦄ ⦃py : Builtins F⦄ where
  -- a tracked market whose id is new
  abbrev IsNew : List String → TrackedMarket F → Type 0
  IsNew seen t = IsTracked t × (contains seen t.market.market_id ≡ false)

  read_query-market_id :
      (raw : Json F) (mid : String) → IsPost (λ q. q.market_id ≡ mid) (read_query raw mid)
  unfolding read_query
  read_query-market_id raw mid =
      let P : MarketQuery → Type 0 = λ q. q.market_id ≡ mid in
      IsPost->>= P (read_terms raw "keywords") _ λ keywords.
        IsPost->>= P (read_terms raw "tickers") _ λ tickers.
          IsPost->>= P (read_terms raw "entities") _ λ entities.
            IsPost->>= P (read_terms raw "aliases") _
              λ aliases. IsPost->>= P (read_list raw "exclude") _ λ exclude. refl

  load_entry-IsNew :
      (adaptive : AdaptiveDecayConfig F) (half_life : F) (seen : List String) (raw : Json F)
      → IsPost (IsNew seen) (load_entry adaptive half_life seen raw)
  unfolding load_entry make_market
  load_entry-IsNew adaptive half_life seen raw =
      let P = IsNew seen in
      IsPost->>= P (required raw "venue") _ λ raw_venue.
        IsPost->>= P (venue_of raw_venue) _ λ venue.
          IsPost->>= P (required raw "ticker") _ λ raw_ticker.
            IsPost->>= P (required raw "title") _ λ title.
              IsPost->>= P (required raw "target") _ λ target.
                let mid = market_id venue (str raw_ticker) in
                IsPost->>= P (get raw "id") _ λ given.
                  IsPost-unless P (not (id_matches given mid)) value_error _ λ matches.
                    IsPost-unless P (contains seen mid) value_error _ λ fresh.
                      IsPost->>= P (get raw "query") _ λ raw_query.
                        IsPost-after P (λ q. q.market_id ≡ mid)
                          (read_query (or_json raw_query (object end)) mid) _
                          (read_query-market_id (or_json raw_query (object end)) mid)
                          λ query same.
                            IsPost-unless P (is_nil (all_terms query)) value_error _ λ terms.
                              IsPost->>= P (get raw "adaptive_decay") _ λ raw_adaptive.
                                IsPost->>= P (entry_adaptive raw_adaptive adaptive) _ λ decay.
                                  IsPost->>= P (get raw "series_ticker") _ λ series_ticker.
                                    IsPost->>= P (get_or raw "half_life_hours" (decimal half_life))
                                      _
                                      λ raw_half_life.
                                        IsPost->>= P (to_float raw_half_life) _ λ half_life_hours. (
                                          (
                                            refl,
                                            same,
                                            not_nil (all_terms query) terms,
                                            refl,
                                            (refl, refl),
                                          ),
                                          fresh,
                                        )

  -- one post for the whole loop: no id repeats, and none is in `seen`
  abbrev IsFresh : List String → List (TrackedMarket F) → Type 0
  IsFresh seen ts = IsLoaded ts × All (λ t. contains seen t.market.market_id ≡ false) ts

  load_entries-IsFresh :
      (adaptive : AdaptiveDecayConfig F) (half_life : F) (seen : List String) (raws : List (Json F))
      → IsPost (IsFresh seen) (load_entries adaptive half_life seen raws)
  unfolding load_entries
  load_entries-IsFresh adaptive half_life seen [] = ((tt, tt), tt)
  load_entries-IsFresh adaptive half_life seen (raw ∷ raws) =
      IsPost-after (IsFresh seen) (IsNew seen) (load_entry adaptive half_life seen raw) _
        (load_entry-IsNew adaptive half_life seen raw)
        λ t new.
          let more = t.market.market_id ∷ seen in
          IsPost-after (IsFresh seen) (IsFresh more) (load_entries adaptive half_life more raws) _
            (load_entries-IsFresh adaptive half_life more raws)
            λ ts rest. (
              ((new.0, rest.0.0), (apart t.market.market_id seen ts rest.1, rest.0.1)),
              (new.1, others t.market.market_id seen ts rest.1),
            )

  -- The markets of a configuration that loads have pairwise different ids; the id of each is that of its
  -- venue and ticker and of its query, its query has a term, it is tracked, and its status and outcome agree.
  pub load_market_config-IsLoaded :
      (raw : Json F) (config : MarketConfig F)
      → load_market_config raw ≡ ok config
      → IsLoaded config.markets
  unfolding load_market_config
  load_market_config-IsLoaded raw config h =
      let P : MarketConfig F → Type 0 = λ c. IsLoaded c.markets in
      IsPost-ok P (load_market_config raw) config
        (IsPost-unless P (not (is_object raw)) value_error _ λ mapping.
          IsPost->>= P (get raw "version") _ λ version.
            IsPost-unless P (not (is_one version)) value_error _ λ first.
              IsPost->>= P (get raw "defaults") _ λ raw_defaults.
                let defaults = or_json raw_defaults (object end) in
                IsPost->>= P (get defaults "adaptive_decay") _ λ raw_adaptive.
                  IsPost->>= P (read_adaptive (or_json raw_adaptive (object end)) adaptive_defaults)
                    _
                    λ adaptive.
                      IsPost->>= P (get_or defaults "half_life_hours" (decimal (d.lit 6 0))) _
                        λ raw_half_life. IsPost->>= P (to_float raw_half_life) _ λ half_life.
                          IsPost->>= P (read_list defaults "global_exclude") _ λ global_exclude.
                            IsPost->>= P (get raw "markets") _ λ raw_markets.
                              let entries = or_json raw_markets (array nil) in
                              IsPost-unless P (not (truthy entries)) value_error _ λ some_entries.
                                IsPost->>= P (iterate entries) _ λ raws.
                                  IsPost-after P (IsFresh [])
                                    (load_entries adaptive half_life [] raws) _
                                    (load_entries-IsFresh adaptive half_life [] raws)
                                    λ markets fresh.
                                      IsPost->>= P (get_or defaults "language" (text "en")) _
                                        λ language. fresh.0)
        h

module _ {F : Type 0} where
  -- a text that is none of the ids is not the id of a member
  other_id :
      (mid : String) (t : TrackedMarket F) (ts : List (TrackedMarket F))
      → contains (ids ts) mid ≡ false
      → IsIn t ts
      → (mid == t.market.market_id) ≡ false
  other_id mid t [] h k = absurd k
  other_id mid t (u ∷ ts) h (inr k) = other_id mid t ts (ground (arith, h)) k
  other_id mid t (u ∷ ts) h (inl e) =
      let same = ap (λ x. x.market.market_id) e in
      ground (arith, h, same, eq_iff mid t.market.market_id, eq_iff u.market.market_id mid)

  find-IsIn :
      (t : TrackedMarket F) (ts : List (TrackedMarket F))
      → IsDistinct (ids ts)
      → IsIn t ts
      → find (has_id t.market.market_id) ts ≡ some t
  find-IsIn t [] h k = absurd k
  find-IsIn t (u ∷ ts) h (inl e) =
      rw (ap (λ x. x.market.market_id == t.market.market_id) (sym e) ∙ ==_refl t.market.market_id)
        (ap some (sym e))
  find-IsIn t (u ∷ ts) h (inr k) =
      rw (other_id u.market.market_id t ts h.0 k) (find-IsIn t ts h.1 k)

  by_id-IsIn :
      (config : MarketConfig F) (t : TrackedMarket F)
      → IsDistinct (ids config.markets)
      → IsIn t config.markets
      → by_id config t.market.market_id ≡ ok t
  unfolding by_id
  by_id-IsIn config t h k = rw (find-IsIn t config.markets h k) refl

module _ {F : Type 0} ⦃d : Float F⦄ ⦃py : Builtins F⦄ where
  -- Each market of a configuration that loads is the one that `by_id` and `resolve` answer with for its id.
  pub resolve-loaded :
      (raw : Json F) (config : MarketConfig F) (t : TrackedMarket F)
      → load_market_config raw ≡ ok config
      → IsIn t config.markets
      → (by_id config t.market.market_id ≡ ok t) × (resolve config t.market.market_id ≡ ok t)
  unfolding resolve
  resolve-loaded raw config t h k =
      let found = by_id-IsIn config t (load_market_config-IsLoaded raw config h).1 k in
      (found, rw (found, resolve) refl)
