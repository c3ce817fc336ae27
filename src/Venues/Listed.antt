-- ===== src/Venues/Listed.antt =====
-- What the two clients make of the description of a market.
use augury.Prelude.{
  String, Bool, Option, some, none, List, [], ◌∷◌, Result, ◌≡◌, refl, true, false, ok, is_some,
  arith, err, Error, Result-cases, inl, inr, ◌⊎◌, >>=-eq-ok,
}
use augury.Prelude.Int.{ℤ}
use augury.Prelude.Float.{Float}
use augury.Prelude.Json.{
  Json, array, object, field, cons, text, null, entry, or_else, or_json, to_text, get_or, str,
  truthy, Items, Fields, Builtins,
}
use augury.Models.{Market, MarketStatus, is_outcome, is_settled, market_id, kalshi, polymarket}
use augury.Models.Laws.{IsConsistent, make_market-IsConsistent_iff}
use augury.Venues.Kalshi
use augury.Venues.Kalshi.{KalshiClient, outcome_of, settle_status, status_map, no_fields}
use augury.Venues.Polymarket
use augury.Venues.Polymarket.{
  PolymarketClient, read_outcome, outcome_from, outcome_names, json_field, corner, status_of,
  get_market_raw,
}
use augury.Db.{traverse}
use augury.Engine.Trades.{ok-inj}
use augury.Venues.Money.{money}
use Prim.Native.String.{◌++◌}

-- `IsConsistent`, of the status and the outcome
abbrev IsFine : MarketStatus → Option ℤ → Type 0
IsFine status outcome = (is_settled status ≡ is_some outcome) × (is_outcome outcome ≡ true)

settle_status-IsFine :
    (status : MarketStatus) (s : String)
    → IsFine (settle_status status (outcome_of s)) (outcome_of s)
unfolding settle_status outcome_of
settle_status-IsFine status s = ground arith

module _ {F : Type 0} ⦃d : Float F⦄ ⦃py : Builtins F⦄ where
  -- the outcome that the text of `result` names
  abbrev pub stated_outcome : Fields F → Option ℤ
  stated_outcome fs = outcome_of (py.lower (py.strip (str (or_else (entry fs "result") (text "")))))

  pub read_market-ok :
      (fs : Fields F) (ticker : String) (target : Option String) (event : String)
      → to_text (or_json (or_else (entry fs "event_ticker") null) (text "")) ≡ ok event
      → (m : Market) × (Kalshi.read_market (object fs) ticker target ≡ ok m)
        × (m.market_id ≡ market_id kalshi ticker)
        × (m.resolved_outcome ≡ stated_outcome fs)
        × IsConsistent m
  unfolding Kalshi.read_market get_or
  read_market-ok fs ticker target event e = rw e (
      let fine =
        settle_status-IsFine (status_map (py.lower (str (or_else (entry fs "status") (text "")))))
          (py.lower (py.strip (str (or_else (entry fs "result") (text ""))))) in
      (_, (make_market-IsConsistent_iff _ _).1 (refl, fine), refl, refl, fine))

  -- If Kalshi answers with a market that has at least one field, and its `event_ticker` is a text or counts
  -- as absent, then `get_market` returns a market: it has the id of the ticker, its outcome is the one that
  -- the `result` names, and it is settled exactly when it has an outcome, which is 0 or 1.
  pub get_market-ok :
      (respond : String → List (String × Json F) → Result (Json F)) (client : KalshiClient)
      → (ticker : String) (target : Option String) (payload v : Json F) (k event : String)
      → (more : Fields F) → respond (client.base_url ++ "/markets/" ++ ticker) [] ≡ ok payload
      → get_or payload "market" no_fields ≡ ok (object (field k v more))
      → to_text (or_json (or_else (entry (field k v more) "event_ticker") null) (text ""))
        ≡ ok event
      → (m : Market) × (Kalshi.get_market respond client ticker target ≡ ok m)
        × (m.market_id ≡ market_id kalshi ticker)
        × (m.resolved_outcome ≡ stated_outcome (field k v more))
        × IsConsistent m
  unfolding Kalshi.get_market truthy get_or
  get_market-ok respond client ticker target payload v k event more found listed e =
      rw (found, listed) (read_market-ok (field k v more) ticker target event e)

  -- what the prices of a closed market say, or what reading them raises
  abbrev pub printed_outcome : Fields F → Result (Option ℤ)
  printed_outcome fs =
      read_outcome (truthy (or_else (entry fs "closed") null))
        (or_else (entry fs "outcomePrices") null) (or_else (entry fs "outcomes") null)

  corner-lem : (price : F) → is_outcome (corner price) ≡ true
  unfolding corner
  corner-lem price = ground arith

  outcome_from-lem :
      (names : List String) (prices : List (Option F))
      → is_outcome (outcome_from names prices) ≡ true
  unfolding outcome_from
  outcome_from-lem [] prices = refl
  outcome_from-lem (name ∷ names) [] = refl
  outcome_from-lem (name ∷ names) (none ∷ prices) = outcome_from-lem names prices
  outcome_from-lem (name ∷ names) (some price ∷ prices) =
      ground (arith, outcome_from-lem names prices, corner-lem price)

  read_outcome-IsFine :
      (is_closed : Bool) (prices outcomes : Json F) (outcome : Option ℤ)
      → read_outcome is_closed prices outcomes ≡ ok outcome
      → IsFine (status_of is_closed outcome) outcome
  unfolding read_outcome
  read_outcome-IsFine false prices outcomes outcome h = rw (← ok-inj h) (refl, refl)
  read_outcome-IsFine true prices outcomes outcome h =
      let (xs, _, h₁) = >>=-eq-ok (json_field prices) _ h in
      let (ps, _, h₂) = >>=-eq-ok (traverse money xs) _ h₁ in
      let (ys, _, h₃) = >>=-eq-ok (json_field outcomes) _ h₂ in
      closed-IsFine outcome (rw (← ok-inj h₃) (outcome_from-lem (outcome_names ys) ps))
    where
      closed-IsFine :
          (found : Option ℤ) → is_outcome found ≡ true → IsFine (status_of true found) found
      closed-IsFine (some o) h = (refl, h)
      closed-IsFine none h = (refl, refl)

  -- If Polymarket answers with a list whose first element is an object, whatever its fields are, then
  -- `get_market` returns a market: it has the id of the condition, its outcome is the one that the prices of
  -- a closed market print, and it is settled exactly when it has an outcome, which is 0 or 1. The one thing
  -- that it raises is what reading the prices and the names of the outcomes of a closed market raises.
  pub get_market_raw-ok :
      (respond : String → List (String × Json F) → Result (Json F)) (client : PolymarketClient)
      → (condition_id : String) (target : Option String) (fs : Fields F) (others : Items F)
      → respond (client.gamma_url ++ "/markets") (("condition_ids", text condition_id) ∷ [])
        ≡ ok (array (cons (object fs) others))
      → ((m : Market) × (Polymarket.get_market respond client condition_id target ≡ ok m)
          × (m.market_id ≡ market_id polymarket condition_id)
          × (printed_outcome fs ≡ ok m.resolved_outcome)
          × IsConsistent m)
        ⊎ ((e : Error) × (printed_outcome fs ≡ err e)
            × (Polymarket.get_market respond client condition_id target ≡ err e))
  unfolding Polymarket.get_market get_market_raw Polymarket.read_market get_or
  get_market_raw-ok respond client condition_id target fs others found =
      elim (Result-cases (printed_outcome fs)) [
        | inl (e, failed) ↦ rw (found, failed) (inr (e, refl, refl))
        | inr (outcome, printed) ↦
            let fine = read_outcome-IsFine _ _ _ outcome printed in
            rw (found, printed)
              (inl (_, (make_market-IsConsistent_iff _ _).1 (refl, fine), refl, refl, fine))
      ]
