-- ===== src/Config/Tracked.antt =====
-- config.py: `TrackedMarket`, `MarketConfig`, and its look-ups.
use augury.Prelude.{
  String, Bool, Option, none, some, List, [], ◌∷◌, find, filter, Result, ok, err, key_error,
}
use augury.Prelude.Keys.{◌==◌, string_key}
use augury.Models.{Market, MarketQuery}
use augury.Signal.{AdaptiveDecayConfig}

pub record TrackedMarket (F : Type 0) : Type 0 where
  pub market : Market
  pub query : MarketQuery
  pub half_life_hours : F
  pub adaptive : AdaptiveDecayConfig F

pub record MarketConfig (F : Type 0) : Type 0 where
  pub language : String
  pub half_life_hours : F
  pub adaptive : AdaptiveDecayConfig F
  pub global_exclude : List String
  pub markets : List (TrackedMarket F)

module _ {F : Type 0} where
  abbrev pub has_id : String → TrackedMarket F → Bool
  has_id mid t = t.market.market_id == mid

  abbrev pub has_ticker : String → TrackedMarket F → Bool
  has_ticker ticker t = t.market.ticker == ticker

  abbrev or_key_error : Option (TrackedMarket F) → Result (TrackedMarket F)
  or_key_error none = err key_error
  or_key_error (some t) = ok t

  -- `MarketConfig.by_id`
  unfoldable pub by_id : MarketConfig F → String → Result (TrackedMarket F)
  by_id config mid = or_key_error (find (has_id mid) config.markets)

  abbrev only : List (TrackedMarket F) → Result (TrackedMarket F)
  only (t ∷ []) = ok t
  only _ = err key_error

  -- `MarketConfig.resolve`: by the full id, or by the ticker when one market has it
  unfoldable pub resolve : MarketConfig F → String → Result (TrackedMarket F)
  unfolding by_id
  resolve config needle = elim (by_id config needle) [
    | ok t ↦ ok t
    | err e ↦ only (filter (has_ticker needle) config.markets)
  ]
