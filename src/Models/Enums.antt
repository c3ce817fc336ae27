-- ===== src/Models/Enums.antt =====
-- The enumerations of models.py, and the canonical market id.
use augury.Prelude.{String, Bool, true, false}
use Prim.Native.String.{◌++◌}

pub data Venue : Type 0 where
  kalshi polymarket : Venue

-- OPEN, CLOSED, SETTLED, UNKNOWN
pub data MarketStatus : Type 0 where
  open_status closed settled unknown : MarketStatus

pub data FilterVerdict : Type 0 where
  accepted duplicate bot low_quality off_topic : FilterVerdict

pub data PriceSource : Type 0 where
  candle book : PriceSource

pub data Calibration : Type 0 where
  affine platt : Calibration

abbrev pub is_settled : MarketStatus → Bool
is_settled settled = true
is_settled _ = false

abbrev pub is_book : PriceSource → Bool
is_book book = true
is_book candle = false

abbrev pub is_kalshi : Venue → Bool
is_kalshi kalshi = true
is_kalshi polymarket = false

-- `Venue.value`
abbrev pub venue_value : Venue → String
venue_value kalshi = "kalshi"
venue_value polymarket = "polymarket"

unfoldable pub market_id : Venue → String → String
market_id venue ticker = venue_value venue ++ ":" ++ ticker
