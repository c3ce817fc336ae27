-- ===== src/Db/Rows.antt =====
-- The rows of the tables with their keys, and the database.
use augury.Prelude.{ℕ, String, Bool, Option, List}
use augury.Prelude.Int.{ℤ}
use augury.Models.{
  DateTime, Market, Post, Stance, SignalPoint, PriceTick, SimTick, PriceSource, candle, book,
  Calibration,
}

-- `markets`: the record, and the time of the last write
pub record MarketRow : Type 0 where
  pub market : Market
  pub updated_at : DateTime

pub data TermType : Type 0 where
  keyword ticker entity alias exclude : TermType

pub record QueryRow : Type 0 where
  pub market_id : String
  pub term_type : TermType
  pub term : String

pub record StanceRow (F : Type 0) : Type 0 where
  pub scored : Stance F
  pub scored_at : DateTime

pub record ScoreRow (F : Type 0) : Type 0 where
  pub market_id : String
  pub model_version : String
  pub window_start : Option DateTime
  pub window_end : Option DateTime
  pub n_obs : ℕ
  pub calibration : Calibration
  pub brier_signal : F
  pub brier_market : F
  pub bss : F
  pub resolved_outcome : Option ℤ
  pub final : Bool

pub record FillRow (F : Type 0) : Type 0 where
  pub market_id : String
  pub ts : DateTime
  pub strategy : String
  pub side : String
  pub action : String
  pub quantity : F
  pub price : F
  pub cash_flow : F
  pub signal : Option F
  pub note : Option String

pub record Position (F : Type 0) : Type 0 where
  pub market_id : String
  pub strategy : String
  pub qty_yes : F
  pub qty_no : F
  pub cash : F
  pub realized_pnl : F
  pub settled : Bool

pub record GrangerRow (F : Type 0) : Type 0 where
  pub run_id : String
  pub market_id : String
  pub model_version : String
  pub direction : String
  pub lag_order : ℕ
  pub lag_criterion : String
  pub n_obs : ℕ
  pub f_statistic : F
  pub p_value : F
  pub p_value_adj : F
  pub significant : Bool
  pub adf_p_signal : Option F
  pub adf_p_price : Option F
  pub liquidity_control : Bool

-- `day` is CURRENT_DATE as a number
pub record BudgetRow : Type 0 where
  pub day : ℕ
  pub service : String
  pub reads_used : ℤ

pub record Database (F : Type 0) : Type 0 where
  pub markets : List MarketRow
  pub market_queries : List QueryRow
  pub posts : List Post
  pub stances : List (StanceRow F)
  pub signals : List (SignalPoint F)
  pub market_prices : List (PriceTick F)
  pub sim_prices : List (SimTick F)
  pub ledger_fills : List (FillRow F)
  pub positions : List (Position F)
  pub scores : List (ScoreRow F)
  pub granger_results : List (GrangerRow F)
  pub read_budget : List BudgetRow

-- the conflict targets
abbrev pub market_key : MarketRow → String
market_key r = r.market.market_id

abbrev source_code : PriceSource → ℕ
source_code candle = 0
source_code book = 1

abbrev term_code : TermType → ℕ
term_code keyword = 0
term_code ticker = 1
term_code entity = 2
term_code alias = 3
term_code exclude = 4

abbrev pub query_key : QueryRow → String × (ℕ × String)
query_key r = (r.market_id, (term_code r.term_type, r.term))

abbrev pub post_key : Post → String × (String × DateTime)
post_key p = (p.post_id, (p.market_id, p.created_at))

abbrev pub budget_key : BudgetRow → ℕ × String
budget_key r = (r.day, r.service)

module _ {F : Type 0} where
  abbrev pub stance_key : StanceRow F → String × (String × (String × DateTime))
  stance_key r =
      (r.scored.post_id, (r.scored.market_id, (r.scored.model_version, r.scored.created_at)))

  abbrev pub price_key : PriceTick F → String × (DateTime × ℕ)
  price_key t = (t.market_id, (t.ts, source_code t.source))

  abbrev pub signal_key : SignalPoint F → String × (DateTime × String)
  signal_key p = (p.market_id, (p.ts, p.model_version))

  abbrev pub sim_key : SimTick F → String × (DateTime × String)
  sim_key t = (t.market_id, (t.ts, t.run_id))

  abbrev pub position_key : Position F → String × String
  position_key p = (p.market_id, p.strategy)

  abbrev pub granger_key : GrangerRow F → String × (String × (String × String))
  granger_key r = (r.run_id, (r.market_id, (r.model_version, r.direction)))
