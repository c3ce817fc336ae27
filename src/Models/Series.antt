-- ===== src/Models/Series.antt =====
-- The time series: posts, stances, signal points, price ticks and simulated ticks.
use augury.Prelude.{
  ℕ, String, Bool, true, false, not, ◌&&◌, Option, some, List, is_some, Result, ok, value_error,
  ◌>>◌, raise_if,
}
use augury.Prelude.Int.{ℤ}
use augury.Prelude.Float.{Float}
use augury.Models.Time.{DateTime}
use augury.Models.Enums.{FilterVerdict, accepted, PriceSource, Calibration}
use augury.Models.Listing.{differ}

pub record Post : Type 0 where
  pub post_id : String
  pub market_id : String
  pub created_at : DateTime
  pub text : String
  pub author_id : Option String
  pub author_created_at : Option DateTime
  pub followers : ℤ
  pub engagements : ℤ
  pub lang : Option String
  pub ingested_at : Option DateTime
  pub minhash : Option (List ℤ)
  pub lsh_bucket : Option String
  pub filter_verdict : FilterVerdict
  pub filter_reason : Option String
  pub source : String

abbrev pub verdict_accepted : FilterVerdict → Bool
verdict_accepted accepted = true
verdict_accepted _ = false

abbrev pub is_accepted : Post → Bool
is_accepted p = verdict_accepted p.filter_verdict

pub record Stance (F : Type 0) : Type 0 where
  pub post_id : String
  pub market_id : String
  pub created_at : DateTime
  pub model_version : String
  pub stance : F
  pub confidence : F
  pub disagreement : Option F

pub record SignalPoint (F : Type 0) : Type 0 where
  pub market_id : String
  pub ts : DateTime
  pub model_version : String
  pub s_t : F
  pub n_posts : ℕ
  pub weight_sum : F
  pub half_life_seconds : F
  pub p_hat : Option F
  pub calibration : Option Calibration
  pub computed_at : Option DateTime

pub record PriceTick (F : Type 0) : Type 0 where
  pub market_id : String
  pub ts : DateTime
  pub source : PriceSource
  pub yes_price : Option F
  pub yes_bid : Option F
  pub yes_ask : Option F
  pub spread : Option F
  pub depth_bid : Option F
  pub depth_ask : Option F
  pub volume : Option F
  pub fetched_at : Option DateTime

pub record SimTick (F : Type 0) : Type 0 where
  pub market_id : String
  pub ts : DateTime
  pub sim_price : F
  pub b : F
  pub q_yes : F
  pub q_no : F
  pub run_id : String
  pub cost : Option F
  pub trade_size : Option F
  pub signal : Option F

module _ {F : Type 0} ⦃d : Float F⦄ where
  -- `-1.0 <= x <= 1.0` and `0.0 <= x <= 1.0`
  abbrev pub in_signed_unit : F → Bool
  in_signed_unit x = d.le (d.neg (d.lit 1 0)) x && d.le x (d.lit 1 0)

  abbrev pub in_unit : F → Bool
  in_unit x = d.le (d.lit 0 0) x && d.le x (d.lit 1 0)

  unfoldable pub make_stance : Stance F → Result (Stance F)
  make_stance s = do
    raise_if (not (in_signed_unit s.stance)) value_error
    raise_if (not (in_unit s.confidence)) value_error
    ok s

  unfoldable pub make_signal_point : SignalPoint F → Result (SignalPoint F)
  make_signal_point p = do
    raise_if (not (in_signed_unit p.s_t)) value_error
    raise_if (differ (not (is_some p.p_hat)) (not (is_some p.calibration))) value_error
    ok p

  mid_of : Option F → Option F → Option F → Option F
  mid_of (some bid) (some ask) yes_price = some (d.div (d.add bid ask) (d.lit 2 0))
  mid_of _ _ yes_price = yes_price

  -- `PriceTick.mid`
  unfoldable pub mid : PriceTick F → Option F
  unfolding mid_of
  mid t = mid_of t.yes_bid t.yes_ask t.yes_price
