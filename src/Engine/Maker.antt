-- ===== src/Engine/Maker.antt =====
-- engine/lmsr.py: the class `LMSRMarket`. A method changes the fields before it raises or not at all, so
-- it is a function from the market to a result and the market after it.
use augury.Prelude.{
  not, ◌&&◌, Option, none, some, List, [], ◌∷◌, ◌++◌, Result, ok, value_error, ◌>>=◌, ◌>>◌,
  raise_if,
}
use augury.Prelude.Float.{Float, py_div, py_min, py_max}
use augury.Signal.{logit, eps, clamp_probability}
use augury.Engine.Lmsr.{validate, price_yes, cost, trade_cost, shares_to_move_price}

pub record LmsrMarket (F : Type 0) : Type 0 where
  pub b : F
  pub q_yes : F
  pub q_no : F
  pub realized_cost : F
  pub history : List (F × F)

module _ {F : Type 0} ⦃d : Float F⦄ where
  unfoldable pub make_market : F → Result (LmsrMarket F)
  unfolding validate
  make_market b = do
    let nought = d.lit 0 0
    validate (nought ∷ nought ∷ []) b
    ok (record { b = b; q_yes = nought; q_no = nought; realized_cost = nought; history = [] })

  unfoldable pub price : LmsrMarket F → Result F
  unfolding price_yes
  price m = price_yes m.q_yes m.q_no m.b

  unfoldable pub cost_value : LmsrMarket F → Result F
  unfolding cost
  cost_value m = cost (m.q_yes ∷ m.q_no ∷ []) m.b

  -- the market after a trade, and the cost paid
  unfoldable pub buy_yes : F → LmsrMarket F → Result (F × LmsrMarket F)
  unfolding trade_cost
  buy_yes shares m = do
    raise_if (not (d.is_finite shares)) value_error
    paid ← trade_cost (m.q_yes ∷ m.q_no ∷ []) (shares ∷ d.lit 0 0 ∷ []) m.b
    let after : LmsrMarket F = record {
      b = m.b;
      q_yes = d.add m.q_yes shares;
      q_no = m.q_no;
      realized_cost = d.add m.realized_cost paid;
      history = m.history ++ ((shares, paid) ∷ []);
    }
    ok (paid, after)

  unfoldable pub move_to_price : F → LmsrMarket F → Result ((F × F) × LmsrMarket F)
  unfolding clamp_probability price shares_to_move_price buy_yes
  move_to_price target m = do
    p ← price m
    shares ← shares_to_move_price p (clamp_probability target eps) m.b
    (paid, after) ← buy_yes shares m
    ok ((shares, paid), after)

  unfoldable pub recalibrate : F → LmsrMarket F → Result (LmsrMarket F)
  recalibrate new_b m = do
    raise_if (d.le new_b (d.lit 0 0)) value_error
    ratio ← py_div new_b m.b
    let after : LmsrMarket F = record {
      b = new_b;
      q_yes = d.mul (d.sub m.q_yes m.q_no) ratio;
      q_no = d.lit 0 0;
      realized_cost = m.realized_cost;
      history = m.history;
    }
    ok after

  -- `max(-max_shares, min(max_shares, shares))`, when there is a cap
  unfoldable pub capped : Option F → F → Result F
  capped none shares = ok shares
  capped (some max_shares) shares = do
    raise_if (d.lt max_shares (d.lit 0 0)) value_error
    ok (py_max (d.neg max_shares) (py_min max_shares shares))

  unfoldable pub step_from_signal :
      F → F → Option F → LmsrMarket F → Result ((F × F) × LmsrMarket F)
  unfolding clamp_probability logit price capped buy_yes
  step_from_signal p_target responsiveness max_shares m = do
    raise_if (not (d.lt (d.lit 0 0) responsiveness && d.le responsiveness (d.lit 1 0))) value_error
    to ← logit (clamp_probability p_target eps) eps
    p ← price m
    from ← logit p eps
    shares ← capped max_shares (d.mul (d.mul m.b (d.sub to from)) responsiveness)
    (paid, after) ← buy_yes shares m
    ok ((shares, paid), after)
