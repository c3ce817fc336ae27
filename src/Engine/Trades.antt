-- ===== src/Engine/Trades.antt =====
-- engine/lmsr.py: a successful move or step is one trade.
use augury.Prelude.{
  ◌≡◌, sym, ap, ◌∙◌, not, ◌&&◌, Option, Result, ok, value_error, >>=-eq-ok, raise_if,
}
use augury.Prelude.Float.{Float}
use augury.Signal.{logit, eps, clamp_probability}
use augury.Engine.{
  LmsrMarket, buy_yes, move_to_price, capped, step_from_signal, price, shares_to_move_price,
}

pub ok-inj : {A : Type 0} {x y : A} → ok x ≡ ok y → x ≡ y
ok-inj h = cc

pub trade-inj :
    {A B C : Type 0} {s : A} {t : B × C} {shares : A} {paid : B} {rest : C}
    → Path (Result ((A × B) × C)) (ok ((s, t.0), t.1)) (ok ((shares, paid), rest))
    → (s ≡ shares) × (t ≡ (paid, rest))
trade-inj h = let e = ok-inj h in (ap (λ x. x.0.0) e, ap (λ x. (x.0.1, x.1)) e)

module _ {F : Type 0} ⦃d : Float F⦄ where
  -- what a successful call did before it returned
  pub step_from_signal-trade :
      (p_target responsiveness : F) (limit : Option F) (shares paid : F) (m after : LmsrMarket F)
      → step_from_signal p_target responsiveness limit m ≡ ok ((shares, paid), after)
      → (gap : F) × (capped limit gap ≡ ok shares) × (buy_yes shares m ≡ ok (paid, after))
  unfolding step_from_signal
  step_from_signal-trade p_target responsiveness limit shares paid m after k =
      let (_, _, k1) =
        >>=-eq-ok
          (raise_if (not (d.lt (d.lit 0 0) responsiveness && d.le responsiveness (d.lit 1 0)))
            value_error)
          _ k in
      let (to, _, k2) = >>=-eq-ok (logit (clamp_probability p_target eps) eps) _ k1 in
      let (p, _, k3) = >>=-eq-ok (price m) _ k2 in
      let (from, _, k4) = >>=-eq-ok (logit p eps) _ k3 in
      let gap = d.mul (d.mul m.b (d.sub to from)) responsiveness in
      let (s, s_eq, k5) = >>=-eq-ok (capped limit gap) _ k4 in
      let (traded, b_eq, k6) = >>=-eq-ok (buy_yes s m) _ k5 in
      let (s_is, traded_is) = trade-inj k6 in
      (gap, rw s_is at s_eq, ap (λ x. buy_yes x m) (sym s_is) ∙ b_eq ∙ ap ok traded_is)

  pub move_to_price-trade :
      (target : F) (trade : F × F) (m after : LmsrMarket F)
      → move_to_price target m ≡ ok (trade, after)
      → buy_yes trade.0 m ≡ ok (trade.1, after)
  unfolding move_to_price
  move_to_price-trade target trade m after k =
      let (p, _, k1) = >>=-eq-ok (price m) _ k in
      let (s, _, k2) = >>=-eq-ok (shares_to_move_price p (clamp_probability target eps) m.b) _ k1 in
      let (traded, b_eq, k3) = >>=-eq-ok (buy_yes s m) _ k2 in
      let (s_is, traded_is) = trade-inj k3 in
      ap (λ x. buy_yes x m) (sym s_is) ∙ b_eq ∙ ap ok traded_is
