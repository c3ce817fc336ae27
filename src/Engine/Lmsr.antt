-- ===== src/Engine/Lmsr.antt =====
-- engine/lmsr.py: the cost function, the prices and the trades.
use augury.Prelude.{
  ℕ, not, List, [], ◌∷◌, if◌then◌else◌, Result, ok, err, value_error, ◌>>=◌, ◌>>◌, raise_if, length,
  ltb, nat_eq, any,
}
use augury.Prelude.Int.{pos}
use augury.Prelude.Float.{Float, py_div, math_exp, math_log}
use augury.Signal.{logit, maximum, eps}

module _ {F : Type 0} ⦃d : Float F⦄ where
  -- `[math.exp(v - peak) for v in values]`
  unfoldable pub exps : F → List F → Result (List F)
  exps peak [] = ok []
  exps peak (v ∷ vs) = do e ← math_exp (d.sub v peak); es ← exps peak vs; ok (e ∷ es)

  log_sum_exp_from : F → List F → Result F
  unfolding exps
  log_sum_exp_from peak values =
      if d.eq peak (d.neg d.inf)
      then ok (d.neg d.inf)
      else do es ← exps peak values; l ← math_log (d.fsum es); ok (d.add peak l)

  unfoldable pub log_sum_exp : List F → Result F
  unfolding log_sum_exp_from maximum
  log_sum_exp [] = err value_error
  log_sum_exp (v ∷ vs) = log_sum_exp_from (maximum v vs) (v ∷ vs)

  unfoldable pub validate : List F → F → Result (Unit {0})
  validate q b = do
    raise_if (ltb (length q) 2) value_error
    raise_if (d.le b (d.lit 0 0)) value_error
    raise_if (any (λ x. not (d.is_finite x)) q) value_error

  -- `[x / b for x in q]`
  unfoldable pub scaled : List F → F → Result (List F)
  scaled [] b = ok []
  scaled (x ∷ q) b = do v ← py_div x b; vs ← scaled q b; ok (v ∷ vs)

  unfoldable pub cost : List F → F → Result F
  unfolding validate scaled log_sum_exp
  cost q b = do validate q b; vs ← scaled q b; l ← log_sum_exp vs; ok (d.mul b l)

  -- `[e / total for e in exps]`
  unfoldable pub shares_of : F → List F → Result (List F)
  shares_of total [] = ok []
  shares_of total (e ∷ es) = do p ← py_div e total; ps ← shares_of total es; ok (p ∷ ps)

  prices_from : List F → Result (List F)
  unfolding exps shares_of maximum
  prices_from [] = err value_error
  prices_from (v ∷ vs) = do es ← exps (maximum v vs) (v ∷ vs); shares_of (d.fsum es) es

  unfoldable pub prices : List F → F → Result (List F)
  unfolding validate scaled prices_from
  prices q b = do validate q b; vs ← scaled q b; prices_from vs

  unfoldable pub price_yes : F → F → F → Result F
  unfolding validate
  price_yes q_yes q_no b = do
    validate (q_yes ∷ q_no ∷ []) b
    z ← py_div (d.sub q_yes q_no) b
    if d.le (d.lit 0 0) z
        then (do e ← math_exp (d.neg z); py_div (d.lit 1 0) (d.add (d.lit 1 0) e))
        else do e ← math_exp z; py_div e (d.add (d.lit 1 0) e)

  -- `[a + d for a, d in zip(q, dq, strict=True)]`, for lists of one length
  abbrev pub add_all : List F → List F → List F
  add_all (a ∷ q) (x ∷ dq) = d.add a x ∷ add_all q dq
  add_all _ _ = []

  unfoldable pub trade_cost : List F → List F → F → Result F
  unfolding cost
  trade_cost q dq b = do
    raise_if (not (nat_eq (length q) (length dq))) value_error
    after ← cost (add_all q dq) b
    before ← cost q b
    ok (d.sub after before)

  unfoldable pub shares_to_move_price : F → F → F → Result F
  unfolding logit
  shares_to_move_price p_from p_to b = do
    raise_if (d.le b (d.lit 0 0)) value_error
    to ← logit p_to eps
    from ← logit p_from eps
    ok (d.mul b (d.sub to from))

  unfoldable pub worst_case_subsidy : ℕ → F → Result F
  worst_case_subsidy n_outcomes b = do
    raise_if (ltb n_outcomes 2) value_error
    raise_if (d.le b (d.lit 0 0)) value_error
    l ← math_log (d.float (pos n_outcomes))
    ok (d.mul b l)
