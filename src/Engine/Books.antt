-- ===== src/Engine/Books.antt =====
-- engine/lmsr.py: the books of the market maker over any sequence of calls.
use augury.Prelude.{
  ◌≡◌, refl, sym, ap, ◌∙◌, not, Option, List, [], ◌∷◌, ◌++◌, ok, value_error, >>=-eq-ok, raise_if,
}
use augury.Prelude.Float.{Float, py_div}
use augury.Engine.Trades.{ok-inj, step_from_signal-trade, move_to_price-trade}
use augury.Engine.{
  LmsrMarket, make_market, buy_yes, move_to_price, recalibrate, step_from_signal, validate,
  trade_cost,
}

module _ {F : Type 0} ⦃d : Float F⦄ where
  -- the costs of the history, added in the order of the trades
  abbrev pub total_from : F → List (F × F) → F
  total_from acc [] = acc
  total_from acc (t ∷ ts) = total_from (d.add acc t.1) ts

  -- the books after the trades `ts`, each with its shares and its cost
  abbrev pub IsBooked : List (F × F) → LmsrMarket F → Type 0
  IsBooked ts m = (m.history ≡ ts) × (m.realized_cost ≡ total_from (d.lit 0 0) ts)

  total_from-append :
      (acc : F) (ts : List (F × F)) (t : F × F)
      → total_from acc (ts ++ (t ∷ [])) ≡ d.add (total_from acc ts) t.1
  total_from-append acc [] t = refl
  total_from-append acc (u ∷ ts) t = total_from-append (d.add acc u.1) ts t

  buy_yes-eq :
      (shares paid : F) (m after : LmsrMarket F)
      → buy_yes shares m ≡ ok (paid, after)
      → (after.realized_cost ≡ d.add m.realized_cost paid)
        × (after.history ≡ m.history ++ ((shares, paid) ∷ []))
  unfolding buy_yes
  buy_yes-eq shares paid m after k =
      let (_, _, k1) = >>=-eq-ok (raise_if (not (d.is_finite shares)) value_error) _ k in
      let (cost, _, k2) =
        >>=-eq-ok (trade_cost (m.q_yes ∷ m.q_no ∷ []) (shares ∷ d.lit 0 0 ∷ []) m.b) _ k1 in
      let e = ok-inj k2 in
      let cost_is : cost ≡ paid = ap (λ x. x.0) e in
      let after_eq = ap (λ x. x.1) e in
      (
        sym (ap (λ x. x.realized_cost) after_eq) ∙ ap (d.add m.realized_cost) cost_is,
        sym (ap (λ x. x.history) after_eq) ∙ ap (λ c. m.history ++ ((shares, c) ∷ [])) cost_is,
      )

  buy_yes-IsBooked :
      (ts : List (F × F)) (shares paid : F) (m after : LmsrMarket F)
      → buy_yes shares m ≡ ok (paid, after)
      → IsBooked ts m
      → IsBooked (ts ++ ((shares, paid) ∷ [])) after
  buy_yes-IsBooked ts shares paid m after k h =
      let (cost_eq, history_eq) = buy_yes-eq shares paid m after k in
      (
        history_eq ∙ ap (λ l. l ++ ((shares, paid) ∷ [])) h.0,
        cost_eq
            ∙ ap (λ c. d.add c paid) h.1
            ∙ sym (total_from-append (d.lit 0 0) ts (shares, paid)),
      )

  recalibrate-IsBooked :
      (ts : List (F × F)) (new_b : F) (m after : LmsrMarket F)
      → recalibrate new_b m ≡ ok after
      → IsBooked ts m
      → IsBooked ts after
  unfolding recalibrate py_div
  recalibrate-IsBooked ts new_b m after k h =
      let (_, _, k1) = >>=-eq-ok (raise_if (d.le new_b (d.lit 0 0)) value_error) _ k in
      let (ratio, _, k2) = >>=-eq-ok (py_div new_b m.b) _ k1 in
      let e = ok-inj k2 in
      (sym (ap (λ x. x.history) e) ∙ h.0, sym (ap (λ x. x.realized_cost) e) ∙ h.1)

  -- the calls of a market maker that return, with the trades that they make: the shares and what the
  -- caller is told that they cost
  pub data Step : List (F × F) → LmsrMarket F → LmsrMarket F → Type 0 where
    bought :
        (shares paid : F) {m n : LmsrMarket F}
        → buy_yes shares m ≡ ok (paid, n)
        → Step ((shares, paid) ∷ []) m n
    moved :
        (target : F) (trade : F × F) {m n : LmsrMarket F}
        → move_to_price target m ≡ ok (trade, n)
        → Step (trade ∷ []) m n
    recalibrated : (new_b : F) {m n : LmsrMarket F} → recalibrate new_b m ≡ ok n → Step [] m n
    stepped :
        (target responsiveness : F) (limit : Option F) (trade : F × F) {m n : LmsrMarket F}
        → step_from_signal target responsiveness limit m ≡ ok (trade, n)
        → Step (trade ∷ []) m n

  -- a market that is reached from a new one, with the trades on the way
  pub data Reachable : List (F × F) → LmsrMarket F → Type 0 where
    opened : (b : F) {m : LmsrMarket F} → make_market b ≡ ok m → Reachable [] m
    followed :
        {ts us : List (F × F)} {m n : LmsrMarket F}
        → Reachable ts m
        → Step us m n
        → Reachable (ts ++ us) n

  ++-nil : (ts : List (F × F)) → ts ++ [] ≡ ts
  ++-nil [] = refl
  ++-nil (t ∷ ts) = ap (λ l. t ∷ l) (++-nil ts)

  Step-IsBooked :
      (ts : List (F × F)) {us : List (F × F)} {m n : LmsrMarket F}
      → Step us m n
      → IsBooked ts m
      → IsBooked (ts ++ us) n
  Step-IsBooked ts (bought shares paid {m} {n} e) h = buy_yes-IsBooked ts shares paid m n e h
  Step-IsBooked ts (moved target trade {m} {n} e) h =
      buy_yes-IsBooked ts trade.0 trade.1 m n (move_to_price-trade target trade m n e) h
  Step-IsBooked ts (recalibrated new_b {m} {n} e) h =
      rw (++-nil ts) (recalibrate-IsBooked ts new_b m n e h)
  Step-IsBooked ts (stepped target responsiveness limit trade {m} {n} e) h =
      buy_yes-IsBooked ts trade.0 trade.1 m n
        (step_from_signal-trade target responsiveness limit trade.0 trade.1 m n e).2 h

  -- In every market that is reached from a new one by trades, moves, recalibrations and signal steps,
  -- `history` is the list of the trades on the way, each with the shares and the cost that the call
  -- returned, in order, and `realized_cost` is the sum of these costs, added in that order: a
  -- recalibration of the liquidity charges nothing and forgets no trade.
  pub Reachable-IsBooked : {ts : List (F × F)} {m : LmsrMarket F} → Reachable ts m → IsBooked ts m
  unfolding make_market
  Reachable-IsBooked (opened b {m} e) =
      let (_, _, k) = >>=-eq-ok (validate (d.lit 0 0 ∷ d.lit 0 0 ∷ []) b) _ e in
      let made = ok-inj k in rw (sym made) (refl, refl)
  Reachable-IsBooked (followed {ts} r s) = Step-IsBooked ts s (Reachable-IsBooked r)
