-- ===== src/Tests/Engines.antt =====
-- The market maker.
use native.Mathlib.Nat.{le-div_iff_mul-le}
use augury.Prelude.{
  ◌-◌, ◌*◌, ◌/◌, ℕ, zero, suc, ◌≤◌, ◌≡◌, refl, Bool, true, false, Option, none, some, List, [], ◌∷◌,
  arith, Result, ok,
}
use augury.Prelude.Int.{ℤ, pos, negsuc, ◌+ℤ◌, ◌-ℤ◌}
use augury.Prelude.Micro.{micro, micro-IsOrdered}
use augury.Prelude.Float.{◌≼◌}
use augury.Engine.{mean, LmsrMarket, make_market, buy_yes, step_from_signal, calibrate_b_from_depth}
use augury.Engine.Laws.{
  CountsNonzero, IsLogitSafe, IsCalibrated, calibrate_b_from_depth-ok, step_from_signal-capped,
}
use augury.Engine.Books.{opened, followed, bought, IsBooked, Reachable-IsBooked}

counts : CountsNonzero ℤ
counts n = ground arith

abbrev flat : LmsrMarket ℤ
flat = record {
  b = pos 100_000_000;
  q_yes = pos 0;
  q_no = pos 0;
  realized_cost = pos 0;
  history = [];
}

sub_pos : (n : ℕ) → n ≤ 999_999 → pos 1_000_000 -ℤ pos n ≡ pos (1_000_000 - n)
unfolding ◌-ℤ◌ ◌+ℤ◌
sub_pos n h = ground (arith, h)

micro-is_proper :
    (q : ℤ)
    → pos 1 ≼ q
    → q ≼ pos 999_999
    → (micro.eq (micro.sub (micro.lit 1 0) q) (micro.lit 0 0) ≡ false)
      × (micro.le (micro.div q (micro.sub (micro.lit 1 0) q)) (micro.lit 0 0) ≡ false)
micro-is_proper (pos n) low high =
    let within : n ≤ 999_999 = ground (arith, high) in
    let enough : 1 ≤ n * 1_000_000 / (1_000_000 - n) =
      (le-div_iff_mul-le (omega (arith, within))).1 (ground (arith, low)) in
    rw (sub_pos n within) (ground (arith, within), ground (arith, enough))
micro-is_proper (negsuc n) low high = absurd (ground (arith, low))

micro-IsLogitSafe : IsLogitSafe ℤ
unfolding ◌-ℤ◌
micro-IsLogitSafe = record { is_band = refl; is_proper = micro-is_proper }

calibrate_b_from_depth-ok_example :
    IsCalibrated micro-IsOrdered (pos 60_000_000 ∷ pos 40_000_000 ∷ []) (pos 100_000_000) (
      calibrate_b_from_depth
        (some (pos 40_000_000))
        (some (pos 60_000_000))
        (some (pos 400_000))
        (some (pos 600_000))
        mean
        (pos 100_000_000))
calibrate_b_from_depth-ok_example =
    calibrate_b_from_depth-ok micro-IsOrdered counts micro-IsLogitSafe (some (pos 40_000_000))
      (some (pos 60_000_000)) (some (pos 400_000)) (some (pos 600_000)) mean (pos 100_000_000) refl
      refl

abbrev traded : LmsrMarket ℤ
traded = record {
  b = pos 100_000_000;
  q_yes = pos 10_000_000;
  q_no = pos 0;
  realized_cost = pos 0;
  history = (pos 10_000_000, pos 0) ∷ [];
}

abbrev stepped_once : LmsrMarket ℤ
stepped_once = record traded { q_yes = pos 5_000_000; history = (pos 5_000_000, pos 0) ∷ [] }

Reachable-IsBooked_example : IsBooked ((pos 10_000_000, pos 0) ∷ []) traded
unfolding make_market buy_yes augury.Prelude.Float.py_div ◌+ℤ◌ ◌-ℤ◌ augury.Prelude.Float.math_exp
    augury.Prelude.Float.math_log
Reachable-IsBooked_example = Reachable-IsBooked ⦃d = micro⦄ {m = traded} (
    followed (opened (pos 100_000_000) {m = flat} refl)
      (bought (pos 10_000_000) (pos 0) {m = flat} {n = traded} refl))

step_from_signal-capped_example :
    (micro.neg (pos 5_000_000) ≼ pos 5_000_000)
    × (pos 5_000_000 ≼ pos 5_000_000)
    × (buy_yes (pos 5_000_000) flat ≡ ok (pos 0, stepped_once))
unfolding step_from_signal ◌-ℤ◌ augury.Prelude.Float.py_div augury.Prelude.Float.math_log
    augury.Prelude.Float.math_exp ◌+ℤ◌
step_from_signal-capped_example =
    step_from_signal-capped micro-IsOrdered (pos 700_000) (pos 500_000) (pos 5_000_000)
      (pos 5_000_000) (pos 0) flat stepped_once refl refl
