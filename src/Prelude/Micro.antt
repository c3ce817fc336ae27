-- ===== src/Prelude/Micro.antt =====
-- Fixed-point numbers with six decimals, an instance of `Float` that the examples compute with. `exp` and
-- `ln` are first-order stand-ins.
use augury.Prelude.Tests.{if◌then◌else◌, ltb, leb}
use augury.Prelude.Int.{ℤ, pos, negsuc, ◌+ℤ◌, ◌-ℤ◌, pos_part, neg_part}
use augury.Prelude.Float.{Float, IsOrdered}
use Prim.Native.Nat.{ℕ, zero, suc, ◌+◌, ◌*◌, ◌/◌, ◌≤◌}
use mathlib.Core.Path.{◌≡◌, refl}
use mathlib.Core.Bool.{Bool, true, false, ◌&&◌}
use mathlib.Core.Option.{none, some}
use mathlib.Core.List.{List, [], ◌∷◌}
use native.Mathlib.Omega.{arith}

abbrev pub one : ℕ
one = 1_000_000

-- the literals that the program has: whole numbers, tenths, hundredths and millionths, and smaller ones
abbrev of_literal : ℕ → ℕ → ℤ
of_literal m zero = pos (m * 1_000_000)
of_literal m (suc zero) = pos (m * 100_000)
of_literal m (suc (suc zero)) = pos (m * 10_000)
of_literal m (suc (suc (suc e))) = pos m

abbrev negate : ℤ → ℤ
negate a = pos 0 -ℤ a

abbrev magnitude : ℤ → ℕ
magnitude a = pos_part a + neg_part a

abbrev with_sign : ℤ → ℤ → ℕ → ℤ
with_sign (pos a) (pos b) n = pos n
with_sign (negsuc a) (negsuc b) n = pos n
with_sign a b n = negate (pos n)

abbrev le : ℤ → ℤ → Bool
le a b = leb (pos_part a + neg_part b) (pos_part b + neg_part a)

abbrev lt : ℤ → ℤ → Bool
lt a b = ltb (pos_part a + neg_part b) (pos_part b + neg_part a)

abbrev total : List ℤ → ℤ
total [] = pos 0
total (x ∷ xs) = x +ℤ total xs

instance abbrev pub micro : Float ℤ
micro = record {
  lit = of_literal;
  float = λ a. with_sign a (pos 1) (magnitude a * 1_000_000);
  is_huge = λ a. false;
  add = λ a b. a +ℤ b;
  sub = λ a b. a -ℤ b;
  mul = λ a b. with_sign a b (magnitude a * magnitude b / 1_000_000);
  div = λ a b. with_sign a b (magnitude a * 1_000_000 / magnitude b);
  neg = negate;
  abs = λ a. pos (magnitude a);
  lt = lt;
  le = le;
  eq = λ a b. le a b && le b a;
  is_finite = λ a. true;
  exp = λ a. some (if le (pos 0) (pos 1_000_000 +ℤ a) then pos 1_000_000 +ℤ a else pos 0);
  ln = λ a. a -ℤ pos 1_000_000;
  ln_1p = λ a. a;
  fsum = total;
  fsum_error = λ xs. none;
  inf = pos 1_000_000_000_000;
}

pub micro-IsOrdered : IsOrdered ℤ
unfolding ◌-ℤ◌
micro-IsOrdered = record {
  le_of_lt = λ x y h. ground (arith, h);
  le_trans = λ x y z h k. ground (arith, h, k);
  refl_of_le = λ x y h. ground arith;
  le_of_not_lt = λ x y h k e. ground (arith, e);
  not_le_of_lt = λ x y h. ground (arith, h);
  le_of_eq = λ x y h. ground (arith, h);
  not_one_le_zero = refl;
  neg_one_le_one = refl;
  lit-le = literals;
}
  where
    literals : (m n e : ℕ) → m ≤ n → le (of_literal m e) (of_literal n e) ≡ true
    literals m n zero h = ground (arith, h)
    literals m n (suc zero) h = ground (arith, h)
    literals m n (suc (suc zero)) h = ground (arith, h)
    literals m n (suc (suc (suc e))) h = ground (arith, h)
