-- ===== src/Prelude/Float.antt =====
-- Python's `float`. Its arithmetic is not defined in the program, so the operations are an interface,
-- and the laws that a theorem relies on are the fields of `IsOrdered`.
use Prim.Native.Nat.{ℕ, ◌≤◌}
use mathlib.Core.Path.{◌≡◌}
use mathlib.Core.Bool.{Bool, true, false}
use mathlib.Core.Option.{Option, none, some}
use mathlib.Core.List.{List}
use native.Mathlib.Omega.{arith}
use augury.Prelude.Tests.{if◌then◌else◌}
use augury.Prelude.Results.{Error, Result, ok, err, zero_division, overflow_error, value_error}
use augury.Prelude.Int.{ℤ}

pub record Float (F : Type 0) : Type 0 where
  -- the literal m / 10 ^ e
  pub lit : ℕ → ℕ → F
  -- `float(n)` of an int, and the ints that are too large for a float
  pub float : ℤ → F
  pub is_huge : ℤ → Bool
  pub add : F → F → F
  pub sub : F → F → F
  pub mul : F → F → F
  pub div : F → F → F
  pub neg : F → F
  pub abs : F → F
  pub lt : F → F → Bool
  pub le : F → F → Bool
  pub eq : F → F → Bool
  pub is_finite : F → Bool
  -- `math.exp`, with `none` for OverflowError, and `math.log`, `math.log1p`
  pub exp : F → Option F
  pub ln : F → F
  pub ln_1p : F → F
  -- `math.fsum`, and the exception that it raises on terms that are infinite or too large
  pub fsum : List F → F
  pub fsum_error : List F → Option Error
  pub inf : F

infix 4 ◌≼◌
abbrev pub ◌≼◌ : {F : Type 0} ⦃d : Float F⦄ → F → F → Type 0
◌≼◌ ⦃d⦄ x y = d.le x y ≡ true

-- IEEE comparisons: NaN is the value that is not `<=` itself, and literals are rounded monotonically.
pub record IsOrdered (F : Type 0) ⦃d : Float F⦄ : Type 0 where
  pub le_of_lt : (x y : F) → d.lt x y ≡ true → x ≼ y
  pub le_trans : (x y z : F) → x ≼ y → y ≼ z → x ≼ z
  pub refl_of_le : (x y : F) → x ≼ y → (x ≼ x) × (y ≼ y)
  pub le_of_not_lt : (x y : F) → x ≼ x → y ≼ y → d.lt x y ≡ false → y ≼ x
  pub not_le_of_lt : (x y : F) → d.lt x y ≡ true → d.le y x ≡ false
  pub le_of_eq : (x y : F) → d.eq x y ≡ true → x ≼ y
  pub not_one_le_zero : d.le (d.lit 1 0) (d.lit 0 0) ≡ false
  pub neg_one_le_one : d.neg (d.lit 1 0) ≼ d.lit 1 0
  pub lit-le : (m n e : ℕ) → m ≤ n → d.lit m e ≼ d.lit n e

module _ {F : Type 0} ⦃d : Float F⦄ where
  -- Python's `max(x, y)` and `min(x, y)`: the first argument unless the second is better
  abbrev pub py_max : F → F → F
  py_max x y = if d.lt x y then y else x

  abbrev pub py_min : F → F → F
  py_min x y = if d.lt y x then y else x

  -- `x / y`, `math.exp(x)` and `math.log(x)` with the exceptions that they raise
  unfoldable pub py_div : F → F → Result F
  py_div x y = if d.eq y (d.lit 0 0) then err zero_division else ok (d.div x y)

  -- `float(n)` of an int
  unfoldable pub float_of_int : ℤ → Result F
  float_of_int z = if d.is_huge z then err overflow_error else ok (d.float z)

  -- `math.fsum(xs)`; the callers that bound each term by 1.0 use `fsum` itself
  unfoldable pub math_fsum : List F → Result F
  math_fsum xs = elim (d.fsum_error xs) [ none ↦ ok (d.fsum xs) | some e ↦ err e ]

  raise_overflow : Option F → Result F
  raise_overflow none = err overflow_error
  raise_overflow (some y) = ok y

  unfoldable pub math_exp : F → Result F
  unfolding raise_overflow
  math_exp x = raise_overflow (d.exp x)

  unfoldable pub math_log : F → Result F
  math_log x = if d.le x (d.lit 0 0) then err value_error else ok (d.ln x)

  module _ (laws : IsOrdered F) where
    open laws use {le_of_lt, le_trans, refl_of_le, lit-le}

    -- `min(hi, max(lo, x))` lies in the range whatever `x` is, NaN included.
    pub clamp_bounds :
        (lo hi x : F) → lo ≼ hi → (lo ≼ py_min hi (py_max lo x)) × (py_min hi (py_max lo x) ≼ hi)
    clamp_bounds lo hi x h =
        ground (arith, le_of_lt lo x, le_of_lt x hi, le_of_lt lo hi, refl_of_le lo hi)
