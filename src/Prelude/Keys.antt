-- ===== src/Prelude/Keys.antt =====
-- The keys of tables and dictionaries: a Boolean equality that decides `≡`, for texts, numbers and
-- the tuples of such that the SQL constraints name.
use Prim.Native.Nat.{ℕ}
use Prim.Native.String.{String}
use mathlib.Core.Path.{◌≡◌, refl}
use mathlib.Core.Logic.{◌↔◌}
use mathlib.Core.Bool.{Bool, true, ◌&&◌}
use native.Mathlib.Omega.{arith}
use text.Mathlib.Text.{◌==◌ as str_eq}
use text.Mathlib.TextEquality.{eq_iff}
use augury.Prelude.Tests.{nat_eq, nat_eq_iff}

pub record Key {ℓ} (A : Type ℓ) : Type ℓ where
  pub beq : A → A → Bool
  pub beq_iff : (a b : A) → (beq a b ≡ true) ↔ (a ≡ b)

instance abbrev pub string_key : Key String
string_key = record { beq_iff = eq_iff; beq = str_eq }

instance abbrev pub nat_key : Key ℕ
nat_key = record { beq_iff = nat_eq_iff; beq = nat_eq }

-- `a == b` on keys
infix 50 ◌==◌
abbrev pub ◌==◌ {ℓ} : {A : Type ℓ} ⦃key : Key A⦄ → A → A → Bool
◌==◌ ⦃key⦄ a b = key.beq a b

pub pair_beq_iff :
    {A B : Type 0} (k : Key A) (l : Key B) (a b : A × B)
    → ((k.beq a.0 b.0 && l.beq a.1 b.1) ≡ true) ↔ (a ≡ b)
pair_beq_iff k l a b = ground (arith, k.beq_iff a.0 b.0, l.beq_iff a.1 b.1)

instance abbrev pub pair_key : {A B : Type 0} ⦃k : Key A⦄ ⦃l : Key B⦄ → Key (A × B)
pair_key ⦃k⦄ ⦃l⦄ = record {
  beq = λ a b. k.beq a.0 b.0 && l.beq a.1 b.1;
  beq_iff = pair_beq_iff k l;
}

pub ==_refl {ℓ} : {A : Type ℓ} ⦃k : Key A⦄ (a : A) → (a == a) ≡ true
==_refl ⦃k⦄ a = (k.beq_iff a a).1 refl
