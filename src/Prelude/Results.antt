-- ===== src/Prelude/Results.antt =====
-- Python's exceptions as values. The message of an exception is not modelled.
use mathlib.Core.Path.{◌≡◌, refl, subst}
use mathlib.Core.Logic.{◌⊎◌, inl, inr}
use mathlib.Core.Bool.{Bool, true, false}

-- One constructor for each exception class that the modelled code raises or lets through.
pub data Error : Type 0 where
  value_error key_error runtime_error read_budget_exceeded http_error zero_division : Error
  overflow_error assertion_error import_error redis_error attribute_error type_error index_error :
      Error

-- What a call comes to: the exception that it raised, or the value that it returned.
pub data Result {ℓ} (A : Type ℓ) : Type ℓ where
  err : Error → Result A
  ok : A → Result A

-- A method that changes the state `S` and may raise. What was written before a raise stays.
abbrev pub Exec {ℓ} : Type ℓ → Type ℓ → Type ℓ
Exec S A = S → Result A × S

-- `if c: raise e`
abbrev pub raise_if : Bool → Error → Result (Unit {0})
raise_if false e = ok tt
raise_if true e = err e

-- the statements after a call, unless it raised
infixl 5 ◌>>=◌
abbrev pub ◌>>=◌ {ℓ₀ ℓ₁} :
    {S : Type ℓ₀} {T : Type ℓ₁} (call : Result S) (next : S → Result T) → Result T
err raised >>= rest = err raised
ok a >>= rest = rest a

infixl 5 ◌>>◌
abbrev pub ◌>>◌ {ℓ₁} : {T : Type ℓ₁} (check : Result (Unit {0})) (next : Result T) → Result T
check >> rest = check >>= λ done. rest

-- the value of a first call, when the two calls together returned
pub >>=-eq-ok {ℓ₀ ℓ₁} :
    {S : Type ℓ₀} {T : Type ℓ₁} (call : Result S) (next : S → Result T) {out : T}
    → (call >>= next) ≡ ok out
    → (mid : S) × (call ≡ ok mid) × (next mid ≡ ok out)
>>=-eq-ok (err raised) next returned = cc
>>=-eq-ok (ok mid) next returned = (mid, refl, returned)

pub Result-cases {ℓ} :
    {A : Type ℓ} (r : Result A) → ((e : Error) × (r ≡ err e)) ⊎ ((a : A) × (r ≡ ok a))
Result-cases (ok a) = inr (a, refl)
Result-cases (err e) = inl (e, refl)

-- the value, if there is one, satisfies `P`
abbrev pub IsPost {ℓ κ} : {A : Type ℓ} → (A → Type κ) → Result A → Type κ
IsPost P (err e) = Unit
IsPost P (ok a) = P a

module _ {ℓ κ} {T : Type ℓ} (P : T → Type κ) where
  pub IsPost->>= {ℓ₀} :
      {S : Type ℓ₀} (call : Result S) (next : S → Result T)
      → ((s : S) → IsPost P (next s))
      → IsPost P (call >>= next)
  IsPost->>= (err e) next h = tt
  IsPost->>= (ok s) next h = h s

  pub IsPost-ok : (r : Result T) (a : T) → IsPost P r → r ≡ ok a → P a
  IsPost-ok (ok b) a h e = subst (IsPost P) e h
  IsPost-ok (err raised) a h e = cc

  -- the same, with what the call promises of its value
  pub IsPost-after {ℓ₀ κ₀} :
      {S : Type ℓ₀} (Q : S → Type κ₀) (call : Result S) (next : S → Result T)
      → IsPost Q call
      → ((s : S) → Q s → IsPost P (next s))
      → IsPost P (call >>= next)
  IsPost-after Q (err e) next q h = tt
  IsPost-after Q (ok s) next q h = h s q

  -- the statements after a check see what it let through
  pub IsPost-unless :
      (b : Bool) (e : Error) (next : Result T)
      → (b ≡ false → IsPost P next)
      → IsPost P (raise_if b e >> next)
  IsPost-unless true e next h = tt
  IsPost-unless false e next h = h refl
