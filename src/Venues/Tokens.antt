-- ===== src/Venues/Tokens.antt =====
-- Which token `yes_token_id` answers with.
use augury.Prelude.{
  ℕ, zero, suc, String, false, some, List, [], ◌∷◌, map, ◌≡◌, refl, ◌↔◌, Result, ok, not,
  value_error, raise_if, ◌>>=◌, ◌>>◌, >>=-eq-ok, inl, inr, arith, Bool-cases, length, take, All,
  eq_iff, nat_eq_iff,
}
use augury.Prelude.Float.{Float}
use augury.Prelude.Keys.{◌==◌, string_key, nat_key}
use augury.Prelude.Json.{Builtins, str, or_else, entry, null, object, Fields, get_or}
use augury.Pipeline.{get_elem?}
use augury.Engine.Trades.{ok-inj}
use augury.Venues.Polymarket.{token_of_yes, yes_token_id, json_field, outcome_names}

-- the token stands where the first "yes" stands
abbrev pub IsAtYes : List String → List String → String → Type 0
IsAtYes names tokens token =
    (i : ℕ) × (get_elem? names i ≡ some "yes")
    × (get_elem? tokens i ≡ some token)
    × All (λ n. (n == "yes") ≡ false) (take i names)

token_of_yes-IsAtYes :
    (names tokens : List String) (token : String)
    → token_of_yes names tokens ≡ ok token
    → IsAtYes names tokens token
unfolding token_of_yes
token_of_yes-IsAtYes [] tokens token h = cc
token_of_yes-IsAtYes (name ∷ names) [] token h = cc
token_of_yes-IsAtYes (name ∷ names) (t ∷ tokens) token h = elim (Bool-cases (name == "yes")) [
  | inl e ↦ (zero, ground (arith, e, h, eq_iff name "yes"), ground (arith, e, h), tt)
  | inr e ↦
      let (i, a, b, c) = token_of_yes-IsAtYes names tokens token (rw e at h) in
      (suc i, a, b, (e, c))
]

token_of_yes-at :
    (names tokens : List String) (token : String) (i : ℕ)
    → get_elem? names i ≡ some "yes"
    → get_elem? tokens i ≡ some token
    → All (λ n. (n == "yes") ≡ false) (take i names)
    → token_of_yes names tokens ≡ ok token
unfolding token_of_yes
token_of_yes-at [] tokens token i a b c = cc
token_of_yes-at (name ∷ names) [] token i a b c = cc
token_of_yes-at (name ∷ names) (t ∷ tokens) token zero a b c = ground (arith, eq_iff name "yes")
token_of_yes-at (name ∷ names) (t ∷ tokens) token (suc i) a b c =
    rw c.0 (token_of_yes-at names tokens token i a b c.1)

length-found :
    (tokens : List String) (token : String) (i : ℕ)
    → get_elem? tokens i ≡ some token
    → (length tokens == 0) ≡ false
length-found [] token i h = cc
length-found (t ∷ tokens) token i h = ground arith

-- what follows the two lists
abbrev choose : List String → List String → Result String
choose names tokens = do
  raise_if (length tokens == 0) value_error
  raise_if (not (length names == length tokens)) value_error
  token_of_yes names tokens

choose-IsAtYes :
    (names tokens : List String) (token : String)
    → choose names tokens ≡ ok token
    → (length names ≡ length tokens) × IsAtYes names tokens token
choose-IsAtYes names tokens token h = elim (Bool-cases (length tokens == 0)) [
  | inl e ↦ let no = rw e at h in cc
  | inr e ↦ elim (Bool-cases (length names == length tokens)) [
    | inr f ↦ let no = rw (e, f) at h in cc
    | inl f ↦ ((nat_eq_iff _ _).0 f, token_of_yes-IsAtYes names tokens token (rw (e, f) at h))
  ]
]

module _ {F : Type 0} ⦃d : Float F⦄ ⦃py : Builtins F⦄ where
  -- the names of the outcomes, stripped and in lower case, and the tokens, or what json.loads raises
  abbrev pub names_of : Fields F → Result (List String)
  names_of fs = do xs ← json_field (or_else (entry fs "outcomes") null); ok (outcome_names xs)

  abbrev pub tokens_of : Fields F → Result (List String)
  tokens_of fs = do xs ← json_field (or_else (entry fs "clobTokenIds") null); ok (map str xs)

  -- the token of the YES outcome, of as many names as tokens
  abbrev pub IsYesToken : Fields F → String → Type 0
  IsYesToken fs token =
      (names tokens : List String) × (names_of fs ≡ ok names)
      × (tokens_of fs ≡ ok tokens)
      × (length names ≡ length tokens)
      × IsAtYes names tokens token

  yes_token_id_sound :
      (fs : Fields F) (token : String) → yes_token_id (object fs) ≡ ok token → IsYesToken fs token
  unfolding yes_token_id get_or
  yes_token_id_sound fs token h =
      let (xs, read_names, h₁) = >>=-eq-ok (json_field (or_else (entry fs "outcomes") null)) _ h in
      let (ys, read_tokens, h₂) =
        >>=-eq-ok (json_field (or_else (entry fs "clobTokenIds") null)) _ h₁ in
      let (same, found) = choose-IsAtYes (outcome_names xs) (map str ys) token h₂ in
      (outcome_names xs, map str ys, rw read_names refl, rw read_tokens refl, same, found)

  -- `yes_token_id` returns a token exactly if the two lists can be read, there are as many outcomes as tokens,
  -- and the token stands at the place of the first outcome that reads "yes" once it is stripped and in lower
  -- case.
  pub yes_token_id-IsAtYes_iff :
      (fs : Fields F) (token : String) → (yes_token_id (object fs) ≡ ok token) ↔ IsYesToken fs token
  unfolding yes_token_id get_or
  yes_token_id-IsAtYes_iff fs token = (
    yes_token_id_sound fs token,
    λ (names, tokens, names_eq, tokens_eq, same, (i, at_yes, at_token, before)).
        let (xs, read_names, e) =
          >>=-eq-ok (json_field (or_else (entry fs "outcomes") null)) _ names_eq in
        let (ys, read_tokens, f) =
          >>=-eq-ok (json_field (or_else (entry fs "clobTokenIds") null)) _ tokens_eq in
        rw
          (
            read_names,
            read_tokens,
            ok-inj e,
            ok-inj f,
            length-found tokens token i at_token,
            (nat_eq_iff _ _).1 same,
          )
          (token_of_yes-at names tokens token i at_yes at_token before),
  )
