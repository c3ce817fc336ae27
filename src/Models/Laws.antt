-- ===== src/Models/Laws.antt =====
-- What models.py promises of its records.
use Prim.Native.Char.{Char, code}
use Prim.Native.String.{◌++◌ as str_append}
use mathlib.Core.List
use text.Mathlib.TextLemmas.{append_cancel_left, cons-append, head-eq_of_cons-eq}
use text.Mathlib.TextEquality.{eq_iff}
use augury.Prelude.{
  String, ◌≡◌, ◌≢◌, refl, sym, ◌∙◌, ap, true, false, ◌||◌, ◌↔◌, arith, ok, is_some, List, [], ◌∷◌,
  Bool-cases, inl, inr,
}
use augury.Prelude.Keys.{string_key}
use augury.Models.Enums.{Venue, kalshi, polymarket, is_settled, market_id}
use augury.Models.Listing.{Market, make_market, is_outcome}
use augury.Models.Query.{MarketQuery, contains, set_defaults, all_terms}

kalshi-ne-polymarket : (x y : String) → str_append "kalshi" x ≢ str_append "polymarket" y
kalshi-ne-polymarket x y h = absurd (omega (arith, ap code heads))
  where
    heads : ◌≡◌ {A = Char} "k" "p"
    heads = head-eq_of_cons-eq (sym (cons-append "k" "alshi" x) ∙ h ∙ cons-append "p" "olymarket" y)

-- An id determines its venue and its ticker.
pub market_id-injective :
    (v w : Venue) (s t : String) → market_id v s ≡ market_id w t → (v ≡ w) × (s ≡ t)
unfolding market_id
market_id-injective kalshi kalshi s t h =
    (refl, append_cancel_left ":" s t (append_cancel_left "kalshi" _ _ h))
market_id-injective kalshi polymarket s t h = absurd (kalshi-ne-polymarket _ _ h)
market_id-injective polymarket kalshi s t h = absurd (kalshi-ne-polymarket _ _ (sym h))
market_id-injective polymarket polymarket s t h =
    (refl, append_cancel_left ":" s t (append_cancel_left "polymarket" _ _ h))

-- A market is settled exactly when it has an outcome, and the outcome is 0 or 1.
abbrev pub IsConsistent : Market → Type 0
IsConsistent m =
    (is_settled m.status ≡ is_some m.resolved_outcome) × (is_outcome m.resolved_outcome ≡ true)

-- `Market(...)` succeeds exactly on consistent fields, and returns the fields that it was given.
pub make_market-IsConsistent_iff :
    (m n : Market) → (make_market m ≡ ok n) ↔ ((n ≡ m) × IsConsistent m)
unfolding make_market
make_market-IsConsistent_iff m n = ground arith

-- No text stands twice.
abbrev pub IsDistinct : List String → Type 0
IsDistinct [] = Unit
IsDistinct (x ∷ xs) = (contains xs x ≡ false) × IsDistinct xs

contains-append :
    (xs ys : List String) (t : String)
    → contains (List.◌++◌ xs ys) t ≡ (contains xs t || contains ys t)
contains-append [] ys t = refl
contains-append (x ∷ xs) ys t = ground (arith, contains-append xs ys t)

IsDistinct-append_one :
    (xs : List String) (t : String)
    → IsDistinct xs
    → contains xs t ≡ false
    → IsDistinct (List.◌++◌ xs (t ∷ []))
IsDistinct-append_one [] t h k = (refl, tt)
IsDistinct-append_one (x ∷ xs) t h k =
    ground
      (arith, IsDistinct-append_one xs t h.1, contains-append xs (t ∷ []) x, eq_iff t x, eq_iff x t)

set_defaults-IsDistinct :
    (seen terms : List String) → IsDistinct seen → IsDistinct (set_defaults seen terms)
unfolding set_defaults
set_defaults-IsDistinct seen [] h = h
set_defaults-IsDistinct seen (t ∷ terms) h = elim (Bool-cases (contains seen t)) [
  | inl e ↦ rw e (set_defaults-IsDistinct seen terms h)
  | inr e ↦
      rw e
        (set_defaults-IsDistinct (List.◌++◌ seen (t ∷ [])) terms (IsDistinct-append_one seen t h e))
]

contains-set_defaults :
    (seen terms : List String) (t : String)
    → contains (set_defaults seen terms) t ≡ (contains seen t || contains terms t)
unfolding set_defaults
contains-set_defaults seen [] t = ground arith
contains-set_defaults seen (x ∷ terms) t = elim (Bool-cases (contains seen x)) [
  | inl e ↦ rw e (ground (arith, contains-set_defaults seen terms t, eq_iff x t))
  | inr e ↦ rw e (
      ground (
        arith,
        contains-set_defaults (List.◌++◌ seen (x ∷ [])) terms t,
        contains-append seen (x ∷ []) t,
      ))
]

-- the four positive lists, one after the other
abbrev pub positive_terms : MarketQuery → List String
positive_terms q = List.◌++◌ q.keywords (List.◌++◌ q.tickers (List.◌++◌ q.entities q.aliases))

-- `all_terms` lists every positive term of the query and no other text, each once.
pub all_terms_lem :
    (q : MarketQuery)
    → IsDistinct (all_terms q)
      × ((t : String) → contains (all_terms q) t ≡ contains (positive_terms q) t)
unfolding all_terms
all_terms_lem q = (
  set_defaults-IsDistinct [] (positive_terms q) tt,
  λ t. contains-set_defaults [] (positive_terms q) t,
)
