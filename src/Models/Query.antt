-- ===== src/Models/Query.antt =====
-- `MarketQuery`: the terms that bind posts to one market.
use Prim.Native.String.{◌++◌}
use Prim.Native.Char.{code}
use augury.Prelude.{
  String, Bool, true, false, List, [], ◌∷◌, map, if◌then◌else◌, any, Result, ok, err, value_error,
}
use mathlib.Core.List
use augury.Prelude.Keys.{◌==◌, nat_key, string_key}

pub record MarketQuery : Type 0 where
  pub market_id : String
  pub keywords : List String
  pub tickers : List String
  pub entities : List String
  pub aliases : List String
  pub exclude : List String

abbrev pub contains : List String → String → Bool
contains seen term = any (λ t. t == term) seen

-- the loop of `seen.setdefault(term, None)`; a dict keeps the order of first insertion
unfoldable pub set_defaults : List String → List String → List String
set_defaults seen [] = seen
set_defaults seen (term ∷ terms) =
    set_defaults (if contains seen term then seen else List.◌++◌ seen (term ∷ [])) terms

unfoldable pub all_terms : MarketQuery → List String
unfolding set_defaults
all_terms q =
    set_defaults [] (List.◌++◌ q.keywords (List.◌++◌ q.tickers (List.◌++◌ q.entities q.aliases)))

-- `" " in term`
has_space : String → Bool
has_space String.[] = false
has_space (String.◌∷◌ c s) = if code c == b' ' then true else has_space s

quote : String → String
unfolding has_space
quote term = if has_space term then "\"" ++ term ++ "\"" else term

-- `sep.join(parts)`
join : String → List String → String
join sep [] = ""
join sep (p ∷ []) = p
join sep (p ∷ q ∷ ps) = p ++ sep ++ join sep (q ∷ ps)

unfoldable pub to_x_query : MarketQuery → String → List String → Result String
unfolding all_terms quote join
to_x_query q lang extra_exclude = to_query (all_terms q)
  where
    excluded : List String
    excluded = map (λ t. "-" ++ quote t) (List.◌++◌ q.exclude extra_exclude)

    language : List String
    language = if lang == "" then [] else ("lang:" ++ lang) ∷ []

    to_query : List String → Result String
    to_query [] = err value_error
    to_query (t ∷ ts) = ok (
        join " " (
          ("(" ++ join " OR " (map quote (t ∷ ts)) ++ ")")
          ∷ (List.◌++◌ excluded (List.◌++◌ ("-is:retweet" ∷ []) language))))
