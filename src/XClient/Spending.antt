-- ===== src/XClient/Spending.antt =====
-- clients/x.py and clients/budget.py: the live client's daily spending.
use augury.Prelude.{
  ℕ, ◌≤◌, ◌≡◌, refl, sym, ◌∙◌, String, Option, some, List, [], ◌∷◌, Bool-cases, inl, inr, Result,
  ok, Result-cases, Exec, IsPost,
}
use augury.Prelude.Int.{ℤ, pos, ◌+ℤ◌, ◌≤ℤ◌, ltb_ℤ, int_laws}
use augury.Prelude.Float.{Float}
use augury.Prelude.Json.{Json, Builtins, len}
use augury.Prelude.Keys.{==_refl, string_key}
use augury.Models.{DateTime, Post}
use augury.Budget.{
  File, missing, unreadable, not_object, counters, Counters, ReadBudget, check, record_reads,
  used_today, used_in, add_to, get, put, or_zero, key, load,
}
use augury.Budget.Laws.{IsDict, IsLedger, get-put, put-IsDict, get-prune, check-ok_iff}
use augury.XClient.{
  page_size, page_length, raw_posts, live_search, request, charge, search_from, search_markets,
  is_exhausted, put_posts,
}

-- The file is a ledger, and the count in it does not exceed the limit.
abbrev pub IsWithinKey : String → ℤ → File → Type 0
IsWithinKey k limit file =
    IsLedger file × ((used : ℤ) × (used_in k file ≡ ok used) × (used ≤ℤ limit))

add_to-IsWithin :
    (k : String) (actual limit : ℤ) (entries : Counters)
    → IsDict entries
    → or_zero (get entries k) +ℤ actual ≤ℤ limit
    → pos 0 ≤ℤ limit
    → IsWithinKey k limit (add_to k actual entries).1
unfolding add_to used_in load
add_to-IsWithin k actual limit entries h l p =
    let total = or_zero (get entries k) +ℤ actual in
    let table = put entries k total in
    let put_eq : get table k ≡ some total = get-put entries k total k ∙ rw (==_refl k) refl in
    let (dict, found) = get-prune table k (put-IsDict entries k total h) in
    (dict, elim found [ inl e ↦ rw e (pos 0, refl, p) | inr e ↦ rw (e ∙ put_eq) (total, refl, l) ])

ok-inj : {A : Type 0} {x y : A} → ok x ≡ ok y → x ≡ y
ok-inj h = cc

-- what every search keeps, the loop over the markets keeps
search_from-keeps :
    {S : Type 0} (P : S → Type 0) (search : String → String → Exec S (List Post))
    → ((query mid : String) (s : S) → P s → P (search query mid s).1)
    → (queries : List (String × String)) (results : List (String × List Post)) (s : S) → P s
    → P (search_from search results queries s).1
unfolding search_from
search_from-keeps P search keeps [] results s h = h
search_from-keeps P search keeps ((mid, query) ∷ queries) results s h =
    let one = search query mid s in
    let next = keeps query mid s h in
    elim (Result-cases one.0) [
      | inr (posts, f) ↦
          rw (f, search_from)
            (search_from-keeps P search keeps queries (put_posts results mid posts) one.1 next)
      | inl (e, f) ↦ elim (Bool-cases (is_exhausted e)) [
        | inl x ↦ rw (f, x, search_from) next
        | inr x ↦ rw (f, x, search_from) next
      ]
    ]

module _ (config : ReadBudget) (today : String) where
  -- the ledger holds today's count, and it is not above `max_daily_reads`
  abbrev pub IsWithin : File → Type 0
  IsWithin = IsWithinKey (key config today) config.max_daily_reads

  recorded :
      (actual used : ℤ) (entries : Counters) (file : File)
      → IsLedger file
      → used_in (key config today) file ≡ ok used
      → load file ≡ ok entries
      → IsDict entries
      → or_zero (get entries (key config today)) ≡ used
      → used +ℤ actual ≤ℤ config.max_daily_reads
      → used ≤ℤ config.max_daily_reads
      → pos 0 ≤ℤ config.max_daily_reads
      → IsWithin (record_reads config today actual file).1
  unfolding record_reads
  recorded actual used entries file h u loaded dict same l m p =
      elim (Bool-cases (ltb_ℤ actual (pos 0))) [
        | inl e ↦ rw e (h, (used, u, m))
        | inr e ↦
            rw (e, loaded)
              (add_to-IsWithin (key config today) actual config.max_daily_reads entries dict
                (rw (sym same) at l) p)
      ]

  record_reads-IsWithin :
      (actual used : ℤ) (file : File)
      → IsLedger file
      → used_in (key config today) file ≡ ok used
      → used +ℤ actual ≤ℤ config.max_daily_reads
      → used ≤ℤ config.max_daily_reads
      → pos 0 ≤ℤ config.max_daily_reads
      → IsWithin (record_reads config today actual file).1
  unfolding load used_in
  record_reads-IsWithin actual used missing h u =
      recorded actual used [] missing h u refl tt (ok-inj u)
  record_reads-IsWithin actual used unreadable h u = cc
  record_reads-IsWithin actual used not_object h u =
      recorded actual used [] not_object h u refl tt (ok-inj u)
  record_reads-IsWithin actual used (counters entries) h u =
      recorded actual used entries (counters entries) h u refl h (ok-inj u)

-- The API returns at most the page that was asked for: `data`, where there is any, has at most `n` elements.
abbrev pub HonorsPage :
    {F : Type 0} ⦃d : Float F⦄ ⦃py : Builtins F⦄
    → (String → ℕ → Option DateTime → Result (Json F))
    → Type 0
HonorsPage {F} respond =
    (query : String) (n : ℕ) (start : Option DateTime) (payload : Json F)
    → respond query n start ≡ ok payload
    → IsPost (λ m. m ≤ n) (page_length payload)

module _ {F : Type 0} ⦃d : Float F⦄ ⦃py : Builtins F⦄ (config : ReadBudget) (today : String) where
  module _ (respond : String → ℕ → Option DateTime → Result (Json F))
      (honest : HonorsPage respond) where
    charge-IsWithin :
        (mid : String) (max_results : ℕ) (now : DateTime) (payload : Json F) (used : ℤ)
        (file : File)
        → IsLedger file
        → used_in (key config today) file ≡ ok used
        → used +ℤ pos (page_size max_results) ≤ℤ config.max_daily_reads
        → used ≤ℤ config.max_daily_reads
        → pos 0 ≤ℤ config.max_daily_reads
        → IsPost (λ m. m ≤ page_size max_results) (page_length payload)
        → IsWithin config today (charge config today mid now payload file).1
    unfolding charge page_length
    charge-IsWithin mid max_results now payload used file h u l m p fits =
        elim (Result-cases (raw_posts payload)) [
          | inl (e, f) ↦ rw (f, charge) (h, (used, u, m))
          | inr (raws, f) ↦ elim (Result-cases (len raws)) [
            | inl (e, g) ↦ rw (f, g, charge) (h, (used, u, m))
            | inr (n, g) ↦
                let bound : n ≤ page_size max_results = rw (f, g) at fits in
                rw (f, g, charge)
                  (record_reads-IsWithin config today (pos n) used file h u
                    (omega (int_laws, l, bound)) m p)
          ]
        ]

    request-IsWithin :
        (query mid : String) (max_results : ℕ) (start : Option DateTime) (now : DateTime) (used : ℤ)
        (file : File)
        → IsLedger file
        → used_in (key config today) file ≡ ok used
        → used +ℤ pos (page_size max_results) ≤ℤ config.max_daily_reads
        → used ≤ℤ config.max_daily_reads
        → pos 0 ≤ℤ config.max_daily_reads
        → IsWithin config today
            (request config today respond query mid max_results start now file).1
    unfolding request
    request-IsWithin query mid max_results start now used file h u l m p =
        elim (Result-cases (respond query (page_size max_results) start)) [
          | inl (e, f) ↦ rw (f, request) (h, (used, u, m))
          | inr (payload, f) ↦
              rw (f, request)
                (charge-IsWithin mid max_results now payload used file h u l m p
                  (honest query (page_size max_results) start payload f))
        ]

    -- One live search keeps the day's count within `max_daily_reads`, however it ends: refused
    -- by the budget, failed over HTTP, or charged for the page that came back. The limit is not
    -- negative, the ledger loads with a count within it, and the API returns at most the page
    -- asked for.
    pub live_search-IsWithin :
        (query mid : String) (max_results : ℕ) (start : Option DateTime) (now : DateTime)
        (file : File)
        → pos 0 ≤ℤ config.max_daily_reads
        → IsWithin config today file
        → IsWithin config today
            (live_search config today respond query mid max_results start now file).1
    unfolding live_search used_today
    live_search-IsWithin query mid max_results start now file p (h, (used, u, m)) =
        elim (Result-cases (check config today (pos (page_size max_results)) file)) [
          | inl (e, f) ↦ rw (f, live_search) (h, (used, u, m))
          | inr (t, f) ↦
              let fits =
                (check-ok_iff config today (pos (page_size max_results)) used file u).0 f in
              rw (f, live_search)
                (request-IsWithin query mid max_results start now used file h u fits.1 m p)
        ]

    -- A run of `search_markets` over any list of markets, within one day, keeps the day's count
    -- within `max_daily_reads`, whether it ends, stops at the exhausted budget, or raises. The
    -- limit is not negative, the ledger loads with a count within it, and the API returns at
    -- most the page asked for.
    pub search_markets-IsWithin :
        (queries : List (String × String)) (max_results : ℕ) (start : Option DateTime)
        (now : DateTime) (file : File)
        → pos 0 ≤ℤ config.max_daily_reads
        → IsWithin config today file
        → IsWithin config today
            (search_markets
              (λ query mid. live_search config today respond query mid max_results start now)
              queries
              file).1
    unfolding search_markets
    search_markets-IsWithin queries max_results start now file p =
        search_from-keeps (IsWithin config today)
          (λ query mid. live_search config today respond query mid max_results start now)
          (λ query mid f w. live_search-IsWithin query mid max_results start now f p w) queries []
          file
