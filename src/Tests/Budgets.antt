-- ===== src/Tests/Budgets.antt =====
-- The read budget and the X client.
use augury.Prelude.{
  ℕ, zero, suc, ◌≤◌, IsPost, ◌≡◌, refl, ap, ◌↔◌, String, Option, none, some, [], ◌∷◌, if◌then◌else◌,
  arith, length, Result, ok, err, http_error, ltb, Bool-cases, inl, inr,
}
use augury.Prelude.Int.{ℤ, pos, ◌+ℤ◌}
use augury.Models.{DateTime}
use augury.Budget.{
  File, ReadBudget, not_object, unreadable, counters, check, record_reads, remaining, used_today,
  get, put, or_zero, key, used_in, load,
}
use augury.Budget.Laws.{IsLedger, used_today-record_reads}
use augury.XClient.{live_search, search_markets, page_length}
use augury.Prelude.Json.{array, object, text, cons, nil, field, end, get_or, or_json, len}
use augury.Prelude.Micro.{micro}
use mathlib.Core.Path.{subst}
use augury.Tests.Samples.{plain, J, one_field}
use augury.XClient.Spending.{IsWithin, HonorsPage, search_markets-IsWithin}
use augury.Tests.Data.{hundred, ledger, noon, post}

abbrev today : String
today = "2026-11-25"

abbrev now_used : ℤ
now_used = pos 65

used_today-record_reads_example :
    (now_used ≡ pos 40 +ℤ pos 25)
    × (used_today hundred today (record_reads hundred today (pos 25) ledger).1 ≡ ok now_used)
    × IsLedger (record_reads hundred today (pos 25) ledger).1
unfolding used_today record_reads augury.Budget.add_to augury.Budget.prune put ◌+ℤ◌
used_today-record_reads_example =
    used_today-record_reads hundred today (pos 25) (pos 40) now_used ledger (refl, tt) refl refl

-- one post for every request that asks for any
abbrev body : J
body = one_field "data" (
    array (
      cons
        (object (
          field "id" (text "1") (field "text" (text "cut") (field "created_at" (text "noon") end))))
        nil))

abbrev answer : ℕ → Result J
answer zero = err http_error
answer (suc n) = ok body

abbrev respond : String → ℕ → Option DateTime → Result J
respond query n start = answer n

answer-honors :
    (n : ℕ) (payload : J) → answer n ≡ ok payload → IsPost (λ m. m ≤ n) (page_length payload)
unfolding page_length get_or or_json len
answer-honors zero payload e = cc
answer-honors (suc n) payload e =
    subst (λ r. IsPost (λ v. IsPost (λ m. m ≤ suc n) (page_length v)) r) e (omega arith)

respond-HonorsPage : HonorsPage respond
respond-HonorsPage query n start payload e = answer-honors n payload e

-- the post is read, and the page is charged
one_found : live_search hundred today respond "fed" "kalshi:FED" 20 none noon ledger ≡ (
  ok (
      record (post "1" 800_000_000_000_000) {
        followers = pos 0;
        engagements = pos 0;
        ingested_at = some noon;
      }
      ∷ []),
  counters (("2026-11-25:x", pos 41) ∷ []),
)
unfolding live_search check ◌+ℤ◌ get_or len or_json record_reads augury.Budget.add_to
    augury.Budget.prune put augury.Prelude.Json.iterate augury.Venues.parse_ts
    augury.Prelude.Json.to_int augury.Prelude.Json.str
one_found = refl

ledger-IsWithin : IsWithin hundred today ledger
unfolding used_in key
ledger-IsWithin = ((refl, tt), (pos 40, refl, omega arith))

search_markets-IsWithin_example :
    IsWithin hundred today
      (search_markets
        (λ q mid. live_search hundred today respond q mid 20 none noon)
        (("kalshi:FED", "fed") ∷ ("kalshi:CPI", "cpi") ∷ [])
        ledger).1
search_markets-IsWithin_example =
    search_markets-IsWithin hundred today respond respond-HonorsPage
      (("kalshi:FED", "fed") ∷ ("kalshi:CPI", "cpi") ∷ []) 20 none noon ledger (omega arith)
      ledger-IsWithin
