-- ===== src/Signal/Buckets.antt =====
-- signal/decay.py: the histogram behind `baseline_hourly_rate`.
use augury.Prelude.{
  ℕ, zero, suc, ◌+◌, ◌-◌, ◌*◌, ◌/◌, ◌<◌, ◌≤◌, ◌≡◌, refl, ap, ◌∙◌, Bool, true, false, ◌&&◌, ◌||◌,
  List, [], ◌∷◌, arith, length, filter, leb, ltb, if◌then◌else◌, nat_eq, Bool-cases, inl, inr,
}
use Prim.Native.Nat.{min}
use augury.Models.{DateTime, hour}
use augury.Signal.{zeros, bump, fill, buckets_of, window, get_or_zero}
use augury.Signal.Bisect.{IsAscending}
use augury.Signal.Window.{window-sorted}

-- the hour of a time, the last one if it is later
abbrev place : DateTime → ℕ → DateTime → ℕ
place start hours t = min ((t - start) / hour) (hours - 1)

get_or_zero-zeros : (n i : ℕ) → get_or_zero (zeros n) i ≡ 0
unfolding zeros get_or_zero
get_or_zero-zeros zero i = refl
get_or_zero-zeros (suc n) zero = refl
get_or_zero-zeros (suc n) (suc i) = get_or_zero-zeros n i

length-zeros : (n : ℕ) → length (zeros n) ≡ n
unfolding zeros
length-zeros zero = refl
length-zeros (suc n) = ap suc (length-zeros n)

length-bump : (i : ℕ) (bs : List ℕ) → length (bump i bs) ≡ length bs
unfolding bump
length-bump i [] = refl
length-bump zero (b ∷ bs) = refl
length-bump (suc i) (b ∷ bs) = ap suc (length-bump i bs)

-- a bump at `j` is seen at `j` alone
get_or_zero-bump :
    (j i : ℕ) (bs : List ℕ)
    → i < length bs
    → get_or_zero (bump j bs) i ≡ (if nat_eq j i then 1 else 0) + get_or_zero bs i
unfolding bump get_or_zero
get_or_zero-bump j i [] h = omega (arith, h)
get_or_zero-bump zero zero (b ∷ bs) h = ground arith
get_or_zero-bump zero (suc i) (b ∷ bs) h = ground arith
get_or_zero-bump (suc j) zero (b ∷ bs) h = ground arith
get_or_zero-bump (suc j) (suc i) (b ∷ bs) h =
    ground (arith, get_or_zero-bump j i bs (omega (arith, h)))

get_or_zero-fill :
    (start : DateTime) (hours i : ℕ) (ts : List DateTime) (bs : List ℕ)
    → i < length bs
    → get_or_zero (fill start hours ts bs) i
      ≡ get_or_zero bs i + length (filter (λ t. nat_eq (place start hours t) i) ts)
unfolding fill
get_or_zero-fill start hours i [] bs h = omega arith
get_or_zero-fill start hours i (t ∷ ts) bs h =
    let j = place start hours t in
    let step = get_or_zero-bump j i bs h in
    let rest = get_or_zero-fill start hours i ts (bump j bs) (omega (arith, h, length-bump j bs)) in
    elim (Bool-cases (nat_eq j i)) [
      | inl e ↦ ground (arith, e, step, rest)
      | inr e ↦ ground (arith, e, step, rest)
    ]

-- the posts of bucket `i`, read off the clock: from `i` hours after the start, up to but not at the next hour,
-- except that the last bucket reaches to `at` and includes it
abbrev pub is_in_bucket : (start at : DateTime) (hours i : ℕ) → DateTime → Bool
is_in_bucket start at hours i t =
    leb (start + i * hour) t && leb t at && (ltb t (start + suc i * hour) || nat_eq (suc i) hours)

place-is_in_bucket :
    (start at : DateTime) (hours i : ℕ) (t : DateTime)
    → i < hours
    → start ≤ t
    → t ≤ at
    → nat_eq (place start hours t) i ≡ is_in_bucket start at hours i t
place-is_in_bucket start at hours i t h low high = ground (arith, h, low, high)

length-filter-place :
    (start at : DateTime) (hours i : ℕ) (ts : List DateTime)
    → i < hours
    → length
        (filter (λ t. nat_eq (place start hours t) i) (filter (λ t. leb start t && leb t at) ts))
      ≡ length (filter (is_in_bucket start at hours i) ts)
length-filter-place start at hours i [] h = refl
length-filter-place start at hours i (t ∷ ts) h =
    let rest = length-filter-place start at hours i ts h in
    elim (Bool-cases (leb start t && leb t at)) [
      | inl e ↦
          let (low, high) : (start ≤ t) × (t ≤ at) = (ground (arith, e), ground (arith, e)) in
          let same = place-is_in_bucket start at hours i t h low high in
          elim (Bool-cases (is_in_bucket start at hours i t)) [
            | inl k ↦ rw (e, k, same ∙ k) (ap suc rest)
            | inr k ↦ rw (e, k, same ∙ k) rest
          ]
      | inr e ↦
          let out : is_in_bucket start at hours i t ≡ false = ground (arith, e) in rw (e, out) rest
    ]

window-scan :
    (start at : DateTime) (times : List DateTime) (is_sorted : Bool)
    → (is_sorted ≡ true → IsAscending (λ t. t) times)
    → window is_sorted start at times ≡ filter (λ t. leb start t && leb t at) times
unfolding window
window-scan start at times true h = window-sorted start at times (h refl)
window-scan start at times false h = refl

-- Bucket `i` of the histogram counts exactly the posts from `i` hours after the start of the trailing window,
-- up to but not at the next hour, and the last bucket those up to `at`, the post exactly at `at` included,
-- whether the window is scanned or cut out by the two binary searches. The times are in ascending order when
-- `is_sorted` says so.
pub get_or_zero-buckets_of :
    (times : List DateTime) (at : DateTime) (hours i : ℕ) (is_sorted : Bool)
    → i < hours
    → (is_sorted ≡ true → IsAscending (λ t. t) times)
    → get_or_zero (buckets_of times at hours is_sorted) i
      ≡ length (filter (is_in_bucket (at - hours * hour) at hours i) times)
unfolding buckets_of
get_or_zero-buckets_of times at hours i is_sorted h ascending =
    let start = at - hours * hour in
    let scan = window-scan start at times is_sorted ascending in
    let filled =
      get_or_zero-fill start hours i (window is_sorted start at times) (zeros hours)
        (omega (arith, h, length-zeros hours)) in
    let counted =
      ap (λ ts. length (filter (λ t. nat_eq (place start hours t) i) ts)) scan
      ∙ length-filter-place start at hours i times h in
    omega (arith, filled, get_or_zero-zeros hours i, counted)
