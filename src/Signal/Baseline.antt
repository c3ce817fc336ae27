-- ===== src/Signal/Baseline.antt =====
-- signal/decay.py: `baseline_hourly_rate`.
use augury.Prelude.{
  ℕ, zero, suc, ◌+◌, ◌-◌, ◌*◌, ◌/◌, ◌%◌, Bool, true, false, ◌&&◌, List, [], ◌∷◌, if◌then◌else◌, leb,
  ltb, filter, Result, ok, err, value_error, nat_eq,
}
use Prim.Native.Nat.{min}
use augury.Prelude.Int.{pos}
use augury.Prelude.Float.{Float}
use augury.Models.{DateTime, hour}
use augury.Signal.Bisect.{bisect_left, bisect_right, slice}

-- `[0] * n`
unfoldable pub zeros : ℕ → List ℕ
zeros zero = []
zeros (suc n) = 0 ∷ zeros n

-- `buckets[i] += 1`
unfoldable pub bump : ℕ → List ℕ → List ℕ
bump i [] = []
bump zero (b ∷ bs) = suc b ∷ bs
bump (suc i) (b ∷ bs) = b ∷ bump i bs

unfoldable pub fill : DateTime → ℕ → List DateTime → List ℕ → List ℕ
unfolding bump
fill start hours [] buckets = buckets
fill start hours (t ∷ ts) buckets =
    fill start hours ts (bump (min ((t - start) / hour) (hours - 1)) buckets)

-- `sorted(buckets)`
unfoldable pub insert : ℕ → List ℕ → List ℕ
insert x [] = x ∷ []
insert x (y ∷ ys) = if ltb y x then y ∷ insert x ys else x ∷ y ∷ ys

unfoldable pub sorted : List ℕ → List ℕ
unfolding insert
sorted [] = []
sorted (x ∷ xs) = insert x (sorted xs)

-- `ordered[i]`, in range
unfoldable pub get_or_zero : List ℕ → ℕ → ℕ
get_or_zero [] i = 0
get_or_zero (x ∷ xs) zero = x
get_or_zero (x ∷ xs) (suc i) = get_or_zero xs i

-- the posts of the trailing window, by two binary searches or by a scan
unfoldable pub window : Bool → DateTime → DateTime → List DateTime → List DateTime
window true start at times = slice (bisect_left times start) (bisect_right times at) times
window false start at times = filter (λ t. leb start t && leb t at) times

unfoldable pub buckets_of : List DateTime → DateTime → ℕ → Bool → List ℕ
unfolding window fill zeros
buckets_of times at hours is_sorted =
    let start = at - hours * hour in
    fill start hours (window is_sorted start at times) (zeros hours)

module _ {F : Type 0} ⦃d : Float F⦄ where
  abbrev of_count : ℕ → F
  of_count n = d.float (pos n)

  unfoldable pub median : List ℕ → ℕ → F
  unfolding get_or_zero
  median ordered hours =
      let mid = hours / 2 in
      if nat_eq (hours % 2) 1
      then of_count (get_or_zero ordered mid)
      else d.div (of_count (get_or_zero ordered (mid - 1) + get_or_zero ordered mid)) (d.lit 2 0)

  unfoldable pub baseline_hourly_rate : List DateTime → DateTime → ℕ → Bool → Result F
  unfolding median buckets_of sorted
  baseline_hourly_rate times at hours is_sorted =
      if nat_eq hours 0
      then err value_error
      else ok (median (sorted (buckets_of times at hours is_sorted)) hours)
