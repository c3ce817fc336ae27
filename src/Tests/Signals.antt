-- ===== src/Tests/Signals.antt =====
-- The signal and the scores.
use augury.Prelude.{
  ℕ, zero, suc, ◌-◌, ◌*◌, ◌≤◌, ◌≡◌, refl, String, Bool, true, false, Option, none, some, List, [],
  ◌∷◌, map, arith, length, filter, All, Result, ok,
}
use augury.Prelude.Int.{ℤ, pos, negsuc, ◌+ℤ◌, ◌-ℤ◌}
use augury.Prelude.Micro.{micro, micro-IsOrdered}
use augury.Prelude.Float.{◌≼◌}
use augury.Models.{DateTime, SignalPoint, affine, in_signed_unit}
use augury.Signal.{
  Contribution, compute_signal, buckets_of, aggregate, relative, maximum, effective_half_life,
  get_or_zero,
}
use augury.Signal.Bisect.{slice, bisect_left, bisect_right}
use augury.Signal.Window.{compute_signal-filter, compute_signal-slice, is_visible}
use augury.Signal.Bounds.{aggregate-ok, effective_half_life-ok}
use augury.Signal.Buckets.{is_in_bucket, get_or_zero-buckets_of}
use augury.Analytics.{ScoreResult, score_market, brier_score, brier_skill_score}
use augury.Analytics.Skill.{score_market-ok}
use augury.Tests.Data.{contribution}

abbrev times : List DateTime
times = 5 ∷ 7 ∷ 9 ∷ []

abbrev cs : List (Contribution ℤ)
cs = contribution 5 ∷ contribution 7 ∷ contribution 9 ∷ []

abbrev half_life : ℤ
half_life = pos 3_600_000_000

compute_signal-filter_example :
    compute_signal (filter (is_visible 8 (some 2)) cs) 8 half_life "m" "v" (some 2) (some affine)
    ≡ compute_signal cs 8 half_life "m" "v" (some 2) (some affine)
compute_signal-filter_example = compute_signal-filter cs 8 half_life "m" "v" (some 2) (some affine)

compute_signal-slice_example :
    let ts = map (λ c. c.created_at) cs in
    compute_signal
      (slice (bisect_left ts (8 - 2)) (bisect_right ts 8) cs)
      8
      half_life
      "m"
      "v"
      (some 2)
      none
    ≡ compute_signal cs 8 half_life "m" "v" (some 2) none
compute_signal-slice_example =
    compute_signal-slice cs 8 half_life "m" "v" 2 none
      ((omega arith, (omega arith, tt)), ((omega arith, tt), (tt, tt)))

-- at hour 25, the window starts at hour 1
abbrev post_times : List DateTime
post_times = 1_000 ∷ 4_000_000_000 ∷ 90_000_000_000 ∷ []

get_or_zero-buckets_of_example :
    get_or_zero (buckets_of post_times 90_000_000_000 24 true) 23
    ≡ length (filter (is_in_bucket 3_600_000_000 90_000_000_000 24 23) post_times)
get_or_zero-buckets_of_example =
    get_or_zero-buckets_of post_times 90_000_000_000 24 23 true (omega arith)
      (λ e. ((omega arith, (omega arith, tt)), ((omega arith, tt), (tt, tt))))

abbrev term : ℤ × ℤ
term = (pos 2_000_000, pos 500_000)

abbrev terms : List (ℤ × ℤ)
terms = (pos 1_500_000, negsuc 299_999) ∷ []

aggregate-ok_example :
    (p : SignalPoint ℤ) × (aggregate 8 half_life "m" "v" none (term ∷ terms) ≡ ok (some p))
    × (in_signed_unit p.s_t ≡ true)
    × (length (term ∷ terms) ≡ p.n_posts)
unfolding relative maximum ◌-ℤ◌ ◌+ℤ◌ augury.Prelude.Float.math_exp
aggregate-ok_example =
    aggregate-ok micro-IsOrdered 8 half_life "m" "v" term terms (pos 1_000_000 ∷ pos 500_000 ∷ [])
      refl refl

effective_half_life-ok_example :
    (r : ℤ) × (effective_half_life half_life
        (pos 1_000_000)
        (pos 30_000_000)
        (pos 0)
        (pos 100_000)
        (pos 3_000_000)
        (pos 50_000)
        true
      ≡ ok r)
    × (pos 1_000_000 ≼ r)
effective_half_life-ok_example =
    effective_half_life-ok micro-IsOrdered half_life (pos 1_000_000) (pos 30_000_000) (pos 0)
      (pos 100_000) (pos 3_000_000) (pos 50_000) refl refl refl refl

-- the mean, by division
abbrev mean : List ℤ → ℤ
mean xs = micro.div (micro.fsum xs) (micro.float (pos (length xs)))

score_market-ok_example :
    (r : ScoreResult ℤ) × (score_market mean "m" "v"
        (pos 700_000 ∷ [])
        (pos 600_000 ∷ [])
        (pos 1)
        affine
      ≡ ok r)
    × (length (pos 600_000 ∷ []) ≡ r.n_obs)
    × (r.resolved_outcome ≡ pos 1)
    × (brier_skill_score mean (pos 700_000 ∷ []) (pos 600_000 ∷ []) (pos 1) ≡ ok r.bss)
    × (brier_score mean (pos 600_000 ∷ []) (pos 1) ≡ ok r.brier_market)
score_market-ok_example =
    score_market-ok mean "m" "v" (pos 700_000) (pos 600_000) [] [] (pos 1) affine refl
      ((refl, refl), tt) ((refl, refl), tt) refl
