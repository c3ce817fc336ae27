-- ===== src/Tests/Slices.antt =====
-- The vertical slice, the lead-lag analysis and the assets.
use augury.Prelude.{
  ℕ, zero, suc, ◌*◌, ◌≡◌, refl, true, none, some, List, [], ◌∷◌, String, ok, map, arith, get_last?,
}
use augury.Prelude.Int.{ℤ, pos, ◌-ℤ◌}
use augury.Prelude.Micro.{micro}
use augury.Models.{DateTime, Stance, SignalPoint, PriceTick}
use augury.Db.{Database, unscored_posts}
use augury.Pipeline.{single}
use augury.Pipeline.Sorting.{by_time}
use augury.Analytics.{GrangerResult, benjamini_hochberg, significant}
use augury.Analytics.Corrected.{benjamini_hochberg-ok, uncorrected}
use augury.Slice.{SliceResult, analyze, aligned_pairs, empty_result, prices_by_hour, hour_price}
use augury.Slice.Hours.{hour_price-prices_by_hour, mids_in}
use augury.Slice.Reported.{analyze-IsAnalyzed, IsAnalyzed}
use augury.Orchestrator.{score_backlog}
use augury.Orchestrator.Backlog.{score_backlog-drained}
use augury.Tests.Data.{stored, stance, signal, tick, post}
use augury.Tests.Samples.{plain, statistics, tracked, neutral}

abbrev one_two : List ℤ
one_two = pos 1 ∷ pos 2 ∷ []

abbrev ramp : ℕ → List ℤ
ramp zero = []
ramp (suc n) = pos (n * 10_000) ∷ ramp n

abbrev frame : List (ℤ × ℤ)
frame = map (λ x. (x, x)) (ramp 30)

abbrev tested : GrangerResult ℤ
tested = record {
  direction = "signal_to_price";
  lag_order = 4;
  lag_criterion = "aic";
  n_obs = 20;
  f_statistic = pos 2_000_000;
  p_value = pos 30_000;
  adf_p_signal = some (pos 10_000);
  adf_p_price = some (pos 10_000);
  p_value_adj = none;
}

benjamini_hochberg-ok_example :
    (out : List (GrangerResult ℤ)) × (benjamini_hochberg statistics (tested ∷ []) (pos 50_000)
      ≡ ok out)
    × (map (uncorrected statistics) out ≡ map (uncorrected statistics) (tested ∷ []))
    × (map significant out ≡ true ∷ [])
benjamini_hochberg-ok_example =
    benjamini_hochberg-ok statistics tested [] (pos 50_000) (pos 30_000 ∷ []) refl refl refl refl

abbrev books : List (PriceTick ℤ)
books = tick 8 (pos 470_000) ∷ tick 5 (pos 450_000) ∷ []

hour_price-prices_by_hour_example :
    hour_price 0 (prices_by_hour books) ≡ get_last? (mids_in 0 (by_time (λ t. t.ts) books))
hour_price-prices_by_hour_example = hour_price-prices_by_hour 0 books

abbrev scored_slice : SliceResult ℤ
scored_slice = record (empty_result tracked) {
  prices = books;
  posts = post "a" 5 ∷ [];
  stances = stance "a" 5 ∷ [];
  signals = signal 6 ∷ [];
  model_version = "vader-1";
}

analyze-IsAnalyzed_example :
    (out : SliceResult ℤ) × (analyze statistics scored_slice ≡ ok out)
    × IsAnalyzed statistics (aligned_pairs scored_slice.signals scored_slice.prices) out
analyze-IsAnalyzed_example = analyze-IsAnalyzed statistics scored_slice refl

abbrev pub neutral_stance : String → DateTime → Stance ℤ
neutral_stance id at = record {
  post_id = id;
  market_id = "kalshi:FED";
  created_at = at;
  model_version = "v1";
  stance = pos 0;
  confidence = pos 0;
  disagreement = none;
}

abbrev after_run : Database ℤ
unfolding score_backlog
after_run = (score_backlog tracked (single neutral) 50 stored).1

score_backlog-drained_example :
    (unscored_posts "kalshi:FED" "v1" 1000 after_run ≡ [])
    × (score_backlog tracked (single neutral) 60 after_run ≡ (ok [], after_run))
unfolding unscored_posts augury.Db.sort_by score_backlog augury.Models.make_stance ◌-ℤ◌
score_backlog-drained_example =
    score_backlog-drained tracked (single neutral) 50 60 stored after_run
      (neutral_stance "b" 9 ∷ neutral_stance "a" 5 ∷ []) (omega arith) refl
