-- ===== src/Slice/Reported.antt =====
-- What a slice reports: when there is a Granger result, and when there is a score.
use Prim.Native.Nat.{min}
use augury.Prelude.{
  suc, ◌≤◌, ◌/◌, ◌+◌, ◌*◌, map, false, Option, none, some, List, [], ◌∷◌, ◌≡◌, refl, ap, arith, inl,
  inr, Bool-cases, length, ltb, ok, Result, ltb→le, Result-cases, ◌⊎◌,
}
use augury.Prelude.Int.{pos, ◌-ℤ◌}
use augury.Prelude.Float.{Float}
use augury.Models.{DateTime, SignalPoint, PriceTick}
use augury.Analytics.{Statistics, granger_test, GrangerResult, lag_row, of_float, range_from}
use augury.Analytics.Lags.{cross_correlation-ok}
use augury.Analytics.Corrected.{IsRaw, granger_test-IsRaw}
use augury.Slice.Aligned.{add_pair, columns, aligned_pairs, prices_by_hour}
use augury.Slice.Analysis.{
  SliceResult, too_few, not_moved, analyze, analyze_causality, is_degenerate,
}

module _ {F : Type 0} ⦃d : Float F⦄ where
  -- the two columns are equally long
  columns-length :
      (value : SignalPoint F → Option F) (ps : List (SignalPoint F)) (table : List (DateTime × F))
      → length (columns value ps table).0 ≡ length (columns value ps table).1
  unfolding columns
  columns-length value [] table = refl
  columns-length value (p ∷ ps) table = added (value p) _ _ (columns-length value ps table)
    where
      added :
          (x price : Option F) (cs : List F × List F)
          → length cs.0 ≡ length cs.1
          → length (add_pair x price cs).0 ≡ length (add_pair x price cs).1
      added none price cs h = h
      added (some x) none cs h = h
      added (some x) (some p) cs h = ap suc h

  aligned_pairs-length :
      (signals : List (SignalPoint F)) (prices : List (PriceTick F))
      → length (aligned_pairs signals prices).0 ≡ length (aligned_pairs signals prices).1
  unfolding aligned_pairs
  aligned_pairs-length signals prices =
      columns-length (λ p. some p.s_t) signals (prices_by_hour prices)

  module _ (stats : Statistics F) where
    -- what the analysis reports for the two columns
    abbrev pub IsAnalyzed : List F × List F → SliceResult F → Type 0
    IsAnalyzed (signal_values, price_values) r =
        (r.granger ≡ none)
        ⊎ ((g : GrangerResult F) × (r.granger ≡ some g)
            × (20 ≤ length signal_values)
            × (is_degenerate price_values ≡ false)
            × IsRaw stats "signal_to_price" g)

    abbrev tested : List F → List F → Result (GrangerResult F)
    tested signal_values price_values =
        granger_test stats signal_values price_values "signal_to_price" 12 "aic" false

    analyze_causality-IsAnalyzed :
        (signal_values price_values : List F) (r : SliceResult F)
        → r.granger ≡ none
        → is_degenerate price_values ≡ false
        → IsAnalyzed
            (signal_values, price_values)
            (analyze_causality stats signal_values price_values r)
    unfolding analyze_causality
    analyze_causality-IsAnalyzed signal_values price_values r h moved =
        elim (Bool-cases (ltb (length signal_values) 20)) [
          | inl e ↦ rw e (inl h)
          | inr e ↦ elim (Result-cases (tested signal_values price_values)) [
            | inl (raised, f) ↦ rw (e, f) (inl h)
            | inr (g, f) ↦
                rw (e, f)
                  (inr (
                    g,
                    refl,
                    ltb→le (length signal_values) 20 e,
                    moved,
                    granger_test-IsRaw stats signal_values price_values "signal_to_price" 12 "aic"
                        false g f,
                  ))
          ]
        ]

    -- `_analyze` of a result without a Granger test never raises, and it adds one only from at least 20 aligned
    -- pairs whose prices moved by at least the threshold; it is then the uncorrected test of signal on price.
    pub analyze-IsAnalyzed :
        (r : SliceResult F)
        → r.granger ≡ none
        → (out : SliceResult F) × (analyze stats r ≡ ok out)
          × IsAnalyzed (aligned_pairs r.signals r.prices) out
    unfolding analyze
    analyze-IsAnalyzed r h =
        let xs = (aligned_pairs r.signals r.prices).0 in
        let ps = (aligned_pairs r.signals r.prices).1 in
        elim (Bool-cases (ltb (length xs) 5)) [
          | inl e ↦ (record r { granger_note = too_few (length xs) }, rw e refl, inl h)
          | inr e ↦ elim (Bool-cases (is_degenerate ps)) [
            | inl f ↦ (record r { granger_note = not_moved (length ps) }, rw (e, f) refl, inl h)
            | inr f ↦
                let rows = map (lag_row stats (map of_float xs) (map of_float ps)) (
                  range_from (pos 0 -ℤ pos (min 6 (length xs / 3)))
                    (2 * min 6 (length xs / 3) + 1)) in
                let found =
                  cross_correlation-ok stats xs ps (min 6 (length xs / 3))
                    (aligned_pairs-length r.signals r.prices)
                    (omega (arith, ltb→le (length xs) 5 e)) in
                (
                  analyze_causality stats xs ps (record r { correlations = some rows }),
                  rw (e, f, found) refl,
                  analyze_causality-IsAnalyzed xs ps (record r { correlations = some rows }) h f,
                )
          ]
        ]
