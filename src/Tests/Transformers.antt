-- ===== src/Tests/Transformers.antt =====
-- The transformer model and the fit of the calibration.
use augury.Prelude.{
  ap, suc, ◌≡◌, ◌⊎◌, refl, String, true, ◌&&◌, ◌||◌, some, none, Option, false, List, [], ◌∷◌, map,
  ok, err, Error, value_error, assertion_error, IsPost, length, if◌then◌else◌, arith,
}
use augury.Prelude.Int.{ℤ, pos, ◌+ℤ◌, ◌-ℤ◌}
use augury.Prelude.Keys.{◌==◌, string_key}
use augury.Prelude.Micro.{micro, micro-IsOrdered}
use augury.Signal.{
  Transformers, Row, LabelMap, DebertaModel, make_deberta, score_texts, from_id2label, Arrays,
  PlattParams, fit_platt,
}
use augury.Signal.Batches.{score_each, score_texts-each}
use augury.Signal.Labels.{IsScored, score_texts-IsScored, score_texts-unlabelled}
use augury.Signal.Fitting.{IsSound, IsFit, IsRefusal, is_any_huge, fit_platt-ok}
use augury.Db.{resolved_signal_pairs}
use augury.Orchestrator.{FitReport, configured_version, calibration_fit}
use augury.Orchestrator.Calibrated.{IsReport, IsSmall, calibration_fit-ok}
use augury.Tests.Data.{stored}
use augury.Tests.Samples.{neutral, plain}

-- 0.5 for entailment, 0.3 for a neutral reading, 0.2 for contradiction
abbrev row_of : String → Row ℤ
row_of text i = if text == "" then err value_error else ok (pos 300_000 +ℤ i)

abbrev id2label : List (ℤ × String)
id2label = (pos 0, "entailment") ∷ (pos 1, "neutral") ∷ (pos 2, "contradiction") ∷ []

abbrev checkpoint : List (ℤ × String) → Transformers ℤ
checkpoint labels = record {
  imports = ok tt;
  from_pretrained = λ name. ok labels;
  probabilities = λ name bound batch target. ok (map row_of batch);
  search = λ pattern name.
      (pattern == "entail" && name == "entailment")
      || (pattern == "neutral" && name == "neutral")
      || (pattern == "contradict" && name == "contradiction");
}

abbrev label_indices : LabelMap
label_indices = record { entailment = pos 0; contradiction = pos 2; neutral = some (pos 1) }

abbrev in_memory : DebertaModel
in_memory = record make_deberta { loaded = true; labels = some label_indices }

abbrev rows_at : List String → List (Row ℤ)
rows_at ts = map row_of ts

-- three texts in batches of two
abbrev in_pairs : DebertaModel
in_pairs = record make_deberta { batch_size = pos 2 }

abbrev loaded_pairs : DebertaModel
loaded_pairs = record in_pairs { loaded = true; labels = some label_indices }

score_texts-each_example :
    score_texts (checkpoint id2label) ("up" ∷ "down" ∷ "flat" ∷ []) "It rains" in_pairs
    ≡ (score_each label_indices (rows_at ("up" ∷ "down" ∷ "flat" ∷ [])), loaded_pairs)
unfolding augury.Signal.load
score_texts-each_example =
    score_texts-each micro-IsOrdered (checkpoint id2label)
      ("up" ∷ "down" ∷ [], rows_at ("up" ∷ "down" ∷ [])) (("flat" ∷ [], rows_at ("flat" ∷ [])) ∷ [])
      "up" ("down" ∷ "flat" ∷ []) "It rains" in_pairs loaded_pairs label_indices 1 refl refl refl
      refl refl refl (refl, refl, (omega arith, omega arith, refl))

length-map-rows : (batch : List String) → length (map row_of batch) ≡ length batch
length-map-rows [] = refl
length-map-rows (t ∷ ts) = ap suc (length-map-rows ts)

score_texts-IsScored_example :
    IsPost
      (IsScored 2)
      (score_texts (checkpoint id2label) ("up" ∷ "down" ∷ []) "It rains" make_deberta).0
score_texts-IsScored_example =
    score_texts-IsScored (checkpoint id2label) ("up" ∷ "down" ∷ []) "It rains" make_deberta 15
      (λ name bound batch target. length-map-rows batch) refl

abbrev unknown_labels : List (ℤ × String)
unknown_labels = (pos 0, "LABEL_0") ∷ (pos 1, "LABEL_1") ∷ []

score_texts-unlabelled_example :
    let (first, m') = score_texts (checkpoint unknown_labels) ("up" ∷ []) "It rains" make_deberta in
    (first ≡ err value_error)
    × (score_texts (checkpoint unknown_labels) ("up" ∷ []) "It rains" m'
        ≡ (err assertion_error, m'))
unfolding from_id2label
score_texts-unlabelled_example =
    score_texts-unlabelled (checkpoint unknown_labels) make_deberta unknown_labels "up" "up" [] []
      "It rains" "It rains" refl refl refl refl refl refl refl

micro-IsSound : IsSound ℤ
unfolding ◌-ℤ◌ ◌+ℤ◌
micro-IsSound = record {
  zero_is_small = λ x h. ground (arith, h);
  not_zero-count = λ n. ground arith;
}

abbrev arrays : Arrays ℤ
arrays = record {
  sum = λ xs. pos 0;
  mean = λ xs. pos 0;
  minimum = λ xs. pos 0;
  maximum = λ xs. pos 1_000_000;
  exp = λ x. x;
  log = λ x. x;
  clip = λ x lo hi. x;
}

abbrev history : List ℤ
history = pos 500_000 ∷ pos 250_000 ∷ []

abbrev resolutions : List ℤ
resolutions = pos 1 ∷ pos 0 ∷ []

fit_platt-ok_example :
    ((p : PlattParams ℤ) × (fit_platt arrays 100 (pos 1) history resolutions ≡ ok p)
      × IsFit 2 p
      × (length resolutions ≡ 2))
    ⊎ ((e : Error) × (fit_platt arrays 100 (pos 1) history resolutions ≡ err e)
        × IsRefusal ℤ resolutions e)
fit_platt-ok_example = fit_platt-ok micro-IsSound arrays 100 (pos 1) history resolutions

abbrev no_variables : String → Option String
no_variables name = none

-- neither of the stored outcomes is too large
none_huge : (ns : List ℤ) → is_any_huge ℤ ns ≡ false
none_huge [] = refl
none_huge (n ∷ ns) = none_huge ns

stored-IsSmall : IsSmall stored
stored-IsSmall version = none_huge (map (λ p. p.1) (resolved_signal_pairs version stored))

calibration_fit-ok_example :
    ((e : Error) × (configured_version no_variables neutral (ok neutral) ≡ err e)
      × (calibration_fit no_variables neutral (ok neutral) arrays stored ≡ err e))
    ⊎ ((version : String) × (r : FitReport ℤ) × (configured_version no_variables neutral
            (ok neutral)
          ≡ ok version)
        × (calibration_fit no_variables neutral (ok neutral) arrays stored ≡ ok r)
        × IsReport (length (resolved_signal_pairs version stored)) r)
calibration_fit-ok_example =
    calibration_fit-ok micro-IsSound no_variables neutral (ok neutral) arrays stored stored-IsSmall
