-- ===== src/Signal/Labels.antt =====
-- signal/deberta.py: how many scores `score` returns and their range, the labels that it reads, and what a
-- failed load leaves behind.
use mathlib.Core.List
use mathlib.Core.Path.{subst}
use augury.Prelude.{
  Bool, ℕ, zero, suc, ◌+◌, ◌≤◌, String, true, false, ◌≡◌, refl, sym, ap, ◌∙◌, Option, none, some,
  [], ◌∷◌, arith, length, length-append, length-drop, take, drop, All, All-append, Result, ok, err,
  value_error, assertion_error, Error, IsPost, IsPost-after, IsPost->>=, Result-cases, inl, inr,
  ◌||◌, Bool-cases, Option-cases,
}
use augury.Prelude.Int.{ℤ, pos}
use augury.Prelude.Float.{Float}
use augury.Prelude.Json.{Builtins, is_empty}
use augury.Models.{in_signed_unit, in_unit}
use augury.Signal.Scorers.{StanceScore, make_score}
use augury.Signal.Transformer.{
  Row, Transformers, LabelMap, DebertaModel, load, neutral_of, clamped, score_row, score_rows,
  score_batches, score_all, score_with, score_target, score_texts, from_id2label,
}
use augury.Signal.Batches.{load-Same, score_texts-loaded}

length-take-drop :
    {A : Type 0} (n : ℕ) (xs : List.List A) → length (take n xs) + length (drop n xs) ≡ length xs
length-take-drop zero xs = omega arith
length-take-drop (suc n) [] = refl
length-take-drop (suc n) (x ∷ xs) = omega (arith, length-take-drop n xs)

module _ {F : Type 0} ⦃d : Float F⦄ where
  abbrev pub IsInRange : StanceScore F → Type 0
  IsInRange s = (in_signed_unit s.stance ≡ true) × (in_unit s.confidence ≡ true)

  -- one score for each of `n` texts, in range
  abbrev pub IsScored : ℕ → List.List (StanceScore F) → Type 0
  IsScored n ss = (length ss ≡ n) × All IsInRange ss

  make_score-IsInRange : (s : StanceScore F) → IsPost IsInRange (make_score s)
  unfolding make_score
  make_score-IsInRange s = ground arith

  score_row-IsInRange : (labels : LabelMap) (row : Row F) → IsPost IsInRange (score_row labels row)
  unfolding score_row
  score_row-IsInRange labels row = IsPost->>= IsInRange (row labels.entailment) _ λ entail.
      IsPost->>= IsInRange (row labels.contradiction) _ λ contra.
        IsPost->>= IsInRange (neutral_of labels.neutral row) _
          λ neutral. make_score-IsInRange (clamped entail contra neutral)

  score_rows-IsScored :
      (labels : LabelMap) (rows : List.List (Row F))
      → IsPost (IsScored (length rows)) (score_rows labels rows)
  unfolding score_rows
  score_rows-IsScored labels [] = (refl, tt)
  score_rows-IsScored labels (row ∷ rows) =
      IsPost-after (IsScored (suc (length rows))) IsInRange (score_row labels row) _
        (score_row-IsInRange labels row)
        λ s fits.
          IsPost-after (IsScored (suc (length rows))) (IsScored (length rows))
            (score_rows labels rows) _ (score_rows-IsScored labels rows)
            λ rest scored. (ap suc scored.0, (fits, scored.1))

  module _ (lib : Transformers F) where
    -- the network gives a row for each text of a batch
    abbrev pub IsRowPerText : Type 0
    IsRowPerText =
        (name : String) (bound : ℤ) (batch : List.List String) (target : String)
        → IsPost (λ rows. length rows ≡ length batch) (lib.probabilities name bound batch target)

    module _ (m : DebertaModel) (labels : LabelMap) (target : String)
        (per_text : IsRowPerText) where
      score_batches-IsScored :
          (turns k : ℕ) (ts : List.List String)
          → length ts ≤ turns
          → IsPost (IsScored (length ts)) (score_batches lib m labels turns (suc k) ts target)
      unfolding score_batches
      score_batches-IsScored zero k [] h = (refl, tt)
      score_batches-IsScored zero k (t ∷ ts) h = elim h [ ]
      score_batches-IsScored (suc turns) k [] h = (refl, tt)
      score_batches-IsScored (suc turns) k (t ∷ ts) h =
          let batch = t ∷ take k ts in
          let left = drop k ts in
          let P = IsScored (suc (length ts)) in
          IsPost-after P (λ rows. length rows ≡ length batch)
            (lib.probabilities m.model_name m.max_length batch target) _
            (per_text m.model_name m.max_length batch target)
            λ rows same.
              IsPost-after P (IsScored (length rows)) (score_rows labels rows) _
                (score_rows-IsScored labels rows)
                λ scores scored.
                  IsPost-after P (IsScored (length left))
                    (score_batches lib m labels turns (suc k) left target) _
                    (score_batches-IsScored turns k left (omega (arith, length-drop k ts, h)))
                    λ rest after. (
                      omega (
                        arith,
                        length-append scores rest,
                        scored.0,
                        after.0,
                        same,
                        length-take-drop k ts,
                      ),
                      All-append IsInRange scores rest scored.1 after.1,
                    )

      score_with-IsScored :
          (k : ℕ) (ts : List.List String) (found : Option LabelMap) (size : ℤ)
          → found ≡ some labels
          → size ≡ pos (suc k)
          → m.batch_size ≡ size
          → IsPost (IsScored (length ts)) (score_with lib found m ts target)
      unfolding score_with score_all
      score_with-IsScored k ts found size e f g =
          rw (e, g ∙ f) (score_batches-IsScored (length ts) k ts (omega arith))

||-eq-false : (a b : Bool) → (a || b) ≡ false → (a ≡ false) × (b ≡ false)
||-eq-false a b h = ground arith

module _ {F : Type 0} ⦃d : Float F⦄ ⦃py : Builtins F⦄ (lib : Transformers F) where
  score_loaded-IsScored :
      (m : DebertaModel) (ts : List.List String) (target : String) (k : ℕ)
      → IsRowPerText lib
      → m.batch_size ≡ pos (suc k)
      → IsPost (IsScored (length ts)) (score_with lib m.labels m ts target)
  unfolding score_with
  score_loaded-IsScored m ts target k per_text size = elim (Option-cases m.labels) [
    | inl none_found ↦ rw (none_found, score_with) tt
    | inr (labels, found) ↦
        score_with-IsScored lib m labels target per_text k ts m.labels (pos (suc k)) found refl size
  ]

  -- For a positive batch size and a network that gives a row for each text, `score` on any texts, whatever
  -- the rows and the state of the object are, raises or returns one score for each text, with a stance in
  -- [-1, 1] and a confidence in [0, 1].
  pub score_texts-IsScored :
      (ts : List.List String) (target : String) (m : DebertaModel) (k : ℕ)
      → IsRowPerText lib
      → m.batch_size ≡ pos (suc k)
      → IsPost (IsScored (length ts)) (score_texts lib ts target m).0
  unfolding score_texts score_target
  score_texts-IsScored [] target m k per_text size = (refl, tt)
  score_texts-IsScored (t ∷ ts) target m k per_text size =
      elim (Bool-cases (is_empty target || is_empty (py.strip target))) [
        | inl blank ↦ rw blank tt
        | inr stated ↦ rw stated (elim (Result-cases (load lib m).0) [
          | inl (e, failed) ↦ rw failed tt
          | inr (u, done) ↦ rw done (
              score_loaded-IsScored (load lib m).1 (t ∷ ts) target k per_text
                ((load-Same lib m).1 ∙ size))
        ])
      ]

  load-unlabelled :
      (m : DebertaModel) (id2label : List.List (ℤ × String)) (e : Error)
      → m.loaded ≡ false
      → lib.imports ≡ ok tt
      → lib.from_pretrained m.model_name ≡ ok id2label
      → from_id2label lib id2label ≡ err e
      → load lib m ≡ (err e, record m { loaded = true })
  unfolding load
  load-unlabelled m id2label e fresh imported fetched unknown = ground arith

  score_texts-failed :
      (t : String) (ts : List.List String) (target : String) (m m' : DebertaModel) (e : Error)
      → (is_empty target || is_empty (py.strip target)) ≡ false
      → load lib m ≡ (err e, m')
      → score_texts lib (t ∷ ts) target m ≡ (err e, m')
  unfolding score_texts score_target
  score_texts-failed t ts target m m' e stated failed =
      rw (stated, ap (λ r. r.0) failed, ap (λ r. r.1) failed) refl

  load-again : (m : DebertaModel) → m.loaded ≡ true → load lib m ≡ (ok tt, m)
  unfolding load
  load-again m loaded = ground arith

  score_texts-asserts :
      (t : String) (ts : List.List String) (target : String) (m : DebertaModel)
      → (is_empty target || is_empty (py.strip target)) ≡ false
      → m.loaded ≡ true
      → m.labels ≡ none
      → score_texts lib (t ∷ ts) target m ≡ (err assertion_error, m)
  unfolding score_with
  score_texts-asserts t ts target m stated loaded none_yet =
      let parts = ||-eq-false _ _ stated in
      score_texts-loaded lib t ts target m m parts.0 parts.1 (load-again m loaded)
      ∙ ap (λ l. (score_with lib l m (t ∷ ts) target, m)) none_yet

  -- A checkpoint whose labels are not recognised: the first call of `score` raises the ValueError of
  -- `from_id2label`, and a call on the object that it leaves, with any text and any target, raises
  -- AssertionError and leaves the object as it is, and so does the next one. Neither target is blank, and
  -- the library and the checkpoint can be loaded.
  pub score_texts-unlabelled :
      (m : DebertaModel) (id2label : List.List (ℤ × String)) (t u : String)
      (ts us : List.List String) (target goal : String)
      → m.loaded ≡ false
      → m.labels ≡ none
      → lib.imports ≡ ok tt
      → lib.from_pretrained m.model_name ≡ ok id2label
      → from_id2label lib id2label ≡ err value_error
      → (is_empty target || is_empty (py.strip target)) ≡ false
      → (is_empty goal || is_empty (py.strip goal)) ≡ false
      → let (first, m') = score_texts lib (t ∷ ts) target m in
        (first ≡ err value_error) × (score_texts lib (u ∷ us) goal m' ≡ (err assertion_error, m'))
  score_texts-unlabelled m id2label t u ts us target goal fresh none_yet imported fetched unknown
        named stated =
      let loads = load-unlabelled m id2label value_error fresh imported fetched unknown in
      let m' : DebertaModel = record m { loaded = true } in
      subst
        (λ (r : Result (List.List (StanceScore F)) × DebertaModel).
          (r.0 ≡ err value_error)
          × (score_texts lib (u ∷ us) goal r.1 ≡ (err assertion_error, r.1)))
        (sym (score_texts-failed t ts target m m' value_error named loads))
        (refl, score_texts-asserts u us goal m' stated refl none_yet)
