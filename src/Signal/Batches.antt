-- ===== src/Signal/Batches.antt =====
-- signal/deberta.py: what `score` returns, batch by batch.
use mathlib.Core.List
use augury.Prelude.{
  ℕ, zero, suc, ◌≤◌, String, false, ◌≡◌, refl, ap, ◌∙◌, some, [], ◌∷◌, arith, length, length-append,
  take, drop, Result, ok, ◌>>=◌, Result-cases, inl, inr,
}
use augury.Prelude.Int.{pos}
use augury.Prelude.Float.{Float, IsOrdered, clamp_bounds}
use augury.Prelude.Json.{Builtins, is_empty}
use augury.Signal.Scorers.{StanceScore, make_score}
use augury.Signal.Transformer.{
  Row, Transformers, LabelMap, DebertaModel, load, neutral_of, clamped, score_row, score_rows,
  score_batches, score_all, score_with, score_target, score_texts,
}

module _ {A : Type 0} where
  take-append-le : (n : ℕ) (xs : List.List A) → length xs ≤ n → take n (List.◌++◌ xs []) ≡ xs
  take-append-le zero [] h = refl
  take-append-le zero (x ∷ xs) h = absurd (omega (arith, h))
  take-append-le (suc n) [] h = refl
  take-append-le (suc n) (x ∷ xs) h = ap (λ l. x ∷ l) (take-append-le n xs (omega (arith, h)))

  drop-append-le : (n : ℕ) (xs : List.List A) → length xs ≤ n → drop n (List.◌++◌ xs []) ≡ []
  drop-append-le zero [] h = refl
  drop-append-le zero (x ∷ xs) h = absurd (omega (arith, h))
  drop-append-le (suc n) [] h = refl
  drop-append-le (suc n) (x ∷ xs) h = drop-append-le n xs (omega (arith, h))

  take-append : (n : ℕ) (xs ys : List.List A) → length xs ≡ n → take n (List.◌++◌ xs ys) ≡ xs
  take-append zero [] ys h = refl
  take-append zero (x ∷ xs) ys h = absurd (omega (arith, h))
  take-append (suc n) [] ys h = absurd (omega (arith, h))
  take-append (suc n) (x ∷ xs) ys h = ap (λ l. x ∷ l) (take-append n xs ys (omega (arith, h)))

  drop-append : (n : ℕ) (xs ys : List.List A) → length xs ≡ n → drop n (List.◌++◌ xs ys) ≡ ys
  drop-append zero [] ys h = refl
  drop-append zero (x ∷ xs) ys h = absurd (omega (arith, h))
  drop-append (suc n) [] ys h = absurd (omega (arith, h))
  drop-append (suc n) (x ∷ xs) ys h = drop-append n xs ys (omega (arith, h))

-- a batch of texts, with the rows that the network gives for it
abbrev pub Batch : Type 0 → Type 0
Batch F = List.List String × List.List (Row F)

-- the texts, and the rows, of all batches
abbrev pub all_texts : {F : Type 0} → List.List (Batch F) → List.List String
all_texts [] = []
all_texts (b ∷ bs) = List.◌++◌ b.0 (all_texts bs)

abbrev pub all_rows : {F : Type 0} → List.List (Batch F) → List.List (Row F)
all_rows [] = []
all_rows (b ∷ bs) = List.◌++◌ b.1 (all_rows bs)

module _ {F : Type 0} ⦃d : Float F⦄ where
  -- the scores of texts that are read one at a time, each from its own row, and not validated
  abbrev pub score_one : LabelMap → Row F → Result (StanceScore F)
  score_one labels row = do
    entail ← row labels.entailment
    contra ← row labels.contradiction
    neutral ← neutral_of labels.neutral row
    ok (clamped entail contra neutral)

  -- the scores of rows that are read one at a time
  unfoldable pub score_each : LabelMap → List.List (Row F) → Result (List.List (StanceScore F))
  score_each labels [] = ok []
  score_each labels (row ∷ rows) = do
    s ← score_one labels row
    rest ← score_each labels rows
    ok (s ∷ rest)

  score_each-append :
      (labels : LabelMap) (ts us : List.List (Row F))
      → (do a ← score_each labels ts; b ← score_each labels us; ok (List.◌++◌ a b))
        ≡ score_each labels (List.◌++◌ ts us)
  unfolding score_each
  score_each-append labels [] us = elim (Result-cases (score_each labels us)) [
    | inl (e, h) ↦ rw h refl
    | inr (b, h) ↦ rw h refl
  ]
  score_each-append labels (t ∷ ts) us = elim (Result-cases (score_one labels t)) [
    | inl (e, h) ↦ rw h refl
    | inr (s, h) ↦
        rw (h, ← score_each-append labels ts us)
          (elim (Result-cases (score_each labels ts)) [
            | inl (e, k) ↦ rw k refl
            | inr (a, k) ↦ rw k (elim (Result-cases (score_each labels us)) [
              | inl (e, l) ↦ rw l refl
              | inr (b, l) ↦ rw l refl
            ])
          ])
  ]

  module _ (laws : IsOrdered F) where
    open laws use {neg_one_le_one, lit-le}

    -- the clamps make the check of `StanceScore` pass, whatever the rounding of the network was
    make_score-clamped :
        (entail contra neutral : F)
        → make_score (clamped entail contra neutral) ≡ ok (clamped entail contra neutral)
    unfolding make_score
    make_score-clamped entail contra neutral = ground (
      arith,
      clamp_bounds laws (d.neg (d.lit 1 0)) (d.lit 1 0) (d.sub entail contra) neg_one_le_one,
      clamp_bounds laws (d.lit 0 0) (d.lit 1 0) (d.sub (d.lit 1 0) neutral)
          (lit-le 0 1 0 (omega arith)),
    )

    score_row-one : (labels : LabelMap) (row : Row F) → score_row labels row ≡ score_one labels row
    unfolding score_row
    score_row-one labels row = simp (make_score-clamped)

    score_rows-each :
        (labels : LabelMap) (rows : List.List (Row F))
        → score_rows labels rows ≡ score_each labels rows
    unfolding score_rows score_each
    score_rows-each labels [] = refl
    score_rows-each labels (row ∷ rows) =
        rw (score_row-one labels row, score_rows-each labels rows) refl

  module _ (lib : Transformers F) (m : DebertaModel) (target : String) where
    -- the network gives the rows of the batch for its texts
    abbrev pub IsAnswered : Batch F → Type 0
    IsAnswered b = lib.probabilities m.model_name m.max_length b.0 target ≡ ok b.1

    -- batches of `n` texts, of which the last one may be shorter
    abbrev pub IsBatched : ℕ → List.List (Batch F) → Type 0
    IsBatched n [] = Unit
    IsBatched n (b ∷ []) = (1 ≤ length b.0) × (length b.0 ≤ n) × IsAnswered b
    IsBatched n (b ∷ c ∷ bs) = (length b.0 ≡ n) × IsAnswered b × IsBatched n (c ∷ bs)

    module _ (laws : IsOrdered F) (labels : LabelMap) where
      score_batches-step :
          (turns k : ℕ) (t : String) (ts us : List.List String) (rows : List.List (Row F))
          (scores : Result (List.List (StanceScore F)))
          → take (suc k) (t ∷ List.◌++◌ ts us) ≡ t ∷ ts
          → drop (suc k) (t ∷ List.◌++◌ ts us) ≡ us
          → IsAnswered (t ∷ ts, rows)
          → score_batches lib m labels turns (suc k) us target ≡ scores
          → score_batches lib m labels (suc turns) (suc k) (t ∷ List.◌++◌ ts us) target
            ≡ (do a ← score_each labels rows; b ← scores; ok (List.◌++◌ a b))
      unfolding score_batches
      score_batches-step turns k t ts us rows scores taken left answered rest =
          rw (taken, left, answered, score_rows-each laws labels rows, rest) refl

      score_batches-each :
          (turns k : ℕ) (bs : List.List (Batch F))
          → length (all_texts bs) ≤ turns
          → IsBatched (suc k) bs
          → score_batches lib m labels turns (suc k) (all_texts bs) target
            ≡ score_each labels (all_rows bs)
      unfolding score_batches score_each
      score_batches-each zero k [] h b = refl
      score_batches-each (suc turns) k [] h b = refl
      score_batches-each turns k (([], rows) ∷ []) h b = absurd (omega (arith, b.0))
      score_batches-each zero k ((t ∷ ts, rows) ∷ []) h b = absurd (omega (arith, h))
      score_batches-each (suc turns) k ((t ∷ ts, rows) ∷ []) h (some_text, short, answered) =
          score_batches-step turns k t ts [] rows (ok []) (take-append-le (suc k) (t ∷ ts) short)
            (drop-append-le (suc k) (t ∷ ts) short) answered
            (score_batches-each turns k [] (omega arith) tt)
          ∙ score_each-append labels rows []
      score_batches-each turns k (([], rows) ∷ c ∷ bs) h b = absurd (omega (arith, b.0))
      score_batches-each zero k ((t ∷ ts, rows) ∷ c ∷ bs) h b = absurd (omega (arith, h))
      score_batches-each (suc turns) k ((t ∷ ts, rows) ∷ c ∷ bs) h (full, answered, rest) =
          let us = all_texts (c ∷ bs) in
          score_batches-step turns k t ts us rows (score_each labels (all_rows (c ∷ bs)))
            (take-append (suc k) (t ∷ ts) us full) (drop-append (suc k) (t ∷ ts) us full) answered
            (score_batches-each turns k (c ∷ bs) (omega (arith, h, length-append ts us)) rest)
          ∙ score_each-append labels rows (all_rows (c ∷ bs))

-- the constants of the object stay
module _ {F : Type 0} (lib : Transformers F) where
  abbrev pub Same : DebertaModel → DebertaModel → Type 0
  Same m m' =
      (m'.model_name ≡ m.model_name)
      × (m'.batch_size ≡ m.batch_size)
      × (m'.max_length ≡ m.max_length)

  pub load-Same : (m : DebertaModel) → Same m (load lib m).1
  unfolding load
  load-Same m = ground arith

module _ {F : Type 0} ⦃d : Float F⦄ ⦃py : Builtins F⦄ (lib : Transformers F) where
  pub score_texts-loaded :
      (t : String) (ts : List.List String) (target : String) (m m' : DebertaModel)
      → is_empty target ≡ false
      → is_empty (py.strip target) ≡ false
      → load lib m ≡ (ok tt, m')
      → score_texts lib (t ∷ ts) target m ≡ (score_with lib m'.labels m' (t ∷ ts) target, m')
  unfolding score_texts score_target
  score_texts-loaded t ts target m m' named stated loads =
      rw (named, stated, ap (λ r. r.0) loads, ap (λ r. r.1) loads) refl

module _ {F : Type 0} ⦃d : Float F⦄ ⦃py : Builtins F⦄ (laws : IsOrdered F)
    (lib : Transformers F) where
  -- Whatever rows the network gives for the successive batches of `batch_size` texts, of which the last may
  -- be shorter, `score` on all the texts returns the clamped numbers of all these rows, one score for each
  -- row, in the order of the batches, and raises only what the reading of a row raises: no text is left
  -- out or scored twice, and the range check of `StanceScore` never fails. The batch size is positive, there
  -- is a text, the target is not blank, and the model and its labels load.
  pub score_texts-each :
      (b : Batch F) (bs : List.List (Batch F)) (t : String) (ts : List.List String)
      (target : String) (m m' : DebertaModel) (labels : LabelMap) (k : ℕ)
      → is_empty target ≡ false
      → is_empty (py.strip target) ≡ false
      → load lib m ≡ (ok tt, m')
      → m'.labels ≡ some labels
      → m'.batch_size ≡ pos (suc k)
      → t ∷ ts ≡ all_texts (b ∷ bs)
      → IsBatched lib m' target (suc k) (b ∷ bs)
      → score_texts lib (t ∷ ts) target m ≡ (score_each labels (all_rows (b ∷ bs)), m')
  unfolding score_with score_all
  score_texts-each b bs t ts target m m' labels k named stated loads found size texts batched =
      let enough : length (all_texts (b ∷ bs)) ≤ length (t ∷ ts) = omega (arith, ap length texts) in
      let scores =
        ap (λ l. score_with lib l m' (t ∷ ts) target) found
        ∙ ap (λ n. score_all lib n m' labels (t ∷ ts) target) size
        ∙ ap (λ us. score_batches lib m' labels (length (t ∷ ts)) (suc k) us target) texts
        ∙ score_batches-each lib m' target laws labels (length (t ∷ ts)) k (b ∷ bs) enough
            batched in
      score_texts-loaded lib t ts target m m' named stated loads ∙ ap (λ r. (r, m')) scores
