-- ===== src/Signal/Transformer.antt =====
-- signal/deberta.py. The tokenizer, the network and the softmax of torch are third-party code, the fields
-- of `Transformers`; the name of the device is only passed on to them and is left out.
use mathlib.Core.List
use Prim.Native.Char.{code}
use Prim.Native.String.{◌++◌}
use augury.Prelude.{
  ℕ, zero, suc, String, Bool, true, false, ◌||◌, Option, none, some, List, [], ◌∷◌, if◌then◌else◌,
  length, take, drop, Result, ok, err, value_error, assertion_error, ◌>>=◌, Exec,
}
use augury.Prelude.Int.{ℤ, pos, negsuc}
use augury.Prelude.Keys.{◌==◌, nat_key, string_key}
use augury.Prelude.Float.{Float, py_min, py_max}
use augury.Prelude.Json.{Builtins, is_empty}
use augury.Signal.Scorers.{StanceScore, StanceModel, make_score}

-- a row of the softmax: `float(row[i])`
abbrev pub Row : Type 0 → Type 0
Row F = ℤ → Result F

pub record Transformers (F : Type 0) : Type 0 where
  -- `import torch` and `transformers`
  pub imports : Result (Unit {0})
  -- `from_pretrained` of the tokenizer and of the model: `id2label` of its config
  pub from_pretrained : String → Result (List (ℤ × String))
  -- tokenizer, network and softmax on a batch, for a checkpoint and a `max_length`
  pub probabilities : String → ℤ → List String → String → Result (List (Row F))
  -- `re.search` of a pattern without special characters, under IGNORECASE
  pub search : String → String → Bool

-- `_LabelMap`
pub record LabelMap : Type 0 where
  pub entailment : ℤ
  pub contradiction : ℤ
  pub neutral : Option ℤ

-- the three variables of `from_id2label`
pub record Found : Type 0 where
  pub entailment : Option ℤ
  pub contradiction : Option ℤ
  pub neutral : Option ℤ

abbrev pub nothing_found : Found
nothing_found = record { entailment = none; contradiction = none; neutral = none }

-- the checks after the loop
unfoldable pub both_labels : Option ℤ → Option ℤ → Option ℤ → Result LabelMap
both_labels (some e) (some c) neutral =
    ok (record { entailment = e; contradiction = c; neutral = neutral })
both_labels _ _ neutral = err value_error

unfoldable pub label_map : Found → Result LabelMap
unfolding both_labels
label_map found = both_labels found.entailment found.contradiction found.neutral

-- the object: its constants, whether `_model` is set, and `_labels`
pub record DebertaModel : Type 0 where
  pub model_name : String
  pub batch_size : ℤ
  pub max_length : ℤ
  pub version_tag : Option String
  pub loaded : Bool
  pub labels : Option LabelMap

-- DEFAULT_MODEL
abbrev pub default_model : String
default_model = "MoritzLaurer/DeBERTa-v3-base-mnli-fever-anli"

-- `DebertaStanceModel()`
abbrev pub make_deberta : DebertaModel
make_deberta = record {
  model_name = default_model;
  batch_size = pos 16;
  max_length = pos 256;
  version_tag = none;
  loaded = false;
  labels = none;
}

-- `name.split("/")[-1]`, where `start` is what follows the last slash so far
unfoldable pub after_slash : String → String → String
after_slash start String.[] = start
after_slash start (String.◌∷◌ c s) = after_slash (if code c == b'/' then s else start) s

unfoldable pub version_or : Option String → String → String
unfolding after_slash
version_or none name = "deberta-nli:" ++ after_slash name name
version_or (some tag) name = if is_empty tag then "deberta-nli:" ++ after_slash name name else tag

-- `model_version`
unfoldable pub deberta_version : DebertaModel → String
unfolding version_or
deberta_version m = version_or m.version_tag m.model_name

module _ {F : Type 0} ⦃d : Float F⦄ where
  -- `float(row[labels.neutral]) if labels.neutral is not None else 0.0`
  abbrev pub neutral_of : Option ℤ → Row F → Result F
  neutral_of none row = ok (d.lit 0 0)
  neutral_of (some i) row = row i

  -- the two clamped numbers of a row
  abbrev pub clamped : (entail contra neutral : F) → StanceScore F
  clamped entail contra neutral = record {
    stance = py_min (d.lit 1 0) (py_max (d.neg (d.lit 1 0)) (d.sub entail contra));
    confidence = py_min (d.lit 1 0) (py_max (d.lit 0 0) (d.sub (d.lit 1 0) neutral));
  }

  unfoldable pub score_row : LabelMap → Row F → Result (StanceScore F)
  unfolding make_score
  score_row labels row = do
    entail ← row labels.entailment
    contra ← row labels.contradiction
    neutral ← neutral_of labels.neutral row
    make_score (clamped entail contra neutral)

  unfoldable pub score_rows : LabelMap → List (Row F) → Result (List (StanceScore F))
  unfolding score_row
  score_rows labels [] = ok []
  score_rows labels (row ∷ rows) = do
    s ← score_row labels row
    rest ← score_rows labels rows
    ok (s ∷ rest)

module _ {F : Type 0} (lib : Transformers F) where
  -- one turn of the loop
  unfoldable pub note_label : ℤ × String → Found → Found
  note_label (index, name) found =
      if lib.search "entail" name
      then record found { entailment = some index }
      else if lib.search "contradict" name
      then record found { contradiction = some index }
      else if lib.search "neutral" name
      then record found { neutral = some index }
      else found

  unfoldable pub note_labels : List (ℤ × String) → Found → Found
  unfolding note_label
  note_labels [] found = found
  note_labels (l ∷ ls) found = note_labels ls (note_label l found)

  unfoldable pub from_id2label : List (ℤ × String) → Result LabelMap
  unfolding note_labels label_map
  from_id2label ls = label_map (note_labels ls nothing_found)

  -- `_load`: `_model` is set before the labels are read
  unfoldable pub load : Exec DebertaModel (Unit {0})
  unfolding from_id2label
  load m =
      if m.loaded
      then (ok tt, m)
      else let pretrained : Result (List (ℤ × String)) = do
        _ ← lib.imports
        lib.from_pretrained m.model_name
        in elim pretrained [
          | err e ↦ (err e, m)
          | ok id2label ↦ elim (from_id2label id2label) [
            | err e ↦ (err e, record m { loaded = true })
            | ok found ↦ (ok tt, record m { loaded = true; labels = some found })
          ]
        ]

  module _ ⦃d : Float F⦄ where
    -- the loop over `range(0, len(texts), size)`, in at most `turns` turns
    unfoldable pub score_batches :
        DebertaModel
        → LabelMap
        → (turns size : ℕ) → List String
        → String
        → Result (List (StanceScore F))
    unfolding score_rows
    score_batches m labels zero size texts target = ok []
    score_batches m labels (suc turns) size [] target = ok []
    score_batches m labels (suc turns) size (t ∷ ts) target = do
      rows ← lib.probabilities m.model_name m.max_length (take size (t ∷ ts)) target
      scores ← score_rows labels rows
      rest ← score_batches m labels turns size (drop size (t ∷ ts)) target
      ok (List.◌++◌ scores rest)

    -- `range` refuses a step of 0 and has no elements for a negative one
    unfoldable pub score_all :
        ℤ → DebertaModel → LabelMap → List String → String → Result (List (StanceScore F))
    unfolding score_batches
    score_all (pos zero) m labels texts target = err value_error
    score_all (pos (suc n)) m labels texts target =
        score_batches m labels (length texts) (suc n) texts target
    score_all (negsuc n) m labels texts target = ok []

    -- the assertion of `score`, then its loop
    unfoldable pub score_with :
        Option LabelMap → DebertaModel → List String → String → Result (List (StanceScore F))
    unfolding score_all
    score_with none m texts target = err assertion_error
    score_with (some labels) m texts target = score_all m.batch_size m labels texts target

    module _ ⦃py : Builtins F⦄ where
      -- `score` with a text, of a target that is not blank
      unfoldable pub score_target : List String → String → Exec DebertaModel (List (StanceScore F))
      unfolding load score_with
      score_target texts target m =
          if is_empty target || is_empty (py.strip target)
          then (err value_error, m)
          else let (made, m') = load m in
            elim made [ err e ↦ (err e, m') | ok _ ↦ (score_with m'.labels m' texts target, m') ]

      -- `score`
      unfoldable pub score_texts : List String → String → Exec DebertaModel (List (StanceScore F))
      unfolding score_target
      score_texts [] target m = (ok [], m)
      score_texts (t ∷ ts) target m = score_target (t ∷ ts) target m

      -- `warm_up`
      unfoldable pub warm_up : Exec DebertaModel (Unit {0})
      unfolding score_texts
      warm_up m =
          let (scores, m') = score_texts ("warm up" ∷ []) "This is a warm up." m in
          ((do _ ← scores; ok tt), m')

      -- the model behind `StanceModel`, with the weights not loaded yet
      abbrev pub deberta_model : DebertaModel → StanceModel F
      deberta_model m = record {
        model_version = deberta_version m;
        score = λ texts target. (score_texts texts target m).0;
      }
