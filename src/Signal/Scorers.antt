-- ===== src/Signal/Scorers.antt =====
-- signal/stance.py. The models themselves (the VADER lexicon, the transformer) are third-party code
-- behind `score`, which is a parameter.
use Prim.Native.String.{◌++◌}
use augury.Prelude.{
  if◌then◌else◌, String, not, List, [], ◌∷◌, Result, ok, err, value_error, ◌>>=◌, ◌>>◌, raise_if,
}
use augury.Prelude.Float.{Float}
use augury.Prelude.Keys.{◌==◌, string_key}
use augury.Prelude.Json.{Builtins}
use augury.Models.{in_signed_unit, in_unit}

pub record StanceScore (F : Type 0) : Type 0 where
  pub stance : F
  pub confidence : F

-- `StanceModel`: a version, and `score(texts, target)`
pub record StanceModel (F : Type 0) : Type 0 where
  pub model_version : String
  pub score : List String → String → Result (List (StanceScore F))

module _ {F : Type 0} ⦃d : Float F⦄ where
  unfoldable pub make_score : StanceScore F → Result (StanceScore F)
  make_score s = do
    raise_if (not (in_signed_unit s.stance)) value_error
    raise_if (not (in_unit s.confidence)) value_error
    ok s

  -- `VaderStanceModel.score`, over the analyzer's compound score of a text
  unfoldable pub vader_score : (String → F) → List String → String → Result (List (StanceScore F))
  unfolding make_score
  vader_score compound [] target = ok []
  vader_score compound (text ∷ texts) target = do
    s ← make_score (record { stance = compound text; confidence = d.abs (compound text) })
    rest ← vader_score compound texts target
    ok (s ∷ rest)

  -- `EnsembleStanceModel.model_version`
  abbrev pub ensemble_version : StanceModel F → StanceModel F → String
  ensemble_version primary secondary = primary.model_version ++ "+" ++ secondary.model_version

  -- `zip(primary, secondary, strict=True)` with the disagreements
  unfoldable pub disagreements :
      List (StanceScore F) → List (StanceScore F) → Result (List (StanceScore F × F))
  disagreements [] [] = ok []
  disagreements (p ∷ ps) (s ∷ ss) = do
    rest ← disagreements ps ss
    ok ((p, d.abs (d.sub p.stance s.stance)) ∷ rest)
  disagreements _ _ = err value_error

  unfoldable pub score_with_disagreement :
      StanceModel F → StanceModel F → List String → String → Result (List (StanceScore F × F))
  unfolding disagreements
  score_with_disagreement primary secondary texts target = do
    p ← primary.score texts target
    s ← secondary.score texts target
    disagreements p s

  -- `build_stance_model`; `deberta` is the construction of the transformer, an import included
  unfoldable pub build_stance_model :
      ⦃py : Builtins F⦄
      → (vader : StanceModel F) (deberta : Result (StanceModel F)) → String
      → Result (StanceModel F)
  build_stance_model ⦃py⦄ vader deberta name =
      let key = py.lower (py.strip name) in
      if key == "vader" then ok vader else if key == "deberta" then deberta else err value_error
