-- ===== src/Pipeline/Posts.antt =====
-- pipeline/steps.py: `score_posts`.
use augury.Prelude.{
  String, Option, none, some, List, [], ◌∷◌, map, Result, ok, err, value_error, ◌>>=◌,
}
use augury.Prelude.Float.{Float}
use augury.Models.{Post, Stance, make_stance}
use augury.Signal.{StanceModel, StanceScore, ensemble_version, score_with_disagreement}

-- the model that is passed: an `EnsembleStanceModel`, or any other
pub data ScoringModel (F : Type 0) : Type 0 where
  single : StanceModel F → ScoringModel F
  ensemble : StanceModel F → StanceModel F → ScoringModel F

abbrev pub version_of : {F : Type 0} ⦃d : Float F⦄ → ScoringModel F → String
version_of (single model) = model.model_version
version_of (ensemble primary secondary) = ensemble_version primary secondary

module _ {F : Type 0} ⦃d : Float F⦄ where
  abbrev pub stance_for : String → Post → StanceScore F → Option F → Stance F
  stance_for version post score disagreement = record {
    post_id = post.post_id;
    market_id = post.market_id;
    created_at = post.created_at;
    model_version = version;
    stance = score.stance;
    confidence = score.confidence;
    disagreement = disagreement;
  }

  -- the comprehension over `zip(posts, scores, strict=True)`
  unfoldable pub zip_stances :
      String → List Post → List (StanceScore F × Option F) → Result (List (Stance F))
  zip_stances version [] [] = ok []
  zip_stances version (post ∷ posts) ((score, disagreement) ∷ scores) = do
    s ← make_stance (stance_for version post score disagreement)
    rest ← zip_stances version posts scores
    ok (s ∷ rest)
  zip_stances version _ _ = err value_error

  abbrev pub scored_pairs :
      ScoringModel F → List String → String → Result (List (StanceScore F × Option F))
  scored_pairs (single model) texts target = do
    scores ← model.score texts target
    ok (map (λ s. (s, none)) scores)
  scored_pairs (ensemble primary secondary) texts target = do
    pairs ← score_with_disagreement primary secondary texts target
    ok (map (λ p. (p.0, some p.1)) pairs)

  unfoldable pub score_posts : List Post → ScoringModel F → String → Result (List (Stance F))
  unfolding zip_stances
  score_posts [] model target = ok []
  score_posts (p ∷ ps) model target = do
    scores ← scored_pairs model (map (λ post. post.text) (p ∷ ps)) target
    zip_stances (version_of model) (p ∷ ps) scores
