-- ===== src/Pipeline/Covered.antt =====
-- pipeline/steps.py: `score_posts` gives every post a stance, under the post's key.
use augury.Prelude.{
  any, false, String, Bool, true, Option, List, [], ◌∷◌, map, ◌≡◌, refl, sym, ap, arith, inl, inr,
  Bool-cases, All, IsPost, IsPost->>=, IsPost-after,
}
use mathlib.Core.Path.{subst}
use augury.Prelude.Float.{Float}
use augury.Prelude.Keys.{==_refl, ◌==◌, string_key, nat_key, pair_key, pair_beq_iff}
use augury.Models.{DateTime, Post, Stance, make_stance}
use augury.Signal.{StanceScore}
use augury.Db.{post_key, stance_of}
use augury.Db.Backlog.{covers}
use augury.Pipeline.Posts.{
  ScoringModel, version_of, score_posts, zip_stances, scored_pairs, stance_for,
}

module _ {F : Type 0} ⦃d : Float F⦄ where
  make_stance-IsPost : (s : Stance F) → IsPost (λ made. made ≡ s) (make_stance s)
  unfolding make_stance
  make_stance-IsPost s = ground arith

  covers-more :
      (version : String) (s : Stance F) (ss : List (Stance F)) (posts : List Post)
      → All (λ p. covers version ss p ≡ true) posts
      → All (λ p. covers version (s ∷ ss) p ≡ true) posts
  covers-more version s ss [] h = tt
  covers-more version s ss (p ∷ ps) h = (ground (arith, h.0), covers-more version s ss ps h.1)

  covers-own :
      (version : String) (p : Post) (score : StanceScore F) (disagreement : Option F)
      → (rest : List (Stance F))
      → covers version (stance_for version p score disagreement ∷ rest) p ≡ true
  covers-own version p score disagreement rest = rw (==_refl (stance_of version p)) refl

  zip_stances-covers :
      (version : String) (posts : List Post) (scores : List (StanceScore F × Option F))
      → IsPost
          (λ ss. All (λ p. covers version ss p ≡ true) posts)
          (zip_stances version posts scores)
  unfolding zip_stances
  zip_stances-covers version [] [] = tt
  zip_stances-covers version [] (s ∷ ss) = tt
  zip_stances-covers version (p ∷ ps) [] = tt
  zip_stances-covers version (p ∷ ps) ((score, disagreement) ∷ scores) =
      let P : List (Stance F) → Type 0 = λ ss. All (λ q. covers version ss q ≡ true) (p ∷ ps) in
      let s = stance_for version p score disagreement in
      IsPost-after P (λ made. made ≡ s) (make_stance s) _ (make_stance-IsPost s)
        λ made same.
          IsPost-after P (λ ss. All (λ q. covers version ss q ≡ true) ps)
            (zip_stances version ps scores) _ (zip_stances-covers version ps scores)
            λ rest covered. (
              subst (λ m. covers version (m ∷ rest) p ≡ true) (sym same)
                  (covers-own version p score disagreement rest),
              covers-more version made rest ps covered,
            )

  pub score_posts-covers :
      (posts : List Post) (model : ScoringModel F) (target : String)
      → IsPost
          (λ ss. All (λ p. covers (version_of model) ss p ≡ true) posts)
          (score_posts posts model target)
  unfolding score_posts
  score_posts-covers [] model target = tt
  score_posts-covers (p ∷ ps) model target =
      IsPost->>= (λ ss. All (λ q. covers (version_of model) ss q ≡ true) (p ∷ ps))
        (scored_pairs model (map (λ post. post.text) (p ∷ ps)) target) _
        λ scores. zip_stances-covers (version_of model) (p ∷ ps) scores

-- one of the posts has the id, the market and the time of `q`
abbrev pub has_key : List Post → Post → Bool
has_key posts q = any (λ p. post_key p == post_key q) posts

key_path : (p q : Post) → (post_key p == post_key q) ≡ true → post_key p ≡ post_key q
key_path p q e = (pair_beq_iff string_key pair_key (post_key p) (post_key q)).0 e

pub All-map :
    (P Q : Post → Type 0) (xs : List Post) → ((x : Post) → P x → Q x) → All P xs → All Q xs
All-map P Q [] f h = tt
All-map P Q (x ∷ xs) f h = (f x h.0, All-map P Q xs f h.1)

module _ {F : Type 0} where
  covers-key :
      (version : String) (ss : List (Stance F)) (p q : Post)
      → post_key p ≡ post_key q
      → covers version ss p ≡ covers version ss q
  covers-key version ss p q same =
      ap
        (λ (k : String × (String × DateTime)).
          any
            (λ (s : Stance F).
              ◌==◌ {A = String × (String × (String × DateTime))}
                (s.post_id, (s.market_id, (s.model_version, s.created_at)))
                (k.0, (k.1.0, (version, k.1.1))))
            ss)
        same

  pub uncovered-has_key :
      (version : String) (ss : List (Stance F)) (posts : List Post) (q : Post)
      → All (λ p. covers version ss p ≡ true) posts
      → covers version ss q ≡ false
      → has_key posts q ≡ false
  uncovered-has_key version ss [] q h left = refl
  uncovered-has_key version ss (p ∷ ps) q h left = elim (Bool-cases (post_key p == post_key q)) [
    | inl e ↦ let both = covers-key version ss p q (key_path p q e) in let yes_p = h.0 in cc
    | inr e ↦ rw e (uncovered-has_key version ss ps q h.1 left)
  ]
