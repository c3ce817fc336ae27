-- ===== src/Tests/Tables.antt =====
-- The database.
use augury.Prelude.{◌≡◌, refl, String, true, some, not, ◌&&◌, List, [], ◌∷◌, take, filter, ltb}
use augury.Prelude.Int.{ℤ, pos}
use augury.Prelude.Micro.{micro}
use augury.Prelude.Keys.{string_key, pair_key, nat_key}
use augury.Models.{Post, Stance}
use augury.Db.{
  Position, position, insert_posts, insert_stances, is_unscored, unscored_posts, sort_by,
}
use augury.Db.Rerun.{insert_posts-rerun}
use augury.Db.Fills.{apply_fills, IsBookedBy, own_fills, position-apply_fills}
use augury.Db.Backlog.{covers, unscored_posts-insert_stances}
use augury.Tests.Data.{stored, post, stance, held}

abbrev posts : List Post
posts = post "a" 5 ∷ post "c" 7 ∷ []

abbrev stances : List (Stance ℤ)
stances = stance "a" 5 ∷ []

abbrev vader : String
vader = "vader-1"

abbrev fed_id : String
fed_id = "kalshi:FED"

insert_posts-rerun_example :
    insert_posts 20 posts (insert_posts 10 posts stored).1 ≡ (0, (insert_posts 10 posts stored).1)
insert_posts-rerun_example = insert_posts-rerun 10 20 posts stored

unscored_posts-insert_stances_example :
    unscored_posts fed_id vader 10 (insert_stances 10 stances stored).1
    ≡ take 10 (
        sort_by
          (λ p q. ltb q.created_at p.created_at)
          (filter
            (λ p. is_unscored fed_id vader stored p && not (covers vader stances p))
            stored.posts))
unscored_posts-insert_stances_example =
    unscored_posts-insert_stances 10 stances stored fed_id vader 10

-- shares are bought, a fill of another market comes between, and the last fill closes the position
abbrev fills : List (Position ℤ)
fills =
    record held { qty_yes = pos 2_000_000; cash = pos 500_000 }
    ∷ record held { market_id = "kalshi:CPI" }
    ∷ record held { cash = pos 900_000; settled = true }
    ∷ []

position-apply_fills_example :
    (q : Position ℤ) × (position fed_id "signal_v1" (apply_fills fills stored) ≡ some q)
    × IsBookedBy (own_fills fed_id "signal_v1" fills) held q
unfolding position
position-apply_fills_example = position-apply_fills fed_id "signal_v1" fills held stored refl
