-- ===== src/Db/Maintenance.antt =====
-- `purge_before` and `stats`.
use augury.Prelude.{ℕ, ltb, filter, length}
use augury.Models.{DateTime}
use augury.Db.Table.{delete_where}
use augury.Db.Rows.{Database}

pub record PurgeCounts : Type 0 where
  pub posts : ℕ
  pub stances : ℕ
  pub signals : ℕ
  pub market_prices : ℕ
  pub sim_prices : ℕ

pub record Stats : Type 0 where
  pub markets : ℕ
  pub market_queries : ℕ
  pub posts : ℕ
  pub stances : ℕ
  pub signals : ℕ
  pub market_prices : ℕ
  pub sim_prices : ℕ
  pub ledger_fills : ℕ
  pub positions : ℕ
  pub scores : ℕ
  pub granger_results : ℕ

module _ {F : Type 0} where
  unfoldable pub purge_before : DateTime → Database F → PurgeCounts × Database F
  purge_before cutoff db = (
    record {
      posts = length (filter (λ p. ltb p.created_at cutoff) db.posts);
      stances = length (filter (λ r. ltb r.scored.created_at cutoff) db.stances);
      signals = length (filter (λ p. ltb p.ts cutoff) db.signals);
      market_prices = length (filter (λ t. ltb t.ts cutoff) db.market_prices);
      sim_prices = length (filter (λ t. ltb t.ts cutoff) db.sim_prices);
    },
    record db {
      posts = delete_where (λ p. ltb p.created_at cutoff) db.posts;
      stances = delete_where (λ r. ltb r.scored.created_at cutoff) db.stances;
      signals = delete_where (λ p. ltb p.ts cutoff) db.signals;
      market_prices = delete_where (λ t. ltb t.ts cutoff) db.market_prices;
      sim_prices = delete_where (λ t. ltb t.ts cutoff) db.sim_prices;
    },
  )

  unfoldable pub stats : Database F → Stats
  stats db = record {
    markets = length db.markets;
    market_queries = length db.market_queries;
    posts = length db.posts;
    stances = length db.stances;
    signals = length db.signals;
    market_prices = length db.market_prices;
    sim_prices = length db.sim_prices;
    ledger_fills = length db.ledger_fills;
    positions = length db.positions;
    scores = length db.scores;
    granger_results = length db.granger_results;
  }
