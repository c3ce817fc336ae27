-- ===== src/Tests/Commands.antt =====
-- The commands.
use augury.Prelude.{
  ℕ, ◌≡◌, ◌+◌, ◌*◌, refl, String, true, false, none, some, Option, List, [], ◌∷◌, ok, All, Exec,
}
use augury.Prelude.Int.{ℤ, pos, ◌-ℤ◌}
use augury.Prelude.Micro.{micro}
use augury.Models.{DateTime, Post}
use augury.Config.{MarketConfig, load_market_config}
use augury.Config.Loaded.{IsLoaded}
use augury.Pipeline.{single, ingest_posts}
use augury.Pipeline.Synced.{IsStored}
use augury.Db.{Database, unscored_posts}
use augury.Slice.{World, Clocks, SliceResult, empty_result, run_slice, too_few, unresolved}
use augury.Slice.Scored.{run_slice-scored}
use augury.Cli.{Connection, Line, cmd_refresh, refresh_market, cmd_sync_config}
use augury.Cli.Kept.{IsKept, cmd_refresh-IsKept}
use augury.Pipeline.Covered.{has_key}
use augury.Cli.Worked.{refresh_market-scored}
use augury.Cli.Mirrored.{cmd_sync_config-IsStored}
use augury.Tests.Data.{stored, two_markets, post}
use augury.Tests.Samples.{plain, yaml, broker, settings, unreachable, tracked, neutral, statistics}
use augury.Tests.Slices.{neutral_stance}
use augury.Tests.Configs.{config, bus}

abbrev connection : Connection
connection = record { opened = ok tt; ping = true }

abbrev no_variables : String → Option String
no_variables name = none

-- late enough for a window of seven days
abbrev noon : DateTime
noon = 800_000_000_000_000

abbrev clocks : Clocks
clocks = record {
  prices_end = noon;
  book_at = noon;
  book_fetched = noon;
  bar_fetched = λ i. noon;
  posts_end = noon;
  grid_end = 6;
  computed = λ at. 6;
  transactions = λ i. noon;
}

abbrev fetched : List Post
fetched = post "c" 5 ∷ []

abbrev found : String → String → ℕ → Option DateTime → Exec (Unit {0}) (List Post)
found query mid limit start s = (ok fetched, s)

abbrev world : World (Unit {0}) ℤ
world = record { client = tt; db = stored; bus = bus }

cmd_refresh-IsKept_example : IsKept stored (
    World.db
      (cmd_refresh unreachable found broker
        (λ t. "")
        neutral
        (ok neutral)
        no_variables
        yaml
        connection
        7
        100
        (λ i. clocks)
        world).1)
cmd_refresh-IsKept_example =
    cmd_refresh-IsKept unreachable found broker (λ t. "") neutral (ok neutral) no_variables yaml
      connection 7 100 (λ i. clocks) world

abbrev after_turn : World (Unit {0}) ℤ
unfolding refresh_market
after_turn =
    (refresh_market unreachable found broker (λ t. "") config settings (single neutral) true 7 100
      clocks tracked world).1

abbrev line : Line ℤ
line = record {
  market_id = "kalshi:FED";
  ticks = 0;
  posts = 1;
  stored = 1;
  points = 0;
  latest = none;
}

-- one post is fetched, stored and scored; the next full hour is after the end of the grid
turn_returns :
    refresh_market unreachable found broker
      (λ t. "")
      config
      settings
      (single neutral)
      true
      7
      100
      clocks
      tracked
      world
    ≡ (ok line, after_turn)
unfolding refresh_market augury.Models.to_x_query augury.Venues.Kalshi.days_before
    augury.Pipeline.score_posts augury.Models.make_stance ◌-ℤ◌ augury.Pipeline.build_signal_series
    augury.Models.floor_hour augury.Pipeline.simulate_lmsr augury.Slice.publish_last
    augury.Pipeline.venue_client augury.Db.insert_posts augury.Venues.Kalshi.get_candlesticks
    augury.Db.count_new augury.Venues.Kalshi.check_window augury.Db.insert_price_ticks
    augury.Venues.Kalshi.get_orderbook
turn_returns = refl

refresh_market-scored_example :
    All (λ q. has_key fetched q ≡ false) (unscored_posts "kalshi:FED" "v1" 10 after_turn.db)
unfolding augury.Models.to_x_query augury.Venues.Kalshi.days_before augury.Pipeline.ingest_posts
refresh_market-scored_example =
    refresh_market-scored unreachable found broker (λ t. "") config settings (single neutral) true 7
      100 clocks tracked world after_turn line fetched "kalshi:FED" 10 turn_returns refl

abbrev synced : Database ℤ
unfolding cmd_sync_config
synced = (cmd_sync_config no_variables unreachable yaml connection 9 two_markets).1

sync_returns :
    cmd_sync_config no_variables unreachable yaml connection 9 two_markets
    ≡ (ok (0, some (1, 1)), synced)
unfolding cmd_sync_config augury.Config.load_settings load_market_config augury.Prelude.Json.get_or
    augury.Prelude.Json.or_json augury.Prelude.Json.to_float augury.Prelude.Json.iterate
    augury.Models.all_terms augury.Models.make_market augury.Pipeline.sync_config
    augury.Db.replace_market_queries
sync_returns = refl

cmd_sync_config-IsStored_example :
    (c : MarketConfig ℤ) × (load_market_config yaml ≡ ok c)
    × IsLoaded c.markets
    × All (IsStored synced) c.markets
cmd_sync_config-IsStored_example =
    cmd_sync_config-IsStored unreachable no_variables yaml connection 9 two_markets synced
      (some (1, 1)) sync_returns

abbrev sliced : SliceResult ℤ
sliced = record (empty_result tracked) {
  posts = fetched;
  stances = neutral_stance "c" 5 ∷ [];
  model_version = "v1";
  live_posts = true;
  granger_note = too_few 0;
  score_note = unresolved;
}

abbrev after_slice : World (Unit {0}) ℤ
unfolding run_slice
after_slice =
    (run_slice statistics (λ xs. pos 0) neutral (ok neutral) unreachable found true broker (λ t. "")
      clocks tracked config settings 7 100 (pos 350_000) true world).1

slice_returns :
    run_slice statistics
      (λ xs. pos 0)
      neutral
      (ok neutral)
      unreachable
      found
      true
      broker
      (λ t. "")
      clocks
      tracked
      config
      settings
      7
      100
      (pos 350_000)
      true
      world
    ≡ (ok sliced, after_slice)
unfolding run_slice augury.Models.to_x_query augury.Venues.Kalshi.days_before
    augury.Pipeline.score_posts augury.Models.make_stance ◌-ℤ◌ augury.Pipeline.build_signal_series
    augury.Models.floor_hour augury.Pipeline.simulate_lmsr augury.Pipeline.venue_client
    augury.Db.insert_posts augury.Venues.Kalshi.get_candlesticks augury.Db.count_new
    augury.Venues.Kalshi.check_window augury.Db.insert_price_ticks
    augury.Venues.Kalshi.get_orderbook augury.Bus.available augury.Bus.close
slice_returns = refl

run_slice-scored_example :
    ((ingest_posts found tracked config 100 7 noon tt).0 ≡ ok fetched)
    × All (λ q. has_key fetched q ≡ false) (unscored_posts "kalshi:FED" "v1" 10 after_slice.db)
run_slice-scored_example =
    run_slice-scored statistics (λ xs. pos 0) neutral (ok neutral) unreachable found true broker
      (λ t. "") clocks tracked config settings 7 100 (pos 350_000) world after_slice sliced
      "kalshi:FED" 10 slice_returns
