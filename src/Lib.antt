-- ===== src/Lib.antt =====
-- Augury's signal service, apps/augury-signal: posts about prediction markets are collected under a
-- daily read budget, scored for their stance, aggregated into a decaying signal S(t), compared with the
-- venue's prices through a synthetic market maker, and scored when the market resolves.
--
-- Files, with the sources below apps/augury-signal/augury_signal/:
--   Models      models.py: the records, with the checks of their constructors, and the query terms
--   Budget      clients/budget.py: ReadBudget; the ledger file is a value (missing, unreadable, no object,
--               counters), a method is a function from the file to a result and the file after it
--   XClient     clients/x.py: the fixture and the live backend, XClient.search_markets; the HTTP session
--               is a function to a JSON value, and the fixtures are a function to the lines of a file
--   Db          db.py: a database is a record of tables, a table is a list of rows, an SQL statement is a
--               function of it: ON CONFLICT is `upsert` with a merge of two rows, ORDER BY a stable sort
--   Signal      signal/decay.py, signal/calibration.py, signal/stance.py and signal/deberta.py:
--               compute_signal, effective_half_life, baseline_hourly_rate, the calibrations with
--               fit_platt over numpy as the record `Arrays`, and the stance models with the transformer
--               over torch as the record `Transformers`
--   Engine      engine/lmsr.py: the cost function, calibrate_b_from_depth and the class LMSRMarket
--   Analytics   analytics/scoring.py: the Brier and the skill scores; analytics/leadlag.py: the lags, the
--               Granger test and its correction, over statsmodels and pandas as the record `Statistics`
--   Config      config.py: load_settings over the environment as a function, load_market_config over the
--               value that the YAML parser returns, by_id and resolve
--   Venues      clients/_http.py, clients/kalshi.py, clients/polymarket.py: the two venue clients, over
--               the HTTP session as a function from the URL and the parameters to a JSON value
--   Pipeline    pipeline/steps.py: sync_config, poll_prices, ingest_posts, score_posts,
--               build_signal_series, simulate_lmsr, resolve_markets with _freeze_scores and
--               _settle_position
--   Bus         bus.py: the payloads and _publish, over Redis and jsonschema as the record `Broker`; a bus
--               keeps what was handed to Redis, whatever Redis then answers
--   Slice       pipeline/slice.py: run_slice with _aligned_pairs, _analyze, _score and _persist
--   Orchestrator  pipeline/orchestrator.py: the bodies of the Dagster assets
--   Cli         cli.py: the commands, with the exit code and what they print as a value; cmd_refresh is
--               in Cli/Cycle, a function for each stretch of the loop's body between two calls that raise
--   Prelude     shared names: tests, lists, results, integers, keys, the interface of floats, and JSON
--               values with what Python's built-ins do with them
--   Tests       the theorems at concrete inputs, over fixed-point numbers (Prelude/Micro)
--
-- How the parts meet: the live backend asks the budget before a request and charges the answer; the
-- steps read posts and ticks from the database, call the signal and the engine, and write back through
-- the database's methods; the resolution watcher writes markets, scores and the paper ledger. The
-- configuration names the markets that the sync mirrors into the database after it asked the venues; the
-- slice, the assets and the commands compose the steps, store what they return and publish the last point
-- on the bus.
--
-- Conventions. An exception is a value of `Error` without its message. Code that changes state and may
-- raise is a function to the result and the state (`Exec`), and what was written before a raise stays.
-- A datetime is a number of microseconds. `float` is an interface (Prelude/Float): theorems that need
-- more than its operations name the IEEE comparison laws they use (`IsOrdered`), and none assumes exact
-- arithmetic. `float(n)` of an int that is too large, in JSON and in the outcomes of fit_platt, raises, and
-- so does math.fsum of depths; the counts of followers and engagements are taken to fit a float, and the
-- other sums are of terms of size at most 1. Third-party code (HTTP, numpy.mean, the VADER analyzer, the
-- venue client) is an argument.
--
-- Fuel: the loop over the bars of build_signal_series takes `suc end` turns at most. A bar moves the
-- cursor on by at least one microsecond when freq_hours is positive, so the cursor passes `end` before
-- the fuel runs out. The loop of `DebertaStanceModel.score` takes as many turns as there are texts at most,
-- since a batch has at least one. All other loops are structural; that of fit_platt counts `max_iter`.
--
-- JSON. A decoded body is a value of `Json`, so the models see every shape that a venue may answer with:
-- `get`, `bool`, `float`, `int` and `for` do what Python's do, exceptions included. What the standard library
-- does with texts (strip, lower, float, int, fromisoformat, json.loads, str of a value that is no text, and
-- == of two values) is the interface `Builtins`. A title, a name or a term that is no text is
-- kept as its `str`, and a positive term that is a list or a mapping raises TypeError, as a key of the dict of all_terms.
--
-- Not modelled: align_on_grid (a join of pandas frames), the golden vectors (test data for the other
-- services), the parser of the command line and the text of what the commands print, SliceResult.report,
-- the metadata and the schedules of Dagster, the look-up of files and of the repository's root, and the
-- services in other languages.
pub mod Analytics
pub mod Budget
pub mod Bus
pub mod Cli
pub mod Config
pub mod Db
pub mod Engine
pub mod Models
pub mod Orchestrator
pub mod Pipeline
pub mod Prelude
pub mod Signal
pub mod Slice
pub mod Tests
pub mod Venues
pub mod XClient
