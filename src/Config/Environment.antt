-- ===== src/Config/Environment.antt =====
-- config.py: `Settings` and `load_settings`. `env` is `os.environ`, once python-dotenv has seeded it.
use Prim.Native.String.{◌++◌}
use augury.Prelude.{String, Bool, false, ◌||◌, Option, none, some, if◌then◌else◌, Result, ok, ◌>>=◌}
use augury.Prelude.Int.{ℤ, pos}
use augury.Prelude.Keys.{◌==◌, string_key}
use augury.Prelude.Float.{Float}
use augury.Prelude.Json.{Builtins, is_empty, or_text, rstrip_slash, or_value_error}

pub record Settings (F : Type 0) : Type 0 where
  pub database_url : String
  pub redis_url : String
  pub kalshi_base_url : String
  pub polymarket_gamma_url : String
  pub polymarket_clob_url : String
  pub x_bearer_token : Option String
  pub x_live : Bool
  pub max_daily_reads : ℤ
  pub half_life_hours : F
  pub min_half_life_hours : F
  pub stance_model : String
  pub stance_model_name : String
  pub stance_device : String
  pub log_level : String

-- `os.environ.get(name, default)`
abbrev env_text : Option String → String → String
env_text none default = default
env_text (some raw) default = raw

-- the template value of the token is no token
unfoldable pub token_of : Option String → Option String
token_of none = none
token_of (some raw) = if is_empty raw || raw == "your_bearer_token_here" then none else some raw

module _ {F : Type 0} ⦃d : Float F⦄ ⦃py : Builtins F⦄ where
  unfoldable pub env_float : Option String → F → Result F
  env_float none default = ok default
  env_float (some raw) default =
      if is_empty (py.strip raw) then ok default else or_value_error (py.float_of raw)

  -- `Settings.half_life_seconds` and `Settings.min_half_life_seconds`
  unfoldable pub half_life_seconds : Settings F → F
  half_life_seconds s = d.mul s.half_life_hours (d.lit 3600 0)

  unfoldable pub min_half_life_seconds : Settings F → F
  min_half_life_seconds s = d.mul s.min_half_life_hours (d.lit 3600 0)

module _ (F : Type 0) ⦃d : Float F⦄ ⦃py : Builtins F⦄ where
  unfoldable pub env_bool : Option String → Bool → Bool
  env_bool none default = default
  env_bool (some raw) default =
      let word = py.lower (py.strip raw) in
      word == "1" || word == "true" || word == "yes" || word == "on"

  unfoldable pub env_int : Option String → ℤ → Result ℤ
  env_int none default = ok default
  env_int (some raw) default =
      if is_empty (py.strip raw) then ok default else or_value_error (py.int_of raw)

  unfoldable pub load_settings : (String → Option String) → Result (Settings F)
  unfolding env_float env_int env_bool token_of
  load_settings env = do
    let user = env_text (env "POSTGRES_USER") "augury"
    let password = env_text (env "POSTGRES_PASSWORD") "augury_local_dev"
    let host = env_text (env "POSTGRES_HOST") "localhost"
    let port = env_text (env "POSTGRES_PORT") "5432"
    let database = env_text (env "POSTGRES_DB") "augury"
    let redis_host = env_text (env "REDIS_HOST") "localhost"
    let redis_port = env_text (env "REDIS_PORT") "6379"
    max_daily_reads ← env_int (env "MAX_DAILY_READS") (pos 2000)
    half_life_hours ← env_float (env "SIGNAL_HALF_LIFE_HOURS") (d.lit 6 0)
    min_half_life_hours ← env_float (env "SIGNAL_HALF_LIFE_MIN_HOURS") (d.lit 5 1)
    ok (record {
      database_url = or_text (env "DATABASE_URL") (
          "postgresql://" ++ user ++ ":" ++ password ++ "@" ++ host ++ ":" ++ port ++ "/"
          ++ database);
      redis_url = or_text (env "REDIS_URL") ("redis://" ++ redis_host ++ ":" ++ redis_port ++ "/0");
      kalshi_base_url =
          rstrip_slash
            (env_text (env "KALSHI_BASE_URL") "https://external-api.kalshi.com/trade-api/v2");
      polymarket_gamma_url =
          rstrip_slash (env_text (env "POLYMARKET_GAMMA_URL") "https://gamma-api.polymarket.com");
      polymarket_clob_url =
          rstrip_slash (env_text (env "POLYMARKET_CLOB_URL") "https://clob.polymarket.com");
      x_bearer_token = token_of (env "X_BEARER_TOKEN");
      x_live = env_bool (env "AUGURY_X_LIVE") false;
      max_daily_reads = max_daily_reads;
      half_life_hours = half_life_hours;
      min_half_life_hours = min_half_life_hours;
      stance_model = env_text (env "STANCE_MODEL") "vader";
      stance_model_name = env_text (env "STANCE_MODEL_NAME") "microsoft/deberta-v3-base";
      stance_device = env_text (env "STANCE_DEVICE") "cpu";
      log_level = env_text (env "LOG_LEVEL") "info";
    })
