-- ===== src/Cli/Mirrored.antt =====
-- cli.py: what `cmd_sync_config` leaves in the database.
use augury.Prelude.{
  ℕ, String, ◌≡◌, ap, Option, List, Result, ok, Result-cases, Bool-cases, inl, inr, All, >>=-eq-ok,
}
use mathlib.Core.Path.{subst}
use augury.Prelude.Float.{Float}
use augury.Prelude.Json.{Json, Builtins}
use augury.Models.{DateTime}
use augury.Config.{Settings, MarketConfig, load_settings, load_market_config}
use augury.Config.Loaded.{IsLoaded, load_market_config-IsLoaded}
use augury.Db.{Database}
use augury.Pipeline.Synced.{IsStored, sync_config-IsStored}
use augury.Cli.Cycle.{Connection}
use augury.Cli.Commands.{load_both, cmd_sync_config, with_database}

module _ {F : Type 0} ⦃d : Float F⦄ ⦃py : Builtins F⦄
    (respond : String → List (String × Json F) → Result (Json F))
    (env : String → Option String) where
  read_loads :
      (raw : Json F) (settings : Settings F) (config : MarketConfig F)
      → load_both env raw ≡ ok (settings, config)
      → load_market_config raw ≡ ok config
  unfolding load_both
  read_loads raw settings config h =
      let (s, first, rest) = >>=-eq-ok (load_settings F env) _ h in
      let (c, second, pair) = >>=-eq-ok (load_market_config raw) _ rest in
      let same : c ≡ config = cc in rw (← same) second

  -- When `augury sync-config` ends with exit code 0, the configuration file was valid, and every market of
  -- it has a row under its id, with the target of the file, marked as tracked, and with a status and an
  -- outcome that agree, whatever the venues answered or raised.
  pub cmd_sync_config-IsStored :
      (raw : Json F) (conn : Connection) (now : DateTime) (db db' : Database F)
      (printed : Option (ℕ × ℕ))
      → cmd_sync_config env respond raw conn now db ≡ (ok (0, printed), db')
      → (config : MarketConfig F) × (load_market_config raw ≡ ok config)
        × IsLoaded config.markets
        × All (IsStored db') config.markets
  unfolding cmd_sync_config with_database
  cmd_sync_config-IsStored raw conn now db db' printed ran =
      elim (Result-cases (load_both env raw)) [
        | inl (e, h) ↦ let no = rw (h, cmd_sync_config) at ran in cc
        | inr (both, h) ↦
            let loaded = read_loads raw both.0 both.1 h in
            let valid = load_market_config-IsLoaded raw both.1 loaded in
            let ran₁ = rw (h, cmd_sync_config) at ran in
            elim (Result-cases conn.opened) [
              | inl (e, k) ↦ let no = rw (k, with_database) at ran₁ in cc
              | inr (u, k) ↦ elim (Bool-cases conn.ping) [
                | inr silent ↦ let no = rw (k, silent, with_database) at ran₁ in cc
                | inl answered ↦
                    let ran₂ = rw (k, answered, with_database) at ran₁ in
                    (
                      both.1,
                      loaded,
                      valid,
                      subst (λ x. All (IsStored x) both.1.markets) (ap (λ r. r.1) ran₂)
                          (sync_config-IsStored respond both.0 now both.1 db valid),
                    )
              ]
            ]
      ]
