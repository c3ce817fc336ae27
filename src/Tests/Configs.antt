-- ===== src/Tests/Configs.antt =====
-- The configuration, the sync of it and the messages.
use augury.Prelude.{◌≡◌, refl, [], ◌∷◌, ok, false, inl}
use augury.Prelude.Int.{ℤ, pos}
use augury.Prelude.Micro.{micro}
use augury.Prelude.Json.{null, get_or, or_json, to_float, iterate, str}
use augury.Models.{market_id, all_terms, make_market}
use augury.Config.{MarketConfig, load_market_config, by_id, resolve}
use augury.Config.Loaded.{load_market_config-IsLoaded, resolve-loaded, IsLoaded}
use augury.Bus.{Bus, publish, validate}
use augury.Bus.Delivery.{publish-IsDelivery, IsPublished}
use augury.Tests.Samples.{plain, yaml, broker, tracked}

abbrev pub config : MarketConfig ℤ
config = record {
  language = "en";
  half_life_hours = pos 6_000_000;
  adaptive = tracked.adaptive;
  global_exclude = [];
  markets = tracked ∷ [];
}

yaml-loads : load_market_config yaml ≡ ok config
unfolding load_market_config get_or or_json to_float iterate all_terms make_market str market_id
yaml-loads = refl

load_market_config-IsLoaded_example : IsLoaded (tracked ∷ [])
load_market_config-IsLoaded_example = load_market_config-IsLoaded yaml config yaml-loads

resolve-loaded_example :
    (by_id config "kalshi:FED" ≡ ok tracked) × (resolve config "kalshi:FED" ≡ ok tracked)
resolve-loaded_example = resolve-loaded yaml config tracked yaml-loads (inl refl)

abbrev pub bus : Bus ℤ
bus = record { url = "redis"; strict = false; connected = false; sent = [] }

publish-IsDelivery_example :
    IsPublished broker "augury.sim.a" null bus
      (validate broker null "sim_tick")
      (publish broker "augury.sim.a" null "sim_tick" bus)
publish-IsDelivery_example = publish-IsDelivery broker "augury.sim.a" null bus "sim_tick"
