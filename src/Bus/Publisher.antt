-- ===== src/Bus/Publisher.antt =====
-- bus.py: `validate` and the class `Bus`. Redis, jsonschema and the schema files are third-party or
-- outside code, the fields of `Broker`; `sent` is what was handed to Redis, which may have taken a message
-- although its answer is an error, the latest message last.
use mathlib.Core.List
use Prim.Native.Char.{code}
use augury.Prelude.{
  String, Bool, true, false, not, ◌||◌, Option, none, some, List, [], ◌∷◌, if◌then◌else◌, filter,
  Result, ok, err, Error, value_error, Exec,
}
use augury.Prelude.Keys.{◌==◌, nat_key}
use augury.Prelude.Json.{Json}
use augury.Models.{DateTime, SignalPoint, PriceTick, SimTick}
use augury.Bus.Payloads.{
  channel_for, signal_channel, price_channel, sim_channel, signal_payload, price_payload,
  sim_payload,
}

pub record Broker (F : Type 0) : Type 0 where
  -- `redis.Redis.from_url`, the import included; `ping`, `publish` and `close` of a client
  pub from_url : String → Result (Unit {0})
  pub ping : Result Bool
  pub publish : String → Json F → Result (Unit {0})
  pub close : Result (Unit {0})
  -- the schema file of a name, if there is one; `import jsonschema`; `jsonschema.validate`
  pub load_schema : String → Option (Json F)
  pub has_jsonschema : Bool
  pub is_valid : Json F → Json F → Bool

pub record Bus (F : Type 0) : Type 0 where
  pub url : String
  pub strict : Bool
  -- `_client is not None`
  pub connected : Bool
  pub sent : List (String × Json F)

-- `"*" in c or "?" in c`
abbrev is_pattern : String → Bool
is_pattern String.[] = false
is_pattern (String.◌∷◌ c s) = if code c == b'*' || code c == b'?' then true else is_pattern s

-- a failure of Redis is raised by a strict bus, and is only logged by the others
abbrev pub swallow : Bool → Error → Result Bool
swallow true e = err e
swallow false e = ok false

module _ {F : Type 0} (broker : Broker F) where
  unfoldable pub validate : Json F → String → Result (Unit {0})
  validate payload schema_name = elim (broker.load_schema schema_name) [
    | none ↦ ok tt
    | some schema ↦
        if broker.has_jsonschema
        then if broker.is_valid payload schema then ok tt else err value_error
        else ok tt
  ]

  unfoldable pub client : Exec (Bus F) (Unit {0})
  client bus = if bus.connected then (ok tt, bus) else elim (broker.from_url bus.url) [
    | ok _ ↦ (ok tt, record bus { connected = true })
    | err e ↦ (err e, bus)
  ]

  -- `close`: the client is forgotten, even when closing it raises
  unfoldable pub close : Exec (Bus F) (Unit {0})
  close bus =
      if bus.connected then (broker.close, record bus { connected = false }) else (ok tt, bus)

  abbrev answered : Result Bool → Bool
  answered (ok b) = b
  answered (err e) = false

  unfoldable pub available : Bus F → Bool × Bus F
  unfolding client
  available bus =
      let (made, bus') = client bus in
      elim made [ ok _ ↦ (answered broker.ping, bus') | err e ↦ (false, bus') ]

  unfoldable pub send : String → Json F → Exec (Bus F) Bool
  send channel payload bus =
      let bus' : Bus F = record bus { sent = List.◌++◌ bus.sent ((channel, payload) ∷ []) } in
      elim (broker.publish channel payload) [
        | ok _ ↦ (ok true, bus')
        | err e ↦ (swallow bus.strict e, bus')
      ]

  unfoldable pub deliver : String → Json F → Exec (Bus F) Bool
  unfolding client send
  deliver channel payload bus =
      let (made, bus') = client bus in
      elim made [ ok _ ↦ send channel payload bus' | err e ↦ (swallow bus'.strict e, bus') ]

  -- `_publish`
  unfoldable pub publish : String → Json F → String → Exec (Bus F) Bool
  unfolding validate deliver
  publish channel payload schema_name bus = elim (validate payload schema_name) [
    | err e ↦ (err e, bus)
    | ok _ ↦ deliver channel payload bus
  ]

  unfoldable pub publish_signal : (DateTime → String) → SignalPoint F → Exec (Bus F) Bool
  unfolding publish
  publish_signal utc_text p =
      publish (channel_for signal_channel p.market_id) (signal_payload utc_text p) "stance_signal"

  unfoldable pub publish_price : (DateTime → String) → PriceTick F → Exec (Bus F) Bool
  unfolding publish
  publish_price utc_text t =
      publish (channel_for price_channel t.market_id) (price_payload utc_text t) "price_tick"

  unfoldable pub publish_sim : (DateTime → String) → SimTick F → Exec (Bus F) Bool
  unfolding publish
  publish_sim utc_text t =
      publish (channel_for sim_channel t.market_id) (sim_payload utc_text t) "sim_tick"

-- `subscribe`: the channels that are subscribed to by name, and those by pattern
unfoldable pub split_channels : List String → List String × List String
split_channels channels = (filter (λ c. not (is_pattern c)) channels, filter is_pattern channels)
