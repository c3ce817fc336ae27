-- ===== src/Bus/Payloads.antt =====
-- bus.py: the payloads; and models.py: `as_json_dict` of the three records that are published.
-- `utc_text` is `t.isoformat().replace("+00:00", "Z")`.
use Prim.Native.String.{◌++◌}
use augury.Prelude.{String, Option, none, some}
use augury.Prelude.Int.{pos}
use augury.Prelude.Json.{Json, Fields, null, integer, decimal, text, object, end, field}
use augury.Models.{
  DateTime, SignalPoint, PriceTick, SimTick, PriceSource, candle, book, Calibration, affine, platt,
}

unfoldable pub channel_for : String → String → String
channel_for prefix market_id = prefix ++ "." ++ market_id

abbrev pub signal_channel : String
signal_channel = "augury.signal"

abbrev pub price_channel : String
price_channel = "augury.price"

abbrev pub sim_channel : String
sim_channel = "augury.sim"

-- the values of the enumerations
abbrev source_value : PriceSource → String
source_value candle = "candle"
source_value book = "book"

abbrev calibration_value : Calibration → String
calibration_value affine = "affine"
calibration_value platt = "platt"

module _ {F : Type 0} where
  abbrev pub number : Option F → Json F
  number none = null
  number (some x) = decimal x

  abbrev calibration_json : Option Calibration → Json F
  calibration_json none = null
  calibration_json (some c) = text (calibration_value c)

  -- `payload.pop(key)` of a time that is None
  abbrev pub time_field : (DateTime → String) → String → Option DateTime → Fields F
  time_field utc_text key none = end
  time_field utc_text key (some t) = field key (text (utc_text t)) end

  unfoldable pub signal_payload : (DateTime → String) → SignalPoint F → Json F
  signal_payload utc_text p = object (
      field "market_id" (text p.market_id) (
        field "ts" (text (utc_text p.ts)) (
          field "model_version" (text p.model_version) (
            field "s_t" (decimal p.s_t) (
              field "n_posts" (integer (pos p.n_posts)) (
                field "weight_sum" (decimal p.weight_sum) (
                  field "half_life_seconds" (decimal p.half_life_seconds) (
                    field "p_hat" (number p.p_hat) (
                      field "calibration" (calibration_json p.calibration)
                        (time_field utc_text "computed_at" p.computed_at))))))))))

  unfoldable pub price_payload : (DateTime → String) → PriceTick F → Json F
  price_payload utc_text t = object (
      field "market_id" (text t.market_id) (
        field "ts" (text (utc_text t.ts)) (
          field "source" (text (source_value t.source)) (
            field "yes_price" (number t.yes_price) (
              field "yes_bid" (number t.yes_bid) (
                field "yes_ask" (number t.yes_ask) (
                  field "spread" (number t.spread) (
                    field "depth_bid" (number t.depth_bid) (
                      field "depth_ask" (number t.depth_ask) (
                        field "volume" (number t.volume)
                          (time_field utc_text "fetched_at" t.fetched_at)))))))))))

  unfoldable pub sim_payload : (DateTime → String) → SimTick F → Json F
  sim_payload utc_text t = object (
      field "market_id" (text t.market_id) (
        field "ts" (text (utc_text t.ts)) (
          field "sim_price" (decimal t.sim_price) (
            field "b" (decimal t.b) (
              field "q_yes" (decimal t.q_yes) (
                field "q_no" (decimal t.q_no) (
                  field "run_id" (text t.run_id) (
                    field "cost" (number t.cost) (
                      field "trade_size" (number t.trade_size)
                        (field "signal" (number t.signal) end))))))))))
