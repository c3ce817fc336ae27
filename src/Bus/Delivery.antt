-- ===== src/Bus/Delivery.antt =====
-- What `_publish` answers, and what it hands to Redis.
use mathlib.Core.List
use mathlib.Core.Path.{subst}
use augury.Prelude.{
  String, Bool, true, false, ◌≡◌, refl, sym, ◌⊎◌, inl, inr, [], ◌∷◌, Result, ok, err, Error, arith,
  Result-cases, Bool-cases,
}
use augury.Prelude.Json.{Json}
use augury.Bus.Publisher.{Bus, Broker, publish, validate, deliver, send, client, swallow}

module _ {F : Type 0} (broker : Broker F) (channel : String) (payload : Json F) (bus : Bus F) where
  -- the message is handed to Redis, as the one new message
  abbrev pub IsHanded : Bus F → Type 0
  IsHanded bus' = Bus.sent bus' ≡ List.◌++◌ bus.sent ((channel, payload) ∷ [])

  -- Redis fails with `e`: there is no client, and nothing is handed over, or the client's answer is `e`
  abbrev pub IsFailure : Error → Bus F → Type 0
  IsFailure e bus' =
      ((bus.connected ≡ false) × (broker.from_url bus.url ≡ err e) × (Bus.sent bus' ≡ bus.sent))
      ⊎ ((broker.publish channel payload ≡ err e) × IsHanded bus')

  -- what comes of a valid payload: Redis takes it, or fails, which only a strict bus raises
  abbrev pub IsDelivery : Result Bool × Bus F → Type 0
  IsDelivery out =
      ((out.0 ≡ ok true) × (broker.publish channel payload ≡ ok tt) × IsHanded out.1)
      ⊎ ((e : Error) × IsFailure e out.1
          × (((bus.strict ≡ false) × (out.0 ≡ ok false)) ⊎ ((bus.strict ≡ true) × (out.0 ≡ err e))))

  -- a strict bus raises a failure, and another one answers false
  swallow-IsDelivery :
      (e : Error) (bus' : Bus F) → IsFailure e bus' → IsDelivery (swallow bus.strict e, bus')
  swallow-IsDelivery e bus' h = elim (Bool-cases bus.strict) [
    | inl s ↦ inr (e, h, inr (s, rw s refl))
    | inr s ↦ inr (e, h, inl (s, rw s refl))
  ]

  -- the bus with a client or without, after the message was handed over
  abbrev handed : Bool → Bus F
  handed up = record bus { connected = up; sent = List.◌++◌ bus.sent ((channel, payload) ∷ []) }

  send-failed :
      (up : Bool) (e : Error)
      → broker.publish channel payload ≡ err e
      → send broker channel payload (record bus { connected = up })
        ≡ (swallow bus.strict e, handed up)
  unfolding send
  send-failed up e h = rw (h, send) refl

  send-taken :
      (up : Bool)
      → broker.publish channel payload ≡ ok tt
      → send broker channel payload (record bus { connected = up }) ≡ (ok true, handed up)
  unfolding send
  send-taken up h = rw (h, send) refl

  send-IsDelivery :
      (up : Bool) → IsDelivery (send broker channel payload (record bus { connected = up }))
  send-IsDelivery up = elim (Result-cases (broker.publish channel payload)) [
    | inl (e, h) ↦
        subst IsDelivery (sym (send-failed up e h))
          (swallow-IsDelivery e (handed up) (inr (h, refl)))
    | inr (u, h) ↦ subst IsDelivery (sym (send-taken up h)) (inl (refl, h, refl))
  ]

  deliver-up :
      bus.connected ≡ true → deliver broker channel payload bus ≡ send broker channel payload bus
  unfolding deliver client
  deliver-up up = ground (arith, up)

  deliver-made :
      bus.connected ≡ false
      → broker.from_url bus.url ≡ ok tt
      → deliver broker channel payload bus
        ≡ send broker channel payload (record bus { connected = true })
  unfolding deliver client
  deliver-made down made = ground (arith, down, made)

  deliver-failed :
      (e : Error)
      → bus.connected ≡ false
      → broker.from_url bus.url ≡ err e
      → deliver broker channel payload bus ≡ (swallow bus.strict e, bus)
  unfolding deliver client
  deliver-failed e down failed = ground (arith, down, failed)

  deliver-IsDelivery : IsDelivery (deliver broker channel payload bus)
  deliver-IsDelivery = elim (Bool-cases bus.connected) [
    | inl up ↦ subst IsDelivery (sym (deliver-up up)) (send-IsDelivery bus.connected)
    | inr down ↦ elim (Result-cases (broker.from_url bus.url)) [
      | inl (e, h) ↦
          subst IsDelivery (sym (deliver-failed e down h))
            (swallow-IsDelivery e bus (inl (down, h, refl)))
      | inr (u, h) ↦ subst IsDelivery (sym (deliver-made down h)) (send-IsDelivery true)
    ]
  ]

  -- what comes of a payload, with what the validation says of it
  abbrev pub IsPublished : Result (Unit {0}) → Result Bool × Bus F → Type 0
  IsPublished valid out =
      ((e : Error) × (valid ≡ err e) × (out ≡ (err e, bus))) ⊎ ((valid ≡ ok tt) × IsDelivery out)

  publish-invalid :
      (schema_name : String) (e : Error)
      → validate broker payload schema_name ≡ err e
      → IsPublished
          (validate broker payload schema_name)
          (publish broker channel payload schema_name bus)
  unfolding publish
  publish-invalid schema_name e h = inl (e, h, rw (h, publish) refl)

  publish-valid :
      (schema_name : String)
      → validate broker payload schema_name ≡ ok tt
      → IsPublished
          (validate broker payload schema_name)
          (publish broker channel payload schema_name bus)
  unfolding publish
  publish-valid schema_name h =
      let sends : publish broker channel payload schema_name bus
          ≡ deliver broker channel payload bus =
        rw (h, publish) refl in
      inr (h, subst IsDelivery (sym sends) deliver-IsDelivery)

  -- A payload that is not valid makes `_publish` raise the error of the validation, on every bus, strict or
  -- not, with nothing handed to Redis. A valid one is handed to Redis exactly once, unless there is no client:
  -- the result is true when Redis answers, and otherwise, with the error of Redis, false on a bus that is not
  -- strict, while a strict bus raises that error.
  pub publish-IsDelivery :
      (schema_name : String)
      → IsPublished
          (validate broker payload schema_name)
          (publish broker channel payload schema_name bus)
  publish-IsDelivery schema_name = elim (Result-cases (validate broker payload schema_name)) [
    | inl (e, h) ↦ publish-invalid schema_name e h
    | inr (u, h) ↦ publish-valid schema_name h
  ]
