-- ===== src/Pipeline/Build.antt =====
-- pipeline/steps.py: `build_signal_series`. `now` is the time at which the end of the grid is read, and
-- `clock` gives the time at which the point of a bar is made.
use augury.Prelude.{
  ℕ, zero, suc, ◌+◌, ◌-◌, ◌*◌, String, true, ◌&&◌, Option, none, some, List, [], ◌∷◌, map,
  if◌then◌else◌, leb, ltb, filter, get_last?, Result, ok, ◌>>=◌,
}
use Prim.Native.Nat.{max}
use augury.Prelude.Int.{pos}
use augury.Prelude.Keys.{◌==◌, string_key, nat_key}
use augury.Prelude.Float.{Float}
use augury.Models.{
  DateTime, hour, day, floor_hour, Post, Stance, SignalPoint, PriceTick, Calibration, is_accepted,
  make_signal_point,
}
use augury.Signal.{
  Contribution, compute_signal, to_probability, PlattParams, AdaptiveDecayConfig,
  effective_half_life, baseline_hourly_rate,
}
use augury.Signal.Bisect.{bisect_left, bisect_right, slice}
use augury.Db.{sort_by}
use augury.Pipeline.Lookup.{price_at}

-- what `build_signal_series` reads of a `TrackedMarket`
pub record TrackedSignal (F : Type 0) : Type 0 where
  pub market_id : String
  pub half_life_hours : F
  pub adaptive : AdaptiveDecayConfig F

-- SIGNAL_MAX_AGE
abbrev pub signal_max_age : ℕ
signal_max_age = 7 * day

-- the values of `cursor`, for at most `fuel` turns of the loop
unfoldable pub bars : ℕ → DateTime → DateTime → ℕ → List DateTime
bars zero cursor end step = []
bars (suc fuel) cursor end step =
    if leb cursor end then cursor ∷ bars fuel (cursor + step) end step else []

module _ {F : Type 0} ⦃d : Float F⦄ where
  -- `stance_by_post[...]`: the last of the stances with the key
  abbrev pub stance_of : List (Stance F) → Post → Option (Stance F)
  stance_of stances p =
      get_last? (filter (λ s. s.post_id == p.post_id && s.created_at == p.created_at) stances)

  abbrev contribution : Post → Option (Stance F) → List (Contribution F) → List (Contribution F)
  contribution p none rest = rest
  contribution p (some s) rest =
      let c : Contribution F = record {
        created_at = p.created_at;
        stance = s.stance;
        followers = p.followers;
        engagements = p.engagements;
        weight_override = none;
      } in
      if is_accepted p then c ∷ rest else rest

  unfoldable pub contributions_of : List Post → List (Stance F) → List (Contribution F)
  contributions_of [] stances = []
  contributions_of (p ∷ ps) stances =
      contribution p (stance_of stances p) (contributions_of ps stances)

  unfoldable pub price_move : Option F → Option F → F
  price_move (some price_now) (some price_prev) = d.sub price_now price_prev
  price_move _ _ = d.lit 0 0

  -- the second `SignalPoint` of a bar
  unfoldable pub calibrate_point :
      DateTime
      → Calibration
      → Option (PlattParams F)
      → Option (SignalPoint F)
      → Result (Option (SignalPoint F))
  unfolding to_probability make_signal_point
  calibrate_point computed_at calibration platt none = ok none
  calibrate_point computed_at calibration platt (some point) = do
    p_hat ← to_probability point.s_t calibration platt
    made ← make_signal_point (record point {
      p_hat = some p_hat;
      calibration = some calibration;
      computed_at = some computed_at;
    })
    ok (some made)

  -- the body of the loop, for the posts and the prices in ascending order
  unfoldable pub bar_point :
      TrackedSignal F
      → List (Contribution F)
      → List (PriceTick F)
      → String
      → ℕ
      → Calibration
      → Option (PlattParams F)
      → (DateTime → DateTime)
      → DateTime
      → Result (Option (SignalPoint F))
  unfolding price_at price_move baseline_hourly_rate effective_half_life compute_signal
      calibrate_point
  bar_point tracked cs prices version step calibration platt clock cursor = do
    let post_times = map (λ c. c.created_at) cs
    let price_times = map (λ t. t.ts) prices
    let window_start = cursor - step
    let recent = bisect_right post_times cursor - bisect_right post_times window_start
    baseline ← baseline_hourly_rate post_times cursor 24 true
    let move =
        price_move (price_at prices price_times cursor) (price_at prices price_times window_start)
    half_life ←
        effective_half_life (d.mul tracked.half_life_hours (d.lit 3600 0))
          (d.mul tracked.adaptive.min_half_life_hours (d.lit 3600 0)) (d.float (pos recent))
          baseline move tracked.adaptive.volume_surge_multiple tracked.adaptive.price_move_threshold
          tracked.adaptive.enabled
    let lo = bisect_left post_times (cursor - signal_max_age)
    let hi = bisect_right post_times cursor
    point ←
        compute_signal (slice lo hi cs) cursor half_life tracked.market_id version
          (some signal_max_age) none
    calibrate_point (clock cursor) calibration platt point

  abbrev append_point : Option (SignalPoint F) → List (SignalPoint F) → List (SignalPoint F)
  append_point none points = points
  append_point (some p) points = p ∷ points

  unfoldable pub points_of :
      (DateTime → Result (Option (SignalPoint F))) → List DateTime → Result (List (SignalPoint F))
  points_of body [] = ok []
  points_of body (cursor ∷ cursors) = do
    point ← body cursor
    points ← points_of body cursors
    ok (append_point point points)

  -- `post_times[-1]`
  abbrev pub last_time : DateTime → List (Contribution F) → DateTime
  last_time t [] = t
  last_time t (c ∷ cs) = last_time c.created_at cs

  -- the rest of the function, on the sorted contributions
  series_from :
      TrackedSignal F
      → List (Contribution F)
      → List (PriceTick F)
      → String
      → ℕ
      → Calibration
      → Option (PlattParams F)
      → (DateTime → DateTime)
      → DateTime
      → Result (List (SignalPoint F))
  unfolding bar_point points_of bars
  series_from tracked [] prices version freq_hours calibration platt clock now = ok []
  series_from tracked (c ∷ cs) prices version freq_hours calibration platt clock now =
      let end = max (last_time c.created_at cs) now in
      let step = freq_hours * hour in
      let cursor = floor_hour c.created_at + step in
      points_of (bar_point tracked (c ∷ cs) prices version step calibration platt clock)
        (bars (suc end) cursor end step)

  unfoldable pub build_signal_series :
      TrackedSignal F
      → List Post
      → List (Stance F)
      → List (PriceTick F)
      → String
      → ℕ
      → Calibration
      → Option (PlattParams F)
      → (DateTime → DateTime)
      → DateTime
      → Result (List (SignalPoint F))
  unfolding series_from contributions_of sort_by
  build_signal_series tracked posts stances price_ticks version freq_hours calibration platt clock
        now =
      series_from tracked
        (sort_by (λ a b. ltb a.created_at b.created_at) (contributions_of posts stances))
        (sort_by (λ a b. ltb a.ts b.ts) price_ticks) version freq_hours calibration platt clock now
