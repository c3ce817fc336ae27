-- ===== src/Pipeline/Grid.antt =====
-- pipeline/steps.py: the grid of `build_signal_series`.
use augury.Prelude.{
  ℕ, zero, suc, ◌+◌, ◌*◌, ◌<◌, ◌≡◌, none, some, if◌then◌else◌, leb, arith, Bool-cases, inl, inr,
}
use augury.Models.{DateTime}
use augury.Pipeline.{bars, get_elem?}

get_elem?-bars_fuel :
    (fuel : ℕ) (cursor end : DateTime) (step k : ℕ)
    → 0 < step
    → end < cursor + fuel * step
    → get_elem? (bars fuel cursor end step) k
      ≡ (if leb (cursor + k * step) end then some (cursor + k * step) else none)
unfolding bars
get_elem?-bars_fuel zero cursor end step k h l = ground arith
get_elem?-bars_fuel (suc fuel) cursor end step zero h l = ground arith
get_elem?-bars_fuel (suc fuel) cursor end step (suc k) h l =
    let rest = get_elem?-bars_fuel fuel (cursor + step) end step k h (omega (arith, l)) in
    let next : cursor + suc k * step ≡ cursor + step + k * step = omega arith in
    elim (Bool-cases (leb cursor end)) [ inl e ↦ rw (e, next) rest | inr e ↦ rw e (ground arith) ]

enough : (cursor end : DateTime) (step : ℕ) → 0 < step → end < cursor + suc end * step
enough cursor end zero h = absurd (omega (arith, h))
enough cursor end (suc s) h = omega arith

-- With a positive step the loop of `build_signal_series` ends: on the fuel that it is given, its k-th turn has the
-- cursor `cursor + k * step` for exactly the k whose cursor is not after the end, so no bar is cut off.
pub get_elem?-bars :
    (cursor end : DateTime) (step k : ℕ)
    → 0 < step
    → get_elem? (bars (suc end) cursor end step) k
      ≡ (if leb (cursor + k * step) end then some (cursor + k * step) else none)
get_elem?-bars cursor end step k h =
    get_elem?-bars_fuel (suc end) cursor end step k h (enough cursor end step h)
