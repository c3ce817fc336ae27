-- ===== src/Engine/Depth.antt =====
-- engine/lmsr.py: `calibrate_b_from_depth`.
use augury.Prelude.{
  Bool, true, false, not, ◌&&◌, Option, none, some, List, [], ◌∷◌, ◌++◌, if◌then◌else◌, Result, ok,
  value_error, ◌>>=◌, ◌>>◌, raise_if, length,
}
use augury.Prelude.Int.{pos}
use augury.Prelude.Float.{Float, py_div, math_fsum, py_min, py_max}
use augury.Signal.{logit, eps}

-- `side`: any other string is refused
pub data Side : Type 0 where
  bid ask mean other : Side

abbrev pub takes_ask : Side → Bool
takes_ask ask = true
takes_ask mean = true
takes_ask _ = false

abbrev pub takes_bid : Side → Bool
takes_bid bid = true
takes_bid mean = true
takes_bid _ = false

abbrev pub is_side : Side → Bool
is_side other = false
is_side _ = true

module _ {F : Type 0} ⦃d : Float F⦄ where
  -- B_MIN and B_MAX
  abbrev pub b_min : F
  b_min = d.lit 1 0

  abbrev pub b_max : F
  b_max = d.lit 1_000_000 0

  -- a depth that is taken: not None and not 0.0
  abbrev pub candidate : Bool → Option F → List F
  candidate false depth = []
  candidate true none = []
  candidate true (some depth) = if d.eq depth (d.lit 0 0) then [] else depth ∷ []

  abbrev pub clamp_b : F → F
  clamp_b b = py_min b_max (py_max b_min b)

  unfoldable pub fit : List F → F → F → Result F
  fit [] width fallback = ok fallback
  fit (c ∷ cs) width fallback = do
    total ← math_fsum (c ∷ cs)
    depth ← py_div total (d.float (pos (length (c ∷ cs))))
    if d.le depth (d.lit 0 0) then ok fallback else do b ← py_div depth width; ok (clamp_b b)

  unfoldable pub calibrate_from : Option F → Option F → Option F → Option F → Side → F → Result F
  unfolding logit fit
  calibrate_from depth_bid depth_ask (some yes_bid) (some yes_ask) side fallback =
      if not (d.le (d.lit 0 0) yes_bid && d.lt yes_bid yes_ask && d.le yes_ask (d.lit 1 0))
      then ok fallback
      else do
        high ← logit yes_ask eps
        low ← logit yes_bid eps
        let width = d.sub high low
        if d.le width (d.lit 0 0)
            then ok fallback
            else fit (candidate (takes_ask side) depth_ask ++ candidate (takes_bid side) depth_bid)
                width fallback
  calibrate_from depth_bid depth_ask _ _ side fallback = ok fallback

  unfoldable pub calibrate_b_from_depth :
      Option F → Option F → Option F → Option F → Side → F → Result F
  unfolding calibrate_from
  calibrate_b_from_depth depth_bid depth_ask yes_bid yes_ask side fallback = do
    raise_if (not (is_side side)) value_error
    raise_if (d.le fallback (d.lit 0 0)) value_error
    calibrate_from depth_bid depth_ask yes_bid yes_ask side fallback
