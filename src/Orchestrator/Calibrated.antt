-- ===== src/Orchestrator/Calibrated.antt =====
-- orchestrator.py: what the asset `calibration_fit` reports.
use augury.Prelude.{
  ℕ, ◌≤◌, ◌<◌, String, ◌≡◌, refl, ◌⊎◌, arith, map, length, ltb, ltb→lt, ltb→le, Bool-cases, inl,
  inr, Option, Result, Result-cases, Error, false, ok, err,
}
use augury.Prelude.Float.{Float}
use augury.Prelude.Json.{Builtins}
use augury.Signal.{Arrays, StanceModel}
use augury.Signal.Fitting.{IsSound, is_any_huge, fit_platt-ok, length-map}
use augury.Db.{Database, resolved_signal_pairs}
use augury.Orchestrator.Derived.{
  FitReport, too_little_history, not_identifiable, fitted, fit_report, configured_version,
  calibration_fit,
}

module _ {F : Type 0} ⦃d : Float F⦄ where
  -- a report on `m` resolved markets
  abbrev pub IsReport : ℕ → FitReport F → Type 0
  IsReport m (too_little_history n) = (n ≡ m) × (m < 2)
  IsReport m not_identifiable = 2 ≤ m
  IsReport m (fitted p) = (p.n_obs ≡ m) × (2 ≤ m)

  -- no stored outcome is too large for a float
  abbrev pub IsSmall : Database F → Type 0
  IsSmall db =
      (version : String) → is_any_huge F (map (λ p. p.1) (resolved_signal_pairs version db)) ≡ false

  fit_report-ok :
      IsSound F
      → (np : Arrays F) (version : String) (db : Database F) → IsSmall db
      → (r : FitReport F) × (fit_report np version db ≡ ok r)
        × IsReport (length (resolved_signal_pairs version db)) r
  unfolding fit_report
  fit_report-ok laws np version db small =
      let pairs = resolved_signal_pairs version db in
      elim (Bool-cases (ltb (length pairs) 2)) [
        | inl few ↦ rw few (_, refl, (refl, ltb→lt _ _ few))
        | inr enough ↦
            rw enough
              (elim (fit_platt-ok laws np 100 (d.lit 1 9) (map (λ p. p.0) pairs)
                (map (λ p. p.1) pairs)) [
                  | inl (p, done, (counted, least), same) ↦
                      let all = length-map (λ q. q.0) pairs in
                      rw done (_, refl, (omega (arith, counted, all), ltb→le _ _ enough))
                  | inr (e, refused, inl is_value) ↦
                      rw (refused, is_value) (_, refl, ltb→le _ _ enough)
                  | inr (e, refused, inr (is_overflow, huge)) ↦
                      absurd (ground (arith, huge, small version))
                ])
      ]

  -- `calibration_fit` raises only what loading the settings or naming the configured model raises. Otherwise it
  -- reports, on the stored history of that version: with fewer than two resolved markets it says so, and
  -- with more it reports a fit that counts each of them, or that the history does not determine one. A
  -- float that equals 0.0 is below 1e-12 in size, a count plus 2.0 is not 0.0, and no stored outcome is
  -- too large for a float.
  pub calibration_fit-ok :
      ⦃py : Builtins F⦄
      → IsSound F
      → (env : String → Option String) (vader : StanceModel F) (deberta : Result (StanceModel F))
        (np : Arrays F) (db : Database F)
      → IsSmall db
      → ((e : Error) × (configured_version env vader deberta ≡ err e)
          × (calibration_fit env vader deberta np db ≡ err e))
        ⊎ ((version : String) × (r : FitReport F) × (configured_version env vader deberta
              ≡ ok version)
            × (calibration_fit env vader deberta np db ≡ ok r)
            × IsReport (length (resolved_signal_pairs version db)) r)
  unfolding calibration_fit
  calibration_fit-ok laws env vader deberta np db small =
      elim (Result-cases (configured_version env vader deberta)) [
        | inl (e, h) ↦ inl (e, h, rw (h, calibration_fit) refl)
        | inr (version, h) ↦
            let (r, done, report) = fit_report-ok laws np version db small in
            inr (version, r, h, rw (h, calibration_fit) done, report)
      ]
