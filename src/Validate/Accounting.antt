-- ===== src/Validate/Accounting.antt =====
-- No probe is lost without a report.
use robo_services.Prelude.{◌+◌, String, ◌≡◌, refl, Bool, List, [], ◌∷◌, arith, if◌then◌else◌}
use robo_services.Signal.{FloatOps, SignalEvent}
use robo_services.Signal.Diagnostics.{Reporting, tracer_of}
use robo_services.Signal.Diagnostics.Accounting.{in_flight, reported, hits, reported-emit_drop}
use robo_services.Validate.{ValidationConfig, Validator, validate_one, validate}

module _ {F : Type 0} (ops : FloatOps F) (fnmatch : String → String → Bool)
    (cfg : ValidationConfig F) (r : Reporting F) (t : String) where
  validate_one-reported :
      (v : Validator F) (e : SignalEvent F)
      → reported t (validate_one ops fnmatch cfg r v e).0.sink
        ≡ reported t v.sink
          + (if (validate_one ops fnmatch cfg r v e).1 then 0 else hits t (tracer_of e.probe))
  unfolding validate_one
  validate_one-reported v e = grind (arith, reported-emit_drop)

  -- For every tracer id: the probes that enter are those accepted and those newly reported.
  pub validate-reported :
      (v : Validator F) (events : List (SignalEvent F))
      → let (v', out) = validate ops fnmatch cfg r v events in
        in_flight t events + reported t v.sink ≡ in_flight t out + reported t v'.sink
  unfolding validate
  validate-reported v [] = refl
  validate-reported v (e ∷ es) =
      let v' = (validate_one ops fnmatch cfg r v e).0 in
      ground (arith, validate_one-reported v e, validate-reported v' es)
