-- ===== src/Validate/Acceptance.antt =====
-- What the validator lets through.
use mathlib.Core.Path.{subst}
use robo_services.Prelude.{
  String, ◌≡◌, Bool, false, true, List, [], ◌∷◌, arith, any, none, some, string_eq, Bool-cases, inl,
  inr,
}
use robo_services.Prelude.Dict.{Dict, get, set}
use robo_services.Signal.{FloatOps, SignalEvent}
use robo_services.Signal.Diagnostics.{Reporting}
use robo_services.Validate.{
  ValidationConfig, Validator, is_filtered, out_of_range, rate_implausible_by, validate_one,
  validate,
}

module _ {F : Type 0} (ops : FloatOps F) (fnmatch : String → String → Bool)
    (cfg : ValidationConfig F) where
  -- The event matches no exclusion pattern, lies in its signal's range, if it has one, and is within
  -- the signal's largest step, if it has one, from the value in `previous`, if it has one.
  pub record Passes (previous : Dict String F) (e : SignalEvent F) : Type 0 where
    pub not_excluded : any (λ pattern. fnmatch e.signal_name pattern) cfg.filter_patterns ≡ false
    pub in_range :
        (lower upper : F)
        → get cfg.ranges e.signal_name ≡ some (lower, upper)
        → (ops.le lower e.value ≡ true) × (ops.le e.value upper ≡ true)
    pub plausible :
        (threshold value : F)
        → get cfg.max_deltas e.signal_name ≡ some threshold
        → get previous e.signal_name ≡ some value
        → ops.lt threshold (ops.abs (ops.sub e.value value)) ≡ false

  -- Each event passes against the values of the events before it.
  abbrev pub PassesAll : Dict String F → List (SignalEvent F) → Type 0
  PassesAll previous [] = Unit
  PassesAll previous (e ∷ es) =
      Passes previous e × PassesAll (set previous e.signal_name e.value) es

  module _ (r : Reporting F) where
    out_of_range-none :
        (e : SignalEvent F) {lower upper : F}
        → out_of_range ops fnmatch cfg e ≡ none
        → get cfg.ranges e.signal_name ≡ some (lower, upper)
        → (ops.le lower e.value ≡ true) × (ops.le e.value upper ≡ true)
    unfolding out_of_range
    out_of_range-none e h g = ground arith

    rate_implausible_by-none :
        (previous : Dict String F) (e : SignalEvent F) {threshold value : F}
        → rate_implausible_by ops fnmatch cfg previous e ≡ none
        → get cfg.max_deltas e.signal_name ≡ some threshold
        → get previous e.signal_name ≡ some value
        → ops.lt threshold (ops.abs (ops.sub e.value value)) ≡ false
    unfolding rate_implausible_by
    rate_implausible_by-none previous e h g p = ground arith

    kept-Passes :
        (v : Validator F) (e : SignalEvent F)
        → (validate_one ops fnmatch cfg r v e).1 ≡ true
        → Passes v.previous_values e
          × ((validate_one ops fnmatch cfg r v e).0.previous_values
              ≡ set v.previous_values e.signal_name e.value)
    unfolding validate_one is_filtered
    kept-Passes v e h =
        let in_bounds : out_of_range ops fnmatch cfg e ≡ none = ground arith in
        let slow : rate_implausible_by ops fnmatch cfg v.previous_values e ≡ none = ground arith in
        (
          record {
            not_excluded = ground arith;
            in_range = λ lower upper. out_of_range-none e in_bounds;
            plausible = λ threshold value. rate_implausible_by-none v.previous_values e slow;
          },
          ground arith,
        )

    dropped_same :
        (v : Validator F) (e : SignalEvent F)
        → (validate_one ops fnmatch cfg r v e).1 ≡ false
        → (validate_one ops fnmatch cfg r v e).0.previous_values ≡ v.previous_values
    unfolding validate_one
    dropped_same v e h = ground arith

    -- Every accepted event passes the three checks, its step being measured from the last accepted
    -- value of its signal: the state's, or that of an earlier accepted event of the same call.
    pub validate-PassesAll :
        (v : Validator F) (events : List (SignalEvent F))
        → PassesAll v.previous_values (validate ops fnmatch cfg r v events).1
    unfolding validate
    validate-PassesAll v [] = tt
    validate-PassesAll v (e ∷ es) =
        let (v', kept) = validate_one ops fnmatch cfg r v e in
        let out = (validate ops fnmatch cfg r v' es).1 in
        elim (Bool-cases (validate_one ops fnmatch cfg r v e).1) [
          | inl k ↦
              let (p, same) = kept-Passes v e k in
              rw k (p, subst (λ d. PassesAll d out) same (validate-PassesAll v' es))
          | inr k ↦
              rw k (subst (λ d. PassesAll d out) (dropped_same v e k) (validate-PassesAll v' es))
        ]
