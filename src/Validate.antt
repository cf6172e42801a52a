-- ===== src/Validate.antt =====
-- src/can_pub_sub_probe/hops/validate.py: exclusion patterns, value ranges and the rate of change
-- against the last value that was accepted for the signal. `fnmatch` is Python's.
pub mod Acceptance
pub mod Accounting
use robo_services.Prelude.{
  ℕ, String, ◌≡◌, Bool, false, true, not, ◌&&◌, List, [], ◌∷◌, any, if◌then◌else◌, Option, none,
  some, string_eq,
}
use robo_services.Prelude.Dict.{Dict, get, set}
use robo_services.Signal.{
  FloatOps, SignalEvent, DropEvent, Detail, filter_rejected, range_exceeded, rate_implausible,
  matched_exclusion, outside, delta_exceeded,
}
use robo_services.Signal.Diagnostics.{Reporting, emit_drop}

pub record ValidationConfig (F : Type 0) : Type 0 where
  pub ranges : Dict String (F × F)
  pub max_deltas : Dict String F
  pub filter_patterns : List String

-- The engine's mutable state: the last accepted value of each signal, and the sink.
pub record Validator (F : Type 0) : Type 0 where
  pub previous_values : Dict String F
  pub sink : List (DropEvent F)

module _ {F : Type 0} (ops : FloatOps F) (fnmatch : String → String → Bool)
    (cfg : ValidationConfig F) where
  unfoldable pub is_filtered : SignalEvent F → Bool
  is_filtered event = any (λ pattern. fnmatch event.signal_name pattern) cfg.filter_patterns

  -- The bounds that the event breaks, if any.
  unfoldable pub out_of_range : SignalEvent F → Option (F × F)
  out_of_range event = elim (get cfg.ranges event.signal_name) [
    | none ↦ none
    | some (lower, upper) ↦
        if ops.le lower event.value && ops.le event.value upper then none else some (lower, upper)
  ]

  -- The delta and the threshold that it passes, if any.
  unfoldable pub rate_implausible_by : Dict String F → SignalEvent F → Option (F × F)
  rate_implausible_by previous event = elim (get cfg.max_deltas event.signal_name) [
    | none ↦ none
    | some threshold ↦ elim (get previous event.signal_name) [
      | none ↦ none
      | some value ↦
          let delta = ops.abs (ops.sub event.value value) in
          if ops.lt threshold delta then some (delta, threshold) else none
    ]
  ]

  module _ (r : Reporting F) where
    -- One turn of the loop: the state afterwards, and whether the event was appended.
    unfoldable pub validate_one : Validator F → SignalEvent F → Validator F × Bool
    validate_one v event =
        if is_filtered event
        then (
          record v {
            sink = (emit_drop r event filter_rejected "validate" matched_exclusion v.sink).0;
          },
          false,
        )
        else elim (out_of_range event) [
          | some (lower, upper) ↦ (
            record v {
              sink =
                  (emit_drop r event range_exceeded "validate" (outside event.value lower upper)
                    v.sink).0;
            },
            false,
          )
          | none ↦ elim (rate_implausible_by v.previous_values event) [
            | some (delta, threshold) ↦ (
              record v {
                sink =
                    (emit_drop r event rate_implausible "validate" (delta_exceeded delta threshold)
                      v.sink).0;
              },
              false,
            )
            | none ↦ (
              record v { previous_values = set v.previous_values event.signal_name event.value },
              true,
            )
          ]
        ]

    abbrev keep_if :
        Bool
        → SignalEvent F
        → Validator F × List (SignalEvent F)
        → Validator F × List (SignalEvent F)
    keep_if kept event (v, out) = (v, if kept then event ∷ out else out)

    -- `validate`: the state afterwards and the accepted events, in order.
    unfoldable pub validate :
        Validator F → List (SignalEvent F) → Validator F × List (SignalEvent F)
    validate v [] = (v, [])
    validate v (event ∷ events) =
        let (v', kept) = validate_one v event in keep_if kept event (validate v' events)
