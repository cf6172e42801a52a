-- ===== src/Aggregate/Engine.antt =====
-- hops/aggregate.py: what becomes of the windows, the derived signals, and `aggregate` as a whole.
use robo_services.Prelude.{
  ℕ, ◌+◌, ◌*◌, String, Bool, false, true, List, [], ◌∷◌, ◌++◌, length, min, ltb, if◌then◌else◌,
  ◌==◌, nat_eq, string_eq, pair_eq, Option, none, some, Result, ok, err, ◌>>=◌,
}
use robo_services.Prelude.Sort.{sort_by}
use robo_services.Prelude.Dict.{Dict, get, get_or, set, values}
use robo_services.Signal.{
  FloatOps, DropEvent, AggregatedSignal, windowed, probe_passthrough, derived, window_overflow,
  insufficient_samples, too_many_samples, too_few_samples,
}
use robo_services.Signal.Diagnostics.{Reporting, emit_drop}
use robo_services.Routing.{RoutedSignal}
use robo_services.Aggregate.{
  Statistics, AggregateError, no_inputs, compute_failed, DerivedSignalDefinition, AggregationConfig,
  WindowBucket, second_us, leb_routed, leb_item, least, greatest, window_seconds, min_samples_of,
  max_samples_of, collect_all, nothing_collected,
}

module _ {F : Type 0} (ops : FloatOps F) (stats : Statistics F) (cfg : AggregationConfig F) where
  -- `_build_windowed_signal`; the bucket's event has its first value.
  unfoldable pub build_windowed_signal : WindowBucket F → AggregatedSignal F
  build_windowed_signal bucket =
      let count = length bucket.values in
      record {
        signal_name = bucket.signal_name;
        topic = bucket.topic;
        unit = bucket.unit;
        window_start = bucket.window_start;
        window_end = bucket.window_start + window_seconds cfg bucket.signal_name * second_us;
        sample_count = count;
        min_value = least ops bucket.representative_event.value bucket.values;
        max_value = greatest ops bucket.representative_event.value bucket.values;
        mean_value = ops.div (stats.sum bucket.values) (stats.of_count count);
        stddev_value = if ltb 1 count then stats.pstdev bucket.values else ops.decimal 0 0;
        source_session = bucket.representative_event.source_session;
        kind = windowed;
        probe = none;
        derived_from = [];
      }

module _ {F : Type 0} (ops : FloatOps F) (stats : Statistics F) (cfg : AggregationConfig F)
    (r : Reporting F) where
  -- One turn of `_finalize_buckets`: the sink afterwards, and the aggregate, if any.
  unfoldable pub finalize_one :
      List (DropEvent F) → WindowBucket F → List (DropEvent F) × List (AggregatedSignal F)
  finalize_one sink bucket =
      let event = bucket.representative_event in
      if bucket.overflowed
      then (
        (emit_drop r event window_overflow "aggregate"
            (too_many_samples (max_samples_of cfg event.signal_name) event.signal_name) sink).0,
        [],
      )
      else if ltb (length bucket.values) (min_samples_of cfg event.signal_name)
      then (
        (emit_drop r event insufficient_samples "aggregate"
            (too_few_samples (length bucket.values) (min_samples_of cfg event.signal_name)) sink).0,
        [],
      )
      else (sink, build_windowed_signal ops stats cfg bucket ∷ [])

  unfoldable pub finalize_buckets :
      List (DropEvent F) → List (WindowBucket F) → List (DropEvent F) × List (AggregatedSignal F)
  finalize_buckets sink [] = (sink, [])
  finalize_buckets sink (bucket ∷ buckets) =
      let (sink', items) = finalize_one sink bucket in
      let (sink'', rest) = finalize_buckets sink' buckets in (sink'', items ++ rest)

-- The windowed aggregates of a topic and window, by signal
abbrev pub Group : Type 0 → Type 0
Group F = Dict String (AggregatedSignal F)

abbrev pub GroupKey : Type 0
GroupKey = String × (ℕ × ℕ)

module _ {F : Type 0} where
  -- `grouped`
  unfoldable pub grouped :
      Dict GroupKey (Group F) → List (AggregatedSignal F) → Dict GroupKey (Group F)
  grouped groups [] = groups
  grouped groups (x ∷ xs) =
      let key : GroupKey = (x.topic, (x.window_start, x.window_end)) in
      elim x.kind [
        | windowed ↦ grouped (set groups key (set (get_or groups key []) x.signal_name x)) xs
        | probe_passthrough ↦ grouped groups xs
        | derived ↦ grouped groups xs
      ]

  -- `signals[name]` for each of the names; none where one is missing
  unfoldable pub inputs_of : Group F → List String → Option (List (AggregatedSignal F))
  inputs_of signals [] = some []
  inputs_of signals (name ∷ names) = elim (get signals name) [
    | none ↦ none
    | some x ↦ elim (inputs_of signals names) [ none ↦ none | some xs ↦ some (x ∷ xs) ]
  ]

  abbrev pub fewest : ℕ → List (AggregatedSignal F) → ℕ
  fewest n [] = n
  fewest n (x ∷ xs) = fewest (min n x.sample_count) xs

  unfoldable pub derived_signal :
      FloatOps F
      → DerivedSignalDefinition F
      → GroupKey
      → F
      → AggregatedSignal F
      → List (AggregatedSignal F)
      → AggregatedSignal F
  derived_signal ops definition (topic, (start, end)) value first others = record {
    signal_name = definition.name;
    topic = topic;
    unit = definition.unit;
    window_start = start;
    window_end = end;
    sample_count = fewest first.sample_count others;
    min_value = value;
    max_value = value;
    mean_value = value;
    stddev_value = ops.decimal 0 0;
    source_session = first.source_session;
    kind = derived;
    probe = none;
    derived_from = definition.input_signals;
  }

  unfoldable pub derive_one :
      FloatOps F
      → DerivedSignalDefinition F
      → GroupKey
      → Group F
      → Result AggregateError (List (AggregatedSignal F))
  derive_one ops definition key signals =
      if not_topic key definition
      then ok []
      else elim (inputs_of signals definition.input_signals) [
        | none ↦ ok []
        | some [] ↦ err no_inputs
        | some (x ∷ xs) ↦ elim (definition.compute signals) [
          | none ↦ err compute_failed
          | some value ↦ ok (derived_signal ops definition key value x xs ∷ [])
        ]
      ]
    where
      not_topic : GroupKey → DerivedSignalDefinition F → Bool
      not_topic key definition = if key.0 == definition.topic then false else true

  unfoldable pub derive_groups :
      FloatOps F
      → DerivedSignalDefinition F
      → Dict GroupKey (Group F)
      → Result AggregateError (List (AggregatedSignal F))
  derive_groups ops definition [] = ok []
  derive_groups ops definition ((key, signals) ∷ groups) = do
    items ← derive_one ops definition key signals
    rest ← derive_groups ops definition groups
    ok (items ++ rest)

  unfoldable pub derive_all :
      FloatOps F
      → Dict GroupKey (Group F)
      → List (DerivedSignalDefinition F)
      → Result AggregateError (List (AggregatedSignal F))
  derive_all ops groups [] = ok []
  derive_all ops groups (definition ∷ definitions) = do
    items ← derive_groups ops definition groups
    rest ← derive_all ops groups definitions
    ok (items ++ rest)

module _ {F : Type 0} (ops : FloatOps F) (stats : Statistics F) (cfg : AggregationConfig F)
    (r : Reporting F) where
  -- `_derive_signals`
  abbrev pub derive_signals :
      List (AggregatedSignal F) → Result AggregateError (List (AggregatedSignal F))
  derive_signals aggregated = derive_all ops (grouped [] aggregated) cfg.derived_signals

  -- The end of `aggregate`, from the finalized windows on
  unfoldable pub conclude :
      List (DropEvent F)
      → List (AggregatedSignal F)
      → List (DropEvent F) × Result AggregateError (List (AggregatedSignal F))
  conclude sink aggregated =
      (sink, derive_signals aggregated >>= λ items. ok (sort_by leb_item (aggregated ++ items)))

  -- `aggregate`: the sink afterwards, and the aggregates unless it raises
  unfoldable pub aggregate :
      List (DropEvent F)
      → List (RoutedSignal F)
      → List (DropEvent F) × Result AggregateError (List (AggregatedSignal F))
  aggregate sink routed_events =
      elim (collect_all cfg ops nothing_collected (sort_by leb_routed routed_events)) [
        | err e ↦ (sink, err e)
        | ok c ↦
            let (sink', items) = finalize_buckets ops stats cfg r sink (values c.buckets) in
            conclude sink' (c.passthrough_events ++ items)
      ]
