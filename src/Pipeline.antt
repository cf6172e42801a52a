-- ===== src/Pipeline.antt =====
-- src/can_pub_sub_probe/pipeline.py: the hops one after the other, on one diagnostic sink.
pub mod Conservation
use robo_services.Prelude.{
  ℕ, suc, String, Bool, List, [], ◌∷◌, ◌++◌, Option, none, some, Result, ok, err, ◌>>=◌,
}
use robo_services.Frame.{RawFrame, FrameError, captured_at}
use robo_services.Signal.{FloatOps, SignalEvent, DropEvent, AggregatedSignal, ingest_error}
use robo_services.Signal.Diagnostics.{Reporting, emit_drop}
use robo_services.Ingest.{VehicleCanProfile, IngestError, normalize_frame, classify_error}
use robo_services.Validate.{ValidationConfig, Validator, validate}
use robo_services.Routing.{RoutingTable, RoutedSignal, route}
use robo_services.Aggregate.{Statistics, AggregateError, AggregationConfig}
use robo_services.Aggregate.Engine.{aggregate}
use robo_services.Sinks.{Backend, SinkWriteSummary, write}

-- What leaves `run_local_pipeline`: the exception of the aggregator, or that of `captured_at` in the
-- `except` branch of the loop.
pub data PipelineError : Type 0 where
  aggregate_error : AggregateError → PipelineError
  frame_error : FrameError → PipelineError

pub record LocalPipelineResult (F : Type 0) : Type 0 where
  pub validated_events : List (SignalEvent F)
  pub routed_events : List (RoutedSignal F)
  pub aggregated_events : List (AggregatedSignal F)
  pub diagnostics : List (DropEvent F)
  pub sink_summary : Option (Backend F × SinkWriteSummary)

-- What is called and is not here: floats, statistics, `fnmatch`, the clock of the drop events, that of
-- the terminal events, that of the n-th frame's normalization, and a number's hexadecimal digits.
pub record World (F : Type 0) : Type 0 where
  pub ops : FloatOps F
  pub stats : Statistics F
  pub fnmatch : String → String → Bool
  pub clock : ℕ → ℕ
  pub terminal_clock : ℕ → ℕ
  pub processed_at : ℕ → ℕ
  pub can_id_name : ℕ → String

-- The arguments of `run_local_pipeline` that may be left out; a missing validation config is empty.
pub record PipelineOptions (F : Type 0) : Type 0 where
  pub validation_config : Option (ValidationConfig F)
  pub validate_sample_real_traffic : Option (SignalEvent F → Bool)
  pub routing_table : Option RoutingTable
  pub route_sample_real_traffic : Option (SignalEvent F → Bool)
  pub aggregation_config : Option (AggregationConfig F)
  pub aggregate_sample_real_traffic : Option (SignalEvent F → Bool)
  pub sink_backend : Option (Backend F)
  pub ingest_sample_real_traffic : Option (SignalEvent F → Bool)

abbrev pub config_or_empty : {F : Type 0} → Option (ValidationConfig F) → ValidationConfig F
config_or_empty none = record { ranges = []; max_deltas = []; filter_patterns = [] }
config_or_empty (some cfg) = cfg

abbrev pub raw_topic : String
raw_topic = "signals.validated"

-- The reports of a hop
abbrev pub reporting : {F : Type 0} → World F → Option (SignalEvent F → Bool) → Reporting F
reporting w sampler = record { clock = w.clock; sample_real_traffic = sampler }

module _ {F : Type 0} (w : World F) (source_session : String) where
  -- `_ingest_drop_event`
  unfoldable pub ingest_drop_event : RawFrame → ℕ → SignalEvent F
  ingest_drop_event frame captured_at = record {
    signal_name = w.can_id_name frame.can_id;
    value = w.ops.decimal frame.dlc 0;
    unit = "dlc";
    raw_frame_id = frame.can_id;
    captured_at = captured_at;
    processed_at = captured_at;
    source_session = source_session;
    probe = none;
  }

  module _ (profile : VehicleCanProfile F) (s : PipelineOptions F) where
    abbrev pub validate_events :
        Validator F → List (SignalEvent F) → Validator F × List (SignalEvent F)
    validate_events =
        validate w.ops w.fnmatch (config_or_empty s.validation_config)
          (reporting w s.validate_sample_real_traffic)

    -- The `except` branch of the loop
    unfoldable pub report_frame :
        Validator F → RawFrame → IngestError → Result PipelineError (Validator F)
    report_frame v frame e = elim (captured_at frame) [
      | err x ↦ err (frame_error x)
      | ok time ↦ ok (record v {
        sink =
            (emit_drop (reporting w s.ingest_sample_real_traffic) (ingest_drop_event frame time)
              (classify_error e) "ingest" ingest_error v.sink).0;
      })
    ]

    -- One turn of the loop over the frames, the n-th
    unfoldable pub ingest_one :
        ℕ → Validator F → RawFrame → Result PipelineError (Validator F × List (SignalEvent F))
    ingest_one n v frame =
        elim (normalize_frame w.ops profile source_session (w.processed_at n) frame) [
          | err e ↦ report_frame v frame e >>= λ v'. ok (v', [])
          | ok normalized_events ↦ ok (validate_events v normalized_events)
        ]

    unfoldable pub ingest_all :
        ℕ → Validator F → List RawFrame → Result PipelineError (Validator F × List (SignalEvent F))
    ingest_all n v [] = ok (v, [])
    ingest_all n v (frame ∷ frames) = do
      (v', accepted) ← ingest_one n v frame
      (v'', rest) ← ingest_all (suc n) v' frames
      ok (v'', accepted ++ rest)

    -- The router, where there is a table
    unfoldable pub route_events :
        List (DropEvent F) → List (SignalEvent F) → List (DropEvent F) × List (RoutedSignal F)
    route_events sink events = elim s.routing_table [
      | none ↦ (sink, [])
      | some table ↦
          route w.fnmatch table profile.signal_versions (reporting w s.route_sample_real_traffic)
            sink events
    ]

    -- The aggregator, where there is a config
    unfoldable pub aggregate_events :
        List (DropEvent F)
        → List (RoutedSignal F)
        → List (DropEvent F) × Result AggregateError (List (AggregatedSignal F))
    aggregate_events sink routed = elim s.aggregation_config [
      | none ↦ (sink, ok [])
      | some cfg ↦
          aggregate w.ops w.stats cfg (reporting w s.aggregate_sample_real_traffic) sink routed
    ]

    -- The sinks, where there is a backend
    unfoldable pub write_results :
        List (SignalEvent F) → List (AggregatedSignal F) → Option (Backend F × SinkWriteSummary)
    write_results events items = elim s.sink_backend [
      | none ↦ none
      | some backend ↦ some (write w.terminal_clock raw_topic backend events items)
    ]

    abbrev pub aggregated_or_raise :
        Result AggregateError (List (AggregatedSignal F))
        → Result PipelineError (List (AggregatedSignal F))
    aggregated_or_raise (ok items) = ok items
    aggregated_or_raise (err e) = err (aggregate_error e)

    -- After the loop over the frames
    unfoldable pub after_ingest :
        Validator F → List (SignalEvent F) → Result PipelineError (LocalPipelineResult F)
    after_ingest v validated =
        let (sink, routed) = route_events v.sink validated in
        let (sink', aggregated) = aggregate_events sink routed in
        aggregated_or_raise aggregated >>= λ items. ok (record {
          validated_events = validated;
          routed_events = routed;
          aggregated_events = items;
          diagnostics = sink';
          sink_summary = write_results validated items;
        })

    unfoldable pub run_local_pipeline :
        List (DropEvent F) → List RawFrame → Result PipelineError (LocalPipelineResult F)
    run_local_pipeline diagnostic_sink frames =
        ingest_all 0 (record { previous_values = []; sink = diagnostic_sink }) frames >>= λ p.
        after_ingest p.0 p.1
