-- ===== src/Tests/Hops.antt =====
-- Two frames of the Impala and a probe frame through the whole pipeline, and what its hops do with
-- them. Floats are numbers here, and a pattern matches its own name only.
use robo_services.Prelude.{
  ℕ, ◌+◌, ◌-◌, ◌*◌, ◌/◌, ◌^◌, ◌≡◌, refl, Bool, false, List, [], ◌∷◌, ltb, leb, ◌==◌, arith,
  string_eq, nat_eq, pair_eq, String, none, some, ok, err, All,
}
use robo_services.Prelude.Sort.{sum_of, sort_by}
use robo_services.Prelude.Int.{pos_part}
use robo_services.Prelude.Dict.{get, get_or, set}
use robo_services.Frame.{RawFrame, IsValid, captured_at}
use robo_services.Prelude.Datetime.{from_timestamp}
use robo_services.Frame.Probe.{detect_probe, read_probe}
use robo_services.Frame.Replay.{IsReplayed, replay_frames, replay_frames-IsReplayed}
use robo_services.Frame.Hex.{hex}
use robo_services.Validate.{validate, validate_one, is_filtered, out_of_range, rate_implausible_by}
use robo_services.Signal.{FloatOps, SignalEvent, AggregatedSignal}
use robo_services.Signal.Diagnostics.{Reporting, emit_drop, publish, should_emit_real_traffic}
use robo_services.Signal.Diagnostics.Accounting.{reported}
use robo_services.Ingest.{
  VehicleCanProfile, decode, decode_signals, decode_signal, normalize_frame, signal_events,
}
use robo_services.Ingest.Impala.{u16_be, byte_at, impala_definitions, build_impala_2008_can_profile}
use robo_services.Routing.{
  RoutedSignal, default_routing_table, route, route_one, matched_routes, rule_matches, route_to,
}
use robo_services.Aggregate.{
  Statistics, AggregationConfig, Collected, nothing_collected, leb_item, collect_all, WindowKey,
  window_start_of, collect_one, window_seconds, leb_routed, leb_key, append_value, max_samples_of,
  min_samples_of, passthrough_of,
}
use robo_services.Aggregate.Engine.{
  aggregate, finalize_buckets, conclude, derive_all, finalize_one, grouped,
}
use robo_services.Aggregate.Probes.{item_hits, routed_hits, aggregate-hits}
use robo_services.Pipeline.{
  World, PipelineOptions, LocalPipelineResult, run_local_pipeline, aggregate_events, route_events,
  after_ingest, ingest_all, ingest_one, report_frame, ingest_drop_event, write_results,
}
use robo_services.Pipeline.Conservation.{frame_hits, IsBalanced, run_local_pipeline-reported}

abbrev nat_ops : FloatOps ℕ
nat_ops = record {
  le = leb;
  lt = ltb;
  add = λ a b. a + b;
  sub = λ a b. a - b;
  mul = λ a b. a * b;
  div = λ a b. a / b;
  abs = λ a. a;
  decimal = λ n k. n / 10 ^ k;
}

abbrev total : List ℕ → ℕ
total [] = 0
total (x ∷ xs) = x + total xs

abbrev stats : Statistics ℕ
stats = record { sum = total; pstdev = λ xs. 0; of_count = λ n. n }

abbrev speed_frame : RawFrame
speed_frame = record {
  timestamp_ms = 7000;
  can_id = 0x3E9;
  dlc = 2;
  payload = 1 ∷ 44 ∷ [];
  is_extended = false;
}

abbrev probe_frame : RawFrame
probe_frame = record {
  timestamp_ms = 8000;
  can_id = 0x7FF;
  dlc = 8;
  payload = 0xCA ∷ 1 ∷ 2 ∷ 3 ∷ 4 ∷ 9 ∷ 1 ∷ 0 ∷ [];
  is_extended = false;
}

abbrev unknown_frame : RawFrame
unknown_frame = record speed_frame { can_id = 5 }

speed_frame-IsValid : IsValid speed_frame
speed_frame-IsValid = record {
  id_fits = ground arith;
  dlc_fits = ground arith;
  payload_fits = refl;
}

abbrev config : AggregationConfig ℕ
config = record {
  default_window_seconds = 5;
  signal_window_seconds = [];
  min_samples = [];
  max_samples = [];
  derived_signals = [];
}

abbrev speed : SignalEvent ℕ
speed = record {
  signal_name = "VehicleSpeed";
  value = 3;
  unit = "mph";
  raw_frame_id = 0x3E9;
  captured_at = 7000000;
  processed_at = 1;
  source_session = "s1";
  probe = none;
}

abbrev routed : List (RoutedSignal ℕ)
routed =
    record { topic = "signals.chassis"; event = speed; rule_id = "r" }
    ∷ record { topic = "signals.chassis"; event = record speed { value = 5 }; rule_id = "r" }
    ∷ []

abbrev collected : Collected ℕ
collected = elim (collect_all config nat_ops nothing_collected routed) [
  | ok c ↦ c
  | err e ↦ nothing_collected
]

abbrev window : WindowKey
window = ("signals.chassis", ("VehicleSpeed", 5000000))

abbrev reporting : Reporting ℕ
reporting = record { clock = λ n. 100 + n; sample_real_traffic = none }

abbrev items : List (AggregatedSignal ℕ)
items = elim (aggregate nat_ops stats config reporting [] routed).1 [ ok xs ↦ xs | err e ↦ [] ]

aggregate-hits_example :
    (sum_of (item_hits "ab") items ≡ sum_of (routed_hits "ab") routed)
    × (reported {F = ℕ} "ab" [] ≡ reported {F = ℕ} "ab" [])
unfolding aggregate collect_all collect_one window_start_of window_seconds get_or get sort_by
    leb_routed leb_key conclude finalize_buckets derive_all set finalize_one append_value
    max_samples_of min_samples_of
aggregate-hits_example = aggregate-hits nat_ops stats config reporting "ab" [] routed [] items refl

abbrev same_name : String → String → Bool
same_name name pattern = name == pattern

abbrev world : World ℕ
world = record {
  ops = nat_ops;
  stats = stats;
  fnmatch = same_name;
  clock = λ n. 100 + n;
  terminal_clock = λ n. n;
  processed_at = λ n. n;
  can_id_name = λ n. "can_id_0x5";
}

abbrev profile : VehicleCanProfile ℕ
profile = build_impala_2008_can_profile nat_ops pos_part

abbrev settings : PipelineOptions ℕ
settings = record {
  validation_config = none;
  validate_sample_real_traffic = none;
  routing_table = some default_routing_table;
  route_sample_real_traffic = none;
  aggregation_config = some config;
  aggregate_sample_real_traffic = none;
  sink_backend = none;
  ingest_sample_real_traffic = none;
}

abbrev frames : List RawFrame
frames = speed_frame ∷ probe_frame ∷ unknown_frame ∷ []

frames-IsValid : All IsValid frames
frames-IsValid = (
  speed_frame-IsValid,
  (
    record { id_fits = ground arith; dlc_fits = ground arith; payload_fits = refl },
    (record { id_fits = ground arith; dlc_fits = ground arith; payload_fits = refl }, tt),
  ),
)

abbrev result : LocalPipelineResult ℕ
result = elim (run_local_pipeline world "s1" profile settings [] frames) [
  | ok x ↦ x
  | err e ↦ record {
    validated_events = [];
    routed_events = [];
    aggregated_events = [];
    diagnostics = [];
    sink_summary = none;
  }
]

run_local_pipeline-reported_example :
    IsBalanced "01020304" world "s1" profile settings
      (sum_of (frame_hits "01020304") frames + reported {F = ℕ} "01020304" [])
      result
unfolding run_local_pipeline after_ingest signal_events from_timestamp aggregate_events route_events
    route route_one matched_routes rule_matches route_to default_routing_table ingest_all ingest_one
    report_frame ingest_drop_event emit_drop publish should_emit_real_traffic normalize_frame
    detect_probe read_probe captured_at hex build_impala_2008_can_profile impala_definitions decode
    decode_signals decode_signal u16_be byte_at validate validate_one is_filtered out_of_range
    rate_implausible_by write_results passthrough_of leb_item grouped aggregate collect_all
    collect_one window_start_of window_seconds get_or get sort_by leb_routed leb_key conclude
    finalize_buckets derive_all set finalize_one append_value max_samples_of min_samples_of
run_local_pipeline-reported_example =
    run_local_pipeline-reported "01020304" world "s1" profile settings [] frames result
      frames-IsValid refl

replay_frames-IsReplayed_example : IsReplayed nat_ops 2 none frames (replay_frames nat_ops 2 frames)
replay_frames-IsReplayed_example = replay_frames-IsReplayed nat_ops 2 frames (ground arith)
