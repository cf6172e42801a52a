-- ===== src/Tests/Pipeline.antt =====
-- Two events, one with a probe, through the validator, the router and the sinks. Floats are
-- numbers here, and a pattern matches its own name only.
use robo_services.Prelude.{
  ℕ, ◌+◌, ◌-◌, ◌*◌, ◌/◌, ◌^◌, ◌≡◌, Bool, true, List, [], ◌∷◌, ◌++◌, length, ltb, leb, ◌==◌,
  string_eq, String, none, some,
}
use robo_services.Frame.Probe.{ProbeContext}
use robo_services.Signal.{FloatOps, SignalEvent}
use robo_services.Signal.Diagnostics.{Reporting}
use robo_services.Signal.Diagnostics.Accounting.{in_flight, reported}
use robo_services.Validate.{ValidationConfig, Validator, validate}
use robo_services.Validate.Acceptance.{PassesAll, validate-PassesAll}
use robo_services.Validate.Accounting.{validate-reported}
use robo_services.Routing.{default_routing_table, route}
use robo_services.Routing.Delivery.{routable_events, all_routes, route_lem}
use robo_services.Sinks.{Backend, write}
use robo_services.Sinks.Egress.{
  raw_of, aggregates_of, tracers, probes_of, item_probes_of, terminal_tracers, write_lem,
}

abbrev nat_ops : FloatOps ℕ
nat_ops = record {
  le = leb;
  lt = ltb;
  add = λ a b. a + b;
  sub = λ a b. a - b;
  mul = λ a b. a * b;
  div = λ a b. a / b;
  abs = λ a. a;
  decimal = λ n k. n / 10 ^ k;
}

abbrev same_name : String → String → Bool
same_name name pattern = name == pattern

abbrev reporting : Reporting ℕ
reporting = record { clock = λ n. 100 + n; sample_real_traffic = none }

abbrev probe : ProbeContext
probe = record { tracer_id = "deadbeef"; flow_id = 1; injected_at = 5; suppress_egress = true }

abbrev speed : SignalEvent ℕ
speed = record {
  signal_name = "VehicleSpeed";
  value = 300;
  unit = "km/h";
  raw_frame_id = 0x10;
  captured_at = 1;
  processed_at = 2;
  source_session = "s1";
  probe = some probe;
}

abbrev brake : SignalEvent ℕ
brake = record speed { signal_name = "BrakePedalApplied"; value = 1; probe = none }

abbrev config : ValidationConfig ℕ
config = record {
  ranges = ("VehicleSpeed", (0, 255)) ∷ [];
  max_deltas = ("BrakePedalApplied", 1) ∷ [];
  filter_patterns = "Secret" ∷ [];
}

abbrev validator : Validator ℕ
validator = record { previous_values = []; sink = [] }

abbrev events : List (SignalEvent ℕ)
events = speed ∷ brake ∷ []

validate-reported_example :
    let (v', out) = validate nat_ops same_name config reporting validator events in
    in_flight "deadbeef" events + reported "deadbeef" validator.sink
    ≡ in_flight "deadbeef" out + reported "deadbeef" v'.sink
validate-reported_example =
    validate-reported nat_ops same_name config reporting "deadbeef" validator events

validate-PassesAll_example :
    PassesAll nat_ops same_name config []
      (validate nat_ops same_name config reporting validator events).1
validate-PassesAll_example = validate-PassesAll nat_ops same_name config reporting validator events

route_lem_example :
    let (sink', routed) =
      route same_name default_routing_table (("VehicleSpeed", 2) ∷ []) reporting [] events in
    let left =
      routable_events same_name default_routing_table (("VehicleSpeed", 2) ∷ []) reporting events in
    (routed ≡ all_routes same_name default_routing_table (("VehicleSpeed", 2) ∷ []) reporting left)
    × (in_flight "deadbeef" events + reported {F = ℕ} "deadbeef" []
        ≡ in_flight "deadbeef" left + reported "deadbeef" sink')
route_lem_example =
    route_lem same_name default_routing_table (("VehicleSpeed", 2) ∷ []) reporting "deadbeef" []
      events

abbrev backend : Backend ℕ
backend = record { name = "memory"; raw_records = []; aggregate_records = []; terminal_events = [] }

write_lem_example :
    let (b', n) = write (λ n. n) "signals.raw" backend events [] in
    let ids = tracers (probes_of events) ++ tracers (item_probes_of {F = ℕ} []) in
    (b'.raw_records ≡ raw_of "signals.raw" events)
    × (b'.aggregate_records ≡ aggregates_of [])
    × (terminal_tracers b'.terminal_events ≡ ids)
    × (n.raw_records_written ≡ length (raw_of "signals.raw" events))
    × (n.aggregate_records_written ≡ length (aggregates_of {F = ℕ} []))
    × (n.terminal_events_recorded ≡ length ids)
write_lem_example = write_lem (λ n. n) "signals.raw" backend events []
