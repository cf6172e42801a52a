-- ===== src/Sinks.antt =====
-- src/can_pub_sub_probe/sinks.py: the engine that hands validated events and aggregates to a sink
-- backend, with a terminal event for every probe. The backend is `InMemorySinkBackend`; the clock
-- gives the time of the n-th terminal event.
pub mod Egress
use Prim.Native.Char.{code}
use Prim.Native.String
use robo_services.Prelude.{
  ℕ, ◌+◌, suc, String, Bool, false, true, List, [], ◌∷◌, ◌++◌, length, if◌then◌else◌, ◌==◌, nat_eq,
  Option, none, some,
}
use robo_services.Frame.Probe.{ProbeContext}
use robo_services.Signal.{
  SignalEvent, AggregatedSignal, AggregationKind, windowed, probe_passthrough, derived,
}

-- What is left of a text behind a prefix.
strip : String → String → Option String
strip String.[] s = some s
strip (String.◌∷◌ c p) String.[] = none
strip (String.◌∷◌ c p) (String.◌∷◌ d s) = if code c == code d then strip p s else none

-- `topic.removeprefix("signals.")`.
unfoldable pub topic_domain : String → String
unfolding strip
topic_domain topic = elim (strip "signals." topic) [ none ↦ topic | some rest ↦ rest ]

pub record RawSignalSinkRecord (F : Type 0) : Type 0 where
  pub signal_name : String
  pub source_topic : String
  pub value : F
  pub unit : String
  pub raw_frame_id : ℕ
  pub captured_at : ℕ
  pub processed_at : ℕ
  pub source_session : String
  pub probe : Option ProbeContext

pub record AggregateSignalSinkRecord (F : Type 0) : Type 0 where
  pub signal_name : String
  pub measurement : String
  pub domain : String
  pub source_topic : String
  pub unit : String
  pub window_start : ℕ
  pub window_end : ℕ
  pub sample_count : ℕ
  pub min_value : F
  pub max_value : F
  pub mean_value : F
  pub stddev_value : F
  pub source_session : String
  pub kind : String
  pub probe : Option ProbeContext
  pub derived_from : List String

pub record SinkTerminalEvent : Type 0 where
  pub tracer_id : String
  pub sink_name : String
  pub outcome : String
  pub signal_name : String
  pub source_topic : String
  pub record_kind : String
  pub occurred_at : ℕ
  pub source_session : String
  pub egress_suppressed : Bool

pub record SinkWriteSummary : Type 0 where
  pub raw_records_written : ℕ
  pub aggregate_records_written : ℕ
  pub terminal_events_recorded : ℕ

pub record Backend (F : Type 0) : Type 0 where
  pub name : String
  pub raw_records : List (RawSignalSinkRecord F)
  pub aggregate_records : List (AggregateSignalSinkRecord F)
  pub terminal_events : List SinkTerminalEvent

-- `kind.value`.
unfoldable pub kind_value : AggregationKind → String
kind_value windowed = "WINDOWED"
kind_value probe_passthrough = "PROBE_PASSTHROUGH"
kind_value derived = "DERIVED"

abbrev pub probe_suppresses_egress : Option ProbeContext → Bool
probe_suppresses_egress none = false
probe_suppresses_egress (some p) = p.suppress_egress

-- The three counters, for one item: whether a record was written, and whether a terminal event.
abbrev pub written : Option ProbeContext → ℕ
written p = if probe_suppresses_egress p then 0 else 1

abbrev pub has_probe : Option ProbeContext → ℕ
has_probe none = 0
has_probe (some p) = 1

module _ {F : Type 0} where
  unfoldable pub raw_record : SignalEvent F → String → RawSignalSinkRecord F
  raw_record event source_topic = record {
    signal_name = event.signal_name;
    source_topic = source_topic;
    value = event.value;
    unit = event.unit;
    raw_frame_id = event.raw_frame_id;
    captured_at = event.captured_at;
    processed_at = event.processed_at;
    source_session = event.source_session;
    probe = event.probe;
  }

  unfoldable pub aggregate_record : AggregatedSignal F → AggregateSignalSinkRecord F
  unfolding topic_domain kind_value
  aggregate_record item = record {
    signal_name = item.signal_name;
    measurement = item.signal_name;
    domain = topic_domain item.topic;
    source_topic = item.topic;
    unit = item.unit;
    window_start = item.window_start;
    window_end = item.window_end;
    sample_count = item.sample_count;
    min_value = item.min_value;
    max_value = item.max_value;
    mean_value = item.mean_value;
    stddev_value = item.stddev_value;
    source_session = item.source_session;
    kind = kind_value item.kind;
    probe = item.probe;
    derived_from = item.derived_from;
  }

  -- `write_raw`, `write_aggregate` and `write_terminal` append.
  unfoldable pub write_raw : Backend F → RawSignalSinkRecord F → Backend F
  write_raw b x = record b { raw_records = b.raw_records ++ (x ∷ []) }

  unfoldable pub write_aggregate : Backend F → AggregateSignalSinkRecord F → Backend F
  write_aggregate b x = record b { aggregate_records = b.aggregate_records ++ (x ∷ []) }

abbrev pub zero_counts : SinkWriteSummary
zero_counts = record {
  raw_records_written = 0;
  aggregate_records_written = 0;
  terminal_events_recorded = 0;
}

module _ {F : Type 0} (clock : ℕ → ℕ) where
  -- `_terminal_event` and `write_terminal`, for a probe that is there.
  unfoldable pub record_terminal :
      Backend F → ProbeContext → String → String → String → String → Bool → Backend F
  record_terminal b p signal_name source_topic record_kind source_session suppressed = record b {
    terminal_events =
        b.terminal_events
        ++ ((record {
          tracer_id = p.tracer_id;
          sink_name = b.name;
          outcome = "forwarded_to_sink";
          signal_name = signal_name;
          source_topic = source_topic;
          record_kind = record_kind;
          occurred_at = clock (length b.terminal_events);
          source_session = source_session;
          egress_suppressed = suppressed;
        })
            ∷ []);
  }

  -- One turn of each loop of `write`, by whether the item carries a probe.
  unfoldable pub write_event : String → Backend F → SignalEvent F → Backend F
  write_event topic b event = elim event.probe [
    | none ↦ write_raw b (raw_record event topic)
    | some p ↦
        if p.suppress_egress
        then record_terminal b p event.signal_name topic "raw" event.source_session true
        else record_terminal (write_raw b (raw_record event topic)) p event.signal_name topic "raw"
            event.source_session false
  ]

  unfoldable pub write_item : Backend F → AggregatedSignal F → Backend F
  write_item b item = elim item.probe [
    | none ↦ write_aggregate b (aggregate_record item)
    | some p ↦
        if p.suppress_egress
        then record_terminal b p item.signal_name item.topic "aggregate" item.source_session true
        else record_terminal (write_aggregate b (aggregate_record item)) p item.signal_name
            item.topic "aggregate" item.source_session false
  ]

  unfoldable pub write_events :
      String → Backend F → SinkWriteSummary → List (SignalEvent F) → Backend F × SinkWriteSummary
  write_events topic b n [] = (b, n)
  write_events topic b n (event ∷ events) =
      write_events topic (write_event topic b event)
        (record n {
          raw_records_written = n.raw_records_written + written event.probe;
          terminal_events_recorded = n.terminal_events_recorded + has_probe event.probe;
        })
        events

  unfoldable pub write_items :
      Backend F → SinkWriteSummary → List (AggregatedSignal F) → Backend F × SinkWriteSummary
  write_items b n [] = (b, n)
  write_items b n (item ∷ items) =
      write_items (write_item b item)
        (record n {
          aggregate_records_written = n.aggregate_records_written + written item.probe;
          terminal_events_recorded = n.terminal_events_recorded + has_probe item.probe;
        })
        items

  -- `SinkEngine.write`.
  unfoldable pub write :
      String
      → Backend F
      → List (SignalEvent F)
      → List (AggregatedSignal F)
      → Backend F × SinkWriteSummary
  write raw_source_topic b validated_events aggregated_events =
      let (b', n) = write_events raw_source_topic b zero_counts validated_events in
      write_items b' n aggregated_events
