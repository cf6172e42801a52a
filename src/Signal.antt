-- ===== src/Signal.antt =====
-- src/can_pub_sub_probe/models.py: the events that the hops of the pipeline pass on. Times are
-- microseconds since the epoch. The values are Python floats, whose type and operations are a
-- parameter: nothing is assumed of them but what a theorem names.
pub mod Diagnostics
use robo_services.Prelude.{ℕ, String, Bool, List, Option}
use robo_services.Frame.Probe.{ProbeContext}

-- The float operations that the pipeline calls. `decimal n k` is the literal n / 10 ^ k.
pub record FloatOps (F : Type 0) : Type 0 where
  pub le : F → F → Bool
  pub lt : F → F → Bool
  pub add : F → F → F
  pub sub : F → F → F
  pub mul : F → F → F
  pub div : F → F → F
  pub abs : F → F
  pub decimal : ℕ → ℕ → F

pub record SignalEvent (F : Type 0) : Type 0 where
  pub signal_name : String
  pub value : F
  pub unit : String
  pub raw_frame_id : ℕ
  pub captured_at : ℕ
  pub processed_at : ℕ
  pub source_session : String
  pub probe : Option ProbeContext

pub data DropReason : Type 0 where
  unknown_can_id dbc_decode_failed frame_invalid range_exceeded rate_implausible : DropReason
  filter_rejected no_route routing_table_version_mismatch window_overflow : DropReason
  insufficient_samples silent_drop : DropReason

-- The texts of `reason_detail`: a constructor for each f-string, with what it prints.
pub data Detail (F : Type 0) : Type 0 where
  matched_exclusion : Detail F
  outside : F → F → F → Detail F
  delta_exceeded : F → F → Detail F
  version_predates : ℕ → ℕ → Detail F
  no_rule_matched : String → Detail F
  too_many_samples : ℕ → String → Detail F
  too_few_samples : ℕ → ℕ → Detail F
  ingest_error : Detail F

pub record DropEvent (F : Type 0) : Type 0 where
  pub tracer_id : Option String
  pub hop : String
  pub outcome : String
  pub reason_code : DropReason
  pub reason_detail : Detail F
  pub signal : String
  pub timestamp : ℕ

pub record DecodedSignal (F : Type 0) : Type 0 where
  pub name : String
  pub value : F
  pub unit : String

pub data AggregationKind : Type 0 where
  windowed probe_passthrough derived : AggregationKind

pub record AggregatedSignal (F : Type 0) : Type 0 where
  pub signal_name : String
  pub topic : String
  pub unit : String
  pub window_start : ℕ
  pub window_end : ℕ
  pub sample_count : ℕ
  pub min_value : F
  pub max_value : F
  pub mean_value : F
  pub stddev_value : F
  pub source_session : String
  pub kind : AggregationKind
  pub probe : Option ProbeContext
  pub derived_from : List String
