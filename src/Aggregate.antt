-- ===== src/Aggregate.antt =====
-- src/can_pub_sub_probe/hops/aggregate.py: samples are put in windows by topic, signal and time; a
-- window with enough and not too many samples becomes an aggregate, and from the aggregates of one
-- window others are derived. Times are microseconds, window lengths whole seconds, not negative;
-- the code's division of times as floats has the same floor below 2 ^ 53 microseconds.
pub mod Windows
pub mod Probes
pub mod Counts
pub mod Engine
pub mod Order
use robo_services.Prelude.{
  ℕ, ◌+◌, ◌*◌, ◌/◌, String, Bool, false, true, ◌&&◌, ◌||◌, List, [], ◌∷◌, ◌++◌, length, min, ltb,
  if◌then◌else◌, ◌==◌, nat_eq, string_eq, pair_eq, list_eq, Option, none, some, Result, ok, err,
  ◌>>=◌, not,
}
use robo_services.Prelude.Text.{codes}
use robo_services.Prelude.Sort.{leb_text, sort_by}
use robo_services.Prelude.Dict.{Dict, get, get_or, set}
use robo_services.Frame.Probe.{ProbeContext}
use robo_services.Signal.{
  FloatOps, SignalEvent, DropEvent, AggregatedSignal, windowed, probe_passthrough, derived,
  AggregationKind, window_overflow, insufficient_samples, too_many_samples, too_few_samples,
}
use robo_services.Signal.Diagnostics.{Reporting, emit_drop}
use robo_services.Routing.{RoutedSignal}

-- `sum`, `pstdev`, and the float of a count
pub record Statistics (F : Type 0) : Type 0 where
  pub sum : List F → F
  pub pstdev : List F → F
  pub of_count : ℕ → F

-- `ZeroDivisionError` for a window of no length, `IndexError` for a definition without inputs, and
-- whatever `compute` raises.
pub data AggregateError : Type 0 where
  zero_division no_inputs compute_failed : AggregateError

-- `compute` gives nothing where it raises.
pub record DerivedSignalDefinition (F : Type 0) : Type 0 where
  pub name : String
  pub topic : String
  pub input_signals : List String
  pub unit : String
  pub compute : Dict String (AggregatedSignal F) → Option F

pub record AggregationConfig (F : Type 0) : Type 0 where
  pub default_window_seconds : ℕ
  pub signal_window_seconds : Dict String ℕ
  pub min_samples : Dict String ℕ
  pub max_samples : Dict String ℕ
  pub derived_signals : List (DerivedSignalDefinition F)

-- `AggregationConfig()`, with its one derived signal
abbrev pub load_index : {F : Type 0} → FloatOps F → Dict String (AggregatedSignal F) → Option F
load_index ops signals = elim (get signals "EngineRPM") [
  | none ↦ none
  | some rpm ↦ elim (get signals "VehicleSpeed") [
    | none ↦ none
    | some speed ↦ some (ops.mul rpm.mean_value speed.mean_value)
  ]
]

unfoldable pub default_config : {F : Type 0} → FloatOps F → AggregationConfig F
default_config ops = record {
  default_window_seconds = 5;
  signal_window_seconds = [];
  min_samples = [];
  max_samples = [];
  derived_signals =
      (record {
        name = "PowertrainLoadIndex";
        topic = "signals.powertrain";
        input_signals = "EngineRPM" ∷ "VehicleSpeed" ∷ [];
        unit = "rpm*mph";
        compute = load_index ops;
      })
      ∷ [];
}

-- A window's topic, signal and start
abbrev pub WindowKey : Type 0
WindowKey = String × (String × ℕ)

pub record WindowBucket (F : Type 0) : Type 0 where
  pub topic : String
  pub signal_name : String
  pub unit : String
  pub window_start : ℕ
  pub representative_event : SignalEvent F
  pub values : List F
  pub overflowed : Bool

-- The aggregates and the buckets of the loop
pub record Collected (F : Type 0) : Type 0 where
  pub passthrough_events : List (AggregatedSignal F)
  pub buckets : Dict WindowKey (WindowBucket F)

abbrev pub nothing_collected : {F : Type 0} → Collected F
nothing_collected = record { passthrough_events = []; buckets = [] }

abbrev pub second_us : ℕ
second_us = 1000000

-- Tuples of a time and two texts, in Python's order
unfoldable pub leb_key : ℕ → String → String → ℕ → String → String → Bool
leb_key t a b u c d =
    if t == u
    then (if codes a == codes c then leb_text (codes b) (codes d) else leb_text (codes a) (codes c))
    else ltb t u

module _ {F : Type 0} where
  -- `_sort_key`
  unfoldable pub leb_routed : RoutedSignal F → RoutedSignal F → Bool
  leb_routed x y =
      leb_key x.event.captured_at x.topic x.event.signal_name y.event.captured_at y.topic
        y.event.signal_name

  unfoldable pub leb_item : AggregatedSignal F → AggregatedSignal F → Bool
  leb_item x y = leb_key x.window_start x.topic x.signal_name y.window_start y.topic y.signal_name

  unfoldable pub passthrough_of : FloatOps F → RoutedSignal F → ProbeContext → AggregatedSignal F
  passthrough_of ops x probe = record {
    signal_name = x.event.signal_name;
    topic = x.topic;
    unit = x.event.unit;
    window_start = x.event.captured_at;
    window_end = x.event.captured_at;
    sample_count = 1;
    min_value = x.event.value;
    max_value = x.event.value;
    mean_value = x.event.value;
    stddev_value = ops.decimal 0 0;
    source_session = x.event.source_session;
    kind = probe_passthrough;
    probe = some probe;
    derived_from = [];
  }

  -- `min` and `max` of a list, the first of equals
  abbrev pub least : FloatOps F → F → List F → F
  least ops a [] = a
  least ops a (b ∷ bs) = least ops (if ops.lt b a then b else a) bs

  abbrev pub greatest : FloatOps F → F → List F → F
  greatest ops a [] = a
  greatest ops a (b ∷ bs) = greatest ops (if ops.lt a b then b else a) bs

module _ {F : Type 0} where
  abbrev pub new_bucket : RoutedSignal F → ℕ → WindowBucket F
  new_bucket x start = record {
    topic = x.topic;
    signal_name = x.event.signal_name;
    unit = x.event.unit;
    window_start = start;
    representative_event = x.event;
    values = [];
    overflowed = false;
  }

  abbrev pub bucket_or : Option (WindowBucket F) → WindowBucket F → WindowBucket F
  bucket_or none b = b
  bucket_or (some a) b = a

  abbrev pub bucket_key : RoutedSignal F → ℕ → WindowKey
  bucket_key x start = (x.topic, (x.event.signal_name, start))

module _ {F : Type 0} (cfg : AggregationConfig F) where
  unfoldable pub window_seconds : String → ℕ
  window_seconds signal_name =
      get_or cfg.signal_window_seconds signal_name cfg.default_window_seconds

  unfoldable pub min_samples_of : String → ℕ
  min_samples_of signal_name = get_or cfg.min_samples signal_name 1

  unfoldable pub max_samples_of : String → ℕ
  max_samples_of signal_name = get_or cfg.max_samples signal_name 10000

  unfoldable pub window_start_of : SignalEvent F → Option ℕ
  window_start_of event =
      let seconds = window_seconds event.signal_name in
      if seconds == 0
      then none
      else some ((event.captured_at / (seconds * second_us)) * seconds * second_us)

  -- `bucket.values.append(event.value)`, and the test of the length
  unfoldable pub append_value : WindowBucket F → SignalEvent F → WindowBucket F
  append_value bucket event = record bucket {
    values = bucket.values ++ (event.value ∷ []);
    overflowed =
        bucket.overflowed
        || ltb (max_samples_of event.signal_name) (length (bucket.values ++ (event.value ∷ [])));
  }

  -- One turn of the loop
  unfoldable pub collect_one :
      FloatOps F → Collected F → RoutedSignal F → Result AggregateError (Collected F)
  collect_one ops c x = elim x.event.probe [
    | some probe ↦ ok (record c {
      passthrough_events = c.passthrough_events ++ (passthrough_of ops x probe ∷ []);
    })
    | none ↦ elim (window_start_of x.event) [
      | none ↦ err zero_division
      | some start ↦ ok (record c {
        buckets = set c.buckets (bucket_key x start) (
            append_value (bucket_or (get c.buckets (bucket_key x start)) (new_bucket x start))
              x.event);
      })
    ]
  ]

  unfoldable pub collect_all :
      FloatOps F → Collected F → List (RoutedSignal F) → Result AggregateError (Collected F)
  collect_all ops c [] = ok c
  collect_all ops c (x ∷ xs) = collect_one ops c x >>= λ c'. collect_all ops c' xs
