-- ===== src/Ingest.antt =====
-- src/can_pub_sub_probe/hops/ingest.py and profiles.py: frames become signal events, by the
-- definitions of a vehicle's profile. A float of an integer is `of_int`.
pub mod Impala
pub mod Decoding
use robo_services.Prelude.{
  ℕ, String, Bool, List, [], ◌∷◌, map, ltb, if◌then◌else◌, ◌==◌, nat_eq, Option, none, some, Result,
  ok, err, ◌>>=◌,
}
use robo_services.Prelude.Dict.{Dict, get, keys}
use robo_services.Frame.{RawFrame, captured_at}
use robo_services.Frame.Probe.{ProbeContext, detect_probe}
use robo_services.Signal.{
  FloatOps, SignalEvent, DecodedSignal, DropReason, unknown_can_id, dbc_decode_failed,
  frame_invalid,
}

-- The exceptions of a normalization: `UnknownCanIdError`, `DecodeFailureError`, and any other.
pub data IngestError : Type 0 where
  unknown_can_id_error decode_failure_error other_error : IngestError

-- What an extractor raises: an IndexError, TypeError or ValueError, or another exception.
pub data ExtractError : Type 0 where
  value_error another_error : ExtractError

pub record SignalDefinition (F : Type 0) : Type 0 where
  pub name : String
  pub unit : String
  pub minimum_dlc : ℕ
  pub extractor : RawFrame → Result ExtractError F

-- `FrameDecoder.decode`
abbrev pub FrameDecoder : Type 0 → Type 0
FrameDecoder F = RawFrame → Result IngestError (List (DecodedSignal F))

pub record VehicleCanProfile (F : Type 0) : Type 0 where
  pub name : String
  pub vehicle : String
  pub bus : String
  pub baud : ℕ
  pub accepted_can_ids : List ℕ
  pub signal_versions : Dict String ℕ
  pub decoder : FrameDecoder F

abbrev pub require_minimum_dlc : RawFrame → ℕ → Result IngestError Unit
require_minimum_dlc frame minimum_dlc =
    if ltb frame.dlc minimum_dlc then err decode_failure_error else ok tt

-- The `try` around the extractor
abbrev pub extracted : {F : Type 0} → Result ExtractError F → Result IngestError F
extracted (ok value) = ok value
extracted (err value_error) = err decode_failure_error
extracted (err another_error) = err other_error

module _ {F : Type 0} where
  unfoldable pub decode_signal :
      RawFrame → SignalDefinition F → Result IngestError (DecodedSignal F)
  decode_signal frame definition = do
    long_enough ← require_minimum_dlc frame definition.minimum_dlc
    value ← extracted (definition.extractor frame)
    ok (record { name = definition.name; value = value; unit = definition.unit })

  unfoldable pub decode_signals :
      RawFrame → List (SignalDefinition F) → Result IngestError (List (DecodedSignal F))
  decode_signals frame [] = ok []
  decode_signals frame (definition ∷ definitions) = do
    signal ← decode_signal frame definition
    signals ← decode_signals frame definitions
    ok (signal ∷ signals)

  -- `StaticFrameDecoder.decode`
  unfoldable pub decode : Dict ℕ (List (SignalDefinition F)) → FrameDecoder F
  decode definitions frame = elim (get definitions frame.can_id) [
    | none ↦ err unknown_can_id_error
    | some signal_definitions ↦ decode_signals frame signal_definitions
  ]

-- `_validate_frame`; a timestamp is never negative here.
abbrev pub validate_frame : RawFrame → Result IngestError Unit
validate_frame frame = if ltb 8 frame.dlc then err other_error else ok tt

abbrev pub probe_of : RawFrame → Result IngestError (Option ProbeContext)
probe_of frame = elim (detect_probe frame) [ ok probe ↦ ok probe | err e ↦ err other_error ]

abbrev pub time_of : RawFrame → Result IngestError ℕ
time_of frame = elim (captured_at frame) [ ok time ↦ ok time | err e ↦ err other_error ]

module _ {F : Type 0} (ops : FloatOps F) (profile : VehicleCanProfile F) (source_session : String)
    (processed_at : ℕ) where
  abbrev pub probe_event : RawFrame → ℕ → ProbeContext → SignalEvent F
  probe_event frame time probe = record {
    signal_name = "ProbeFrame";
    value = ops.decimal 1 0;
    unit = "count";
    raw_frame_id = frame.can_id;
    captured_at = time;
    processed_at = processed_at;
    source_session = source_session;
    probe = some probe;
  }

  abbrev pub signal_event : RawFrame → ℕ → DecodedSignal F → SignalEvent F
  signal_event frame time signal = record {
    signal_name = signal.name;
    value = signal.value;
    unit = signal.unit;
    raw_frame_id = frame.can_id;
    captured_at = time;
    processed_at = processed_at;
    source_session = source_session;
    probe = none;
  }

  -- The events of the decoded signals; each asks for `captured_at`.
  unfoldable pub signal_events :
      RawFrame → List (DecodedSignal F) → Result IngestError (List (SignalEvent F))
  signal_events frame [] = ok []
  signal_events frame (signal ∷ signals) = do
    time ← time_of frame
    events ← signal_events frame signals
    ok (signal_event frame time signal ∷ events)

  unfoldable pub normalize_frame : RawFrame → Result IngestError (List (SignalEvent F))
  normalize_frame frame = do
    checked ← validate_frame frame
    probe ← probe_of frame
    elim probe [
      | some context ↦ time_of frame >>= λ time. ok (probe_event frame time context ∷ [])
      | none ↦ profile.decoder frame >>= signal_events frame
    ]

abbrev pub classify_error : IngestError → DropReason
classify_error unknown_can_id_error = unknown_can_id
classify_error decode_failure_error = dbc_decode_failed
classify_error other_error = frame_invalid
