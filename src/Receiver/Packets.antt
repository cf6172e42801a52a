-- ===== src/Receiver/Packets.antt =====
-- receiver_app.py: packets of one message, in MessagePack and in JSON.
use Prim.Native.String.{◌++◌ as append}
use robo_services.Prelude.{
  ℕ, String, if◌then◌else◌, ◌==◌, string_eq, Option, none, some, Result, ok, err, ◌>>=◌,
}
use robo_services.Prelude.Dict.{get}
use robo_services.Frame.{Bytes}
use robo_services.Receiver.{
  Value, null, text, array, object, entries, Payload, ReceiverSettings, NormalizedIngressMessage,
  bad_did, bad_sid, unknown_tp, not_utf8, not_json, not_an_object, bad_captured_at, missing_string,
  Raised, packet_error, parser_failure, JsonError, json_decode_error, another_error, unhashable,
  infer_source_type, topic_for_source_type, is_blank, Python, or_raise,
}

abbrev pub Sender : Type 0
Sender = String × ℕ

-- `f"{source_session}:{device_id}"`
abbrev pub session_id_of : String → String → String
session_id_of source_session device_id = append source_session (append ":" device_id)

-- `_MSGPACK_TP_TO_SOURCE_TYPE`
abbrev pub source_type_of_tp : String → Option String
source_type_of_tp tp =
    if tp == "imu"
    then some "imu"
    else if tp == "gps"
    then some "gps"
    else if tp == "can"
    then some "can"
    else none

module _ {F : Type 0} where
  -- A value that is there and is a string that is not blank
  abbrev pub filled : Option (Value F) → Option String
  filled (some (text s)) = if is_blank s then none else some s
  filled _ = none

  -- `_MSGPACK_TP_TO_SOURCE_TYPE.get(tp)`, with `tp`: a list or a dict is no key.
  unfoldable pub look_up_tp : Option (Value F) → Result Raised (String × String)
  look_up_tp (some (text tp)) = elim (source_type_of_tp tp) [
    | none ↦ err (packet_error unknown_tp)
    | some source_type ↦ ok (tp, source_type)
  ]
  look_up_tp (some (array vs)) = err unhashable
  look_up_tp (some (object fs)) = err unhashable
  look_up_tp _ = err (packet_error unknown_tp)

  -- `str(sid) if sid is not None else ""`, where that is not empty
  unfoldable pub session_of : Python F → Option (Value F) → Option String
  session_of py none = none
  session_of py (some null) = none
  session_of py (some sid) = let s = py.str sid in if s == "" then none else some s

  -- `_required_string`
  unfoldable pub required_string : Payload F → String → Result Raised String
  required_string packet key =
      or_raise (filled (get packet key)) (packet_error (missing_string key))

  -- `packet.get("captured_at")`, which may be missing or null
  unfoldable pub captured_at_of : Option (Value F) → Result Raised (Option String)
  captured_at_of none = ok none
  captured_at_of (some null) = ok none
  captured_at_of (some (text s)) = ok (some s)
  captured_at_of (some _) = err (packet_error bad_captured_at)

  abbrev pub object_of : Value F → Result Raised (Payload F)
  object_of (object fields) = ok (entries fields)
  object_of _ = err (packet_error not_an_object)

  -- The `except json.JSONDecodeError`
  abbrev pub loads_result : Result JsonError (Value F) → Result Raised (Value F)
  loads_result (ok v) = ok v
  loads_result (err json_decode_error) = err (packet_error not_json)
  loads_result (err another_error) = err parser_failure

  -- `str(packet.get("message_type", "telemetry"))`
  abbrev pub message_type_of : Python F → Option (Value F) → String
  message_type_of py none = "telemetry"
  message_type_of py (some v) = py.str v

module _ {F : Type 0} (py : Python F) (sender : Sender) (settings : ReceiverSettings)
    (received_at : String) where
  unfoldable pub normalize_msgpack : Payload F → Result Raised (NormalizedIngressMessage F)
  normalize_msgpack packet = do
    device_id ← or_raise (filled (get packet "did")) (packet_error bad_did)
    source_session ← or_raise (session_of py (get packet "sid")) (packet_error bad_sid)
    (tp, source_type) ← look_up_tp (get packet "tp")
    ok (record {
      source_type = source_type;
      topic = topic_for_source_type source_type settings;
      device_id = device_id;
      source = tp;
      source_session = source_session;
      message_type = "telemetry";
      captured_at = none;
      received_at = received_at;
      session_id = session_id_of source_session device_id;
      sender_ip = sender.0;
      sender_port = sender.1;
      payload = packet;
      user_sub = none;
    })

  -- From the object on
  unfoldable pub normalize_object : Payload F → Result Raised (NormalizedIngressMessage F)
  normalize_object packet = do
    source ← required_string packet "source"
    device_id ← required_string packet "device_id"
    source_session ← required_string packet "source_session"
    captured_at ← captured_at_of (get packet "captured_at")
    ok (record {
      source_type = infer_source_type source;
      topic = topic_for_source_type (infer_source_type source) settings;
      device_id = device_id;
      source = source;
      source_session = source_session;
      message_type = message_type_of py (get packet "message_type");
      captured_at = captured_at;
      received_at = received_at;
      session_id = session_id_of source_session device_id;
      sender_ip = sender.0;
      sender_port = sender.1;
      payload = packet;
      user_sub = none;
    })

  unfoldable pub normalize_json : Bytes → Result Raised (NormalizedIngressMessage F)
  normalize_json raw_payload = do
    decoded ← or_raise (py.utf8 raw_payload) (packet_error not_utf8)
    loaded ← loads_result (py.json_loads decoded)
    packet ← object_of loaded
    normalize_object packet
