-- ===== src/Receiver.antt =====
-- ingest/kreceiver/kreceiver_proto: datagrams and MQTT messages become normalized messages on the
-- raw topics. This file has the types of models.py and config.py, and the choice of a topic.
pub mod Packets
pub mod Frames
pub mod Returns
pub mod Outbox
pub mod Intake
pub mod Routes
use robo_services.Prelude.{
  ℕ, suc, ◌+◌, String, Bool, false, true, not, ◌&&◌, ◌||◌, List, [], ◌∷◌, any, ltb, leb, is_empty,
  if◌then◌else◌, ◌==◌, nat_eq, string_eq, Option, none, some, Result, ok, err,
}
use robo_services.Prelude.Int.{ℤ}
use robo_services.Prelude.Text.{Text, codes, has_sub}
use robo_services.Prelude.Dict.{Dict, get}
use robo_services.Signal.{FloatOps}
use robo_services.Frame.{Bytes}

-- A Python value that JSON or MessagePack gives, or that a payload holds.
mutual
  pub data Value (F : Type 0) : Type 0 where
    null : Value F
    boolean : Bool → Value F
    integer : ℤ → Value F
    real : F → Value F
    text : String → Value F
    binary : Bytes → Value F
    array : Values F → Value F
    object : Fields F → Value F

  pub data Values (F : Type 0) : Type 0 where
    nothing_more : Values F
    item : Value F → Values F → Values F

  pub data Fields (F : Type 0) : Type 0 where
    no_more : Fields F
    field : String → Value F → Fields F → Fields F

abbrev pub Payload : Type 0 → Type 0
Payload F = Dict String (Value F)

-- The entries of an object
abbrev pub entries : {F : Type 0} → Fields F → Payload F
entries no_more = []
entries (field key value rest) = (key, value) ∷ entries rest

pub record ReceiverSettings : Type 0 where
  pub diagnostics_topic : String
  pub gps_topic : String
  pub imu_topic : String
  pub rtk_topic : String
  pub can_topic : String
  pub session_topic : String
  pub mqtt_host : String
  pub mqtt_port : ℕ
  pub mqtt_topic : Text
  pub has_registry : Bool

pub record NormalizedIngressMessage (F : Type 0) : Type 0 where
  pub source_type : String
  pub topic : String
  pub device_id : String
  pub source : String
  pub source_session : String
  pub message_type : String
  pub captured_at : Option String
  pub received_at : String
  pub session_id : String
  pub sender_ip : String
  pub sender_port : ℕ
  pub payload : Payload F
  pub user_sub : Option String

-- What a `PacketError` says.
pub data PacketFault : Type 0 where
  bad_did bad_sid unknown_tp not_utf8 not_json not_an_object bad_captured_at : PacketFault
  missing_string : String → PacketFault
  no_device_id no_base_timestamp no_samples many_messages : PacketFault

-- A `PacketError`, and the exceptions that are none.
pub data Raised : Type 0 where
  packet_error : PacketFault → Raised
  index_error date_out_of_range unhashable not_serializable not_an_int : Raised
  parser_failure broker_failure : Raised

abbrev pub or_raise : {A : Type 0} → Option A → Raised → Result Raised A
or_raise none e = err e
or_raise (some a) e = ok a

-- The `str.lower` of a text, so far as it holds ASCII letters: they come from A to Z, from the
-- Kelvin sign, and from the dotted I, which gives an i and a dot.
abbrev pub lower : Text → Text
lower [] = []
lower (c ∷ s) =
    let rest = lower s in
    if leb b'A' c && leb c b'Z'
    then (c + 32) ∷ rest
    else if c == 0x212A
    then b'k' ∷ rest
    else if c == 0x130
    then b'i' ∷ 0x307 ∷ rest
    else c ∷ rest

-- `infer_source_type`; the order of the tests matters.
unfoldable pub infer_source_type : String → String
infer_source_type source =
    let lowered = lower (codes source) in
    if has_sub (codes "session") lowered
    then "session"
    else if has_sub (codes "imu") lowered || has_sub (codes "mpu") lowered
    then "imu"
    else if has_sub (codes "rtk") lowered
        || has_sub (codes "ntrip") lowered
        || has_sub (codes "base") lowered
    then "rtk"
    else if has_sub (codes "can") lowered
    then "can"
    else if has_sub (codes "gps") lowered || has_sub (codes "gnss") lowered
    then "gps"
    else "gps"

unfoldable pub topic_for_source_type : String → ReceiverSettings → String
topic_for_source_type source_type settings =
    if source_type == "imu"
    then settings.imu_topic
    else if source_type == "rtk"
    then settings.rtk_topic
    else if source_type == "can"
    then settings.can_topic
    else if source_type == "session"
    then settings.session_topic
    else settings.gps_topic

-- The white space that `str.strip` strips.
abbrev pub is_space : ℕ → Bool
is_space c =
    (leb 9 c && leb c 13)
    || (leb 28 c && leb c 32)
    || (leb 0x2000 c && leb c 0x200A)
    || any (λ s. s == c) (0x85 ∷ 0xA0 ∷ 0x1680 ∷ 0x2028 ∷ 0x2029 ∷ 0x202F ∷ 0x205F ∷ 0x3000 ∷ [])

-- `not s.strip()`
abbrev pub is_blank_text : Text → Bool
is_blank_text [] = true
is_blank_text (c ∷ s) = is_space c && is_blank_text s

unfoldable pub is_blank : String → Bool
is_blank s = is_blank_text (codes s)

-- The protobuf messages of telemetry.proto.
pub record GpsSection : Type 0 where
  pub count : ℕ
  pub sample_period_us : ℕ
  pub dt_us : List ℕ
  pub lat_1e7 : List ℤ
  pub lon_1e7 : List ℤ
  pub alt_mm : List ℤ
  pub speed_cms : List ℕ
  pub heading_cdeg : List ℕ
  pub fix_type : List ℕ
  pub num_sats : List ℕ
  pub hdop_x100 : List ℕ

pub record ImuSection : Type 0 where
  pub count : ℕ
  pub sample_period_us : ℕ
  pub accel_x : List ℤ
  pub accel_y : List ℤ
  pub accel_z : List ℤ
  pub gyro_x : List ℤ
  pub gyro_y : List ℤ
  pub gyro_z : List ℤ
  pub quat_period_us : ℕ
  pub quat_w : List ℤ
  pub quat_x : List ℤ
  pub quat_y : List ℤ
  pub quat_z : List ℤ
  pub missing : List ℕ

pub record CanMessage : Type 0 where
  pub dt_us : ℕ
  pub can_id : ℕ
  pub octets : Bytes

pub record TelemetryFrame : Type 0 where
  pub version : ℕ
  pub device_id : String
  pub base_timestamp_us : ℕ
  pub session_id : ℕ
  pub lap_id : ℕ
  pub imu : ImuSection
  pub gps : GpsSection
  pub can : List CanMessage

-- What `json.loads` raises: a `JSONDecodeError`, or another exception, as the `ValueError` of a
-- number with too many digits or the `RecursionError` of deep nesting.
pub data JsonError : Type 0 where
  json_decode_error another_error : JsonError

-- What the receiver hands to the backend: a normalized message, whose headers are its own fields, or
-- a diagnostic with its reason, the sender and the raw payload.
pub data Published (F : Type 0) : Type 0 where
  normalized : String → Dict String String → NormalizedIngressMessage F → Published F
  diagnostic : String → String → PacketFault → String × ℕ → Bytes → Published F

-- What the code calls and is not here: floats, dates, the printing of values, and the parsers.
-- `none` is where the call raises.
pub record Python (F : Type 0) : Type 0 where
  pub ops : FloatOps F
  pub of_int : ℤ → F
  pub neg : F → F
  -- `datetime.fromtimestamp(us / 1_000_000, tz=UTC).isoformat()`
  pub iso : ℤ → Option String
  -- `obs.seconds_since(iso, end)`, and with no end for the present time
  pub seconds_since : String → Option ℤ → Option F
  pub str : Value F → String
  pub int_of : Value F → Option ℤ
  pub hex : Bytes → String
  -- The string of some code points
  pub of_codes : Text → String
  pub utf8 : Bytes → Option String
  pub json_loads : String → Result JsonError (Value F)
  pub unpackb : Bytes → Option (Value F)
  pub parse_frame : Bytes → Option TelemetryFrame
  -- `json.dumps(normalized.to_dict(), …)` raises for a value that is not JSON.
  pub can_dump : NormalizedIngressMessage F → Bool
  -- `backend.publish` of a message, after those that it has taken, may raise.
  pub takes : List (Published F) → Published F → Bool
