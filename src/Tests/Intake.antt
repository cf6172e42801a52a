-- ===== src/Tests/Intake.antt =====
-- The receiver: a recording frame with a fix and a CAN message, a frame whose time is past the year
-- 9999, and a session event in JSON. Floats are numbers here, and every value prints as "7".
use robo_services.Prelude.{
  ℕ, ◌+◌, ◌-◌, ◌*◌, ◌/◌, ◌^◌, ◌≡◌, ◌≢◌, ◌⊎◌, refl, true, false, List, [], ◌∷◌, ltb, leb, arith,
  ◌==◌, list_eq, nat_eq, string_eq, if◌then◌else◌, String, Option, none, some, ok, err,
}
use robo_services.Prelude.Int.{ℤ, pos, negsuc}
use robo_services.Prelude.Text.{codes}
use robo_services.Frame.{Bytes}
use robo_services.Signal.{FloatOps}
use robo_services.Auth.Topics.{Settings, AclCheck, allow, check_acl, user_topic}
use robo_services.Receiver.{
  Value, text, object, field, no_more, ReceiverSettings, GpsSection, ImuSection, TelemetryFrame,
  NormalizedIngressMessage, index_error, Python, is_blank,
}
use robo_services.Receiver.Packets.{normalize_json}
use robo_services.Receiver.Frames.{
  normalize_telemetry_frame, samples, collect, gps_count, gps_message, fix_time, frame_message,
  imu_count, can_message, receipt,
}
use robo_services.Receiver.Frames.Receipt.{Receipted, normalize_telemetry_frame-Receipted}
use robo_services.Receiver.Frames.Bounds.{normalize_telemetry_frame_bounds}
use robo_services.Receiver.Outbox.{Receiver}
use robo_services.Receiver.Intake.{Datagram, on_message, run_receiver}
use robo_services.Receiver.Intake.Owner.{Adds, on_message-check_acl}
use robo_services.Receiver.Intake.Heartbeats.{IsSpaced, run_receiver-IsSpaced}

abbrev nat_ops : FloatOps ℕ
nat_ops = record {
  le = leb;
  lt = ltb;
  add = λ a b. a + b;
  sub = λ a b. a - b;
  mul = λ a b. a * b;
  div = λ a b. a / b;
  abs = λ a. a;
  decimal = λ n k. n / 10 ^ k;
}

abbrev gps : GpsSection
gps = record {
  count = 1;
  sample_period_us = 100;
  dt_us = [];
  lat_1e7 = pos 5 ∷ [];
  lon_1e7 = pos 6 ∷ [];
  alt_mm = [];
  speed_cms = [];
  heading_cdeg = [];
  fix_type = [];
  num_sats = [];
  hdop_x100 = [];
}

abbrev imu : ImuSection
imu = record {
  count = 0;
  sample_period_us = 100;
  accel_x = [];
  accel_y = [];
  accel_z = [];
  gyro_x = [];
  gyro_y = [];
  gyro_z = [];
  quat_period_us = 0;
  quat_w = [];
  quat_x = [];
  quat_y = [];
  quat_z = [];
  missing = [];
}

abbrev frame : TelemetryFrame
frame = record {
  version = 1;
  device_id = "d1";
  base_timestamp_us = 1000;
  session_id = 7;
  lap_id = 0;
  imu = imu;
  gps = gps;
  can = record { dt_us = 3; can_id = 16; octets = 1 ∷ 2 ∷ [] } ∷ [];
}

abbrev last_us : ℕ
last_us = 253402300800000000

abbrev late_frame : TelemetryFrame
late_frame = record frame { base_timestamp_us = last_us }

abbrev iso : ℤ → Option String
iso (pos t) = if ltb t last_us then some "then" else none
iso (negsuc t) = none

abbrev parse_frame : Bytes → Option TelemetryFrame
parse_frame b =
    if b == (1 ∷ []) then some frame else if b == (2 ∷ []) then some late_frame else none

abbrev event : Value ℕ
event = object (
    field "source" (text "phone_Session")
      (field "device_id" (text "d1") (field "source_session" (text "s1") no_more)))

abbrev py : Python ℕ
py = record {
  ops = nat_ops;
  of_int = λ z. 0;
  neg = λ a. a;
  iso = iso;
  seconds_since = λ t end. some 1;
  str = λ v. "7";
  int_of = λ v. some (pos 1000);
  hex = λ b. "00";
  of_codes = λ t. "ann";
  utf8 = λ b. some "";
  json_loads = λ s. ok event;
  unpackb = λ b. none;
  parse_frame = parse_frame;
  can_dump = λ m. true;
  takes = λ items item. true;
}

abbrev settings : ReceiverSettings
settings = record {
  diagnostics_topic = "diagnostics";
  gps_topic = "gps";
  imu_topic = "imu";
  rtk_topic = "rtk";
  can_topic = "can";
  session_topic = "session";
  mqtt_host = "mosquitto";
  mqtt_port = 1883;
  mqtt_topic = codes "ingest";
  has_registry = true;
}

abbrev new_receiver : Receiver ℕ
new_receiver = record { published = []; last_heartbeat = []; heartbeats = [] }

abbrev sender : String × ℕ
sender = ("mosquitto", 1883)

abbrev packets : List (NormalizedIngressMessage ℕ)
packets = elim (normalize_telemetry_frame py sender settings "now" frame) [
  | ok ms ↦ ms
  | err e ↦ []
]

normalize_telemetry_frame-Receipted_example : Receipted py sender settings "now" frame packets
unfolding normalize_telemetry_frame is_blank samples collect gps_count gps_message fix_time
    frame_message imu_count can_message receipt
normalize_telemetry_frame-Receipted_example =
    normalize_telemetry_frame-Receipted py sender settings "now" frame packets (ground arith) refl

normalize_telemetry_frame_bounds_example :
    normalize_telemetry_frame py sender settings "now" frame ≢ err index_error
normalize_telemetry_frame_bounds_example =
    normalize_telemetry_frame_bounds py sender settings "now" frame

abbrev ingest : Settings
ingest = record { mqtt_ingest_topic = codes "ingest"; allow_bare_ingest_topic = false }

abbrev write : AclCheck
write = record {
  username = codes "ann";
  topic = codes "ingest/ann";
  clientid = codes "phone";
  acc = 2;
}

write_allowed : check_acl ingest write ≡ allow
unfolding check_acl user_topic
write_allowed = refl

on_message-check_acl_example :
    Adds
      (some "ann")
      new_receiver
      (on_message py settings "now" 5 (codes "ingest/ann") (1 ∷ []) new_receiver).0
    ⊎ ((false ≡ true)
        × ((codes "ingest/ann" ≡ codes "ingest")
            × Adds none new_receiver
                (on_message py settings "now" 5 (codes "ingest/ann") (1 ∷ []) new_receiver).0))
on_message-check_acl_example =
    on_message-check_acl py settings ingest write "now" 5 (1 ∷ []) new_receiver refl refl
      write_allowed

abbrev datagrams : List Datagram
datagrams =
    record { content = 1 ∷ []; sender = ("10.0.0.1", 4000); received_at = "now"; now = 5 }
    ∷ record { content = 1 ∷ []; sender = ("10.0.0.1", 4000); received_at = "now"; now = 700 }
    ∷ []

run_receiver-IsSpaced_example :
    IsSpaced (run_receiver py settings none 0 datagrams new_receiver).0.heartbeats
run_receiver-IsSpaced_example = run_receiver-IsSpaced py settings none datagrams

abbrev session_event : NormalizedIngressMessage ℕ
session_event = elim (normalize_json py sender settings "now" []) [
  | ok m ↦ m
  | err e ↦ record {
    source_type = "";
    topic = "";
    device_id = "";
    source = "";
    source_session = "";
    message_type = "";
    captured_at = none;
    received_at = "";
    session_id = "";
    sender_ip = "";
    sender_port = 0;
    payload = [];
    user_sub = none;
  }
]
