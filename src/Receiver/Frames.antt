-- ===== src/Receiver/Frames.antt =====
-- receiver_app.py, `_normalize_telemetry_frame`: one message for each sample of a protobuf frame,
-- and a receipt for a frame of a recording session. Reading a column past its end raises.
pub mod Receipt
pub mod Bounds
use robo_services.Prelude.{
  ℕ, zero, suc, ◌+◌, ◌*◌, ◌/◌, ◌%◌, min, String, Bool, false, true, not, ◌&&◌, List, [], ◌∷◌, ◌++◌,
  map, length, get_elem?, is_empty, ltb, if◌then◌else◌, ◌==◌, nat_eq, string_eq, Option, none, some,
  Result, ok, err, ◌>>=◌,
}
use robo_services.Prelude.Int.{ℤ, pos}
use robo_services.Receiver.{
  Value, Values, nothing_more, item, Fields, no_more, field, integer, real, text, array, object,
  Payload, ReceiverSettings, NormalizedIngressMessage, no_device_id, no_base_timestamp, no_samples,
  Raised, packet_error, index_error, date_out_of_range, topic_for_source_type, is_blank, GpsSection,
  ImuSection, CanMessage, TelemetryFrame, Python, or_raise,
}
use robo_services.Receiver.Packets.{Sender, session_id_of}

-- `range(n)`, from `i` on
abbrev pub range_from : ℕ → ℕ → List ℕ
range_from i zero = []
range_from i (suc n) = i ∷ range_from (suc i) n

-- A loop that appends what its body gives, and ends where the body raises.
unfoldable pub collect : {A B : Type 0} → (A → Result Raised B) → List A → Result Raised (List B)
collect body [] = ok []
collect body (a ∷ rest) = do b ← body a; bs ← collect body rest; ok (b ∷ bs)

abbrev pub at_index : {A : Type 0} → List A → ℕ → Result Raised A
at_index xs i = or_raise (get_elem? xs i) index_error

unfoldable pub gps_count : GpsSection → ℕ
gps_count gps = min gps.count (min (length gps.lat_1e7) (length gps.lon_1e7))

unfoldable pub imu_count : ImuSection → ℕ
imu_count imu = min imu.count (
    min (length imu.accel_x) (
      min (length imu.accel_y) (
        min (length imu.accel_z)
          (min (length imu.gyro_x) (min (length imu.gyro_y) (length imu.gyro_z))))))

unfoldable pub quat_count : ImuSection → ℕ
quat_count imu =
    min (length imu.quat_w) (min (length imu.quat_x) (min (length imu.quat_y) (length imu.quat_z)))

-- The index of the quaternion of a sample, where one falls on it.
unfoldable pub quat_index : ImuSection → ℕ → Option ℕ
quat_index imu index =
    if not (ltb 0 imu.quat_period_us)
    then none
    else if (index * imu.sample_period_us) % imu.quat_period_us == 0
        && ltb ((index * imu.sample_period_us) / imu.quat_period_us) (quat_count imu)
    then some ((index * imu.sample_period_us) / imu.quat_period_us)
    else none

-- When a fix was taken: by its own offset, where every fix has one, else on the grid.
unfoldable pub fix_time : ℕ → GpsSection → ℕ → Result Raised ℕ
fix_time base gps index =
    if length gps.dt_us == gps.count
    then elim (get_elem? gps.dt_us index) [ none ↦ err index_error | some dt ↦ ok (base + dt) ]
    else ok (base + index * gps.sample_period_us)

module _ {F : Type 0} where
  -- A field of a column that may be shorter
  abbrev pub optional : {A : Type 0} → String → List A → ℕ → (A → Value F) → Payload F
  optional name column index value = elim (get_elem? column index) [
    | none ↦ []
    | some a ↦ (name, value a) ∷ []
  ]

  abbrev pub xyz : F → F → F → Value F
  xyz x y z = object (field "x" (real x) (field "y" (real y) (field "z" (real z) no_more)))

  abbrev pub wxyz : F → F → F → F → Value F
  wxyz w x y z =
      object
        (field "w" (real w) (field "x" (real x) (field "y" (real y) (field "z" (real z) no_more))))

  abbrev pub number : ℕ → Value F
  number n = integer (pos n)

  -- `list(message.data)`
  abbrev pub octet_values : List ℕ → Values F
  octet_values [] = nothing_more
  octet_values (b ∷ bs) = item (number b) (octet_values bs)

  -- `_build_proto_metadata`
  unfoldable pub build_proto_metadata : TelemetryFrame → Payload F
  build_proto_metadata frame =
      (("frame_version", number frame.version)
        ∷ ("base_timestamp_us", number frame.base_timestamp_us)
        ∷ [])
      ++ ((if frame.session_id == 0
            then []
            else ("race_logger_session_id", number frame.session_id) ∷ [])
          ++ (if frame.lap_id == 0 then [] else ("race_logger_lap_id", number frame.lap_id) ∷ []))

  -- `_source_session_from_frame`
  unfoldable pub source_session_from_frame : Python F → TelemetryFrame → String
  source_session_from_frame py frame =
      if frame.session_id == 0 then "proto-live" else py.str (number frame.session_id)

  -- `_build_normalized_message`
  unfoldable pub build_normalized_message :
      ReceiverSettings
      → Sender
      → String
      → String
      → String
      → String
      → String
      → String
      → Payload F
      → String
      → NormalizedIngressMessage F
  build_normalized_message settings sender device_id source_session source_type source captured_at
        received_at payload message_type =
      record {
        source_type = source_type;
        topic = topic_for_source_type source_type settings;
        device_id = device_id;
        source = source;
        source_session = source_session;
        message_type = message_type;
        captured_at = some captured_at;
        received_at = received_at;
        session_id = session_id_of source_session device_id;
        sender_ip = sender.0;
        sender_port = sender.1;
        payload = payload;
        user_sub = none;
      }

module _ {F : Type 0} (py : Python F) (sender : Sender) (settings : ReceiverSettings)
    (received_at : String) (frame : TelemetryFrame) where
  -- A message of the frame, taken at a time in microseconds.
  unfoldable pub frame_message :
      String → String → ℕ → Payload F → String → Result Raised (NormalizedIngressMessage F)
  frame_message source_type source time payload message_type = do
    captured_at ← or_raise (py.iso (pos time)) date_out_of_range
    ok (
        build_normalized_message settings sender frame.device_id
          (source_session_from_frame py frame) source_type source captured_at received_at payload
          message_type)

  abbrev over : ℤ → ℕ → F
  over n d = py.ops.div (py.of_int n) (py.ops.decimal d 0)

  unfoldable pub gps_fields : ℕ → ℤ → ℤ → Payload F
  gps_fields index lat lon =
      ("latitude", real (over lat 10000000))
      ∷ ("longitude", real (over lon 10000000))
      ∷ (optional "altitude_m" frame.gps.alt_mm index (λ a. real (over a 1000))
          ++ (optional "ground_speed_kph" frame.gps.speed_cms index
                (λ v. real (py.ops.mul (py.of_int (pos v)) (py.ops.decimal 36 3)))
              ++ (optional "heading_deg" frame.gps.heading_cdeg index (λ h. real (over (pos h) 100))
                  ++ (optional "fix_type" frame.gps.fix_type index (λ t. number t)
                      ++ (optional "num_sats" frame.gps.num_sats index (λ n. number n)
                          ++ optional "hdop" frame.gps.hdop_x100 index
                              (λ h. real (over (pos h) 100)))))))

  unfoldable pub gps_message : ℕ → Result Raised (NormalizedIngressMessage F)
  gps_message index = do
    lat ← at_index frame.gps.lat_1e7 index
    lon ← at_index frame.gps.lon_1e7 index
    time ← fix_time frame.base_timestamp_us frame.gps index
    frame_message "gps" "race-logger-telemetry-proto:gps" time
        (build_proto_metadata frame ++ gps_fields index lat lon) "telemetry"

  abbrev gravity : ℤ → F
  gravity n = py.ops.mul (over n 1000) (py.ops.decimal 980665 5)

  unfoldable pub quaternion : ℕ → Result Raised (Payload F)
  quaternion index = elim (quat_index frame.imu index) [
    | none ↦ ok []
    | some j ↦ do
      w ← at_index frame.imu.quat_w j
      x ← at_index frame.imu.quat_x j
      y ← at_index frame.imu.quat_y j
      z ← at_index frame.imu.quat_z j
      ok (("quaternion", wxyz (over w 32767) (over x 32767) (over y 32767) (over z 32767)) ∷ [])
  ]

  unfoldable pub imu_message : ℕ → Result Raised (NormalizedIngressMessage F)
  imu_message index = do
    ax ← at_index frame.imu.accel_x index
    ay ← at_index frame.imu.accel_y index
    az ← at_index frame.imu.accel_z index
    gx ← at_index frame.imu.gyro_x index
    gy ← at_index frame.imu.gyro_y index
    gz ← at_index frame.imu.gyro_z index
    turn ← quaternion index
    frame_message "imu" "race-logger-telemetry-proto:imu"
        (frame.base_timestamp_us + index * frame.imu.sample_period_us)
        (build_proto_metadata frame
          ++ (("accel_m_s2", xyz (gravity ax) (gravity ay) (gravity az))
              ∷ ("gyro_deg_s", xyz (over gx 100) (over gy 100) (over gz 100))
              ∷ turn))
        "telemetry"

  unfoldable pub can_message : CanMessage → Result Raised (NormalizedIngressMessage F)
  can_message message =
      frame_message "can" "race-logger-telemetry-proto:can"
        (frame.base_timestamp_us + message.dt_us)
        (build_proto_metadata frame
          ++ (("can_id", number message.can_id)
              ∷ ("data", array (octet_values message.octets))
              ∷ ("data_hex", text (py.hex message.octets))
              ∷ ("dlc", number (length message.octets))
              ∷ ("dt_us", number message.dt_us)
              ∷ []))
        "telemetry"

  -- The payload of the receipt
  unfoldable pub receipt_payload : Payload F
  receipt_payload =
      ("base_timestamp_us", number frame.base_timestamp_us)
      ∷ ("gps", number (gps_count frame.gps))
      ∷ ("imu", number (imu_count frame.imu))
      ∷ ("imu_missing", number (length frame.imu.missing))
      ∷ ("can", number (length frame.can))
      ∷ []

  unfoldable pub receipt : Result Raised (List (NormalizedIngressMessage F))
  receipt =
      if frame.session_id == 0
      then ok []
      else frame_message "session" "race-logger-telemetry-proto:session" frame.base_timestamp_us
          receipt_payload "frame"
        >>= λ message. ok (message ∷ [])

  unfoldable pub samples : Result Raised (List (NormalizedIngressMessage F))
  samples = do
    fixes ← collect gps_message (range_from 0 (gps_count frame.gps))
    turns ← collect imu_message (range_from 0 (imu_count frame.imu))
    messages ← collect can_message frame.can
    ok (fixes ++ (turns ++ messages))

  unfoldable pub normalize_telemetry_frame : Result Raised (List (NormalizedIngressMessage F))
  normalize_telemetry_frame =
      if is_blank frame.device_id
      then err (packet_error no_device_id)
      else if not (ltb 0 frame.base_timestamp_us)
      then err (packet_error no_base_timestamp)
      else samples >>= λ packets.
          if is_empty packets
          then err (packet_error no_samples)
          else receipt >>= λ receipts. ok (packets ++ receipts)
