-- ===== src/Tests/Rows.antt =====
-- A frame with two CAN samples, a fix and an IMU sample, in rows of half a second.
use robo_services.Prelude.{
  string_eq, nat_eq, pair_eq, ℕ, ◌+◌, ◌-◌, ◌*◌, ◌/◌, ◌^◌, ◌≡◌, ◌≤◌, ◌<◌, refl, String, List, [],
  ◌∷◌, arith, length, map, get_elem?, ltb, leb, true, if◌then◌else◌, Option, none, some, Result, ok,
  err, All,
}
use robo_services.Prelude.Datetime.{from_timestamp}
use robo_services.Prelude.Dict.{Dict, get, get_or, set}
use robo_services.Prelude.Sort.{sort_by, sum_of}
use robo_services.Signal.{FloatOps}
use robo_services.VehicleState.Snapshot.{can_time, fix_time, imu_time, Axes, GpsPayload, FrameData}
use robo_services.VehicleState.Kind.{can}
use robo_services.VehicleState.Frames.{Message, at}
use robo_services.VehicleState.Roles.{
  RowFault, RoleSpec, number, raw_value, value_or, in_unit, scaled, role_value, is_nonzero,
  selector, column_value, role_column, apply_columns, apply_roles,
}
use robo_services.VehicleState.Rows.{
  Carry, Row, before, from, in_order, last, values_of, carried_of, last_fix, row_count, note_value,
  take_signals, take_samples, signal_stats, fold_axis, axis_stats, row_of, rows_from, build_rows,
}
use robo_services.VehicleState.Rows.Intervals.{total_before}
use robo_services.VehicleState.Rows.Counts.{values_in, count_in}
use robo_services.VehicleState.Rows.Counts.Conservation.{build_rows-counted}
use robo_services.VehicleState.Rows.Latest.{or_before}
use robo_services.VehicleState.Rows.Seen.{IsLastSeen, build_rows-IsLastSeen}
use robo_services.VehicleState.Rows.Times.{build_rows-times}
use robo_services.VehicleState.Loop.{Service, Tick, with_session, write_rows, write_ready}
use robo_services.VehicleState.Loop.Stored.{write_rows-AreStored}
use robo_services.VehicleState.Store.{StoredRow, primary_key}
use robo_services.VehicleState.Registry.{SessionInfo}
use robo_services.VehicleState.Frames.Closing.{complete, close}
use robo_services.VehicleState.Frames.{OpenFrame}
use robo_services.VehicleState.Loop.Written.{Accounts}
use robo_services.VehicleState.Loop.Reached.{
  started, read_message, first, reads, write_ready-Accounts,
}

abbrev nat_ops : FloatOps ℕ
nat_ops = record {
  le = leb;
  lt = ltb;
  add = λ a b. a + b;
  sub = λ a b. a - b;
  mul = λ a b. a * b;
  div = λ a b. a / b;
  abs = λ a. a;
  decimal = λ n k. n / 10 ^ k;
}

abbrev code : ℕ → Option String
code v = if ltb v 10 then some "D" else none

abbrev no_payload : GpsPayload ℕ
no_payload = record {
  latitude = some 48;
  longitude = some 11;
  altitude_m = none;
  ground_speed_kph = none;
  heading_deg = none;
  num_sats = some 7;
  hdop = none;
}

abbrev level : Axes ℕ
level = record { x = 1; y = 2; z = 3 }

abbrev frame : FrameData ℕ
frame = record {
  source_session = "s1";
  device_id = "d1";
  base_us = 1000;
  can =
      record { t_us = 700000; signals = ("speed", some 9) ∷ ("rpm", none) ∷ [] }
      ∷ record { t_us = 2000; signals = ("speed", some 5) ∷ [] }
      ∷ [];
  gps = record { t_us = 600000; payload = no_payload } ∷ [];
  imu = record { t_us = 3000; accel = level; gyro = level } ∷ [];
  imu_filled = none;
  dbc = none;
}

abbrev speed_role : Dict String (RoleSpec ℕ)
speed_role =
    (
      "speed_kph",
      record {
        value = none;
        signal = some "speed";
        unit = none;
        scale = some 2;
        offset = none;
        codes = [];
      },
    )
    ∷ []

abbrev result : Result RowFault (List (Row ℕ) × Carry ℕ)
result = build_rows nat_ops code frame 500000 speed_role true [] 1000000

abbrev rows : List (Row ℕ)
rows = elim result [ ok r ↦ r.0 | err e ↦ [] ]

abbrev carry : Carry ℕ
carry = elim result [ ok r ↦ r.1 | err e ↦ [] ]

returned : result ≡ ok (rows, carry)
unfolding build_rows rows_from row_count row_of from_timestamp apply_roles apply_columns role_column
    get role_value raw_value values_of take_samples before in_order sort_by take_signals set from
    column_value in_unit is_nonzero scaled selector value_or axis_stats carried_of fold_axis last
    last_fix note_value signal_stats
returned = refl

two_rows :
    map {B = ℕ × ℕ × ℕ} (λ (r : Row ℕ). (r.t, r.gps_fixes, r.imu_samples)) rows
    ≡ (1000, 0, 1) ∷ (501000, 1, 0) ∷ []
unfolding build_rows rows_from row_count row_of from_timestamp apply_roles apply_columns role_column
    get role_value raw_value values_of take_samples before in_order sort_by take_signals set from
    column_value in_unit is_nonzero scaled selector value_or axis_stats carried_of fold_axis last
    last_fix note_value signal_stats
two_rows = refl

two_speeds :
    map (λ (r : Row ℕ). get r.roles "speed_kph") rows
    ≡ some (some (number 10)) ∷ some (some (number 18)) ∷ []
unfolding build_rows rows_from row_count row_of from_timestamp apply_roles apply_columns role_column
    get role_value raw_value values_of take_samples before in_order sort_by take_signals set from
    column_value in_unit is_nonzero scaled selector value_or axis_stats carried_of fold_axis last
    last_fix note_value signal_stats
two_speeds = refl

build_rows-counted_example :
    (sum_of (λ (r : Row ℕ). r.gps_fixes) rows
      ≡ total_before fix_time (λ x. 1) (1000 + row_count 500000 1000000 * 500000) frame.gps)
    × (sum_of (λ (r : Row ℕ). r.imu_samples) rows
        ≡ total_before imu_time (λ x. 1) (1000 + row_count 500000 1000000 * 500000) frame.imu)
    × (sum_of (count_in "speed") rows
        ≡ total_before can_time
            (λ x. values_in "speed" x.signals)
            (1000 + row_count 500000 1000000 * 500000)
            frame.can)
build_rows-counted_example =
    build_rows-counted nat_ops code frame 500000 speed_role true "speed" [] 1000000 rows carry
      (omega arith) returned

build_rows-IsLastSeen_example :
    (o : Option (ℕ × ℕ)) × ((get carry "speed"
        ≡ or_before "speed" o (get {K = String} {V = ℕ × ℕ} [] "speed"))
      × IsLastSeen "speed" (1000 + row_count 500000 1000000 * 500000) frame.can o)
build_rows-IsLastSeen_example =
    build_rows-IsLastSeen nat_ops code frame 500000 speed_role true "speed" [] 1000000 rows carry
      (omega arith) returned

build_rows-times_example :
    (1000000 ≤ length rows * 500000)
    × (length rows * 500000 < 1000000 + 500000)
    × ((i : ℕ) (row : Row ℕ)
        → get_elem? rows i ≡ some row
        → from_timestamp (1000 + i * 500000) 1000000 ≡ some row.t)
build_rows-times_example =
    build_rows-times nat_ops code frame 500000 speed_role true [] 1000000 rows carry (omega arith)
      returned

abbrev message : Message ℕ
message = record {
  source_session = "s1";
  device_id = "d1";
  message_type = "can";
  captured_at = none;
  received_at = some (at 3);
  payload = record {
    base_timestamp_us = some 1000;
    receipt = record { gps = 0; imu = 0; can = 0; imu_missing = none };
    dt_us = 5;
    signals = ("speed", some 5) ∷ [];
    dbc = none;
    fix = no_payload;
    accel_m_s2 = none;
    gyro_deg_s = none;
  };
}

abbrev service : Service ℕ
service = read_message (started 10 []) can 0 (some message) 1

abbrev tick : Tick ℕ
tick = record {
  now = 100;
  fetch = none;
  checked = λ key base. 100;
  fetched = λ key base. 100;
  written_at = λ key base. 100;
  reads = λ key. true;
  accepts = λ rows. true;
}

write_ready-Accounts_example :
    Accounts service.table 100 (write_ready nat_ops code (λ t. t) 500000 tick service).0
write_ready-Accounts_example =
    write_ready-Accounts nat_ops code (λ t. t) 500000 service tick
      (reads (started 10 []) can 0 (some message) 1 (first 10))

abbrev open_frame : OpenFrame ℕ
open_frame = record {
  contents = frame;
  opened_at = 1;
  last_progress = 1;
  receipt = none;
  counts = λ kind. 1;
  first_offset = λ kind. none;
  received_at = none;
}

abbrev info : SessionInfo ℕ
info = record { vehicle_id = some 3; user_sub = none; roles = speed_role }

write_rows-AreStored_example :
    All
      (λ (r : StoredRow ℕ).
        get
          (write_rows nat_ops code 500000 tick service
            ("s1", "d1")
            1000
            open_frame
            complete
            info).0.rows
          (primary_key r)
        ≡ some r)
      (with_session open_frame info 100 rows)
    × ((write_rows nat_ops code 500000 tick service
          ("s1", "d1")
          1000
          open_frame
          complete
          info).0.table
        ≡ close service.table ("s1", "d1") 1000)
unfolding row_count read_message started get_or get
write_rows-AreStored_example =
    write_rows-AreStored nat_ops code 500000 tick service ("s1", "d1") 1000 open_frame complete info
      rows carry returned refl (omega arith)
