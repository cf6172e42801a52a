-- ===== src/VehicleState/Snapshot.antt =====
-- services/vehicle_state/app/snapshot.py: the samples of a frame.
use robo_services.Prelude.{ℕ, String, List, Option}
use robo_services.Prelude.Dict.{Dict}

pub record Axes (F : Type 0) : Type 0 where
  pub x : F
  pub y : F
  pub z : F

pub record CanSample (F : Type 0) : Type 0 where
  pub t_us : ℕ
  pub signals : Dict String (Option F)

-- The fields that a row takes from a GPS record.
pub record GpsPayload (F : Type 0) : Type 0 where
  pub latitude : Option F
  pub longitude : Option F
  pub altitude_m : Option F
  pub ground_speed_kph : Option F
  pub heading_deg : Option F
  pub num_sats : Option ℕ
  pub hdop : Option F

pub record GpsFix (F : Type 0) : Type 0 where
  pub t_us : ℕ
  pub payload : GpsPayload F

pub record ImuSample (F : Type 0) : Type 0 where
  pub t_us : ℕ
  pub accel : Axes F
  pub gyro : Axes F

pub record FrameData (F : Type 0) : Type 0 where
  pub source_session : String
  pub device_id : String
  pub base_us : ℕ
  pub can : List (CanSample F)
  pub gps : List (GpsFix F)
  pub imu : List (ImuSample F)
  pub imu_filled : Option ℕ
  pub dbc : Option String

-- The sort keys, `lambda s: s.t_us`.
module _ {F : Type 0} where
  abbrev pub can_time : CanSample F → ℕ
  can_time s = s.t_us

  abbrev pub fix_time : GpsFix F → ℕ
  fix_time s = s.t_us

  abbrev pub imu_time : ImuSample F → ℕ
  imu_time s = s.t_us
