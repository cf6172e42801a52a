-- ===== src/VehicleState/Rows.antt =====
-- services/vehicle_state/app/snapshot.py: `build_rows`, from the samples of one frame and the values
-- that the signals had before it.
pub mod Intervals
pub mod Rounds
pub mod Counts
pub mod Latest
pub mod Seen
pub mod Times
use robo_services.Prelude.{
  ℕ, zero, suc, ◌+◌, ◌-◌, ◌/◌, String, Bool, List, [], ◌∷◌, map, length, ltb, leb, if◌then◌else◌,
  ◌==◌, nat_eq, string_eq, Option, none, some, Result, ok, err, ◌>>=◌,
}
use robo_services.Prelude.Dict.{Dict, get, set}
use robo_services.Prelude.Datetime.{from_timestamp}
use robo_services.Prelude.Sort.{sort_by}
use robo_services.Signal.{FloatOps}
use robo_services.VehicleState.Snapshot.{
  can_time, fix_time, imu_time, Axes, CanSample, GpsPayload, GpsFix, ImuSample, FrameData,
}
use robo_services.VehicleState.Roles.{RowFault, value_error, RoleSpec, RoleValue, apply_roles}

-- signal -> (value, time it was last seen)
abbrev pub Carry : Type 0 → Type 0
Carry F = Dict String (F × ℕ)

-- `[min, max, sum, count]`
pub record Stats (F : Type 0) : Type 0 where
  pub low : F
  pub high : F
  pub total : F
  pub count : ℕ

pub record AxisStats (F : Type 0) : Type 0 where
  pub mean : Axes F
  pub low : Axes F
  pub high : Axes F

-- An entry of `signal_stats`: `[min, max, mean, count]`
pub record SignalStats (F : Type 0) : Type 0 where
  pub low : F
  pub high : F
  pub mean : F
  pub count : ℕ

pub record Row (F : Type 0) : Type 0 where
  pub t : ℕ
  pub source_session : String
  pub device_id : String
  pub frame_base_us : ℕ
  pub roles : Dict String (Option (RoleValue F))
  pub fix : GpsPayload F
  pub gps_fixes : ℕ
  pub accel : Option (AxisStats F)
  pub gyro : Option (AxisStats F)
  pub imu_samples : ℕ
  pub imu_filled_in_frame : Option ℕ
  pub signals : Dict String F
  pub signal_stats : Dict String (SignalStats F)
  pub carried : Dict String ℕ
  pub dbc : Option String
  pub complete : Bool

-- The samples before a time at the front of a list, and the others: an inner `while` loop.
module _ {A : Type 0} (t_us : A → ℕ) where
  unfoldable pub before : ℕ → List A → List A
  before end [] = []
  before end (x ∷ xs) = let rest = before end xs in if ltb (t_us x) end then x ∷ rest else []

  unfoldable pub from : ℕ → List A → List A
  from end [] = []
  from end (x ∷ xs) = let rest = from end xs in if ltb (t_us x) end then rest else x ∷ xs

  -- `sorted(samples, key=lambda s: s.t_us)`
  unfoldable pub in_order : List A → List A
  in_order = sort_by (λ x y. leb (t_us x) (t_us y))

-- `xs[-1]`
unfoldable pub last : {A : Type 0} → List A → Option A
last [] = none
last (x ∷ xs) = elim (last xs) [ none ↦ some x | some y ↦ some y ]

module _ {F : Type 0} where
  -- `{name: value for name, (value, _) in carry.items()}`
  unfoldable pub values_of : Carry F → Dict String F
  values_of [] = []
  values_of ((name, (v, seen)) ∷ carry) = (name, v) ∷ values_of carry

  -- The age, in ms at `end`, of the values that were last seen before `start`.
  unfoldable pub carried_of : ℕ → ℕ → Carry F → Dict String ℕ
  carried_of start end [] = []
  carried_of start end ((name, (v, seen)) ∷ carry) =
      let rest = carried_of start end carry in
      if ltb seen start then (name, (end - seen) / 1000) ∷ rest else rest

  -- `fixes[-1].payload if fixes else {}`
  unfoldable pub last_fix : List (GpsFix F) → GpsPayload F
  last_fix fixes = elim (last fixes) [
    | none ↦ record {
      latitude = none;
      longitude = none;
      altitude_m = none;
      ground_speed_kph = none;
      heading_deg = none;
      num_sats = none;
      hdop = none;
    }
    | some x ↦ x.payload
  ]

-- `len(range(base, base + frame_us, interval_us))`
unfoldable pub row_count : ℕ → ℕ → ℕ
row_count interval_us frame_us = (frame_us + (interval_us - 1)) / interval_us

module _ {F : Type 0} (ops : FloatOps F) where
  -- Python's `min` and `max` of two values.
  abbrev pub lesser : F → F → F
  lesser a b = if ops.lt b a then b else a

  abbrev pub greater : F → F → F
  greater a b = if ops.lt a b then b else a

  unfoldable pub note_value : Option (Stats F) → F → Stats F
  note_value none v = record { low = v; high = v; total = v; count = 1 }
  note_value (some s) v = record {
    low = lesser s.low v;
    high = greater s.high v;
    total = ops.add s.total v;
    count = suc s.count;
  }

  -- The signals of one CAN sample, into the carry and the row's statistics.
  unfoldable pub take_signals :
      ℕ → Dict String (Option F) → Carry F → Dict String (Stats F) → Carry F × Dict String (Stats F)
  take_signals t [] carry stats = (carry, stats)
  take_signals t ((name, none) ∷ signals) carry stats = take_signals t signals carry stats
  take_signals t ((name, some v) ∷ signals) carry stats =
      take_signals t signals (set carry name (v, t))
        (set stats name (note_value (get stats name) v))

  unfoldable pub take_samples :
      List (CanSample F) → Carry F → Dict String (Stats F) → Carry F × Dict String (Stats F)
  take_samples [] carry stats = (carry, stats)
  take_samples (x ∷ xs) carry stats =
      let (carry', stats') = take_signals x.t_us x.signals carry stats in
      take_samples xs carry' stats'

  unfoldable pub signal_stats : Dict String (Stats F) → Dict String (SignalStats F)
  signal_stats [] = []
  signal_stats ((name, s) ∷ stats) =
      (
        name,
        record {
          low = s.low;
          high = s.high;
          mean = ops.div s.total (ops.decimal s.count 0);
          count = s.count;
        },
      )
      ∷ signal_stats stats

  unfoldable pub fold_axis : (F → F → F) → (Axes F → F) → F → List (Axes F) → F
  fold_axis f axis v [] = v
  fold_axis f axis v (s ∷ samples) = fold_axis f axis (f v (axis s)) samples

  unfoldable pub axis_stats : List (Axes F) → Option (AxisStats F)
  axis_stats [] = none
  axis_stats (s ∷ samples) =
      let mean = λ (axis : Axes F → F).
        ops.div (fold_axis ops.add axis (ops.decimal 0 0) (s ∷ samples))
          (ops.decimal (length (s ∷ samples)) 0) in
      let low = λ (axis : Axes F → F). fold_axis lesser axis (axis s) samples in
      let high = λ (axis : Axes F → F). fold_axis greater axis (axis s) samples in
      some (record {
        mean = record { x = mean (λ a. a.x); y = mean (λ a. a.y); z = mean (λ a. a.z) };
        low = record { x = low (λ a. a.x); y = low (λ a. a.y); z = low (λ a. a.z) };
        high = record { x = high (λ a. a.x); y = high (λ a. a.y); z = high (λ a. a.z) };
      })

module _ {F : Type 0} (ops : FloatOps F) (data_of : FrameData F) (interval_us : ℕ)
    (complete : Bool) where
  -- The row of an interval, from its role columns, its time, what the loops took of it and the carry
  -- after them.
  abbrev pub row_with :
      Dict String (Option (RoleValue F))
      → ℕ
      → ℕ
      → Carry F
      → Dict String (Stats F)
      → List (GpsFix F)
      → List (ImuSample F)
      → Row F
  row_with columns t start carry stats fixes samples = record {
    t = t;
    source_session = data_of.source_session;
    device_id = data_of.device_id;
    frame_base_us = data_of.base_us;
    roles = columns;
    fix = last_fix fixes;
    gps_fixes = length fixes;
    accel = axis_stats ops (map (λ (s : ImuSample F). s.accel) samples);
    gyro = axis_stats ops (map (λ (s : ImuSample F). s.gyro) samples);
    imu_samples = length samples;
    imu_filled_in_frame = data_of.imu_filled;
    signals = values_of carry;
    signal_stats = signal_stats ops stats;
    carried = carried_of start (start + interval_us) carry;
    dbc = data_of.dbc;
    complete = complete;
  }

-- `_iso`, which raises a `ValueError` for a year past 9999
abbrev pub iso : ℕ → Result RowFault ℕ
iso t_us = elim (from_timestamp t_us 1000000) [ none ↦ err value_error | some t ↦ ok t ]

module _ {F : Type 0} (ops : FloatOps F) (code : F → Option String) (data_of : FrameData F)
    (interval_us : ℕ) (roles : Dict String (RoleSpec F)) (complete : Bool) where
  unfoldable pub row_of :
      ℕ
      → Carry F
      → Dict String (Stats F)
      → List (GpsFix F)
      → List (ImuSample F)
      → Result RowFault (Row F)
  row_of start carry stats fixes samples = iso start >>= λ t.
      apply_roles ops code roles (values_of carry) >>= λ columns.
      ok (row_with ops data_of interval_us complete columns t start carry stats fixes samples)

  -- The rounds of the outer loop, from the one that starts at `start` on.
  unfoldable pub rows_from :
      ℕ
      → ℕ
      → List (CanSample F)
      → List (GpsFix F)
      → List (ImuSample F)
      → Carry F
      → Result RowFault (List (Row F) × Carry F)
  rows_from zero start can gps imu carry = ok ([], carry)
  rows_from (suc n) start can gps imu carry =
      let end = start + interval_us in
      let (carry', stats) = take_samples ops (before can_time end can) carry [] in
      row_of start carry' stats (before fix_time end gps) (before imu_time end imu) >>= λ row.
      rows_from n end (from can_time end can) (from fix_time end gps) (from imu_time end imu) carry'
      >>= λ rest. ok (row ∷ rest.0, rest.1)

  -- The rows, and the carry after them. `range` raises on a step of 0.
  unfoldable pub build_rows : Carry F → ℕ → Result RowFault (List (Row F) × Carry F)
  build_rows carry frame_us =
      if interval_us == 0
      then err value_error
      else rows_from (row_count interval_us frame_us) data_of.base_us
          (in_order can_time data_of.can) (in_order fix_time data_of.gps)
          (in_order imu_time data_of.imu) carry
