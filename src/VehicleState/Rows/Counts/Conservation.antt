-- ===== src/VehicleState/Rows/Counts/Conservation.antt =====
-- snapshot.py, `build_rows`: which samples of a frame are counted in its rows.
use mathlib.Core.Path.{ap₂}
use robo_services.Prelude.{
  ℕ, zero, suc, ◌+◌, ◌*◌, ◌<◌, ◌≡◌, refl, sym, ap, ◌∙◌, String, Bool, List, [], ◌∷◌, if◌then◌else◌,
  ltb, leb, nat_eq, Option, ok,
}
use robo_services.Prelude.Dict.{Dict}
use robo_services.Prelude.Sort.{sum_of, sum_of-sort_by}
use robo_services.Signal.{FloatOps}
use robo_services.VehicleState.Snapshot.{
  can_time, fix_time, imu_time, CanSample, GpsFix, ImuSample, FrameData,
}
use robo_services.VehicleState.Roles.{RoleSpec}
use robo_services.VehicleState.Rows.{
  Carry, Row, before, from, in_order, take_samples, row_count, build_rows,
}
use robo_services.VehicleState.Rows.Intervals.{
  IsInOrder-in_order, length-sum_of, total_before, total_taken, total_taken_lem,
}
use robo_services.VehicleState.Rows.Rounds.{round_from, Rounds, build_rows-Rounds}
use robo_services.VehicleState.Rows.Counts.{
  values_in, count_in, counted-signal_stats, counted-round_from,
}

module _ {A : Type 0} (t_us : A → ℕ) where
  total_before-in_order :
      (measure : A → ℕ) (end : ℕ) (xs : List A)
      → total_before t_us measure end (in_order t_us xs) ≡ total_before t_us measure end xs
  unfolding in_order
  total_before-in_order measure end xs =
      sum_of-sort_by (λ x. if ltb (t_us x) end then measure x else 0) (λ x y. leb (t_us x) (t_us y))
        xs

  taken-in_order :
      (measure : A → ℕ) (interval n start : ℕ) (xs : List A) {rounds : ℕ}
      → suc n ≡ rounds
      → total_taken t_us measure interval (suc n) start (in_order t_us xs)
        ≡ total_before t_us measure (start + rounds * interval) xs
  taken-in_order measure interval n start xs same =
      total_taken_lem t_us measure interval n start (in_order t_us xs) (IsInOrder-in_order t_us xs)
      ∙ total_before-in_order measure (start + suc n * interval) xs
      ∙ ap (λ k. total_before t_us measure (start + k * interval) xs) same

module _ {F : Type 0} (ops : FloatOps F) (code : F → Option String) (data_of : FrameData F)
    (interval_us : ℕ) (roles : Dict String (RoleSpec F)) (complete : Bool) (name : String) where
  -- What the rows count is what the rounds took.
  counts-Rounds :
      (n start : ℕ) (can : List (CanSample F)) (gps : List (GpsFix F)) (imu : List (ImuSample F))
      (carry : Carry F) (rows : List (Row F)) (last : Carry F)
      → Rounds ops code data_of interval_us roles complete n start can gps imu carry rows last
      → (sum_of (λ (r : Row F). r.gps_fixes) rows
          ≡ total_taken fix_time (λ x. 1) interval_us n start gps)
        × (sum_of (λ (r : Row F). r.imu_samples) rows
            ≡ total_taken imu_time (λ x. 1) interval_us n start imu)
        × (sum_of (count_in name) rows
            ≡ total_taken can_time (λ x. values_in name x.signals) interval_us n start can)
  counts-Rounds zero start can gps imu carry [] last h = (refl, refl, refl)
  counts-Rounds zero start can gps imu carry (row ∷ rows) last h = elim h [ ]
  counts-Rounds (suc n) start can gps imu carry [] last h = elim h [ ]
  counts-Rounds (suc n) start can gps imu carry (row ∷ rows) last h =
      let end = start + interval_us in
      let (columns, made) = h.0 in
      let now = before can_time end can in
      let (fixes, samples, values) =
        counts-Rounds n end (from can_time end can) (from fix_time end gps) (from imu_time end imu)
          (round_from ops interval_us start can carry).0 rows last h.1 in
      (
        ap₂ ◌+◌ (ap (λ (r : Row F). r.gps_fixes) made ∙ length-sum_of (before fix_time end gps))
            fixes,
        ap₂ ◌+◌ (ap (λ (r : Row F). r.imu_samples) made ∙ length-sum_of (before imu_time end imu))
            samples,
        ap₂ ◌+◌
            (ap (count_in name) made
              ∙ counted-signal_stats name ops (take_samples ops now carry []).1
              ∙ counted-round_from ops name now carry)
            values,
      )

  -- Where the rows of a frame are built, with a frame length above 0, every GPS fix, every IMU sample
  -- and, for each name, every CAN value that is not null is counted in them once, if its time is
  -- before the end of the last interval, and is not counted otherwise.
  pub build_rows-counted :
      (carry : Carry F) (frame_us : ℕ) (rows : List (Row F)) (last : Carry F)
      → 0 < frame_us
      → build_rows ops code data_of interval_us roles complete carry frame_us ≡ ok (rows, last)
      → let end = data_of.base_us + row_count interval_us frame_us * interval_us in
        (sum_of (λ (r : Row F). r.gps_fixes) rows ≡ total_before fix_time (λ x. 1) end data_of.gps)
        × (sum_of (λ (r : Row F). r.imu_samples) rows
            ≡ total_before imu_time (λ x. 1) end data_of.imu)
        × (sum_of (count_in name) rows
            ≡ total_before can_time (λ x. values_in name x.signals) end data_of.can)
  build_rows-counted carry frame_us rows last long h =
      let at = can_time in
      let at_fix = fix_time in
      let at_sample = imu_time in
      let values = λ (x : CanSample F). values_in name x.signals in
      let base = data_of.base_us in
      let (n, few, pos, run) =
        build_rows-Rounds ops code data_of interval_us roles complete carry frame_us rows last long
          h in
      let (fixes, samples, signals) =
        counts-Rounds (suc n) base (in_order at data_of.can) (in_order at_fix data_of.gps)
          (in_order at_sample data_of.imu) carry rows last run in
      (
        fixes ∙ taken-in_order at_fix (λ x. 1) interval_us n base data_of.gps (sym few),
        samples ∙ taken-in_order at_sample (λ x. 1) interval_us n base data_of.imu (sym few),
        signals ∙ taken-in_order at values interval_us n base data_of.can (sym few),
      )
