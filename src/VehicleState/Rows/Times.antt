-- ===== src/VehicleState/Rows/Times.antt =====
-- snapshot.py, `build_rows`: how many rows a frame has, and when they start.
use mathlib.Core.Path.{subst}
use mathlib.Core.Option.{some-injective}
use native.Mathlib.Nat.{div-mul-le_self, lt-div-mul-add}
use robo_services.Prelude.{
  ℕ, zero, suc, ◌+◌, ◌-◌, ◌*◌, ◌≤◌, ◌<◌, ◌≡◌, refl, sym, ap, ◌∙◌, String, Bool, List, [], ◌∷◌,
  arith, length, get_elem?, Option, some, ok,
}
use robo_services.Prelude.Datetime.{from_timestamp}
use robo_services.Prelude.Dict.{Dict}
use robo_services.Signal.{FloatOps}
use robo_services.VehicleState.Snapshot.{
  can_time, fix_time, imu_time, CanSample, GpsFix, ImuSample, FrameData,
}
use robo_services.VehicleState.Roles.{RoleSpec}
use robo_services.VehicleState.Rows.{Carry, Row, from, in_order, row_count, build_rows}
use robo_services.VehicleState.Rows.Intervals.{start-zero, start-suc}
use robo_services.VehicleState.Rows.Rounds.{round_from, Rounds, build_rows-Rounds}

-- The intervals cover the frame, and the last one starts in it.
row_count_lem :
    (interval_us frame_us : ℕ)
    → 0 < interval_us
    → (frame_us ≤ row_count interval_us frame_us * interval_us)
      × (row_count interval_us frame_us * interval_us < frame_us + interval_us)
unfolding row_count
row_count_lem interval_us frame_us h =
    let x = frame_us + (interval_us - 1) in
    let above = lt-div-mul-add {a = x} {b = interval_us} h in
    let below = div-mul-le_self x interval_us in
    (omega (arith, h, above, below), omega (arith, h, above, below))

module _ {F : Type 0} (ops : FloatOps F) (code : F → Option String) (data_of : FrameData F)
    (interval_us : ℕ) (roles : Dict String (RoleSpec F)) (complete : Bool) where
  times-Rounds :
      (n start : ℕ) (can : List (CanSample F)) (gps : List (GpsFix F)) (imu : List (ImuSample F))
      (carry : Carry F) (rows : List (Row F)) (last : Carry F)
      → Rounds ops code data_of interval_us roles complete n start can gps imu carry rows last
      → (length rows ≡ n)
        × ((i : ℕ) (row : Row F)
            → get_elem? rows i ≡ some row
            → from_timestamp (start + i * interval_us) 1000000 ≡ some row.t)
  times-Rounds zero start can gps imu carry [] last h = (refl, λ i row found. absurd (cc))
  times-Rounds zero start can gps imu carry (row ∷ rows) last h = elim h [ ]
  times-Rounds (suc n) start can gps imu carry [] last h = elim h [ ]
  times-Rounds (suc n) start can gps imu carry (row ∷ rows) last h =
      let end = start + interval_us in
      let (count, times) =
        times-Rounds n end (from can_time end can) (from fix_time end gps) (from imu_time end imu)
          (round_from ops interval_us start can carry).0 rows last h.1 in
      (ap suc count, at_index start row rows h.0.0.1 times)
    where
      at_index :
          (start : ℕ) (row : Row F) (rows : List (Row F))
          → from_timestamp start 1000000 ≡ some row.t
          → ((i : ℕ) (r : Row F)
              → get_elem? rows i ≡ some r
              → from_timestamp (start + interval_us + i * interval_us) 1000000 ≡ some r.t)
          → (i : ℕ) (r : Row F) → get_elem? (row ∷ rows) i ≡ some r
          → from_timestamp (start + i * interval_us) 1000000 ≡ some r.t
      at_index start row rows first later zero r found =
          ap (λ x. from_timestamp x 1000000) (start-zero start interval_us)
          ∙ first
          ∙ ap (λ (q : Row F). some q.t) (some-injective row r found)
      at_index start row rows first later (suc i) r found =
          ap (λ x. from_timestamp x 1000000) (start-suc start i interval_us) ∙ later i r found

  -- Where the rows of a frame are built, with a frame length above 0, there is one for each interval:
  -- row `i` has the time that `fromtimestamp` gives for `i` intervals after the tag of the frame, the
  -- last one starts before the frame ends, and it ends at or after the end of the frame.
  pub build_rows-times :
      (carry : Carry F) (frame_us : ℕ) (rows : List (Row F)) (last : Carry F)
      → 0 < frame_us
      → build_rows ops code data_of interval_us roles complete carry frame_us ≡ ok (rows, last)
      → (frame_us ≤ length rows * interval_us)
        × (length rows * interval_us < frame_us + interval_us)
        × ((i : ℕ) (row : Row F)
            → get_elem? rows i ≡ some row
            → from_timestamp (data_of.base_us + i * interval_us) 1000000 ≡ some row.t)
  build_rows-times carry frame_us rows last long h =
      let (n, few, pos, run) =
        build_rows-Rounds ops code data_of interval_us roles complete carry frame_us rows last long
          h in
      let (count, times) =
        times-Rounds (suc n) data_of.base_us (in_order can_time data_of.can)
          (in_order fix_time data_of.gps) (in_order imu_time data_of.imu) carry rows last run in
      let same = few ∙ sym count in
      let (covers, within) = row_count_lem interval_us frame_us pos in
      (
        subst (λ k. frame_us ≤ k * interval_us) same covers,
        subst (λ k. k * interval_us < frame_us + interval_us) same within,
        times,
      )
