-- ===== src/VehicleState/Rows/Rounds.antt =====
-- snapshot.py, `build_rows`: the rounds of the outer loop, when none of them raises.
use native.Mathlib.Nat.{lt-div-mul-add}
use robo_services.Prelude.{
  ◌-◌, ◌*◌, ◌/◌, ◌<◌, ◌==◌, nat_eq, Bool-cases, ℕ, zero, suc, ◌+◌, ◌≡◌, refl, sym, ap, ◌∙◌, some,
  Option-cases, String, Bool, List, [], ◌∷◌, arith, Option, inl, inr, Result, ok, err, Result-cases,
  ◌>>=◌,
}
use mathlib.Core.Path.{subst}
use robo_services.Prelude.Datetime.{from_timestamp}
use robo_services.Prelude.Dict.{Dict}
use robo_services.Signal.{FloatOps}
use robo_services.VehicleState.Snapshot.{
  can_time, fix_time, imu_time, CanSample, GpsFix, ImuSample, FrameData,
}
use robo_services.VehicleState.Roles.{RoleSpec, RoleValue, apply_roles}
use robo_services.VehicleState.Rows.{
  Carry, Stats, Row, before, from, take_samples, values_of, row_with, row_of, row_count, in_order,
  rows_from, build_rows,
}

pos_suc : {n : ℕ} → 0 < n → (m : ℕ) × (n ≡ suc m)
pos_suc {n = zero} h = absurd (omega (arith, h))
pos_suc {n = suc m} h = (m, refl)

-- A round and those that are left, when neither raises.
glue :
    {E A B : Type 0} (m : Result E A) (q : Result E (List A × B)) (rows : List A) (last : B)
    → (m >>= λ row. ◌>>=◌ {B = List A × B} q (λ rest. ok (row ∷ rest.0, rest.1))) ≡ ok (rows, last)
    → (row : A) × (rest : List A) × (m ≡ ok row) × (q ≡ ok (rest, last)) × (rows ≡ row ∷ rest)
glue (ok row) (ok (rest, b)) rows last h = (row, rest, refl, cc, cc)
glue (ok row) (err e) rows last h = absurd (cc)
glue (err e) q rows last h = absurd (cc)

row_count_pos :
    (interval frame_us : ℕ) → 0 < interval → 0 < frame_us → 0 < row_count interval frame_us
unfolding row_count
row_count_pos interval frame_us h k =
    pos ((frame_us + (interval - 1)) / interval) (lt-div-mul-add h)
  where
    pos : (q : ℕ) → frame_us + (interval - 1) < q * interval + interval → 0 < q
    pos zero e = omega (arith, h, k, e)
    pos (suc q) e = omega arith

module _ {F : Type 0} (ops : FloatOps F) (interval_us : ℕ) where
  -- The carry and the statistics after the samples of the round that starts at `start`.
  abbrev pub round_from : ℕ → List (CanSample F) → Carry F → Carry F × Dict String (Stats F)
  round_from start can carry = take_samples ops (before can_time (start + interval_us) can) carry []

module _ {F : Type 0} (ops : FloatOps F) (code : F → Option String) (data_of : FrameData F)
    (interval_us : ℕ) (roles : Dict String (RoleSpec F)) (complete : Bool) where
  -- The rows and the carry after the rounds from `start` on, with the samples and the carry that are
  -- left for them.
  abbrev pub Rounds :
      ℕ
      → ℕ
      → List (CanSample F)
      → List (GpsFix F)
      → List (ImuSample F)
      → Carry F
      → List (Row F)
      → Carry F
      → Type 0
  Rounds zero start can gps imu carry [] last = carry ≡ last
  Rounds (suc n) start can gps imu carry (row ∷ rows) last =
      ((made : Dict String (Option (RoleValue F)) × (from_timestamp start 1000000 ≡ some row.t))
        × (row
            ≡ row_with ops data_of interval_us complete made.0 row.t start
                (round_from ops interval_us start can carry).0
                (round_from ops interval_us start can carry).1
                (before fix_time (start + interval_us) gps)
                (before imu_time (start + interval_us) imu)))
      × Rounds n (start + interval_us) (from can_time (start + interval_us) can)
          (from fix_time (start + interval_us) gps) (from imu_time (start + interval_us) imu)
          (round_from ops interval_us start can carry).0 rows last
  Rounds _ _ _ _ _ _ _ _ = ⊥

  row_of_made :
      (start : ℕ) (carry : Carry F) (stats : Dict String (Stats F)) (fixes : List (GpsFix F))
      (samples : List (ImuSample F)) {row : Row F}
      → row_of ops code data_of interval_us roles complete start carry stats fixes samples ≡ ok row
      → (made : Dict String (Option (RoleValue F)) × (from_timestamp start 1000000 ≡ some row.t))
        × (row
            ≡ row_with ops data_of interval_us complete made.0 row.t start carry stats fixes
                samples)
  unfolding row_of
  row_of_made start carry stats fixes samples {row} h =
      elim (Option-cases (from_timestamp start 1000000)) [
        | inl undated ↦ ground (arith, h, undated)
        | inr (t, dated) ↦ elim (Result-cases (apply_roles ops code roles (values_of carry))) [
          | inr (fault, e) ↦ ground (arith, h, dated, e)
          | inl (columns, e) ↦
              let got : Row F =
                row_with ops data_of interval_us complete columns t start carry stats fixes
                  samples in
              let same : got ≡ row = ground (arith, h, dated, e) in
              let at : t ≡ row.t = ap (λ (r : Row F). r.t) same in
              (
                (columns, dated ∙ ap (λ x. some x) at),
                sym same
                    ∙ ap
                        (λ x.
                          row_with ops data_of interval_us complete columns x start carry stats
                            fixes samples)
                        at,
              )
        ]
      ]

  pub rows_from-Rounds :
      (n start : ℕ) (can : List (CanSample F)) (gps : List (GpsFix F)) (imu : List (ImuSample F))
      (carry : Carry F) (rows : List (Row F)) (last : Carry F)
      → rows_from ops code data_of interval_us roles complete n start can gps imu carry
        ≡ ok (rows, last)
      → Rounds n start can gps imu carry rows last
  unfolding rows_from
  rows_from-Rounds zero start can gps imu carry [] last h = cc
  rows_from-Rounds zero start can gps imu carry (row ∷ rows) last h = absurd (cc)
  rows_from-Rounds (suc n) start can gps imu carry rows last h =
      let end = start + interval_us in
      let carry' = (round_from ops interval_us start can carry).0 in
      let stats = (round_from ops interval_us start can carry).1 in
      let fixes = before fix_time end gps in
      let samples = before imu_time end imu in
      let can' = from can_time end can in
      let gps' = from fix_time end gps in
      let imu' = from imu_time end imu in
      let (row, rest, made, later, same) =
        glue (row_of ops code data_of interval_us roles complete start carry' stats fixes samples)
          (rows_from ops code data_of interval_us roles complete n end can' gps' imu' carry') rows
          last h in
      subst (λ (r : List (Row F)). Rounds (suc n) start can gps imu carry r last) (sym same)
        (
          row_of_made start carry' stats fixes samples made,
          rows_from-Rounds n end can' gps' imu' carry' rest last later,
        )

  -- The rows of a frame are those of at least one round, on the samples in time order.
  pub build_rows-Rounds :
      (carry : Carry F) (frame_us : ℕ) (rows : List (Row F)) (last : Carry F)
      → 0 < frame_us
      → build_rows ops code data_of interval_us roles complete carry frame_us ≡ ok (rows, last)
      → (n : ℕ) × (row_count interval_us frame_us ≡ suc n)
        × (0 < interval_us)
        × Rounds
            (suc n)
            data_of.base_us
            (in_order can_time data_of.can)
            (in_order fix_time data_of.gps)
            (in_order imu_time data_of.imu)
            carry
            rows
            last
  unfolding build_rows
  build_rows-Rounds carry frame_us rows last long h = elim (Bool-cases (interval_us == 0)) [
    | inl e ↦ absurd (ground (arith, h, e))
    | inr e ↦
        let pos : 0 < interval_us = ground (arith, e) in
        let (n, few) = pos_suc (row_count_pos interval_us frame_us pos long) in
        (
          n,
          few,
          pos,
          rows_from-Rounds (suc n) data_of.base_us (in_order can_time data_of.can)
              (in_order fix_time data_of.gps) (in_order imu_time data_of.imu) carry rows last
              (rw (e, few) at h),
        )
  ]
