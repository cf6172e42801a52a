-- ===== src/VehicleState/Rows/Latest.antt =====
-- snapshot.py, `build_rows`: the carry after a frame, and the rows' places in time.
use mathlib.Core.Path.{subst}
use robo_services.Prelude.{
  ℕ, zero, suc, ◌+◌, ◌*◌, ◌≤◌, ◌<◌, ◌≡◌, refl, sym, ap, ◌∙◌, String, Bool, List, [], ◌∷◌, ◌++◌,
  arith, if◌then◌else◌, ◌==◌, string_eq, Option, none, some, ok,
}
use robo_services.Prelude.Dict.{Dict, get, set, get-set}
use robo_services.Signal.{FloatOps}
use robo_services.VehicleState.Snapshot.{
  can_time, fix_time, imu_time, CanSample, GpsFix, ImuSample, FrameData,
}
use robo_services.VehicleState.Roles.{RoleSpec}
use robo_services.VehicleState.Rows.{
  Carry, Stats, Row, before, from, in_order, note_value, take_signals, take_samples, row_count,
  build_rows,
}
use robo_services.VehicleState.Rows.Intervals.{
  IsInOrder, IsFrom, IsFrom-from, IsInOrder-from, IsInOrder-in_order, start-zero, start-suc,
}
use robo_services.VehicleState.Rows.Rounds.{round_from, Rounds, build_rows-Rounds}

-- The samples of consecutive rounds.
module _ {A : Type 0} (t_us : A → ℕ) where
  before-append :
      (end last : ℕ) (xs : List A)
      → end ≤ last
      → before t_us end xs ++ before t_us last (from t_us end xs) ≡ before t_us last xs
  unfolding before from
  before-append end last [] h = refl
  before-append end last (x ∷ xs) h = ground (arith, before-append end last xs h, h)

  before-IsFrom : (start : ℕ) (xs : List A) → IsFrom t_us start xs → before t_us start xs ≡ []
  unfolding before
  before-IsFrom start [] h = refl
  before-IsFrom start (x ∷ xs) h = ground (arith, h.0)

module _ {F : Type 0} (name : String) where
  -- The last value of a name among the signals of a sample that is not null.
  abbrev pub value_in : Dict String (Option F) → Option F
  value_in [] = none
  value_in ((other, none) ∷ signals) = value_in signals
  value_in ((other, some v) ∷ signals) = elim (value_in signals) [
    | none ↦ if other == name then some v else none
    | some w ↦ some w
  ]

  -- The value of a name in the last of the samples that has one, with that sample's time.
  abbrev pub latest_value : List (CanSample F) → Option (F × ℕ)
  latest_value [] = none
  latest_value (x ∷ xs) = elim (latest_value xs) [
    | none ↦ elim (value_in x.signals) [ none ↦ none | some v ↦ some (v, x.t_us) ]
    | some r ↦ some r
  ]

  abbrev pub or_before : Option (F × ℕ) → Option (F × ℕ) → Option (F × ℕ)
  or_before none known = known
  or_before (some r) known = some r

  latest_value-append :
      (xs ys : List (CanSample F))
      → latest_value (xs ++ ys) ≡ or_before (latest_value ys) (latest_value xs)
  latest_value-append [] ys = ground arith
  latest_value-append (x ∷ xs) ys = ground (arith, latest_value-append xs ys)

module _ {F : Type 0} (ops : FloatOps F) (name : String) where
  get-take_signals :
      (t : ℕ) (signals : Dict String (Option F)) (carry : Carry F) (stats : Dict String (Stats F))
      → get (take_signals ops t signals carry stats).0 name
        ≡ elim (value_in name signals) [ none ↦ get carry name | some v ↦ some (v, t) ]
  unfolding take_signals
  get-take_signals t [] carry stats = refl
  get-take_signals t ((other, none) ∷ signals) carry stats = get-take_signals t signals carry stats
  get-take_signals t ((other, some v) ∷ signals) carry stats = ground (
    arith,
    get-take_signals t signals (set carry other (v, t))
        (set stats other (note_value ops (get stats other) v)),
    get-set carry other name (v, t),
  )

  get-take_samples :
      (xs : List (CanSample F)) (carry : Carry F) (stats : Dict String (Stats F))
      → get (take_samples ops xs carry stats).0 name
        ≡ or_before name (latest_value name xs) (get carry name)
  unfolding take_samples
  get-take_samples [] carry stats = refl
  get-take_samples (x ∷ xs) carry stats = ground (
    arith,
    get-take_samples xs (take_signals ops x.t_us x.signals carry stats).0
        (take_signals ops x.t_us x.signals carry stats).1,
    get-take_signals x.t_us x.signals carry stats,
  )

  get-round_from :
      (interval_us start : ℕ) (can : List (CanSample F)) (carry : Carry F)
      → get (round_from ops interval_us start can carry).0 name
        ≡ or_before name
            (latest_value name (before can_time (start + interval_us) can))
            (get carry name)
  get-round_from interval_us start can carry =
      get-take_samples (before can_time (start + interval_us) can) carry []

  -- The round, and the rounds that are left, in one.
  get-suc :
      (interval_us n start : ℕ) (can : List (CanSample F)) (carry last : Carry F)
      → get last name
        ≡ or_before name
            (latest_value name (
              before can_time
                (start + interval_us + n * interval_us)
                (from can_time (start + interval_us) can)))
            (get (round_from ops interval_us start can carry).0 name)
      → get last name
        ≡ or_before name
            (latest_value name (before can_time (start + suc n * interval_us) can))
            (get carry name)
  get-suc interval_us n start can carry last h =
      let at = can_time in
      let end = start + interval_us in
      let later = before at (end + n * interval_us) (from at end can) in
      let all = ap (latest_value name) (
        before-append at end (end + n * interval_us) can (omega arith)
        ∙ ap (λ s. before at s can) (sym (start-suc start n interval_us))) in
      ground (
        arith,
        h,
        all,
        latest_value-append name (before at end can) later,
        get-round_from interval_us start can carry,
      )

module _ {F : Type 0} (ops : FloatOps F) (code : F → Option String) (data_of : FrameData F)
    (interval_us : ℕ) (roles : Dict String (RoleSpec F)) (complete : Bool) (name : String) where
  get-Rounds :
      (n start : ℕ) (can : List (CanSample F)) (gps : List (GpsFix F)) (imu : List (ImuSample F))
      (carry : Carry F) (rows : List (Row F)) (last : Carry F)
      → Rounds ops code data_of interval_us roles complete n start can gps imu carry rows last
      → IsInOrder can_time can
      → IsFrom can_time start can
      → get last name
        ≡ or_before name
            (latest_value name (before can_time (start + n * interval_us) can))
            (get carry name)
  get-Rounds zero start can gps imu carry [] last h o from_start =
      let at = can_time in
      let none_left = ap (latest_value name) (
        ap (λ s. before at s can) (start-zero start interval_us)
        ∙ before-IsFrom at start can from_start) in
      ground (arith, none_left, ap (λ (c : Carry F). get c name) h)
  get-Rounds zero start can gps imu carry (row ∷ rows) last h o from_start = elim h [ ]
  get-Rounds (suc n) start can gps imu carry [] last h o from_start = elim h [ ]
  get-Rounds (suc n) start can gps imu carry (row ∷ rows) last h o from_start =
      let at = can_time in
      let end = start + interval_us in
      get-suc ops name interval_us n start can carry last (
        get-Rounds n end (from at end can) (from fix_time end gps) (from imu_time end imu)
          (round_from ops interval_us start can carry).0 rows last h.1 (IsInOrder-from at end can o)
          (IsFrom-from at end can o))

  -- The first round takes what comes before its start too.
  get-first :
      (n start : ℕ) (can : List (CanSample F)) (gps : List (GpsFix F)) (imu : List (ImuSample F))
      (carry : Carry F) (rows : List (Row F)) (last : Carry F)
      → Rounds ops code data_of interval_us roles complete (suc n) start can gps imu carry rows last
      → IsInOrder can_time can
      → get last name
        ≡ or_before name
            (latest_value name (before can_time (start + suc n * interval_us) can))
            (get carry name)
  get-first n start can gps imu carry [] last h o = elim h [ ]
  get-first n start can gps imu carry (row ∷ rows) last h o =
      let at = can_time in
      let end = start + interval_us in
      get-suc ops name interval_us n start can carry last (
        get-Rounds n end (from at end can) (from fix_time end gps) (from imu_time end imu)
          (round_from ops interval_us start can carry).0 rows last h.1 (IsInOrder-from at end can o)
          (IsFrom-from at end can o))

  -- Where the rows of a frame are built, with a frame length above 0, the carry then has, for each
  -- name, the value and the time of the last CAN sample, in time order and before the end of the last
  -- interval, that has a value of that name, or what it had before the frame if there is none.
  pub build_rows-latest_value :
      (carry : Carry F) (frame_us : ℕ) (rows : List (Row F)) (last : Carry F)
      → 0 < frame_us
      → build_rows ops code data_of interval_us roles complete carry frame_us ≡ ok (rows, last)
      → get last name
        ≡ or_before name
            (latest_value name (
              before can_time
                (data_of.base_us + row_count interval_us frame_us * interval_us)
                (in_order can_time data_of.can)))
            (get carry name)
  build_rows-latest_value carry frame_us rows last long h =
      let (n, few, pos, run) =
        build_rows-Rounds ops code data_of interval_us roles complete carry frame_us rows last long
          h in
      subst
        (λ (k : ℕ).
          get last name
          ≡ or_before name
              (latest_value name (
                before can_time (data_of.base_us + k * interval_us)
                  (in_order can_time data_of.can)))
              (get carry name))
        (sym few)
        (get-first n data_of.base_us (in_order can_time data_of.can) (in_order fix_time data_of.gps)
          (in_order imu_time data_of.imu) carry rows last run
          (IsInOrder-in_order can_time data_of.can))
