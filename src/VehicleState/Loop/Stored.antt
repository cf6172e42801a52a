-- ===== src/VehicleState/Loop/Stored.antt =====
-- main.py, `write_ready`, and store.py, `write`: the rows of one frame in the database.
use mathlib.Core.Path.{subst}
use robo_services.Prelude.{
  ℕ, zero, suc, ◌+◌, ◌*◌, ◌^◌, ◌≤◌, ◌<◌, ◌≡◌, refl, ◌∙◌, String, Bool, true, false, List, [], ◌∷◌,
  arith, ◌==◌, nat_eq, string_eq, pair_eq, Option, some, ok, All, All-imp,
}
use robo_services.Prelude.Datetime.{from_timestamp-early}
use robo_services.Prelude.Dict.{Dict, get, get_or, set, get-set, get-set_self}
use robo_services.Signal.{FloatOps}
use robo_services.VehicleState.Snapshot.{
  can_time, fix_time, imu_time, CanSample, GpsFix, ImuSample, FrameData,
}
use robo_services.VehicleState.Roles.{RoleSpec}
use robo_services.VehicleState.Frames.{Key, OpenFrame}
use robo_services.VehicleState.Frames.Closing.{Status, close}
use robo_services.VehicleState.Registry.{SessionInfo}
use robo_services.VehicleState.Rows.{Carry, Row, from, in_order, build_rows, row_count}
use robo_services.VehicleState.Rows.Rounds.{round_from, Rounds, build_rows-Rounds}
use robo_services.VehicleState.Store.{StoredRow, RowTable, primary_key, upsert_rows}
use robo_services.VehicleState.Loop.{
  Service, Tick, with_session, store_rows, write_rows, is_complete, new_session,
}

module _ {F : Type 0} where
  -- No two rows have one time.
  abbrev IsIncreasing : List (Row F) → Type 0
  IsIncreasing [] = Unit
  IsIncreasing (r ∷ rs) = All (λ (q : Row F). r.t < q.t) rs × IsIncreasing rs

  -- No row has this key, and no two rows have one.
  abbrev HasNoKey : Key × ℕ → List (StoredRow F) → Type 0
  HasNoKey k rs = All (λ (q : StoredRow F). (primary_key q == k) ≡ false) rs

  abbrev HasOwnKeys : List (StoredRow F) → Type 0
  HasOwnKeys [] = Unit
  HasOwnKeys (r ∷ rs) = HasNoKey (primary_key r) rs × HasOwnKeys rs

  get-upsert_rows_other :
      (rs : List (StoredRow F)) (db : RowTable F) (k : Key × ℕ)
      → HasNoKey k rs
      → get (upsert_rows rs db) k ≡ get db k
  unfolding upsert_rows
  get-upsert_rows_other [] db k h = refl
  get-upsert_rows_other (r ∷ rs) db k h =
      get-upsert_rows_other rs (set db (primary_key r) r) k h.1
      ∙ ground (arith, get-set db (primary_key r) k r, h.0)

  AreStored-upsert_rows :
      (rs : List (StoredRow F)) (db : RowTable F)
      → HasOwnKeys rs
      → All (λ (r : StoredRow F). get (upsert_rows rs db) (primary_key r) ≡ some r) rs
  unfolding upsert_rows
  AreStored-upsert_rows [] db h = tt
  AreStored-upsert_rows (r ∷ rs) db h = (
    get-upsert_rows_other rs (set db (primary_key r) r) (primary_key r) h.0
        ∙ get-set_self db (primary_key r) r,
    AreStored-upsert_rows rs (set db (primary_key r) r) h.1,
  )

  module _ (frame : OpenFrame F) (i : SessionInfo F) (written_at : ℕ) where
    HasNoKey-with_session :
        (row : Row F) (rows : List (Row F)) (key : Key)
        → All (λ (q : Row F). row.t < q.t) rows
        → HasNoKey (key, row.t) (with_session frame i written_at rows)
    unfolding with_session
    HasNoKey-with_session row [] key h = tt
    HasNoKey-with_session row (q ∷ rows) key h =
        (ground (arith, h.0), HasNoKey-with_session row rows key h.1)

    HasOwnKeys-with_session :
        (rows : List (Row F))
        → IsIncreasing rows
        → HasOwnKeys (with_session frame i written_at rows)
    unfolding with_session
    HasOwnKeys-with_session [] h = tt
    HasOwnKeys-with_session (row ∷ rows) h =
        (HasNoKey-with_session row rows _ h.0, HasOwnKeys-with_session rows h.1)

module _ {F : Type 0} (ops : FloatOps F) (code : F → Option String) (data_of : FrameData F)
    (interval_us : ℕ) (roles : Dict String (RoleSpec F)) (complete : Bool) where
  IsIncreasing-Rounds :
      (n start : ℕ) (can : List (CanSample F)) (gps : List (GpsFix F)) (imu : List (ImuSample F))
      (carry : Carry F) (rows : List (Row F)) (last : Carry F)
      → Rounds ops code data_of interval_us roles complete n start can gps imu carry rows last
      → start + n * interval_us ≤ 2 ^ 33 * 1000000
      → 0 < interval_us
      → All (λ (r : Row F). start ≤ r.t) rows × IsIncreasing rows
  IsIncreasing-Rounds zero start can gps imu carry [] last h early long = (tt, tt)
  IsIncreasing-Rounds zero start can gps imu carry (row ∷ rows) last h early long = elim h [ ]
  IsIncreasing-Rounds (suc n) start can gps imu carry [] last h early long = elim h [ ]
  IsIncreasing-Rounds (suc n) start can gps imu carry (row ∷ rows) last h early long =
      let end = start + interval_us in
      let (later, apart) =
        IsIncreasing-Rounds n end (from can_time end can) (from fix_time end gps)
          (from imu_time end imu) (round_from ops interval_us start can carry).0 rows last h.1
          (omega (arith, early)) long in
      let at : row.t ≡ start =
        ground (arith, from_timestamp-early start 1000000 (omega (arith, early, long)), h.0.0.1) in
      (
        (omega (arith, at), All-imp (λ (q : Row F) (le : end ≤ q.t). omega (arith, le)) rows later),
        (All-imp (λ (q : Row F) (le : end ≤ q.t). omega (arith, le, at, long)) rows later, apart),
      )

module _ {F : Type 0} (ops : FloatOps F) (code : F → Option String) (interval_us : ℕ)
    (tick : Tick F) where
  -- Where the rows of a frame that ends before 2 ^ 33 seconds (in the year 2242) are built and the
  -- database takes them, the table has each of them afterwards, with all its columns and those of its
  -- session, under its session, device and time; and the frame is closed.
  pub write_rows-AreStored :
      (s : Service F) (key : Key) (base : ℕ) (frame : OpenFrame F) (st : Status) (i : SessionInfo F)
      (rows : List (Row F)) (last : Carry F)
      → build_rows ops code frame.contents interval_us i.roles
          (is_complete st)
          (get_or s.sessions key new_session).carry
          1000000
        ≡ ok (rows, last)
      → tick.accepts (with_session frame i (tick.written_at key base) rows) ≡ true
      → frame.contents.base_us + row_count interval_us 1000000 * interval_us ≤ 2 ^ 33 * 1000000
      → All
          (λ (r : StoredRow F).
            get (write_rows ops code interval_us tick s key base frame st i).0.rows (primary_key r)
            ≡ some r)
          (with_session frame i (tick.written_at key base) rows)
        × ((write_rows ops code interval_us tick s key base frame st i).0.table
            ≡ close s.table key base)
  unfolding write_rows store_rows
  write_rows-AreStored s key base frame st i rows last built taken early =
      let (n, few, long, run) =
        build_rows-Rounds ops code frame.contents interval_us i.roles (is_complete st)
          (get_or s.sessions key new_session).carry 1000000 rows last (omega arith) built in
      let (later, apart) =
        IsIncreasing-Rounds ops code frame.contents interval_us i.roles (is_complete st) (suc n)
          frame.contents.base_us (in_order can_time frame.contents.can)
          (in_order fix_time frame.contents.gps) (in_order imu_time frame.contents.imu)
          (get_or s.sessions key new_session).carry rows last run
          (subst (λ k. frame.contents.base_us + k * interval_us ≤ 2 ^ 33 * 1000000) few early)
          long in
      rw (write_rows, built, taken)
        (
          AreStored-upsert_rows (with_session frame i (tick.written_at key base) rows) s.rows
              (HasOwnKeys-with_session frame i (tick.written_at key base) rows apart),
          refl,
        )
