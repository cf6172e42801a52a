-- ===== src/VehicleState/Loop/Anchored.antt =====
-- store.py, `write`, and the rows of a frame: a frame that has a row in the table has one at the time of its tag.
use mathlib.Core.Path.{subst, ap₂}
use robo_services.Prelude.{
  ℕ, zero, suc, ◌+◌, ◌*◌, ◌≤◌, ◌<◌, ltb, ◌≡◌, refl, sym, ap, ◌∙◌, String, Bool, true, List, [], ◌∷◌,
  arith, length, get_elem?, ◌==◌, nat_eq, nat_beq_iff, string_eq, pair_eq, pair_beq_iff, Option,
  some, Bool-cases, inl, inr, All, All-imp, ok,
}
use robo_services.Prelude.Dict.{Dict, set, contains, get-set, All-set}
use robo_services.Signal.{FloatOps}
use robo_services.VehicleState.Snapshot.{
  can_time, fix_time, imu_time, CanSample, GpsFix, ImuSample, FrameData,
}
use robo_services.VehicleState.Frames.{Key, OpenFrame}
use robo_services.VehicleState.Frames.Labels.{IsLabelled}
use robo_services.VehicleState.Roles.{RoleSpec}
use robo_services.VehicleState.Registry.{SessionInfo}
use robo_services.VehicleState.Rows.{Carry, Row, from, in_order, build_rows}
use robo_services.VehicleState.Rows.Intervals.{start-zero}
use robo_services.VehicleState.Rows.Rounds.{round_from, Rounds, build_rows-Rounds}
use robo_services.VehicleState.Rows.Times.{build_rows-times}
use robo_services.Prelude.Datetime.{from_timestamp}
use robo_services.VehicleState.Store.{
  StoredRow, RowTable, primary_key, upsert_rows, written_bases, is_written,
}
use robo_services.VehicleState.Loop.{with_session}

-- The primary key of a row at a tag
abbrev pub IsAt : ℕ → Key → Key × ℕ → Type 0
IsAt base key p = (t : ℕ) × (from_timestamp base 1000000 ≡ some t) × (p ≡ (key, t))

module _ {F : Type 0} where
  -- The table has a row of the session at the time that `fromtimestamp` gives for a tag.
  abbrev pub HasRow : RowTable F → Key → ℕ → Type 0
  HasRow db key base =
      (t : ℕ) × (from_timestamp base 1000000 ≡ some t) × (contains db (key, t) ≡ true)

  abbrev pub IsAnchored : RowTable F → Type 0
  IsAnchored db = All (λ (e : (Key × ℕ) × StoredRow F). HasRow db e.0.0 e.1.row.frame_base_us) db

  abbrev pub IsRowOf : Key → ℕ → StoredRow F → Type 0
  IsRowOf key base r =
      ((r.row.source_session, r.row.device_id) ≡ key) × (r.row.frame_base_us ≡ base)

  HasRow-set :
      (db : RowTable F) (p : Key × ℕ) (r : StoredRow F) (key : Key) (t : ℕ)
      → HasRow db key t
      → HasRow (set db p r) key t
  unfolding contains
  HasRow-set db p r key base (t, dated, h) = (t, dated, ground (arith, h, get-set db p (key, t) r))

  HasRow-set_self :
      (db : RowTable F) (p : Key × ℕ) (r : StoredRow F) (key : Key) (base : ℕ)
      → IsAt base key p
      → HasRow (set db p r) key base
  unfolding contains
  HasRow-set_self db p r key base (t, dated, e) =
      (t, dated, ground (arith, pair_beq_iff p (key, t), e, get-set db p (key, t) r))

  pub HasRow-upsert_rows :
      (rs : List (StoredRow F)) (db : RowTable F) (key : Key) (t : ℕ)
      → HasRow db key t
      → HasRow (upsert_rows rs db) key t
  unfolding upsert_rows
  HasRow-upsert_rows [] db key t h = h
  HasRow-upsert_rows (r ∷ rs) db key t h =
      HasRow-upsert_rows rs (set db (primary_key r) r) key t
        (HasRow-set db (primary_key r) r key t h)

  IsAnchored-set :
      (db : RowTable F) (r : StoredRow F) (key : Key) (base : ℕ)
      → IsRowOf key base r
      → HasRow (set db (primary_key r) r) key base
      → IsAnchored db
      → IsAnchored (set db (primary_key r) r)
  IsAnchored-set db r key base mine there h =
      let after = set db (primary_key r) r in
      All-set (λ (e : (Key × ℕ) × StoredRow F). HasRow after e.0.0 e.1.row.frame_base_us) db
        (primary_key r) r
        (λ j same.
          subst (λ (k : Key). HasRow after k r.row.frame_base_us)
            (sym (ap (λ (p : Key × ℕ). p.0) same ∙ mine.0))
            (subst (λ (b : ℕ). HasRow after key b) (sym mine.1) there))
        (All-imp
          (λ (e : (Key × ℕ) × StoredRow F) had.
            HasRow-set db (primary_key r) r e.0.0 e.1.row.frame_base_us had)
          db h)

  IsAnchored-upsert_rows :
      (rs : List (StoredRow F)) (db : RowTable F) (key : Key) (base : ℕ)
      → All (IsRowOf key base) rs
      → HasRow db key base
      → IsAnchored db
      → IsAnchored (upsert_rows rs db)
  unfolding upsert_rows
  IsAnchored-upsert_rows [] db key base mine there h = h
  IsAnchored-upsert_rows (r ∷ rs) db key base mine there h =
      let kept = HasRow-set db (primary_key r) r key base there in
      IsAnchored-upsert_rows rs (set db (primary_key r) r) key base mine.1 kept
        (IsAnchored-set db r key base mine.0 kept h)

  -- Rows of a frame, the first of them at its tag.
  abbrev pub AreRowsFrom : Key → ℕ → List (StoredRow F) → Type 0
  AreRowsFrom key base [] = ⊥
  AreRowsFrom key base (r ∷ rs) = IsAt base key (primary_key r) × All (IsRowOf key base) (r ∷ rs)

  pub upsert_rows-IsAnchored :
      (rs : List (StoredRow F)) (db : RowTable F) (key : Key) (base : ℕ)
      → AreRowsFrom key base rs
      → IsAnchored db
      → IsAnchored (upsert_rows rs db) × HasRow (upsert_rows rs db) key base
  unfolding upsert_rows
  upsert_rows-IsAnchored [] db key base h anchored = elim h [ ]
  upsert_rows-IsAnchored (r ∷ rs) db key base h anchored =
      let there = HasRow-set_self db (primary_key r) r key base h.0 in
      (
        IsAnchored-upsert_rows rs (set db (primary_key r) r) key base h.1.1 there
            (IsAnchored-set db r key base h.1.0 there anchored),
        HasRow-upsert_rows rs (set db (primary_key r) r) key base there,
      )

  -- What the database says is written of a session has a row at its tag.
  pub written_bases-HasRow :
      (db : RowTable F) (key : Key) (base : ℕ)
      → IsAnchored db
      → is_written base (written_bases key db) ≡ true
      → HasRow db key base
  unfolding written_bases
  written_bases-HasRow db key base h w = among db h w
    where
      among :
          (d : RowTable F)
          → All (λ (e : (Key × ℕ) × StoredRow F). HasRow db e.0.0 e.1.row.frame_base_us) d
          → is_written base (written_bases key d) ≡ true
          → HasRow db key base
      among [] h w = absurd (cc)
      among (((other, t), r) ∷ d) h w = elim (Bool-cases (other == key)) [
        | inr e ↦ among d h.1 (rw e at w)
        | inl e ↦
            let here : is_written base (r.row.frame_base_us ∷ written_bases key d) ≡ true =
              rw e at w in
            elim (Bool-cases (r.row.frame_base_us == base)) [
              | inl f ↦
                  subst (λ (k : Key). HasRow db k base) ((pair_beq_iff other key).0 e)
                    (subst (λ (b : ℕ). HasRow db other b)
                      ((nat_beq_iff r.row.frame_base_us base).0 f) h.0)
              | inr f ↦ among d h.1 (rw f at here)
            ]
      ]

module _ {F : Type 0} (ops : FloatOps F) (code : F → Option String) (interval_us : ℕ)
    (roles : Dict String (RoleSpec F)) (complete : Bool) where
  -- The rows have the labels of their frame.
  labels-Rounds :
      (data_of : FrameData F) (n start : ℕ) (can : List (CanSample F)) (gps : List (GpsFix F))
      (imu : List (ImuSample F)) (carry : Carry F) (rows : List (Row F)) (last : Carry F)
      → Rounds ops code data_of interval_us roles complete n start can gps imu carry rows last
      → All
          (λ (row : Row F).
            (row.source_session ≡ data_of.source_session)
            × (row.device_id ≡ data_of.device_id)
            × (row.frame_base_us ≡ data_of.base_us))
          rows
  labels-Rounds data_of zero start can gps imu carry [] last h = tt
  labels-Rounds data_of zero start can gps imu carry (row ∷ rows) last h = elim h [ ]
  labels-Rounds data_of (suc n) start can gps imu carry [] last h = elim h [ ]
  labels-Rounds data_of (suc n) start can gps imu carry (row ∷ rows) last h =
      let end = start + interval_us in
      (
        (
          ap (λ (r : Row F). r.source_session) h.0.1,
          ap (λ (r : Row F). r.device_id) h.0.1,
          ap (λ (r : Row F). r.frame_base_us) h.0.1,
        ),
        labels-Rounds data_of n end (from can_time end can) (from fix_time end gps)
            (from imu_time end imu) (round_from ops interval_us start can carry).0 rows last h.1,
      )

  module _ (key : Key) (base : ℕ) (frame : OpenFrame F) (i : SessionInfo F) (written_at : ℕ)
      (mine : IsLabelled key base frame) where
    -- The labels of a row, its own or its frame's.
    abbrev HasLabels : Row F → Type 0
    HasLabels row =
        (row.source_session ≡ frame.contents.source_session)
        × (row.device_id ≡ frame.contents.device_id)
        × (row.frame_base_us ≡ frame.contents.base_us)

    row_key : (row : Row F) → HasLabels row → (row.source_session, row.device_id) ≡ key
    row_key row h = ap₂ (λ s d. (s, d)) (h.0 ∙ mine.0) (h.1 ∙ mine.1)

    All-with_session :
        (rows : List (Row F))
        → All HasLabels rows
        → All (IsRowOf key base) (with_session frame i written_at rows)
    unfolding with_session
    All-with_session [] h = tt
    All-with_session (row ∷ rows) h = ((row_key row h.0, h.0.2 ∙ mine.2), All-with_session rows h.1)

    with_session-AreRowsFrom :
        (rows : List (Row F))
        → 0 < length rows
        → All HasLabels rows
        → ((row : Row F) → get_elem? rows 0 ≡ some row → from_timestamp base 1000000 ≡ some row.t)
        → AreRowsFrom key base (with_session frame i written_at rows)
    unfolding with_session
    with_session-AreRowsFrom [] some_row h first = absurd (omega (arith, some_row))
    with_session-AreRowsFrom (row ∷ rows) some_row h first = (
      (row.t, first row refl, ap (λ k. (k, row.t)) (row_key row h.0)),
      ((row_key row h.0, h.0.2 ∙ mine.2), All-with_session rows h.1),
    )

    -- What a frame of the table is written as.
    pub build_rows-AreRowsFrom :
        (carry : Carry F) (frame_us : ℕ) (rows : List (Row F)) (last : Carry F)
        → 0 < frame_us
        → build_rows ops code frame.contents interval_us roles complete carry frame_us
          ≡ ok (rows, last)
        → AreRowsFrom key base (with_session frame i written_at rows)
    build_rows-AreRowsFrom carry frame_us rows last long h =
        let (n, few, pos, run) =
          build_rows-Rounds ops code frame.contents interval_us roles complete carry frame_us rows
            last long h in
        let (covers, within, times) =
          build_rows-times ops code frame.contents interval_us roles complete carry frame_us rows
            last long h in
        with_session-AreRowsFrom rows
          (elim (Bool-cases (ltb 0 (length rows))) [
            | inl e ↦ ground (arith, e)
            | inr e ↦
                let no_row : length rows ≡ 0 = ground (arith, e) in
                absurd (omega (arith, long, subst (λ k. frame_us ≤ k * interval_us) no_row covers))
          ])
          (labels-Rounds frame.contents (suc n) frame.contents.base_us
            (in_order can_time frame.contents.can) (in_order fix_time frame.contents.gps)
            (in_order imu_time frame.contents.imu) carry rows last run)
          (λ row found.
            ap (λ x. from_timestamp x 1000000)
              (sym (start-zero frame.contents.base_us interval_us ∙ mine.2))
            ∙ times 0 row found)
