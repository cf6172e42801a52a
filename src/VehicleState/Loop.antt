-- ===== src/VehicleState/Loop.antt =====
-- services/vehicle_state/app/main.py: the tick that writes the frames that can close, and the one that
-- stores the reading positions. What the database and the registry answer during a tick is a
-- parameter of it. The messages that are read while a tick waits for an answer are left out.
pub mod Found
pub mod Anchored
pub mod Written
pub mod Steps
pub mod Ticks
pub mod Reached
pub mod Stored
use robo_services.Prelude.{
  ℕ, zero, suc, ◌+◌, ◌-◌, String, Bool, true, false, List, [], ◌∷◌, map, length, ltb, leb,
  if◌then◌else◌, ◌==◌, nat_eq, string_eq, pair_eq, option_eq, Option, none, some, Result, ok, err,
}
use robo_services.Prelude.Dict.{Dict, get, get_or, set}
use robo_services.Signal.{FloatOps}
use robo_services.VehicleState.Kind.{Kind, kinds, update}
use robo_services.VehicleState.Frames.{Key, OpenFrame, FrameTable}
use robo_services.VehicleState.Frames.Closing.{
  Status, complete, incomplete, empty, close, commit_offset,
}
use robo_services.VehicleState.Frames.Ready.{ReadyFrame, ready}
use robo_services.VehicleState.Roles.{RowFault}
use robo_services.VehicleState.Rows.{Carry, Row, build_rows}
use robo_services.VehicleState.Registry.{SessionInfo, no_info, Fetch, InfoCache, info}
use robo_services.VehicleState.Store.{
  StoredRow, RowTable, upsert_rows, session_state, save_offsets, is_written,
}

abbrev pub unknown_session_wait_s : ℕ
unknown_session_wait_s = 30

-- The default of `frame_us`.
abbrev pub frame_length_us : ℕ
frame_length_us = 1000000

pub record WrittenState (F : Type 0) : Type 0 where
  pub written : List ℕ
  pub carry : Carry F

pub record RunCounts : Type 0 where
  pub replayed : ℕ
  pub empty : ℕ
  pub complete : ℕ
  pub incomplete : ℕ
  pub rows : ℕ

-- The variables of `run`, and the table of rows in the database.
pub record Service (F : Type 0) : Type 0 where
  pub table : FrameTable F
  pub sessions : Dict Key (WrittenState F)
  pub cache : InfoCache F
  pub rows : RowTable F
  pub counts : RunCounts

-- What a tick meets: its clock, the registry, the clock around each request and at each write, and
-- which reads and writes of the database succeed.
pub record Tick (F : Type 0) : Type 0 where
  pub now : ℕ
  pub fetch : Option (Fetch F)
  pub checked : Key → ℕ → ℕ
  pub fetched : Key → ℕ → ℕ
  pub written_at : Key → ℕ → ℕ
  pub reads : Key → Bool
  pub accepts : List (StoredRow F) → Bool

-- How the loop goes on after a frame.
pub data Turn : Type 0 where
  goes_on waits raises : Turn

unfoldable pub count_status : Status → ℕ → RunCounts → RunCounts
count_status complete n c = record c { complete = suc c.complete; rows = c.rows + n }
count_status incomplete n c = record c { incomplete = suc c.incomplete; rows = c.rows + n }
count_status empty n c = record c { empty = suc c.empty; rows = c.rows + n }

abbrev pub is_complete : Status → Bool
is_complete complete = true
is_complete _ = false

abbrev pub is_empty_frame : Status → Bool
is_empty_frame empty = true
is_empty_frame _ = false

module _ {F : Type 0} where
  abbrev pub new_session : WrittenState F
  new_session = record { written = []; carry = [] }

  -- The rows with what the loop adds to each of them.
  unfoldable pub with_session : OpenFrame F → SessionInfo F → ℕ → List (Row F) → List (StoredRow F)
  with_session frame i written_at rows =
      map
        (λ (row : Row F). record {
          row = row;
          vehicle_id = i.vehicle_id;
          user_sub = i.user_sub;
          received_at = frame.received_at;
          written_at = written_at;
        })
        rows

module _ {F : Type 0} (ops : FloatOps F) (code : F → Option String) (interval_us : ℕ)
    (tick : Tick F) where
  -- The write of the rows that were built, with the carry after them, and the close.
  unfoldable pub store_rows :
      Service F
      → Key
      → ℕ
      → OpenFrame F
      → Status
      → SessionInfo F
      → Result RowFault (List (Row F) × Carry F)
      → Service F × Turn
  store_rows s key base frame status i (err e) = (s, raises)
  store_rows s key base frame status i (ok (rows, carry)) =
      let stored = with_session frame i (tick.written_at key base) rows in
      let state = get_or s.sessions key new_session in
      if tick.accepts stored
      then (
        record s {
          rows = upsert_rows stored s.rows;
          sessions = set s.sessions key (record { written = base ∷ state.written; carry = carry });
          table = close s.table key base;
          counts = count_status status (length rows) s.counts;
        },
        goes_on,
      )
      else (s, raises)

  unfoldable pub write_rows :
      Service F → Key → ℕ → OpenFrame F → Status → SessionInfo F → Service F × Turn
  write_rows s key base frame status i = store_rows s key base frame status i (
      build_rows ops code frame.contents interval_us i.roles (is_complete status)
        (get_or s.sessions key new_session).carry frame_length_us)

  -- From the registry's answer on.
  unfoldable pub write_answered :
      Service F
      → Key
      → ℕ
      → OpenFrame F
      → Status
      → Result RowFault (Option (SessionInfo F))
      → Service F × Turn
  write_answered s key base frame status (err e) = (s, raises)
  write_answered s key base frame status (ok none) =
      if ltb tick.now (frame.opened_at + unknown_session_wait_s)
      then (s, waits)
      else write_rows s key base frame status no_info
  write_answered s key base frame status (ok (some i)) = write_rows s key base frame status i

  -- `table.close`, with a count.
  unfoldable pub close_counted : Service F → Key → ℕ → RunCounts → Service F
  close_counted s key base counts = record s { table = close s.table key base; counts = counts }

  -- One round of the inner loop.
  unfoldable pub write_frame : Service F → Key → ReadyFrame F → Service F × Turn
  write_frame s key ((base, frame), status) =
      if is_written base (get_or s.sessions key new_session).written
      then (
        close_counted s key base (record s.counts { replayed = suc s.counts.replayed }),
        goes_on,
      )
      else if is_empty_frame status
      then (close_counted s key base (record s.counts { empty = suc s.counts.empty }), goes_on)
      else let (answer, cache) =
          info tick.fetch s.cache key.1 key.0 (tick.checked key base) (tick.fetched key base) in
        write_answered (record s { cache = cache }) key base frame status answer

  -- The inner loop, with its `break`.
  unfoldable pub write_frames : Service F → Key → List (ReadyFrame F) → Service F × Turn
  write_frames s key [] = (s, goes_on)
  write_frames s key (x ∷ xs) = elim (write_frame s key x).1 [
    | goes_on ↦ write_frames (write_frame s key x).0 key xs
    | waits ↦ ((write_frame s key x).0, goes_on)
    | raises ↦ ((write_frame s key x).0, raises)
  ]

module _ {F : Type 0} (stamp_us : ℕ → ℕ) (interval_us : ℕ) where
  unfoldable pub read_session : RowTable F → Key → WrittenState F
  read_session rows key =
      let (written, carry) = session_state stamp_us key interval_us rows in
      record { written = written; carry = carry }

module _ {F : Type 0} (stamp_us : ℕ → ℕ) (interval_us : ℕ) (tick : Tick F) where
  -- The state of a session, which is read from the database where there is none yet.
  unfoldable pub with_known : Service F → Key → Option (WrittenState F) → Service F × Bool
  with_known s key (some state) = (s, true)
  with_known s key none =
      if tick.reads key
      then (
        record s { sessions = set s.sessions key (read_session stamp_us interval_us s.rows key) },
        true,
      )
      else (s, false)

  unfoldable pub with_state : Service F → Key → Service F × Bool
  with_state s key = with_known s key (get s.sessions key)

module _ {F : Type 0} (ops : FloatOps F) (code : F → Option String) (stamp_us : ℕ → ℕ)
    (interval_us : ℕ) (tick : Tick F) where
  -- One round of the outer loop; the Boolean is false where it raises.
  unfoldable pub write_session : Service F → Key → List (ReadyFrame F) → Service F × Bool
  write_session s key frames =
      let (s', known) = with_state stamp_us interval_us tick s key in
      if known
      then (
        (write_frames ops code interval_us tick s' key frames).0,
        elim (write_frames ops code interval_us tick s' key frames).1 [ raises ↦ false | _ ↦ true ],
      )
      else (s', false)

  unfoldable pub write_sessions : Service F → Dict Key (List (ReadyFrame F)) → Service F × Bool
  write_sessions s [] = (s, true)
  write_sessions s ((key, frames) ∷ sessions) = elim (write_session s key frames).1 [
    | true ↦ write_sessions (write_session s key frames).0 sessions
    | false ↦ write_session s key frames
  ]

  unfoldable pub write_ready : Service F → Service F × Bool
  write_ready s = write_sessions s (ready s.table tick.now)

unfoldable pub note_stored : List (Kind × ℕ) → (Kind → Option ℕ) → Kind → Option ℕ
note_stored [] stored = stored
note_stored ((kind, next_offset) ∷ changed) stored =
    update (note_stored changed stored) kind (some (next_offset - 1))

-- `store_offsets`: the kinds whose position has changed are saved, and noted as stored. The topics
-- are those of `settings.topics`; `saves` says whether the database takes them.
module _ {F : Type 0} (topics : Kind → String) where
  unfoldable pub changed_positions : FrameTable F → (Kind → Option ℕ) → List Kind → List (Kind × ℕ)
  changed_positions t stored [] = []
  changed_positions t stored (kind ∷ ks) =
      let rest = changed_positions t stored ks in
      elim (commit_offset t kind) [
        | none ↦ rest
        | some offset ↦ if some offset == stored kind then rest else (kind, suc offset) ∷ rest
      ]

  unfoldable pub store_offsets :
      FrameTable F → Bool → (Kind → Option ℕ) × Dict String ℕ → (Kind → Option ℕ) × Dict String ℕ
  store_offsets t saves (stored, positions) =
      let changed = changed_positions t stored kinds in
      if saves
      then (
        note_stored changed stored,
        save_offsets (map (λ (c : Kind × ℕ). (topics c.0, c.1)) changed) positions,
      )
      else (stored, positions)
