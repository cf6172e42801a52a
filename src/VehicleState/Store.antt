-- ===== src/VehicleState/Store.antt =====
-- services/vehicle_state/app/store.py: the table of rows, which has at most one row for a session, a
-- device and a time, and the table of reading positions. A time is a column in microseconds;
-- `stamp_us` is what `int(t.timestamp() * 1_000_000)` reads of it, through a float.
use robo_services.Prelude.{
  ℕ, ◌+◌, ◌-◌, ◌*◌, String, Bool, List, [], ◌∷◌, any, ltb, if◌then◌else◌, ◌==◌, nat_eq, string_eq,
  pair_eq, Option, none, some,
}
use robo_services.Prelude.Dict.{Dict, get_or, set}
use robo_services.VehicleState.Frames.{Key, Stamp}
use robo_services.VehicleState.Rows.{Carry, Row}

pub record StoredRow (F : Type 0) : Type 0 where
  pub row : Row F
  pub vehicle_id : Option ℕ
  pub user_sub : Option String
  pub received_at : Option Stamp
  pub written_at : ℕ

-- The rows by their primary key.
abbrev pub RowTable : Type 0 → Type 0
RowTable F = Dict (Key × ℕ) (StoredRow F)

module _ {F : Type 0} where
  abbrev pub primary_key : StoredRow F → Key × ℕ
  primary_key r = ((r.row.source_session, r.row.device_id), r.row.t)

  -- `INSERT ... ON CONFLICT ... DO UPDATE`, with every column that is not in the key
  unfoldable pub upsert_rows : List (StoredRow F) → RowTable F → RowTable F
  upsert_rows [] db = db
  upsert_rows (r ∷ rs) db = upsert_rows rs (set db (primary_key r) r)

  -- `SELECT DISTINCT frame_base_us`, of a session
  unfoldable pub written_bases : Key → RowTable F → List ℕ
  written_bases key [] = []
  written_bases key (((other, t), r) ∷ db) =
      let rest = written_bases key db in if other == key then r.row.frame_base_us ∷ rest else rest

  -- `ORDER BY t DESC LIMIT 1`
  unfoldable pub last_row : Key → RowTable F → Option (ℕ × StoredRow F)
  last_row key [] = none
  last_row key (((other, t), r) ∷ db) =
      let rest = last_row key db in
      if other == key
      then elim rest [
        | none ↦ some (t, r)
        | some (t', r') ↦ if ltb t t' then some (t', r') else some (t, r)
      ]
      else rest

  unfoldable pub restored : ℕ → Dict String ℕ → Dict String F → Carry F
  restored end_us carried [] = []
  restored end_us carried ((name, v) ∷ signals) =
      (name, (v, end_us - get_or carried name 0 * 1000)) ∷ restored end_us carried signals

  unfoldable pub session_state : (ℕ → ℕ) → Key → ℕ → RowTable F → List ℕ × Carry F
  session_state stamp_us key interval_us db = (
    written_bases key db,
    elim (last_row key db) [
      | none ↦ []
      | some (t, r) ↦ restored (stamp_us t + interval_us) r.row.carried r.row.signals
    ],
  )

-- `save_offsets`
unfoldable pub save_offsets : List (String × ℕ) → Dict String ℕ → Dict String ℕ
save_offsets [] positions = positions
save_offsets ((topic, next_offset) ∷ offsets) positions =
    save_offsets offsets (set positions topic next_offset)

-- `base in state.written`
abbrev pub is_written : ℕ → List ℕ → Bool
is_written base bases = any (λ b. b == base) bases
