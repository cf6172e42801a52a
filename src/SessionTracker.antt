-- ===== src/SessionTracker.antt =====
-- services/session_tracker/app/store.py: session records applied to the tables `sessions` and
-- `session_frames`. A row of `sessions` is known by its unique pair of session and device, which
-- stands for the generated id. `now()` is the time that a record is applied at. The statements are those of the file, with
-- what PostgreSQL documents of COALESCE, GREATEST and ON CONFLICT. Numbers are as `_int` gives
-- them, times that are compared are numbers, and a field that is missing or null is `none`; but
-- `source_session` and `device_id` are `none` where missing only, and `base_timestamp_us` where
-- `int` raises.
pub mod Redelivery
pub mod Counting
pub mod Users
use robo_services.Prelude.{
  ℕ, suc, String, Bool, false, true, List, [], ◌∷◌, if◌then◌else◌, ◌==◌, nat_eq, string_eq, pair_eq,
  ltb, Option, none, some, Result, ok, err,
}
use robo_services.Prelude.Dict.{Dict, get, set}

abbrev pub SessionKey : Type 0
SessionKey = String × String

pub record Session : Type 0 where
  pub user_sub : Option String
  pub mode : Option String
  pub vehicle_id : Option ℕ
  pub track_id : Option ℕ
  pub started_at : Option String
  pub start_event : Option String
  pub ended_at : Option String
  pub end_reason : Option String
  pub frames_expected : Option ℕ
  pub first_frame_us : Option ℕ
  pub last_frame_us : Option ℕ
  pub end_event : Option String
  pub frames_received : ℕ
  pub last_frame_received_at : Option ℕ
  pub updated_at : ℕ

pub record SessionFrame : Type 0 where
  pub gps : ℕ
  pub imu : ℕ
  pub imu_missing : ℕ
  pub can : ℕ
  pub received_at : Option ℕ

pub record Db : Type 0 where
  pub sessions : Dict SessionKey Session
  pub session_frames : Dict (SessionKey × ℕ) SessionFrame

pub data MessageType : Type 0 where
  session_start session_end frame other : MessageType

-- The fields of a record's payload, with its JSON text.
pub record Payload : Type 0 where
  pub json : String
  pub captured_at : Option String
  pub mode : Option String
  pub vehicle_id : Option ℕ
  pub track_id : Option ℕ
  pub reason : Option String
  pub frames : Option ℕ
  pub first_frame_us : Option ℕ
  pub last_frame_us : Option ℕ
  pub base_timestamp_us : Option ℕ
  pub gps : Option ℕ
  pub imu : Option ℕ
  pub imu_missing : Option ℕ
  pub can : Option ℕ

pub record Record : Type 0 where
  pub message_type : MessageType
  pub source_session : Option String
  pub device_id : Option String
  pub user_sub : Option String
  pub captured_at : Option String
  pub received_at : Option ℕ
  pub applied_at : ℕ
  pub payload : Payload

-- What `apply` returns, and the exception that rolls its transaction back.
pub data Outcome : Type 0 where
  started ended counted duplicate ignored : Outcome

pub data ApplyError : Type 0 where
  key_error : ApplyError

abbrev pub coalesce {ℓ} : {A : Type ℓ} → Option A → Option A → Option A
coalesce none b = b
coalesce (some a) b = some a

-- GREATEST passes over nulls.
abbrev pub greatest : Option ℕ → Option ℕ → Option ℕ
greatest none b = b
greatest (some a) none = some a
greatest (some a) (some b) = if ltb a b then some b else some a

-- Python's `a or b`, of texts that may be null
abbrev pub or_else : Option String → Option String → Option String
or_else none b = b
or_else (some a) b = if a == "" then b else some a

abbrev pub or_zero : Option ℕ → ℕ
or_zero none = 0
or_zero (some n) = n

-- A row that an INSERT gives no columns but its key; every INSERT gives `updated_at` too, by the
-- column's default.
abbrev pub blank : Session
blank = record {
  user_sub = none;
  mode = none;
  vehicle_id = none;
  track_id = none;
  started_at = none;
  start_event = none;
  ended_at = none;
  end_reason = none;
  frames_expected = none;
  first_frame_us = none;
  last_frame_us = none;
  end_event = none;
  frames_received = 0;
  last_frame_received_at = none;
  updated_at = 0;
}

abbrev pub or_blank : Option Session → Session
or_blank none = blank
or_blank (some s) = s

-- INSERT … ON CONFLICT (source_session, device_id) DO UPDATE, as a change of the row that is there,
-- or of a blank one.
unfoldable pub upsert : Db → SessionKey → (Session → Session) → Db
upsert db key change = record db {
  sessions = set db.sessions key (change (or_blank (get db.sessions key)));
}

-- `_UPSERT_START`; `tracks` tells the ids of the table `tracks`.
unfoldable pub start_columns : (ℕ → Bool) → Record → Session → Session
start_columns tracks r s = record s {
  user_sub = coalesce r.user_sub s.user_sub;
  mode = r.payload.mode;
  vehicle_id = r.payload.vehicle_id;
  track_id = elim r.payload.track_id [ none ↦ none | some t ↦ if tracks t then some t else none ];
  started_at = or_else r.payload.captured_at r.captured_at;
  start_event = some r.payload.json;
  updated_at = r.applied_at;
}

-- `_UPSERT_END`
unfoldable pub end_columns : Record → Session → Session
end_columns r s = record s {
  user_sub = coalesce r.user_sub s.user_sub;
  ended_at = or_else r.payload.captured_at r.captured_at;
  end_reason = r.payload.reason;
  frames_expected = r.payload.frames;
  first_frame_us = r.payload.first_frame_us;
  last_frame_us = r.payload.last_frame_us;
  end_event = some r.payload.json;
  updated_at = r.applied_at;
}

-- `_SESSION_ID`
unfoldable pub touch_columns : Record → Session → Session
touch_columns r s = record s {
  user_sub = coalesce r.user_sub s.user_sub;
  updated_at = r.applied_at;
}

-- `_COUNT_FRAME`
unfoldable pub count_columns : Record → Session → Session
count_columns r s = record s {
  frames_received = suc s.frames_received;
  last_frame_received_at = greatest (coalesce s.last_frame_received_at r.received_at) r.received_at;
}

unfoldable pub frame_row : Record → SessionFrame
frame_row r = record {
  gps = or_zero r.payload.gps;
  imu = or_zero r.payload.imu;
  imu_missing = or_zero r.payload.imu_missing;
  can = or_zero r.payload.can;
  received_at = r.received_at;
}

-- The frame branch of `apply`, for a payload with a base timestamp: `_INSERT_FRAME` adds a row,
-- and the frame is counted, or does nothing.
unfoldable pub apply_frame : Db → SessionKey → ℕ → Record → Db × Outcome
apply_frame db₀ key base r =
    let db = upsert db₀ key (touch_columns r) in
    elim (get db.session_frames (key, base)) [
      | some row ↦ (db, duplicate)
      | none ↦ (
        upsert (record db { session_frames = set db.session_frames (key, base) (frame_row r) }) key
            (count_columns r),
        counted,
      )
    ]

-- The branches of `apply`, for a record's key, type and base timestamp.
unfoldable pub apply_kind :
    (ℕ → Bool)
    → Db
    → Option SessionKey
    → MessageType
    → Option ℕ
    → Record
    → Result ApplyError (Db × Outcome)
apply_kind tracks db none kind base r = err key_error
apply_kind tracks db (some key) session_start base r =
    ok (upsert db key (start_columns tracks r), started)
apply_kind tracks db (some key) session_end base r = ok (upsert db key (end_columns r), ended)
apply_kind tracks db (some key) frame none r = err key_error
apply_kind tracks db (some key) frame (some base) r = ok (apply_frame db key base r)
apply_kind tracks db (some key) other base r = ok (db, ignored)

abbrev pub both {ℓ} : {A B : Type ℓ} → Option A → Option B → Option (A × B)
both (some a) (some b) = some (a, b)
both _ _ = none

unfoldable pub apply : (ℕ → Bool) → Db → Record → Result ApplyError (Db × Outcome)
apply tracks db r =
    apply_kind tracks db (both r.source_session r.device_id) r.message_type
      r.payload.base_timestamp_us r

-- The tables after some records; one that raises leaves them.
unfoldable pub deliver : (ℕ → Bool) → Db → List Record → Db
deliver tracks db [] = db
deliver tracks db (r ∷ rs) =
    deliver tracks (elim (apply tracks db r) [ err e ↦ db | ok (db', o) ↦ db' ]) rs
