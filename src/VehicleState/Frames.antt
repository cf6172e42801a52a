-- ===== src/VehicleState/Frames.antt =====
-- services/vehicle_state/app/frames.py: `FrameTable`. Times on the monotonic clock are numbers, and
-- so are offsets and the frame tags, which kreceiver takes from frames whose timestamp is above 0;
-- the -1 that stands for "no tag yet" is `none`. A record is read once: a field that is absent, or
-- that does not parse, is `none`.
pub mod Ingest
pub mod Closing
pub mod Find
pub mod Offsets
pub mod Restart
pub mod Order
pub mod Replay
pub mod Ready
pub mod Labels
use robo_services.Prelude.{
  ℕ, zero, suc, ◌+◌, ◌-◌, ◌<◌, String, Bool, false, true, not, ◌&&◌, ◌||◌, List, [], ◌∷◌, ◌++◌, any,
  all, is_empty, ltb, leb, max, if◌then◌else◌, ◌==◌, nat_eq, string_eq, pair_eq, Option, none, some,
}
use robo_services.Prelude.Dict.{Dict, get, get_or, set, pop}
use robo_services.VehicleState.Kind.{
  Kind, gps, imu, can, unknown, discovery, session, kind_beq, kind_eq, sample_kinds, kinds, update,
}
use robo_services.VehicleState.Snapshot.{FrameData, GpsPayload, Axes}

abbrev pub Key : Type 0
Key = String × String

abbrev pub event_lag_us : ℕ
event_lag_us = 30000000

-- The counts of a frame receipt; a missing count is 0.
pub record Receipt : Type 0 where
  pub gps : ℕ
  pub imu : ℕ
  pub can : ℕ
  pub imu_missing : Option ℕ

pub record Payload (F : Type 0) : Type 0 where
  pub base_timestamp_us : Option ℕ
  pub receipt : Receipt
  pub dt_us : ℕ
  pub signals : Dict String (Option F)
  pub dbc : Option (Option String)
  pub fix : GpsPayload F
  pub accel_m_s2 : Option (Axes F)
  pub gyro_deg_s : Option (Axes F)

-- A text that should be a time; `_t_us` raises where it is not.
pub data Stamp : Type 0 where
  malformed : Stamp
  at : ℕ → Stamp

pub record Message (F : Type 0) : Type 0 where
  pub source_session : String
  pub device_id : String
  pub message_type : String
  pub captured_at : Option ℕ
  pub received_at : Option Stamp
  pub payload : Payload F

pub record OpenFrame (F : Type 0) : Type 0 where
  pub contents : FrameData F
  pub opened_at : ℕ
  pub last_progress : ℕ
  pub receipt : Option Receipt
  pub counts : Kind → ℕ
  pub first_offset : Kind → Option ℕ
  pub received_at : Option Stamp

pub record Skipped : Type 0 where
  pub no_session : ℕ
  pub untagged : ℕ
  pub late : ℕ

pub record FrameTable (F : Type 0) : Type 0 where
  pub grace_s : ℕ
  pub frames : Dict Key (Dict ℕ (OpenFrame F))
  pub closed_upto : Dict Key ℕ
  pub hwm : Kind → Dict Key ℕ
  pub hwm_any : Kind → Option ℕ
  pub last_offset : Kind → Option ℕ
  pub last_message_at : Kind → ℕ
  pub skipped : Skipped

-- A number that -1 stands below: `m > b`, `b <= m` and `max(m, b)`.
abbrev pub above : Option ℕ → ℕ → Bool
above none b = false
above (some m) b = ltb b m

abbrev pub reaches : Option ℕ → ℕ → Bool
reaches none b = false
reaches (some m) b = leb b m

abbrev pub raised : Option ℕ → ℕ → ℕ
raised none b = b
raised (some m) b = max m b

-- The later of two receive times, the first one where nothing is noted yet.
abbrev pub later_receipt : Option Stamp → Option Stamp → Option Stamp
later_receipt none old = old
later_receipt (some s) none = some s
later_receipt (some malformed) (some old) = some old
later_receipt (some (at t)) (some malformed) = some malformed
later_receipt (some (at t)) (some (at old)) = if ltb old t then some (at t) else some (at old)

-- Whether comparing them does not raise.
abbrev pub are_comparable : Option Stamp → Option Stamp → Bool
are_comparable none old = true
are_comparable (some s) none = true
are_comparable (some malformed) (some old) = false
are_comparable (some (at t)) (some malformed) = false
are_comparable (some (at t)) (some (at old)) = true

abbrev pub first_seen : Option ℕ → ℕ → ℕ
first_seen none offset = offset
first_seen (some n) offset = n

module _ {F : Type 0} where
  unfoldable pub new_table : ℕ → FrameTable F
  new_table grace_s = record {
    grace_s = grace_s;
    frames = [];
    closed_upto = [];
    hwm = λ k. [];
    hwm_any = λ k. none;
    last_offset = λ k. none;
    last_message_at = λ k. 0;
    skipped = record { no_session = 0; untagged = 0; late = 0 };
  }

  -- `self.frames.get(key, {})`, and a frame of it.
  unfoldable pub frames_of : FrameTable F → Key → Dict ℕ (OpenFrame F)
  frames_of t key = get_or t.frames key []

  unfoldable pub find_frame : FrameTable F → Key → ℕ → Option (OpenFrame F)
  find_frame t key base = get (frames_of t key) base

  unfoldable pub new_frame : Key → ℕ → ℕ → OpenFrame F
  new_frame (s, d) base now = record {
    contents = record {
      source_session = s;
      device_id = d;
      base_us = base;
      can = [];
      gps = [];
      imu = [];
      imu_filled = none;
      dbc = none;
    };
    opened_at = now;
    last_progress = now;
    receipt = none;
    counts = λ k. 0;
    first_offset = λ k. none;
    received_at = none;
  }
