-- ===== src/Sessions.antt =====
-- services/registry/app/services/sessions.py, `derive_state`: what the registry shows of a session.
-- Times are in seconds. Rounded percentages are a type with the two values that the code makes.
pub mod Hearing
use robo_services.Prelude.{
  ℕ, ◌+◌, ◌*◌, Bool, true, false, ltb, leb, min, max, if◌then◌else◌, nat_beq, Option, none, some,
}

abbrev pub unterminated_after : ℕ
unterminated_after = 30 * 60

pub data State : Type 0 where
  complete incomplete unterminated open_now : State

pub record SessionState (F : Type 0) : Type 0 where
  pub state : State
  pub completeness_pct : Option F

-- `max(…, default=None)` of the times that are there
abbrev pub latest : Option ℕ → Option ℕ → Option ℕ
latest none b = b
latest (some a) none = some a
latest (some a) (some b) = some (max a b)

module _ {F : Type 0} (percent : ℕ → ℕ → F) (hundred : F) where
  -- `percent k n` is `round(k * 100.0 / n, 1)`.
  unfoldable pub completeness : Option ℕ → ℕ → Option F
  completeness none received = none
  completeness (some expected) received =
      if nat_beq expected 0 then some hundred else some (percent (min received expected) expected)

-- `frames_expected is not None and frames_received >= frames_expected`
unfoldable pub has_all_frames : Option ℕ → ℕ → Bool
has_all_frames none received = false
has_all_frames (some expected) received = leb expected received

unfoldable pub state_of : Option ℕ → Option ℕ → ℕ → Option ℕ → Option ℕ → ℕ → State
state_of (some t) expected received started last now =
    if has_all_frames expected received then complete else incomplete
state_of none expected received started last now = elim (latest last started) [
  | none ↦ unterminated
  | some heard ↦ if ltb (heard + unterminated_after) now then unterminated else open_now
]

module _ {F : Type 0} (percent : ℕ → ℕ → F) (hundred : F) where
  unfoldable pub derive_state : Option ℕ → Option ℕ → ℕ → Option ℕ → Option ℕ → ℕ → SessionState F
  derive_state ended_at frames_expected frames_received started_at last_frame_received_at now =
      record {
        state =
            state_of ended_at frames_expected frames_received started_at last_frame_received_at now;
        completeness_pct = completeness percent hundred frames_expected frames_received;
      }
