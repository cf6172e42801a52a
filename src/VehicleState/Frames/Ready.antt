-- ===== src/VehicleState/Frames/Ready.antt =====
-- frames.py, `ready`: per session, the frames that can close now, the oldest first, up to the first
-- that cannot.
pub mod Waiting
pub mod Oldest
use robo_services.Prelude.{
  ℕ, Bool, true, false, List, [], ◌∷◌, ltb, is_empty, if◌then◌else◌, Option, none, some,
}
use robo_services.Prelude.Dict.{Dict}
use robo_services.VehicleState.Frames.{Key, OpenFrame, FrameTable}
use robo_services.VehicleState.Frames.Closing.{Status, status}

abbrev pub ReadyFrame : Type 0 → Type 0
ReadyFrame F = (ℕ × OpenFrame F) × Status

module _ {F : Type 0} where
  -- `sorted(frames)`, with the frames
  unfoldable pub insert_frame : ℕ × OpenFrame F → Dict ℕ (OpenFrame F) → Dict ℕ (OpenFrame F)
  insert_frame x [] = x ∷ []
  insert_frame x (y ∷ ys) =
      let rest = insert_frame x ys in if ltb y.0 x.0 then y ∷ rest else x ∷ y ∷ ys

  unfoldable pub sorted_frames : Dict ℕ (OpenFrame F) → Dict ℕ (OpenFrame F)
  sorted_frames [] = []
  sorted_frames (x ∷ xs) = insert_frame x (sorted_frames xs)

  -- The inner loop, with its `break`.
  unfoldable pub ready_in : FrameTable F → Key → ℕ → Dict ℕ (OpenFrame F) → List (ReadyFrame F)
  ready_in t key now [] = []
  ready_in t key now (x ∷ xs) =
      let later = ready_in t key now xs in
      elim (status t key x.0 x.1 now) [ none ↦ [] | some st ↦ (x, st) ∷ later ]

  unfoldable pub ready_among :
      FrameTable F → ℕ → Dict Key (Dict ℕ (OpenFrame F)) → Dict Key (List (ReadyFrame F))
  ready_among t now [] = []
  ready_among t now ((key, frames) ∷ sessions) =
      let rest = ready_among t now sessions in
      let found = ready_in t key now (sorted_frames frames) in
      if is_empty found then rest else (key, found) ∷ rest

  unfoldable pub ready : FrameTable F → ℕ → Dict Key (List (ReadyFrame F))
  ready t now = ready_among t now t.frames
