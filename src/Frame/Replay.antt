-- ===== src/Frame/Replay.antt =====
-- src/can_pub_sub_probe/replay.py: the frames of a log, with the pauses between them.
use robo_services.Prelude.{
  ℕ, ◌-◌, ◌≤◌, ◌≡◌, ◌<◌, ◌⊎◌, inl, inr, refl, ap, arith, false, List, [], ◌∷◌, ◌++◌, ltb,
  if◌then◌else◌, Option, none, some, Bool-cases,
}
use robo_services.Frame.{RawFrame}
use robo_services.Signal.{FloatOps}

-- The `ValueError`s
pub data ReplayError : Type 0 where
  speed_not_positive decreasing_timestamps : ReplayError

-- What the generator yields, how long it sleeps between, and what it raises in the end, if anything.
pub record Replayed (F : Type 0) : Type 0 where
  pub yielded : List RawFrame
  pub slept : List F
  pub raised : Option ReplayError

module _ {F : Type 0} (ops : FloatOps F) (speed_multiplier : F) where
  -- `gap_seconds / speed_multiplier`, for a gap in milliseconds
  abbrev pub pause : ℕ → F
  pause gap_ms = ops.div (ops.div (ops.decimal gap_ms 0) (ops.decimal 1000 0)) speed_multiplier

  -- The loop, from the timestamp of the previous frame on
  unfoldable pub replay_from : Option ℕ → List RawFrame → Replayed F
  replay_from previous [] = record { yielded = []; slept = []; raised = none }
  replay_from none (frame ∷ frames) =
      let rest = replay_from (some frame.timestamp_ms) frames in
      record rest { yielded = frame ∷ rest.yielded }
  replay_from (some previous) (frame ∷ frames) =
      let rest = replay_from (some frame.timestamp_ms) frames in
      if ltb frame.timestamp_ms previous
      then record { yielded = []; slept = []; raised = some decreasing_timestamps }
      else record rest {
        yielded = frame ∷ rest.yielded;
        slept = pause (frame.timestamp_ms - previous) ∷ rest.slept;
      }

  unfoldable pub replay_frames : List RawFrame → Replayed F
  replay_frames frames =
      if ops.le speed_multiplier (ops.decimal 0 0)
      then record { yielded = []; slept = []; raised = some speed_not_positive }
      else replay_from none frames

  -- The seconds between frames over the speed, after a frame of that time
  abbrev pub pauses : Option ℕ → List RawFrame → List F
  pauses previous [] = []
  pauses none (frame ∷ frames) = pauses (some frame.timestamp_ms) frames
  pauses (some previous) (frame ∷ frames) =
      ops.div (ops.div (ops.decimal (frame.timestamp_ms - previous) 0) (ops.decimal 1000 0))
        speed_multiplier
      ∷ pauses (some frame.timestamp_ms) frames

-- No timestamp is below the one before.
abbrev pub IsOrdered : Option ℕ → List RawFrame → Type 0
IsOrdered previous [] = Unit
IsOrdered none (frame ∷ frames) = IsOrdered (some frame.timestamp_ms) frames
IsOrdered (some previous) (frame ∷ frames) =
    (previous ≤ frame.timestamp_ms) × IsOrdered (some frame.timestamp_ms) frames

-- The first frame that is left has a timestamp below that of the last one before.
abbrev pub GoesBack : Option ℕ → List RawFrame → List RawFrame → Type 0
GoesBack previous (frame ∷ frames) left = GoesBack (some frame.timestamp_ms) frames left
GoesBack previous [] [] = ⊥
GoesBack none [] (frame ∷ left) = ⊥
GoesBack (some previous) [] (frame ∷ left) = frame.timestamp_ms < previous

-- A front of the frames, replayed to its end
pub record IsReplayed {F : Type 0} (ops : FloatOps F) (speed_multiplier : F) (previous : Option ℕ)
    (frames : List RawFrame) (r : Replayed F) : Type 0 where
  pub left : List RawFrame
  pub front : frames ≡ r.yielded ++ left
  pub ordered : IsOrdered previous r.yielded
  pub paused : r.slept ≡ pauses ops speed_multiplier previous r.yielded
  pub ending :
      ((r.raised ≡ none) × (left ≡ []))
      ⊎ ((r.raised ≡ some decreasing_timestamps) × GoesBack previous r.yielded left)

module _ {F : Type 0} (ops : FloatOps F) (speed_multiplier : F) where
  replay_from-IsReplayed :
      (previous : Option ℕ) (frames : List RawFrame)
      → IsReplayed ops speed_multiplier previous frames
          (replay_from ops speed_multiplier previous frames)
  unfolding replay_from
  replay_from-IsReplayed previous [] = record {
    left = [];
    front = refl;
    ordered = tt;
    paused = refl;
    ending = inl (refl, refl);
  }
  replay_from-IsReplayed none (frame ∷ frames) =
      let h = replay_from-IsReplayed (some frame.timestamp_ms) frames in
      record {
        left = h.left;
        front = ap (λ fs. frame ∷ fs) h.front;
        ordered = h.ordered;
        paused = h.paused;
        ending = h.ending;
      }
  replay_from-IsReplayed (some previous) (frame ∷ frames) =
      elim (Bool-cases (ltb frame.timestamp_ms previous)) [
        | inl e ↦ rw (e) (record {
          left = frame ∷ frames;
          front = refl;
          ordered = tt;
          paused = refl;
          ending = inr (refl, ground (arith, e));
        })
        | inr e ↦
            let h = replay_from-IsReplayed (some frame.timestamp_ms) frames in
            rw (e) (record {
              left = h.left;
              front = ap (λ fs. frame ∷ fs) h.front;
              ordered = (ground (arith, e), h.ordered);
              paused =
                  ap (λ ps. pause ops speed_multiplier (frame.timestamp_ms - previous) ∷ ps)
                    h.paused;
              ending = h.ending;
            })
      ]

  -- With a positive speed, a replay yields a front of the frames, in order, whose timestamps never go
  -- back, and sleeps exactly for the seconds between each two of them, which are the milliseconds over
  -- 1000, over the speed; it yields all, or it raises at the first frame whose timestamp goes back.
  pub replay_frames-IsReplayed :
      (frames : List RawFrame)
      → ops.le speed_multiplier (ops.decimal 0 0) ≡ false
      → IsReplayed ops speed_multiplier none frames (replay_frames ops speed_multiplier frames)
  unfolding replay_frames
  replay_frames-IsReplayed frames positive = rw (positive) (replay_from-IsReplayed none frames)
