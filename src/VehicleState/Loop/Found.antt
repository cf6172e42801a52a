-- ===== src/VehicleState/Loop/Found.antt =====
-- frames.py, `ready`: what holds of all frames of the table holds of those that can close.
use robo_services.Prelude.{
  ℕ, ◌≡◌, refl, List, [], ◌∷◌, is_empty, ltb, Option, none, some, Bool-cases, inl, inr, All,
}
use robo_services.Prelude.Dict.{Dict}
use robo_services.VehicleState.Frames.{Key, OpenFrame, FrameTable}
use robo_services.VehicleState.Frames.Closing.{Status, status}
use robo_services.VehicleState.Frames.Ready.{
  ReadyFrame, insert_frame, sorted_frames, ready_in, ready_among, ready,
}
use robo_services.VehicleState.Frames.Labels.{AllFrames}

module _ {F : Type 0} (P : Key → ℕ → OpenFrame F → Type 0) where
  All-insert_frame :
      (key : Key) (x : ℕ × OpenFrame F) (fs : Dict ℕ (OpenFrame F))
      → P key x.0 x.1
      → All (λ (f : ℕ × OpenFrame F). P key f.0 f.1) fs
      → All (λ (f : ℕ × OpenFrame F). P key f.0 f.1) (insert_frame x fs)
  unfolding insert_frame
  All-insert_frame key x [] new h = (new, tt)
  All-insert_frame key x (y ∷ ys) new h = elim (Bool-cases (ltb y.0 x.0)) [
    | inl e ↦ rw e (h.0, All-insert_frame key x ys new h.1)
    | inr e ↦ rw e (new, h)
  ]

  All-sorted_frames :
      (key : Key) (fs : Dict ℕ (OpenFrame F))
      → All (λ (f : ℕ × OpenFrame F). P key f.0 f.1) fs
      → All (λ (f : ℕ × OpenFrame F). P key f.0 f.1) (sorted_frames fs)
  unfolding sorted_frames
  All-sorted_frames key [] h = tt
  All-sorted_frames key (x ∷ xs) h =
      All-insert_frame key x (sorted_frames xs) h.0 (All-sorted_frames key xs h.1)

module _ {F : Type 0} (t : FrameTable F) (now : ℕ) (P : Key → ℕ → OpenFrame F → Type 0) where
  -- A frame that can close: what holds of all, and its status.
  abbrev pub IsReady : Key → ReadyFrame F → Type 0
  IsReady key x = P key x.0.0 x.0.1 × (status t key x.0.0 x.0.1 now ≡ some x.1)

  abbrev pub AreReady : Dict Key (List (ReadyFrame F)) → Type 0
  AreReady d = All (λ (e : Key × List (ReadyFrame F)). All (IsReady e.0) e.1) d

  All-ready_in :
      (key : Key) (fs : Dict ℕ (OpenFrame F))
      → All (λ (f : ℕ × OpenFrame F). P key f.0 f.1) fs
      → All (IsReady key) (ready_in t key now fs)
  unfolding ready_in
  All-ready_in key [] h = tt
  All-ready_in key (x ∷ xs) h = of (status t key x.0 x.1 now) refl (All-ready_in key xs h.1)
    where
      of :
          (o : Option Status)
          → status t key x.0 x.1 now ≡ o
          → All (IsReady key) (ready_in t key now xs)
          → All (IsReady key) (elim o [ none ↦ [] | some st ↦ (x, st) ∷ ready_in t key now xs ])
      of none e later = tt
      of (some st) e later = ((h.0, e), later)

  All-ready_among :
      (d : Dict Key (Dict ℕ (OpenFrame F))) → AllFrames P d → AreReady (ready_among t now d)
  unfolding ready_among
  All-ready_among [] h = tt
  All-ready_among ((key, fs) ∷ d) h =
      let found = ready_in t key now (sorted_frames fs) in
      elim (Bool-cases (is_empty found)) [
        | inl e ↦ rw e (All-ready_among d h.1)
        | inr e ↦ rw e (
          All-ready_in key (sorted_frames fs) (All-sorted_frames P key fs h.0),
          All-ready_among d h.1,
        )
      ]

  pub All-ready : AllFrames P t.frames → AreReady (ready t now)
  unfolding ready
  All-ready h = All-ready_among t.frames h
