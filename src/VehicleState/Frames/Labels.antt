-- ===== src/VehicleState/Frames/Labels.antt =====
-- frames.py: what holds of each frame of the table, and the session, device and tag that a frame has.
use mathlib.Core.Path.{subst}
use robo_services.Prelude.{
  ℕ, ◌≡◌, refl, sym, List, [], ◌∷◌, arith, is_empty, nat_eq, string_eq, pair_eq, Option, none, some,
  Bool-cases, inl, inr, All,
}
use robo_services.Prelude.Dict.{Dict, get, get_or, set, pop, All-set, All-get, All-pop}
use robo_services.VehicleState.Kind.{Kind, gps, imu}
use robo_services.VehicleState.Frames.{
  Key, Message, OpenFrame, FrameTable, are_comparable, frames_of, find_frame, new_frame,
}
use robo_services.VehicleState.Frames.Ingest.{
  key_of, mark_read, take_in, touch, taken, absorb, absorb_if, frame_or_new, ingest, handle,
}
use robo_services.VehicleState.Frames.Closing.{close}
use robo_services.VehicleState.Frames.Replay.{Event, reads, closes, run, after}
use robo_services.VehicleState.Frames.Restart.{Taken, skips, takes, ingest-Taken}

module _ {F : Type 0} where
  -- A predicate of a session, a tag and a frame, of all frames of a table.
  abbrev pub AllFrames : (Key → ℕ → OpenFrame F → Type 0) → Dict Key (Dict ℕ (OpenFrame F)) → Type 0
  AllFrames P d =
      All (λ (e : Key × Dict ℕ (OpenFrame F)). All (λ (f : ℕ × OpenFrame F). P e.0 f.0 f.1) e.1) d

  -- A frame is that of its place in the table.
  abbrev pub IsLabelled : Key → ℕ → OpenFrame F → Type 0
  IsLabelled key base f =
      (f.contents.source_session ≡ key.0)
      × (f.contents.device_id ≡ key.1)
      × (f.contents.base_us ≡ base)

  AllFrames-frames_of :
      (P : Key → ℕ → OpenFrame F → Type 0) (d : Dict Key (Dict ℕ (OpenFrame F))) (key : Key)
      → AllFrames P d
      → All (λ (f : ℕ × OpenFrame F). P key f.0 f.1) (get_or d key [])
  unfolding get_or
  AllFrames-frames_of P d key h = of (get d key) refl
    where
      of :
          (o : Option (Dict ℕ (OpenFrame F)))
          → get d key ≡ o
          → All (λ (f : ℕ × OpenFrame F). P key f.0 f.1) (elim o [ none ↦ [] | some fs ↦ fs ])
      of none e = tt
      of (some fs) e =
          All-get
            (λ (e : Key × Dict ℕ (OpenFrame F)). All (λ (f : ℕ × OpenFrame F). P e.0 f.0 f.1) e.1) d
            key fs e h

  IsLabelled-absorb :
      (f : OpenFrame F) (kind : Kind) (base : ℕ) (m : Message F) (key : Key) (b : ℕ)
      → IsLabelled key b f
      → IsLabelled key b (absorb f kind base m).0
  unfolding absorb
  IsLabelled-absorb f gps base m key b h =
      (ground (arith, h.0), ground (arith, h.1), ground (arith, h.2))
  IsLabelled-absorb f imu base m key b h =
      (ground (arith, h.0), ground (arith, h.1), ground (arith, h.2))
  IsLabelled-absorb f _ base m key b h = h

  IsLabelled-taken :
      (f : OpenFrame F) (kind : Kind) (offset : ℕ) (m : Message F) (now base : ℕ) (key : Key)
      (b : ℕ)
      → IsLabelled key b f
      → IsLabelled key b (taken f kind offset m now base).0
  unfolding taken absorb_if touch
  IsLabelled-taken f kind offset m now base key b h =
      elim (Bool-cases (are_comparable m.received_at f.received_at)) [
        | inl e ↦ rw e (IsLabelled-absorb (touch f kind offset m now) kind base m key b h)
        | inr e ↦ rw e h
      ]

  IsLabelled-frame_or_new :
      (t : FrameTable F) (key : Key) (base now : ℕ)
      → AllFrames IsLabelled t.frames
      → IsLabelled key base (frame_or_new t key base now)
  unfolding frame_or_new find_frame frames_of new_frame
  IsLabelled-frame_or_new t key base now h = of (get (get_or t.frames key []) base) refl
    where
      of :
          (o : Option (OpenFrame F))
          → get (get_or t.frames key []) base ≡ o
          → IsLabelled key base (elim o [ none ↦ new_frame key base now | some f ↦ f ])
      of none e = (refl, refl, refl)
      of (some f) e =
          All-get (λ (x : ℕ × OpenFrame F). IsLabelled key x.0 x.1) (get_or t.frames key []) base f
            e (AllFrames-frames_of IsLabelled t.frames key h)

  -- A frame in place of the one of its tag, or a new one.
  AllFrames-set :
      (P : Key → ℕ → OpenFrame F → Type 0) (t : FrameTable F) (key : Key) (base : ℕ)
      (f : OpenFrame F)
      → P key base f
      → AllFrames P t.frames
      → AllFrames P (set t.frames key (set (frames_of t key) base f))
  unfolding frames_of
  AllFrames-set P t key base f new h =
      let inner =
        All-set (λ (x : ℕ × OpenFrame F). P key x.0 x.1) (get_or t.frames key []) base f
          (λ j same. subst (λ (b : ℕ). P key b f) (sym same) new)
          (AllFrames-frames_of P t.frames key h) in
      All-set (λ (e : Key × Dict ℕ (OpenFrame F)). All (λ (x : ℕ × OpenFrame F). P e.0 x.0 x.1) e.1)
        t.frames key (set (get_or t.frames key []) base f)
        (λ j same.
          subst
            (λ (k : Key).
              All (λ (x : ℕ × OpenFrame F). P k x.0 x.1) (set (get_or t.frames key []) base f))
            (sym same) inner)
        h

  -- A closing only takes frames out.
  pub AllFrames-close :
      (P : Key → ℕ → OpenFrame F → Type 0) (t : FrameTable F) (key : Key) (base : ℕ)
      → AllFrames P t.frames
      → AllFrames P (close t key base).frames
  unfolding close frames_of
  AllFrames-close P t key base h =
      let rest = pop (get_or t.frames key []) base in
      let Q =
        λ (e : Key × Dict ℕ (OpenFrame F)). All (λ (x : ℕ × OpenFrame F). P e.0 x.0 x.1) e.1 in
      let inner =
        All-pop (λ (x : ℕ × OpenFrame F). P key x.0 x.1) (get_or t.frames key []) base
          (AllFrames-frames_of P t.frames key h) in
      elim (Bool-cases (is_empty rest)) [
        | inl e ↦ rw e (All-pop Q t.frames key h)
        | inr e ↦ rw e (
            All-set Q t.frames key rest
              (λ j same.
                subst (λ (k : Key). All (λ (x : ℕ × OpenFrame F). P k x.0 x.1) rest) (sym same)
                  inner)
              h)
      ]

  IsLabelled-take_in :
      (t : FrameTable F) (kind : Kind) (offset : ℕ) (m : Message F) (now base : ℕ)
      → AllFrames IsLabelled t.frames
      → AllFrames IsLabelled (take_in t kind offset m now base).0.frames
  unfolding take_in
  IsLabelled-take_in t kind offset m now base h =
      AllFrames-set IsLabelled t (key_of m) base
        (taken (frame_or_new t (key_of m) base now) kind offset m now base).0
        (IsLabelled-taken (frame_or_new t (key_of m) base now) kind offset m now base (key_of m)
          base (IsLabelled-frame_or_new t (key_of m) base now h))
        h

  IsLabelled-ingest :
      (t : FrameTable F) (kind : Kind) (offset : ℕ) (m : Message F) (now : ℕ)
      → AllFrames IsLabelled t.frames
      → AllFrames IsLabelled (ingest t kind offset m now).0.frames
  unfolding mark_read
  IsLabelled-ingest t kind offset m now h = of (ingest-Taken t kind offset m now)
    where
      of : Taken t kind offset m now → AllFrames IsLabelled (ingest t kind offset m now).0.frames
      of (skips same last not_absorbed) = subst (AllFrames IsLabelled) (sym same) h
      of (takes base tag e) =
          subst (λ (u : FrameTable F). AllFrames IsLabelled u.frames) (sym e)
            (IsLabelled-take_in (mark_read t kind offset now) kind offset m now base h)

  pub IsLabelled-handle :
      (t : FrameTable F) (kind : Kind) (offset : ℕ) (o : Option (Message F)) (now : ℕ)
      → AllFrames IsLabelled t.frames
      → AllFrames IsLabelled (handle t kind offset o now).0.frames
  unfolding handle
  IsLabelled-handle t kind offset none now h = h
  IsLabelled-handle t kind offset (some m) now h = IsLabelled-ingest t kind offset m now h

  pub IsLabelled-run :
      (t : FrameTable F) (es : List (Event F))
      → AllFrames IsLabelled t.frames
      → AllFrames IsLabelled (run t es).frames
  unfolding run after
  IsLabelled-run t [] h = h
  IsLabelled-run t (reads kind offset m now ∷ es) h =
      IsLabelled-run (handle t kind offset m now).0 es (IsLabelled-handle t kind offset m now h)
  IsLabelled-run t (closes key base ∷ es) h =
      IsLabelled-run (close t key base) es (AllFrames-close IsLabelled t key base h)
