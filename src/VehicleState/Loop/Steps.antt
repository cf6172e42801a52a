-- ===== src/VehicleState/Loop/Steps.antt =====
-- main.py, `write_ready`: the inner loop keeps what holds between two ticks.
use robo_services.Prelude.{
  ℕ, ◌+◌, ◌≡◌, refl, ap, ◌∙◌, String, true, List, [], ◌∷◌, arith, ltb, nat_eq, string_eq, pair_eq,
  Option, none, some, Bool-cases, inl, inr, All, Result, ok, err,
}
use robo_services.Prelude.Dict.{get_or}
use robo_services.Signal.{FloatOps}
use robo_services.VehicleState.Frames.{Key, OpenFrame, FrameTable}
use robo_services.VehicleState.Frames.Closing.{Status, complete, incomplete, empty}
use robo_services.VehicleState.Frames.Labels.{IsLabelled}
use robo_services.VehicleState.Frames.Ready.{ReadyFrame}
use robo_services.VehicleState.Roles.{RowFault}
use robo_services.VehicleState.Rows.{Carry, Row, build_rows}
use robo_services.VehicleState.Registry.{SessionInfo, no_info}
use robo_services.VehicleState.Store.{is_written}
use robo_services.VehicleState.Loop.{
  Service, Tick, Turn, goes_on, waits, raises, is_complete, is_empty_frame, new_session,
  with_session, frame_length_us, unknown_session_wait_s, store_rows, write_rows, write_answered,
  close_counted, write_frame, write_frames,
}
use robo_services.VehicleState.Loop.Found.{IsReady}
use robo_services.VehicleState.Loop.Anchored.{build_rows-AreRowsFrom}
use robo_services.VehicleState.Loop.Written.{Holds, Keeps, close-Keeps, upsert_rows-Keeps}

is_empty_frame_lem : (s : Status) → is_empty_frame s ≡ true → s ≡ empty
is_empty_frame_lem complete h = absurd (cc)
is_empty_frame_lem incomplete h = absurd (cc)
is_empty_frame_lem empty h = refl

module _ {F : Type 0} (t₀ : FrameTable F) where
  -- What is known of a frame of the start.
  abbrev pub WasHeld : Key → ℕ → OpenFrame F → Type 0
  WasHeld key base f = IsLabelled key base f × Holds t₀.frames key base f

module _ {F : Type 0} (ops : FloatOps F) (code : F → Option String) (interval_us : ℕ)
    (tick : Tick F) (t₀ : FrameTable F) where
  store_rows-Keeps :
      (s : Service F) (key : Key) (base : ℕ) (frame : OpenFrame F) (st : Status) (i : SessionInfo F)
      (r : Result RowFault (List (Row F) × Carry F))
      → IsLabelled key base frame
      → build_rows ops code frame.contents interval_us i.roles
          (is_complete st)
          (get_or s.sessions key new_session).carry
          frame_length_us
        ≡ r
      → Keeps t₀ tick.now s
      → Keeps t₀ tick.now (store_rows ops code interval_us tick s key base frame st i r).0
  unfolding store_rows
  store_rows-Keeps s key base frame st i (err e) mine built h = h
  store_rows-Keeps s key base frame st i (ok (rows, carry)) mine built h =
      let stored = with_session frame i (tick.written_at key base) rows in
      let made =
        build_rows-AreRowsFrom ops code interval_us i.roles (is_complete st) key base frame i
          (tick.written_at key base) mine (get_or s.sessions key new_session).carry frame_length_us
          rows carry (omega arith) built in
      elim (Bool-cases (tick.accepts stored)) [
        | inr refused ↦ rw (store_rows, refused) h
        | inl taken ↦
            rw (store_rows, taken)
              (upsert_rows-Keeps t₀ tick.now s _ key base stored carry made refl refl refl h)
      ]

  write_answered-Keeps :
      (s : Service F) (key : Key) (base : ℕ) (frame : OpenFrame F) (st : Status)
      (answer : Result RowFault (Option (SessionInfo F)))
      → IsLabelled key base frame
      → Keeps t₀ tick.now s
      → Keeps t₀ tick.now (write_answered ops code interval_us tick s key base frame st answer).0
  unfolding write_answered write_rows
  write_answered-Keeps s key base frame st (err e) mine h = h
  write_answered-Keeps s key base frame st (ok none) mine h =
      elim (Bool-cases (ltb tick.now (frame.opened_at + unknown_session_wait_s))) [
        | inl e ↦ rw (write_answered, e) h
        | inr e ↦
            rw (write_answered, e) (store_rows-Keeps s key base frame st no_info _ mine refl h)
      ]
  write_answered-Keeps s key base frame st (ok (some i)) mine h =
      store_rows-Keeps s key base frame st i _ mine refl h

  write_frame-Keeps :
      (s : Service F) (key : Key) (x : ReadyFrame F)
      → IsReady t₀ tick.now (WasHeld t₀) key x
      → Keeps t₀ tick.now s
      → Keeps t₀ tick.now (write_frame ops code interval_us tick s key x).0
  unfolding write_frame close_counted
  write_frame-Keeps s key ((base, frame), st) r h =
      elim (Bool-cases (is_written base (get_or s.sessions key new_session).written)) [
        | inl e ↦
            rw (write_frame, e)
              (close-Keeps t₀ tick.now s _ key base refl refl refl (inl (h.0.stored key base e)) h)
        | inr e ↦ elim (Bool-cases (is_empty_frame st)) [
          | inl f ↦
              rw (write_frame, e, f)
                (close-Keeps t₀ tick.now s _ key base refl refl refl
                  (inr (frame, r.0.1, r.1 ∙ ap (λ (o : Status). some o) (is_empty_frame_lem st f)))
                  h)
          | inr f ↦
              rw (write_frame, e, f)
                (write_answered-Keeps _ key base frame st _ r.0.0 (
                  record { labelled = h.0.labelled; anchored = h.0.anchored; stored = h.0.stored },
                  h.1,
                ))
        ]
      ]

  pub write_frames-Keeps :
      (s : Service F) (key : Key) (xs : List (ReadyFrame F))
      → All (IsReady t₀ tick.now (WasHeld t₀) key) xs
      → Keeps t₀ tick.now s
      → Keeps t₀ tick.now (write_frames ops code interval_us tick s key xs).0
  unfolding write_frames
  write_frames-Keeps s key [] r h = h
  write_frames-Keeps s key (x ∷ xs) r h =
      of (write_frame ops code interval_us tick s key x).1 (write_frame-Keeps s key x r.0 h) (
        write_frames-Keeps (write_frame ops code interval_us tick s key x).0 key xs r.1
          (write_frame-Keeps s key x r.0 h))
    where
      of :
          (o : Turn)
          → Keeps t₀ tick.now (write_frame ops code interval_us tick s key x).0
          → Keeps t₀ tick.now
              (write_frames ops code interval_us tick
                (write_frame ops code interval_us tick s key x).0
                key
                xs).0
          → Keeps t₀ tick.now
              (elim o as (λ _. Service F × Turn) [
                | goes_on ↦
                    write_frames ops code interval_us tick
                      (write_frame ops code interval_us tick s key x).0
                      key
                      xs
                | waits ↦ ((write_frame ops code interval_us tick s key x).0, goes_on)
                | raises ↦ ((write_frame ops code interval_us tick s key x).0, raises)
              ]).0
      of goes_on now later = later
      of waits now later = now
      of raises now later = now
