-- ===== src/VehicleState/Loop/Ticks.antt =====
-- main.py, `write_ready`: in every state that the service reaches, what a tick does with each open
-- frame.
use mathlib.Core.Path.{subst}
use robo_services.Prelude.{
  ℕ, ◌≡◌, sym, ap, ◌∙◌, String, Bool, true, false, List, [], ◌∷◌, ◌==◌, nat_eq, string_eq, pair_eq,
  pair_beq_iff, Option, none, some, Bool-cases, inl, inr, All,
}
use robo_services.Prelude.Dict.{Dict, get, get_or, set}
use robo_services.Signal.{FloatOps}
use robo_services.VehicleState.Frames.{Key, FrameTable}
use robo_services.VehicleState.Frames.Find.{get_or-set}
use robo_services.VehicleState.Frames.Ready.{ReadyFrame}
use robo_services.VehicleState.Store.{session_state, is_written}
use robo_services.VehicleState.Loop.{
  Service, WrittenState, Tick, new_session, read_session, with_known, with_state, write_session,
  write_sessions,
}
use robo_services.VehicleState.Loop.Found.{IsReady, AreReady}
use robo_services.VehicleState.Loop.Anchored.{HasRow, written_bases-HasRow}
use robo_services.VehicleState.Loop.Written.{Keeps}
use robo_services.VehicleState.Loop.Steps.{WasHeld, write_frames-Keeps}

module _ {F : Type 0} (ops : FloatOps F) (code : F → Option String) (stamp_us : ℕ → ℕ)
    (interval_us : ℕ) (tick : Tick F) (t₀ : FrameTable F) where
  read_session-Keeps :
      (s : Service F) (key : Key)
      → Keeps t₀ tick.now s
      → Keeps t₀ tick.now (record s {
        sessions = set s.sessions key (read_session stamp_us interval_us s.rows key);
      })
  unfolding read_session session_state
  read_session-Keeps s key h =
      (record { labelled = h.0.labelled; anchored = h.0.anchored; stored = of_key }, h.1)
    where
      of_key :
          (k : Key) (b : ℕ)
          → is_written b
              (get_or
                (set s.sessions key (read_session stamp_us interval_us s.rows key))
                k
                new_session).written
            ≡ true
          → HasRow s.rows k b
      of_key k b w =
          let state = read_session stamp_us interval_us s.rows key in
          let at =
            sym (
              ap (λ (x : WrittenState F). is_written b x.written)
                (get_or-set s.sessions key k state new_session))
            ∙ w in
          elim (Bool-cases (key == k)) [
            | inr e ↦ h.0.stored k b (rw e at at)
            | inl e ↦
                subst (λ (j : Key). HasRow s.rows j b) ((pair_beq_iff key k).0 e)
                  (written_bases-HasRow s.rows key b h.0.anchored (rw e at at))
          ]

  with_state-Keeps :
      (s : Service F) (key : Key)
      → Keeps t₀ tick.now s
      → Keeps t₀ tick.now (with_state stamp_us interval_us tick s key).0
  unfolding with_state with_known
  with_state-Keeps s key h = of (get s.sessions key)
    where
      of :
          (o : Option (WrittenState F))
          → Keeps t₀ tick.now (with_known stamp_us interval_us tick s key o).0
      of (some state) = h
      of none = elim (Bool-cases (tick.reads key)) [
        | inl e ↦ rw (with_known, e) (read_session-Keeps s key h)
        | inr e ↦ rw (with_known, e) h
      ]

  write_session-Keeps :
      (s : Service F) (key : Key) (xs : List (ReadyFrame F))
      → All (IsReady t₀ tick.now (WasHeld t₀) key) xs
      → Keeps t₀ tick.now s
      → Keeps t₀ tick.now (write_session ops code stamp_us interval_us tick s key xs).0
  unfolding write_session
  write_session-Keeps s key xs r h =
      let known = with_state-Keeps s key h in
      elim (Bool-cases (with_state stamp_us interval_us tick s key).1) [
        | inl e ↦
            rw (write_session, e) (write_frames-Keeps ops code interval_us tick t₀ _ key xs r known)
        | inr e ↦ rw (write_session, e) known
      ]

  pub write_sessions-Keeps :
      (s : Service F) (d : Dict Key (List (ReadyFrame F)))
      → AreReady t₀ tick.now (WasHeld t₀) d
      → Keeps t₀ tick.now s
      → Keeps t₀ tick.now (write_sessions ops code stamp_us interval_us tick s d).0
  unfolding write_sessions
  write_sessions-Keeps s [] r h = h
  write_sessions-Keeps s ((key, frames) ∷ d) r h =
      of (write_session ops code stamp_us interval_us tick s key frames).1
        (write_session-Keeps s key frames r.0 h)
        (write_sessions-Keeps (write_session ops code stamp_us interval_us tick s key frames).0 d
          r.1 (write_session-Keeps s key frames r.0 h))
    where
      of :
          (b : Bool)
          → Keeps t₀ tick.now (write_session ops code stamp_us interval_us tick s key frames).0
          → Keeps t₀ tick.now
              (write_sessions ops code stamp_us interval_us tick
                (write_session ops code stamp_us interval_us tick s key frames).0
                d).0
          → Keeps t₀ tick.now
              (elim b as (λ _. Service F × Bool) [
                | true ↦
                    write_sessions ops code stamp_us interval_us tick
                      (write_session ops code stamp_us interval_us tick s key frames).0
                      d
                | false ↦ write_session ops code stamp_us interval_us tick s key frames
              ]).0
      of true now later = later
      of false now later = now
