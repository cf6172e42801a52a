-- ===== src/VehicleState/Loop/Reached.antt =====
-- main.py, `run`: the states that the service reaches by reading messages, by ticks and by restarts.
use robo_services.Prelude.{ℕ, String, List, [], ◌∷◌, Option, inl, All}
use robo_services.Prelude.Dict.{Dict, get, get_or}
use robo_services.Signal.{FloatOps}
use robo_services.VehicleState.Kind.{Kind}
use robo_services.VehicleState.Frames.{Key, Message, OpenFrame, FrameTable, new_table}
use robo_services.VehicleState.Frames.Ingest.{handle}
use robo_services.VehicleState.Frames.Labels.{AllFrames, IsLabelled, IsLabelled-handle}
use robo_services.VehicleState.Frames.Ready.{ready}
use robo_services.VehicleState.Store.{RowTable}
use robo_services.VehicleState.Loop.{Service, RunCounts, Tick, write_ready}
use robo_services.VehicleState.Loop.Found.{All-ready}
use robo_services.VehicleState.Loop.Written.{IsSound, Accounts, Holds, AllFrames-Holds, Keeps}
use robo_services.VehicleState.Loop.Steps.{WasHeld}
use robo_services.VehicleState.Loop.Ticks.{write_sessions-Keeps}

All-both {ℓ} :
    {A : Type ℓ} (P Q : A → Type 0) (xs : List A) → All P xs → All Q xs → All (λ x. P x × Q x) xs
All-both P Q [] h k = tt
All-both P Q (x ∷ xs) h k = ((h.0, k.0), All-both P Q xs h.1 k.1)

abbrev pub no_counts : RunCounts
no_counts = record { replayed = 0; empty = 0; complete = 0; incomplete = 0; rows = 0 }

module _ {F : Type 0} where
  -- `run`, when it starts: what is in the database is all there is.
  unfoldable pub started : ℕ → RowTable F → Service F
  started grace_s rows = record {
    table = new_table grace_s;
    sessions = [];
    cache = [];
    rows = rows;
    counts = no_counts;
  }

  -- `handle`, for the service.
  unfoldable pub read_message : Service F → Kind → ℕ → Option (Message F) → ℕ → Service F
  read_message s kind offset m now = record s { table = (handle s.table kind offset m now).0 }

  IsSound-started : (grace_s : ℕ) (s : Service F) → IsSound s → IsSound (started grace_s s.rows)
  unfolding started new_table get_or get
  IsSound-started grace_s s h = record {
    labelled = tt;
    anchored = h.anchored;
    stored = λ key base w. absurd (cc);
  }

  IsSound-first : (grace_s : ℕ) → IsSound (started grace_s [])
  unfolding started new_table get_or get
  IsSound-first grace_s = record {
    labelled = tt;
    anchored = tt;
    stored = λ key base w. absurd (cc);
  }

  IsSound-read_message :
      (s : Service F) (kind : Kind) (offset : ℕ) (m : Option (Message F)) (now : ℕ)
      → IsSound s
      → IsSound (read_message s kind offset m now)
  unfolding read_message
  IsSound-read_message s kind offset m now h = record {
    labelled = IsLabelled-handle s.table kind offset m now h.labelled;
    anchored = h.anchored;
    stored = h.stored;
  }

  AllFrames-WasHeld :
      (t : FrameTable F) → AllFrames IsLabelled t.frames → AllFrames (WasHeld t) t.frames
  AllFrames-WasHeld t h = both t.frames h (AllFrames-Holds t.frames)
    where
      both :
          (d : Dict Key (Dict ℕ (OpenFrame F)))
          → AllFrames IsLabelled d
          → AllFrames (Holds t.frames) d
          → AllFrames (WasHeld t) d
      both [] h k = tt
      both ((key, fs) ∷ d) h k = (
        All-both (λ (x : ℕ × OpenFrame F). IsLabelled key x.0 x.1)
            (λ (x : ℕ × OpenFrame F). Holds t.frames key x.0 x.1) fs h.0 k.0,
        both d h.1 k.1,
      )

module _ {F : Type 0} (ops : FloatOps F) (code : F → Option String) (stamp_us : ℕ → ℕ)
    (interval_us : ℕ) where
  write_ready-Keeps :
      (tick : Tick F) (s : Service F)
      → IsSound s
      → Keeps s.table tick.now (write_ready ops code stamp_us interval_us tick s).0
  unfolding write_ready
  write_ready-Keeps tick s h =
      write_sessions-Keeps ops code stamp_us interval_us tick s.table s (ready s.table tick.now)
        (All-ready s.table tick.now (WasHeld s.table) (AllFrames-WasHeld s.table h.labelled))
        (h, λ key base f found. inl found)

  -- The states that the service reaches, the database being empty at first.
  pub data Reached : Service F → Type 0 where
    first : (grace_s : ℕ) → Reached (started grace_s [])
    reads :
        (s : Service F) (kind : Kind) (offset : ℕ) (m : Option (Message F)) (now : ℕ)
        → Reached s
        → Reached (read_message s kind offset m now)
    ticks :
        (s : Service F) (tick : Tick F)
        → Reached s
        → Reached (write_ready ops code stamp_us interval_us tick s).0
    restarts : (s : Service F) (grace_s : ℕ) → Reached s → Reached (started grace_s s.rows)

  Reached-IsSound : (s : Service F) → Reached s → IsSound s
  Reached-IsSound s (first grace_s) = IsSound-first grace_s
  Reached-IsSound s (reads s₀ kind offset m now r) =
      IsSound-read_message s₀ kind offset m now (Reached-IsSound s₀ r)
  Reached-IsSound s (ticks s₀ tick r) = (write_ready-Keeps tick s₀ (Reached-IsSound s₀ r)).0
  Reached-IsSound s (restarts s₀ grace_s r) = IsSound-started grace_s s₀ (Reached-IsSound s₀ r)

  -- In every state that the service reaches from an empty database by reading messages, by ticks and
  -- by restarts, a tick, whatever the database and the registry answer, leaves each frame that is
  -- open either open with the same contents, or with a row in the database of its session and device
  -- at the time of its tag, or closed as empty.
  pub write_ready-Accounts :
      (s : Service F) (tick : Tick F)
      → Reached s
      → Accounts s.table tick.now (write_ready ops code stamp_us interval_us tick s).0
  write_ready-Accounts s tick r = (write_ready-Keeps tick s (Reached-IsSound s r)).1
