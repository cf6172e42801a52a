-- ===== src/VehicleState/Frames/Replay.antt =====
-- Any run of messages and closings: what is stored never passes a message of a frame that is open.
use robo_services.Prelude.{
  ℕ, ◌<◌, ◌≡◌, refl, sym, ap, ◌∙◌, false, ◌&&◌, List, [], ◌∷◌, arith, ◌==◌, ==_refl, nat_eq,
  string_eq, pair_eq, Option, none, some,
}
use mathlib.Core.Path.{subst}
use robo_services.Prelude.Dict.{get, get_or}
use robo_services.VehicleState.Kind.{Kind, kind_beq_iff}
use robo_services.VehicleState.Frames.{
  Key, Message, FrameTable, new_table, first_seen, frames_of, find_frame,
}
use robo_services.VehicleState.Frames.Ingest.{
  absorbed, mark_read, take_in, key_of, taken, frame_or_new, ingest, handle,
}
use robo_services.VehicleState.Frames.Closing.{close, commit_offset}
use robo_services.VehicleState.Frames.Find.{find_frame-take_in, find_frame-close}
use robo_services.VehicleState.Frames.Offsets.{Guards, IsOrdered, IsNext, commit_offset-lt}
use robo_services.VehicleState.Frames.Restart.{
  Taken, skips, takes, ingest-Taken, first_offset-touched, Guards-take_in,
}
use robo_services.VehicleState.Frames.Order.{
  find_frame-frames, IsOrdered-handle, IsOrdered-close, take_in_bound,
}

-- What happens to the table: a record is handled, or a frame is closed.
pub data Event (F : Type 0) : Type 0 where
  reads : Kind → ℕ → Option (Message F) → ℕ → Event F
  closes : Key → ℕ → Event F

module _ {F : Type 0} where
  unfoldable pub after : FrameTable F → Event F → FrameTable F
  after t (reads kind offset o now) = (handle t kind offset o now).0
  after t (closes key base) = close t key base

  unfoldable pub run : FrameTable F → List (Event F) → FrameTable F
  run t [] = t
  run t (e ∷ es) = run (after t e) es

  -- No event of the list closes the frame.
  abbrev pub NeverCloses : Key → ℕ → List (Event F) → Type 0
  NeverCloses key base [] = Unit
  NeverCloses key base (reads kind offset o now ∷ es) = NeverCloses key base es
  NeverCloses key base (closes k b ∷ es) =
      (((k == key) && (b == base)) ≡ false) × NeverCloses key base es

  -- Each topic is read at ever greater offsets.
  abbrev pub InOrder : FrameTable F → List (Event F) → Type 0
  InOrder t [] = Unit
  InOrder t (reads kind offset o now ∷ es) =
      IsNext t kind offset × InOrder (after t (reads kind offset o now)) es
  InOrder t (closes key base ∷ es) = InOrder (after t (closes key base)) es

  module _ (k : Kind) (o : ℕ) (key : Key) (b : ℕ) where
    Guards-frames :
        (t' t : FrameTable F) → t'.frames ≡ t.frames → Guards t k o key b → Guards t' k o key b
    Guards-frames t' t same g = record {
      frame = g.frame;
      found = find_frame-frames t' t same key b ∙ g.found;
      first = g.first;
      noted = g.noted;
      not_after = g.not_after;
    }

    frames-mark_read :
        (t : FrameTable F) (kind : Kind) (offset now : ℕ)
        → (mark_read t kind offset now).frames ≡ t.frames
    unfolding mark_read
    frames-mark_read t kind offset now = refl

    Guards-ingest :
        (t : FrameTable F) (kind : Kind) (offset : ℕ) (m : Message F) (now : ℕ)
        → Guards t k o key b
        → Guards (ingest t kind offset m now).0 k o key b
    Guards-ingest t kind offset m now g = from (ingest-Taken t kind offset m now)
      where
        from : Taken t kind offset m now → Guards (ingest t kind offset m now).0 k o key b
        from (skips same last n) = Guards-frames (ingest t kind offset m now).0 t same g
        from (takes base tag e) =
            subst (λ (u : FrameTable F). Guards u k o key b) (sym e)
              (Guards-take_in (mark_read t kind offset now) kind offset m now base k o key b (
                Guards-frames (mark_read t kind offset now) t (frames-mark_read t kind offset now)
                  g))

    Guards-handle :
        (t : FrameTable F) (kind : Kind) (offset : ℕ) (m : Option (Message F)) (now : ℕ)
        → Guards t k o key b
        → Guards (handle t kind offset m now).0 k o key b
    unfolding handle
    Guards-handle t kind offset none now g = Guards-frames _ t refl g
    Guards-handle t kind offset (some m) now g = Guards-ingest t kind offset m now g

    Guards-close :
        (t : FrameTable F) (key' : Key) (b' : ℕ)
        → ((key' == key) && (b' == b)) ≡ false
        → Guards t k o key b
        → Guards (close t key' b') k o key b
    Guards-close t key' b' other g = record {
      frame = g.frame;
      found = find_frame-close t key' b' key b ∙ rw other g.found;
      first = g.first;
      noted = g.noted;
      not_after = g.not_after;
    }

    Guards-run :
        (t : FrameTable F) (es : List (Event F))
        → NeverCloses key b es
        → Guards t k o key b
        → Guards (run t es) k o key b
    unfolding run after
    Guards-run t [] h g = g
    Guards-run t (reads kind offset m now ∷ es) h g =
        Guards-run (handle t kind offset m now).0 es h (Guards-handle t kind offset m now g)
    Guards-run t (closes key' b' ∷ es) h g =
        Guards-run (close t key' b') es h.1 (Guards-close t key' b' h.0 g)

  IsOrdered-run :
      (t : FrameTable F) (es : List (Event F)) → IsOrdered t → InOrder t es → IsOrdered (run t es)
  unfolding run after
  IsOrdered-run t [] h o = h
  IsOrdered-run t (reads kind offset m now ∷ es) h o =
      IsOrdered-run (handle t kind offset m now).0 es (IsOrdered-handle t h kind offset o.0 m now)
        o.1
  IsOrdered-run t (closes key base ∷ es) h o =
      IsOrdered-run (close t key base) es (IsOrdered-close t h key base) o

  IsOrdered-new_table : (grace_s : ℕ) → IsOrdered (new_table {F = F} grace_s)
  unfolding new_table find_frame frames_of get get_or
  IsOrdered-new_table grace_s = record { ordered = λ key b f k n found first. cc found }

  module _ (t : FrameTable F) (kind : Kind) (offset : ℕ) (m : Message F) (now base : ℕ) where
    Guards-take_in_self :
        IsOrdered t
        → IsNext t kind offset
        → Guards
            (take_in (mark_read t kind offset now) kind offset m now base).0
            kind
            offset
            (key_of m)
            base
    Guards-take_in_self h next =
        let tm = mark_read t kind offset now in
        let old = frame_or_new tm (key_of m) base now in
        let f = (taken old kind offset m now base).0 in
        let there : find_frame (take_in tm kind offset m now base).0 (key_of m) base ≡ some f =
          find_frame-take_in tm kind offset m now base (key_of m) base
          ∙ rw (==_refl (key_of m), ==_refl base) refl in
        let noted : f.first_offset kind ≡ some (first_seen (old.first_offset kind) offset) =
          first_offset-touched tm kind offset m now base kind
          ∙ ground (arith, kind_beq_iff kind kind) in
        let (l, e, bound) =
          take_in_bound t h kind offset next m now base (key_of m) base f kind
            (first_seen (old.first_offset kind) offset) there noted in
        record {
          frame = f;
          found = there;
          first = first_seen (old.first_offset kind) offset;
          noted = noted;
          not_after = ground (arith, e, bound, kind_beq_iff kind kind);
        }

    -- A message that was just absorbed is guarded in the frame of its tag.
    absorbed-Guards :
        IsOrdered t
        → IsNext t kind offset
        → m.payload.base_timestamp_us ≡ some base
        → (ingest t kind offset m now).1 ≡ absorbed
        → Guards (ingest t kind offset m now).0 kind offset (key_of m) base
    absorbed-Guards h next tag took = from (ingest-Taken t kind offset m now)
      where
        from :
            Taken t kind offset m now
            → Guards (ingest t kind offset m now).0 kind offset (key_of m) base
        from (skips same last not_absorbed) = absurd (not_absorbed took)
        from (takes base' tag' e) =
            let same : base' ≡ base = ground (arith, tag, tag') in
            subst (λ (u : FrameTable F). Guards u kind offset (key_of m) base)
              (sym (
                e
                ∙ ap (λ (b : ℕ). (take_in (mark_read t kind offset now) kind offset m now b).0)
                    same))
              (Guards-take_in_self h next)

  -- A message that the table absorbs into the frame of its tag, whatever was read and closed before,
  -- stays above the offset that may be stored for its topic as long as that frame is not closed,
  -- whatever else is read or closed; the topics are read at ever greater offsets.
  pub commit_offset-run :
      (grace_s : ℕ) (earlier later : List (Event F)) (kind : Kind) (offset : ℕ) (m : Message F)
      (now base : ℕ) {c : ℕ}
      → InOrder (new_table grace_s) earlier
      → IsNext (run (new_table grace_s) earlier) kind offset
      → m.payload.base_timestamp_us ≡ some base
      → (ingest (run (new_table grace_s) earlier) kind offset m now).1 ≡ absorbed
      → NeverCloses (key_of m) base later
      → commit_offset
          (run (ingest (run (new_table grace_s) earlier) kind offset m now).0 later)
          kind
        ≡ some c
      → c < offset
  commit_offset-run grace_s earlier later kind offset m now base o next tag took open_still h =
      let t = run (new_table grace_s) earlier in
      let ordered = IsOrdered-run (new_table grace_s) earlier (IsOrdered-new_table grace_s) o in
      let t' = (ingest t kind offset m now).0 in
      commit_offset-lt (run t' later) kind offset (key_of m) base
        (Guards-run kind offset (key_of m) base t' later open_still
          (absorbed-Guards t kind offset m now base ordered next tag took))
        h
