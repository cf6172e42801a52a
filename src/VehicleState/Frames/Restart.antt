-- ===== src/VehicleState/Frames/Restart.antt =====
-- Across any messages and closings, a stored offset stays below the messages of frames still open.
use robo_services.Prelude.{
  ℕ, ◌≡◌, ◌≢◌, refl, ap, ◌∙◌, not, ◌&&◌, arith, ◌==◌, nat_eq, string_eq, pair_eq, pair_beq_iff,
  Option, some, Bool-cases, Option-cases, inl, inr,
}
use robo_services.Prelude.Dict.{get}
use robo_services.VehicleState.Kind.{Kind, session, kind_beq, kind_beq_iff, update}
use robo_services.VehicleState.Frames.{
  Key, Message, OpenFrame, FrameTable, reaches, are_comparable, first_seen, find_frame,
}
use robo_services.VehicleState.Frames.Ingest.{
  absorbed, has_no_session, key_of, mark_read, take_in, touch, taken, absorb_if, frame_or_new,
  ingest,
}
use robo_services.VehicleState.Frames.Find.{find_frame-take_in}
use robo_services.VehicleState.Frames.Offsets.{Guards, first_offset-absorb}

module _ {F : Type 0} where
  -- A message that is taken in, into the frame of its tag, or else the frames stay as they were.
  pub data Taken (t : FrameTable F) (kind : Kind) (offset : ℕ) (m : Message F) (now : ℕ)
      : Type 0 where
    skips :
        (ingest t kind offset m now).0.frames ≡ t.frames
        → (ingest t kind offset m now).0.last_offset ≡ update t.last_offset kind (some offset)
        → (ingest t kind offset m now).1 ≢ absorbed
        → Taken t kind offset m now
    takes :
        (base : ℕ)
        → m.payload.base_timestamp_us ≡ some base
        → (ingest t kind offset m now).0
          ≡ (take_in (mark_read t kind offset now) kind offset m now base).0
        → Taken t kind offset m now

  pub ingest-Taken :
      (t : FrameTable F) (kind : Kind) (offset : ℕ) (m : Message F) (now : ℕ)
      → Taken t kind offset m now
  unfolding ingest mark_read
  ingest-Taken t kind offset m now = elim (Bool-cases (has_no_session m)) [
    | inl e ↦ skips (ground arith) (ground arith) (ground arith)
    | inr e ↦ elim (Bool-cases (kind_beq kind session && not (m.message_type == "frame"))) [
      | inl s ↦ skips (ground arith) (ground arith) (ground arith)
      | inr s ↦ elim (Option-cases m.payload.base_timestamp_us) [
        | inl u ↦ skips (ground arith) (ground arith) (ground arith)
        | inr (base, u) ↦ elim (Bool-cases (reaches (get t.closed_upto (key_of m)) base)) [
          | inl l ↦ skips (ground arith) (ground arith) (ground arith)
          | inr l ↦ takes base u (ground arith)
        ]
      ]
    ]
  ]

  module _ (t : FrameTable F) (kind : Kind) (offset : ℕ) (m : Message F) (now base : ℕ) where
    first_offset-taken :
        (f : OpenFrame F)
        → (taken f kind offset m now base).0.first_offset
          ≡ update f.first_offset kind (some (first_seen (f.first_offset kind) offset))
    unfolding taken absorb_if touch
    first_offset-taken f = elim (Bool-cases (are_comparable m.received_at f.received_at)) [
      | inl e ↦ rw e (first_offset-absorb (touch f kind offset m now) kind base m)
      | inr e ↦ rw e refl
    ]

    pub first_offset-touched :
        (k : Kind)
        → (taken (frame_or_new t (key_of m) base now) kind offset m now base).0.first_offset k
          ≡ update
              (frame_or_new t (key_of m) base now).first_offset
              kind
              (some (first_seen ((frame_or_new t (key_of m) base now).first_offset kind) offset))
              k
    first_offset-touched k =
        ap (λ (g : Kind → Option ℕ). g k) (first_offset-taken (frame_or_new t (key_of m) base now))

    frame_or_new-found :
        {f : OpenFrame F}
        → find_frame t (key_of m) base ≡ some f
        → frame_or_new t (key_of m) base now ≡ f
    unfolding frame_or_new
    frame_or_new-found h = ground arith

    update-first_seen :
        (noted : Kind → Option ℕ) (k : Kind) (n : ℕ)
        → noted k ≡ some n
        → update noted kind (some (first_seen (noted kind) offset)) k ≡ some n
    update-first_seen noted k n h = ground (arith, kind_beq_iff kind k)

    pub Guards-take_in :
        (k : Kind) (o : ℕ) (key : Key) (b : ℕ)
        → Guards t k o key b
        → Guards (take_in t kind offset m now base).0 k o key b
    Guards-take_in k o key b g = elim (Bool-cases ((key_of m == key) && (base == b))) [
      | inl e ↦
          let same : find_frame t (key_of m) base ≡ some g.frame =
            ground (arith, g.found, pair_beq_iff (key_of m) key) in
          record {
            frame = (taken (frame_or_new t (key_of m) base now) kind offset m now base).0;
            found = find_frame-take_in t kind offset m now base key b ∙ rw e refl;
            first = g.first;
            noted =
                first_offset-touched k
                ∙ rw (frame_or_new-found same)
                    (update-first_seen g.frame.first_offset k g.first g.noted);
            not_after = g.not_after;
          }
      | inr e ↦ record {
        frame = g.frame;
        found = find_frame-take_in t kind offset m now base key b ∙ rw e g.found;
        first = g.first;
        noted = g.noted;
        not_after = g.not_after;
      }
    ]
