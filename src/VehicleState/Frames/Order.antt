-- ===== src/VehicleState/Frames/Order.antt =====
-- The offsets that frames note are offsets that have been read.
use robo_services.Prelude.{
  ℕ, ◌≤◌, ◌≡◌, refl, sym, ap, ◌∙◌, ◌&&◌, [], arith, ◌==◌, nat_eq, string_eq, pair_eq, Option, none,
  some, Bool-cases, Option-cases, inl, inr,
}
use mathlib.Core.Path.{subst}
use robo_services.Prelude.Dict.{Dict, get, get_or}
use robo_services.VehicleState.Kind.{Kind, kind_beq, kind_beq_iff, update}
use robo_services.VehicleState.Frames.{
  Key, Message, OpenFrame, FrameTable, first_seen, frames_of, find_frame,
}
use robo_services.VehicleState.Frames.Ingest.{
  key_of, mark_read, take_in, taken, frame_or_new, ingest, handle,
}
use robo_services.VehicleState.Frames.Closing.{close}
use robo_services.VehicleState.Frames.Find.{find_frame-take_in, find_frame-close}
use robo_services.VehicleState.Frames.Offsets.{IsOrdered, IsNext}
use robo_services.VehicleState.Frames.Restart.{
  Taken, skips, takes, ingest-Taken, first_offset-touched,
}

some_injective {ℓ} : {A : Type ℓ} {a b : A} → some a ≡ some b → a ≡ b
some_injective h = cc

module _ {F : Type 0} where
  pub find_frame-frames :
      (t' t : FrameTable F)
      → t'.frames ≡ t.frames
      → (key : Key) (b : ℕ) → find_frame t' key b ≡ find_frame t key b
  unfolding find_frame frames_of
  find_frame-frames t' t same key b =
      ap (λ (d : Dict Key (Dict ℕ (OpenFrame F))). get (get_or d key []) b) same

module _ {F : Type 0} (t : FrameTable F) where
  last_offset-close :
      (key : Key) (base : ℕ) (k : Kind) → (close t key base).last_offset k ≡ t.last_offset k
  unfolding close
  last_offset-close key base k = refl

  still_there :
      (key : Key) (base : ℕ) (key' : Key) (b : ℕ) {f : OpenFrame F}
      → find_frame (close t key base) key' b ≡ some f
      → find_frame t key' b ≡ some f
  still_there key base key' b h = ground (arith, find_frame-close t key base key' b)

module _ {F : Type 0} (t : FrameTable F) (ordered : IsOrdered t) where
  first_offset-frame_or_new :
      (key : Key) (base now : ℕ) (k : Kind) (n : ℕ)
      → (frame_or_new t key base now).first_offset k ≡ some n
      → (l : ℕ) × (t.last_offset k ≡ some l) × (n ≤ l)
  unfolding frame_or_new
  first_offset-frame_or_new key base now k n h = elim (Option-cases (find_frame t key base)) [
    | inl e ↦ ground arith
    | inr (f, e) ↦ ordered.ordered key base f k n e (ground arith)
  ]

  module _ (kind : Kind) (offset : ℕ) (next : IsNext t kind offset) where
    -- Both for a noted offset of an old frame and for one that the message noted.
    read_before :
        (k : Kind) (n : ℕ)
        → ((l : ℕ) × (t.last_offset k ≡ some l) × (n ≤ l))
        → (l : ℕ) × (update t.last_offset kind (some offset) k ≡ some l) × (n ≤ l)
    read_before k n (l, e, b) = elim (Bool-cases (kind_beq kind k)) [
      | inl s ↦ (offset, rw s, ground (arith, kind_beq_iff kind k, next l))
      | inr s ↦ (l, rw s e, b)
    ]

    noted_bound :
        (noted : Kind → Option ℕ) (k : Kind) (n : ℕ)
        → ((j : Kind) (i : ℕ) → noted j ≡ some i → (l : ℕ) × (t.last_offset j ≡ some l) × (i ≤ l))
        → update noted kind (some (first_seen (noted kind) offset)) k ≡ some n
        → (l : ℕ) × (update t.last_offset kind (some offset) k ≡ some l) × (n ≤ l)
    noted_bound noted k n bound h = elim (Bool-cases (kind_beq kind k)) [
      | inl s ↦ elim (Option-cases (noted kind)) [
        | inl e ↦ (offset, rw s, ground arith)
        | inr (i, e) ↦ let (l, el, b) = bound kind i e in (offset, rw s, ground (arith, next l))
      ]
      | inr s ↦ read_before k n (bound k n (rw s at h))
    ]

    IsOrdered-same :
        (t' : FrameTable F)
        → t'.frames ≡ t.frames
        → t'.last_offset ≡ update t.last_offset kind (some offset)
        → IsOrdered t'
    IsOrdered-same t' same last = record {
      ordered = λ key b f k n found first.
          let (l, e, bound) =
            read_before k n (
              ordered.ordered key b f k n (sym (find_frame-frames t' t same key b) ∙ found)
                first) in
          (l, ap (λ (g : Kind → Option ℕ). g k) last ∙ e, bound);
    }

    last_offset-take_in :
        (m : Message F) (now base : ℕ)
        → (take_in (mark_read t kind offset now) kind offset m now base).0.last_offset
          ≡ update t.last_offset kind (some offset)
    unfolding take_in mark_read
    last_offset-take_in m now base = refl

    frame_or_new-mark_read :
        (key : Key) (base now : ℕ)
        → frame_or_new (mark_read t kind offset now) key base now ≡ frame_or_new t key base now
    unfolding frame_or_new find_frame frames_of mark_read
    frame_or_new-mark_read key base now = refl

    find_frame-mark_read :
        (now : ℕ) (key : Key) (b : ℕ)
        → find_frame (mark_read t kind offset now) key b ≡ find_frame t key b
    unfolding find_frame frames_of mark_read
    find_frame-mark_read now key b = refl

    pub take_in_bound :
        (m : Message F) (now base : ℕ) (key : Key) (b : ℕ) (f : OpenFrame F) (k : Kind) (n : ℕ)
        → find_frame (take_in (mark_read t kind offset now) kind offset m now base).0 key b ≡ some f
        → f.first_offset k ≡ some n
        → (l : ℕ) × (update t.last_offset kind (some offset) k ≡ some l) × (n ≤ l)
    take_in_bound m now base key b f k n found first =
        let tm = mark_read t kind offset now in
        let old = frame_or_new t (key_of m) base now in
        let g = taken (frame_or_new tm (key_of m) base now) kind offset m now base in
        let at_key = sym (find_frame-take_in tm kind offset m now base key b) ∙ found in
        elim (Bool-cases ((key_of m == key) && (base == b))) [
          | inl e ↦
              let same : g.0 ≡ f = some_injective (rw e at at_key) in
              noted_bound old.first_offset k n (first_offset-frame_or_new (key_of m) base now) (
                subst
                  (λ (o : OpenFrame F).
                    update o.first_offset kind (some (first_seen (o.first_offset kind) offset)) k
                    ≡ some n)
                  (frame_or_new-mark_read (key_of m) base now)
                  (sym (first_offset-touched tm kind offset m now base k)
                    ∙ ap (λ (o : OpenFrame F). o.first_offset k) same
                    ∙ first))
          | inr e ↦ read_before k n (
              ordered.ordered key b f k n (sym (find_frame-mark_read now key b) ∙ rw e at at_key)
                first)
        ]

    -- Reading the next message of a topic keeps the order.
    pub IsOrdered-ingest : (m : Message F) (now : ℕ) → IsOrdered (ingest t kind offset m now).0
    IsOrdered-ingest m now = from (ingest-Taken t kind offset m now)
      where
        from : Taken t kind offset m now → IsOrdered (ingest t kind offset m now).0
        from (skips same last not_absorbed) =
            IsOrdered-same (ingest t kind offset m now).0 same last
        from (takes base tag e) = subst IsOrdered (sym e) (record {
          ordered = λ key b f k n found first.
              let (l, el, bound) = take_in_bound m now base key b f k n found first in
              (l, ap (λ (g : Kind → Option ℕ). g k) (last_offset-take_in m now base) ∙ el, bound);
        })

    pub IsOrdered-handle :
        (o : Option (Message F)) (now : ℕ) → IsOrdered (handle t kind offset o now).0
    unfolding handle
    IsOrdered-handle none now = IsOrdered-same _ refl refl
    IsOrdered-handle (some m) now = IsOrdered-ingest m now

  pub IsOrdered-close : (key : Key) (base : ℕ) → IsOrdered (close t key base)
  IsOrdered-close key base = record {
    ordered = λ key' b f k n found first.
        let (l, e, bound) =
          ordered.ordered key' b f k n (still_there t key base key' b found) first in
        (l, last_offset-close t key base k ∙ e, bound);
  }
