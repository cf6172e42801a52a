-- ===== src/VehicleState/Frames/Ready/Oldest.antt =====
-- The order in which a session's frames become ready.
use robo_services.Prelude.{
  ℕ, ◌+◌, ◌≤◌, ◌≡◌, refl, ap, sym, ◌∙◌, List, [], ◌∷◌, ◌++◌, map, length, arith, ltb, is_empty,
  if◌then◌else◌, ◌==◌, nat_eq, nat_beq_iff, Option, some, Bool-cases, inl, inr,
}
use robo_services.Prelude.Dict.{Dict, get}
use robo_services.VehicleState.Kind.{Kind}
use robo_services.VehicleState.Frames.{Key, OpenFrame, FrameTable}
use robo_services.VehicleState.Frames.Closing.{open_count_in}
use robo_services.VehicleState.Frames.Ready.{
  ReadyFrame, insert_frame, sorted_frames, ready_in, ready_among, ready,
}
use robo_services.VehicleState.Frames.Ready.Waiting.{ready_in-all, ready_in-front}

length-map {ℓ} : {A B : Type ℓ} (f : A → B) (xs : List A) → length (map f xs) ≡ length xs
length-map f [] = refl
length-map f (x ∷ xs) = omega (arith, length-map f xs)

-- A lower bound of the bases, and bases that grow.
abbrev pub IsBelow : {F : Type 0} → ℕ → Dict ℕ (OpenFrame F) → Type 0
IsBelow b [] = Unit
IsBelow b (x ∷ xs) = (b ≤ x.0) × IsBelow b xs

abbrev pub IsAscending : {F : Type 0} → Dict ℕ (OpenFrame F) → Type 0
IsAscending [] = Unit
IsAscending (x ∷ xs) = IsBelow x.0 xs × IsAscending xs

module _ {F : Type 0} where
  IsBelow-trans : (a b : ℕ) (xs : Dict ℕ (OpenFrame F)) → a ≤ b → IsBelow b xs → IsBelow a xs
  IsBelow-trans a b [] h p = tt
  IsBelow-trans a b (x ∷ xs) h p = (omega (arith, h, p.0), IsBelow-trans a b xs h p.1)

  insert_frame-IsBelow :
      (b : ℕ) (x : ℕ × OpenFrame F) (ys : Dict ℕ (OpenFrame F))
      → b ≤ x.0
      → IsBelow b ys
      → IsBelow b (insert_frame x ys)
  unfolding insert_frame
  insert_frame-IsBelow b x [] h p = (h, tt)
  insert_frame-IsBelow b x (y ∷ ys) h p = elim (Bool-cases (ltb y.0 x.0)) [
    | inl e ↦ rw (insert_frame, e) (p.0, insert_frame-IsBelow b x ys h p.1)
    | inr e ↦ rw (insert_frame, e) (h, p)
  ]

  insert_frame-IsAscending :
      (x : ℕ × OpenFrame F) (ys : Dict ℕ (OpenFrame F))
      → IsAscending ys
      → IsAscending (insert_frame x ys)
  unfolding insert_frame
  insert_frame-IsAscending x [] a = (tt, tt)
  insert_frame-IsAscending x (y ∷ ys) a = elim (Bool-cases (ltb y.0 x.0)) [
    | inl e ↦
        rw (insert_frame, e)
          (insert_frame-IsBelow y.0 x ys (ground (arith, e)) a.0, insert_frame-IsAscending x ys a.1)
    | inr e ↦
        rw (insert_frame, e)
          (let le : x.0 ≤ y.0 = ground (arith, e) in ((le, IsBelow-trans x.0 y.0 ys le a.0), a))
  ]

  sorted_frames-IsAscending : (xs : Dict ℕ (OpenFrame F)) → IsAscending (sorted_frames xs)
  unfolding sorted_frames
  sorted_frames-IsAscending [] = tt
  sorted_frames-IsAscending (x ∷ xs) =
      insert_frame-IsAscending x (sorted_frames xs) (sorted_frames-IsAscending xs)

  get-insert_frame :
      (x : ℕ × OpenFrame F) (ys : Dict ℕ (OpenFrame F)) (b : ℕ)
      → get (insert_frame x ys) b ≡ (if x.0 == b then some x.1 else get ys b)
  unfolding insert_frame get
  get-insert_frame x [] b = refl
  get-insert_frame x (y ∷ ys) b =
      ground (arith, get-insert_frame x ys b, nat_beq_iff x.0 b, nat_beq_iff y.0 b)

  get-sorted_frames : (xs : Dict ℕ (OpenFrame F)) (b : ℕ) → get (sorted_frames xs) b ≡ get xs b
  unfolding sorted_frames get
  get-sorted_frames [] b = refl
  get-sorted_frames (x ∷ xs) b =
      get-insert_frame x (sorted_frames xs) b
      ∙ ap (λ (o : Option (OpenFrame F)). if x.0 == b then some x.1 else o) (get-sorted_frames xs b)

  length-insert_frame :
      (x : ℕ × OpenFrame F) (ys : Dict ℕ (OpenFrame F)) → length (insert_frame x ys) ≡ 1 + length ys
  unfolding insert_frame
  length-insert_frame x [] = refl
  length-insert_frame x (y ∷ ys) = ground (arith, length-insert_frame x ys)

  length-sorted_frames : (xs : Dict ℕ (OpenFrame F)) → length (sorted_frames xs) ≡ length xs
  unfolding sorted_frames
  length-sorted_frames [] = refl
  length-sorted_frames (x ∷ xs) =
      ground (arith, length-insert_frame x (sorted_frames xs), length-sorted_frames xs)

  abbrev pub count_ready : Dict Key (List (ReadyFrame F)) → ℕ
  count_ready [] = 0
  count_ready ((key, found) ∷ rest) = length found + count_ready rest

  module _ (t : FrameTable F) (now : ℕ) where
    -- The frames that are ready of a session's open frames are the front of those frames in the
    -- ascending order of their tags: no frame is ready before an older one of its session.
    pub ready_in-sorted_frames :
        (key : Key) (fs : Dict ℕ (OpenFrame F))
        → (later : Dict ℕ (OpenFrame F)) × ((sorted_frames fs
              ≡ map (λ (x : ReadyFrame F). x.0) (ready_in t key now (sorted_frames fs)) ++ later)
            × (IsAscending (sorted_frames fs)
                × ((base : ℕ) → get (sorted_frames fs) base ≡ get fs base)))
    ready_in-sorted_frames key fs =
        let (later, h) = ready_in-front t now key (sorted_frames fs) in
        (later, (h, (sorted_frames-IsAscending fs, get-sorted_frames fs)))

    length-ready_in :
        (key : Key) (fs : Dict ℕ (OpenFrame F))
        → ((k : Kind) → t.last_message_at k + t.grace_s ≤ now)
        → length (ready_in t key now fs) ≡ length fs
    length-ready_in key fs quiet =
        sym (length-map (λ (x : ReadyFrame F). x.0) (ready_in t key now fs))
        ∙ ap (λ (ys : Dict ℕ (OpenFrame F)). length ys) (ready_in-all t now key fs quiet)

    count_among :
        (found : List (ReadyFrame F)) (key : Key) (rest : Dict Key (List (ReadyFrame F)))
        → count_ready (if is_empty found then rest else (key, found) ∷ rest)
          ≡ length found + count_ready rest
    count_among [] key rest = omega arith
    count_among (x ∷ xs) key rest = refl

    ready_among-quiet :
        (sessions : Dict Key (Dict ℕ (OpenFrame F)))
        → ((k : Kind) → t.last_message_at k + t.grace_s ≤ now)
        → count_ready (ready_among t now sessions) ≡ open_count_in sessions
    unfolding ready_among open_count_in
    ready_among-quiet [] quiet = refl
    ready_among-quiet ((key, fs) ∷ sessions) quiet =
        let each = length-ready_in key (sorted_frames fs) quiet in
        count_among (ready_in t key now (sorted_frames fs)) key (ready_among t now sessions)
        ∙ omega (arith, each, length-sorted_frames fs, ready_among-quiet sessions quiet)

    -- No frame waits for ever: once no topic has had a message for the grace period, every open frame
    -- of every session is ready.
    pub ready_quiet :
        ((k : Kind) → t.last_message_at k + t.grace_s ≤ now)
        → count_ready (ready t now) ≡ open_count_in t.frames
    unfolding ready
    ready_quiet quiet = ready_among-quiet t.frames quiet
