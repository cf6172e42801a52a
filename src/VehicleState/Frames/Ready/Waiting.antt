-- ===== src/VehicleState/Frames/Ready/Waiting.antt =====
-- How long a frame waits, and what a frame that is complete has got.
use robo_services.Prelude.{
  ℕ, ◌+◌, ◌≤◌, ◌≡◌, ◌≢◌, ◌↔◌, refl, ap, true, [], ◌∷◌, ◌++◌, map, arith, all, nat_eq, none, some,
  Option-cases, inl, inr,
}
use robo_services.Prelude.Dict.{Dict}
use robo_services.VehicleState.Kind.{Kind, gps, imu, can, unknown, discovery, session}
use robo_services.VehicleState.Frames.{Key, Receipt, OpenFrame, FrameTable}
use robo_services.VehicleState.Frames.Closing.{Status, complete, settled, mismatched, status}
use robo_services.VehicleState.Frames.Ready.{ReadyFrame, ready_in}

-- The frame has got what its receipt tells.
abbrev pub HasAll : {F : Type 0} → OpenFrame F → Receipt → Type 0
HasAll f r =
    (f.counts gps ≡ r.gps)
    × ((f.counts imu ≡ r.imu) × (f.counts can + f.counts unknown + f.counts discovery ≡ r.can))

module _ {F : Type 0} (t : FrameTable F) (now : ℕ) where
  settled_quiet :
      (k : Kind) (key : Key) (base : ℕ)
      → t.last_message_at k + t.grace_s ≤ now
      → settled t k key base now ≡ true
  unfolding settled
  settled_quiet k key base h = ground (arith, h)

  -- The Kinds that `mismatched` may list, all settled.
  mismatched_quiet :
      (f : OpenFrame F) (r : Receipt) (key : Key) (base : ℕ)
      → ((k : Kind) → settled t k key base now ≡ true)
      → all (λ k. settled t k key base now) (mismatched f r) ≡ true
  unfolding mismatched
  mismatched_quiet f r key base h = ground (arith, h gps, h imu, h can, h unknown, h discovery)

  not_waiting :
      (key : Key) (base : ℕ) (f : OpenFrame F)
      → ((k : Kind) → settled t k key base now ≡ true)
      → status t key base f now ≢ none
  unfolding status
  not_waiting key base f calm h = elim (Option-cases f.receipt) [
    | inl e ↦
        ground
          (arith, e, h, calm session, calm gps, calm imu, calm can, calm unknown, calm discovery)
    | inr (r, e) ↦ ground (arith, e, h, mismatched_quiet f r key base calm)
  ]

  status_quiet :
      (key : Key) (base : ℕ) (f : OpenFrame F)
      → ((k : Kind) → t.last_message_at k + t.grace_s ≤ now)
      → (st : Status) × (status t key base f now ≡ some st)
  status_quiet key base f quiet = elim (Option-cases (status t key base f now)) [
    | inl e ↦ absurd (not_waiting key base f (λ k. settled_quiet k key base (quiet k)) e)
    | inr found ↦ found
  ]

  -- A frame is complete exactly when it has a receipt and as many GPS records, IMU records and CAN
  -- records of the three kinds together as the receipt tells.
  pub status_complete :
      (key : Key) (base : ℕ) (f : OpenFrame F)
      → (status t key base f now ≡ some complete)
        ↔ ((r : Receipt) × ((f.receipt ≡ some r) × HasAll f r))
  unfolding status mismatched
  status_complete key base f = elim (Option-cases f.receipt) [
    | inl e ↦ (λ h. ground (arith, e), λ (r, (h, _)). ground (arith, e, h))
    | inr (r, e) ↦ (λ h. (r, (e, ground (arith, e))), λ (r', (h, a)). ground (arith, e, h, a))
  ]

  -- With every topic quiet, all frames are ready.
  pub ready_in-all :
      (key : Key) (fs : Dict ℕ (OpenFrame F))
      → ((k : Kind) → t.last_message_at k + t.grace_s ≤ now)
      → map (λ (x : ReadyFrame F). x.0) (ready_in t key now fs) ≡ fs
  unfolding ready_in
  ready_in-all key [] quiet = refl
  ready_in-all key (x ∷ xs) quiet =
      let (st, e) = status_quiet key x.0 x.1 quiet in
      rw (ready_in, e) (ap (λ (ys : Dict ℕ (OpenFrame F)). x ∷ ys) (ready_in-all key xs quiet))

  -- What is ready is the front of the list.
  pub ready_in-front :
      (key : Key) (fs : Dict ℕ (OpenFrame F))
      → (rest : Dict ℕ (OpenFrame F)) × (fs
          ≡ map (λ (x : ReadyFrame F). x.0) (ready_in t key now fs) ++ rest)
  unfolding ready_in
  ready_in-front key [] = ([], refl)
  ready_in-front key (x ∷ xs) = elim (Option-cases (status t key x.0 x.1 now)) [
    | inl e ↦ (x ∷ xs, rw (ready_in, e) refl)
    | inr (st, e) ↦
        let (rest, h) = ready_in-front key xs in
        (rest, rw (ready_in, e) (ap (λ (ys : Dict ℕ (OpenFrame F)). x ∷ ys) h))
  ]
