-- ===== src/Receiver/Frames/Bounds.antt =====
-- No column of a frame is read past its end.
use robo_services.Prelude.{
  ℕ, zero, suc, ◌+◌, ◌<◌, ◌≡◌, ◌≢◌, refl, arith, String, List, [], ◌∷◌, length, get_elem?, is_empty,
  ltb, ◌==◌, nat_eq, Option-cases, Bool-cases, inl, inr, some, Result, err,
}
use robo_services.Prelude.Int.{ℤ}
use robo_services.Receiver.{
  Payload, ReceiverSettings, Raised, index_error, date_out_of_range, GpsSection, ImuSection,
  CanMessage, TelemetryFrame, Python, or_raise, is_blank,
}
use robo_services.Receiver.Returns.{Expects, ok-Expects, err-Expects, bind-Expects}
use robo_services.Receiver.Packets.{Sender}
use robo_services.Receiver.Frames.{
  range_from, collect, at_index, gps_count, imu_count, quat_count, quat_index, fix_time,
  frame_message, gps_message, imu_message, can_message, quaternion, samples, receipt,
  normalize_telemetry_frame,
}

get_elem?-lt :
    {A : Type 0} (xs : List A) (i : ℕ) → i < length xs → (a : A) × (get_elem? xs i ≡ some a)
get_elem?-lt [] i h = absurd (omega arith)
get_elem?-lt (x ∷ xs) zero h = (x, refl)
get_elem?-lt (x ∷ xs) (suc i) h = get_elem?-lt xs i (omega arith)

at_index-Expects : {A : Type 0} (xs : List A) (i : ℕ) → i < length xs → Expects (at_index xs i)
at_index-Expects xs i h = let (a, e) = get_elem?-lt xs i h in rw e (ok-Expects a)

-- A loop over the indices below a bound
collect_range-Expects :
    {B : Type 0} (body : ℕ → Result Raised B) (n i : ℕ)
    → ((j : ℕ) → j < i + n → Expects (body j))
    → Expects (collect body (range_from i n))
unfolding collect
collect_range-Expects body zero i h = ok-Expects []
collect_range-Expects body (suc n) i h = bind-Expects _ _ (h i (omega arith)) (λ b.
    bind-Expects _ _ (collect_range-Expects body n (suc i) (λ j k. h j (omega arith)))
      (λ bs. ok-Expects (b ∷ bs)))

collect-Expects :
    {A B : Type 0} (body : A → Result Raised B) (xs : List A)
    → ((a : A) → Expects (body a))
    → Expects (collect body xs)
unfolding collect
collect-Expects body [] h = ok-Expects []
collect-Expects body (x ∷ xs) h =
    bind-Expects _ _ (h x)
      (λ b. bind-Expects _ _ (collect-Expects body xs h) (λ bs. ok-Expects (b ∷ bs)))

fix_time-Expects :
    (base : ℕ) (gps : GpsSection) (i : ℕ) → i < gps.count → Expects (fix_time base gps i)
unfolding fix_time
fix_time-Expects base gps i h = elim (Bool-cases (length gps.dt_us == gps.count)) [
  | inl e ↦
      let (dt, found) = get_elem?-lt gps.dt_us i (ground (arith, e, h)) in
      rw (fix_time, e, found) (ok-Expects (base + dt))
  | inr e ↦ rw (fix_time, e) (ok-Expects _)
]

quat_index-lt : (imu : ImuSection) (i j : ℕ) → quat_index imu i ≡ some j → j < quat_count imu
unfolding quat_index
quat_index-lt imu i j h = ground arith

module _ {F : Type 0} (py : Python F) (sender : Sender) (settings : ReceiverSettings)
    (received_at : String) (frame : TelemetryFrame) where
  iso-Expects : (t : ℤ) → Expects (or_raise (py.iso t) date_out_of_range)
  iso-Expects t = elim (Option-cases (py.iso t)) [
    | inl e ↦ rw e (err-Expects _ tt)
    | inr (s, e) ↦ rw e (ok-Expects s)
  ]

  frame_message-Expects :
      (source_type source : String) (time : ℕ) (payload : Payload F) (message_type : String)
      → Expects (
          frame_message py sender settings received_at frame source_type source time payload
            message_type)
  unfolding frame_message
  frame_message-Expects source_type source time payload message_type =
      search (bind-Expects, ok-Expects, iso-Expects)

  quaternion-Expects : (i : ℕ) → Expects (quaternion py sender settings received_at frame i)
  unfolding quaternion quat_count
  quaternion-Expects i = elim (Option-cases (quat_index frame.imu i)) [
    | inl e ↦ rw (quaternion, e) (ok-Expects _)
    | inr (j, e) ↦
        let h = quat_index-lt frame.imu i j e in
        rw (quaternion, e) (search (bind-Expects, ok-Expects, at_index-Expects, arith) depth 12)
  ]

  gps_message-Expects :
      (i : ℕ)
      → i < gps_count frame.gps
      → Expects (gps_message py sender settings received_at frame i)
  unfolding gps_message gps_count
  gps_message-Expects i h =
      search (bind-Expects, at_index-Expects, fix_time-Expects, frame_message-Expects, arith) depth
        12

  imu_message-Expects :
      (i : ℕ)
      → i < imu_count frame.imu
      → Expects (imu_message py sender settings received_at frame i)
  unfolding imu_message imu_count
  imu_message-Expects i h =
      bind-Expects _ _ (at_index-Expects frame.imu.accel_x i (omega (arith, h))) (λ accel_x.
        bind-Expects _ _ (at_index-Expects frame.imu.accel_y i (omega (arith, h))) (λ accel_y.
          bind-Expects _ _ (at_index-Expects frame.imu.accel_z i (omega (arith, h))) (λ accel_z.
            bind-Expects _ _ (at_index-Expects frame.imu.gyro_x i (omega (arith, h))) (λ gyro_x.
              bind-Expects _ _ (at_index-Expects frame.imu.gyro_y i (omega (arith, h))) (λ gyro_y.
                bind-Expects _ _ (at_index-Expects frame.imu.gyro_z i (omega (arith, h))) (λ gyro_z.
                  bind-Expects _ _ (quaternion-Expects i)
                    (λ turn. frame_message-Expects _ _ _ _ _)))))))

  can_message-Expects :
      (c : CanMessage) → Expects (can_message py sender settings received_at frame c)
  unfolding can_message
  can_message-Expects c = search frame_message-Expects

  samples-Expects : Expects (samples py sender settings received_at frame)
  unfolding samples
  samples-Expects =
      bind-Expects _ _
        (collect_range-Expects _ (gps_count frame.gps) 0
          (λ i h. gps_message-Expects i (omega (arith, h))))
        (λ fixes.
          bind-Expects _ _
            (collect_range-Expects _ (imu_count frame.imu) 0
              (λ i h. imu_message-Expects i (omega (arith, h))))
            (λ turns.
              bind-Expects _ _ (collect-Expects _ frame.can can_message-Expects)
                (λ messages. ok-Expects _)))

  receipt-Expects : Expects (receipt py sender settings received_at frame)
  unfolding receipt
  receipt-Expects = elim (Bool-cases (frame.session_id == 0)) [
    | inl e ↦ rw (receipt, e) (ok-Expects [])
    | inr e ↦
        rw (receipt, e)
          (bind-Expects _ _ (frame_message-Expects _ _ _ _ _) (λ m. ok-Expects (m ∷ [])))
  ]

  -- All that normalizing a frame raises is expected.
  pub normalize_telemetry_frame-Expects :
      Expects (normalize_telemetry_frame py sender settings received_at frame)
  unfolding normalize_telemetry_frame
  normalize_telemetry_frame-Expects = elim (Bool-cases (is_blank frame.device_id)) [
    | inl e ↦ rw (normalize_telemetry_frame, e) (err-Expects _ tt)
    | inr e ↦ elim (Bool-cases (ltb 0 frame.base_timestamp_us)) [
      | inr z ↦ rw (normalize_telemetry_frame, e, z) (err-Expects _ tt)
      | inl z ↦
          rw (normalize_telemetry_frame, e, z)
            (bind-Expects _ _ samples-Expects (λ packets. elim (Bool-cases (is_empty packets)) [
              | inl none_left ↦ rw none_left (err-Expects _ tt)
              | inr full ↦ rw full (bind-Expects _ _ receipt-Expects (λ receipts. ok-Expects _))
            ]))
    ]
  ]

  -- Normalizing a frame never reads a column past its end, whatever counts the frame claims and
  -- however long its columns are.
  pub normalize_telemetry_frame_bounds :
      normalize_telemetry_frame py sender settings received_at frame ≢ err index_error
  normalize_telemetry_frame_bounds h = normalize_telemetry_frame-Expects.at index_error h
