-- ===== src/Receiver/Intake/Unowned.antt =====
-- What a payload is normalized to: one message at least, and none with an account.
use robo_services.Prelude.{
  ℕ, ◌≡◌, refl, arith, String, false, ltb, nat_eq, List, [], ◌∷◌, ◌++◌, is_empty, ◌==◌, string_eq,
  none, some, Option-cases, Bool-cases, inl, inr, Result, ok, err, ◌>>=◌, All, All-append,
}
use robo_services.Frame.{Bytes}
use robo_services.Receiver.{
  Payload, ReceiverSettings, NormalizedIngressMessage, Raised, packet_error, index_error,
  date_out_of_range, unhashable, not_serializable, not_an_int, parser_failure, broker_failure,
  TelemetryFrame, CanMessage, Python, is_blank,
}
use robo_services.Receiver.Returns.{
  Ensures, ok-Ensures, err-Ensures, bind-Ensures, bind_with, collect-Ensures,
}
use robo_services.Receiver.Packets.{Sender, normalize_msgpack, normalize_json, normalize_object}
use robo_services.Receiver.Frames.{
  frame_message, gps_message, imu_message, can_message, samples, receipt, build_normalized_message,
  normalize_telemetry_frame, range_from, gps_count, imu_count,
}
use robo_services.Receiver.Intake.{
  normalize_protobuf, normalize_other, normalize_packets, looks_like_msgpack, single,
}

-- A message without an account
abbrev pub IsUnowned : {F : Type 0} → NormalizedIngressMessage F → Type 0
IsUnowned m = m.user_sub ≡ none

-- The messages of a payload
abbrev pub AreUnowned : {F : Type 0} → List (NormalizedIngressMessage F) → Type 0
AreUnowned ms = All IsUnowned ms × (is_empty ms ≡ false)

AreUnowned-append :
    {F : Type 0} (xs ys : List (NormalizedIngressMessage F))
    → All IsUnowned xs
    → is_empty xs ≡ false
    → All IsUnowned ys
    → AreUnowned (xs ++ ys)
AreUnowned-append [] ys h full k = absurd (cc)
AreUnowned-append (x ∷ xs) ys h full k = (All-append IsUnowned (x ∷ xs) ys h k, refl)

module _ {F : Type 0} (py : Python F) (sender : Sender) (settings : ReceiverSettings)
    (received_at : String) where
  module _ (frame : TelemetryFrame) where
    frame_message-IsUnowned :
        (source_type source : String) (time : ℕ) (payload : Payload F) (message_type : String)
        → Ensures IsUnowned (
            frame_message py sender settings received_at frame source_type source time payload
              message_type)
    unfolding frame_message build_normalized_message
    frame_message-IsUnowned source_type source time payload message_type =
        search (bind-Ensures, ok-Ensures, arith)

    gps_message-IsUnowned :
        (i : ℕ) → Ensures IsUnowned (gps_message py sender settings received_at frame i)
    unfolding gps_message
    gps_message-IsUnowned i = search (bind-Ensures, frame_message-IsUnowned)

    imu_message-IsUnowned :
        (i : ℕ) → Ensures IsUnowned (imu_message py sender settings received_at frame i)
    unfolding imu_message
    imu_message-IsUnowned i = search (bind-Ensures, frame_message-IsUnowned) depth 12

    can_message-IsUnowned :
        (c : CanMessage) → Ensures IsUnowned (can_message py sender settings received_at frame c)
    unfolding can_message
    can_message-IsUnowned c = search frame_message-IsUnowned

    samples-IsUnowned : Ensures (All IsUnowned) (samples py sender settings received_at frame)
    unfolding samples
    samples-IsUnowned =
        bind_with _ _ (collect-Ensures _ (range_from 0 (gps_count frame.gps)) gps_message-IsUnowned)
          (λ fixes g.
            bind_with _ _
              (collect-Ensures _ (range_from 0 (imu_count frame.imu)) imu_message-IsUnowned)
              (λ turns i.
                bind_with _ _ (collect-Ensures _ frame.can can_message-IsUnowned) (λ messages c.
                  ok-Ensures (fixes ++ (turns ++ messages)) (
                    All-append IsUnowned fixes (turns ++ messages) g.0
                      (All-append IsUnowned turns messages i.0 c.0)))))

    receipt-IsUnowned : Ensures (All IsUnowned) (receipt py sender settings received_at frame)
    unfolding receipt
    receipt-IsUnowned = elim (Bool-cases (frame.session_id == 0)) [
      | inl e ↦ rw (receipt, e) (ok-Ensures [] tt)
      | inr e ↦
          rw (receipt, e)
            (bind_with _ _ (frame_message-IsUnowned _ _ _ _ _) (λ m h. ok-Ensures (m ∷ []) (h, tt)))
    ]

    normalize_telemetry_frame-AreUnowned :
        Ensures AreUnowned (normalize_telemetry_frame py sender settings received_at frame)
    unfolding normalize_telemetry_frame
    normalize_telemetry_frame-AreUnowned = elim (Bool-cases (is_blank frame.device_id)) [
      | inl e ↦ rw (normalize_telemetry_frame, e) (err-Ensures _)
      | inr e ↦ elim (Bool-cases (ltb 0 frame.base_timestamp_us)) [
        | inr z ↦ rw (normalize_telemetry_frame, e, z) (err-Ensures _)
        | inl z ↦
            rw (normalize_telemetry_frame, e, z)
              (bind_with _ _ samples-IsUnowned (λ packets h. elim (Bool-cases (is_empty packets)) [
                | inl none_left ↦ rw none_left (err-Ensures _)
                | inr full ↦ rw full (
                    bind_with _ _ receipt-IsUnowned
                      (λ receipts k. ok-Ensures _ (AreUnowned-append packets receipts h full k)))
              ]))
      ]
    ]

  normalize_msgpack-IsUnowned :
      (packet : Payload F)
      → Ensures IsUnowned (normalize_msgpack py sender settings received_at packet)
  unfolding normalize_msgpack
  normalize_msgpack-IsUnowned packet = search (bind-Ensures, ok-Ensures, arith) depth 12

  normalize_object-IsUnowned :
      (packet : Payload F)
      → Ensures IsUnowned (normalize_object py sender settings received_at packet)
  unfolding normalize_object
  normalize_object-IsUnowned packet = search (bind-Ensures, ok-Ensures, arith) depth 12

  normalize_json-IsUnowned :
      (raw : Bytes) → Ensures IsUnowned (normalize_json py sender settings received_at raw)
  unfolding normalize_json
  normalize_json-IsUnowned raw = search (bind-Ensures, normalize_object-IsUnowned) depth 12

  single-AreUnowned :
      (r : Result Raised (NormalizedIngressMessage F))
      → Ensures IsUnowned r
      → Ensures AreUnowned (r >>= λ m. ok (single m))
  single-AreUnowned r h = bind_with r _ h (λ m u. ok-Ensures (m ∷ []) ((u, tt), refl))

  -- What a payload that is a frame gives
  pub normalize_protobuf_lem :
      (raw : Bytes) (r : Result Raised (List (NormalizedIngressMessage F)))
      → normalize_protobuf py settings received_at raw sender ≡ some r
      → (frame : TelemetryFrame) × (r
          ≡ normalize_telemetry_frame py sender settings received_at frame)
  unfolding normalize_protobuf
  normalize_protobuf_lem raw r h = elim (Option-cases (py.parse_frame raw)) [
    | inl e ↦ ground (arith, e, h)
    | inr (frame, e) ↦ (frame, ground (arith, e, h))
  ]

  -- A payload is a MessagePack packet of one message, a frame, or JSON of one message.
  normalize_other-AreUnowned :
      (raw : Bytes) → Ensures AreUnowned (normalize_other py settings received_at raw sender)
  unfolding normalize_other
  normalize_other-AreUnowned raw =
      elim (Option-cases (normalize_protobuf py settings received_at raw sender)) [
        | inl e ↦ rw (normalize_other, e) (single-AreUnowned _ (normalize_json-IsUnowned raw))
        | inr (r, e) ↦
            let (frame, same) = normalize_protobuf_lem raw r e in
            rw (normalize_other, e, same) (normalize_telemetry_frame-AreUnowned frame)
      ]

  msgpack_or-AreUnowned :
      (raw : Bytes) (r : Result Raised (NormalizedIngressMessage F))
      → Ensures IsUnowned r
      → Ensures AreUnowned (elim r [
        | ok m ↦ ok (single m)
        | err e ↦ elim e [
          | packet_error fault ↦ err (packet_error fault)
          | _ ↦ normalize_other py settings received_at raw sender
        ]
      ])
  msgpack_or-AreUnowned raw (ok m) h = ok-Ensures (m ∷ []) ((h.at m refl, tt), refl)
  msgpack_or-AreUnowned raw (err (packet_error fault)) h = err-Ensures _
  msgpack_or-AreUnowned raw (err index_error) h = normalize_other-AreUnowned raw
  msgpack_or-AreUnowned raw (err date_out_of_range) h = normalize_other-AreUnowned raw
  msgpack_or-AreUnowned raw (err unhashable) h = normalize_other-AreUnowned raw
  msgpack_or-AreUnowned raw (err not_serializable) h = normalize_other-AreUnowned raw
  msgpack_or-AreUnowned raw (err not_an_int) h = normalize_other-AreUnowned raw
  msgpack_or-AreUnowned raw (err parser_failure) h = normalize_other-AreUnowned raw
  msgpack_or-AreUnowned raw (err broker_failure) h = normalize_other-AreUnowned raw

  pub normalize_packets-AreUnowned :
      (raw : Bytes) → Ensures AreUnowned (normalize_packets py settings received_at raw sender)
  unfolding normalize_packets
  normalize_packets-AreUnowned raw = elim (Option-cases (looks_like_msgpack (py.unpackb raw))) [
    | inl e ↦ rw (normalize_packets, e) (normalize_other-AreUnowned raw)
    | inr (packet, e) ↦
        rw (normalize_packets, e) (msgpack_or-AreUnowned raw _ (normalize_msgpack-IsUnowned packet))
  ]
