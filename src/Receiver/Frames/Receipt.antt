-- ===== src/Receiver/Frames/Receipt.antt =====
-- What a frame's messages are, and that its receipt counts them.
use robo_services.Prelude.{
  ℕ, zero, suc, ◌+◌, ◌≡◌, ◌≢◌, refl, ap, ◌∙◌, arith, String, false, List, [], ◌∷◌, ◌++◌, length,
  length-append, is_empty, ltb, if◌then◌else◌, ◌==◌, nat_eq, string_eq, Bool-cases, inl, inr, ok,
  ◌>>=◌, All,
}
use robo_services.Receiver.{
  Payload, ReceiverSettings, NormalizedIngressMessage, CanMessage, TelemetryFrame, Python, is_blank,
}
use robo_services.Receiver.Returns.{
  Ensures, ok-Ensures, err-Ensures, bind-Ensures, bind_with, collect-Ensures,
}
use robo_services.Receiver.Packets.{Sender}
use robo_services.Receiver.Frames.{
  range_from, gps_count, imu_count, number, frame_message, gps_message, imu_message, can_message,
  samples, receipt, receipt_payload, build_normalized_message, normalize_telemetry_frame,
}

length-range_from : (i n : ℕ) → length (range_from i n) ≡ n
length-range_from i zero = refl
length-range_from i (suc n) = omega (arith, length-range_from (suc i) n)

-- The messages of a source type
abbrev pub of_type : {F : Type 0} → String → List (NormalizedIngressMessage F) → ℕ
of_type s [] = 0
of_type s (m ∷ ms) = (if m.source_type == s then 1 else 0) + of_type s ms

of_type-append :
    {F : Type 0} (s : String) (xs ys : List (NormalizedIngressMessage F))
    → of_type s (xs ++ ys) ≡ of_type s xs + of_type s ys
of_type-append s [] ys = omega arith
of_type-append s (x ∷ xs) ys = omega (arith, of_type-append s xs ys)

of_type-All :
    {F : Type 0} (s t : String) (xs : List (NormalizedIngressMessage F))
    → All (λ (m : NormalizedIngressMessage F). m.source_type ≡ t) xs
    → of_type s xs ≡ (if t == s then length xs else 0)
of_type-All s t [] h = ground arith
of_type-All s t (x ∷ xs) h = ground (arith, ap (λ (u : String). u == s) h.0, of_type-All s t xs h.1)

of_type_sections :
    {F : Type 0} (s : String) (fixes turns messages : List (NormalizedIngressMessage F))
    → All (λ (m : NormalizedIngressMessage F). m.source_type ≡ "gps") fixes
    → All (λ (m : NormalizedIngressMessage F). m.source_type ≡ "imu") turns
    → All (λ (m : NormalizedIngressMessage F). m.source_type ≡ "can") messages
    → of_type s (fixes ++ (turns ++ messages))
      ≡ (if "gps" == s then length fixes else 0)
        + ((if "imu" == s then length turns else 0) + (if "can" == s then length messages else 0))
of_type_sections s fixes turns messages g i c = ground (
  arith,
  of_type-append s fixes (turns ++ messages),
  of_type-append s turns messages,
  of_type-All s "gps" fixes g,
  of_type-All s "imu" turns i,
  of_type-All s "can" messages c,
)

module _ {F : Type 0} (py : Python F) (sender : Sender) (settings : ReceiverSettings)
    (received_at : String) (frame : TelemetryFrame) where
  frame_message-type :
      (source_type source : String) (time : ℕ) (payload : Payload F) (message_type : String)
      → Ensures
          (λ m. m.source_type ≡ source_type)
          (frame_message py sender settings received_at frame source_type source time payload
            message_type)
  unfolding frame_message build_normalized_message
  frame_message-type source_type source time payload message_type =
      search (bind-Ensures, ok-Ensures, arith)

  gps_message-type :
      (i : ℕ)
      → Ensures (λ m. m.source_type ≡ "gps") (gps_message py sender settings received_at frame i)
  unfolding gps_message
  gps_message-type i = search (bind-Ensures, frame_message-type)

  imu_message-type :
      (i : ℕ)
      → Ensures (λ m. m.source_type ≡ "imu") (imu_message py sender settings received_at frame i)
  unfolding imu_message
  imu_message-type i = search (bind-Ensures, frame_message-type) depth 12

  can_message-type :
      (c : CanMessage)
      → Ensures (λ m. m.source_type ≡ "can") (can_message py sender settings received_at frame c)
  unfolding can_message
  can_message-type c = search frame_message-type

  -- The messages are those of the three sections, each as often as the receipt tells.
  abbrev pub Counted : List (NormalizedIngressMessage F) → Type 0
  Counted ms =
      (of_type "gps" ms ≡ gps_count frame.gps)
      × ((of_type "imu" ms ≡ imu_count frame.imu)
          × ((of_type "can" ms ≡ length frame.can)
              × (length ms ≡ gps_count frame.gps + imu_count frame.imu + length frame.can)))

  Counted-sections :
      (fixes turns messages : List (NormalizedIngressMessage F))
      → All (λ m. m.source_type ≡ "gps") fixes
        × (length fixes ≡ length (range_from 0 (gps_count frame.gps)))
      → All (λ m. m.source_type ≡ "imu") turns
        × (length turns ≡ length (range_from 0 (imu_count frame.imu)))
      → All (λ m. m.source_type ≡ "can") messages × (length messages ≡ length frame.can)
      → Counted (fixes ++ (turns ++ messages))
  Counted-sections fixes turns messages (g, g') (i, i') (c, c') =
      let part = λ (s : String). of_type_sections s fixes turns messages g i c in
      let n = length-range_from 0 (gps_count frame.gps) in
      let m = length-range_from 0 (imu_count frame.imu) in
      (
        part "gps" ∙ omega (arith, g', n),
        (
          part "imu" ∙ omega (arith, i', m),
          (
            part "can" ∙ omega (arith, c'),
            omega (
              arith,
              length-append fixes (turns ++ messages),
              length-append turns messages,
              g',
              n,
              i',
              m,
              c',
            ),
          ),
        ),
      )

  samples-Counted : Ensures Counted (samples py sender settings received_at frame)
  unfolding samples
  samples-Counted =
      bind_with _ _ (collect-Ensures _ (range_from 0 (gps_count frame.gps)) gps_message-type)
        (λ fixes g.
          bind_with _ _ (collect-Ensures _ (range_from 0 (imu_count frame.imu)) imu_message-type)
            (λ turns i. bind_with _ _ (collect-Ensures _ frame.can can_message-type) (λ messages c.
              ok-Ensures (fixes ++ (turns ++ messages))
                (Counted-sections fixes turns messages g i c))))

  frame_message-receipt :
      Ensures
        (λ m.
          (m.source_type ≡ "session")
          × ((m.message_type ≡ "frame")
              × (m.payload ≡ receipt_payload py sender settings received_at frame)))
        (frame_message py sender settings received_at frame "session"
          "race-logger-telemetry-proto:session" frame.base_timestamp_us
          (receipt_payload py sender settings received_at frame)
          "frame")
  unfolding frame_message build_normalized_message
  frame_message-receipt = search (bind-Ensures, ok-Ensures, arith)

  -- The payload of a receipt that counts some messages.
  abbrev pub counting : List (NormalizedIngressMessage F) → Payload F
  counting packets =
      ("base_timestamp_us", number frame.base_timestamp_us)
      ∷ ("gps", number (of_type "gps" packets))
      ∷ ("imu", number (of_type "imu" packets))
      ∷ ("imu_missing", number (length frame.imu.missing))
      ∷ ("can", number (of_type "can" packets))
      ∷ []

  -- The messages before the last, and the last, which is a receipt that counts them.
  pub record Receipted (ms : List (NormalizedIngressMessage F)) : Type 0 where
    pub packets : List (NormalizedIngressMessage F)
    pub last : NormalizedIngressMessage F
    pub whole : ms ≡ packets ++ (last ∷ [])
    pub is_session : last.source_type ≡ "session"
    pub is_frame : last.message_type ≡ "frame"
    pub counts : last.payload ≡ counting packets
    pub some_packets : is_empty packets ≡ false
    pub no_others :
        length packets ≡ of_type "gps" packets + of_type "imu" packets + of_type "can" packets

  counting-receipt :
      (packets : List (NormalizedIngressMessage F))
      → Counted packets
      → receipt_payload py sender settings received_at frame ≡ counting packets
  unfolding receipt_payload
  counting-receipt packets (g, (i, (c, _))) = rw (g, i, c) refl

  receipt-Receipted :
      (packets : List (NormalizedIngressMessage F))
      → frame.session_id ≢ 0
      → Counted packets
      → is_empty packets ≡ false
      → Ensures Receipted
          (receipt py sender settings received_at frame >>= λ receipts. ok (packets ++ receipts))
  unfolding receipt
  receipt-Receipted packets recording c full =
      let test : (frame.session_id == 0) ≡ false = ground (arith, recording) in
      rw test (
        bind_with _ _
          (bind_with _ _ frame_message-receipt (λ m p.
            ok-Ensures
              {P = λ ms.
                (m : NormalizedIngressMessage F) × ((ms ≡ m ∷ [])
                  × ((m.source_type ≡ "session")
                      × ((m.message_type ≡ "frame")
                          × (m.payload ≡ receipt_payload py sender settings received_at frame))))}
              (m ∷ []) (m, (refl, p))))
          (λ ms (m, (e, (s, (f, p)))). ok-Ensures _ (record {
            packets = packets;
            last = m;
            whole = ap (λ (x : List (NormalizedIngressMessage F)). packets ++ x) e;
            is_session = s;
            is_frame = f;
            counts = p ∙ counting-receipt packets c;
            some_packets = full;
            no_others = ground (arith, c);
          })))

  normalize_telemetry_frame-Ensures :
      frame.session_id ≢ 0
      → Ensures Receipted (normalize_telemetry_frame py sender settings received_at frame)
  unfolding normalize_telemetry_frame
  normalize_telemetry_frame-Ensures recording = elim (Bool-cases (is_blank frame.device_id)) [
    | inl e ↦ rw (normalize_telemetry_frame, e) (err-Ensures _)
    | inr e ↦ elim (Bool-cases (ltb 0 frame.base_timestamp_us)) [
      | inr z ↦ rw (normalize_telemetry_frame, e, z) (err-Ensures _)
      | inl z ↦
          rw (normalize_telemetry_frame, e, z)
            (bind_with _ _ samples-Counted (λ packets c. elim (Bool-cases (is_empty packets)) [
              | inl none_left ↦ rw none_left (err-Ensures _)
              | inr full ↦ rw full (receipt-Receipted packets recording c full)
            ]))
    ]
  ]

  -- A frame of a recording session that is normalized gives its samples' messages and, last, a
  -- receipt of type "frame", whose payload has the frame's time and the numbers of the GPS, IMU and
  -- CAN messages before it, of which there is one at least and which are of no other type.
  pub normalize_telemetry_frame-Receipted :
      (ms : List (NormalizedIngressMessage F))
      → frame.session_id ≢ 0
      → normalize_telemetry_frame py sender settings received_at frame ≡ ok ms
      → Receipted ms
  normalize_telemetry_frame-Receipted ms recording =
      (normalize_telemetry_frame-Ensures recording).at ms
