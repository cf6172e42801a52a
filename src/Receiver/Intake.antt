-- ===== src/Receiver/Intake.antt =====
-- receiver_app.py: a raw payload is taken as MessagePack, protobuf or JSON, in this order; what it
-- gives is published, and the device is registered.
pub mod Unowned
pub mod Owner
pub mod Errors
pub mod Heartbeats
use robo_services.Receiver.Outbox.{
  Receiver, frame_lags, frame_us, header_if, headers_of, heartbeat_every_s, lags_at, lags_of,
  publish_all, publish_diagnostic, publish_normalized, register_device, register_first,
}
use robo_services.Prelude.{
  ℕ, suc, ◌+◌, String, Bool, false, true, not, ◌&&◌, ◌||◌, List, [], ◌∷◌, ◌++◌, map, length, any,
  is_empty, ltb, leb, if◌then◌else◌, ◌==◌, nat_eq, string_eq, pair_eq, option_eq, Option, none,
  some, Result, ok, err, ◌>>=◌,
}
use robo_services.Prelude.Int.{ℤ, pos, ◌+ℤ◌}
use robo_services.Prelude.Text.{Text}
use robo_services.Prelude.Dict.{Dict, get, set, contains}
use robo_services.Frame.{Bytes}
use robo_services.Auth.Topics.{user_from_topic}
use robo_services.Receiver.{
  Value, null, object, entries, Payload, ReceiverSettings, NormalizedIngressMessage, many_messages,
  Raised, PacketFault, packet_error, date_out_of_range, not_serializable, not_an_int, index_error,
  is_blank, TelemetryFrame, Python, or_raise,
}
use robo_services.Receiver.Packets.{Sender, normalize_msgpack, normalize_json}
use robo_services.Receiver.Frames.{normalize_telemetry_frame}

module _ {F : Type 0} where
  -- `isinstance(candidate, dict) and {"did", "sid", "tp"} & set(candidate)`
  unfoldable pub looks_like_msgpack : Option (Value F) → Option (Payload F)
  looks_like_msgpack (some (object fields)) =
      let packet = entries fields in
      if contains packet "did" || contains packet "sid" || contains packet "tp"
      then some packet
      else none
  looks_like_msgpack _ = none

  abbrev pub single : NormalizedIngressMessage F → List (NormalizedIngressMessage F)
  single m = m ∷ []

module _ {F : Type 0} (py : Python F) (settings : ReceiverSettings) (received_at : String) where
  -- `_normalize_protobuf`: none where the payload is no frame.
  unfoldable pub normalize_protobuf :
      Bytes → Sender → Option (Result Raised (List (NormalizedIngressMessage F)))
  normalize_protobuf raw_payload sender = elim (py.parse_frame raw_payload) [
    | none ↦ none
    | some frame ↦
        if is_blank frame.device_id || frame.base_timestamp_us == 0
        then none
        else if frame.gps.count == 0 && frame.imu.count == 0 && is_empty frame.can
        then none
        else some (normalize_telemetry_frame py sender settings received_at frame)
  ]

  -- What is left where the payload is no MessagePack packet.
  unfoldable pub normalize_other :
      Bytes → Sender → Result Raised (List (NormalizedIngressMessage F))
  normalize_other raw_payload sender = elim (normalize_protobuf raw_payload sender) [
    | some packets ↦ packets
    | none ↦ normalize_json py sender settings received_at raw_payload >>= λ m. ok (single m)
  ]

  -- `normalize_packets`: a MessagePack packet that raises another exception than `PacketError` is
  -- tried as the other formats.
  unfoldable pub normalize_packets :
      Bytes → Sender → Result Raised (List (NormalizedIngressMessage F))
  normalize_packets raw_payload sender = elim (looks_like_msgpack (py.unpackb raw_payload)) [
    | none ↦ normalize_other raw_payload sender
    | some packet ↦ elim (normalize_msgpack py sender settings received_at packet) [
      | ok m ↦ ok (single m)
      | err e ↦ elim e [
        | packet_error fault ↦ err (packet_error fault)
        | _ ↦ normalize_other raw_payload sender
      ]
    ]
  ]

  abbrev pub only_message :
      List (NormalizedIngressMessage F) → Result Raised (NormalizedIngressMessage F)
  only_message (m ∷ []) = ok m
  only_message _ = err (packet_error many_messages)

  unfoldable pub normalize_packet : Bytes → Sender → Result Raised (NormalizedIngressMessage F)
  normalize_packet raw_payload sender = normalize_packets raw_payload sender >>= only_message

module _ {F : Type 0} where
  -- `replace(p, user_sub=user_sub)` for each packet, where the topic names a user.
  unfoldable pub stamp :
      Option String → List (NormalizedIngressMessage F) → List (NormalizedIngressMessage F)
  stamp none ms = ms
  stamp (some user) ms =
      map (λ (m : NormalizedIngressMessage F). record m { user_sub = some user }) ms

  -- A part of a handler that runs only where nothing was raised before it.
  abbrev pub then_do :
      Receiver F × Option Raised
      → (Receiver F → Receiver F × Option Raised)
      → Receiver F × Option Raised
  then_do (r, none) next = next r
  then_do (r, some e) next = (r, some e)

module _ {F : Type 0} where
  -- The `try` of both loops around `normalize_packets`: a `PacketError` becomes a diagnostic, and the
  -- `else` branch takes the packets. No other exception is caught.
  unfoldable pub try_packets :
      Python F
      → ReceiverSettings
      → Sender
      → Bytes
      → Receiver F
      → (List (NormalizedIngressMessage F) → Receiver F × Option Raised)
      → Result Raised (List (NormalizedIngressMessage F))
      → Receiver F × Option Raised
  try_packets py settings sender raw_payload r otherwise (ok packets) = otherwise packets
  try_packets py settings sender raw_payload r otherwise (err (packet_error fault)) =
      publish_diagnostic py settings fault sender raw_payload r
  try_packets py settings sender raw_payload r otherwise (err e) = (r, some e)

module _ {F : Type 0} (py : Python F) (settings : ReceiverSettings) where
  -- The `else` branch of `on_message`
  unfoldable pub deliver :
      List (NormalizedIngressMessage F) → ℕ → Receiver F → Receiver F × Option Raised
  deliver packets now r = then_do (publish_all py r packets) (λ r'. elim (frame_lags py packets) [
    | err e ↦ (r', some e)
    | ok lags ↦ register_first settings packets now r'
  ])

  -- The account that a topic names
  abbrev pub sub_of : Text → Option String
  sub_of topic = elim (user_from_topic topic settings.mqtt_topic) [
    | none ↦ none
    | some user ↦ some (py.of_codes user)
  ]

  -- `on_message`: the state afterwards, and the exception that leaves the callback, if any.
  unfoldable pub on_message : String → ℕ → Text → Bytes → Receiver F → Receiver F × Option Raised
  on_message received_at now topic raw_payload r =
      let sender : Sender = (settings.mqtt_host, settings.mqtt_port) in
      try_packets py settings sender raw_payload r
        (λ packets. deliver (stamp (sub_of topic) packets) now r)
        (normalize_packets py settings received_at raw_payload sender)

  -- One round of `run_receiver`, for a datagram.
  unfoldable pub on_datagram : String → ℕ → Sender → Bytes → Receiver F → Receiver F × Option Raised
  on_datagram received_at now sender raw_payload r =
      try_packets py settings sender raw_payload r
        (λ packets. then_do (publish_all py r packets) (register_first settings packets now))
        (normalize_packets py settings received_at raw_payload sender)

-- A datagram of `recvfrom`, with its sender and the times at which it is handled.
pub record Datagram : Type 0 where
  pub content : Bytes
  pub sender : Sender
  pub received_at : String
  pub now : ℕ

module _ {F : Type 0} (py : Python F) (settings : ReceiverSettings) where
  -- `run_receiver`, after `processed` datagrams: it ends after `max_packets`, by an exception, or
  -- with the datagrams that there are.
  unfoldable pub run_receiver :
      Option ℕ → ℕ → List Datagram → Receiver F → Receiver F × Option Raised
  run_receiver max_packets processed [] r = (r, none)
  run_receiver max_packets processed (d ∷ ds) r =
      let (r', e) = on_datagram py settings d.received_at d.now d.sender d.content r in
      let rest = run_receiver max_packets (suc processed) ds r' in
      elim e [
        | some raised ↦ (r', some raised)
        | none ↦ elim max_packets [
          | none ↦ rest
          | some limit ↦ if leb limit (suc processed) then (r', none) else rest
        ]
      ]
