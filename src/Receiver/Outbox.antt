-- ===== src/Receiver/Outbox.antt =====
-- receiver_app.py: what the receiver publishes, its heartbeats to the registry, and the lags of a frame.
use robo_services.Prelude.{
  ℕ, ◌+◌, String, not, ◌&&◌, List, [], ◌∷◌, ◌++◌, ltb, if◌then◌else◌, ◌==◌, nat_eq, string_eq,
  pair_eq, option_eq, Option, none, some, Result, ok, ◌>>=◌,
}
use robo_services.Prelude.Int.{ℤ, pos, ◌+ℤ◌}
use robo_services.Prelude.Dict.{Dict, get, set}
use robo_services.Frame.{Bytes}
use robo_services.Receiver.{
  Value, null, ReceiverSettings, NormalizedIngressMessage, Raised, PacketFault, date_out_of_range,
  not_serializable, not_an_int, index_error, broker_failure, Published, normalized, diagnostic,
  Python, or_raise,
}
use robo_services.Receiver.Packets.{Sender}

-- The backend's messages in order, and the heartbeats: the last time of each device and account,
-- and all that were sent, the last first. Times are in seconds of the monotonic clock.
pub record Receiver (F : Type 0) : Type 0 where
  pub published : List (Published F)
  pub last_heartbeat : Dict (String × Option String) ℕ
  pub heartbeats : List ((String × Option String) × ℕ)

abbrev pub heartbeat_every_s : ℕ
heartbeat_every_s = 600

abbrev pub frame_us : ℕ
frame_us = 1000000

abbrev pub header_if : String → Option String → Dict String String
header_if name none = []
header_if name (some v) = (name, v) ∷ []

module _ {F : Type 0} where
  unfoldable pub headers_of : NormalizedIngressMessage F → Dict String String
  headers_of m =
      ("x-device-id", m.device_id)
      ∷ ("x-source-type", m.source_type)
      ∷ ("x-message-type", m.message_type)
      ∷ ("x-session-id", m.session_id)
      ∷ ("x-received-at", m.received_at)
      ∷ (header_if "x-user-sub" m.user_sub ++ header_if "x-captured-at" m.captured_at)

  -- `backend.publish`
  unfoldable pub publish : Python F → Published F → Receiver F → Receiver F × Option Raised
  publish py item r =
      if py.takes r.published item
      then (record r { published = r.published ++ (item ∷ []) }, none)
      else (r, some broker_failure)

  -- `publish_normalized`
  unfoldable pub publish_normalized :
      Python F → Receiver F → NormalizedIngressMessage F → Receiver F × Option Raised
  publish_normalized py r m =
      if py.can_dump m
      then publish py (normalized m.topic (headers_of m) m) r
      else (r, some not_serializable)

  -- The loop over the packets, up to the first that raises
  unfoldable pub publish_all :
      Python F → Receiver F → List (NormalizedIngressMessage F) → Receiver F × Option Raised
  publish_all py r [] = (r, none)
  publish_all py r (m ∷ ms) =
      let (r', e) = publish_normalized py r m in
      let rest = publish_all py r' ms in elim e [ none ↦ rest | some raised ↦ (r', some raised) ]

  -- `publish_diagnostic`
  unfoldable pub publish_diagnostic :
      Python F
      → ReceiverSettings
      → PacketFault
      → Sender
      → Bytes
      → Receiver F
      → Receiver F × Option Raised
  publish_diagnostic py settings fault sender raw_payload =
      publish py (diagnostic settings.diagnostics_topic "INVALID_PAYLOAD" fault sender raw_payload)

  -- `_register_device`; the request itself may fail, which is printed.
  unfoldable pub register_device :
      ReceiverSettings → String → Option String → ℕ → Receiver F → Receiver F
  register_device settings device_id user_sub now r =
      let key : String × Option String = (device_id, user_sub) in
      let sent : Receiver F = record r {
        last_heartbeat = set r.last_heartbeat key now;
        heartbeats = (key, now) ∷ r.heartbeats;
      } in
      if not settings.has_registry then r else elim (get r.last_heartbeat key) [
        | none ↦ sent
        | some last ↦ if ltb now (last + heartbeat_every_s) then r else sent
      ]

  -- The two lags of a receipt, by the end of its frame
  unfoldable pub lags_at : Python F → NormalizedIngressMessage F → ℤ → Option (F × F)
  lags_at py m end = elim (py.seconds_since m.received_at (some end)) [
    | none ↦ none
    | some upload ↦ elim (py.seconds_since m.received_at none) [
      | none ↦ none
      | some done ↦ some (py.neg upload, done)
    ]
  ]

  -- `frame_lags`, of the receipt
  unfoldable pub lags_of :
      Python F → NormalizedIngressMessage F → Option (Value F) → Result Raised (Option (F × F))
  lags_of py m none = ok none
  lags_of py m (some null) = ok none
  lags_of py m (some base) = do
    start ← or_raise (py.int_of base) not_an_int
    checked ← or_raise (py.iso (start +ℤ pos frame_us)) date_out_of_range
    ok (lags_at py m (start +ℤ pos frame_us))

  unfoldable pub frame_lags :
      Python F → List (NormalizedIngressMessage F) → Result Raised (Option (F × F))
  frame_lags py [] = ok none
  frame_lags py (m ∷ ms) =
      if m.source_type == "session" && m.message_type == "frame"
      then lags_of py m (get m.payload "base_timestamp_us")
      else frame_lags py ms

  -- `normalized_packets[0]` for the heartbeat
  unfoldable pub register_first :
      ReceiverSettings
      → List (NormalizedIngressMessage F)
      → ℕ
      → Receiver F
      → Receiver F × Option Raised
  register_first settings [] now r = (r, some index_error)
  register_first settings (m ∷ ms) now r =
      (register_device settings m.device_id m.user_sub now r, none)
