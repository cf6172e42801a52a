-- ===== src/Receiver/Routes.antt =====
-- Where a JSON payload goes: the phone's session events never reach a sensor's topic.
use robo_services.Prelude.{◌≡◌, refl, ap, String, Bool, true, ok}
use robo_services.Prelude.Text.{codes, has_sub}
use robo_services.Frame.{Bytes}
use robo_services.Receiver.{
  Payload, ReceiverSettings, NormalizedIngressMessage, Python, lower, infer_source_type,
  topic_for_source_type,
}
use robo_services.Receiver.Returns.{Ensures, ok-Ensures, bind-Ensures}
use robo_services.Receiver.Packets.{Sender, normalize_json, normalize_object}

-- `"session" in source.lower()`
abbrev pub names_session : String → Bool
names_session source = has_sub (codes "session") (lower (codes source))

infer_source_type-session :
    (source : String) → names_session source ≡ true → infer_source_type source ≡ "session"
unfolding infer_source_type
infer_source_type-session source h = rw (h) refl

-- A session's message is on the session's topic.
abbrev IsRouted : {F : Type 0} → ReceiverSettings → NormalizedIngressMessage F → Type 0
IsRouted settings m =
    names_session m.source ≡ true → (m.source_type ≡ "session") × (m.topic ≡ settings.session_topic)

topic_for_source_type-session :
    (source : String) (settings : ReceiverSettings)
    → names_session source ≡ true
    → (infer_source_type source ≡ "session")
      × (topic_for_source_type (infer_source_type source) settings ≡ settings.session_topic)
unfolding topic_for_source_type
topic_for_source_type-session source settings h = (
  infer_source_type-session source h,
  ap (λ kind. topic_for_source_type kind settings) (infer_source_type-session source h),
)

module _ {F : Type 0} (py : Python F) (sender : Sender) (settings : ReceiverSettings)
    (received_at : String) where
  normalize_object-IsRouted :
      (packet : Payload F)
      → Ensures (IsRouted settings) (normalize_object py sender settings received_at packet)
  unfolding normalize_object
  normalize_object-IsRouted packet =
      search (bind-Ensures, ok-Ensures, topic_for_source_type-session) depth 12

  normalize_json-IsRouted :
      (raw : Bytes)
      → Ensures (IsRouted settings) (normalize_json py sender settings received_at raw)
  unfolding normalize_json
  normalize_json-IsRouted raw = search (bind-Ensures, normalize_object-IsRouted) depth 12

  -- A JSON payload whose source names a session, in whatever case and with whatever else, is of the
  -- source type "session" and goes to the session's topic.
  pub normalize_json_lem :
      (raw : Bytes) (m : NormalizedIngressMessage F)
      → normalize_json py sender settings received_at raw ≡ ok m
      → names_session m.source ≡ true
      → (m.source_type ≡ "session") × (m.topic ≡ settings.session_topic)
  normalize_json_lem raw m h named = (normalize_json-IsRouted raw).at m h named
