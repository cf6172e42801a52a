-- ===== src/Receiver/Intake/Owner.antt =====
-- Under whose account the messages of an MQTT message are published.
use robo_services.Prelude.{
  ℕ, ◌≡◌, ◌⊎◌, refl, ap, sym, ◌∙◌, arith, String, true, List, [], ◌∷◌, ◌++◌, Option, none, some,
  Option-cases, Bool-cases, inl, inr, Result, ok, err, All, All-append,
}
use mathlib.Core.Path.{subst}
use mathlib.Core.List.{append_assoc, append-nil}
use robo_services.Prelude.Text.{Text, strip_end}
use robo_services.Frame.{Bytes}
use robo_services.Auth.Topics.{Settings, AclCheck, allow, check_acl, user_from_topic, slash}
use robo_services.Auth.Topics.Ownership.{check_acl-user_from_topic}
use robo_services.Receiver.{
  ReceiverSettings, NormalizedIngressMessage, PacketFault, Raised, packet_error, index_error,
  date_out_of_range, unhashable, not_serializable, not_an_int, parser_failure, broker_failure,
  Published, normalized, diagnostic, Python,
}
use robo_services.Receiver.Returns.{Ensures}
use robo_services.Receiver.Packets.{Sender}
use robo_services.Receiver.Outbox.{
  Receiver, publish, publish_normalized, publish_all, publish_diagnostic, register_device,
  register_first, frame_lags, headers_of,
}
use robo_services.Receiver.Intake.{stamp, deliver, on_message, sub_of, then_do, try_packets}
use robo_services.Receiver.Intake.Unowned.{IsUnowned, AreUnowned, normalize_packets-AreUnowned}

-- A message is of this account; a diagnostic is of none.
abbrev pub IsOf : {F : Type 0} → Option String → Published F → Type 0
IsOf user (normalized topic headers m) = m.user_sub ≡ user
IsOf user (diagnostic topic reason fault sender raw) = Unit

-- What a handler has published, all of it under one account.
pub record Adds {F : Type 0} (user : Option String) (r r' : Receiver F) : Type 0 where
  pub added : List (Published F)
  pub grows : r'.published ≡ r.published ++ added
  pub owned : All (IsOf user) added

module _ {F : Type 0} (user : Option String) where
  Adds-none : (r r' : Receiver F) → r'.published ≡ r.published → Adds user r r'
  Adds-none r r' e = record { added = []; grows = e ∙ sym (append-nil r.published); owned = tt }

  Adds-same :
      (r r' r'' : Receiver F) → r''.published ≡ r'.published → Adds user r r' → Adds user r r''
  Adds-same r r' r'' e a = record { added = a.added; grows = e ∙ a.grows; owned = a.owned }

  Adds-trans : (r r' r'' : Receiver F) → Adds user r r' → Adds user r' r'' → Adds user r r''
  Adds-trans r r' r'' a b = record {
    added = a.added ++ b.added;
    grows =
        b.grows
        ∙ (ap (λ (x : List (Published F)). x ++ b.added) a.grows
            ∙ append_assoc r.published a.added b.added);
    owned = All-append (IsOf user) a.added b.added a.owned b.owned;
  }

module _ {F : Type 0} (py : Python F) where
  publish-Adds :
      (user : Option String) (item : Published F) (r : Receiver F)
      → IsOf user item
      → Adds user r (publish py item r).0
  unfolding publish
  publish-Adds user item r h = elim (Bool-cases (py.takes r.published item)) [
    | inl e ↦ rw (publish, e) (record { added = item ∷ []; grows = refl; owned = (h, tt) })
    | inr e ↦ rw (publish, e) (Adds-none user r r refl)
  ]

  publish_normalized-Adds :
      (user : Option String) (r : Receiver F) (m : NormalizedIngressMessage F)
      → m.user_sub ≡ user
      → Adds user r (publish_normalized py r m).0
  unfolding publish_normalized
  publish_normalized-Adds user r m h = elim (Bool-cases (py.can_dump m)) [
    | inl e ↦
        rw (publish_normalized, e) (publish-Adds user (normalized m.topic (headers_of m) m) r h)
    | inr e ↦ rw (publish_normalized, e) (Adds-none user r r refl)
  ]

  publish_all-Adds :
      (user : Option String) (r : Receiver F) (ms : List (NormalizedIngressMessage F))
      → All (λ m. m.user_sub ≡ user) ms
      → Adds user r (publish_all py r ms).0
  unfolding publish_all
  publish_all-Adds user r [] h = Adds-none user r r refl
  publish_all-Adds user r (m ∷ ms) h =
      let first = publish_normalized-Adds user r m h.0 in
      let r' = (publish_normalized py r m).0 in
      elim (Option-cases (publish_normalized py r m).1) [
        | inl e ↦
            rw (publish_all, e) (Adds-trans user r r' _ first (publish_all-Adds user r' ms h.1))
        | inr (x, e) ↦ rw (publish_all, e) first
      ]

stamp-user :
    {F : Type 0} (user : Option String) (ms : List (NormalizedIngressMessage F))
    → All IsUnowned ms
    → All (λ (m : NormalizedIngressMessage F). m.user_sub ≡ user) (stamp user ms)
unfolding stamp
stamp-user none [] h = tt
stamp-user (some u) [] h = tt
stamp-user none (m ∷ ms) h = h
stamp-user (some u) (m ∷ ms) h = (refl, stamp-user (some u) ms h.1)

module _ {F : Type 0} (settings : ReceiverSettings) where
  register_device-published :
      (device : String) (user : Option String) (now : ℕ) (r : Receiver F)
      → (register_device settings device user now r).published ≡ r.published
  unfolding register_device
  register_device-published device user now r = ground arith

  register_first-published :
      (ms : List (NormalizedIngressMessage F)) (now : ℕ) (r : Receiver F)
      → (register_first settings ms now r).0.published ≡ r.published
  unfolding register_first
  register_first-published [] now r = refl
  register_first-published (m ∷ ms) now r = register_device-published m.device_id m.user_sub now r

  -- What comes after the messages publishes nothing.
  after_publishing :
      (py : Python F) (user : Option String) (r : Receiver F)
      (ms : List (NormalizedIngressMessage F)) (now : ℕ) (done : Receiver F × Option Raised)
      (lags : Result Raised (Option (F × F)))
      → Adds user r done.0
      → Adds user r
          (then_do done
            (λ r'. elim lags [ err e ↦ (r', some e) | ok l ↦ register_first settings ms now r' ])).0
  after_publishing py user r ms now (r', some e) lags a = a
  after_publishing py user r ms now (r', none) (err e) a = a
  after_publishing py user r ms now (r', none) (ok l) a =
      Adds-same user r r' _ (register_first-published ms now r') a

module _ {F : Type 0} (py : Python F) (settings : ReceiverSettings) where
  deliver-Adds :
      (user : Option String) (ms : List (NormalizedIngressMessage F)) (now : ℕ) (r : Receiver F)
      → All (λ m. m.user_sub ≡ user) ms
      → Adds user r (deliver py settings ms now r).0
  unfolding deliver
  deliver-Adds user ms now r h =
      after_publishing settings py user r ms now (publish_all py r ms) (frame_lags py ms)
        (publish_all-Adds py user r ms h)

  diagnostic-Adds :
      (user : Option String) (fault : PacketFault) (sender : Sender) (raw : Bytes) (r : Receiver F)
      → Adds user r (publish_diagnostic py settings fault sender raw r).0
  unfolding publish_diagnostic
  diagnostic-Adds user fault sender raw r =
      publish-Adds py user
        (diagnostic settings.diagnostics_topic "INVALID_PAYLOAD" fault sender raw) r tt

  try_packets-Adds :
      (user : Option String) (now : ℕ) (raw : Bytes) (r : Receiver F) (sender : Sender)
      (result : Result Raised (List (NormalizedIngressMessage F)))
      → Ensures AreUnowned result
      → Adds user r
          (try_packets py settings sender raw r
            (λ packets. deliver py settings (stamp user packets) now r)
            result).0
  unfolding try_packets
  try_packets-Adds user now raw r sender (ok packets) h =
      deliver-Adds user (stamp user packets) now r (stamp-user user packets (h.at packets refl).0)
  try_packets-Adds user now raw r sender (err (packet_error fault)) h =
      diagnostic-Adds user fault sender raw r
  try_packets-Adds user now raw r sender (err index_error) h = Adds-none user r r refl
  try_packets-Adds user now raw r sender (err date_out_of_range) h = Adds-none user r r refl
  try_packets-Adds user now raw r sender (err unhashable) h = Adds-none user r r refl
  try_packets-Adds user now raw r sender (err not_serializable) h = Adds-none user r r refl
  try_packets-Adds user now raw r sender (err not_an_int) h = Adds-none user r r refl
  try_packets-Adds user now raw r sender (err parser_failure) h = Adds-none user r r refl
  try_packets-Adds user now raw r sender (err broker_failure) h = Adds-none user r r refl

  -- What `on_message` publishes is under the account that the topic names.
  on_message-Adds :
      (received_at : String) (now : ℕ) (topic : Text) (raw : Bytes) (r : Receiver F)
      → Adds (sub_of py settings topic) r (on_message py settings received_at now topic raw r).0
  unfolding on_message
  on_message-Adds received_at now topic raw r =
      try_packets-Adds (sub_of py settings topic) now raw r (settings.mqtt_host, settings.mqtt_port)
        _
        (normalize_packets-AreUnowned py (settings.mqtt_host, settings.mqtt_port) settings
          received_at raw)

  sub_of_found :
      (s : Settings) (body : AclCheck)
      → s.mqtt_ingest_topic ≡ settings.mqtt_topic
      → (user : Option Text) → user_from_topic body.topic s.mqtt_ingest_topic ≡ user
      → sub_of py settings body.topic ≡ elim user [ none ↦ none | some u ↦ some (py.of_codes u) ]
  sub_of_found s body same user h =
      ap (λ (o : Option Text). elim o [ none ↦ none | some u ↦ some (py.of_codes u) ])
        (ap (user_from_topic body.topic) (sym same) ∙ h)

  -- Where the broker's check allows the write, for a topic that does not end in a slash and that
  -- both services are configured with: all messages that the receiver publishes for it carry the
  -- account that the broker authenticated; or, where the bare topic is open and the write is to it,
  -- all carry none. What the payload says of an account has no part in it.
  pub on_message-check_acl :
      (s : Settings) (body : AclCheck) (received_at : String) (now : ℕ) (raw : Bytes)
      (r : Receiver F)
      → strip_end slash settings.mqtt_topic ≡ settings.mqtt_topic
      → s.mqtt_ingest_topic ≡ settings.mqtt_topic
      → check_acl s body ≡ allow
      → Adds
          (some (py.of_codes body.username))
          r
          (on_message py settings received_at now body.topic raw r).0
        ⊎ ((s.allow_bare_ingest_topic ≡ true)
            × ((body.topic ≡ settings.mqtt_topic)
                × Adds none r (on_message py settings received_at now body.topic raw r).0))
  on_message-check_acl s body received_at now raw r plain same allowed =
      let adds = on_message-Adds received_at now body.topic raw r in
      let r' = (on_message py settings received_at now body.topic raw r).0 in
      let plain' : strip_end slash s.mqtt_ingest_topic ≡ s.mqtt_ingest_topic =
        subst (λ t. strip_end slash t ≡ t) (sym same) plain in
      elim (check_acl-user_from_topic s body plain' allowed).1 [
        | inl own ↦ inl (
            subst (λ (u : Option String). Adds u r r')
              (sub_of_found s body same (some body.username) own) adds)
        | inr (bare, there, nobody) ↦ inr (
          bare,
          (
            there ∙ same,
            subst (λ (u : Option String). Adds u r r') (sub_of_found s body same none nobody) adds,
          ),
        )
      ]
