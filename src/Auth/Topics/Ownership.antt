-- ===== src/Auth/Topics/Ownership.antt =====
-- A write that the broker allows is taken by kreceiver as the writer's own, or as nobody's.
use robo_services.Prelude.{
  ◌≡◌, ◌⊎◌, refl, ap, ◌∙◌, true, not, ◌&&◌, [], ◌∷◌, ◌++◌, arith, is_empty, if◌then◌else◌, nat_eq,
  list_eq, list_beq_iff, none, some, Option-cases, inl, inr,
}
use mathlib.Core.List.{append_assoc}
use robo_services.Prelude.Text.{Text, strip_prefix, strip_end, has_code, strip_prefix-append}
use robo_services.Auth.Topics.{
  Settings, AclCheck, allow, mosq_acl_write, slash, user_topic, check_acl, user_from_topic,
}

user_from_topic_found :
    (topic base user : Text)
    → strip_end slash base ≡ base
    → strip_prefix (base ++ (slash ∷ [])) topic ≡ some user
    → user_from_topic topic base
      ≡ (if not (is_empty user) && not (has_code slash user) then some user else none)
unfolding user_from_topic
user_from_topic_found topic base user plain found = rw (user_from_topic, plain, found) refl

-- A name that `user_topic` takes comes back from the topic that it makes.
user_from_topic-user_topic :
    (s : Settings) (username own : Text)
    → strip_end slash s.mqtt_ingest_topic ≡ s.mqtt_ingest_topic
    → user_topic s username ≡ some own
    → user_from_topic own s.mqtt_ingest_topic ≡ some username
unfolding user_topic
user_from_topic-user_topic s username own plain h =
    let split : own ≡ (s.mqtt_ingest_topic ++ (slash ∷ [])) ++ username =
      ground (arith, append_assoc s.mqtt_ingest_topic (slash ∷ []) username) in
    let found : strip_prefix (s.mqtt_ingest_topic ++ (slash ∷ [])) own ≡ some username =
      ap (strip_prefix (s.mqtt_ingest_topic ++ (slash ∷ []))) split
      ∙ strip_prefix-append (s.mqtt_ingest_topic ++ (slash ∷ [])) username in
    ground (arith, user_from_topic_found own s.mqtt_ingest_topic username plain found)

-- No topic is longer than itself.
strip_prefix_self : (t : Text) → strip_prefix (t ++ (slash ∷ [])) t ≡ none
strip_prefix_self [] = refl
strip_prefix_self (c ∷ t) = ground (arith, strip_prefix_self t)

user_from_topic_bare :
    (base : Text) → strip_end slash base ≡ base → user_from_topic base base ≡ none
unfolding user_from_topic
user_from_topic_bare base plain = rw (user_from_topic, plain, strip_prefix_self base) refl

-- Where the ingest topic does not end in a slash: what the ACL check allows is a write, and
-- kreceiver reads from its topic the account that the broker authenticated, or, where the bare
-- topic is open and the topic is that one, no account.
pub check_acl-user_from_topic :
    (s : Settings) (body : AclCheck)
    → strip_end slash s.mqtt_ingest_topic ≡ s.mqtt_ingest_topic
    → check_acl s body ≡ allow
    → (body.acc ≡ mosq_acl_write)
      × ((user_from_topic body.topic s.mqtt_ingest_topic ≡ some body.username)
          ⊎ ((s.allow_bare_ingest_topic ≡ true)
              × (body.topic ≡ s.mqtt_ingest_topic)
              × (user_from_topic body.topic s.mqtt_ingest_topic ≡ none)))
unfolding check_acl
check_acl-user_from_topic s body plain h = elim (Option-cases (user_topic s body.username)) [
  | inl absent ↦ ground (
    arith,
    absent,
    list_beq_iff body.topic s.mqtt_ingest_topic,
    user_from_topic_bare s.mqtt_ingest_topic plain,
  )
  | inr (own, found) ↦ ground (
    arith,
    found,
    list_beq_iff body.topic own,
    list_beq_iff body.topic s.mqtt_ingest_topic,
    user_from_topic-user_topic s body.username own plain found,
    user_from_topic_bare s.mqtt_ingest_topic plain,
  )
]
