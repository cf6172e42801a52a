-- ===== src/Auth/Topics.antt =====
-- services/mqtt_auth/app/main.py, `check_acl`, and `user_from_topic` of
-- ingest/kreceiver/kreceiver_proto/receiver_app.py, which trusts what the former allows.
pub mod Ownership
use robo_services.Prelude.{
  ℕ, Bool, false, true, not, ◌&&◌, ◌||◌, List, [], ◌∷◌, ◌++◌, any, is_empty, if◌then◌else◌, ◌==◌,
  nat_eq, list_eq, Option, none, some,
}
use robo_services.Prelude.Text.{Text, codes, strip_prefix, strip_end, has_code}

pub record Settings : Type 0 where
  pub mqtt_ingest_topic : Text
  pub allow_bare_ingest_topic : Bool

pub record AclCheck : Type 0 where
  pub username : Text
  pub topic : Text
  pub clientid : Text
  pub acc : ℕ

-- `_ok` and `_deny`, whose reason goes to the log and to the broker's, and the status 500 of a
-- handler that an exception leaves.
pub data Reply : Type 0 where
  allow deny server_error : Reply

abbrev pub mosq_acl_write : ℕ
mosq_acl_write = 2

abbrev pub slash : ℕ
slash = b'/'

-- `_user_topic`: none for a name with MQTT topic syntax or a NUL in it.
unfoldable pub user_topic : Settings → Text → Option Text
user_topic settings username =
    if is_empty username
      || (has_code slash username || has_code b'+' username || has_code b'#' username)
      || has_code 0 username
    then none
    else some (settings.mqtt_ingest_topic ++ (slash ∷ username))

unfoldable pub check_acl : Settings → AclCheck → Reply
check_acl settings body =
    let bare =
      if settings.allow_bare_ingest_topic && body.topic == settings.mqtt_ingest_topic
      then allow
      else deny in
    if body.acc == mosq_acl_write
    then elim (user_topic settings body.username) [
      | none ↦ bare
      | some own ↦ if body.topic == own then allow else bare
    ]
    else deny

-- The user in a per-user ingest topic.
unfoldable pub user_from_topic : Text → Text → Option Text
user_from_topic topic base = elim (strip_prefix (strip_end slash base ++ (slash ∷ [])) topic) [
  | none ↦ none
  | some user ↦ if not (is_empty user) && not (has_code slash user) then some user else none
]
