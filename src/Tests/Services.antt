-- ===== src/Tests/Services.antt =====
-- The watchdog and the broker's checks.
use robo_services.Prelude.{
  ℕ, ◌+◌, ◌≡◌, ◌<◌, ◌⊎◌, ◌↔◌, inl, refl, sym, ap, ◌∙◌, true, false, [], ◌∷◌, arith, String, ◌==◌,
  string_eq, Option, none, some, ok, All, ltb, if◌then◌else◌,
}
use robo_services.Prelude.Text.{codes}
use robo_services.Prelude.Dict.{get, set}
use robo_services.Watchdog.{Dog, count, watch}
use robo_services.Watchdog.Stalls.{Before, watch-Stuck}
use robo_services.Auth.Topics.{
  Settings, AclCheck, allow, deny, mosq_acl_write, check_acl, user_topic, user_from_topic,
}
use robo_services.Auth.Topics.Ownership.{check_acl-user_from_topic}
use robo_services.Auth.Keys.{Lookup, UploadKey, lookup, lookups, fetch, time_to_live}
use robo_services.Auth.Keys.Revocation.{no_key}
use robo_services.Auth.Login.{
  Jwt, Claims, whole, is_above, is_further_apart, UserCheck, device_of, verify, check_device_token,
  check_user,
}
use robo_services.Auth.Login.Tokens.{
  HasLeeway, HasWholeTimes, Shown, check_user-Shown, check_user_revoked,
}

abbrev settings : Settings
settings = record { mqtt_ingest_topic = codes "ingest"; allow_bare_ingest_topic = false }

abbrev write_of_ann : AclCheck
write_of_ann = record {
  username = codes "ann";
  topic = codes "ingest/ann";
  clientid = codes "phone";
  acc = 2;
}

write_of_ann_allowed : check_acl settings write_of_ann ≡ allow
unfolding check_acl user_topic
write_of_ann_allowed = refl

check_acl-user_from_topic_example :
    (2 ≡ mosq_acl_write)
    × ((user_from_topic (codes "ingest/ann") (codes "ingest") ≡ some (codes "ann"))
        ⊎ ((false ≡ true)
            × (codes "ingest/ann" ≡ codes "ingest")
            × (user_from_topic (codes "ingest/ann") (codes "ingest") ≡ none)))
check_acl-user_from_topic_example =
    check_acl-user_from_topic settings write_of_ann refl write_of_ann_allowed

-- A library that knows one token, of the device "d1", issued at 1000 for 15 minutes.
abbrev claims : Claims
claims = record { sub = "ann"; iat = whole 1000; exp = whole 1900 }

abbrev decode_one : String → ℕ → Option Claims
decode_one token now =
    if token == "token" then (if ltb now 1960 then some claims else none) else none

decode_one_lem :
    (token : String) (now : ℕ) (c : Claims)
    → decode_one token now ≡ some c
    → (now < 1960) × (c ≡ claims)
decode_one_lem token now c h = ground arith

abbrev library : Jwt
library = record {
  unverified_iss = λ token. some (codes "device:d1");
  decode = λ token pem iss now. decode_one token now;
  above = λ iat limit. none;
  further_apart = λ exp iat limit. none;
  access_token_sub = λ token now. none;
}

whole-injective : (a b : ℕ) → whole a ≡ whole b → a ≡ b
whole-injective a b h = ground (arith, h)

library-HasLeeway : HasLeeway library
unfolding HasLeeway
library-HasLeeway token pem iss now c exp h is_exp =
    let (early, same) = decode_one_lem token now c h in
    ground (arith, early, whole-injective _ _ (sym is_exp ∙ ap (λ (x : Claims). x.exp) same))

library-HasWholeTimes : HasWholeTimes library "token"
unfolding HasWholeTimes
library-HasWholeTimes pem iss now c h =
    let (early, same) = decode_one_lem "token" now c h in
    (1000, 1900, (ap (λ (x : Claims). x.iat) same, ap (λ (x : Claims). x.exp) same))

d1_device : device_of library "token" ≡ some (codes "d1")
unfolding device_of
d1_device = refl

abbrev ann : UserCheck
ann = record { username = "ann"; password = "token" }

abbrev key : UploadKey
key = record { owner = "ann"; public_key_pem = "pem" }

ann_allowed : (check_user library [] (ok (some key)) 5 1100 ann).1 ≡ allow
unfolding check_user device_of verify is_above is_further_apart check_device_token lookup fetch get
    set time_to_live
ann_allowed = refl

check_user-Shown_example :
    (k : UploadKey) × (((lookup []
          record { device_id = codes "d1"; now = 5; registry = ok (some key) }).1
        ≡ ok (some k))
      × Shown library ann (codes "d1") k 1100)
check_user-Shown_example =
    check_user-Shown library [] (ok (some key)) 5 1100 ann (codes "d1") library-HasLeeway
      library-HasWholeTimes d1_device ann_allowed

-- The key is fetched at 10 and removed at 20; the last call is at 80.
abbrev fetched_early : Lookup
fetched_early = record { device_id = codes "d1"; now = 10; registry = ok (some key) }

check_user_revoked_example :
    (check_user library (lookups [] (fetched_early ∷ [])) (ok none) 80 1100 ann).1 ≡ deny
check_user_revoked_example =
    check_user_revoked library (codes "d1") 20 (fetched_early ∷ []) (ok none) 80 1100 ann
      (inl (omega arith), tt) (omega arith) no_key d1_device

-- The topic grew from 4 to 5 messages; nothing is consumed for 60 seconds.
abbrev dog : Dog
dog = record {
  stall_after = 60;
  max_failures = 3;
  offset = some 3;
  count_at_progress = some 4;
  behind_since = none;
  failures = 0;
}

watch-Stuck_example :
    (watch dog (count 5 (some 3) 100 ∷ count 6 (some 3) 160 ∷ []) ≡ none)
    ↔ All (Before (100 + 60)) (count 5 (some 3) 100 ∷ count 6 (some 3) 160 ∷ [])
watch-Stuck_example =
    watch-Stuck 4 (some 3) dog 5 100 (some 3) (count 6 (some 3) 160 ∷ []) refl refl refl
      (ground arith)
