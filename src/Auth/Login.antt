-- ===== src/Auth/Login.antt =====
-- `device_of` and `verify` of services/mqtt_auth/app/device_tokens.py, and `check_user` of
-- services/mqtt_auth/app/main.py. The JWT library and the check against the identity provider's
-- keys are parameters: what a token's `iss` is unverified, the claims that `jwt.decode` returns
-- for a key, an issuer and a time, the comparisons of claims that are no whole numbers, and the
-- `sub` that an access token's validation gives.
pub mod Tokens
use robo_services.Prelude.{
  ℕ, ◌+◌, ◌-◌, ◌*◌, ◌++◌, Bool, true, false, not, ◌&&◌, is_empty, nat_eq, list_eq, ◌==◌, List, [],
  ◌∷◌, Option, none, some, if◌then◌else◌, ltb, string_eq, String, Result, ok, err, ◌>>=◌,
}
use robo_services.Prelude.Dict.{Dict, get, set}
use robo_services.Prelude.Text.{Text, codes, strip_prefix}
use robo_services.Auth.Keys.{
  Answer, Cache, Lookup, Rejected, UploadKey, not_verified, sub_is_not_owner, issued_in_future,
  lifetime_too_long, type_error, lookup,
}
use robo_services.Auth.Topics.{Reply, allow, deny, server_error}

abbrev pub issuer_prefix : Text
issuer_prefix = codes "device:"

abbrev pub max_lifetime_s : ℕ
max_lifetime_s = 15 * 60

abbrev pub max_skew_s : ℕ
max_skew_s = 60

-- The value of a claim: a whole number, or any other JSON text, as a fraction, NaN or a string.
pub data ClaimValue : Type 0 where
  whole : ℕ → ClaimValue
  other : String → ClaimValue

-- The claims that the code reads, of those it requires.
pub record Claims : Type 0 where
  pub sub : String
  pub iat : ClaimValue
  pub exp : ClaimValue

pub record UserCheck : Type 0 where
  pub username : String
  pub password : String

-- The parameters above
pub record Jwt : Type 0 where
  pub unverified_iss : String → Option Text
  pub decode : String → String → Text → ℕ → Option Claims
  -- `iat > limit`, and `exp - iat > limit`, where they are not whole; none where that raises
  pub above : ClaimValue → ℕ → Option Bool
  pub further_apart : ClaimValue → ClaimValue → ℕ → Option Bool
  pub access_token_sub : String → ℕ → Option String

-- `device_of`
unfoldable pub device_of : Jwt → String → Option Text
device_of jwt token = elim (jwt.unverified_iss token) [
  | none ↦ none
  | some iss ↦ elim (strip_prefix issuer_prefix iss) [
    | none ↦ none
    | some device ↦ if is_empty device then none else some device
  ]
]

-- `iat > limit`
unfoldable pub is_above : Jwt → ClaimValue → ℕ → Option Bool
is_above jwt (whole iat) limit = some (ltb limit iat)
is_above jwt (other iat) limit = jwt.above (other iat) limit

-- `exp - iat > limit`, of integers too: `iat` over `exp` passes.
unfoldable pub is_further_apart : Jwt → ClaimValue → ClaimValue → ℕ → Option Bool
is_further_apart jwt (whole exp) (whole iat) limit = some (ltb limit (exp - iat))
is_further_apart jwt (whole exp) (other iat) limit = jwt.further_apart (whole exp) (other iat) limit
is_further_apart jwt (other exp) iat limit = jwt.further_apart (other exp) iat limit

-- A test that rejects, and that may raise
abbrev pub reject_if : Option Bool → Rejected → Result Rejected Unit
reject_if none e = err type_error
reject_if (some b) e = if b then err e else ok tt

-- `verify`
unfoldable pub verify : Jwt → String → Text → UploadKey → ℕ → Result Rejected Claims
verify jwt token device_id key now =
    elim (jwt.decode token key.public_key_pem (issuer_prefix ++ device_id) now) [
      | none ↦ err not_verified
      | some claims ↦
          if not (claims.sub == key.owner)
          then err sub_is_not_owner
          else (reject_if (is_above jwt claims.iat (now + max_skew_s)) issued_in_future >>= λ a.
              reject_if (is_further_apart jwt claims.exp claims.iat max_lifetime_s)
                lifetime_too_long
              >>= λ b. ok claims)
    ]

-- The `except` of `check_user`: a rejection denies, and a `TypeError` is not caught.
abbrev pub denied : Rejected → Reply
denied type_error = server_error
denied _ = deny

-- `check_user`, of a device token, from the answer for the device's key on
unfoldable pub check_device_token : Jwt → UserCheck → Text → ℕ → Result Rejected Answer → Reply
check_device_token jwt body device now (err e) = deny
check_device_token jwt body device now (ok none) = deny
check_device_token jwt body device now (ok (some key)) =
    elim (verify jwt body.password device key now) [
      | err e ↦ denied e
      | ok claims ↦ if not (body.username == claims.sub) then deny else allow
    ]

-- `check_user`, at a time of the clock of the cache and a wall time, where the registry would
-- answer as given.
unfoldable pub check_user : Jwt → Cache → Result Rejected Answer → ℕ → ℕ → UserCheck → Cache × Reply
check_user jwt cache registry monotonic now body = elim (device_of jwt body.password) [
  | none ↦ (
    cache,
    elim (jwt.access_token_sub body.password now) [
      | none ↦ deny
      | some sub ↦ if not (body.username == sub) then deny else allow
    ],
  )
  | some device ↦
      let found : Cache × Result Rejected Answer =
        lookup cache record { device_id = device; now = monotonic; registry = registry } in
      (found.0, check_device_token jwt body device now found.1)
]
