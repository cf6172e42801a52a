-- ===== src/Auth/Login/Tokens.antt =====
-- What a login with a device token shows of the token.
use robo_services.Prelude.{
  ℕ, ◌+◌, ◌<◌, ◌≤◌, ◌≡◌, inl, inr, ◌++◌, refl, ap, sym, ◌∙◌, arith, List, [], none, some,
  Option-cases, if◌then◌else◌, string_eq, String, Result, ok, err, not, ◌==◌, All,
}
use robo_services.Prelude.Text.{Text}
use robo_services.Auth.Keys.{
  UploadKey, Cache, Answer, Rejected, registry_unreachable, not_verified, sub_is_not_owner,
  issued_in_future, lifetime_too_long, type_error, Lookup, lookup, lookups, key_cache_s,
}
use robo_services.Auth.Keys.Revocation.{Gone, no_key, unreachable, IsRevoked, lookup_revoked}
use robo_services.Auth.Topics.{allow, deny}
use robo_services.Auth.Login.{
  Jwt, UserCheck, Claims, issuer_prefix, max_skew_s, max_lifetime_s, device_of, verify,
  check_device_token, check_user, whole, denied, is_above, is_further_apart,
}

-- `jwt.decode` refuses a token whose `exp` is `leeway` or more in the past.
unfoldable pub HasLeeway : Jwt → Type 0
HasLeeway jwt =
    (token pem : String) (iss : Text) (now : ℕ) (c : Claims) (exp : ℕ)
    → jwt.decode token pem iss now ≡ some c
    → c.exp ≡ whole exp
    → now < exp + max_skew_s

-- The times of a token are whole numbers.
unfoldable pub HasWholeTimes : Jwt → String → Type 0
HasWholeTimes jwt token =
    (pem : String) (iss : Text) (now : ℕ) (c : Claims)
    → jwt.decode token pem iss now ≡ some c
    → (iat : ℕ) × (exp : ℕ) × ((c.iat ≡ whole iat) × (c.exp ≡ whole exp))

-- What a device token that is allowed shows: the key of its device, and its claims.
pub record Shown (jwt : Jwt) (body : UserCheck) (device : Text) (key : UploadKey) (now : ℕ)
    : Type 0 where
  pub claims : Claims
  pub is_signed :
      jwt.decode body.password key.public_key_pem (issuer_prefix ++ device) now ≡ some claims
  pub is_owner : body.username ≡ key.owner
  pub iat : ℕ
  pub is_iat : claims.iat ≡ whole iat
  pub is_issued : iat ≤ now + max_skew_s
  pub is_fresh : now < iat + max_lifetime_s + max_skew_s

verify_lem :
    (jwt : Jwt) (body : UserCheck) (device : Text) (key : UploadKey) (now : ℕ) (c : Claims)
    → HasLeeway jwt
    → HasWholeTimes jwt body.password
    → verify jwt body.password device key now ≡ ok c
    → (jwt.decode body.password key.public_key_pem (issuer_prefix ++ device) now ≡ some c)
      × ((c.sub ≡ key.owner)
          × ((iat : ℕ) × ((c.iat ≡ whole iat)
                × ((iat ≤ now + max_skew_s) × (now < iat + max_lifetime_s + max_skew_s)))))
unfolding HasLeeway HasWholeTimes verify is_above is_further_apart
verify_lem jwt body device key now c leeway are_whole h =
    elim (Option-cases
      (jwt.decode body.password key.public_key_pem (issuer_prefix ++ device) now)) [
        | inl fails ↦ ground (arith, fails)
        | inr (d, reads) ↦
            let (iat, exp, (is_iat, is_exp)) =
              are_whole key.public_key_pem (issuer_prefix ++ device) now d reads in
            let late =
              leeway body.password key.public_key_pem (issuer_prefix ++ device) now d exp reads
                is_exp in
            let facts : (c ≡ d)
                × ((d.sub ≡ key.owner)
                    × ((iat ≤ now + max_skew_s) × (now < iat + max_lifetime_s + max_skew_s))) =
              ground (arith, reads, is_iat, is_exp, late, string_eq.beq_iff d.sub key.owner) in
            (
              reads ∙ ap (λ (x : Claims). some x) (sym facts.0),
              (
                ap (λ (x : Claims). x.sub) facts.0 ∙ facts.1.0,
                (iat, (ap (λ (x : Claims). x.iat) facts.0 ∙ is_iat, facts.1.1)),
              ),
            )
      ]

check_device_token_lem :
    (jwt : Jwt) (body : UserCheck) (device : Text) (now : ℕ) (r : Result Rejected Answer)
    → HasLeeway jwt
    → HasWholeTimes jwt body.password
    → check_device_token jwt body device now r ≡ allow
    → (key : UploadKey) × ((r ≡ ok (some key)) × Shown jwt body device key now)
unfolding check_device_token
check_device_token_lem jwt body device now (err e) leeway are_whole h = ground arith
check_device_token_lem jwt body device now (ok none) leeway are_whole h = ground arith
check_device_token_lem jwt body device now (ok (some key)) leeway are_whole h =
    (key, (refl, shown (verify jwt body.password device key now) refl h))
  where
    shown :
        (v : Result Rejected Claims)
        → verify jwt body.password device key now ≡ v
        → elim v [
          | err e ↦ denied e
          | ok claims ↦ if not (body.username == claims.sub) then deny else allow
        ]
          ≡ allow
        → Shown jwt body device key now
    shown (err type_error) eq h = absurd (cc)
    shown (err registry_unreachable) eq h = absurd (cc)
    shown (err not_verified) eq h = absurd (cc)
    shown (err sub_is_not_owner) eq h = absurd (cc)
    shown (err issued_in_future) eq h = absurd (cc)
    shown (err lifetime_too_long) eq h = absurd (cc)
    shown (ok c) eq h =
        let facts = verify_lem jwt body device key now c leeway are_whole eq in
        record {
          claims = c;
          is_signed = facts.0;
          is_owner = ground (arith, string_eq.beq_iff body.username c.sub, facts);
          iat = facts.1.1.0;
          is_iat = facts.1.1.1.0;
          is_issued = facts.1.1.1.1.0;
          is_fresh = facts.1.1.1.1.1;
        }

check_user_device :
    (jwt : Jwt) (cache : Cache) (registry : Result Rejected Answer) (monotonic now : ℕ)
    (body : UserCheck) (device : Text)
    → device_of jwt body.password ≡ some device
    → (check_user jwt cache registry monotonic now body).1
      ≡ check_device_token jwt body device now
          (lookup cache record { device_id = device; now = monotonic; registry = registry }).1
unfolding check_user
check_user_device jwt cache registry monotonic now body device is_device =
    rw (check_user, is_device) refl

-- Where `jwt.decode` gives a token up at most 60 seconds after its `exp`, and the token's `iat` and
-- `exp` are whole numbers: a login with a device
-- token that is allowed has found an upload key of the token's device, the token is signed with
-- that key for that device, the username is the sub of the key's owner, and the time is at most
-- 60 seconds before the token's `iat` and less than 16 minutes after it.
pub check_user-Shown :
    (jwt : Jwt) (cache : Cache) (registry : Result Rejected Answer) (monotonic now : ℕ)
    (body : UserCheck) (device : Text)
    → HasLeeway jwt
    → HasWholeTimes jwt body.password
    → device_of jwt body.password ≡ some device
    → (check_user jwt cache registry monotonic now body).1 ≡ allow
    → (key : UploadKey) × (((lookup cache
            record { device_id = device; now = monotonic; registry = registry }).1
          ≡ ok (some key))
        × Shown jwt body device key now)
check_user-Shown jwt cache registry monotonic now body device leeway are_whole is_device h =
    check_device_token_lem jwt body device now _ leeway are_whole
      (sym (check_user_device jwt cache registry monotonic now body device is_device) ∙ h)

check_device_token-Gone :
    (jwt : Jwt) (body : UserCheck) (device : Text) (now : ℕ) (r : Result Rejected Answer)
    → Gone r
    → check_device_token jwt body device now r ≡ deny
unfolding check_device_token
check_device_token-Gone jwt body device now (ok _) no_key = refl
check_device_token-Gone jwt body device now (err e) (unreachable _) = refl

-- Where from some time on the registry has no key of a device or cannot be asked, a login with a
-- token of the device is denied from 60 seconds later on, after any calls for keys on an empty
-- cache.
pub check_user_revoked :
    (jwt : Jwt) (device : Text) (t : ℕ) (ls : List Lookup) (registry : Result Rejected Answer)
    (monotonic now : ℕ) (body : UserCheck)
    → All (IsRevoked device t) ls
    → t + key_cache_s ≤ monotonic
    → Gone registry
    → device_of jwt body.password ≡ some device
    → (check_user jwt (lookups [] ls) registry monotonic now body).1 ≡ deny
check_user_revoked jwt device t ls registry monotonic now body revoked late gone is_device =
    check_user_device jwt (lookups [] ls) registry monotonic now body device is_device
    ∙ check_device_token-Gone jwt body device now _ (
        lookup_revoked device t ls
          record { device_id = device; now = monotonic; registry = registry } revoked refl late
          gone)
