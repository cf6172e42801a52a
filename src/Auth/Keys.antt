-- ===== src/Auth/Keys.antt =====
-- `KeyLookup` of services/mqtt_auth/app/device_tokens.py. Times are in seconds. What the
-- registry would answer at the time of a call comes with the call, whether it is asked or not.
pub mod Revocation
use robo_services.Prelude.{
  ℕ, ◌+◌, ◌≡◌, Bool, true, false, List, [], ◌∷◌, Option, none, some, if◌then◌else◌, ltb, nat_eq,
  list_eq, String, Result, ok, err,
}
use robo_services.Prelude.Text.{Text}
use robo_services.Prelude.Dict.{Dict, get, set}

abbrev pub key_cache_s : ℕ
key_cache_s = 60

abbrev pub missing_cache_s : ℕ
missing_cache_s = 15

-- `DeviceTokenRejected`, by what rejects; and the `TypeError` of `verify`, which is none.
pub data Rejected : Type 0 where
  registry_unreachable not_verified sub_is_not_owner issued_in_future lifetime_too_long : Rejected
  type_error : Rejected

-- An upload key: the owner's sub and the public key in PEM.
pub record UploadKey : Type 0 where
  pub owner : String
  pub public_key_pem : String

abbrev pub Answer : Type 0
Answer = Option UploadKey

pub record Cached : Type 0 where
  pub until : ℕ
  pub answer : Answer

abbrev pub Cache : Type 0
Cache = Dict Text Cached

-- One call of `get`
pub record Lookup : Type 0 where
  pub device_id : Text
  pub now : ℕ
  pub registry : Result Rejected Answer

unfoldable pub time_to_live : Answer → ℕ
time_to_live none = missing_cache_s
time_to_live (some key) = key_cache_s

-- A fetch that answers is kept; one that raises leaves the cache as it is.
unfoldable pub fetch : Cache → Text → ℕ → Result Rejected Answer → Cache × Result Rejected Answer
fetch cache device_id now (ok answer) =
    (set cache device_id record { until = now + time_to_live answer; answer = answer }, ok answer)
fetch cache device_id now (err e) = (cache, err e)

-- `KeyLookup.get`
unfoldable pub lookup : Cache → Lookup → Cache × Result Rejected Answer
lookup cache l = elim (get cache l.device_id) [
  | none ↦ fetch cache l.device_id l.now l.registry
  | some hit ↦
      if ltb l.now hit.until
      then (cache, ok hit.answer)
      else fetch cache l.device_id l.now l.registry
]

-- The cache after some calls
unfoldable pub lookups : Cache → List Lookup → Cache
lookups cache [] = cache
lookups cache (l ∷ ls) = lookups (lookup cache l).0 ls
