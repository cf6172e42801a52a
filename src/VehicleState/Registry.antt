-- ===== src/VehicleState/Registry.antt =====
-- services/vehicle_state/app/registry.py: what the registry knows of a session, cached. The two
-- requests over HTTP are parameters: `none` for a 404, an error for whatever else raises.
use robo_services.Prelude.{
  ℕ, ◌+◌, String, [], ltb, if◌then◌else◌, string_eq, pair_eq, Option, none, some, Result, ok, err,
  ◌>>=◌,
}
use robo_services.Prelude.Dict.{Dict, get, set}
use robo_services.VehicleState.Roles.{RowFault, RoleSpec}

abbrev pub ttl_s : ℕ
ttl_s = 300

pub record SessionInfo (F : Type 0) : Type 0 where
  pub vehicle_id : Option ℕ
  pub user_sub : Option String
  pub roles : Dict String (RoleSpec F)

-- The fields that are read of the answer about a session, and of the one about its DBC.
pub record SessionAnswer : Type 0 where
  pub vehicle_id : Option ℕ
  pub user_sub : Option String

pub record DbcAnswer (F : Type 0) : Type 0 where
  pub roles : Option (Dict String (RoleSpec F))

abbrev pub Fetch : Type 0 → Type 0
Fetch F = String → String → Result RowFault (Option (SessionInfo F))

-- `(device_id, source_session)` -> the time until which it is used, and the information
abbrev pub InfoCache : Type 0 → Type 0
InfoCache F = Dict (String × String) (ℕ × SessionInfo F)

module _ {F : Type 0} where
  abbrev pub no_info : SessionInfo F
  no_info = record { vehicle_id = none; user_sub = none; roles = [] }

  -- `(dbc or {}).get("roles") or {}`
  unfoldable pub roles_of : Option (DbcAnswer F) → Dict String (RoleSpec F)
  roles_of none = []
  roles_of (some answer) = elim answer.roles [ none ↦ [] | some roles ↦ roles ]

  unfoldable pub fetch_from_registry :
      (String → String → Result RowFault (Option SessionAnswer))
      → (String → String → Result RowFault (Option (DbcAnswer F)))
      → Fetch F
  fetch_from_registry session_at dbc_at device_id source_session =
      session_at device_id source_session >>= λ answer. elim answer [
        | none ↦ ok none
        | some session ↦ dbc_at device_id source_session >>= λ dbc. ok (
            some (record {
              vehicle_id = session.vehicle_id;
              user_sub = session.user_sub;
              roles = roles_of dbc;
            }))
      ]

  -- `Registry.info`, with the cache after it; `checked` and `fetched` are the clock before and after
  -- the request.
  unfoldable pub request :
      Fetch F
      → InfoCache F
      → String
      → String
      → ℕ
      → Result RowFault (Option (SessionInfo F)) × InfoCache F
  request fetch cache device_id source_session fetched = elim (fetch device_id source_session) [
    | err e ↦ (err e, cache)
    | ok none ↦ (ok none, cache)
    | ok (some i) ↦ (ok (some i), set cache (device_id, source_session) (fetched + ttl_s, i))
  ]

  unfoldable pub info :
      Option (Fetch F)
      → InfoCache F
      → String
      → String
      → ℕ
      → ℕ
      → Result RowFault (Option (SessionInfo F)) × InfoCache F
  info none cache device_id source_session checked fetched = (ok (some no_info), cache)
  info (some fetch) cache device_id source_session checked fetched =
      elim (get cache (device_id, source_session)) [
        | none ↦ request fetch cache device_id source_session fetched
        | some (until, i) ↦
            if ltb checked until
            then (ok (some i), cache)
            else request fetch cache device_id source_session fetched
      ]
