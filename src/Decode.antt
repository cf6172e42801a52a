-- ===== src/Decode.antt =====
-- services/can_decode/app/dbc_resolver.py: which DBC a session's CAN is decoded with. The registry's
-- answers are cached per session, and each DBC is compiled once. Times are in seconds. A call's
-- fetches are given as a list of what they bring, and calls come one after the other. A compiled
-- table of messages is opaque, and `load_dbc` is a parameter.
pub mod Compiled
pub mod Retries
pub mod Fresh
use robo_services.Prelude.{
  ℕ, ◌+◌, ◌*◌, String, Bool, false, true, ◌||◌, not, List, [], ◌∷◌, min, ltb, if◌then◌else◌, ◌==◌,
  string_eq, pair_eq, Option, none, some, Result, ok, err,
}
use robo_services.Prelude.Dict.{Dict, get, set, contains}

pub record Dbc (M : Type 0) : Type 0 where
  pub name : String
  pub messages : M

-- A reason is the registry's text, or that the DBC of a name does not parse.
pub data NoDbc : Type 0 where
  reason : String → NoDbc
  not_parsed : Option String → NoDbc

-- What is cached for a session: that it has no DBC, or the hash of its DBC.
pub data Found : Type 0 where
  no_dbc : NoDbc → Found
  by_hash : String → Found

pub data Answer (M : Type 0) : Type 0 where
  dbc : Dbc M → Answer M
  undecoded : NoDbc → Answer M

-- The registry's JSON, whose fields may be missing, or its 404.
pub data Body : Type 0 where
  body : Option String → Option String → Option String → Body
  missing : String → Body

-- `KeyError`: of the reply's hash, or of the compiled DBCs
pub data Fault : Type 0 where
  no_hash not_compiled : Fault

abbrev pub positive_ttl : ℕ
positive_ttl = 300

abbrev pub negative_ttl : ℕ
negative_ttl = 15

abbrev pub pending_ttl : ℕ
pending_ttl = 1

abbrev pub retry_max_s : ℕ
retry_max_s = 30

abbrev pub not_found : String
not_found = "session not found"

abbrev pub is_pending : NoDbc → Bool
is_pending (reason text) = text == not_found
is_pending (not_parsed name) = false

abbrev pub SessionKey : Type 0
SessionKey = String × String

pub record DbcResolver (M : Type 0) : Type 0 where
  pub sessions : Dict SessionKey (ℕ × Found)
  pub compiled : Dict String (Dbc M)

module _ {M : Type 0} where
  -- `_answer`
  unfoldable pub answer : Dict String (Dbc M) → Found → Result Fault (Answer M)
  answer compiled (no_dbc why) = ok (undecoded why)
  answer compiled (by_hash sha) = elim (get compiled sha) [
    | none ↦ err not_compiled
    | some d ↦ ok (dbc d)
  ]

  -- `Dbc(body["name"], load_dbc(body["content"]))`; nothing where it raises
  unfoldable pub compile : (String → Option M) → Option String → Option String → Option (Dbc M)
  compile load_dbc (some name) (some content) = elim (load_dbc content) [
    | none ↦ none
    | some messages ↦ some (record { name = name; messages = messages })
  ]
  compile load_dbc _ _ = none

  -- The end of `_resolve`, with what the registry said
  unfoldable pub take_body :
      (String → Option M) → Dict String (Dbc M) → Body → Result Fault (Dict String (Dbc M) × Found)
  take_body load_dbc compiled (missing text) = ok (compiled, no_dbc (reason text))
  take_body load_dbc compiled (body none name content) = err no_hash
  take_body load_dbc compiled (body (some sha) name content) =
      if contains compiled sha
      then ok (compiled, by_hash sha)
      else elim (compile load_dbc name content) [
        | none ↦ ok (compiled, no_dbc (not_parsed name))
        | some d ↦ ok (set compiled sha d, by_hash sha)
      ]

-- The loop of `_resolve`: how long it sleeps each time, and the reply that ends it, if one of the
-- fetches brings one; a fetch that raises brings none.
unfoldable pub fetch_until : ℕ → List (Option Body) → List ℕ × Option Body
fetch_until delay [] = ([], none)
fetch_until delay (some reply ∷ fetches) = ([], some reply)
fetch_until delay (none ∷ fetches) =
    let (slept, reply) = fetch_until (min (delay * 2) retry_max_s) fetches in (delay ∷ slept, reply)

abbrev pub ttl_of : Found → ℕ
ttl_of (by_hash sha) = positive_ttl
ttl_of (no_dbc why) = if is_pending why then pending_ttl else negative_ttl

module _ {M : Type 0} (load_dbc : String → Option M) where
  -- The end of `for_session`, with what was found
  unfoldable pub remember :
      DbcResolver M
      → SessionKey
      → ℕ
      → Result Fault (Dict String (Dbc M) × Found)
      → DbcResolver M × Result Fault (Answer M)
  remember r key now (err fault) = (r, err fault)
  remember r key now (ok (compiled, found)) = (
    record { sessions = set r.sessions key (now + ttl_of found, found); compiled = compiled },
    answer compiled found,
  )

  -- Where nothing is cached that is still good; no answer while all fetches have raised.
  unfoldable pub ask :
      DbcResolver M
      → SessionKey
      → ℕ
      → List (Option Body)
      → DbcResolver M × Option (Result Fault (Answer M))
  ask r key now fetches = elim (fetch_until 1 fetches).1 [
    | none ↦ (r, none)
    | some reply ↦
        let (r', a) = remember r key now (take_body load_dbc r.compiled reply) in (r', some a)
  ]

-- The default is for records with no session, and for all where there is no registry.
abbrev pub not_asked : Bool → String → Bool
not_asked has_registry source_session =
    not has_registry || source_session == "" || source_session == "proto-live"

module _ {M : Type 0} (default : Dbc M) (has_registry : Bool) (load_dbc : String → Option M) where
  -- `for_session`
  unfoldable pub for_session :
      DbcResolver M
      → String
      → String
      → ℕ
      → List (Option Body)
      → DbcResolver M × Option (Result Fault (Answer M))
  for_session r device_id source_session now fetches =
      if not_asked has_registry source_session
      then (r, some (ok (dbc default)))
      else elim (get r.sessions (device_id, source_session)) [
        | none ↦ ask load_dbc r (device_id, source_session) now fetches
        | some (expires, found) ↦
            if ltb now expires
            then (r, some (answer r.compiled found))
            else ask load_dbc r (device_id, source_session) now fetches
      ]

-- A call, with what its fetches bring
pub record Call : Type 0 where
  pub device_id : String
  pub source_session : String
  pub now : ℕ
  pub fetches : List (Option Body)
