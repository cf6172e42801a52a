-- ===== src/Decode/Fresh.antt =====
-- What a session's CAN is decoded with is what the registry said of it a short time ago.
use robo_services.Prelude.{
  ℕ, ◌+◌, ◌<◌, ◌≡◌, ◌⊎◌, String, Bool, List, [], ◌∷◌, ◌++◌, ltb, if◌then◌else◌, ◌==◌, string_eq,
  pair_eq, Option, none, some, Result, ok, err, All,
}
use robo_services.Prelude.Dict.{Dict, get}
use robo_services.Decode.{
  Dbc, Found, no_dbc, by_hash, reason, not_parsed, Body, body, missing, Fault, DbcResolver, Answer,
  SessionKey, Call, answer, take_body, fetch_until, for_session, not_asked,
}

-- What the registry replied for a session, when it was asked, and what that was taken for
pub record Reply : Type 0 where
  pub key : SessionKey
  pub asked_at : ℕ
  pub said : Body
  pub found : Found

-- What a reply may be taken for: its text where there is no DBC, the hash that it names, or the name
-- of a DBC that does not parse.
pub data Says : Body → Found → Type 0 where
  no_session : (text : String) → Says (missing text) (no_dbc (reason text))
  names :
      (sha : String) (name content : Option String)
      → Says (body (some sha) name content) (by_hash sha)
  broken :
      (sha : String) (name content : Option String)
      → Says (body (some sha) name content) (no_dbc (not_parsed name))

-- For how many seconds it may be used: five minutes, or 15 seconds with no DBC, or one where the
-- registry does not know the session.
abbrev pub lives_for : Found → ℕ
lives_for (by_hash sha) = 300
lives_for (no_dbc (reason text)) = if text == "session not found" then 1 else 15
lives_for (no_dbc (not_parsed name)) = 15

abbrev pub In : Reply → List Reply → Type 0
In p [] = ⊥
In p (q ∷ qs) = (q ≡ p) ⊎ In p qs

-- A cached entry, and the reply that it is from
record Backed (log : List Reply) (entry : SessionKey × (ℕ × Found)) : Type 0 where
  reply : Reply
  among : In reply log
  same_key : reply.key ≡ entry.0
  same_found : reply.found ≡ entry.1.1
  same_end : reply.asked_at + lives_for reply.found ≡ entry.1.0
  says : Says reply.said reply.found

module _ {M : Type 0} where
  abbrev IsBacked : List Reply → DbcResolver M → Type 0
  IsBacked log r = All (Backed log) r.sessions

  -- An answer that is what some reply for the session, not older than its time to live, gives
  pub record IsServed (log : List Reply) (key : SessionKey) (now : ℕ) (r : DbcResolver M)
      (a : Answer M) : Type 0 where
    pub reply : Reply
    pub among : In reply log
    pub same_key : reply.key ≡ key
    pub fresh : now < reply.asked_at + lives_for reply.found
    pub says : Says reply.said reply.found
    pub gives : answer r.compiled reply.found ≡ ok a

  -- What a call leaves and answers
  record IsFresh (log : List Reply) (key : SessionKey) (now : ℕ) (r : DbcResolver M)
      (a : Option (Result Fault (Answer M))) : Type 0 where
    backed : IsBacked log r
    served : (x : Answer M) → a ≡ some (ok x) → IsServed log key now r x

module _ {M : Type 0} (load_dbc : String → Option M) where
  -- The reply that a call of `ask` takes in, if any
  unfoldable pub reply_to : DbcResolver M → SessionKey → ℕ → List (Option Body) → List Reply
  reply_to r key now fetches = elim (fetch_until 1 fetches).1 [
    | none ↦ []
    | some reply ↦ elim (take_body load_dbc r.compiled reply) [
      | err fault ↦ []
      | ok (compiled, found) ↦
          record { key = key; asked_at = now; said = reply; found = found } ∷ []
    ]
  ]

module _ {M : Type 0} (default : Dbc M) (has_registry : Bool) (load_dbc : String → Option M) where
  abbrev pub session_key_of : Call → SessionKey
  session_key_of c = (c.device_id, c.source_session)

  abbrev pub calls_of : DbcResolver M → Call → DbcResolver M × Option (Result Fault (Answer M))
  calls_of r c =
      for_session default has_registry load_dbc r c.device_id c.source_session c.now c.fetches

  -- What a call adds to the replies
  unfoldable pub replies_to : DbcResolver M → Call → List Reply
  replies_to r c =
      if not_asked has_registry c.source_session
      then []
      else elim (get r.sessions (session_key_of c)) [
        | none ↦ reply_to load_dbc r (session_key_of c) c.now c.fetches
        | some (expires, found) ↦
            if ltb c.now expires then [] else reply_to load_dbc r (session_key_of c) c.now c.fetches
      ]

  -- The replies that some calls add, the last first
  unfoldable pub replies_after : List Reply → DbcResolver M → List Call → List Reply
  replies_after log r [] = log
  replies_after log r (c ∷ cs) = replies_after (replies_to r c ++ log) (calls_of r c).0 cs
