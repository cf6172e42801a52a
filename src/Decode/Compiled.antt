-- ===== src/Decode/Compiled.antt =====
-- The DBC of a cached hash is there, and stays the same.
use mathlib.Core.Path.{subst}
use mathlib.Core.Option.{some-injective}
use robo_services.Prelude.{
  ℕ, ◌+◌, ◌≡◌, ◌≢◌, refl, arith, String, Bool, List, [], ◌∷◌, ltb, string_eq, pair_eq, Option, none,
  some, Option-cases, Result-cases, Bool-cases, inl, inr, Result, ok, err, All, All-imp,
}
use robo_services.Prelude.Dict.{Dict, get, set, contains, get-set, get-set_self, All-set, All-get}
use robo_services.Decode.{
  Dbc, Found, no_dbc, by_hash, Body, body, missing, Fault, not_compiled, DbcResolver, Answer,
  SessionKey, Call, answer, compile, take_body, fetch_until, ttl_of, remember, ask, for_session,
  reason, not_parsed, not_asked, no_hash,
}

module _ {M : Type 0} where
  -- What is compiled stays compiled, as it is.
  abbrev pub Grows : Dict String (Dbc M) → Dict String (Dbc M) → Type 0
  Grows compiled compiled' =
      (sha : String) (d : Dbc M) → get compiled sha ≡ some d → get compiled' sha ≡ some d

  abbrev pub HasDbc : Dict String (Dbc M) → Found → Type 0
  HasDbc compiled (no_dbc why) = Unit
  HasDbc compiled (by_hash sha) = (d : Dbc M) × (get compiled sha ≡ some d)

  HasDbc-Grows :
      (compiled compiled' : Dict String (Dbc M)) (found : Found)
      → Grows compiled compiled'
      → HasDbc compiled found
      → HasDbc compiled' found
  HasDbc-Grows compiled compiled' (no_dbc why) g h = tt
  HasDbc-Grows compiled compiled' (by_hash sha) g (d, e) = (d, g sha d e)

  answer-HasDbc :
      (compiled : Dict String (Dbc M)) (found : Found)
      → HasDbc compiled found
      → answer compiled found ≢ err not_compiled
  unfolding answer
  answer-HasDbc compiled (no_dbc why) h = λ e. absurd (cc)
  answer-HasDbc compiled (by_hash sha) (d, e) = rw (answer, e) (λ f. absurd (cc))

  -- What a reply leaves
  record Took (compiled : Dict String (Dbc M)) (compiled' : Dict String (Dbc M)) (found : Found)
      : Type 0 where
    grows : Grows compiled compiled'
    has : HasDbc compiled' found

  took :
      (compiled compiled' next : Dict String (Dbc M)) (result found : Found)
      → Grows compiled next
      → HasDbc next result
      → next ≡ compiled'
      → result ≡ found
      → Took compiled compiled' found
  took compiled compiled' next result found g h e f =
      subst (λ c. Took compiled c found) e
        (subst (λ x. Took compiled next x) f (record { grows = g; has = h }))

  Grows-set :
      (compiled : Dict String (Dbc M)) (sha : String) (d : Dbc M)
      → get compiled sha ≡ none
      → Grows compiled (set compiled sha d)
  Grows-set compiled sha d absent k c e =
      ground (arith, get-set compiled sha k d, string_eq.beq_iff sha k, absent, e)

  take_body-Took :
      (load_dbc : String → Option M) (compiled compiled' : Dict String (Dbc M)) (reply : Body)
      (found : Found)
      → take_body load_dbc compiled reply ≡ ok (compiled', found)
      → Took compiled compiled' found
  unfolding take_body contains
  take_body-Took load_dbc compiled compiled' (missing text) found h =
      took compiled compiled' compiled (no_dbc (reason text)) found (λ k c e. e) tt
        (ground (arith, h)) (ground (arith, h))
  take_body-Took load_dbc compiled compiled' (body none name content) found h = absurd (cc)
  take_body-Took load_dbc compiled compiled' (body (some sha) name content) found h =
      elim (Option-cases (get compiled sha)) [
        | inr (d, e) ↦
            took compiled compiled' compiled (by_hash sha) found (λ k c e. e) (d, e)
              (ground (arith, h, e)) (ground (arith, h, e))
        | inl e ↦ elim (Option-cases (compile load_dbc name content)) [
          | inl f ↦
              took compiled compiled' compiled (no_dbc (not_parsed name)) found (λ k c e. e) tt
                (ground (arith, h, e, f)) (ground (arith, h, e, f))
          | inr (d, f) ↦
              took compiled compiled' (set compiled sha d) (by_hash sha) found
                (Grows-set compiled sha d e) (d, get-set_self compiled sha d)
                (ground (arith, h, e, f)) (ground (arith, h, e, f))
        ]
      ]

  -- A reply can be without a hash; it cannot miss what is compiled.
  take_body_fault :
      (load_dbc : String → Option M) (compiled : Dict String (Dbc M)) (reply : Body) (fault : Fault)
      → take_body load_dbc compiled reply ≡ err fault
      → fault ≡ no_hash
  unfolding take_body contains
  take_body_fault load_dbc compiled (missing text) fault h = absurd (cc)
  take_body_fault load_dbc compiled (body none name content) fault h = ground (arith, h)
  take_body_fault load_dbc compiled (body (some sha) name content) fault h =
      elim (Option-cases (get compiled sha)) [
        | inr (d, e) ↦ ground (arith, h, e)
        | inl e ↦ elim (Option-cases (compile load_dbc name content)) [
          | inl f ↦ ground (arith, h, e, f)
          | inr (d, f) ↦ ground (arith, h, e, f)
        ]
      ]

  some_err_no_hash :
      (fault : Fault) (a : Option (Result Fault (Answer M)))
      → a ≡ some (err fault)
      → fault ≡ no_hash
      → a ≢ some (err not_compiled)
  some_err_no_hash fault a f e h = ground (arith, e, f, h)

  -- The DBCs of all cached hashes are compiled.
  abbrev pub IsSound : DbcResolver M → Type 0
  IsSound r = All (λ (e : SessionKey × (ℕ × Found)). HasDbc r.compiled e.1.1) r.sessions

  -- What a call leaves and answers
  record IsGood (r r' : DbcResolver M) (a : Option (Result Fault (Answer M))) : Type 0 where
    sound : IsSound r'
    grows : Grows r.compiled r'.compiled
    answered : a ≢ some (err not_compiled)

  IsSound-remember :
      (r : DbcResolver M) (key : SessionKey) (compiled : Dict String (Dbc M)) (entry : ℕ × Found)
      → Grows r.compiled compiled
      → HasDbc compiled entry.1
      → IsSound r
      → IsSound (record { sessions = set r.sessions key entry; compiled = compiled })
  IsSound-remember r key compiled entry g h s =
      All-set (λ (e : SessionKey × (ℕ × Found)). HasDbc compiled e.1.1) r.sessions key entry
        (λ j same. h) (All-imp (λ e k. HasDbc-Grows r.compiled compiled e.1.1 g k) r.sessions s)

module _ {M : Type 0} (load_dbc : String → Option M) where
  IsGood-remember :
      (r : DbcResolver M) (key : SessionKey) (now : ℕ) (reply : Body)
      → IsSound r
      → let (r', a) = remember load_dbc r key now (take_body load_dbc r.compiled reply) in
        IsGood r r' (some a)
  unfolding remember
  IsGood-remember r key now reply s = elim (Result-cases (take_body load_dbc r.compiled reply)) [
    | inl ((compiled, found), e) ↦
        let took = take_body-Took load_dbc r.compiled compiled reply found e in
        rw (e) (record {
          sound = IsSound-remember r key compiled (now + ttl_of found, found) took.grows took.has s;
          grows = took.grows;
          answered = λ h. answer-HasDbc compiled found took.has (some-injective _ _ h);
        })
    | inr (fault, e) ↦ rw (e) (record {
      sound = s;
      grows = λ k c h. h;
      answered = some_err_no_hash fault _ refl (take_body_fault load_dbc r.compiled reply fault e);
    })
  ]

  IsGood-ask :
      (r : DbcResolver M) (key : SessionKey) (now : ℕ) (fetches : List (Option Body))
      → IsSound r
      → IsGood r (ask load_dbc r key now fetches).0 (ask load_dbc r key now fetches).1
  unfolding ask
  IsGood-ask r key now fetches s = elim (Option-cases (fetch_until 1 fetches).1) [
    | inl e ↦ rw (ask, e) (record { sound = s; grows = λ k c h. h; answered = λ h. absurd (cc) })
    | inr (reply, e) ↦ rw (ask, e) (IsGood-remember r key now reply s)
  ]

module _ {M : Type 0} (default : Dbc M) (has_registry : Bool) (load_dbc : String → Option M) where
  IsGood-for_session :
      (r : DbcResolver M) (c : Call)
      → IsSound r
      → let (r', a) =
          for_session default has_registry load_dbc r c.device_id c.source_session c.now
            c.fetches in
        IsGood r r' a
  unfolding for_session
  IsGood-for_session r c s = elim (Bool-cases (not_asked has_registry c.source_session)) [
    | inl e ↦
        rw (for_session, e) (record { sound = s; grows = λ k c h. h; answered = λ h. absurd (cc) })
    | inr e ↦ elim (Option-cases (get r.sessions (c.device_id, c.source_session))) [
      | inl f ↦
          rw (for_session, e, f)
            (IsGood-ask load_dbc r (c.device_id, c.source_session) c.now c.fetches s)
      | inr ((expires, found), f) ↦ elim (Bool-cases (ltb c.now expires)) [
        | inl g ↦
            let has =
              All-get (λ (x : SessionKey × (ℕ × Found)). HasDbc r.compiled x.1.1) r.sessions
                (c.device_id, c.source_session) (expires, found) f s in
            rw (for_session, e, f, g)
              (record {
                sound = s;
                grows = λ k c h. h;
                answered = λ h. answer-HasDbc r.compiled found has (some-injective _ _ h);
              })
        | inr g ↦
            rw (for_session, e, f, g)
              (IsGood-ask load_dbc r (c.device_id, c.source_session) c.now c.fetches s)
      ]
    ]
  ]

  -- The calls one after the other
  unfoldable pub after : List Call → DbcResolver M → DbcResolver M
  after [] r = r
  after (c ∷ cs) r =
      after cs
        (for_session default has_registry load_dbc r c.device_id c.source_session c.now c.fetches).0

  IsSound-after : (cs : List Call) (r : DbcResolver M) → IsSound r → IsSound (after cs r)
  unfolding after
  IsSound-after [] r s = s
  IsSound-after (c ∷ cs) r s = IsSound-after cs _ (IsGood-for_session r c s).sound

  -- After any calls on a new resolver, whatever the registry replied and however often it failed, no
  -- call misses the compiled DBC of a cached hash.
  pub for_session_compiled :
      (cs : List Call) (c : Call)
      → (for_session default has_registry load_dbc
          (after cs (record { sessions = []; compiled = [] }))
          c.device_id
          c.source_session
          c.now
          c.fetches).1
        ≢ some (err not_compiled)
  for_session_compiled cs c =
      (IsGood-for_session (after cs (record { sessions = []; compiled = [] })) c
        (IsSound-after cs (record { sessions = []; compiled = [] }) tt)).answered

  Grows-after :
      (cs : List Call) (r : DbcResolver M) → IsSound r → Grows r.compiled (after cs r).compiled
  unfolding after
  Grows-after [] r s = λ k c h. h
  Grows-after (c ∷ cs) r s = λ sha d h.
      Grows-after cs _ (IsGood-for_session r c s).sound sha d
        ((IsGood-for_session r c s).grows sha d h)

  -- A DBC that was compiled for a hash is kept for it, whatever calls follow: it is compiled once.
  pub after-Grows :
      (cs ds : List Call) (sha : String) (d : Dbc M)
      → let r = after cs (record { sessions = []; compiled = [] }) in
        get r.compiled sha ≡ some d → get (after ds r).compiled sha ≡ some d
  after-Grows cs ds sha d =
      Grows-after ds (after cs (record { sessions = []; compiled = [] }))
        (IsSound-after cs (record { sessions = []; compiled = [] }) tt) sha d
