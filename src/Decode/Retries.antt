-- ===== src/Decode/Retries.antt =====
-- A registry that cannot be reached is asked again until it answers.
use robo_services.Prelude.{
  ℕ, zero, suc, ◌*◌, ◌≤◌, ◌≡◌, ◌≢◌, refl, ap, arith, String, Bool, List, ◌∷◌, ◌++◌, replicate,
  length, min, ltb, string_eq, pair_eq, Option, none, some, Option-cases, Bool-cases, inl, inr, All,
}
use robo_services.Prelude.Dict.{get}
use robo_services.Decode.{
  Dbc, Body, DbcResolver, retry_max_s, fetch_until, ask, for_session, SessionKey, not_asked,
}

-- Some fetches that raise, and then one that brings a reply
abbrev pub fails_then : ℕ → Body → List (Option Body) → List (Option Body)
fails_then n reply later = replicate n none ++ (some reply ∷ later)

-- However many fetches raise, the loop ends with the first reply; it has then slept once for each
-- fetch that raised, and never for longer than 30 seconds at a time.
pub fetch_until_lem :
    (n delay : ℕ) (reply : Body) (later : List (Option Body))
    → delay ≤ retry_max_s
    → let (slept, found) = fetch_until delay (fails_then n reply later) in
      (found ≡ some reply) × (length slept ≡ n) × All (λ s. s ≤ retry_max_s) slept
unfolding fetch_until
fetch_until_lem zero delay reply later h = (refl, refl, tt)
fetch_until_lem (suc n) delay reply later h =
    let (a, b, c) = fetch_until_lem n (min (delay * 2) retry_max_s) reply later (omega arith) in
    (a, ap suc b, (h, c))

module _ {M : Type 0} (load_dbc : String → Option M) where
  ask_returns :
      (r : DbcResolver M) (key : SessionKey) (now n : ℕ) (reply : Body) (later : List (Option Body))
      → (ask load_dbc r key now (fails_then n reply later)).1 ≢ none
  unfolding ask
  ask_returns r key now n reply later =
      let (a, b, c) = fetch_until_lem n 1 reply later (ground arith) in
      rw (ask, a) (λ h. absurd (cc))

module _ {M : Type 0} (default : Dbc M) (has_registry : Bool) (load_dbc : String → Option M) where
  -- A call returns, with an answer or an exception, as soon as one of its fetches brings a reply,
  -- whatever is cached and however many fetches raised before.
  pub for_session_returns :
      (r : DbcResolver M) (device_id source_session : String) (now n : ℕ) (reply : Body)
      (later : List (Option Body))
      → (for_session default has_registry load_dbc r device_id source_session now
          (fails_then n reply later)).1
        ≢ none
  unfolding for_session
  for_session_returns r device_id source_session now n reply later =
      elim (Bool-cases (not_asked has_registry source_session)) [
        | inl e ↦ rw (for_session, e) (λ h. absurd (cc))
        | inr e ↦ elim (Option-cases (get r.sessions (device_id, source_session))) [
          | inl f ↦
              rw (for_session, e, f)
                (ask_returns load_dbc r (device_id, source_session) now n reply later)
          | inr ((expires, found), f) ↦ elim (Bool-cases (ltb now expires)) [
            | inl g ↦ rw (for_session, e, f, g) (λ h. absurd (cc))
            | inr g ↦
                rw (for_session, e, f, g)
                  (ask_returns load_dbc r (device_id, source_session) now n reply later)
          ]
        ]
      ]
