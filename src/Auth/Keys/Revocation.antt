-- ===== src/Auth/Keys/Revocation.antt =====
-- How long a revoked key goes on working.
use mathlib.Core.Path.{subst}
use robo_services.Prelude.{
  ℕ, ◌+◌, ◌≤◌, ◌≡◌, ◌≢◌, ◌⊎◌, inl, inr, Bool, true, false, refl, sym, arith, List, [], ◌∷◌, none,
  some, Option-cases, if◌then◌else◌, nat_eq, list_eq, list_beq_iff, Result, ok, err, All, ltb,
}
use robo_services.Prelude.Dict.{get, set, get-set}
use robo_services.Prelude.Text.{Text}
use robo_services.Auth.Keys.{
  Lookup, Cached, Cache, Answer, Rejected, time_to_live, fetch, lookup, lookups, key_cache_s,
}

-- The registry has no key of the device, or it cannot be asked.
pub data Gone : Result Rejected Answer → Type 0 where
  no_key : Gone (ok none)
  unreachable : (e : Rejected) → Gone (err e)

-- A call that is before a time, is for another device, or finds no key of the device.
abbrev pub IsRevoked : Text → ℕ → Lookup → Type 0
IsRevoked d t l = (l.now ≤ t) ⊎ ((d ≢ l.device_id) ⊎ Gone l.registry)

-- What the cache has of a device is no key, or it ends soon after a time.
Fades : Text → ℕ → Cache → Type 0
Fades d t cache =
    (c : Cached) → get cache d ≡ some c → (c.answer ≡ none) ⊎ (c.until ≤ t + key_cache_s)

time_to_live_lem : (a : Answer) → time_to_live a ≤ key_cache_s
unfolding time_to_live
time_to_live_lem none = ground arith
time_to_live_lem (some key) = ground arith

Fades-set :
    (d k : Text) (t : ℕ) (cache : Cache) (c : Cached)
    → (d ≢ k) ⊎ ((c.answer ≡ none) ⊎ (c.until ≤ t + key_cache_s))
    → Fades d t cache
    → Fades d t (set cache k c)
unfolding Fades
Fades-set d k t cache c late fades found h =
    ground (arith, get-set cache k d c, list_beq_iff k d, fades found)

Fades-fetch :
    (d k : Text) (t now : ℕ) (cache : Cache) (r : Result Rejected Answer)
    → (now ≤ t) ⊎ ((d ≢ k) ⊎ Gone r)
    → Fades d t cache
    → Fades d t (fetch cache k now r).0
unfolding fetch
Fades-fetch d k t now cache (err e) revoked fades = fades
Fades-fetch d k t now cache (ok a) (inl early) fades =
    Fades-set d k t cache _ (ground (arith, time_to_live_lem a)) fades
Fades-fetch d k t now cache (ok a) (inr (inl other)) fades =
    Fades-set d k t cache _ (inl other) fades
Fades-fetch d k t now cache (ok _) (inr (inr no_key)) fades =
    Fades-set d k t cache _ (inr (inl refl)) fades

Fades-if :
    (d : Text) (t : ℕ) (b : Bool) (x y : Cache × Result Rejected Answer)
    → Fades d t x.0
    → Fades d t y.0
    → Fades d t (if b then x else y).0
Fades-if d t true x y p q = p
Fades-if d t false x y p q = q

Fades-lookup :
    (d : Text) (t : ℕ) (cache : Cache) (l : Lookup)
    → IsRevoked d t l
    → Fades d t cache
    → Fades d t (lookup cache l).0
unfolding lookup
Fades-lookup d t cache l revoked fades = elim (Option-cases (get cache l.device_id)) [
  | inl miss ↦ rw (lookup, miss) (Fades-fetch d l.device_id t l.now cache l.registry revoked fades)
  | inr (hit, found) ↦
      rw (lookup, found)
        (Fades-if d t (ltb l.now hit.until) (cache, ok hit.answer)
          (fetch cache l.device_id l.now l.registry) fades
          (Fades-fetch d l.device_id t l.now cache l.registry revoked fades))
]

Fades-lookups :
    (d : Text) (t : ℕ) (cache : Cache) (ls : List Lookup)
    → All (IsRevoked d t) ls
    → Fades d t cache
    → Fades d t (lookups cache ls)
unfolding lookups
Fades-lookups d t cache [] revoked fades = fades
Fades-lookups d t cache (l ∷ ls) (r, revoked) fades =
    Fades-lookups d t (lookup cache l).0 ls revoked (Fades-lookup d t cache l r fades)

Fades-empty : (d : Text) (t : ℕ) → Fades d t []
unfolding Fades get
Fades-empty d t c found = ground arith

Gone-fetch :
    (cache : Cache) (k : Text) (now : ℕ) (r : Result Rejected Answer)
    → Gone r
    → Gone (fetch cache k now r).1
unfolding fetch
Gone-fetch cache k now (ok _) no_key = no_key
Gone-fetch cache k now (err e) gone = gone

Gone-served :
    (hit : Cached) (b : Bool) (cache : Cache) (y : Cache × Result Rejected Answer)
    → (b ≡ false) ⊎ (hit.answer ≡ none)
    → Gone y.1
    → Gone (if b then (cache, ok hit.answer) else y).1
Gone-served hit false cache y h gone = gone
Gone-served hit true cache y h gone =
    let absent : hit.answer ≡ none = ground arith in subst (λ a. Gone (ok a)) (sym absent) no_key

-- For a device and a time, where from that time on the registry has no key of the device or
-- cannot be asked: after any calls on an empty cache, a call for the device that comes at least
-- 60 seconds later gives no key.
pub lookup_revoked :
    (d : Text) (t : ℕ) (ls : List Lookup) (l : Lookup)
    → All (IsRevoked d t) ls
    → l.device_id ≡ d
    → t + key_cache_s ≤ l.now
    → Gone l.registry
    → Gone (lookup (lookups [] ls) l).1
unfolding lookup Fades
lookup_revoked d t ls l revoked same late gone =
    elim (Option-cases (get (lookups [] ls) l.device_id)) [
      | inl miss ↦ rw (lookup, miss) (Gone-fetch (lookups [] ls) l.device_id l.now l.registry gone)
      | inr (hit, found) ↦
          rw (lookup, found)
            (Gone-served hit (ltb l.now hit.until) (lookups [] ls) _
              (ground (
                arith,
                late,
                Fades-lookups d t [] ls revoked (Fades-empty d t) hit
                    (subst (λ k. get (lookups [] ls) k ≡ some hit) same found),
              ))
              (Gone-fetch (lookups [] ls) l.device_id l.now l.registry gone))
    ]
