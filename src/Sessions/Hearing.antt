-- ===== src/Sessions/Hearing.antt =====
-- When a session is shown as open.
use robo_services.Prelude.{
  ℕ, ◌+◌, ◌≤◌, ◌≡◌, ◌↔◌, ◌⊎◌, inl, inr, refl, arith, ltb, Option, none, some, Bool-cases,
}
use robo_services.Sessions.{open_now, unterminated_after, has_all_frames, state_of, derive_state}

-- A time at which something of the session was heard, its start or a frame.
abbrev pub IsHeard : Option ℕ → Option ℕ → ℕ → Type 0
IsHeard started last t = (started ≡ some t) ⊎ (last ≡ some t)

open_exact :
    (ended expected : Option ℕ) (received : ℕ) (started last : Option ℕ) (now : ℕ)
    → (state_of ended expected received started last now ≡ open_now)
      ↔ ((ended ≡ none) × ((t : ℕ) × (IsHeard started last t × (now ≤ t + unterminated_after))))
unfolding state_of has_all_frames
open_exact (some e) none received started last now = (λ h. ground arith, λ h. ground arith)
open_exact (some e) (some n) received started last now = (λ h. ground arith, λ h. ground arith)
open_exact none expected received none none now =
    (λ h. ground arith, λ (_, (t, (heard, _))). ground (arith, heard))
open_exact none expected received (some s) none now = (
  λ h. (refl, (s, (inl refl, ground (arith, h)))),
  λ (_, (t, (heard, soon))). ground (arith, heard, soon),
)
open_exact none expected received none (some l) now = (
  λ h. (refl, (l, (inr refl, ground (arith, h)))),
  λ (_, (t, (heard, soon))). ground (arith, heard, soon),
)
open_exact none expected received (some s) (some l) now = (
  λ h. elim (Bool-cases (ltb l s)) [
    | inl e ↦ (refl, (s, (inl refl, ground (arith, e, h))))
    | inr e ↦ (refl, (l, (inr refl, ground (arith, e, h))))
  ],
  λ (_, (t, (heard, soon))). ground (arith, heard, soon),
)

module _ {F : Type 0} (percent : ℕ → ℕ → F) (hundred : F) where
  -- A session is shown as open exactly when it has no end and its start, or its last frame, is
  -- known and is at most 30 minutes ago.
  pub derive_state_open :
      (ended expected : Option ℕ) (received : ℕ) (started last : Option ℕ) (now : ℕ)
      → ((derive_state percent hundred ended expected received started last now).state ≡ open_now)
        ↔ ((ended ≡ none) × ((t : ℕ) × (IsHeard started last t × (now ≤ t + unterminated_after))))
  unfolding derive_state
  derive_state_open ended expected received started last now =
      open_exact ended expected received started last now
