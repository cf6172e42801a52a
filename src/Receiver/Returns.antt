-- ===== src/Receiver/Returns.antt =====
-- What a call that may raise returns: rules for the ways to build one.
use mathlib.Core.Path.{subst}
use robo_services.Prelude.{
  ◌≡◌, refl, arith, Bool, false, true, List, [], ◌∷◌, length, if◌then◌else◌, Result, ok, err, ◌>>=◌,
  All,
}
use robo_services.Receiver.{Raised, packet_error, date_out_of_range, parser_failure}
use robo_services.Receiver.Frames.{collect}

-- What a call returns is good, if it returns.
pub record Ensures {A : Type 0} (P : A → Type 0) (r : Result Raised A) : Type 0 where
  pub at : (a : A) → r ≡ ok a → P a

module _ {A : Type 0} {P : A → Type 0} where
  pub ok-Ensures : (a : A) → P a → Ensures P (ok a)
  ok-Ensures a p = record { at = λ b h. subst P (ground (arith, h)) p }

  pub err-Ensures : (e : Raised) → Ensures P (err e)
  err-Ensures e = record { at = λ b h. absurd (cc) }

  pub bind-Ensures :
      {B : Type 0} (r : Result Raised B) (f : B → Result Raised A)
      → ((b : B) → Ensures P (f b))
      → Ensures P (r >>= f)
  bind-Ensures (ok b) f h = h b
  bind-Ensures (err e) f h = err-Ensures e

pub if-Ensures :
    {A : Type 0} {P : A → Type 0} (b : Bool) (r q : Result Raised A)
    → (b ≡ true → Ensures P r)
    → (b ≡ false → Ensures P q)
    → Ensures P (if b then r else q)
if-Ensures true r q h k = h refl
if-Ensures false r q h k = k refl

-- The first call gives something good, and with that the rest does.
pub bind_with :
    {A B : Type 0} {Q : B → Type 0} {P : A → Type 0} (r : Result Raised B) (f : B → Result Raised A)
    → Ensures Q r
    → ((b : B) → Q b → Ensures P (f b))
    → Ensures P (r >>= f)
bind_with (ok b) f q h = h b (q.at b refl)
bind_with (err e) f q h = err-Ensures e

pub collect-Ensures :
    {A B : Type 0} {P : B → Type 0} (body : A → Result Raised B) (xs : List A)
    → ((a : A) → Ensures P (body a))
    → Ensures (λ bs. All P bs × (length bs ≡ length xs)) (collect body xs)
unfolding collect
collect-Ensures body [] h = ok-Ensures [] (tt, refl)
collect-Ensures body (x ∷ xs) h = bind_with (body x) _ (h x) (λ b p.
    bind_with (collect body xs) _ (collect-Ensures body xs h)
      (λ bs q. ok-Ensures (b ∷ bs) ((p, q.0), omega (arith, q.1))))

-- A `PacketError`, a time that is no date, or another exception of the JSON parser.
abbrev pub IsExpected : Raised → Type 0
IsExpected (packet_error fault) = Unit
IsExpected date_out_of_range = Unit
IsExpected parser_failure = Unit
IsExpected _ = ⊥

-- The call raises nothing else.
pub record Expects {A : Type 0} (r : Result Raised A) : Type 0 where
  pub at : (e : Raised) → r ≡ err e → IsExpected e

pub ok-Expects : {A : Type 0} (a : A) → Expects (ok a)
ok-Expects a = record { at = λ e h. absurd (cc) }

pub err-Expects : {A : Type 0} (e : Raised) → IsExpected e → Expects {A = A} (err e)
err-Expects e p = record { at = λ e' h. subst IsExpected (ground (arith, h)) p }

pub bind-Expects :
    {A B : Type 0} (r : Result Raised B) (f : B → Result Raised A)
    → Expects r
    → ((b : B) → Expects (f b))
    → Expects (r >>= f)
bind-Expects (ok b) f q h = h b
bind-Expects (err e) f q h = err-Expects e (q.at e refl)
