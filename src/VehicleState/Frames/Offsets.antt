-- ===== src/VehicleState/Frames/Offsets.antt =====
-- The offset that is stored for a topic stays below every message of a frame that is not closed, so
-- that a restart reads those messages again.
use robo_services.Prelude.{
  ℕ, ◌-◌, ◌<◌, ◌≤◌, ◌≡◌, ◌⊎◌, refl, ap, ◌∙◌, List, [], ◌∷◌, ◌++◌, arith, ltb, if◌then◌else◌, ◌==◌,
  Eq, nat_eq, string_eq, pair_eq, Option, none, some, Bool-cases, inl, inr,
}
use robo_services.Prelude.Dict.{Dict, get, get_or}
use robo_services.VehicleState.Kind.{Kind, gps, imu}
use robo_services.VehicleState.Frames.{Key, Message, OpenFrame, FrameTable, frames_of, find_frame}
use robo_services.VehicleState.Frames.Ingest.{absorb}
use robo_services.VehicleState.Frames.Closing.{noted, firsts_in, firsts, minimum, commit_offset}

abbrev Elem : ℕ → List ℕ → Type 0
Elem n [] = ⊥
Elem n (x ∷ xs) = (n ≡ x) ⊎ Elem n xs

Elem-append_left : (n : ℕ) (xs ys : List ℕ) → Elem n xs → Elem n (xs ++ ys)
Elem-append_left n [] ys h = absurd h
Elem-append_left n (x ∷ xs) ys (inl e) = inl e
Elem-append_left n (x ∷ xs) ys (inr h) = inr (Elem-append_left n xs ys h)

Elem-append_right : (n : ℕ) (xs ys : List ℕ) → Elem n ys → Elem n (xs ++ ys)
Elem-append_right n [] ys h = h
Elem-append_right n (x ∷ xs) ys h = inr (Elem-append_right n xs ys h)

minimum-le : (m : ℕ) (ns : List ℕ) → minimum m ns ≤ m
unfolding minimum
minimum-le m [] = omega arith
minimum-le m (n ∷ ns) = ground (arith, minimum-le (if ltb n m then n else m) ns)

minimum-le-Elem : (m n : ℕ) (ns : List ℕ) → Elem n ns → minimum m ns ≤ n
unfolding minimum
minimum-le-Elem m n [] h = absurd h
minimum-le-Elem m n (x ∷ ns) (inl e) = ground (arith, minimum-le (if ltb x m then x else m) ns)
minimum-le-Elem m n (x ∷ ns) (inr h) = minimum-le-Elem (if ltb x m then x else m) n ns h

Elem-noted_self : (o : Option ℕ) (n : ℕ) (ns : List ℕ) → o ≡ some n → Elem n (noted o ns)
Elem-noted_self none n ns h = cc
Elem-noted_self (some m) n ns h = inl (ground arith)

Elem-noted : (o : Option ℕ) (n : ℕ) (ns : List ℕ) → Elem n ns → Elem n (noted o ns)
Elem-noted none n ns h = h
Elem-noted (some m) n ns h = inr h

get_or-cons {ℓ κ} :
    {K : Type ℓ} {V : Type κ} ⦃e : Eq K⦄ (k j : K) (v w : V) (d : Dict K V)
    → get_or ((k, v) ∷ d) j w ≡ (if e.beq k j then v else get_or d j w)
unfolding get get_or
get_or-cons k j v w d = ground arith

module _ {F : Type 0} (kind : Kind) (n : ℕ) (f : OpenFrame F)
    (first : f.first_offset kind ≡ some n) where
  Elem-firsts_in :
      (fs : Dict ℕ (OpenFrame F)) (base : ℕ) → get fs base ≡ some f → Elem n (firsts_in kind fs)
  unfolding get firsts_in
  Elem-firsts_in [] base g = cc
  Elem-firsts_in ((b, x) ∷ fs) base g = elim (Bool-cases (b == base)) [
    | inl e ↦
        let same : x ≡ f = ground arith in
        Elem-noted_self (x.first_offset kind) n (firsts_in kind fs)
          (ap (λ (y : OpenFrame F). y.first_offset kind) same ∙ first)
    | inr e ↦
        Elem-noted (x.first_offset kind) n (firsts_in kind fs) (Elem-firsts_in fs base (rw e at g))
  ]

  nothing_open :
      (key : Key) (base : ℕ) → get (get_or {V = Dict ℕ (OpenFrame F)} [] key []) base ≡ some f → ⊥
  unfolding get get_or
  nothing_open key base g = cc

  Elem-firsts :
      (sessions : Dict Key (Dict ℕ (OpenFrame F))) (key : Key) (base : ℕ)
      → get (get_or sessions key []) base ≡ some f
      → Elem n (firsts kind sessions)
  unfolding get firsts
  Elem-firsts [] key base g = absurd (nothing_open key base g)
  Elem-firsts ((k, fs) ∷ sessions) key base g = elim (Bool-cases (k == key)) [
    | inl e ↦
        Elem-append_left n (firsts_in kind fs) (firsts kind sessions)
          (Elem-firsts_in fs base (simp (get_or-cons, e) at g))
    | inr e ↦
        Elem-append_right n (firsts_in kind fs) (firsts kind sessions)
          (Elem-firsts sessions key base (simp (get_or-cons, e) at g))
  ]

module _ {F : Type 0} where
  -- The frame is open, and the first message of the kind in it is at `offset` or before.
  pub record Guards (t : FrameTable F) (kind : Kind) (offset : ℕ) (key : Key) (base : ℕ)
      : Type 0 where
    pub frame : OpenFrame F
    pub found : find_frame t key base ≡ some frame
    pub first : ℕ
    pub noted : frame.first_offset kind ≡ some first
    pub not_after : first ≤ offset

  first_below :
      (t : FrameTable F) (kind : Kind) (ns : List ℕ) {n c : ℕ}
      → Elem n ns
      → (elim ns [
        | [] ↦ t.last_offset kind
        | m ∷ ms ↦ let k = minimum m ms in if ltb 0 k then some (k - 1) else none
      ])
        ≡ some c
      → c < n
  first_below t kind [] e h = absurd e
  first_below t kind (m ∷ ms) {n} (inl e) h = ground (arith, minimum-le m ms)
  first_below t kind (m ∷ ms) {n} (inr e) h = ground (arith, minimum-le-Elem m n ms e)

  pub commit_offset-lt :
      (t : FrameTable F) (kind : Kind) (offset : ℕ) (key : Key) (base : ℕ) {c : ℕ}
      → Guards t kind offset key base
      → commit_offset t kind ≡ some c
      → c < offset
  unfolding commit_offset find_frame frames_of
  commit_offset-lt t kind offset key base g h = omega (
    arith,
    g.not_after,
    first_below t kind (firsts kind t.frames)
        (Elem-firsts kind g.first g.frame g.noted t.frames key base g.found) h,
  )

  -- What a message adds to a frame leaves its first offsets as `touch` noted them.
  pub first_offset-absorb :
      (f : OpenFrame F) (k : Kind) (base : ℕ) (m : Message F)
      → (absorb f k base m).0.first_offset ≡ f.first_offset
  unfolding absorb
  first_offset-absorb f gps base m = ground arith
  first_offset-absorb f imu base m = ground arith
  first_offset-absorb f _ base m = refl

  -- No first offset lies beyond the last offset that was read.
  pub record IsOrdered (t : FrameTable F) : Type 0 where
    pub ordered :
        (key : Key) (base : ℕ) (f : OpenFrame F) (k : Kind) (n : ℕ)
        → find_frame t key base ≡ some f
        → f.first_offset k ≡ some n
        → (l : ℕ) × (t.last_offset k ≡ some l) × (n ≤ l)

  -- The offset is beyond all that were read of the topic.
  abbrev pub IsNext : FrameTable F → Kind → ℕ → Type 0
  IsNext t k offset = (l : ℕ) → t.last_offset k ≡ some l → l < offset
