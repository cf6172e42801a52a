-- ===== src/VehicleState/Frames/Find.antt =====
-- Which frames are open after a message and after a closing.
use robo_services.Prelude.{
  ℕ, ◌≡◌, refl, ap, true, ◌&&◌, List, [], ◌∷◌, arith, is_empty, if◌then◌else◌, ◌==◌, Eq, nat_eq,
  string_eq, pair_eq, pair_beq_iff, none, some, Bool-cases, inl, inr,
}
use robo_services.Prelude.Dict.{Dict, get, get_or, set, pop, get-set, get-pop, get-empty}
use robo_services.VehicleState.Kind.{Kind}
use robo_services.VehicleState.Frames.{Key, Message, OpenFrame, FrameTable, frames_of, find_frame}
use robo_services.VehicleState.Frames.Ingest.{key_of, take_in, taken, frame_or_new}
use robo_services.VehicleState.Frames.Closing.{close}

is_empty-eq {ℓ} : {A : Type ℓ} (xs : List A) → is_empty xs ≡ true → xs ≡ []
is_empty-eq [] h = refl
is_empty-eq (x ∷ xs) h = cc

module _ {ℓ κ} {K : Type ℓ} {V : Type κ} ⦃e : Eq K⦄ where
  pub get_or-set :
      (d : Dict K V) (k j : K) (v w : V)
      → get_or (set d k v) j w ≡ (if e.beq k j then v else get_or d j w)
  unfolding get_or
  get_or-set d k j v w = ground (arith, get-set d k j v)

  get_or-pop :
      (d : Dict K V) (k j : K) (w : V)
      → get_or (pop d k) j w ≡ (if e.beq k j then w else get_or d j w)
  unfolding get_or
  get_or-pop d k j w = ground (arith, get-pop d k j)

module _ {F : Type 0} (t : FrameTable F) where
  pub find_frame-take_in :
      (kind : Kind) (offset : ℕ) (m : Message F) (now base : ℕ) (key : Key) (b : ℕ)
      → find_frame (take_in t kind offset m now base).0 key b ≡ (
          if (key_of m == key) && (base == b)
          then some (taken (frame_or_new t (key_of m) base now) kind offset m now base).0
          else find_frame t key b)
  unfolding find_frame frames_of take_in
  find_frame-take_in kind offset m now base key b =
      let f = (taken (frame_or_new t (key_of m) base now) kind offset m now base).0 in
      let inner = set (get_or t.frames (key_of m) []) base f in
      ground (
        arith,
        get_or-set t.frames (key_of m) key inner [],
        get-set (get_or t.frames (key_of m) []) base b f,
        pair_beq_iff (key_of m) key,
      )

  pub find_frame-close :
      (key : Key) (base : ℕ) (key' : Key) (b : ℕ)
      → find_frame (close t key base) key' b
        ≡ (if (key == key') && (base == b) then none else find_frame t key' b)
  unfolding find_frame frames_of close
  find_frame-close key base key' b =
      let fs = get_or t.frames key [] in
      let rest = pop fs base in
      elim (Bool-cases (is_empty rest)) [
        | inl e ↦ rw e (
            ground (
              arith,
              get_or-pop t.frames key key' [],
              get-pop fs base b,
              ap (λ (d : Dict ℕ (OpenFrame F)). get d b) (is_empty-eq rest e),
              get-empty {V = OpenFrame F} b,
              pair_beq_iff key key',
            ))
        | inr e ↦ rw e (
            ground (
              arith,
              get_or-set t.frames key key' rest [],
              get-pop fs base b,
              pair_beq_iff key key',
            ))
      ]
