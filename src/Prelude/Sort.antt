-- ===== src/Prelude/Sort.antt =====
-- Python's `sorted`, which is stable, for a test on keys; and texts in Python's order.
use Prim.Native.Nat.{ℕ, ◌+◌}
use mathlib.Core.Path.{◌≡◌, refl}
use mathlib.Core.Bool.{Bool, true, false}
use mathlib.Core.Logic.{◌⊎◌, inl, inr}
use mathlib.Core.List.{List, [], ◌∷◌, ◌++◌}
use native.Mathlib.Omega.{arith}
use robo_services.Prelude.Tests.{ltb, if◌then◌else◌, Bool-cases, ◌==◌, nat_eq}
use robo_services.Prelude.Lists.{All, All-imp}
use robo_services.Prelude.Text.{Text}

-- By the first code point that differs; a text comes before its continuations.
abbrev pub leb_text : Text → Text → Bool
leb_text [] t = true
leb_text (c ∷ s) [] = false
leb_text (c ∷ s) (d ∷ t) = if c == d then leb_text s t else ltb c d

pub leb_text-total : (s t : Text) → leb_text s t ≡ false → leb_text t s ≡ true
leb_text-total [] t h = absurd (cc)
leb_text-total (c ∷ s) [] h = refl
leb_text-total (c ∷ s) (d ∷ t) h = ground (arith, leb_text-total s t)

pub leb_text_trans :
    (s t u : Text) → leb_text s t ≡ true → leb_text t u ≡ true → leb_text s u ≡ true
leb_text_trans [] t u h k = refl
leb_text_trans (c ∷ s) [] u h k = absurd (cc)
leb_text_trans (c ∷ s) (d ∷ t) [] h k = absurd (cc)
leb_text_trans (c ∷ s) (d ∷ t) (e ∷ u) h k = ground (arith, leb_text_trans s t u)

pub leb_text-antisym : (s t : Text) → leb_text s t ≡ true → leb_text t s ≡ true → s ≡ t
leb_text-antisym [] [] h k = refl
leb_text-antisym [] (d ∷ t) h k = absurd (cc)
leb_text-antisym (c ∷ s) [] h k = absurd (cc)
leb_text-antisym (c ∷ s) (d ∷ t) h k = ground (arith, leb_text-antisym s t)

module _ {A : Type 0} (le : A → A → Bool) where
  abbrev pub insert_by : A → List A → List A
  insert_by x [] = x ∷ []
  insert_by x (y ∷ ys) = let rest = insert_by x ys in if le x y then x ∷ y ∷ ys else y ∷ rest

  -- `sorted(xs, key=…)`, where `le` compares the keys
  unfoldable pub sort_by : List A → List A
  sort_by [] = []
  sort_by (x ∷ xs) = insert_by x (sort_by xs)

  abbrev pub IsSorted : List A → Type 0
  IsSorted [] = Unit
  IsSorted (x ∷ xs) = All (λ y. le x y ≡ true) xs × IsSorted xs

  module _ (total : (a b : A) → le a b ≡ false → le b a ≡ true)
      (trans : (a b c : A) → le a b ≡ true → le b c ≡ true → le a c ≡ true) where
    All-insert_by :
        (z x : A) (ys : List A)
        → le z x ≡ true
        → All (λ y. le z y ≡ true) ys
        → All (λ y. le z y ≡ true) (insert_by x ys)
    All-insert_by z x [] h k = (h, tt)
    All-insert_by z x (y ∷ ys) h k = elim (Bool-cases (le x y)) [
      | inl e ↦ rw (e) (h, k)
      | inr e ↦ rw (e) (k.0, All-insert_by z x ys h k.1)
    ]

    IsSorted-insert_by : (x : A) (ys : List A) → IsSorted ys → IsSorted (insert_by x ys)
    IsSorted-insert_by x [] h = (tt, tt)
    IsSorted-insert_by x (y ∷ ys) h = elim (Bool-cases (le x y)) [
      | inl e ↦ rw (e) ((e, All-imp (λ z k. trans x y z e k) ys h.0), h)
      | inr e ↦ rw (e) (All-insert_by y x ys (total x y e) h.0, IsSorted-insert_by x ys h.1)
    ]

    pub sort_by-IsSorted : (xs : List A) → IsSorted (sort_by xs)
    unfolding sort_by
    sort_by-IsSorted [] = tt
    sort_by-IsSorted (x ∷ xs) = IsSorted-insert_by x (sort_by xs) (sort_by-IsSorted xs)

-- Some element is as `P` says.
abbrev pub Any : {A : Type 0} → (A → Type 0) → List A → Type 0
Any P [] = ⊥
Any P (x ∷ xs) = P x ⊎ Any P xs

pub Any-All :
    {A : Type 0} (P Q : A → Type 0) (xs : List A) → Any P xs → All Q xs → (x : A) × (P x × Q x)
Any-All P Q [] h k = elim h [ ]
Any-All P Q (x ∷ xs) (inl p) k = (x, (p, k.0))
Any-All P Q (x ∷ xs) (inr h) k = Any-All P Q xs h k.1

module _ {A : Type 0} (P : A → Type 0) (le : A → A → Bool) where
  All-of-insert_by : (x : A) (ys : List A) → All P (insert_by le x ys) → P x × All P ys
  All-of-insert_by x [] h = h
  All-of-insert_by x (y ∷ ys) h = elim (Bool-cases (le x y)) [
    | inl e ↦ rw e at h
    | inr e ↦
        let k : All P (y ∷ insert_by le x ys) = rw e at h in
        let (mine, others) = All-of-insert_by x ys k.1 in (mine, (k.0, others))
  ]

  Any-of-insert_by : (x : A) (ys : List A) → Any P (insert_by le x ys) → P x ⊎ Any P ys
  Any-of-insert_by x [] h = h
  Any-of-insert_by x (y ∷ ys) h = elim (Bool-cases (le x y)) [
    | inl e ↦ rw e at h
    | inr e ↦ later (Any-of-insert_by x ys) (rw e at h)
  ]
    where
      later :
          (Any P (insert_by le x ys) → P x ⊎ Any P ys)
          → Any P (y ∷ insert_by le x ys)
          → P x ⊎ Any P (y ∷ ys)
      later rest (inl p) = inr (inl p)
      later rest (inr k) = elim (rest k) [ inl p ↦ inl p | inr q ↦ inr (inr q) ]

  -- What holds of all or of some elements of a sorted list holds of the list.
  pub All-of-sort_by : (xs : List A) → All P (sort_by le xs) → All P xs
  unfolding sort_by
  All-of-sort_by [] h = h
  All-of-sort_by (x ∷ xs) h =
      let (mine, others) = All-of-insert_by x (sort_by le xs) h in (mine, All-of-sort_by xs others)

  pub Any-of-sort_by : (xs : List A) → Any P (sort_by le xs) → Any P xs
  unfolding sort_by
  Any-of-sort_by [] h = h
  Any-of-sort_by (x ∷ xs) h = elim (Any-of-insert_by x (sort_by le xs) h) [
    | inl p ↦ inl p
    | inr k ↦ inr (Any-of-sort_by xs k)
  ]

module _ {A : Type 0} (measure : A → ℕ) where
  abbrev pub sum_of : List A → ℕ
  sum_of [] = 0
  sum_of (x ∷ xs) = measure x + sum_of xs

  sum_of-insert_by :
      (le : A → A → Bool) (x : A) (ys : List A) → sum_of (insert_by le x ys) ≡ measure x + sum_of ys
  sum_of-insert_by le x [] = refl
  sum_of-insert_by le x (y ∷ ys) = ground (arith, sum_of-insert_by le x ys)

  -- Sorting loses nothing and adds nothing.
  pub sum_of-sort_by : (le : A → A → Bool) (xs : List A) → sum_of (sort_by le xs) ≡ sum_of xs
  unfolding sort_by
  sum_of-sort_by le [] = refl
  sum_of-sort_by le (x ∷ xs) =
      omega (arith, sum_of-insert_by le x (sort_by le xs), sum_of-sort_by le xs)

  pub sum_of-append : (xs ys : List A) → sum_of (xs ++ ys) ≡ sum_of xs + sum_of ys
  sum_of-append [] ys = omega arith
  sum_of-append (x ∷ xs) ys = omega (arith, sum_of-append xs ys)
