-- ===== src/Prelude/Dict.antt =====
-- A Python dict, as an association list in insertion order.
use Prim.Native.Nat.{ℕ, ◌+◌}
use mathlib.Core.Path.{◌≡◌, refl, sym, ap, ◌∙◌}
use mathlib.Core.Bool.{Bool, true, false}
use mathlib.Core.Option.{Option, none, some}
use mathlib.Core.List.{List, [], ◌∷◌, map}
use native.Mathlib.Omega.{arith}
use mathlib.Core.Path.{subst, ap₂}
use mathlib.Core.Logic.{inl, inr}
use robo_services.Prelude.Tests.{Eq, if◌then◌else◌, Bool-cases}
use robo_services.Prelude.Lists.{All}

abbrev pub Dict {ℓ κ} : Type ℓ → Type κ → Type (ℓ ⊔ κ)
Dict K V = List (K × V)

module _ {ℓ κ} {K : Type ℓ} {V : Type κ} where
  abbrev pub keys : Dict K V → List K
  keys d = map (λ (e : K × V). e.0) d

  abbrev pub values : Dict K V → List V
  values d = map (λ (e : K × V). e.1) d

module _ {ℓ κ} {K : Type ℓ} {V : Type κ} ⦃e : Eq K⦄ where
  -- `d.get(k)`
  unfoldable pub get : Dict K V → K → Option V
  get [] k = none
  get ((j, v) ∷ d) k = if e.beq j k then some v else get d k

  -- `d.get(k, default)`
  unfoldable pub get_or : Dict K V → K → V → V
  get_or d k v = elim (get d k) [ none ↦ v | some w ↦ w ]

  -- `k in d`
  unfoldable pub contains : Dict K V → K → Bool
  contains d k = elim (get d k) [ none ↦ false | some w ↦ true ]

  -- `d[k] = v`: in place where the key is there, else at the end
  unfoldable pub set : Dict K V → K → V → Dict K V
  set [] k v = (k, v) ∷ []
  set ((j, w) ∷ d) k v = if e.beq j k then (j, v) ∷ d else (j, w) ∷ set d k v

  -- `d.pop(k, None)`
  unfoldable pub pop : Dict K V → K → Dict K V
  pop [] k = []
  pop ((j, w) ∷ d) k = let rest = pop d k in if e.beq j k then rest else (j, w) ∷ rest

  pub get-empty : (k : K) → get [] k ≡ none
  unfolding get
  get-empty k = refl

  pub get-set :
      (d : Dict K V) (k j : K) (v : V) → get (set d k v) j ≡ (if e.beq k j then some v else get d j)
  unfolding get set
  get-set [] k j v = refl
  get-set ((i, w) ∷ d) k j v =
      ground (arith, e.beq_iff i k, e.beq_iff i j, e.beq_iff k j, get-set d k j v)

  pub get-pop : (d : Dict K V) (k j : K) → get (pop d k) j ≡ (if e.beq k j then none else get d j)
  unfolding get pop
  get-pop [] k j = ground arith
  get-pop ((i, w) ∷ d) k j =
      ground (arith, e.beq_iff i k, e.beq_iff i j, e.beq_iff k j, get-pop d k j)

  -- A predicate of the entries is kept by a new entry, and holds of an entry that is found.
  pub All-set {μ} :
      (P : K × V → Type μ) (d : Dict K V) (k : K) (v : V)
      → ((j : K) → j ≡ k → P (j, v))
      → All P d
      → All P (set d k v)
  unfolding set
  All-set P [] k v new h = (new k refl, tt)
  All-set P ((j, w) ∷ d) k v new h = elim (Bool-cases (e.beq j k)) [
    | inl same ↦ rw (same) (new j ((e.beq_iff j k).0 same), h.1)
    | inr other ↦ rw (other) (h.0, All-set P d k v new h.1)
  ]

  pub All-get {μ} :
      (P : K × V → Type μ) (d : Dict K V) (k : K) (v : V) → get d k ≡ some v → All P d → P (k, v)
  unfolding get
  All-get P [] k v found h = absurd (cc)
  All-get P ((j, w) ∷ d) k v found h = elim (Bool-cases (e.beq j k)) [
    | inl same ↦
        subst P (ap₂ (λ i x. (i, x)) ((e.beq_iff j k).0 same) (ground (arith, found, same))) h.0
    | inr other ↦ All-get P d k v (ground (arith, found, other)) h.1
  ]

  pub get-set_self : (d : Dict K V) (k : K) (v : V) → get (set d k v) k ≡ some v
  get-set_self d k v = ground (arith, get-set d k k v, e.beq_iff k k)

  pub get-pop_self : (d : Dict K V) (k : K) → get (pop d k) k ≡ none
  get-pop_self d k = ground (arith, get-pop d k k, e.beq_iff k k)

pub ruleset dict_laws = (get-empty, get-set, get-pop)

-- What holds of all entries holds of those that are left.
pub All-pop {ℓ κ μ} :
    {K : Type ℓ} {V : Type κ} ⦃e : Eq K⦄ (P : K × V → Type μ) (d : Dict K V) (k : K)
    → All P d
    → All P (pop d k)
unfolding pop
All-pop P [] k h = tt
All-pop ⦃e⦄ P ((j, w) ∷ d) k h = elim (Bool-cases (e.beq j k)) [
  | inl same ↦ rw (same) (All-pop P d k h.1)
  | inr other ↦ rw (other) (h.0, All-pop P d k h.1)
]

-- What an entry measures, if there is one.
abbrev pub measure_at : {V : Type 0} → (V → ℕ) → Option V → ℕ
measure_at measure none = 0
measure_at measure (some v) = measure v

module _ {K V : Type 0} ⦃e : Eq K⦄ where
  -- No key stands in a list of entries twice.
  abbrev pub IsDict : Dict K V → Type 0
  IsDict [] = Unit
  IsDict ((k, v) ∷ d) = (get d k ≡ none) × IsDict d

  pub IsDict-set : (d : Dict K V) (k : K) (v : V) → IsDict d → IsDict (set d k v)
  unfolding set
  IsDict-set [] k v h = (get-empty k, tt)
  IsDict-set ((j, w) ∷ d) k v h = elim (Bool-cases (e.beq j k)) [
    | inl same ↦ rw same h
    | inr other ↦ rw other (
      get-set d k j v ∙ ground (arith, h.0, other, e.beq_iff j k, e.beq_iff k j),
      IsDict-set d k v h.1,
    )
  ]

  pub IsDict-pop : (d : Dict K V) (k : K) → IsDict d → IsDict (pop d k)
  unfolding pop
  IsDict-pop [] k h = tt
  IsDict-pop ((j, w) ∷ d) k h = elim (Bool-cases (e.beq j k)) [
    | inl same ↦ rw same (IsDict-pop d k h.1)
    | inr other ↦ rw other (ground (arith, h.0, get-pop d k j), IsDict-pop d k h.1)
  ]

  -- What the entries measure, before and after one is set or taken out.
  module _ (measure : V → ℕ) where
    abbrev pub total : Dict K V → ℕ
    total [] = 0
    total ((k, v) ∷ d) = measure v + total d

    pub total-set :
        (d : Dict K V) (k : K) (v : V)
        → total (set d k v) + measure_at measure (get d k) ≡ total d + measure v
    unfolding set get
    total-set [] k v = omega arith
    total-set ((j, w) ∷ d) k v = ground (arith, total-set d k v)

    pub total-pop :
        (d : Dict K V) (k : K) → IsDict d → total (pop d k) + measure_at measure (get d k) ≡ total d
    unfolding pop get
    total-pop [] k h = omega arith
    total-pop ((j, w) ∷ d) k h = elim (Bool-cases (e.beq j k)) [
      | inl same ↦
          let gone = ap (λ (i : K). get d i) (sym ((e.beq_iff j k).0 same)) ∙ h.0 in
          ground (arith, same, gone, total-pop d k h.1)
      | inr other ↦ ground (arith, other, total-pop d k h.1)
    ]
