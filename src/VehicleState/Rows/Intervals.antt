-- ===== src/VehicleState/Rows/Intervals.antt =====
-- snapshot.py: the inner loops of `build_rows`, which take the samples of one interval after another
-- from a list in time order.
use robo_services.Prelude.{
  ℕ, zero, suc, ◌+◌, ◌*◌, ◌≤◌, ◌≡◌, refl, sym, ap, ◌∙◌, List, [], ◌∷◌, arith, length, ltb, leb,
  if◌then◌else◌, Bool-cases, All, All-imp, inl, inr,
}
use robo_services.Prelude.Sort.{IsSorted, sort_by-IsSorted, sum_of}
use robo_services.VehicleState.Rows.{before, from, in_order}

pub length-sum_of : {A : Type 0} (xs : List A) → length xs ≡ sum_of (λ x. 1) xs
length-sum_of [] = refl
length-sum_of (x ∷ xs) = omega (arith, length-sum_of xs)

pub start-zero : (start interval : ℕ) → start + 0 * interval ≡ start
start-zero start interval = omega arith

pub start-suc : (start n interval : ℕ) → start + suc n * interval ≡ start + interval + n * interval
start-suc start n interval = omega arith

module _ {A : Type 0} (t_us : A → ℕ) where
  abbrev pub IsInOrder : List A → Type 0
  IsInOrder xs = IsSorted (λ x y. leb (t_us x) (t_us y)) xs

  abbrev pub IsFrom : ℕ → List A → Type 0
  IsFrom start xs = All (λ x. start ≤ t_us x) xs

  pub IsFrom-from : (end : ℕ) (xs : List A) → IsInOrder xs → IsFrom end (from t_us end xs)
  unfolding from
  IsFrom-from end [] h = tt
  IsFrom-from end (x ∷ xs) h = elim (Bool-cases (ltb (t_us x) end)) [
    | inl e ↦ rw e (IsFrom-from end xs h.1)
    | inr e ↦ rw e (ground (arith, e), All-imp (λ y le. ground (arith, e, le)) xs h.0)
  ]

  pub IsInOrder-from : (end : ℕ) (xs : List A) → IsInOrder xs → IsInOrder (from t_us end xs)
  unfolding from
  IsInOrder-from end [] h = tt
  IsInOrder-from end (x ∷ xs) h = elim (Bool-cases (ltb (t_us x) end)) [
    | inl e ↦ rw e (IsInOrder-from end xs h.1)
    | inr e ↦ rw e h
  ]

  pub IsInOrder-in_order : (xs : List A) → IsInOrder (in_order t_us xs)
  unfolding in_order
  IsInOrder-in_order xs =
      sort_by-IsSorted (λ x y. leb (t_us x) (t_us y)) (λ a b h. ground (arith, h))
        (λ a b c h k. ground (arith, h, k)) xs

  module _ (measure : A → ℕ) where
    -- What the samples before a time measure.
    abbrev pub total_before : ℕ → List A → ℕ
    total_before end xs = sum_of (λ x. if ltb (t_us x) end then measure x else 0) xs

    -- What the rounds take, from the one that starts at `start` on.
    abbrev pub total_taken : ℕ → ℕ → ℕ → List A → ℕ
    total_taken interval zero start xs = 0
    total_taken interval (suc n) start xs =
        sum_of measure (before t_us (start + interval) xs)
        + total_taken interval n (start + interval) (from t_us (start + interval) xs)

    total_before-IsFrom : (start : ℕ) (xs : List A) → IsFrom start xs → total_before start xs ≡ 0
    total_before-IsFrom start [] h = refl
    total_before-IsFrom start (x ∷ xs) h = ground (arith, total_before-IsFrom start xs h.1, h.0)

    before-from :
        (end last : ℕ) (xs : List A)
        → end ≤ last
        → sum_of measure (before t_us end xs) + total_before last (from t_us end xs)
          ≡ total_before last xs
    unfolding before from
    before-from end last [] h = omega arith
    before-from end last (x ∷ xs) h = ground (arith, before-from end last xs h, h)

    -- The first round and all that are left, when the latter take what comes before the last end.
    total_taken-suc :
        (interval n start : ℕ) (xs : List A)
        → total_taken interval n (start + interval) (from t_us (start + interval) xs)
          ≡ total_before (start + interval + n * interval) (from t_us (start + interval) xs)
        → total_taken interval (suc n) start xs ≡ total_before (start + suc n * interval) xs
    total_taken-suc interval n start xs rest =
        ap (λ r. sum_of measure (before t_us (start + interval) xs) + r) rest
        ∙ before-from (start + interval) (start + interval + n * interval) xs (omega arith)
        ∙ ap (λ s. total_before s xs) (sym (start-suc start n interval))

    total_taken-IsFrom :
        (interval n start : ℕ) (xs : List A)
        → IsInOrder xs
        → IsFrom start xs
        → total_taken interval n start xs ≡ total_before (start + n * interval) xs
    total_taken-IsFrom interval zero start xs o h =
        sym
          (ap (λ s. total_before s xs) (start-zero start interval) ∙ total_before-IsFrom start xs h)
    total_taken-IsFrom interval (suc n) start xs o h = total_taken-suc interval n start xs (
        total_taken-IsFrom interval n (start + interval) (from t_us (start + interval) xs)
          (IsInOrder-from (start + interval) xs o) (IsFrom-from (start + interval) xs o))

    -- All rounds together take what comes before the end of the last one.
    pub total_taken_lem :
        (interval n start : ℕ) (xs : List A)
        → IsInOrder xs
        → total_taken interval (suc n) start xs ≡ total_before (start + suc n * interval) xs
    total_taken_lem interval n start xs o = total_taken-suc interval n start xs (
        total_taken-IsFrom interval n (start + interval) (from t_us (start + interval) xs)
          (IsInOrder-from (start + interval) xs o) (IsFrom-from (start + interval) xs o))
