-- ===== src/VehicleState/Rows/Seen.antt =====
-- snapshot.py, `build_rows`: the carry after a frame, by the times of the samples as they came.
use robo_services.Prelude.{
  ℕ, ◌+◌, ◌*◌, ◌≤◌, ◌<◌, ◌≡◌, ◌⊎◌, refl, String, string_eq, Bool, true, List, [], ◌∷◌, arith, ltb,
  leb, Option, none, some, ok, Bool-cases, inl, inr, All, All-imp,
}
use robo_services.Prelude.Dict.{Dict, get}
use robo_services.Prelude.Sort.{Any, Any-All, All-of-sort_by, Any-of-sort_by}
use robo_services.Signal.{FloatOps}
use robo_services.VehicleState.Snapshot.{can_time, CanSample, FrameData}
use robo_services.VehicleState.Roles.{RoleSpec}
use robo_services.VehicleState.Rows.{Carry, Row, before, in_order, row_count, build_rows}
use robo_services.VehicleState.Rows.Intervals.{IsInOrder, IsInOrder-in_order}
use robo_services.VehicleState.Rows.Latest.{
  value_in, latest_value, or_before, build_rows-latest_value,
}

module _ {F : Type 0} (name : String) (end : ℕ) where
  -- A sample of that time, before the end, that has the value
  abbrev pub Gives : F → ℕ → CanSample F → Type 0
  Gives v seen x = (x.t_us ≡ seen) × (seen < end) × (value_in name x.signals ≡ some v)

  -- A sample that is not before the end, or has no value of the name, or is not after a time
  abbrev pub IsNotLater : ℕ → CanSample F → Type 0
  IsNotLater seen y = (end ≤ y.t_us) ⊎ ((value_in name y.signals ≡ none) ⊎ (y.t_us ≤ seen))

  -- The value of a name that samples in any order give, with its time: that of a sample, and no sample
  -- with a value is later; or none, where none has a value before the end.
  abbrev pub IsLastSeen : List (CanSample F) → Option (F × ℕ) → Type 0
  IsLastSeen xs none = All (λ y. (end ≤ y.t_us) ⊎ (value_in name y.signals ≡ none)) xs
  IsLastSeen xs (some (v, seen)) = Any (Gives v seen) xs × All (IsNotLater seen) xs

  with_first :
      (x : CanSample F) (xs : List (CanSample F)) (o : Option (F × ℕ)) (w : Option F)
      → value_in name x.signals ≡ w
      → x.t_us < end
      → All (λ y. leb x.t_us y.t_us ≡ true) xs
      → IsLastSeen xs o
      → IsLastSeen (x ∷ xs) (elim o as (λ r. Option (F × ℕ)) [
        | none ↦ elim w as (λ r. Option (F × ℕ)) [ none ↦ none | some v ↦ some (v, x.t_us) ]
        | some r ↦ some r
      ])
  with_first x xs none none e early first h = (inr e, h)
  with_first x xs none (some v) e early first h = (
    inl (refl, early, e),
    (
      inr (inr (omega arith)),
      All-imp
          (λ (y : CanSample F) (k : (end ≤ y.t_us) ⊎ (value_in name y.signals ≡ none)).
            elim k as (λ q. IsNotLater x.t_us y) [
              | inl late ↦ inl late
              | inr no_value ↦ inr (inl no_value)
            ])
          xs h,
    ),
  )
  with_first x xs (some (v, seen)) w e early first h =
      let (y, (gives, after)) =
        Any-All (Gives v seen) (λ y. leb x.t_us y.t_us ≡ true) xs h.0 first in
      (inr h.0, (inr (inr (ground (arith, gives.0, after))), h.1))

  latest_value-IsLastSeen :
      (xs : List (CanSample F))
      → IsInOrder can_time xs
      → IsLastSeen xs (latest_value name (before can_time end xs))
  unfolding before
  latest_value-IsLastSeen [] h = tt
  latest_value-IsLastSeen (x ∷ xs) h = elim (Bool-cases (ltb x.t_us end)) [
    | inl e ↦ rw e (
        with_first x xs (latest_value name (before can_time end xs)) (value_in name x.signals) refl
          (ground (arith, e)) h.0 (latest_value-IsLastSeen xs h.1))
    | inr e ↦ rw e (
      inl (ground (arith, e)),
      All-imp (λ (y : CanSample F) le. inl (ground (arith, e, le))) xs h.0,
    )
  ]

  IsLastSeen-of-in_order :
      (xs : List (CanSample F)) (o : Option (F × ℕ))
      → IsLastSeen (in_order can_time xs) o
      → IsLastSeen xs o
  unfolding in_order
  IsLastSeen-of-in_order xs none h = All-of-sort_by _ (λ x y. leb x.t_us y.t_us) xs h
  IsLastSeen-of-in_order xs (some (v, seen)) h = (
    Any-of-sort_by (Gives v seen) (λ x y. leb x.t_us y.t_us) xs h.0,
    All-of-sort_by (IsNotLater seen) (λ x y. leb x.t_us y.t_us) xs h.1,
  )

module _ {F : Type 0} (ops : FloatOps F) (code : F → Option String) (data_of : FrameData F)
    (interval_us : ℕ) (roles : Dict String (RoleSpec F)) (complete : Bool) (name : String) where
  -- Where the rows of a frame are built, with a frame length above 0, the carry then has, for each
  -- name, the value and the time of one of the frame's CAN samples before the end of the last interval
  -- that has a value of that name, and none of the frame's samples before that end that has one is
  -- later, in whatever order they came; or, where no sample before that end has a value of the name,
  -- what it had before the frame.
  pub build_rows-IsLastSeen :
      (carry : Carry F) (frame_us : ℕ) (rows : List (Row F)) (last : Carry F)
      → 0 < frame_us
      → build_rows ops code data_of interval_us roles complete carry frame_us ≡ ok (rows, last)
      → (o : Option (F × ℕ)) × ((get last name ≡ or_before name o (get carry name))
          × IsLastSeen name
              (data_of.base_us + row_count interval_us frame_us * interval_us)
              data_of.can
              o)
  build_rows-IsLastSeen carry frame_us rows last long h =
      let end = data_of.base_us + row_count interval_us frame_us * interval_us in
      let o = latest_value name (before can_time end (in_order can_time data_of.can)) in
      (
        o,
        (
          build_rows-latest_value ops code data_of interval_us roles complete name carry frame_us
              rows last long h,
          IsLastSeen-of-in_order name end data_of.can o (
              latest_value-IsLastSeen name end (in_order can_time data_of.can)
                (IsInOrder-in_order can_time data_of.can)),
        ),
      )
