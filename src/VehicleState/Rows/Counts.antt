-- ===== src/VehicleState/Rows/Counts.antt =====
-- snapshot.py: the samples that the rows of a frame count.
pub mod Conservation
use robo_services.Prelude.{
  ℕ, suc, ◌+◌, ◌≡◌, refl, sym, ap, ◌∙◌, String, List, [], ◌∷◌, arith, length, map, if◌then◌else◌,
  ◌==◌, string_eq, Option, none, some, Bool-cases, inl, inr, Result, ok, err, Result-cases, ◌>>=◌,
}
use robo_services.Prelude.Dict.{Dict, get, set, get-set}
use robo_services.Prelude.Sort.{sum_of}
use robo_services.Signal.{FloatOps}
use robo_services.VehicleState.Snapshot.{CanSample, GpsFix, ImuSample, FrameData}
use robo_services.VehicleState.Roles.{RowFault, RoleSpec, apply_roles}
use robo_services.VehicleState.Rows.{
  Carry, Stats, SignalStats, Row, before, from, note_value, take_signals, take_samples,
  signal_stats, row_of, rows_from,
}

-- The entries with a name that have a value.
abbrev pub values_in : {F : Type 0} → String → Dict String (Option F) → ℕ
values_in name [] = 0
values_in name ((other, none) ∷ signals) = values_in name signals
values_in name ((other, some v) ∷ signals) =
    (if other == name then 1 else 0) + values_in name signals

module _ {F : Type 0} (name : String) where
  abbrev pub counted : Dict String (Stats F) → ℕ
  counted stats = elim (get stats name) [ none ↦ 0 | some s ↦ s.count ]

  -- The count of a name in a row.
  abbrev pub count_in : Row F → ℕ
  count_in r = elim (get r.signal_stats name) [ none ↦ 0 | some s ↦ s.count ]

  pub counted-signal_stats :
      (ops : FloatOps F) (stats : Dict String (Stats F))
      → elim (get (signal_stats ops stats) name) [ none ↦ 0 | some s ↦ s.count ] ≡ counted stats
  unfolding get signal_stats
  counted-signal_stats ops [] = refl
  counted-signal_stats ops ((other, s) ∷ stats) = ground (arith, counted-signal_stats ops stats)

module _ {F : Type 0} (ops : FloatOps F) (name : String) where
  counted-set :
      (stats : Dict String (Stats F)) (other : String) (s : Stats F)
      → counted name (set stats other s) ≡ (if other == name then s.count else counted name stats)
  counted-set stats other s = ground (arith, get-set stats other name s)

  count-note_value :
      (known : Option (Stats F)) (v : F)
      → (note_value ops known v).count ≡ suc (elim known [ none ↦ 0 | some s ↦ s.count ])
  unfolding note_value
  count-note_value none v = refl
  count-note_value (some s) v = refl

  counted-note :
      (stats : Dict String (Stats F)) (other : String) (v : F)
      → counted name (set stats other (note_value ops (get stats other) v))
        ≡ (if other == name then 1 else 0) + counted name stats
  counted-note stats other v =
      let at_set = counted-set stats other (note_value ops (get stats other) v) in
      let more = count-note_value (get stats other) v in
      elim (Bool-cases (other == name)) [
        | inl e ↦
            let same = ap (λ (n : String). counted n stats) ((string_eq.beq_iff other name).0 e) in
            ground (arith, at_set, more, e, same)
        | inr e ↦ ground (arith, at_set, e)
      ]

  counted-take_signals :
      (t : ℕ) (signals : Dict String (Option F)) (carry : Carry F) (stats : Dict String (Stats F))
      → counted name (take_signals ops t signals carry stats).1
        ≡ values_in name signals + counted name stats
  unfolding take_signals
  counted-take_signals t [] carry stats = omega arith
  counted-take_signals t ((other, none) ∷ signals) carry stats =
      counted-take_signals t signals carry stats
  counted-take_signals t ((other, some v) ∷ signals) carry stats = omega (
    arith,
    counted-take_signals t signals (set carry other (v, t))
        (set stats other (note_value ops (get stats other) v)),
    counted-note stats other v,
  )

  counted-take_samples :
      (xs : List (CanSample F)) (carry : Carry F) (stats : Dict String (Stats F))
      → counted name (take_samples ops xs carry stats).1
        ≡ sum_of (λ (x : CanSample F). values_in name x.signals) xs + counted name stats
  unfolding take_samples
  counted-take_samples [] carry stats = omega arith
  counted-take_samples (x ∷ xs) carry stats = omega (
    arith,
    counted-take_samples xs (take_signals ops x.t_us x.signals carry stats).0
        (take_signals ops x.t_us x.signals carry stats).1,
    counted-take_signals x.t_us x.signals carry stats,
  )

  counted-empty : counted {F = F} name [] ≡ 0
  unfolding get
  counted-empty = refl

  -- The count of a name in the statistics of a row.
  pub counted-round_from :
      (xs : List (CanSample F)) (carry : Carry F)
      → counted name (take_samples ops xs carry []).1
        ≡ sum_of (λ (x : CanSample F). values_in name x.signals) xs
  counted-round_from xs carry = omega (arith, counted-take_samples xs carry [], counted-empty)
