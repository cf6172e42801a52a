-- ===== src/Aggregate/Probes.antt =====
-- `aggregate` as a whole: its probes pass through it, and its aggregates are in order.
use mathlib.Core.Path.{subst}
use robo_services.Prelude.{
  ℕ, ◌+◌, ◌≡◌, refl, sym, ap, ◌∙◌, arith, String, List, [], ◌∷◌, ◌++◌, ◌==◌, nat_eq, string_eq,
  list_eq, Option, none, some, Option-cases, Result-cases, Bool-cases, inl, inr, Result, ok, err,
  ◌>>=◌, All, All-append, All-imp,
}
use robo_services.Prelude.Sort.{
  sum_of-append, sort_by, IsSorted, sort_by-IsSorted, sum_of, sum_of-sort_by,
}
use robo_services.Prelude.Dict.{Dict, values}
use robo_services.Signal.{FloatOps, DropEvent, AggregatedSignal}
use robo_services.Signal.Diagnostics.{Reporting, tracer_of}
use robo_services.Signal.Diagnostics.Accounting.{hits, reported}
use robo_services.Routing.{RoutedSignal}
use robo_services.Aggregate.{
  AggregateError, no_inputs, compute_failed, AggregationConfig, Statistics, Collected,
  nothing_collected, leb_routed, leb_item, window_start_of, passthrough_of, collect_one,
  collect_all, DerivedSignalDefinition,
}
use robo_services.Aggregate.Windows.{
  IsBucket-collect_all, finalize_buckets-IsWindow, finalize_buckets-reported,
}
use robo_services.Aggregate.Order.{leb_item-total, leb_item_trans}
use robo_services.Aggregate.Engine.{
  Group, GroupKey, derive_one, derive_groups, derive_all, derived_signal, grouped, inputs_of,
  finalize_buckets, conclude, aggregate,
}

module _ {F : Type 0} (t : String) where
  -- The aggregates, and the routed signals, that carry the tracer `t`
  abbrev pub item_hits : AggregatedSignal F → ℕ
  item_hits x = hits t (tracer_of x.probe)

  abbrev pub routed_hits : RoutedSignal F → ℕ
  routed_hits x = hits t (tracer_of x.event.probe)

  sum_of-zero :
      (xs : List (AggregatedSignal F))
      → All (λ (x : AggregatedSignal F). x.probe ≡ none) xs
      → sum_of item_hits xs ≡ 0
  sum_of-zero [] h = refl
  sum_of-zero (x ∷ xs) h = omega (arith, ap (λ p. hits t (tracer_of p)) h.0, sum_of-zero xs h.1)

  module _ (ops : FloatOps F) (cfg : AggregationConfig F) where
    sum_of-collect_one :
        (c c' : Collected F) (x : RoutedSignal F)
        → collect_one cfg ops c x ≡ ok c'
        → sum_of item_hits c'.passthrough_events
          ≡ sum_of item_hits c.passthrough_events + routed_hits x
    unfolding collect_one passthrough_of
    sum_of-collect_one c c' x h = elim (Option-cases x.event.probe) [
      | inr (probe, e) ↦
          let new = passthrough_of ops x probe in
          let same : c.passthrough_events ++ (new ∷ []) ≡ c'.passthrough_events =
            ground (arith, h, e) in
          sym (ap (λ ps. sum_of item_hits ps) same)
          ∙ omega (
            arith,
            sum_of-append item_hits c.passthrough_events (new ∷ []),
            ap (λ p. hits t (tracer_of p)) e,
          )
      | inl e ↦ elim (Option-cases (window_start_of cfg x.event)) [
        | inl f ↦ ground (arith, h, e, f)
        | inr (start, f) ↦
            let same : c.passthrough_events ≡ c'.passthrough_events = ground (arith, h, e, f) in
            sym (ap (λ ps. sum_of item_hits ps) same)
            ∙ omega (arith, ap (λ p. hits t (tracer_of p)) e)
      ]
    ]

    sum_of-collect_all :
        (c c' : Collected F) (xs : List (RoutedSignal F))
        → collect_all cfg ops c xs ≡ ok c'
        → sum_of item_hits c'.passthrough_events
          ≡ sum_of item_hits c.passthrough_events + sum_of routed_hits xs
    unfolding collect_all
    sum_of-collect_all c c' [] h =
        let same : c ≡ c' = ground (arith, h) in
        omega (arith, ap (λ (d : Collected F). sum_of item_hits d.passthrough_events) same)
    sum_of-collect_all c c' (x ∷ xs) h = elim (Result-cases (collect_one cfg ops c x)) [
      | inl (d, e) ↦
          omega
            (arith, sum_of-collect_one c d x e, sum_of-collect_all d c' xs (ground (arith, h, e)))
      | inr (d, e) ↦ ground (arith, h, e)
    ]

-- A derived signal has no probe.
abbrev pub IsUnprobed : {F : Type 0} → AggregatedSignal F → Type 0
IsUnprobed x = x.probe ≡ none

-- What a call returns has no probes, if it returns.
abbrev AreUnprobed : {F : Type 0} → Result AggregateError (List (AggregatedSignal F)) → Type 0
AreUnprobed (ok xs) = All IsUnprobed xs
AreUnprobed (err e) = Unit

AreUnprobed-append :
    {F : Type 0} (r q : Result AggregateError (List (AggregatedSignal F)))
    → AreUnprobed r
    → AreUnprobed q
    → AreUnprobed (r >>= λ xs. q >>= λ ys. ok (xs ++ ys))
AreUnprobed-append (err e) q h k = tt
AreUnprobed-append (ok xs) (err e) h k = tt
AreUnprobed-append (ok xs) (ok ys) h k = All-append IsUnprobed xs ys h k

module _ {F : Type 0} (ops : FloatOps F) where
  derive_one-AreUnprobed :
      (definition : DerivedSignalDefinition F) (key : GroupKey) (signals : Group F)
      → AreUnprobed (derive_one ops definition key signals)
  unfolding derive_one derived_signal
  derive_one-AreUnprobed definition key signals = elim (Bool-cases (key.0 == definition.topic)) [
    | inr other ↦ rw (derive_one, other) tt
    | inl same ↦ rw (derive_one, same) (from (inputs_of signals definition.input_signals))
  ]
    where
      from :
          (inputs : Option (List (AggregatedSignal F)))
          → AreUnprobed (elim inputs as (λ x. Result AggregateError (List (AggregatedSignal F))) [
            | none ↦ ok []
            | some [] ↦ err no_inputs
            | some (x ∷ xs) ↦ elim (definition.compute signals) [
              | none ↦ err compute_failed
              | some value ↦ ok (derived_signal ops definition key value x xs ∷ [])
            ]
          ])
      from none = tt
      from (some []) = tt
      from (some (x ∷ xs)) = elim (Option-cases (definition.compute signals)) [
        | inl e ↦ rw (e) tt
        | inr (value, e) ↦ rw (e) (refl, tt)
      ]

  derive_groups-AreUnprobed :
      (definition : DerivedSignalDefinition F) (groups : Dict GroupKey (Group F))
      → AreUnprobed (derive_groups ops definition groups)
  unfolding derive_groups
  derive_groups-AreUnprobed definition [] = tt
  derive_groups-AreUnprobed definition ((key, signals) ∷ groups) =
      AreUnprobed-append _ _ (derive_one-AreUnprobed definition key signals)
        (derive_groups-AreUnprobed definition groups)

  derive_all-AreUnprobed :
      (groups : Dict GroupKey (Group F)) (definitions : List (DerivedSignalDefinition F))
      → AreUnprobed (derive_all ops groups definitions)
  unfolding derive_all
  derive_all-AreUnprobed groups [] = tt
  derive_all-AreUnprobed groups (definition ∷ definitions) =
      AreUnprobed-append _ _ (derive_groups-AreUnprobed definition groups)
        (derive_all-AreUnprobed groups definitions)

module _ {F : Type 0} (ops : FloatOps F) (stats : Statistics F) (cfg : AggregationConfig F)
    (r : Reporting F) where
  -- Where `aggregate` returns, what it has collected, finalized and derived
  record Returned (sink : List (DropEvent F)) (xs : List (RoutedSignal F))
      (sink' : List (DropEvent F)) (items : List (AggregatedSignal F)) : Type 0 where
    c : Collected F
    derivations : List (AggregatedSignal F)
    collects : collect_all cfg ops nothing_collected (sort_by leb_routed xs) ≡ ok c
    unprobed : All IsUnprobed derivations
    sink_is : sink' ≡ (finalize_buckets ops stats cfg r sink (values c.buckets)).0
    items_are :
        items
        ≡ sort_by leb_item (
            (c.passthrough_events ++ (finalize_buckets ops stats cfg r sink (values c.buckets)).1)
            ++ derivations)

  aggregate-Returned :
      (sink : List (DropEvent F)) (xs : List (RoutedSignal F)) (sink' : List (DropEvent F))
      (items : List (AggregatedSignal F))
      → aggregate ops stats cfg r sink xs ≡ (sink', ok items)
      → Returned sink xs sink' items
  unfolding aggregate conclude
  aggregate-Returned sink xs sink' items h =
      elim (Result-cases (collect_all cfg ops nothing_collected (sort_by leb_routed xs))) [
        | inr (e, raised) ↦ ground (arith, h, raised)
        | inl (c, e) ↦
            let done = finalize_buckets ops stats cfg r sink (values c.buckets) in
            let all_derived =
              derive_all ops (grouped [] (c.passthrough_events ++ done.1)) cfg.derived_signals in
            elim (Result-cases all_derived) [
              | inr (x, raised) ↦ ground (arith, h, e, raised)
              | inl (ds, f) ↦ record {
                c = c;
                derivations = ds;
                collects = e;
                unprobed = subst AreUnprobed f (derive_all-AreUnprobed ops _ _);
                sink_is = ground (arith, h, e);
                items_are = ground (arith, h, e, f);
              }
            ]
      ]

  -- Where `aggregate` returns, its aggregates are in the order of window starts, then topics, then
  -- names.
  pub aggregate-IsSorted :
      (sink : List (DropEvent F)) (xs : List (RoutedSignal F)) (sink' : List (DropEvent F))
      (items : List (AggregatedSignal F))
      → aggregate ops stats cfg r sink xs ≡ (sink', ok items)
      → IsSorted leb_item items
  aggregate-IsSorted sink xs sink' items h =
      let got = aggregate-Returned sink xs sink' items h in
      subst (IsSorted leb_item) (sym got.items_are)
        (sort_by-IsSorted leb_item leb_item-total leb_item_trans _)

  -- Where `aggregate` returns, for every tracer id: the probes among the routed signals are as many as
  -- those among the aggregates, and none is reported.
  pub aggregate-hits :
      (t : String) (sink : List (DropEvent F)) (xs : List (RoutedSignal F))
      (sink' : List (DropEvent F)) (items : List (AggregatedSignal F))
      → aggregate ops stats cfg r sink xs ≡ (sink', ok items)
      → (sum_of (item_hits t) items ≡ sum_of (routed_hits t) xs)
        × (reported t sink' ≡ reported t sink)
  aggregate-hits t sink xs sink' items h =
      let got = aggregate-Returned sink xs sink' items h in
      let buckets = IsBucket-collect_all cfg ops nothing_collected got.c _ got.collects tt in
      let done = finalize_buckets ops stats cfg r sink (values got.c.buckets) in
      (
        ap (λ ys. sum_of (item_hits t) ys) got.items_are
            ∙ sum_of-sort_by (item_hits t) leb_item _
            ∙ omega (
              arith,
              sum_of-append (item_hits t) (got.c.passthrough_events ++ done.1) got.derivations,
              sum_of-append (item_hits t) got.c.passthrough_events done.1,
              sum_of-zero t got.derivations got.unprobed,
              sum_of-zero t done.1 (
                  All-imp (λ x w. w.no_probe) done.1
                    (finalize_buckets-IsWindow ops stats cfg r sink got.c.buckets buckets)),
              sum_of-collect_all t ops cfg nothing_collected got.c (sort_by leb_routed xs)
                  got.collects,
              sum_of-sort_by (routed_hits t) leb_routed xs,
            ),
        ap (λ s. reported t s) got.sink_is
            ∙ finalize_buckets-reported ops stats cfg r t sink got.c.buckets buckets,
      )
