-- ===== src/Aggregate/Windows.antt =====
-- What the windows' aggregates are like.
use mathlib.Core.Path.{subst}
use robo_services.Prelude.{
  ℕ, ◌≤◌, ◌≡◌, refl, sym, ap, ◌∙◌, arith, String, List, [], ◌∷◌, ◌++◌, length, length-append, ltb,
  nat_eq, string_eq, pair_eq, Option, none, Option-cases, Result-cases, Bool-cases, inl, inr, ok,
  All, All-append,
}
use robo_services.Prelude.Dict.{Dict, get, set, values, All-set, All-get}
use robo_services.Signal.{FloatOps, SignalEvent, DropEvent, AggregatedSignal}
use robo_services.Signal.Diagnostics.{Reporting, tracer_of}
use robo_services.Signal.Diagnostics.Accounting.{hits, reported, reported-emit_drop}
use robo_services.Routing.{RoutedSignal}
use robo_services.Aggregate.{
  AggregationConfig, Statistics, WindowKey, WindowBucket, Collected, bucket_key, new_bucket,
  bucket_or, append_value, window_start_of, passthrough_of, collect_one, collect_all,
  min_samples_of, max_samples_of,
}
use robo_services.Aggregate.Engine.{build_windowed_signal, finalize_one, finalize_buckets}

module _ {F : Type 0} (cfg : AggregationConfig F) where
  -- A bucket under its key
  pub record IsBucket (entry : WindowKey × WindowBucket F) : Type 0 where
    name : entry.1.signal_name ≡ entry.0.1.0
    event_name : entry.1.representative_event.signal_name ≡ entry.0.1.0
    pub no_probe : entry.1.representative_event.probe ≡ none
    overflow : entry.1.overflowed ≡ ltb (max_samples_of cfg entry.0.1.0) (length entry.1.values)

  IsBucket-append_value :
      (k : WindowKey) (b : WindowBucket F) (event : SignalEvent F)
      → event.signal_name ≡ k.1.0
      → IsBucket (k, b)
      → IsBucket (k, append_value cfg b event)
  unfolding append_value
  IsBucket-append_value k b event same h = record {
    name = h.name;
    event_name = h.event_name;
    no_probe = h.no_probe;
    overflow = ground (
      arith,
      h.overflow,
      ap (λ n. max_samples_of cfg n) same,
      length-append b.values (event.value ∷ []),
    );
  }

  IsBucket-bucket_or :
      (d : Dict WindowKey (WindowBucket F)) (x : RoutedSignal F) (start : ℕ)
      → x.event.probe ≡ none
      → All IsBucket d
      → IsBucket (bucket_key x start, bucket_or (get d (bucket_key x start)) (new_bucket x start))
  IsBucket-bucket_or d x start plain h = elim (Option-cases (get d (bucket_key x start))) [
    | inl e ↦
        subst
          (λ (o : Option (WindowBucket F)).
            IsBucket (bucket_key x start, bucket_or o (new_bucket x start)))
          (sym e)
          (record { name = refl; event_name = refl; no_probe = plain; overflow = ground arith })
    | inr (b, e) ↦
        subst
          (λ (o : Option (WindowBucket F)).
            IsBucket (bucket_key x start, bucket_or o (new_bucket x start)))
          (sym e) (All-get IsBucket d (bucket_key x start) b e h)
  ]

  IsBucket-collect_one :
      (ops : FloatOps F) (c c' : Collected F) (x : RoutedSignal F)
      → collect_one cfg ops c x ≡ ok c'
      → All IsBucket c.buckets
      → All IsBucket c'.buckets
  unfolding collect_one
  IsBucket-collect_one ops c c' x h good = elim (Option-cases x.event.probe) [
    | inr (probe, e) ↦
        let same : record c {
          passthrough_events = c.passthrough_events ++ (passthrough_of ops x probe ∷ []);
        }
            ≡ c' =
          ground (arith, h, e) in
        subst (λ (d : Collected F). All IsBucket d.buckets) same good
    | inl e ↦ elim (Option-cases (window_start_of cfg x.event)) [
      | inl f ↦ ground (arith, h, e, f)
      | inr (start, f) ↦
          let j = bucket_key x start in
          let b = bucket_or (get c.buckets j) (new_bucket x start) in
          let same : record c { buckets = set c.buckets j (append_value cfg b x.event) } ≡ c' =
            ground (arith, h, e, f) in
          subst (λ (d : Collected F). All IsBucket d.buckets) same
            (All-set IsBucket c.buckets j (append_value cfg b x.event)
              (λ i at.
                subst (λ i. IsBucket (i, append_value cfg b x.event)) (sym at)
                  (IsBucket-append_value j b x.event refl
                    (IsBucket-bucket_or c.buckets x start e good)))
              good)
    ]
  ]

  pub IsBucket-collect_all :
      (ops : FloatOps F) (c c' : Collected F) (xs : List (RoutedSignal F))
      → collect_all cfg ops c xs ≡ ok c'
      → All IsBucket c.buckets
      → All IsBucket c'.buckets
  unfolding collect_all
  IsBucket-collect_all ops c c' [] h good =
      let same : c ≡ c' = ground (arith, h) in
      subst (λ (d : Collected F). All IsBucket d.buckets) same good
  IsBucket-collect_all ops c c' (x ∷ xs) h good = elim (Result-cases (collect_one cfg ops c x)) [
    | inl (d, e) ↦
        IsBucket-collect_all ops d c' xs (ground (arith, h, e))
          (IsBucket-collect_one ops c d x e good)
    | inr (d, e) ↦ ground (arith, h, e)
  ]

  -- An aggregate of a window with enough samples and not too many
  pub record IsWindow (x : AggregatedSignal F) : Type 0 where
    pub enough : min_samples_of cfg x.signal_name ≤ x.sample_count
    pub not_too_many : x.sample_count ≤ max_samples_of cfg x.signal_name
    pub no_probe : x.probe ≡ none

module _ {F : Type 0} (ops : FloatOps F) (stats : Statistics F) (cfg : AggregationConfig F)
    (r : Reporting F) where
  finalize_one-IsWindow :
      (sink : List (DropEvent F)) (k : WindowKey) (b : WindowBucket F)
      → IsBucket cfg (k, b)
      → All (IsWindow cfg) (finalize_one ops stats cfg r sink b).1
  unfolding finalize_one build_windowed_signal
  finalize_one-IsWindow sink k b h = elim (Bool-cases b.overflowed) [
    | inl e ↦ rw (e) tt
    | inr e ↦
        elim (Bool-cases
          (ltb (length b.values) (min_samples_of cfg b.representative_event.signal_name))) [
            | inl f ↦ rw (e, f) tt
            | inr f ↦
                rw (e, f)
                  (
                    record {
                      enough =
                          subst (λ n. min_samples_of cfg n ≤ length b.values)
                            (h.event_name ∙ sym h.name) (ground (arith, f));
                      not_too_many =
                          subst (λ n. length b.values ≤ max_samples_of cfg n) (sym h.name)
                            (ground (arith, h.overflow, e));
                      no_probe = refl;
                    },
                    tt,
                  )
          ]
  ]

  pub finalize_buckets-IsWindow :
      (sink : List (DropEvent F)) (d : Dict WindowKey (WindowBucket F))
      → All (IsBucket cfg) d
      → All (IsWindow cfg) (finalize_buckets ops stats cfg r sink (values d)).1
  unfolding finalize_buckets
  finalize_buckets-IsWindow sink [] h = tt
  finalize_buckets-IsWindow sink ((k, b) ∷ d) h =
      let one = finalize_one ops stats cfg r sink b in
      All-append (IsWindow cfg) one.1 (finalize_buckets ops stats cfg r one.0 (values d)).1
        (finalize_one-IsWindow sink k b h.0) (finalize_buckets-IsWindow one.0 d h.1)

  finalize_one-reported :
      (t : String) (sink : List (DropEvent F)) (k : WindowKey) (b : WindowBucket F)
      → IsBucket cfg (k, b)
      → reported t (finalize_one ops stats cfg r sink b).0 ≡ reported t sink
  unfolding finalize_one
  finalize_one-reported t sink k b h =
      let none_named : hits t (tracer_of b.representative_event.probe) ≡ 0 =
        ap (λ p. hits t (tracer_of p)) h.no_probe in
      grind (arith, reported-emit_drop, none_named)

  -- No drop of a window names a probe.
  pub finalize_buckets-reported :
      (t : String) (sink : List (DropEvent F)) (d : Dict WindowKey (WindowBucket F))
      → All (IsBucket cfg) d
      → reported t (finalize_buckets ops stats cfg r sink (values d)).0 ≡ reported t sink
  unfolding finalize_buckets finalize_one
  finalize_buckets-reported t sink [] h = refl
  finalize_buckets-reported t sink ((k, b) ∷ d) h =
      let one = finalize_one ops stats cfg r sink b in
      finalize_buckets-reported t one.0 d h.1 ∙ finalize_one-reported t sink k b h.0
