-- ===== src/Pipeline/Conservation.antt =====
-- Where the probes that enter the pipeline go.
use robo_services.Prelude.{
  ℕ, suc, ◌+◌, String, ◌≡◌, refl, sym, ap, ◌∙◌, arith, false, List, [], ◌∷◌, ltb, Option, none,
  some, Option-cases, Result-cases, Bool-cases, ◌++◌, inl, inr, Result, ok, err, All,
}
use robo_services.Prelude.Sort.{sum_of}
use mathlib.Core.Path.{subst}
use robo_services.Frame.{RawFrame, IsValid, captured_at}
use robo_services.Frame.Probe.{ProbeContext, detect_probe}
use robo_services.Frame.Probe.Detection.{detect_probe_exact}
use robo_services.Signal.{SignalEvent, DropEvent, DecodedSignal, AggregatedSignal, ingest_error}
use robo_services.Signal.Diagnostics.{tracer_of, emit_drop}
use robo_services.Signal.Diagnostics.Accounting.{
  hits, in_flight, reported, in_flight-append, reported-emit_drop,
}
use robo_services.Ingest.{
  VehicleCanProfile, IngestError, normalize_frame, signal_event, signal_events, probe_event,
  time_of, classify_error,
}
use robo_services.Validate.{Validator, validate}
use robo_services.Validate.Accounting.{validate-reported}
use robo_services.Routing.Delivery.{routable_events, all_routes, route_lem}
use robo_services.Routing.{RoutingTable, RoutedSignal}
use robo_services.Aggregate.{AggregateError, AggregationConfig}
use robo_services.Aggregate.Engine.{aggregate}
use robo_services.Aggregate.Probes.{item_hits, routed_hits, aggregate-hits}
use robo_services.Pipeline.{
  World, PipelineOptions, LocalPipelineResult, reporting, config_or_empty, ingest_drop_event,
  report_frame, ingest_one, ingest_all, route_events, aggregate_events, write_results, after_ingest,
  run_local_pipeline,
}

-- Whether a frame is a probe of the tracer `t`: 1 or 0
abbrev pub frame_hits : String → RawFrame → ℕ
frame_hits t frame = elim (detect_probe frame) [ ok probe ↦ hits t (tracer_of probe) | err e ↦ 0 ]

module _ {F : Type 0} (t : String) (w : World F) (source_session : String)
    (profile : VehicleCanProfile F) (s : PipelineOptions F) where
  in_flight-signals :
      (now : ℕ) (frame : RawFrame) (signals : List (DecodedSignal F))
      (events : List (SignalEvent F))
      → signal_events w.ops profile source_session now frame signals ≡ ok events
      → in_flight t events ≡ 0
  unfolding signal_events
  in_flight-signals now frame [] events h = ground (arith, h)
  in_flight-signals now frame (x ∷ xs) events h = elim (Result-cases (time_of frame)) [
    | inr (e, raised) ↦ ground (arith, h, raised)
    | inl (time, dated) ↦
        elim (Result-cases (signal_events w.ops profile source_session now frame xs)) [
          | inr (e, raised) ↦ ground (arith, h, dated, raised)
          | inl (es, f) ↦
              let same : signal_event w.ops profile source_session now frame time x ∷ es ≡ events =
                ground (arith, h, dated, f) in
              sym (ap (λ es. in_flight t es) same)
              ∙ omega (arith, in_flight-signals now frame xs es f)
        ]
  ]

  in_flight-normalize_frame :
      (n : ℕ) (frame : RawFrame) (events : List (SignalEvent F))
      → normalize_frame w.ops profile source_session n frame ≡ ok events
      → in_flight t events ≡ frame_hits t frame
  unfolding normalize_frame
  in_flight-normalize_frame n frame events h = elim (Bool-cases (ltb 8 frame.dlc)) [
    | inl long ↦ ground (arith, h, long)
    | inr checked ↦ elim (Result-cases (detect_probe frame)) [
      | inr (x, raised) ↦ ground (arith, h, checked, raised)
      | inl (none_or_probe, r) ↦ by_probe none_or_probe r checked
    ]
  ]
    where
      by_probe :
          (o : Option ProbeContext)
          → detect_probe frame ≡ ok o
          → ltb 8 frame.dlc ≡ false
          → in_flight t events ≡ frame_hits t frame
      by_probe none r checked = elim (Result-cases (profile.decoder frame)) [
        | inr (x, raised) ↦ ground (arith, h, checked, r, raised)
        | inl (ds, f) ↦
            let same : signal_events w.ops profile source_session n frame ds ≡ ok events =
              ground (arith, h, checked, r, f) in
            in_flight-signals n frame ds events same ∙ ground (arith, r)
      ]
      by_probe (some p) r checked = elim (Result-cases (time_of frame)) [
        | inr (x, raised) ↦ ground (arith, h, checked, r, raised)
        | inl (time, dated) ↦
            let same : probe_event w.ops profile source_session n frame time p ∷ [] ≡ events =
              ground (arith, h, checked, r, dated) in
            sym (ap (λ es. in_flight t es) same) ∙ ground (arith, r)
      ]

  -- A frame that cannot be normalized but whose time is a date is no probe.
  frame_hits-failed :
      (n : ℕ) (frame : RawFrame) (e : IngestError) (time : ℕ)
      → IsValid frame
      → captured_at frame ≡ ok time
      → normalize_frame w.ops profile source_session n frame ≡ err e
      → frame_hits t frame ≡ 0
  unfolding normalize_frame
  frame_hits-failed n frame e time valid dated h =
      let checked : ltb 8 frame.dlc ≡ false = ground (arith, valid.dlc_fits) in
      elim (detect_probe_exact frame valid time dated) [
        | inl (r, _) ↦ ground (arith, r)
        | inr (p, r, _) ↦ ground (arith, h, checked, r, dated)
      ]

  ingest_one-reported :
      (n : ℕ) (v : Validator F) (frame : RawFrame) (v' : Validator F) (out : List (SignalEvent F))
      → IsValid frame
      → ingest_one w source_session profile s n v frame ≡ ok (v', out)
      → frame_hits t frame + reported t v.sink ≡ in_flight t out + reported t v'.sink
  unfolding ingest_one report_frame ingest_drop_event
  ingest_one-reported n v frame v' out valid h =
      elim (Result-cases (normalize_frame w.ops profile source_session (w.processed_at n) frame)) [
        | inl (events, e) ↦
            let accounts =
              validate-reported w.ops w.fnmatch (config_or_empty s.validation_config)
                (reporting w s.validate_sample_real_traffic) t v events in
            let same : validate w.ops w.fnmatch (config_or_empty s.validation_config)
                  (reporting w s.validate_sample_real_traffic) v events
                ≡ (v', out) =
              ground (arith, h, e) in
            ap (λ k. k + reported t v.sink)
              (sym (in_flight-normalize_frame (w.processed_at n) frame events e))
            ∙ subst
                (λ (p : Validator F × List (SignalEvent F)).
                  in_flight t events + reported t v.sink ≡ in_flight t p.1 + reported t p.0.sink)
                same accounts
        | inr (raised, e) ↦ elim (Result-cases (captured_at frame)) [
          | inr (x, undated) ↦ ground (arith, h, e, undated)
          | inl (time, dated) ↦
              let reports =
                reported-emit_drop t (reporting w s.ingest_sample_real_traffic)
                  (ingest_drop_event w source_session frame time) (classify_error raised) "ingest"
                  ingest_error v.sink in
              let got : Validator F × List (SignalEvent F) = (
                record v {
                  sink =
                      (emit_drop (reporting w s.ingest_sample_real_traffic)
                        (ingest_drop_event w source_session frame time) (classify_error raised)
                        "ingest" ingest_error v.sink).0;
                },
                [],
              ) in
              let same : got ≡ (v', out) = ground (arith, h, e, dated) in
              subst
                (λ (p : Validator F × List (SignalEvent F)).
                  frame_hits t frame + reported t v.sink ≡ in_flight t p.1 + reported t p.0.sink)
                same
                (omega (
                  arith,
                  frame_hits-failed (w.processed_at n) frame raised time valid dated e,
                  reports,
                ))
        ]
      ]

  ingest_all-reported :
      (n : ℕ) (v : Validator F) (frames : List RawFrame) (v' : Validator F)
      (out : List (SignalEvent F))
      → All IsValid frames
      → ingest_all w source_session profile s n v frames ≡ ok (v', out)
      → sum_of (frame_hits t) frames + reported t v.sink ≡ in_flight t out + reported t v'.sink
  unfolding ingest_all
  ingest_all-reported n v [] v' out valid h =
      let got : Validator F × List (SignalEvent F) = (v, []) in
      let same : got ≡ (v', out) = ground (arith, h) in
      subst
        (λ (p : Validator F × List (SignalEvent F)).
          sum_of (frame_hits t) [] + reported t v.sink ≡ in_flight t p.1 + reported t p.0.sink)
        same refl
  ingest_all-reported n v (frame ∷ frames) v' out valid h =
      elim (Result-cases (ingest_one w source_session profile s n v frame)) [
        | inr (x, raised) ↦ ground (arith, h, raised)
        | inl (p, e) ↦
            elim (Result-cases (ingest_all w source_session profile s (suc n) p.0 frames)) [
              | inr (x, raised) ↦ ground (arith, h, e, raised)
              | inl (q, f) ↦
                  let first = ingest_one-reported n v frame p.0 p.1 valid.0 e in
                  let rest = ingest_all-reported (suc n) p.0 frames q.0 q.1 valid.1 f in
                  let got : Validator F × List (SignalEvent F) = (q.0, p.1 ++ q.1) in
                  let same : got ≡ (v', out) = ground (arith, h, e, f) in
                  subst
                    (λ (x : Validator F × List (SignalEvent F)).
                      sum_of (frame_hits t) (frame ∷ frames) + reported t v.sink
                      ≡ in_flight t x.1 + reported t x.0.sink)
                    same (omega (arith, first, rest, in_flight-append t p.1 q.1))
            ]
      ]

  -- The probes among the accepted events, those that no route takes aside where there is a router
  abbrev pub settled : List (SignalEvent F) → ℕ
  settled events = settled_by s.routing_table
    where
      settled_by : Option RoutingTable → ℕ
      settled_by none = in_flight t events
      settled_by (some table) = in_flight t (
          routable_events w.fnmatch table profile.signal_versions
            (reporting w s.route_sample_real_traffic) events)

  route_events-reported :
      (sink : List (DropEvent F)) (events : List (SignalEvent F))
      → in_flight t events + reported t sink
        ≡ settled events + reported t (route_events w source_session profile s sink events).0
  unfolding route_events
  route_events-reported sink events = elim (Option-cases s.routing_table) [
    | inl e ↦ rw (e) refl
    | inr (table, e) ↦
        rw (e)
          (route_lem w.fnmatch table profile.signal_versions
            (reporting w s.route_sample_real_traffic) t sink events).1
  ]

  -- What the router is to give, and the probes that the aggregates are to carry
  abbrev pub routed_by : Option RoutingTable → List (SignalEvent F) → List (RoutedSignal F)
  routed_by none events = []
  routed_by (some table) events =
      all_routes w.fnmatch table profile.signal_versions (reporting w s.route_sample_real_traffic) (
        routable_events w.fnmatch table profile.signal_versions
          (reporting w s.route_sample_real_traffic) events)

  abbrev pub carried_by : Option (AggregationConfig F) → List (RoutedSignal F) → ℕ
  carried_by none routed = 0
  carried_by (some cfg) routed = sum_of (routed_hits t) routed

  route_events-routed :
      (sink : List (DropEvent F)) (events : List (SignalEvent F))
      → (route_events w source_session profile s sink events).1 ≡ routed_by s.routing_table events
  unfolding route_events
  route_events-routed sink events = elim (Option-cases s.routing_table) [
    | inl e ↦ rw (e) refl
    | inr (table, e) ↦
        rw (e)
          (route_lem w.fnmatch table profile.signal_versions
            (reporting w s.route_sample_real_traffic) t sink events).0
  ]

  aggregate_events_lem :
      (sink : List (DropEvent F)) (routed : List (RoutedSignal F))
      (items : List (AggregatedSignal F))
      → (aggregate_events w source_session profile s sink routed).1 ≡ ok items
      → (sum_of (item_hits t) items ≡ carried_by s.aggregation_config routed)
        × (reported t (aggregate_events w source_session profile s sink routed).0 ≡ reported t sink)
  unfolding aggregate_events
  aggregate_events_lem sink routed items = by_config s.aggregation_config
    where
      run :
          AggregationConfig F
          → List (DropEvent F) × Result AggregateError (List (AggregatedSignal F))
      run cfg =
          aggregate w.ops w.stats cfg (reporting w s.aggregate_sample_real_traffic) sink routed

      by_config :
          (o : Option (AggregationConfig F))
          → let p =
              elim o
                as (λ x. List (DropEvent F) × Result AggregateError (List (AggregatedSignal F))) [
                  | none ↦ (sink, ok [])
                  | some cfg ↦ run cfg
                ] in
            p.1 ≡ ok items
            → (sum_of (item_hits t) items ≡ carried_by o routed)
              × (reported t p.0 ≡ reported t sink)
      by_config none h =
          let same : [] ≡ items = ground (arith, h) in
          (ap (λ xs. sum_of (item_hits t) xs) (sym same), refl)
      by_config (some cfg) h =
          aggregate-hits w.ops w.stats cfg (reporting w s.aggregate_sample_real_traffic) t sink
            routed (run cfg).0 items (ap (λ r. ((run cfg).0, r)) h)

  -- The three balances of a run, from the probes that entered and were reported before the router
  abbrev pub IsBalanced : ℕ → LocalPipelineResult F → Type 0
  IsBalanced entered result =
      (entered ≡ settled result.validated_events + reported t result.diagnostics)
      × (result.routed_events ≡ routed_by s.routing_table result.validated_events)
      × (sum_of (item_hits t) result.aggregated_events
          ≡ carried_by s.aggregation_config result.routed_events)

  after_ingest-IsBalanced :
      (v : Validator F) (validated : List (SignalEvent F)) (result : LocalPipelineResult F)
      → after_ingest w source_session profile s v validated ≡ ok result
      → IsBalanced (in_flight t validated + reported t v.sink) result
  unfolding after_ingest
  after_ingest-IsBalanced v validated result h =
      let (sink', routed) = route_events w source_session profile s v.sink validated in
      let (sink'', aggregated) = aggregate_events w source_session profile s sink' routed in
      elim (Result-cases aggregated) [
        | inr (x, raised) ↦ ground (arith, h, raised)
        | inl (items, e) ↦
            let got : LocalPipelineResult F = record {
              validated_events = validated;
              routed_events = routed;
              aggregated_events = items;
              diagnostics = sink'';
              sink_summary = write_results w source_session profile s validated items;
            } in
            let same : got ≡ result = ground (arith, h, e) in
            let (hit, quiet) = aggregate_events_lem sink' routed items e in
            subst (IsBalanced (in_flight t validated + reported t v.sink)) same (
              omega (arith, route_events-reported v.sink validated, quiet),
              route_events-routed v.sink validated,
              hit,
            )
      ]

  -- Where a run on valid frames returns: the routed events are the routes of the routable ones among
  -- the accepted events, in order, and none without a routing table; and for every tracer id, the
  -- probe frames that enter are as many as the probes among the accepted events (where there is a
  -- routing table, among those that are routable), and the newly reported ones, and the probes among
  -- the aggregates are as many as those among the routed events, or none without an aggregation
  -- config.
  pub run_local_pipeline-reported :
      (sink : List (DropEvent F)) (frames : List RawFrame) (result : LocalPipelineResult F)
      → All IsValid frames
      → run_local_pipeline w source_session profile s sink frames ≡ ok result
      → IsBalanced (sum_of (frame_hits t) frames + reported t sink) result
  unfolding run_local_pipeline
  run_local_pipeline-reported sink frames result valid h =
      let before : Validator F = record { previous_values = []; sink = sink } in
      elim (Result-cases (ingest_all w source_session profile s 0 before frames)) [
        | inr (x, raised) ↦ ground (arith, h, raised)
        | inl (p, e) ↦
            let rest : after_ingest w source_session profile s p.0 p.1 ≡ ok result =
              ground (arith, h, e) in
            subst (λ k. IsBalanced k result)
              (sym (ingest_all-reported 0 before frames p.0 p.1 valid e))
              (after_ingest-IsBalanced p.0 p.1 result rest)
      ]
