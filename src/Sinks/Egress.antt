-- ===== src/Sinks/Egress.antt =====
-- Probes that suppress egress leave no record, every probe leaves one terminal event, and the
-- summary counts what was written.
use mathlib.Core.List.{append_assoc, append-nil, map-append}
use robo_services.Prelude.{
  ℕ, ◌+◌, String, ◌≡◌, refl, sym, Bool, List, [], ◌∷◌, ◌++◌, arith, length, length-append, map,
  if◌then◌else◌, Option, none, some, Option-cases, Bool-cases, inl, inr,
}
use robo_services.Frame.Probe.{ProbeContext}
use robo_services.Signal.{SignalEvent, AggregatedSignal}
use robo_services.Sinks.{
  Backend, SinkWriteSummary, SinkTerminalEvent, RawSignalSinkRecord, AggregateSignalSinkRecord,
  raw_record, aggregate_record, probe_suppresses_egress, zero_counts, write_event, write_item,
  write_events, write_items, write, write_raw, write_aggregate, record_terminal,
}

-- The tracers of the probes among the items, in order.
abbrev pub tracers : List (Option ProbeContext) → List String
tracers [] = []
tracers (none ∷ ps) = tracers ps
tracers (some p ∷ ps) = p.tracer_id ∷ tracers ps

abbrev pub terminal_tracers : List SinkTerminalEvent → List String
terminal_tracers = map (λ (t : SinkTerminalEvent). t.tracer_id)

module _ {F : Type 0} where
  -- What should be written of a list of events: a record of each that does not suppress egress.
  abbrev pub raw_of : String → List (SignalEvent F) → List (RawSignalSinkRecord F)
  raw_of topic [] = []
  raw_of topic (e ∷ es) =
      let rest = raw_of topic es in
      if probe_suppresses_egress e.probe then rest else raw_record e topic ∷ rest

  abbrev pub aggregates_of : List (AggregatedSignal F) → List (AggregateSignalSinkRecord F)
  aggregates_of [] = []
  aggregates_of (x ∷ xs) =
      let rest = aggregates_of xs in
      if probe_suppresses_egress x.probe then rest else aggregate_record x ∷ rest

  abbrev pub probes_of : List (SignalEvent F) → List (Option ProbeContext)
  probes_of = map (λ (e : SignalEvent F). e.probe)

  abbrev pub item_probes_of : List (AggregatedSignal F) → List (Option ProbeContext)
  item_probes_of = map (λ (x : AggregatedSignal F). x.probe)

-- What a backend holds after a call, against what it held before.
record Grows {F : Type 0} (b b' : Backend F) (raw : List (RawSignalSinkRecord F))
    (aggregate : List (AggregateSignalSinkRecord F)) (ids : List String) : Type 0 where
  raws : b'.raw_records ≡ b.raw_records ++ raw
  aggregates : b'.aggregate_records ≡ b.aggregate_records ++ aggregate
  terminals : terminal_tracers b'.terminal_events ≡ terminal_tracers b.terminal_events ++ ids

module _ {F : Type 0} {a b c : Backend F} {r r' : List (RawSignalSinkRecord F)}
    {g g' : List (AggregateSignalSinkRecord F)} {i i' : List String} where
  Grows-trans : Grows a b r g i → Grows b c r' g' i' → Grows a c (r ++ r') (g ++ g') (i ++ i')
  Grows-trans h k = record {
    raws = simp (k.raws, h.raws, append_assoc);
    aggregates = simp (k.aggregates, h.aggregates, append_assoc);
    terminals = simp (k.terminals, h.terminals, append_assoc);
  }

module _ {F : Type 0} (clock : ℕ → ℕ) where
  record_terminal-Grows :
      (b : Backend F) (p : ProbeContext) (name topic kind session : String) (suppressed : Bool)
      → Grows b
          (record_terminal clock b p name topic kind session suppressed)
          []
          []
          (p.tracer_id ∷ [])
  unfolding record_terminal
  record_terminal-Grows b p name topic kind session suppressed = record {
    raws = sym (append-nil b.raw_records);
    aggregates = sym (append-nil b.aggregate_records);
    terminals = map-append (λ (t : SinkTerminalEvent). t.tracer_id) b.terminal_events _;
  }

  write_raw-Grows :
      (b : Backend F) (x : RawSignalSinkRecord F) → Grows b (write_raw b x) (x ∷ []) [] []
  unfolding write_raw
  write_raw-Grows b x = record {
    raws = refl;
    aggregates = sym (append-nil b.aggregate_records);
    terminals = sym (append-nil (terminal_tracers b.terminal_events));
  }

  write_aggregate-Grows :
      (b : Backend F) (x : AggregateSignalSinkRecord F)
      → Grows b (write_aggregate b x) [] (x ∷ []) []
  unfolding write_aggregate
  write_aggregate-Grows b x = record {
    raws = sym (append-nil b.raw_records);
    aggregates = refl;
    terminals = sym (append-nil (terminal_tracers b.terminal_events));
  }

  write_event-Grows :
      (topic : String) (b : Backend F) (e : SignalEvent F)
      → Grows b (write_event clock topic b e) (raw_of topic (e ∷ [])) [] (tracers (e.probe ∷ []))
  unfolding write_event
  write_event-Grows topic b e = elim (Option-cases e.probe) [
    | inl h ↦ simp (h, write_event) (write_raw-Grows b (raw_record e topic))
    | inr (p, h) ↦ elim (Bool-cases p.suppress_egress) [
      | inl k ↦ simp (h, k, write_event) (record_terminal-Grows b p _ _ _ _ _)
      | inr k ↦
          simp (h, k, write_event)
            (Grows-trans (write_raw-Grows b (raw_record e topic))
              (record_terminal-Grows _ p _ _ _ _ _))
    ]
  ]

  write_item-Grows :
      (b : Backend F) (x : AggregatedSignal F)
      → Grows b (write_item clock b x) [] (aggregates_of (x ∷ [])) (tracers (x.probe ∷ []))
  unfolding write_item
  write_item-Grows b x = elim (Option-cases x.probe) [
    | inl h ↦ simp (h, write_item) (write_aggregate-Grows b (aggregate_record x))
    | inr (p, h) ↦ elim (Bool-cases p.suppress_egress) [
      | inl k ↦ simp (h, k, write_item) (record_terminal-Grows b p _ _ _ _ _)
      | inr k ↦
          simp (h, k, write_item)
            (Grows-trans (write_aggregate-Grows b (aggregate_record x))
              (record_terminal-Grows _ p _ _ _ _ _))
    ]
  ]

module _ {F : Type 0} where
  raw_of-cons :
      (topic : String) (e : SignalEvent F) (es : List (SignalEvent F))
      → raw_of topic (e ∷ es) ≡ raw_of topic (e ∷ []) ++ raw_of topic es
  raw_of-cons topic e es = ground arith

  aggregates_of-cons :
      (x : AggregatedSignal F) (xs : List (AggregatedSignal F))
      → aggregates_of (x ∷ xs) ≡ aggregates_of (x ∷ []) ++ aggregates_of xs
  aggregates_of-cons x xs = ground arith

tracers-cons :
    (p : Option ProbeContext) (ps : List (Option ProbeContext))
    → tracers (p ∷ ps) ≡ tracers (p ∷ []) ++ tracers ps
tracers-cons none ps = refl
tracers-cons (some p) ps = refl

module _ {F : Type 0} (clock : ℕ → ℕ) where
  -- The backend and the counters after the first loop, and after the second.
  write_events-Grows :
      (topic : String) (b : Backend F) (n : SinkWriteSummary) (es : List (SignalEvent F))
      → let (b', n') = write_events clock topic b n es in
        Grows b b' (raw_of topic es) [] (tracers (probes_of es))
        × (n'.raw_records_written ≡ n.raw_records_written + length (raw_of topic es))
        × (n'.aggregate_records_written ≡ n.aggregate_records_written)
        × (n'.terminal_events_recorded
            ≡ n.terminal_events_recorded + length (tracers (probes_of es)))
  unfolding write_events
  write_events-Grows topic b n [] = (
    record {
      raws = sym (append-nil b.raw_records);
      aggregates = sym (append-nil b.aggregate_records);
      terminals = sym (append-nil (terminal_tracers b.terminal_events));
    },
    omega arith,
    refl,
    omega arith,
  )
  write_events-Grows topic b n (e ∷ es) =
      let (g, c0, c1, c2) = write_events-Grows topic (write_event clock topic b e) _ es in
      (
        simp (raw_of-cons topic e es, tracers-cons e.probe (probes_of es))
            (Grows-trans (write_event-Grows clock topic b e) g),
        ground (arith, c0),
        c1,
        ground (arith, c2),
      )

  write_items-Grows :
      (b : Backend F) (n : SinkWriteSummary) (xs : List (AggregatedSignal F))
      → let (b', n') = write_items clock b n xs in
        Grows b b' [] (aggregates_of xs) (tracers (item_probes_of xs))
        × (n'.raw_records_written ≡ n.raw_records_written)
        × (n'.aggregate_records_written ≡ n.aggregate_records_written + length (aggregates_of xs))
        × (n'.terminal_events_recorded
            ≡ n.terminal_events_recorded + length (tracers (item_probes_of xs)))
  unfolding write_items
  write_items-Grows b n [] = (
    record {
      raws = sym (append-nil b.raw_records);
      aggregates = sym (append-nil b.aggregate_records);
      terminals = sym (append-nil (terminal_tracers b.terminal_events));
    },
    refl,
    omega arith,
    omega arith,
  )
  write_items-Grows b n (x ∷ xs) =
      let (g, c0, c1, c2) = write_items-Grows (write_item clock b x) _ xs in
      (
        simp (aggregates_of-cons x xs, tracers-cons x.probe (item_probes_of xs))
            (Grows-trans (write_item-Grows clock b x) g),
        c0,
        ground (arith, c1),
        ground (arith, c2),
      )

  -- A call of `write` appends a raw record for each validated event and an aggregate record for each
  -- aggregate that carries no egress-suppressing probe, in order and no other, and one terminal event
  -- for each probe, in order; the summary counts exactly these.
  pub write_lem :
      (topic : String) (b : Backend F) (es : List (SignalEvent F)) (xs : List (AggregatedSignal F))
      → let (b', n) = write clock topic b es xs in
        let ids = tracers (probes_of es) ++ tracers (item_probes_of xs) in
        (b'.raw_records ≡ b.raw_records ++ raw_of topic es)
        × (b'.aggregate_records ≡ b.aggregate_records ++ aggregates_of xs)
        × (terminal_tracers b'.terminal_events ≡ terminal_tracers b.terminal_events ++ ids)
        × (n.raw_records_written ≡ length (raw_of topic es))
        × (n.aggregate_records_written ≡ length (aggregates_of xs))
        × (n.terminal_events_recorded ≡ length ids)
  unfolding write
  write_lem topic b es xs =
      let (b', n) = write_events clock topic b zero_counts es in
      let (g, c0, c1, c2) = write_events-Grows topic b zero_counts es in
      let (h, d0, d1, d2) = write_items-Grows b' n xs in
      let both = Grows-trans g h in
      (
        simp both.raws (simp append-nil),
        both.aggregates,
        both.terminals,
        omega (arith, c0, d0),
        omega (arith, c1, d1),
        omega (arith, c2, d2, length-append (tracers (probes_of es)) (tracers (item_probes_of xs))),
      )
