-- ===== src/Signal/Diagnostics.antt =====
-- src/can_pub_sub_probe/diagnostics.py: every drop of a probe is published, a drop of real traffic
-- only where the sampler takes it. The sink is the list of its events; the clock gives the time
-- of the n-th publication.
pub mod Accounting
use robo_services.Prelude.{
  ℕ, String, ◌≡◌, Bool, false, true, not, ◌&&◌, List, [], ◌∷◌, ◌++◌, length, if◌then◌else◌, Option,
  none, some,
}
use robo_services.Frame.Probe.{ProbeContext}
use robo_services.Signal.{SignalEvent, DropReason, DropEvent, Detail}

abbrev pub tracer_of : Option ProbeContext → Option String
tracer_of none = none
tracer_of (some p) = some p.tracer_id

abbrev pub is_none {ℓ} : {A : Type ℓ} → Option A → Bool
is_none none = true
is_none (some a) = false

module _ {F : Type 0} where
  -- `InMemoryDiagnosticSink.publish`.
  unfoldable pub publish : List (DropEvent F) → DropEvent F → List (DropEvent F)
  publish events event = events ++ (event ∷ [])

-- What the hops share: the publication times and the optional sampler of real traffic.
pub record Reporting (F : Type 0) : Type 0 where
  pub clock : ℕ → ℕ
  pub sample_real_traffic : Option (SignalEvent F → Bool)

module _ {F : Type 0} (r : Reporting F) where
  unfoldable pub should_emit_real_traffic : SignalEvent F → Bool
  should_emit_real_traffic msg = elim r.sample_real_traffic [ none ↦ false | some f ↦ f msg ]

  drop_event : SignalEvent F → DropReason → String → Detail F → List (DropEvent F) → DropEvent F
  drop_event msg reason hop_name detail sink = record {
    tracer_id = tracer_of msg.probe;
    hop = hop_name;
    outcome = "dropped";
    reason_code = reason;
    reason_detail = detail;
    signal = msg.signal_name;
    timestamp = r.clock (length sink);
  }

  -- `emit_drop`: the sink afterwards, and the event if one was published.
  unfoldable pub emit_drop :
      SignalEvent F
      → DropReason
      → String
      → Detail F
      → List (DropEvent F)
      → List (DropEvent F) × Option (DropEvent F)
  unfolding publish should_emit_real_traffic drop_event
  emit_drop msg reason hop_name detail sink =
      let event = drop_event msg reason hop_name detail sink in
      if is_none msg.probe && not (should_emit_real_traffic msg)
      then (sink, none)
      else (publish sink event, some event)
