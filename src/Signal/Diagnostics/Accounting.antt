-- ===== src/Signal/Diagnostics/Accounting.antt =====
-- How often a tracer occurs among events and among the drops of a sink, and what a drop adds.
use robo_services.Prelude.{
  ℕ, ◌+◌, String, ◌≡◌, List, [], ◌∷◌, ◌++◌, arith, if◌then◌else◌, ◌==◌, string_eq, Option, none,
  some,
}
use robo_services.Signal.{SignalEvent, DropReason, DropEvent, Detail}
use robo_services.Signal.Diagnostics.{Reporting, emit_drop, drop_event, tracer_of}

abbrev pub hits : String → Option String → ℕ
hits t none = 0
hits t (some u) = if u == t then 1 else 0

module _ {F : Type 0} (t : String) where
  -- The events that carry the tracer `t`.
  abbrev pub in_flight : List (SignalEvent F) → ℕ
  in_flight [] = 0
  in_flight (e ∷ es) = hits t (tracer_of e.probe) + in_flight es

  -- The drops that name the tracer `t`.
  abbrev pub reported : List (DropEvent F) → ℕ
  reported [] = 0
  reported (d ∷ ds) = hits t d.tracer_id + reported ds

  pub in_flight-append :
      (xs ys : List (SignalEvent F)) → in_flight (xs ++ ys) ≡ in_flight xs + in_flight ys
  in_flight-append [] ys = omega arith
  in_flight-append (x ∷ xs) ys = omega (arith, in_flight-append xs ys)

  pub reported-append :
      (xs ys : List (DropEvent F)) → reported (xs ++ ys) ≡ reported xs + reported ys
  reported-append [] ys = omega arith
  reported-append (x ∷ xs) ys = omega (arith, reported-append xs ys)

module _ {F : Type 0} (t : String) (r : Reporting F) where
  -- A drop reports the probe that it drops, and no other tracer.
  pub reported-emit_drop :
      (msg : SignalEvent F) (reason : DropReason) (hop : String) (detail : Detail F)
      (sink : List (DropEvent F))
      → reported t (emit_drop r msg reason hop detail sink).0
        ≡ reported t sink + hits t (tracer_of msg.probe)
  unfolding emit_drop
  reported-emit_drop msg reason hop detail sink =
      ground (arith, reported-append t sink (drop_event r msg reason hop detail sink ∷ []))
