-- ===== src/Routing/Delivery.antt =====
-- What is routed where, and that no probe is lost without a report.
use robo_services.Prelude.{
  ℕ, ◌+◌, String, ◌≡◌, refl, Bool, false, not, ◌&&◌, ◌||◌, List, [], ◌∷◌, ◌++◌, arith, any,
  is_empty, leb, if◌then◌else◌, ◌==◌, string_eq,
}
use robo_services.Prelude.Dict.{Dict, get_or}
use robo_services.Signal.{SignalEvent, DropEvent}
use robo_services.Signal.Diagnostics.{Reporting, tracer_of}
use robo_services.Signal.Diagnostics.Accounting.{in_flight, reported, hits, reported-emit_drop}
use robo_services.Routing.{RouteRule, RoutingTable, RoutedSignal, matched_routes, route_one, route}

abbrev names_rule : RouteRule → String → String → Bool
names_rule rule topic id = rule.id == id && any (λ u. u == topic) rule.topics

-- Whether some rule with this id matches the name and lists the topic.
abbrev pub lists : (String → String → Bool) → List RouteRule → String → String → String → Bool
lists fnmatch [] name topic id = false
lists fnmatch (rule ∷ rules) name topic id =
    (any (λ pattern. fnmatch name pattern) rule.signal_patterns && names_rule rule topic id)
    || lists fnmatch rules name topic id

module _ {F : Type 0} where
  -- Whether the routed signals have one for this topic and rule.
  abbrev pub delivers : List (RoutedSignal F) → String → String → Bool
  delivers [] topic id = false
  delivers (x ∷ xs) topic id = (x.topic == topic && x.rule_id == id) || delivers xs topic id

module _ {F : Type 0} (fnmatch : String → String → Bool) where
  module _ (table : RoutingTable) (signal_versions : Dict String ℕ) (r : Reporting F) where
    -- The table is new enough for the signal, and some matching rule has a topic.
    abbrev pub routable : SignalEvent F → Bool
    routable e =
        leb (get_or signal_versions e.signal_name 1) table.version
        && not (is_empty (matched_routes fnmatch table.rules e))

    abbrev pub routable_events : List (SignalEvent F) → List (SignalEvent F)
    routable_events [] = []
    routable_events (e ∷ es) =
        let rest = routable_events es in if routable e then e ∷ rest else rest

    abbrev pub all_routes : List (SignalEvent F) → List (RoutedSignal F)
    all_routes [] = []
    all_routes (e ∷ es) = matched_routes fnmatch table.rules e ++ all_routes es

    route_one-routable :
        (sink : List (DropEvent F)) (e : SignalEvent F)
        → (route_one fnmatch table signal_versions r sink e).1
          ≡ (if routable e then matched_routes fnmatch table.rules e else [])
    unfolding route_one
    route_one-routable sink e = ground arith

    module _ (t : String) where
      route_one-reported :
          (sink : List (DropEvent F)) (e : SignalEvent F)
          → reported t (route_one fnmatch table signal_versions r sink e).0
            ≡ reported t sink + (if routable e then 0 else hits t (tracer_of e.probe))
      unfolding route_one
      route_one-reported sink e = grind (arith, reported-emit_drop)

      -- The routed signals are the routes of the routable events, in order; and for every tracer id
      -- the probes that enter are those of the routable events and those newly reported.
      pub route_lem :
          (sink : List (DropEvent F)) (events : List (SignalEvent F))
          → let (sink', routed) = route fnmatch table signal_versions r sink events in
            (routed ≡ all_routes (routable_events events))
            × (in_flight t events + reported t sink
                ≡ in_flight t (routable_events events) + reported t sink')
      unfolding route
      route_lem sink [] = (refl, refl)
      route_lem sink (e ∷ es) =
          let sink' = (route_one fnmatch table signal_versions r sink e).0 in
          ground (arith, route_one-routable sink e, route_one-reported sink e, route_lem sink' es)
