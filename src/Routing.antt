-- ===== src/Routing.antt =====
-- src/can_pub_sub_probe/routing.py: events fan out to the topics of every rule that matches their
-- signal; an event that no rule takes, or that the table is too old for, is dropped.
pub mod Delivery
use robo_services.Prelude.{
  ℕ, String, ◌≡◌, Bool, false, true, List, [], ◌∷◌, ◌++◌, map, any, is_empty, ltb, if◌then◌else◌,
  string_eq,
}
use robo_services.Prelude.Dict.{Dict, get_or}
use robo_services.Signal.{
  SignalEvent, DropEvent, no_route, routing_table_version_mismatch, version_predates,
  no_rule_matched,
}
use robo_services.Signal.Diagnostics.{Reporting, emit_drop}

pub record RouteRule : Type 0 where
  pub id : String
  pub signal_patterns : List String
  pub topics : List String

pub record RoutingTable : Type 0 where
  pub name : String
  pub version : ℕ
  pub rules : List RouteRule

pub record RoutedSignal (F : Type 0) : Type 0 where
  pub topic : String
  pub event : SignalEvent F
  pub rule_id : String

-- `build_default_routing_table`.
unfoldable pub default_routing_table : RoutingTable
default_routing_table = record {
  name = "default-routing-v1";
  version = 1;
  rules =
      (record {
        id = "route-powertrain-primary";
        signal_patterns =
            "Engine*" ∷ "Throttle*" ∷ "Transmission*" ∷ "MassAirFlow" ∷ "CoolantTemp"
            ∷ "EngineOilTemp" ∷ "IntakeAirTemp" ∷ [];
        topics = "signals.powertrain" ∷ [];
      })
      ∷ (record {
        id = "route-speed-to-powertrain";
        signal_patterns = "VehicleSpeed" ∷ [];
        topics = "signals.powertrain" ∷ [];
      })
      ∷ (record {
        id = "route-chassis-primary";
        signal_patterns = "VehicleSpeed" ∷ "BrakePedalApplied" ∷ [];
        topics = "signals.chassis" ∷ [];
      })
      ∷ [];
}

-- `RouteRule.matches`; `fnmatch` is Python's.
unfoldable pub rule_matches : (String → String → Bool) → RouteRule → String → Bool
rule_matches fnmatch rule signal_name =
    any (λ pattern. fnmatch signal_name pattern) rule.signal_patterns

module _ {F : Type 0} where
  unfoldable pub route_to : SignalEvent F → RouteRule → List String → List (RoutedSignal F)
  route_to event rule [] = []
  route_to event rule (topic ∷ topics) =
      (record { topic = topic; event = event; rule_id = rule.id }) ∷ route_to event rule topics

module _ {F : Type 0} (fnmatch : String → String → Bool) where
  unfoldable pub matched_routes : List RouteRule → SignalEvent F → List (RoutedSignal F)
  matched_routes [] event = []
  matched_routes (rule ∷ rules) event =
      let rest = matched_routes rules event in
      if rule_matches fnmatch rule event.signal_name
      then route_to event rule rule.topics ++ rest
      else rest

  module _ (table : RoutingTable) (signal_versions : Dict String ℕ) (r : Reporting F) where
    abbrev pub required_version : SignalEvent F → ℕ
    required_version event = get_or signal_versions event.signal_name 1

    -- One turn of `route`: the sink afterwards and what the event adds to the routed signals.
    unfoldable pub route_one :
        List (DropEvent F) → SignalEvent F → List (DropEvent F) × List (RoutedSignal F)
    route_one sink event =
        if ltb table.version (required_version event)
        then (
          (emit_drop r event routing_table_version_mismatch "router"
              (version_predates table.version (required_version event)) sink).0,
          [],
        )
        else let matched = matched_routes table.rules event in
          if is_empty matched
          then (
            (emit_drop r event no_route "router" (no_rule_matched event.signal_name) sink).0,
            [],
          )
          else (sink, matched)

    unfoldable pub route :
        List (DropEvent F) → List (SignalEvent F) → List (DropEvent F) × List (RoutedSignal F)
    route sink [] = (sink, [])
    route sink (event ∷ events) =
        let (sink', matched) = route_one sink event in
        let (sink'', rest) = route sink' events in (sink'', matched ++ rest)
