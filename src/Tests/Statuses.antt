-- ===== src/Tests/Statuses.antt =====
-- Evaluations of gateways and routes, and their statuses.
use clusterip_gw.Base.{
  Bool, count_if, nat_eq, int_eq, true, false, some, [], ◌∷◌, map, ◌≡◌, ◌↔◌, refl, if◌then◌else◌,
  Member, IsSorted, string_eq,
}
use clusterip_gw.Kube.{Condition, condition_true, condition_false, TcpRoute, RouteParentStatus}
use clusterip_gw.Controller.{controller_name}
use clusterip_gw.Controller.Status.{conditions_equal}
use clusterip_gw.Controller.Status.Equality.{timeless, conditions_equal_iff}
use clusterip_gw.Controller.Listeners.{
  validate_from, allowed_routes_supported, judge, listener_problem, validate_gateway_listeners,
}
use clusterip_gw.Controller.Listeners.Valid.{
  AreValid, validate_gateway_listeners-valid, validate_gateway_listeners-listeners,
}
use clusterip_gw.Controller.Routes.{
  attached_routes_for_listener, by_namespace_and_name, evaluate_route, is_foreign,
}
use clusterip_gw.Controller.Routes.Attached.{IsAttached, attached_routes_for_listener_lem}
use clusterip_gw.Controller.Routes.Evaluation.{IsAlone, HasBackend, evaluate_route-accepts}
use clusterip_gw.Controller.Gateways.{evaluate_gateway}
use clusterip_gw.Controller.Gateways.Evaluation.{IsServable, evaluate_gateway-valid}
use clusterip_gw.Controller.Gateways.Coherence.{evaluate_gateway-accepted}
use clusterip_gw.Tests.Network.{parent}
use clusterip_gw.Tests.Cluster.{lib, listener, gateway, class, tcp_route, informers}

evaluate_gateway-valid_example :
    ((evaluate_gateway lib (informers []) gateway (some class) (tcp_route ∷ [])).valid ≡ true) ↔ (
      (is_foreign lib (some class) ≡ false)
      × IsServable lib (informers []) gateway (some class) (tcp_route ∷ []))
evaluate_gateway-valid_example =
    evaluate_gateway-valid lib (informers []) gateway (some class) (tcp_route ∷ [])

evaluate_gateway-accepted_example :
    ((evaluate_gateway lib (informers []) gateway (some class) (tcp_route ∷ [])).accepted_status ≡ (
      if (evaluate_gateway lib (informers []) gateway (some class) (tcp_route ∷ [])).valid
      then condition_true
      else condition_false))
    × ((evaluate_gateway lib (informers []) gateway (some class) (tcp_route ∷ [])).needs_vip
        ≡ (evaluate_gateway lib (informers []) gateway (some class) (tcp_route ∷ [])).valid)
    × ((evaluate_gateway lib (informers []) gateway (some class) (tcp_route ∷ [])).selected_vip
        ≡ "")
evaluate_gateway-accepted_example =
    evaluate_gateway-accepted lib (informers []) gateway (some class) (tcp_route ∷ [])

evaluate_route-accepts_example :
    (((evaluate_route lib
          (informers [])
          tcp_route
          parent
          gateway
          (some class)
          (tcp_route ∷ [])).accepted_status
        ≡ condition_true)
      × ((evaluate_route lib
            (informers [])
            tcp_route
            parent
            gateway
            (some class)
            (tcp_route ∷ [])).resolved_status
          ≡ condition_true))
    ↔ ((is_foreign lib (some class) ≡ false)
        × IsAlone lib tcp_route parent gateway (tcp_route ∷ [])
        × HasBackend lib (informers []) tcp_route)
evaluate_route-accepts_example =
    evaluate_route-accepts lib (informers []) tcp_route parent gateway (some class) (tcp_route ∷ [])

validate_gateway_listeners-valid_example :
    ((validate_gateway_listeners lib gateway).valid ≡ true) ↔ AreValid gateway.listeners
validate_gateway_listeners-valid_example = validate_gateway_listeners-valid lib gateway

validate_gateway_listeners-listeners_example :
    (validate_gateway_listeners lib gateway).listeners ≡ gateway.listeners
unfolding validate_gateway_listeners string_eq nat_eq validate_from judge listener_problem int_eq
    allowed_routes_supported
validate_gateway_listeners-listeners_example = validate_gateway_listeners-listeners lib gateway refl

attached_routes_for_listener_lem_example :
    IsSorted by_namespace_and_name (attached_routes_for_listener gateway listener (tcp_route ∷ []))
    × ((r : TcpRoute)
        → Member r (attached_routes_for_listener gateway listener (tcp_route ∷ []))
          ↔ (Member r (tcp_route ∷ []) × IsAttached gateway listener r))
    × ((t : TcpRoute → Bool)
        → ((r : TcpRoute) → t r ≡ true → IsAttached gateway listener r)
        → count_if t (attached_routes_for_listener gateway listener (tcp_route ∷ []))
          ≡ count_if t (tcp_route ∷ []))
attached_routes_for_listener_lem_example =
    attached_routes_for_listener_lem gateway listener (tcp_route ∷ [])

abbrev old_condition : Condition
old_condition = record {
  type = "Accepted";
  status = condition_false;
  reason = "Pending";
  message = "";
  observed_generation = 1;
  last_transition_time = 4;
}

abbrev new_condition : Condition
new_condition = record old_condition { last_transition_time = 5 }

conditions_equal_iff_example :
    (conditions_equal (old_condition ∷ []) (new_condition ∷ []) ≡ true)
    ↔ (map timeless (old_condition ∷ []) ≡ map timeless (new_condition ∷ []))
conditions_equal_iff_example = conditions_equal_iff (old_condition ∷ []) (new_condition ∷ [])

abbrev foreign : RouteParentStatus
foreign = record { parent_ref = parent; controller_name = "example.com/other"; conditions = [] }

abbrev stale : RouteParentStatus
stale = record foreign { controller_name = controller_name }
