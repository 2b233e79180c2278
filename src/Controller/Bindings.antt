-- ===== src/Controller/Bindings.antt =====
-- internal/controller/endpointselector_reconcile.go: which gateways and listeners forward to an
-- endpoint selector.
pub mod Collected
pub mod Keyed
pub mod Source
use clusterip_gw.Base.{
  ℤ, String, Bool, true, false, not, Option, none, some, List, [], ◌∷◌, ◌++◌, ◌==◌, ◌!=◌, ◌||◌,
  int_eq, string_eq, option_eq, if◌then◌else◌, contains, sort_by, str_lt, ◌<>◌, Result, ok, err,
  not_found, map_ok,
}
use clusterip_gw.Kube.{
  ConditionStatus, condition_true, condition_status_eq, GatewayClass, Listener, Gateway, key_of,
  ParentReference, BackendRef, RouteRule, TcpRoute, EndpointSelector,
}
use clusterip_gw.Meta.{gateway_class_name}
use clusterip_gw.Controller.{Library, Informers}
use clusterip_gw.Controller.Refs.{
  namespaced_key, or_default, is_gateway_parent_ref, is_endpoint_selector_backend_ref,
}
use clusterip_gw.Controller.Routes.{
  RouteEvaluation, evaluate_route, resolve_gateway_listener, found_or_none,
}

-- gatewayBinding
pub record Binding : Type 0 where
  pub gateway : Gateway
  pub listener_name : String
  pub backend_port : ℤ

-- The key of a binding: its gateway's, and its listener's name.
unfoldable pub binding_key : Binding → String
binding_key b = namespaced_key (key_of b.gateway.meta) <> ":" <> b.listener_name

abbrev pub by_binding_key : Binding → Binding → Bool
by_binding_key a b = str_lt (binding_key a) (binding_key b)

-- `if seen.Has(key) { continue }; seen.Insert(key); bindings = append(bindings, binding)`
unfoldable pub add_binding :
    List String × List Binding → Option Binding → List String × List Binding
add_binding (seen, out) none = (seen, out)
add_binding (seen, out) (some b) =
    if contains seen (binding_key b) then (seen, out) else (binding_key b ∷ seen, out ++ (b ∷ []))

module _ (lib : Library) (inf : Informers) where
  -- The listener of the reference, when the route is accepted and its backend resolved.
  bound : Gateway → ℤ → RouteEvaluation → Result Listener → Option Binding
  bound g port e (err x) = none
  bound g port e (ok l) =
      if e.accepted_status != condition_true || e.resolved_status != condition_true
      then none
      else some (record { gateway = g; listener_name = l.name; backend_port = port })

  unfoldable pub bind_class :
      TcpRoute
      → ParentReference
      → ℤ
      → Gateway
      → Result (Option GatewayClass)
      → Result (List TcpRoute)
      → Result (Option Binding)
  unfolding bound
  bind_class r p port g (err e) attached = err e
  bind_class r p port g (ok c) (err e) = err e
  bind_class r p port g (ok c) (ok attached) =
      ok (bound g port (evaluate_route lib inf r p g c attached) (resolve_gateway_listener lib g p))

  unfoldable pub bind_gateway :
      TcpRoute → ParentReference → ℤ → Result Gateway → Result (Option Binding)
  bind_gateway r p port (err (not_found m)) = ok none
  bind_gateway r p port (err e) = err e
  bind_gateway r p port (ok g) =
      if g.gateway_class_name != gateway_class_name
      then ok none
      else bind_class r p port g (found_or_none lib (inf.gateway_class gateway_class_name))
          (inf.routes_by_gateway (namespaced_key (key_of g.meta)))

  first_bound : Result (Option Binding) → Result (Option Binding) → Result (Option Binding)
  first_bound (err e) later = err e
  first_bound (ok none) later = later
  first_bound (ok (some b)) later = ok (some b)

  -- The loop over the references to parents, which returns the first binding.
  unfoldable pub bind_parents : TcpRoute → ℤ → List ParentReference → Result (Option Binding)
  unfolding first_bound
  bind_parents r port [] = ok none
  bind_parents r port (p ∷ rest) =
      let later = bind_parents r port rest in
      if not (is_gateway_parent_ref p)
      then later
      else first_bound
          (bind_gateway r p port (inf.gateway (or_default p.namespace r.meta.namespace) p.name))
          later

  bind_port : TcpRoute → Option ℤ → Result (Option Binding)
  bind_port r none = ok none
  bind_port r (some port) = bind_parents r port r.parent_refs

  bind_backend : EndpointSelector → TcpRoute → BackendRef → Result (Option Binding)
  unfolding bind_port
  bind_backend s r b =
      if not (is_endpoint_selector_backend_ref r.meta.namespace b)
      then ok none
      else if or_default b.namespace r.meta.namespace != s.meta.namespace || b.name != s.meta.name
      then ok none
      else bind_port r b.port

  bind_refs : EndpointSelector → TcpRoute → List BackendRef → Result (Option Binding)
  bind_refs s r (b ∷ []) = bind_backend s r b
  bind_refs s r _ = ok none

  bind_rules : EndpointSelector → TcpRoute → List RouteRule → Result (Option Binding)
  bind_rules s r (rule ∷ []) = bind_refs s r rule.backend_refs
  bind_rules s r _ = ok none

  unfoldable pub gateway_binding_for_route : EndpointSelector → TcpRoute → Result (Option Binding)
  unfolding bind_rules bind_refs bind_backend
  gateway_binding_for_route s r = bind_rules s r r.rules

  add_result :
      Result (Option Binding)
      → List String × List Binding
      → (List String × List Binding → Result (List Binding))
      → Result (List Binding)
  add_result (err e) acc next = err e
  add_result (ok b) acc next = next (add_binding acc b)

  -- The loop over the routes.
  unfoldable pub collect_bindings :
      EndpointSelector → List TcpRoute → List String × List Binding → Result (List Binding)
  unfolding add_result
  collect_bindings s [] acc = ok acc.1
  collect_bindings s (r ∷ rest) acc =
      add_result (gateway_binding_for_route s r) acc (λ next. collect_bindings s rest next)

  sorted_bindings : EndpointSelector → Result (List TcpRoute) → Result (List Binding)
  sorted_bindings s (err e) = err e
  sorted_bindings s (ok routes) =
      map_ok (sort_by by_binding_key) (collect_bindings s routes ([], []))

  unfoldable pub list_referenced_gateway_bindings : EndpointSelector → Result (List Binding)
  unfolding sorted_bindings
  list_referenced_gateway_bindings s =
      sorted_bindings s (inf.routes_by_endpoint_selector (namespaced_key (key_of s.meta)))
