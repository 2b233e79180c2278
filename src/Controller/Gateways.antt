-- ===== src/Controller/Gateways.antt =====
-- internal/controller/gateway_reconcile.go: what a gateway's class, listeners and routes make of it.
-- The reconciliation is in Gateways/Reconcile.
pub mod Cases
pub mod Evaluation
pub mod Coherence
pub mod Names
pub mod Reconcile
use clusterip_gw.Base.{
  ℕ, ℤ, pos, zero, suc, ◌+◌, String, Bool, true, false, not, Option, none, some, List, [], ◌∷◌,
  ◌++◌, ◌==◌, ◌!=◌, ◌&&◌, ◌||◌, nat_eq, string_eq, if◌then◌else◌, ltb, length, int32, ◌<>◌, quote,
  M, lift, return, ◌>>=◌, ◌>>◌, Result, ok, err, Error, not_found, message,
}
use clusterip_gw.Kube.{
  ConditionStatus, condition_true, condition_false, condition_status_eq, Condition, GatewayClass,
  Listener, ListenerStatus, GatewayAddress, GatewayStatus, Gateway, TcpRoute, NamespacedName,
  key_of,
}
use clusterip_gw.Meta.{gateway_class_name}
use clusterip_gw.Controller.{controller_name, Library, Client, Informers}
use clusterip_gw.Controller.Refs.{namespaced_key, split_namespaced_key}
use clusterip_gw.Controller.Status.{
  merge_conditions, condition, bool_to_condition_status, condition_reason,
  gateway_class_status_equal, gateway_status_equal,
}
use clusterip_gw.Controller.Listeners.{
  Validation, validate_gateway_listeners, rejected_status, listener_status_for_outcome,
  listener_statuses_for_gateway_message, set_listener_programmed_condition,
}
use clusterip_gw.Controller.Ipam.{ParsedPrefix, ensure_gateway_vip, release_gateway_ip_addresses}
use clusterip_gw.Controller.Routes.{
  attached_routes_for_listener, matching_parent_ref, evaluate_route, RouteEvaluation, found_or_none,
}
use clusterip_gw.Controller.Finalizers.{
  gateway_previously_managed, clear_managed_gateway_status, ensure_gateway_finalizer,
  cleanup_gateway_resources,
}

-- gatewayEvaluation of reconcile_types.go
pub record GatewayEvaluation : Type 0 where
  pub accepted_status : ConditionStatus
  pub accepted_reason : String
  pub accepted_message : String
  pub programmed_reason : String
  pub programmed_message : String
  pub listeners : List ListenerStatus
  pub valid : Bool
  pub selected_vip : String
  pub needs_vip : Bool

-- The locals of the loop over the listeners.
pub record Progress : Type 0 where
  pub statuses : List ListenerStatus
  pub first_error : String
  pub usable : ℕ

unfoldable pub should_manage_gateway_class : GatewayClass → Bool
should_manage_gateway_class c =
    c.meta.name == gateway_class_name || c.controller_name == controller_name

unfoldable pub gateway_class_accepted_message : GatewayClass → Bool → String
gateway_class_accepted_message c accepted =
    if accepted
    then "GatewayClass accepted by clusterip-gw-controller."
    else if c.meta.name != gateway_class_name
    then "Only GatewayClass " <> quote gateway_class_name <> " is supported by this controller."
    else "GatewayClass "
      <> quote gateway_class_name
      <> " must set spec.controllerName to "
      <> quote controller_name
      <> "."

-- The evaluations that end early: not accepted, and not programmed with the same message.
unfoldable pub refused : String → String → List ListenerStatus → GatewayEvaluation
refused reason message statuses = record {
  accepted_status = condition_false;
  accepted_reason = reason;
  accepted_message = message;
  programmed_reason = "Invalid";
  programmed_message = message;
  listeners = statuses;
  valid = false;
  selected_vip = "";
  needs_vip = false;
}

fail : Progress → String → ListenerStatus → Progress
fail s message status = record s {
  statuses = s.statuses ++ (status ∷ []);
  first_error = if s.first_error == "" then message else s.first_error;
}

module _ (lib : Library) where
  usable_status : Listener → ℕ → ListenerStatus
  usable_status l generation =
      listener_status_for_outcome lib l (pos 1) condition_true "Accepted"
        "Listener accepted for TCPRoute attachment." condition_true "ResolvedRefs"
        "Listener references resolved." condition_false "Pending" "Waiting for VIP allocation."
        generation

  route_usable : RouteEvaluation → Bool
  route_usable e = not (e.accepted_status != condition_true || e.resolved_status != condition_true)

  route_message : TcpRoute → RouteEvaluation → String
  route_message r e =
      "Attached TCPRoute " <> r.meta.namespace <> "/" <> r.meta.name <> " is not supported: "
      <> e.accepted_message <> "; " <> e.resolved_message

  unfoldable pub with_route : Gateway → Listener → TcpRoute → RouteEvaluation → Progress → Progress
  unfolding route_usable usable_status route_message fail
  with_route g l r e s =
      if route_usable e
      then record s {
        statuses = s.statuses ++ (usable_status l g.meta.generation ∷ []);
        usable = suc s.usable;
      }
      else fail s (route_message r e)
          (rejected_status lib l (pos 1) "UnsupportedValue" (route_message r e) g.meta.generation)

  unfoldable pub evaluate_listener :
      Informers
      → Gateway
      → Option GatewayClass
      → List TcpRoute
      → Listener
      → List TcpRoute
      → Progress
      → Progress
  unfolding fail
  evaluate_listener inf g c routes l [] s =
      let m = "Listener " <> quote l.name <> " requires exactly one attached TCPRoute." in
      fail s m (rejected_status lib l (pos 0) "UnsupportedValue" m g.meta.generation)
  evaluate_listener inf g c routes l (r ∷ []) s =
      with_route g l r (evaluate_route lib inf r (matching_parent_ref r g) g c routes) s
  evaluate_listener inf g c routes l (r ∷ r' ∷ rest) s =
      let m =
        "Listener "
        <> quote l.name
        <> " supports exactly one attached TCPRoute; multiple attached TCPRoutes were found." in
      fail s m (
        rejected_status lib l (int32 (length (r ∷ r' ∷ rest))) "UnsupportedValue" m
          g.meta.generation)

  unfoldable pub evaluate_listeners :
      Informers
      → Gateway
      → Option GatewayClass
      → List TcpRoute
      → List Listener
      → Progress
      → Progress
  evaluate_listeners inf g c routes [] s = s
  evaluate_listeners inf g c routes (l ∷ rest) s =
      evaluate_listeners inf g c routes rest
        (evaluate_listener inf g c routes l (attached_routes_for_listener g l routes) s)

  unfoldable pub conclude : List Listener → Progress → GatewayEvaluation
  unfolding refused
  conclude listeners s =
      if s.usable == 0 then refused "Invalid" s.first_error s.statuses else record {
        accepted_status = condition_true;
        accepted_reason = "Accepted";
        accepted_message =
            if s.usable == length listeners
            then "Gateway accepted by clusterip-gw-controller."
            else "Gateway accepted by clusterip-gw-controller; some listeners are not supported.";
        programmed_reason = "Pending";
        programmed_message = "Waiting for VIP allocation.";
        listeners = s.statuses;
        valid = true;
        selected_vip = "";
        needs_vip = true;
      }

  address_message : String
  address_message =
      "Spec.addresses is not supported for " <> gateway_class_name <> " Gateways in this phase."

  unfoldable pub evaluate_validated :
      Informers → Gateway → Option GatewayClass → List TcpRoute → Validation → GatewayEvaluation
  unfolding refused address_message
  evaluate_validated inf g c routes v =
      if not v.valid
      then refused "ListenersNotValid" v.message v.statuses
      else if ltb 0 (length g.spec_addresses)
      then refused "UnsupportedAddress" address_message
          (listener_statuses_for_gateway_message lib g.listeners address_message g.meta.generation)
      else conclude v.listeners (
          evaluate_listeners inf g c routes v.listeners
            (record { statuses = []; first_error = ""; usable = 0 }))

  unfoldable pub evaluate_gateway :
      Informers → Gateway → Option GatewayClass → List TcpRoute → GatewayEvaluation
  unfolding refused
  evaluate_gateway inf g none routes =
      refused "InvalidParameters" ("GatewayClass " <> quote gateway_class_name <> " was not found.")
        []
  evaluate_gateway inf g (some c) routes =
      if c.controller_name != controller_name
      then refused "InvalidParameters"
          ("GatewayClass "
            <> quote c.meta.name
            <> " is controlled by "
            <> quote c.controller_name
            <> ", not "
            <> quote controller_name
            <> ".")
          []
      else evaluate_validated inf g (some c) routes (validate_gateway_listeners lib g)
