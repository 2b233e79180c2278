-- ===== src/Controller/Routes.antt =====
-- internal/controller/route_reconcile.go: which listener a route attaches to, and the status of a
-- route. The calls of the informers are pure; UpdateStatus is the one call on the world.
pub mod Attached
pub mod Evaluation
pub mod Reconcile
use clusterip_gw.Base.{
  ℕ, ℤ, pos, String, Bool, true, false, not, Option, none, some, List, [], ◌∷◌, ◌++◌, ◌==◌, ◌!=◌,
  ◌&&◌, ◌||◌, nat_eq, string_eq, int_eq, option_eq, if◌then◌else◌, length, any, keep, sort_by,
  str_lt, ◌<>◌, quote, M, lift, return, ◌>>=◌, Result, ok, err, Error, not_found, other, message,
  is_not_found, map_ok,
}
use clusterip_gw.Kube.{
  ConditionStatus, condition_true, condition_false, condition_status_eq, GatewayClass, Listener,
  Gateway, NamespacedName, key_of, ParentReference, BackendRef, RouteRule, RouteParentStatus,
  TcpRoute, EndpointSelector,
}
use clusterip_gw.Meta.{gateway_class_name}
use clusterip_gw.Controller.{
  controller_name, endpoint_selector_api_group, endpoint_selector_kind, Library, Client, Informers,
}
use clusterip_gw.Controller.Refs.{
  namespaced_key, split_namespaced_key, or_default, is_gateway_parent_ref,
}
use clusterip_gw.Controller.Status.{
  merge_conditions, condition, merge_route_parents, route_status_equal, text_of,
}
use clusterip_gw.Controller.Listeners.{Validation, validate_gateway_listeners}

-- routeEvaluation of reconcile_types.go
pub record RouteEvaluation : Type 0 where
  pub accepted_status : ConditionStatus
  pub accepted_reason : String
  pub accepted_message : String
  pub resolved_status : ConditionStatus
  pub resolved_reason : String
  pub resolved_message : String

-- A pointer that is not set selects every value.
selects_name : Option String → String → Bool
selects_name none name = true
selects_name (some s) name = s == name

selects_port : Option ℤ → ℤ → Bool
selects_port none port = true
selects_port (some p) port = p == port

unfoldable pub parent_matches_listener : ParentReference → Listener → Bool
unfolding selects_name selects_port
parent_matches_listener p l =
    if not (selects_name p.section_name l.name)
    then false
    else if not (selects_port p.port l.port)
    then false
    else true

-- The tests that a reference to a gateway passes before its listener is looked at.
unfoldable pub refers_to : String → Gateway → ParentReference → Bool
refers_to namespace g p =
    is_gateway_parent_ref p
    && or_default p.namespace namespace == g.meta.namespace
    && p.name == g.meta.name

-- A route is listed once, whichever of its references matches first.
unfoldable pub attaches : Gateway → Listener → TcpRoute → Bool
attaches g l r =
    if r.meta.namespace != g.meta.namespace
    then false
    else any (λ p. refers_to r.meta.namespace g p && parent_matches_listener p l) r.parent_refs

abbrev pub by_namespace_and_name : TcpRoute → TcpRoute → Bool
by_namespace_and_name a b =
    if a.meta.namespace == b.meta.namespace
    then str_lt a.meta.name b.meta.name
    else str_lt a.meta.namespace b.meta.namespace

unfoldable pub attached_routes_for_listener : Gateway → Listener → List TcpRoute → List TcpRoute
attached_routes_for_listener g l routes = sort_by by_namespace_and_name (keep (attaches g l) routes)

unfoldable pub count_attached_routes_for_listener : Gateway → Listener → List TcpRoute → ℕ
count_attached_routes_for_listener g l routes = length (attached_routes_for_listener g l routes)

matching_from : TcpRoute → Gateway → List ParentReference → ParentReference
matching_from r g [] = record {
  group = none;
  kind = none;
  namespace = none;
  name = g.meta.name;
  section_name = none;
  port = none;
}
matching_from r g (p ∷ rest) =
    let later = matching_from r g rest in if refers_to r.meta.namespace g p then p else later

unfoldable pub matching_parent_ref : TcpRoute → Gateway → ParentReference
unfolding matching_from
matching_parent_ref r g = matching_from r g r.parent_refs

unfoldable pub one_match : List Listener → Result Listener
one_match [] = err (other "ParentRef does not select a Gateway listener")
one_match (l ∷ []) = ok l
one_match (_ ∷ _ ∷ _) =
    err (other "ParentRef must select exactly one Gateway listener by sectionName or port")

-- An error's text is that of getEndpointSelector's `apierrors.NewNotFound`, of which the callers
-- read only that it is a not-found error, or the store's.
unfoldable pub get_endpoint_selector : Informers → NamespacedName → Result EndpointSelector
get_endpoint_selector inf key = present (inf.endpoint_selector (namespaced_key key))
  where
    present : Result (Option EndpointSelector) → Result EndpointSelector
    present (err e) = err e
    present (ok none) = err (not_found key.name)
    present (ok (some s)) = ok s

selector_validity : Result (List (String × String) → Bool) → ConditionStatus × String × String
selector_validity (err e) = (condition_false, "Invalid", "Spec.selector is invalid: " <> message e)
selector_validity (ok f) =
    (condition_true, "Accepted", "XEndpointSelector accepted by clusterip-gw-controller.")

module _ (lib : Library) where
  unfoldable pub resolve_gateway_listener : Gateway → ParentReference → Result Listener
  resolve_gateway_listener g p =
      if not validation.valid
      then err (other validation.message)
      else one_match (keep (parent_matches_listener p) validation.listeners)
    where
      validation : Validation
      validation = validate_gateway_listeners lib g

  unfoldable pub evaluate_endpoint_selector : EndpointSelector → ConditionStatus × String × String
  unfolding selector_validity
  evaluate_endpoint_selector s = selector_validity (lib.label_selector_as_selector s.selector)

  -- The three fields of one condition of the evaluation.
  listener_outcome : Gateway → List TcpRoute → Result Listener → ConditionStatus × String × String
  listener_outcome g attached (err e) = (condition_false, "UnsupportedValue", message e)
  listener_outcome g attached (ok l) =
      if count_attached_routes_for_listener g l attached != 1
      then (
        condition_false,
        "UnsupportedValue",
        "Listener " <> quote l.name <> " supports exactly one attached TCPRoute.",
      )
      else (condition_true, "Accepted", "TCPRoute accepted by clusterip-gw-controller.")

  unfoldable pub attachment :
      TcpRoute → ParentReference → Gateway → List TcpRoute → ConditionStatus × String × String
  unfolding listener_outcome
  attachment r p g attached =
      if r.meta.namespace != g.meta.namespace
      then (
        condition_false, "NotAllowedByListeners",
        "Cross-namespace TCPRoute attachment is not supported in this phase.",
      )
      else if length r.parent_refs != 1
      then (condition_false, "UnsupportedValue", "Exactly one parentRef is supported.")
      else listener_outcome g attached (resolve_gateway_listener g p)

  selector_resolution :
      String → String → ConditionStatus × String × String → ConditionStatus × String × String
  selector_resolution namespace name (status, reason, message) =
      if status != condition_true
      then (
        condition_false,
        "BackendNotFound",
        "Backend XEndpointSelector " <> namespace <> "/" <> name <> " is not accepted: " <> reason
            <> ": " <> message,
      )
      else (condition_true, "ResolvedRefs", "Backend references resolved.")

  selector_outcome : String → String → Result EndpointSelector → ConditionStatus × String × String
  unfolding selector_resolution
  selector_outcome namespace name (err (not_found m)) = (
    condition_false,
    "BackendNotFound",
    "Backend XEndpointSelector " <> namespace <> "/" <> name <> " was not found.",
  )
  selector_outcome namespace name (err e) = (condition_false, "BackendNotFound", message e)
  selector_outcome namespace name (ok s) =
      selector_resolution namespace name (evaluate_endpoint_selector s)

  unfoldable pub backend_resolution :
      Informers → TcpRoute → BackendRef → ConditionStatus × String × String
  unfolding selector_outcome
  backend_resolution inf r b =
      if text_of b.group != endpoint_selector_api_group
        || or_default b.kind endpoint_selector_kind != endpoint_selector_kind
      then (
        condition_false, "InvalidKind",
        "Only gateway.networking.x-k8s.io XEndpointSelector backendRefs are supported.",
      )
      else if or_default b.namespace r.meta.namespace != r.meta.namespace
      then (
        condition_false, "RefNotPermitted",
        "Cross-namespace XEndpointSelector backendRefs are not supported in this phase.",
      )
      else if b.port == none
      then (condition_false, "BackendNotFound", "XEndpointSelector backendRefs must set port.")
      else selector_outcome (or_default b.namespace r.meta.namespace) b.name (
          get_endpoint_selector inf
            (record { namespace = or_default b.namespace r.meta.namespace; name = b.name }))

  unfoldable pub rule_resolution :
      Informers → TcpRoute → List BackendRef → ConditionStatus × String × String
  rule_resolution inf r (b ∷ []) = backend_resolution inf r b
  rule_resolution inf r _ =
      (condition_false, "UnsupportedValue", "Exactly one backendRef is supported.")

  unfoldable pub resolution :
      Informers → TcpRoute → List RouteRule → ConditionStatus × String × String
  resolution inf r (rule ∷ []) = rule_resolution inf r rule.backend_refs
  resolution inf r _ =
      (condition_false, "UnsupportedValue", "Exactly one TCPRoute rule is supported.")

  both : ConditionStatus × String × String → ConditionStatus × String × String → RouteEvaluation
  both (status, reason, message) (status', reason', message') = record {
    accepted_status = status;
    accepted_reason = reason;
    accepted_message = message;
    resolved_status = status';
    resolved_reason = reason';
    resolved_message = message';
  }

  -- A class that another controller owns, or that is missing.
  unfoldable pub is_foreign : Option GatewayClass → Bool
  is_foreign none = true
  is_foreign (some c) = c.controller_name != controller_name

  unfoldable pub evaluate_route :
      Informers
      → TcpRoute
      → ParentReference
      → Gateway
      → Option GatewayClass
      → List TcpRoute
      → RouteEvaluation
  unfolding both
  evaluate_route inf r p g c attached =
      if is_foreign c
      then both
          (
            condition_false,
            "Pending",
            "GatewayClass " <> quote gateway_class_name <> " is not accepted by this controller.",
          )
          (condition_true, "ResolvedRefs", "Backend references resolved.")
      else both (attachment r p g attached) (resolution inf r r.rules)

  -- `err != nil && !IsNotFound(err)` fails; a class that is not found is nil.
  abbrev pub found_or_none {ℓ} : {A : Type ℓ} → Result A → Result (Option A)
  found_or_none (ok a) = ok (some a)
  found_or_none (err (not_found m)) = ok none
  found_or_none (err e) = err e
