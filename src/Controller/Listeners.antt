-- ===== src/Controller/Listeners.antt =====
-- The listeners of a gateway, in internal/controller/gateway_reconcile.go: validation and statuses.
-- The constants of the Gateway API stand as their texts.
pub mod Valid
pub mod Statuses
use clusterip_gw.Base.{
  ℕ, ℤ, pos, String, Bool, true, false, not, Option, none, some, List, [], ◌∷◌, ◌++◌, ◌==◌, ◌!=◌,
  nat_eq, string_eq, int_eq, option_eq, if◌then◌else◌, ltb, length, count_if, ◌<>◌, quote, decimal,
  decimal_int, map,
}
use clusterip_gw.Kube.{
  ConditionStatus, condition_true, condition_false, condition_status_eq, Condition, LabelSelector,
  RouteGroupKind, RouteNamespaces, AllowedRoutes, Listener, ListenerStatus, Gateway,
}
use clusterip_gw.Meta.{max_supported_gateway_listeners}
use clusterip_gw.Controller.{gateway_api_group, Library}
use clusterip_gw.Controller.Status.{merge_conditions, condition}

-- gatewayListenersValidation of reconcile_types.go
pub record Validation : Type 0 where
  pub valid : Bool
  pub message : String
  pub listeners : List Listener
  pub statuses : List ListenerStatus

namespaces_supported : Option RouteNamespaces → Bool
namespaces_supported none = true
namespaces_supported (some n) = supported n.selector n.from
  where
    supported : Option LabelSelector → Option String → Bool
    supported (some s) from = false
    supported none none = true
    supported none (some from) = from == "Same"

unfoldable pub allowed_routes_supported : Option AllowedRoutes → Bool
unfolding namespaces_supported
allowed_routes_supported none = true
allowed_routes_supported (some a) =
    if length a.kinds != 0 then false else namespaces_supported a.namespaces

abbrev pub too_many_message : String
too_many_message =
    "At most " <> decimal max_supported_gateway_listeners <> " listeners are supported."

abbrev pub too_many : List Listener → Bool
too_many listeners = ltb max_supported_gateway_listeners (length listeners)

-- The `switch` over one listener among all: the reason and the message of the first case that
-- applies. No message is empty, so that `none` stands for the source's test `message != ""`.
unfoldable pub listener_problem : List Listener → Listener → Option (String × String)
listener_problem all l =
    if too_many all
    then some ("UnsupportedValue", too_many_message)
    else if l.name == ""
    then some ("UnsupportedValue", "Listener name must not be empty.")
    else if l.port == pos 0
    then some ("UnsupportedValue", "Listener port must be non-zero.")
    else if l.protocol != "TCP"
    then some ("UnsupportedProtocol", "Only TCP listeners are supported.")
    else if not (allowed_routes_supported l.allowed_routes)
    then some ("UnsupportedValue", "listener.allowedRoutes is not supported in this phase.")
    else if ltb 1 (count_if (λ k. k.name == l.name) all)
    then some ("UnsupportedValue", "Listener name " <> quote l.name <> " must be unique.")
    else if ltb 1 (count_if (λ k. k.port == l.port) all)
    then some ("UnsupportedValue", "Listener port " <> decimal_int l.port <> " must be unique.")
    else none

module _ (lib : Library) where
  unfoldable pub listener_status_for_outcome :
      Listener
      → ℤ
      → ConditionStatus
      → String
      → String
      → ConditionStatus
      → String
      → String
      → ConditionStatus
      → String
      → String
      → ℕ
      → ListenerStatus
  listener_status_for_outcome l attached_routes accepted_status accepted_reason accepted_message
        resolved_status resolved_reason resolved_message programmed_status programmed_reason
        programmed_message generation =
      record {
        name = l.name;
        supported_kinds = record { group = some gateway_api_group; kind = "TCPRoute" } ∷ [];
        attached_routes = attached_routes;
        conditions = merge_conditions lib [] (
            condition lib "Accepted" accepted_status accepted_reason accepted_message generation
            ∷ condition lib "ResolvedRefs" resolved_status resolved_reason resolved_message
                generation
            ∷ condition lib "Programmed" programmed_status programmed_reason programmed_message
                generation
            ∷ []);
      }

  -- The outcome of a listener that is turned down with one message in all three conditions.
  unfoldable pub rejected_status : Listener → ℤ → String → String → ℕ → ListenerStatus
  rejected_status l attached_routes accepted_reason message generation =
      listener_status_for_outcome l attached_routes condition_false accepted_reason message
        condition_false "UnsupportedValue" message condition_false "Invalid" message generation

  -- The outcome of a listener that is accepted and waits for its address.
  unfoldable pub accepted_status : Listener → ℤ → ℕ → ListenerStatus
  accepted_status l attached_routes generation =
      listener_status_for_outcome l attached_routes condition_true "Accepted"
        "Listener accepted for TCPRoute attachment." condition_true "ResolvedRefs"
        "Listener references resolved." condition_false "Pending" "Waiting for VIP allocation."
        generation

  -- The first message decides the result's.
  reject : Validation → String → ListenerStatus → Validation
  reject v message status = record v {
    valid = false;
    message = if v.valid then message else v.message;
    statuses = v.statuses ++ (status ∷ []);
  }

  unfoldable pub judge : Option (String × String) → ℕ → Validation → Listener → Validation
  unfolding reject
  judge none generation v l = record v {
    listeners = v.listeners ++ (l ∷ []);
    statuses = v.statuses ++ (accepted_status l (pos 0) generation ∷ []);
  }
  judge (some (reason, message)) generation v l =
      reject v message (rejected_status l (pos 0) reason message generation)

  unfoldable pub validate_from : List Listener → ℕ → Validation → List Listener → Validation
  validate_from all generation v [] = v
  validate_from all generation v (l ∷ rest) =
      validate_from all generation (judge (listener_problem all l) generation v l) rest

  -- The gateway is never nil: both callers hold one.
  unfoldable pub validate_gateway_listeners : Gateway → Validation
  validate_gateway_listeners g =
      if length g.listeners == 0
      then record {
        valid = false;
        message = "At least one listener is required.";
        listeners = [];
        statuses = [];
      }
      else validate_from g.listeners g.meta.generation
          (record {
            valid = not (too_many g.listeners);
            message = if too_many g.listeners then too_many_message else "Listeners accepted.";
            listeners = [];
            statuses = [];
          })
          g.listeners

  unfoldable pub listener_statuses_for_gateway_message :
      List Listener → String → ℕ → List ListenerStatus
  listener_statuses_for_gateway_message listeners message generation =
      map (λ l. rejected_status l (pos 0) "UnsupportedValue" message generation) listeners

  abbrev is_accepted : Option Condition → Bool
  is_accepted none = false
  is_accepted (some c) = c.status == condition_true

  unfoldable pub set_listener_programmed_condition :
      List ListenerStatus → ConditionStatus → String → String → ℕ → List ListenerStatus
  set_listener_programmed_condition [] status reason message generation = []
  set_listener_programmed_condition (s ∷ rest) status reason message generation =
      (if is_accepted (lib.find_status_condition s.conditions "Accepted")
        then record s {
          conditions =
              merge_conditions lib s.conditions
                (condition lib "Programmed" status reason message generation ∷ []);
        }
        else s)
      ∷ set_listener_programmed_condition rest status reason message generation
