-- ===== src/Controller/Status.antt =====
-- internal/controller/status.go: conditions, the comparisons that decide whether a status is
-- written, and the parents of a route's status. updateGatewayStatus is in Controller/Gateways.
pub mod Equality
pub mod Merging
use clusterip_gw.Base.{
  ℕ, String, Bool, true, false, not, Option, none, some, List, [], ◌∷◌, ◌++◌, ◌==◌, ◌!=◌, ◌&&◌,
  ◌||◌, nat_eq, ℤ, string_eq, int_eq, if◌then◌else◌, contains, keep, sort_by, str_lt, ◌<>◌,
  decimal_int,
}
use clusterip_gw.Kube.{
  ConditionStatus, condition_true, condition_false, condition_status_eq, Condition, RouteGroupKind,
  GatewayClass, GatewayAddress, ListenerStatus, Gateway, ParentReference, RouteParentStatus,
  TcpRoute,
}
use clusterip_gw.Controller.{controller_name, Library}

abbrev pub by_type : Condition → Condition → Bool
by_type a b = str_lt a.type b.type

module _ (lib : Library) where
  unfoldable pub set_conditions : List Condition → List Condition → List Condition
  set_conditions out [] = out
  set_conditions out (c ∷ desired) = set_conditions (lib.set_status_condition out c) desired

  unfoldable pub merge_conditions : List Condition → List Condition → List Condition
  merge_conditions existing desired = sort_by by_type (set_conditions existing desired)

  unfoldable pub condition : String → ConditionStatus → String → String → ℕ → Condition
  condition type status reason message generation = record {
    type = type;
    status = status;
    reason = reason;
    message = message;
    observed_generation = generation;
    last_transition_time = lib.now;
  }

unfoldable pub remove_conditions : List Condition → List String → List Condition
remove_conditions existing types = keep (λ c. not (contains types c.type)) existing

unfoldable pub bool_to_condition_status : Bool → ConditionStatus
bool_to_condition_status value = if value then condition_true else condition_false

unfoldable pub condition_reason : Bool → String → String → String
condition_reason holds true_reason false_reason = if holds then true_reason else false_reason

unfoldable pub condition_equal : Condition → Condition → Bool
condition_equal a b =
    a.type == b.type
    && a.status == b.status
    && a.reason == b.reason
    && a.message == b.message
    && a.observed_generation == b.observed_generation

unfoldable pub conditions_equal : List Condition → List Condition → Bool
conditions_equal [] [] = true
conditions_equal (a ∷ as') (b ∷ bs) = condition_equal a b && conditions_equal as' bs
conditions_equal _ _ = false

-- A type that is not set is compared as the empty one.
abbrev pub text_of : Option String → String
text_of none = ""
text_of (some s) = s

unfoldable pub gateway_addresses_equal : List GatewayAddress → List GatewayAddress → Bool
gateway_addresses_equal [] [] = true
gateway_addresses_equal (a ∷ as') (b ∷ bs) =
    a.value == b.value && text_of a.type == text_of b.type && gateway_addresses_equal as' bs
gateway_addresses_equal _ _ = false

-- The groups are not compared.
unfoldable pub kinds_equal : List RouteGroupKind → List RouteGroupKind → Bool
kinds_equal [] [] = true
kinds_equal (a ∷ as') (b ∷ bs) = a.kind == b.kind && kinds_equal as' bs
kinds_equal _ _ = false

unfoldable pub listener_statuses_equal : List ListenerStatus → List ListenerStatus → Bool
listener_statuses_equal [] [] = true
listener_statuses_equal (a ∷ as') (b ∷ bs) =
    a.name == b.name
    && a.attached_routes == b.attached_routes
    && kinds_equal a.supported_kinds b.supported_kinds
    && conditions_equal a.conditions b.conditions
    && listener_statuses_equal as' bs
listener_statuses_equal _ _ = false

unfoldable pub gateway_class_status_equal : GatewayClass → GatewayClass → Bool
gateway_class_status_equal a b = conditions_equal a.conditions b.conditions

unfoldable pub gateway_status_equal : Gateway → Gateway → Bool
gateway_status_equal a b =
    conditions_equal a.status.conditions b.status.conditions
    && gateway_addresses_equal a.status.addresses b.status.addresses
    && listener_statuses_equal a.status.listeners b.status.listeners

port_text : Option ℤ → String
port_text none = ""
port_text (some p) = decimal_int p

unfoldable pub route_parent_sort_key : RouteParentStatus → String
unfolding port_text
route_parent_sort_key p =
    p.controller_name
    <> "/"
    <> text_of r.group
    <> "/"
    <> text_of r.kind
    <> "/"
    <> text_of r.namespace
    <> "/"
    <> r.name
    <> "/"
    <> text_of r.section_name
    <> "/"
    <> port_text r.port
  where
    open p use {parent_ref as r}

abbrev pub by_sort_key : RouteParentStatus → RouteParentStatus → Bool
by_sort_key a b = str_lt (route_parent_sort_key a) (route_parent_sort_key b)

-- The entries of other controllers stay, and this controller's are replaced.
unfoldable pub merge_route_parents :
    List RouteParentStatus → List RouteParentStatus → List RouteParentStatus
merge_route_parents existing desired =
    sort_by by_sort_key (keep (λ p. p.controller_name != controller_name) existing ++ desired)

unfoldable pub route_parents_equal : List RouteParentStatus → List RouteParentStatus → Bool
route_parents_equal [] [] = true
route_parents_equal (a ∷ as') (b ∷ bs) =
    route_parent_sort_key a == route_parent_sort_key b
    && conditions_equal a.conditions b.conditions
    && route_parents_equal as' bs
route_parents_equal _ _ = false

unfoldable pub route_status_equal : TcpRoute → TcpRoute → Bool
route_status_equal a b = route_parents_equal a.parents b.parents
