-- ===== src/Kube.antt =====
-- The Kubernetes and Gateway API objects that the program reads and writes: a record for each
-- struct of k8s.io/api, sigs.k8s.io/gateway-api and apis/v1alpha1/endpointselector_types.go, with the
-- fields that the program uses. A pointer is an `Option`, a map a list of pairs.
pub mod Objects
use clusterip_gw.Base.{
  ℕ, ℤ, String, Bool, Option, List, [], ◌∷◌, ◌==◌, string_eq, Eq, if◌then◌else◌,
}

pub record NamespacedName : Type 0 where
  pub namespace : String
  pub name : String

-- A lookup in a map of labels gives "" for a missing key.
unfoldable pub label : List (String × String) → String → String
label [] k = ""
label ((j, v) ∷ rest) k = if j == k then v else label rest k

pub record OwnerReference : Type 0 where
  pub api_version : String
  pub kind : String
  pub name : String
  pub uid : String

-- `deleting`: the deletion timestamp is set.
pub record ObjectMeta : Type 0 where
  pub namespace : String
  pub name : String
  pub uid : String
  pub generation : ℕ
  pub deleting : Bool
  pub labels : List (String × String)
  pub finalizers : List String
  pub owner_references : List OwnerReference

abbrev pub key_of : ObjectMeta → NamespacedName
key_of m = record { namespace = m.namespace; name = m.name }

pub data ConditionStatus : Type 0 where
  condition_true condition_false condition_unknown : ConditionStatus

pub ConditionStatus-discrete : Discrete ConditionStatus
ConditionStatus-discrete = hlevel

instance unfoldable pub condition_status_eq : Eq ConditionStatus
unfolding ConditionStatus-discrete
condition_status_eq = record { dec = ConditionStatus-discrete }

pub record Condition : Type 0 where
  pub type : String
  pub status : ConditionStatus
  pub reason : String
  pub message : String
  pub observed_generation : ℕ
  pub last_transition_time : ℕ

pub record LabelSelectorRequirement : Type 0 where
  pub key : String
  pub operator : String
  pub values : List String

pub record LabelSelector : Type 0 where
  pub match_labels : List (String × String)
  pub match_expressions : List LabelSelectorRequirement

pub record GatewayClass : Type 0 where
  pub meta : ObjectMeta
  pub controller_name : String
  pub conditions : List Condition

pub record RouteGroupKind : Type 0 where
  pub group : Option String
  pub kind : String

pub record RouteNamespaces : Type 0 where
  pub from : Option String
  pub selector : Option LabelSelector

pub record AllowedRoutes : Type 0 where
  pub kinds : List RouteGroupKind
  pub namespaces : Option RouteNamespaces

pub record Listener : Type 0 where
  pub name : String
  pub port : ℤ
  pub protocol : String
  pub allowed_routes : Option AllowedRoutes

pub record ListenerStatus : Type 0 where
  pub name : String
  pub supported_kinds : List RouteGroupKind
  pub attached_routes : ℤ
  pub conditions : List Condition

pub record GatewayAddress : Type 0 where
  pub type : Option String
  pub value : String

pub record GatewayStatus : Type 0 where
  pub addresses : List GatewayAddress
  pub conditions : List Condition
  pub listeners : List ListenerStatus

-- `spec_addresses` is `spec.addresses`.
pub record Gateway : Type 0 where
  pub meta : ObjectMeta
  pub gateway_class_name : String
  pub listeners : List Listener
  pub spec_addresses : List GatewayAddress
  pub status : GatewayStatus

pub record ParentReference : Type 0 where
  pub group : Option String
  pub kind : Option String
  pub namespace : Option String
  pub name : String
  pub section_name : Option String
  pub port : Option ℤ

pub record BackendRef : Type 0 where
  pub group : Option String
  pub kind : Option String
  pub namespace : Option String
  pub name : String
  pub port : Option ℤ

pub record RouteRule : Type 0 where
  pub backend_refs : List BackendRef

pub record RouteParentStatus : Type 0 where
  pub parent_ref : ParentReference
  pub controller_name : String
  pub conditions : List Condition

pub record TcpRoute : Type 0 where
  pub meta : ObjectMeta
  pub parent_refs : List ParentReference
  pub rules : List RouteRule
  pub parents : List RouteParentStatus

pub record IpParentReference : Type 0 where
  pub group : String
  pub resource : String
  pub namespace : String
  pub name : String

pub record IpAddress : Type 0 where
  pub meta : ObjectMeta
  pub parent_ref : Option IpParentReference

pub record ServiceCidr : Type 0 where
  pub meta : ObjectMeta
  pub cidrs : List String
  pub conditions : List Condition

pub record EndpointPort : Type 0 where
  pub protocol : Option String
  pub port : Option ℤ

pub record ObjectReference : Type 0 where
  pub api_version : String
  pub kind : String
  pub namespace : String
  pub name : String
  pub uid : String

-- `ready` is `conditions.ready`.
pub record SliceEndpoint : Type 0 where
  pub addresses : List String
  pub ready : Option Bool
  pub target_ref : Option ObjectReference
  pub node_name : Option String

pub record EndpointSlice : Type 0 where
  pub meta : ObjectMeta
  pub address_type : String
  pub ports : List EndpointPort
  pub endpoints : List SliceEndpoint

pub record PodCondition : Type 0 where
  pub type : String
  pub status : ConditionStatus

pub record Pod : Type 0 where
  pub meta : ObjectMeta
  pub pod_ip : String
  pub node_name : String
  pub conditions : List PodCondition

-- apis/v1alpha1/endpointselector_types.go
pub record EndpointSelector : Type 0 where
  pub meta : ObjectMeta
  pub selector : LabelSelector
  pub conditions : List Condition
