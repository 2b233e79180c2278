-- ===== src/Controller/Slices.antt =====
-- internal/controller/endpointselector_reconcile.go: the endpoints of a selector's pods, the slices
-- that carry them, and the reconciliation of a selector. `parse_ipv4` is `net.ParseIP` followed by
-- `To4`, and `digest` the hexadecimal text of the first four bytes of `sha1.Sum`.
pub mod Names
pub mod Endpoints
pub mod Reconcile
pub mod Stored
pub mod Updating
pub mod Synced
pub mod Desired
pub mod Served
use clusterip_gw.Base.{
  take, text_length, ℕ, ℤ, ◌-◌, zero, suc, ◌+◌, String, Bool, true, false, not, Option, none, some,
  List, [], ◌∷◌, ◌++◌, ◌==◌, ◌!=◌, ◌&&◌, ◌||◌, string_eq, if◌then◌else◌, head?, length, leb, lookup,
  put, remove, sort_by, str_lt, ◌<>◌, M, lift, return, ◌>>=◌, ◌>>◌, Result, ok, err, not_found,
  ignore_not_found, is_not_found, Error,
}
use clusterip_gw.Kube.{
  ConditionStatus, condition_true, condition_false, condition_unknown, condition_status_eq,
  NamespacedName, ObjectMeta, key_of, OwnerReference, Gateway, EndpointPort, ObjectReference,
  SliceEndpoint, EndpointSlice, PodCondition, Pod, EndpointSelector,
}
use clusterip_gw.Meta.{
  label_managed_by, managed_by_value, gateway_namespace_label_key, gateway_name_label_key,
  gateway_listener_label_key, endpoint_selector_namespace_label_key,
  endpoint_selector_name_label_key,
}
use clusterip_gw.Net.{Ipv4}
use clusterip_gw.Controller.{Library, Client, Informers}
use clusterip_gw.Controller.Refs.{namespaced_key, split_namespaced_key}
use clusterip_gw.Controller.Status.{merge_conditions, condition, conditions_equal}
use clusterip_gw.Controller.Routes.{get_endpoint_selector, evaluate_endpoint_selector}
use clusterip_gw.Controller.Bindings.{Binding, list_referenced_gateway_bindings}

-- By the first condition of the type `Ready`.
unfoldable pub pod_ready : List PodCondition → Bool
pod_ready [] = false
pod_ready (c ∷ rest) =
    let later = pod_ready rest in if c.type == "Ready" then c.status == condition_true else later

unfoldable pub is_ipv4_string : Option Ipv4 → Bool
is_ipv4_string none = false
is_ipv4_string (some ip) = true

pod_node : String → Option String
pod_node name = if name != "" then some name else none

unfoldable pub pod_endpoint : Pod → SliceEndpoint
unfolding pod_node
pod_endpoint p = record {
  addresses = p.pod_ip ∷ [];
  ready = some true;
  target_ref = some (record {
    api_version = "v1";
    kind = "Pod";
    namespace = p.meta.namespace;
    name = p.meta.name;
    uid = p.meta.uid;
  });
  node_name = pod_node p.node_name;
}

-- The first address, and the name of the target.
address_of : SliceEndpoint → String
address_of e = first (head? e.addresses)
  where
    first : Option String → String
    first none = ""
    first (some a) = a

both_targets : Option ObjectReference → Option ObjectReference → Option (String × String)
both_targets (some a) (some b) = some (a.name, b.name)
both_targets _ _ = none

by_names : Option (String × String) → String → String → Bool
by_names none a b = str_lt a b
by_names (some (m, n)) a b = if a == b then str_lt m n else str_lt a b

-- Every endpoint of the list has an address.
unfoldable pub by_address : SliceEndpoint → SliceEndpoint → Bool
unfolding address_of both_targets by_names
by_address a b = by_names (both_targets a.target_ref b.target_ref) (address_of a) (address_of b)

unfoldable pub joined_name : String → String → String
joined_name gateway_name listener_name =
    if listener_name != "" then gateway_name <> "-" <> listener_name else gateway_name

module _ (digest : String → String) where
  shortened : String → String
  shortened name =
      if leb (text_length name) 63
      then name
      else take name (63 - text_length ("-" <> digest name)) <> "-" <> digest name

  unfoldable pub endpoint_slice_name : String → String → String
  unfolding shortened
  endpoint_slice_name gateway_name listener_name =
      shortened (joined_name gateway_name listener_name)

  -- The owner is the gateway, by `metav1.NewControllerRef`.
  unfoldable pub desired_endpoint_slice :
      EndpointSelector → Binding → List SliceEndpoint → EndpointSlice
  desired_endpoint_slice s b endpoints = record {
    meta = record {
      namespace = b.gateway.meta.namespace;
      name = endpoint_slice_name b.gateway.meta.name b.listener_name;
      uid = "";
      generation = 0;
      deleting = false;
      labels =
          (label_managed_by, managed_by_value)
          ∷ (endpoint_selector_namespace_label_key, s.meta.namespace)
          ∷ (endpoint_selector_name_label_key, s.meta.name)
          ∷ (gateway_namespace_label_key, b.gateway.meta.namespace)
          ∷ (gateway_name_label_key, b.gateway.meta.name)
          ∷ (gateway_listener_label_key, b.listener_name)
          ∷ [];
      finalizers = [];
      owner_references =
          record {
            api_version = "gateway.networking.k8s.io/v1";
            kind = "Gateway";
            name = b.gateway.meta.name;
            uid = b.gateway.meta.uid;
          }
          ∷ [];
    };
    address_type = "IPv4";
    ports = record { protocol = some "TCP"; port = some b.backend_port } ∷ [];
    endpoints = endpoints;
  }

  -- `desired[slice.Name] = slice`
  unfoldable pub desired_slices :
      EndpointSelector
      → List SliceEndpoint
      → List (String × EndpointSlice)
      → List Binding
      → List (String × EndpointSlice)
  desired_slices s endpoints out [] = out
  desired_slices s endpoints out (b ∷ rest) =
      desired_slices s endpoints
        (put out (desired_endpoint_slice s b endpoints).meta.name
          (desired_endpoint_slice s b endpoints))
        rest

module _ (parse_ipv4 : String → Option Ipv4) where
  unfoldable pub endpoint_for_pod : Pod → Option SliceEndpoint
  endpoint_for_pod p =
      if p.meta.namespace == "" || p.meta.name == "" || p.meta.deleting
      then none
      else if not (pod_ready p.conditions) || not (is_ipv4_string (parse_ipv4 p.pod_ip))
      then none
      else some (pod_endpoint p)

  with_endpoint : Option SliceEndpoint → List SliceEndpoint → List SliceEndpoint
  with_endpoint none rest = rest
  with_endpoint (some e) rest = e ∷ rest

  unfoldable pub pod_endpoints : (List (String × String) → Bool) → List Pod → List SliceEndpoint
  unfolding with_endpoint
  pod_endpoints matches [] = []
  pod_endpoints matches (p ∷ rest) =
      let later = pod_endpoints matches rest in
      if not (matches p.meta.labels) then later else with_endpoint (endpoint_for_pod p) later

  sorted_endpoints :
      Result (List (String × String) → Bool) → Result (List Pod) → Result (List SliceEndpoint)
  sorted_endpoints (err e) pods = err e
  sorted_endpoints (ok matches) (err e) = err e
  sorted_endpoints (ok matches) (ok pods) = ok (sort_by by_address (pod_endpoints matches pods))

  unfoldable pub build_endpoint_slice_endpoints :
      Library → Informers → EndpointSelector → Result (List SliceEndpoint)
  unfolding sorted_endpoints
  build_endpoint_slice_endpoints lib inf s =
      sorted_endpoints (lib.label_selector_as_selector s.selector) (inf.pods s.meta.namespace)

-- `apiequality.Semantic.DeepEqual` at the types of endpointSliceEqual.
pub record Semantic : Type 0 where
  pub labels : List (String × String) → List (String × String) → Bool
  pub owner_references : List OwnerReference → List OwnerReference → Bool
  pub ports : List EndpointPort → List EndpointPort → Bool
  pub endpoints : List SliceEndpoint → List SliceEndpoint → Bool

unfoldable pub endpoint_slice_equal : Semantic → EndpointSlice → EndpointSlice → Bool
endpoint_slice_equal same a b =
    same.labels a.meta.labels b.meta.labels
    && same.owner_references a.meta.owner_references b.meta.owner_references
    && a.address_type == b.address_type
    && same.ports a.ports b.ports
    && same.endpoints a.endpoints b.endpoints

-- The existing slice with what the desired one sets.
unfoldable pub refreshed : EndpointSlice → EndpointSlice → EndpointSlice
refreshed existing desired = record existing {
  meta = record existing.meta {
    labels = desired.meta.labels;
    owner_references = desired.meta.owner_references;
  };
  address_type = desired.address_type;
  ports = desired.ports;
  endpoints = desired.endpoints;
}
