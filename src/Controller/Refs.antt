-- ===== src/Controller/Refs.antt =====
-- internal/controller/indexers.go: keys, references, and the index functions of the informers.
pub mod Keys
use clusterip_gw.Base.{
  String, Bool, true, false, not, Option, none, some, List, [], ◌∷◌, ◌++◌, ◌==◌, ◌!=◌, ◌&&◌, ◌||◌,
  string_eq, if◌then◌else◌, contains, Error, other, Result, ok, err, ◌<>◌, quote,
}
use clusterip_gw.Kube.{
  NamespacedName, ObjectMeta, label, Gateway, TcpRoute, ParentReference, BackendRef, RouteRule,
  IpAddress, IpParentReference, EndpointSlice,
}
use clusterip_gw.Meta.{
  label_managed_by, managed_by_value, endpoint_selector_name_label_key,
  endpoint_selector_namespace_label_key,
}
use clusterip_gw.Controller.{
  gateway_api_group, endpoint_selector_api_group, endpoint_selector_kind, managed_by_label_key,
  managed_by_label_value, Informers,
}

abbrev pub namespaced_key : NamespacedName → String
namespaced_key k = k.namespace <> "/" <> k.name

-- `strings.Split(s, "/")`; `part` collects the text since the last separator.
unfoldable pub split_onto : String → String → List String
split_onto part String.[] = part ∷ []
split_onto part (String.◌∷◌ c s) =
    let next = split_onto "" s in
    let same = split_onto (part <> String.◌∷◌ c String.[]) s in
    if String.◌∷◌ c String.[] == "/" then part ∷ next else same

two_parts : String → List String → Result NamespacedName
two_parts key (namespace ∷ name ∷ []) =
    if namespace == "" || name == ""
    then err (other ("invalid namespaced key " <> quote key))
    else ok (record { namespace = namespace; name = name })
two_parts key _ = err (other ("invalid namespaced key " <> quote key))

unfoldable pub split_namespaced_key : String → Result NamespacedName
unfolding two_parts
split_namespaced_key key = two_parts key (split_onto "" key)

-- A pointer to a string that is set to a non-empty one, or else the default.
abbrev pub or_default : Option String → String → String
or_default none d = d
or_default (some s) d = if s != "" then s else d

unfoldable pub is_gateway_parent_ref : ParentReference → Bool
is_gateway_parent_ref p =
    or_default p.group gateway_api_group == gateway_api_group
    && or_default p.kind "Gateway" == "Gateway"

-- With no group, or an empty one, the reference is to the core API.
backend_group : Option String → String
backend_group none = ""
backend_group (some s) = s

unfoldable pub is_endpoint_selector_backend_ref : String → BackendRef → Bool
unfolding backend_group
is_endpoint_selector_backend_ref route_namespace b =
    if backend_group b.group == ""
    then false
    else if backend_group b.group != endpoint_selector_api_group
        || or_default b.kind endpoint_selector_kind != endpoint_selector_kind
    then false
    else or_default b.namespace route_namespace != "" && b.name != ""

-- `if _, ok := seen[key]; ok { continue }; keys = append(keys, key)`
unfoldable pub add_key : List String → String → List String
add_key keys key = if contains keys key then keys else keys ++ (key ∷ [])

unfoldable pub parent_keys : String → List String → List ParentReference → List String
parent_keys namespace keys [] = keys
parent_keys namespace keys (p ∷ rest) =
    parent_keys namespace
      (if not (is_gateway_parent_ref p)
        then keys
        else add_key keys (
            namespaced_key
              (record { namespace = or_default p.namespace namespace; name = p.name })))
      rest

unfoldable pub route_gateway_parent_keys : TcpRoute → List String
route_gateway_parent_keys r = parent_keys r.meta.namespace [] r.parent_refs

unfoldable pub backend_keys : String → List String → List BackendRef → List String
backend_keys namespace keys [] = keys
backend_keys namespace keys (b ∷ rest) =
    backend_keys namespace
      (if not (is_endpoint_selector_backend_ref namespace b)
        then keys
        else add_key keys (
            namespaced_key
              (record { namespace = or_default b.namespace namespace; name = b.name })))
      rest

unfoldable pub rule_keys : String → List String → List RouteRule → List String
rule_keys namespace keys [] = keys
rule_keys namespace keys (r ∷ rest) =
    rule_keys namespace (backend_keys namespace keys r.backend_refs) rest

unfoldable pub route_backend_endpoint_selector_keys : TcpRoute → List String
route_backend_endpoint_selector_keys r = rule_keys r.meta.namespace [] r.rules

unfoldable pub endpoint_selector_key_for_endpoint_slice : EndpointSlice → String
endpoint_selector_key_for_endpoint_slice s =
    let name = label s.meta.labels endpoint_selector_name_label_key in
    let labelled = label s.meta.labels endpoint_selector_namespace_label_key in
    let namespace = if labelled == "" then s.meta.namespace else labelled in
    if label s.meta.labels label_managed_by != managed_by_value
    then ""
    else if name == ""
    then ""
    else if namespace == ""
    then ""
    else namespaced_key (record { namespace = namespace; name = name })

gateway_parent_key : Option IpParentReference → String
gateway_parent_key none = ""
gateway_parent_key (some p) =
    if p.group != gateway_api_group || p.resource != "gateways" || p.namespace == "" || p.name == ""
    then ""
    else namespaced_key (record { namespace = p.namespace; name = p.name })

unfoldable pub gateway_key_for_ip_address : IpAddress → String
unfolding gateway_parent_key
gateway_key_for_ip_address ip =
    if label ip.meta.labels managed_by_label_key != managed_by_label_value
    then ""
    else gateway_parent_key ip.parent_ref

-- The keys under which the informers' indexes hold an object.
abbrev key_list : String → List String
key_list key = if key != "" then key ∷ [] else []

unfoldable pub index_gateway_by_class : Gateway → List String
index_gateway_by_class g = g.gateway_class_name ∷ []

unfoldable pub index_route_by_gateway : TcpRoute → List String
index_route_by_gateway r = route_gateway_parent_keys r

unfoldable pub index_route_by_backend_endpoint_selector : TcpRoute → List String
index_route_by_backend_endpoint_selector r = route_backend_endpoint_selector_keys r

unfoldable pub index_endpoint_slice_by_endpoint_selector : EndpointSlice → List String
index_endpoint_slice_by_endpoint_selector s = key_list (endpoint_selector_key_for_endpoint_slice s)

unfoldable pub index_ip_address_by_gateway : IpAddress → List String
index_ip_address_by_gateway ip = key_list (gateway_key_for_ip_address ip)
