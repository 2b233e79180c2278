-- ===== src/Agent/Endpoints.antt =====
-- internal/agent/state: endpoint.go and endpointslicetracker.go.
use clusterip_gw.Base.{
  ℤ, String, Bool, true, false, not, Option, none, some, List, [], ◌∷◌, ◌++◌, map, ◌==◌, ◌!=◌,
  string_eq, if◌then◌else◌, lookup, put, remove, sort_by, str_lt, ◌<>◌, decimal_int,
}
use clusterip_gw.Kube.{NamespacedName, label, key_of, EndpointSlice, EndpointPort, SliceEndpoint}
use clusterip_gw.Net.{Ipv4, addr_string}
use clusterip_gw.Meta.{
  label_managed_by, managed_by_value, gateway_name_label_key, gateway_namespace_label_key,
  gateway_listener_label_key,
}
use clusterip_gw.Agent.Frontends.{FrontendKey, name_eq, key_eq}

pub record Endpoint : Type 0 where
  pub ip : String
  pub port : ℤ

-- Endpoint.String: `net.JoinHostPort`, of an address without a colon.
unfoldable pub endpoint_string : Endpoint → String
endpoint_string e = e.ip <> ":" <> decimal_int e.port

abbrev pub EndpointsMap : Type 0
EndpointsMap = List (FrontendKey × List Endpoint)

-- EndpointsChangeTracker; its field is called `slices` there.
pub record EndpointsTracker : Type 0 where
  pub endpoint_slices : List (NamespacedName × EndpointSlice)

unfoldable pub new_endpoints_tracker : EndpointsTracker
new_endpoints_tracker = record { endpoint_slices = [] }

-- EndpointsChangeTracker.Update
unfoldable pub update : EndpointsTracker → Option EndpointSlice → Bool → EndpointsTracker × Bool
update t none removed = (t, false)
update t (some s) removed = (
  record {
    endpoint_slices =
        if removed
        then remove t.endpoint_slices (key_of s.meta)
        else put t.endpoint_slices (key_of s.meta) s;
  },
  true,
)

unfoldable pub frontend_key_for_endpoint_slice : EndpointSlice → Option FrontendKey
frontend_key_for_endpoint_slice s =
    let name = label s.meta.labels gateway_name_label_key in
    let labelled = label s.meta.labels gateway_namespace_label_key in
    let namespace = if labelled == "" then s.meta.namespace else labelled in
    if label s.meta.labels label_managed_by != managed_by_value
    then none
    else if name == ""
    then none
    else if namespace == ""
    then none
    else some (record {
      gateway = record { namespace = namespace; name = name };
      listener = label s.meta.labels gateway_listener_label_key;
    })

-- Tests of pointers that may be nil.
unfoldable pub is_ready : Option Bool → Bool
is_ready none = true
is_ready (some ready) = ready

unfoldable pub is_tcp : Option String → Bool
is_tcp none = true
is_tcp (some protocol) = protocol == "TCP"

-- `out[key] = append(out[key], ...)`
appended : EndpointsMap → FrontendKey → List Endpoint → EndpointsMap
appended out key new = put out key (old (lookup out key) ++ new)
  where
    old : Option (List Endpoint) → List Endpoint
    old none = []
    old (some es) = es

module _ (parse_ipv4 : String → Option Ipv4) where
  unfoldable pub endpoint_at : ℤ → Option Ipv4 → List Endpoint
  endpoint_at port none = []
  endpoint_at port (some ip) = record { ip = addr_string ip; port = port } ∷ []

  unfoldable pub address_endpoints : ℤ → List String → List Endpoint
  unfolding endpoint_at
  address_endpoints port [] = []
  address_endpoints port (a ∷ rest) = endpoint_at port (parse_ipv4 a) ++ address_endpoints port rest

  unfoldable pub ready_endpoints : ℤ → List SliceEndpoint → List Endpoint
  ready_endpoints port [] = []
  ready_endpoints port (e ∷ rest) =
      let later = ready_endpoints port rest in
      if not (is_ready e.ready) then later else address_endpoints port e.addresses ++ later

  unfoldable pub port_endpoints : List SliceEndpoint → Option ℤ → Option String → List Endpoint
  port_endpoints es none protocol = []
  port_endpoints es (some port) protocol =
      if not (is_tcp protocol) then [] else ready_endpoints port es

  -- The endpoints that a slice adds, port by port.
  unfoldable pub slice_endpoints : List EndpointPort → List SliceEndpoint → List Endpoint
  unfolding port_endpoints
  slice_endpoints [] es = []
  slice_endpoints (p ∷ rest) es = port_endpoints es p.port p.protocol ++ slice_endpoints rest es

  add_slice : EndpointsMap → Option FrontendKey → EndpointSlice → EndpointsMap
  unfolding appended
  add_slice out none s = out
  add_slice out (some key) s =
      if s.address_type != "IPv4"
      then out
      else add_endpoints out key (slice_endpoints s.ports s.endpoints)
    where
      -- A key is entered by its first endpoint.
      add_endpoints : EndpointsMap → FrontendKey → List Endpoint → EndpointsMap
      add_endpoints out key [] = out
      add_endpoints out key (e ∷ es) = appended out key (e ∷ es)

  unfoldable pub collect : EndpointsMap → List (NamespacedName × EndpointSlice) → EndpointsMap
  unfolding add_slice
  collect out [] = out
  collect out ((name, s) ∷ rest) =
      collect (add_slice out (frontend_key_for_endpoint_slice s) s) rest

  abbrev pub by_endpoint_string : Endpoint → Endpoint → Bool
  by_endpoint_string a b = str_lt (endpoint_string a) (endpoint_string b)

  -- EndpointsChangeTracker.Snapshot
  unfoldable pub snapshot : EndpointsTracker → EndpointsMap
  snapshot t =
      map (λ (key, es). (key, sort_by by_endpoint_string es)) (collect [] t.endpoint_slices)
