-- ===== src/Tests/Network.antt =====
-- Addresses, keys and references.
use clusterip_gw.Base.{
  ◌+◌, String, false, none, some, [], ◌∷◌, ◌≡◌, refl, if◌then◌else◌, ltb, ok, any, contains, ◌==◌,
  ◌&&◌, string_eq, arith,
}
use clusterip_gw.Kube.{NamespacedName, ObjectMeta, ParentReference, TcpRoute}
use clusterip_gw.Net.{Ipv4, IsIpv4, ipv4, invalid, value, of_value, Prefix, masked, size}
use clusterip_gw.Controller.Addresses.{next_addr, last_addr}
use clusterip_gw.Controller.Addresses.Order.{next_addr_lem, last_addr_lem}
use clusterip_gw.Controller.Refs.{
  namespaced_key, split_namespaced_key, route_gateway_parent_keys, is_gateway_parent_ref,
}
use clusterip_gw.Controller.Refs.Keys.{
  HasNoRepeats, parent_key, split_namespaced_key-namespaced_key, route_gateway_parent_keys_lem,
}

abbrev full_byte : Ipv4
full_byte = record { b0 = 10; b1 = 96; b2 = 0; b3 = 255 }

next_addr_lem_example : next_addr (ipv4 full_byte) ≡ (
    if ltb (value full_byte + 1) 4294967296 then ipv4 (of_value (value full_byte + 1)) else invalid)
next_addr_lem_example =
    next_addr_lem full_byte (record {
      byte0 = omega arith;
      byte1 = omega arith;
      byte2 = omega arith;
      byte3 = omega arith;
    })

abbrev pub range : Prefix
range = record { addr = record { b0 = 10; b1 = 96; b2 = 0; b3 = 9 }; bits = 29 }

pub range-IsIpv4 : IsIpv4 range.addr
range-IsIpv4 = record {
  byte0 = omega arith;
  byte1 = omega arith;
  byte2 = omega arith;
  byte3 = omega arith;
}

last_addr_lem_example :
    IsIpv4 (last_addr range)
    × (value (last_addr range) + 1 ≡ value (masked range).addr + size range)
last_addr_lem_example = last_addr_lem range range-IsIpv4 (omega arith)

abbrev demo_name : NamespacedName
demo_name = record { namespace = "default"; name = "demo" }

split_namespaced_key-namespaced_key_example :
    split_namespaced_key (namespaced_key demo_name) ≡ ok demo_name
unfolding string_eq
split_namespaced_key-namespaced_key_example =
    split_namespaced_key-namespaced_key demo_name (λ e. cc) (λ e. cc)
      (refl, (refl, (refl, (refl, (refl, (refl, (refl, tt))))))) (refl, (refl, (refl, (refl, tt))))

abbrev pub demo_meta : ObjectMeta
demo_meta = record {
  namespace = "default";
  name = "demo";
  uid = "u";
  generation = 3;
  deleting = false;
  labels = [];
  finalizers = [];
  owner_references = [];
}

abbrev pub parent : ParentReference
parent = record {
  group = none;
  kind = some "Gateway";
  namespace = none;
  name = "demo";
  section_name = some "tcp";
  port = none;
}

-- Two references to one gateway, and one to a service.
abbrev pub route : TcpRoute
route = record {
  meta = demo_meta;
  parent_refs =
      parent ∷ record parent { kind = some "Service" } ∷ record parent { section_name = none } ∷ [];
  rules = [];
  parents = [];
}

route_gateway_parent_keys_lem_example :
    HasNoRepeats (route_gateway_parent_keys route)
    × ((k : String)
        → contains (route_gateway_parent_keys route) k
          ≡ any (λ p. is_gateway_parent_ref p && k == parent_key "default" p) route.parent_refs)
route_gateway_parent_keys_lem_example = route_gateway_parent_keys_lem route
