-- ===== src/Tests/Cluster.antt =====
-- Reconciliations of one gateway against the server in memory.
use clusterip_gw.Base.{
  ◌≤◌, pos, String, true, false, Option, none, some, List, [], ◌∷◌, ◌++◌, ◌≡◌, refl, inl, inr,
  if◌then◌else◌, ok, ◌==◌, string_eq, sort_by, Member, Bool-cases, subst, some-injective, arith,
}
use clusterip_gw.Kube.{
  label, key_of, Gateway, GatewayClass, Listener, TcpRoute, IpAddress, ServiceCidr,
  EndpointSelector, BackendRef,
}
use clusterip_gw.Net.{IsIpv4, masked}
use clusterip_gw.Controller.{controller_name, controller_finalizer, Library, Informers}
use clusterip_gw.Controller.Ipam.{
  delete_ip_addresses, release_gateway_ip_addresses, ParsedPrefix, v4, usable_prefixes,
  list_owned_gateway_ip_addresses, list_ipv4_service_cidrs, list_taken_ips, new_ip_address,
  ensure_gateway_vip,
}
use clusterip_gw.Controller.Ipam.Allocation.{Allocates}
use clusterip_gw.Controller.Ipam.Reservation.{
  new_ip_address-owned, ParsesValid, ensure_gateway_vip-Allocates, Keeps, ensure_gateway_vip-Keeps,
}
use clusterip_gw.Controller.Refs.{namespaced_key, index_ip_address_by_gateway}
use clusterip_gw.Controller.Finalizers.{
  remove_gateway_finalizer, with_finalizers, has_finalizer, cleanup_gateway_resources,
}
use clusterip_gw.Controller.Finalizers.Cleanup.{
  cleanup_gateway_resources-ok, cleanup_gateway_resources-protects,
}
use clusterip_gw.Controller.Gateways.Reconcile.{reconcile_found_gateway}
use clusterip_gw.Controller.Gateways.Reconcile.Deletion.{reconcile_found_gateway-unprotected}
use clusterip_gw.Tests.Memory.{World, matching, memory, memory-Server}
use clusterip_gw.Tests.Network.{demo_meta, range, range-IsIpv4, parent, route}

-- Conditions are set behind the others, which is what a new type of condition gives.
abbrev pub lib : Library
lib = record {
  set_status_condition = λ cs c. cs ++ (c ∷ []);
  find_status_condition = λ cs t. none;
  label_selector_as_selector = λ s. ok (λ labels. true);
  now = 7;
}

abbrev pub listener : Listener
listener = record { name = "tcp"; port = pos 80; protocol = "TCP"; allowed_routes = none }

abbrev pub gateway : Gateway
gateway = record {
  meta = demo_meta;
  gateway_class_name = "clusterip-gw";
  listeners = listener ∷ [];
  spec_addresses = [];
  status = record { addresses = []; conditions = []; listeners = [] };
}

abbrev pub class : GatewayClass
class = record { meta = demo_meta; controller_name = controller_name; conditions = [] }

abbrev reservation : IpAddress
reservation = new_ip_address gateway "10.96.0.9"

abbrev cidr : ServiceCidr
cidr = record { meta = demo_meta; cidrs = "10.96.0.8/29" ∷ []; conditions = [] }

unfoldable pub parse : String → Option ParsedPrefix
parse raw = if raw == "10.96.0.8/29" then some (v4 range) else none

abbrev backend : BackendRef
backend = record {
  group = some "gateway.networking.x-k8s.io";
  kind = none;
  namespace = none;
  name = "pods";
  port = some (pos 8080);
}

abbrev pub tcp_route : TcpRoute
tcp_route = record route {
  parent_refs = parent ∷ [];
  rules = record { backend_refs = backend ∷ [] } ∷ [];
}

abbrev pub selector : EndpointSelector
selector = record {
  meta = record demo_meta { name = "pods" };
  selector = record { match_labels = ("app", "demo") ∷ []; match_expressions = [] };
  conditions = [];
}

-- The informers know the reservations `owned` of the gateway.
abbrev pub informers : List IpAddress → Informers
informers owned = record {
  gateway_class = λ n. ok class;
  gateway = λ ns n. ok gateway;
  route = λ ns n. ok tcp_route;
  endpoint_selector = λ k. ok (some selector);
  pods = λ ns. ok [];
  service_cidrs = ok (cidr ∷ []);
  ip_addresses = ok owned;
  routes_by_gateway = λ k. ok (tcp_route ∷ []);
  routes_by_endpoint_selector = λ k. ok [];
  endpoint_slices_by_endpoint_selector = λ k. ok [];
  ip_addresses_by_gateway = λ k. ok owned;
}

parse-ParsesValid : ParsesValid parse
unfolding parse
parse-ParsesValid raw p h = elim (Bool-cases (raw == "10.96.0.8/29")) [
  | inl e ↦
      let same : some (v4 range) ≡ some (v4 p) =
        subst (λ t. (if t then some (v4 range) else none) ≡ some (v4 p)) e h in
      let here : range ≡ p = cc in
      subst (λ q. IsIpv4 q.addr × (q.bits ≤ 32)) here (range-IsIpv4, omega arith)
  | inr e ↦
      let same : none ≡ some (v4 p) =
        subst (λ t. (if t then some (v4 range) else none) ≡ some (v4 p)) e h in
      cc
]

abbrev world : World
world = record { stored = some gateway; names = "10.96.0.9" ∷ [] }

ensure_gateway_vip-Allocates_example :
    Allocates
      (memory false)
      gateway
      (masked range ∷ [])
      []
      (ensure_gateway_vip (memory false) parse (informers []) gateway world)
unfolding list_owned_gateway_ip_addresses list_ipv4_service_cidrs list_taken_ips parse string_eq
    sort_by usable_prefixes
ensure_gateway_vip-Allocates_example =
    ensure_gateway_vip-Allocates parse parse-ParsesValid (memory false) (informers []) gateway world
      (masked range) [] [] refl refl refl

-- A second reservation of the gateway.
abbrev second : IpAddress
second = new_ip_address gateway "10.96.0.10"

abbrev full : World
full = record world { names = "10.96.0.9" ∷ "10.96.0.10" ∷ [] }

ensure_gateway_vip-Keeps_example :
    Keeps
      (memory false)
      parse
      (reservation ∷ second ∷ [])
      full
      (ensure_gateway_vip (memory false) parse (informers (reservation ∷ second ∷ [])) gateway full)
unfolding list_owned_gateway_ip_addresses string_eq new_ip_address label
ensure_gateway_vip-Keeps_example =
    ensure_gateway_vip-Keeps (memory false) parse (informers (reservation ∷ second ∷ [])) gateway
      full (reservation ∷ second ∷ []) refl (omega arith)

-- The gateway is being deleted, and the server has its finalizer.
abbrev leaving : Gateway
leaving = record gateway {
  meta = record demo_meta { deleting = true; finalizers = controller_finalizer ∷ [] };
}

abbrev leaving_world : World
leaving_world = record { stored = some leaving; names = "10.96.0.9" ∷ [] }

abbrev known : Informers
known = informers (reservation ∷ [])

cleanup_gateway_resources-ok_example :
    ((ip : IpAddress)
      → Member ip (reservation ∷ [])
      → (memory-Server false).reserved
          (cleanup_gateway_resources (memory false) known leaving leaving_world).1
          ip.meta.name
        ≡ false)
    × ((h : Gateway)
        → (memory-Server false).gateway_at
            (cleanup_gateway_resources (memory false) known leaving leaving_world).1
            "default"
            "demo"
          ≡ some h
        → has_finalizer h ≡ false)
unfolding list_owned_gateway_ip_addresses string_eq new_ip_address label cleanup_gateway_resources
    release_gateway_ip_addresses delete_ip_addresses memory remove_gateway_finalizer matching
    has_finalizer with_finalizers
cleanup_gateway_resources-ok_example =
    cleanup_gateway_resources-ok (memory false) (memory-Server false) known leaving leaving_world
      (reservation ∷ []) refl refl

cleanup_gateway_resources-protects_example :
    (memory-Server true).gateway_at
      (cleanup_gateway_resources (memory true) known leaving leaving_world).1
      "default"
      "demo"
    ≡ (memory-Server true).gateway_at leaving_world "default" "demo"
unfolding list_owned_gateway_ip_addresses string_eq new_ip_address label memory-Server
    cleanup_gateway_resources release_gateway_ip_addresses delete_ip_addresses
cleanup_gateway_resources-protects_example =
    cleanup_gateway_resources-protects (memory true) (memory-Server true) known leaving
      leaving_world (reservation ∷ []) refl reservation (inl refl) refl "default" "demo"

abbrev new_world : World
new_world = record { stored = some gateway; names = [] }

reconcile_found_gateway-unprotected_example :
    (memory-Server false).reserved
      (reconcile_found_gateway lib (memory false) parse (informers []) gateway new_world).1
      "10.96.0.9"
    ≡ (memory-Server false).reserved new_world "10.96.0.9"
unfolding has_finalizer string_eq memory-Server matching
reconcile_found_gateway-unprotected_example =
    reconcile_found_gateway-unprotected lib (memory false) (memory-Server false) parse
      (informers []) gateway new_world refl refl refl
      (λ h found. subst (λ x. has_finalizer x ≡ false) (some-injective gateway h found) refl)
      "10.96.0.9"

new_ip_address-owned_example :
    (index_ip_address_by_gateway reservation ≡ namespaced_key (key_of gateway.meta) ∷ [])
    × Member reservation (reservation ∷ [])
unfolding list_owned_gateway_ip_addresses string_eq new_ip_address label
new_ip_address-owned_example =
    new_ip_address-owned known gateway "10.96.0.9" (reservation ∷ []) (reservation ∷ []) (λ e. cc)
      (λ e. cc) refl (inl refl) refl
