-- ===== src/Flow/Traffic.antt =====
-- The way of a connection: from a gateway's address and a listener's port to the pods that a route's
-- selector chooses.
use clusterip_gw.Base.{Bool, String, Option, some, ◌≡◌, ◌↔◌, Member, lookup, List}
use clusterip_gw.Kube.{TcpRoute, EndpointSelector, Pod, EndpointSlice}
use clusterip_gw.Net.{Ipv4}
use clusterip_gw.Controller.{Library, Informers}
use clusterip_gw.Controller.Bindings.{Binding}
use clusterip_gw.Controller.Bindings.Source.{IsByParent, IsBackend}
use clusterip_gw.Controller.Slices.Endpoints.{Serves}
use clusterip_gw.Agent.Frontends.{FrontendKey, key_eq, gateway_to_frontend_map}
use clusterip_gw.Agent.Endpoints.{Endpoint, frontend_key_for_endpoint_slice, slice_endpoints}
use clusterip_gw.Flow.Backends.{IsOfPod}

module _ (lib : Library) (inf : Informers) (parse_ipv4 : String → Option Ipv4)
    (digest : String → String) where
  -- The selector is the route's one backend, and a parent reference of the route matches a listener of the gateway. The
  -- slice is read under this listener's key, which the agent has at the gateway's address and the listener's port, and its
  -- endpoints are those of the pods that serve the selector, at the port of the backend.
  pub record IsForwarded (s : EndpointSelector) (r : TcpRoute) (b : Binding) (vip : Ipv4)
      (slice : EndpointSlice) (matches : List (String × String) → Bool) (pods : List Pod)
      : Type 0 where
    pub parent : IsByParent inf r b
    pub backend : IsBackend s r b
    pub key : FrontendKey
    pub read : frontend_key_for_endpoint_slice slice ≡ some key
    pub frontend :
        lookup (gateway_to_frontend_map parse_ipv4 b.gateway) key
        ≡ some (record { address = vip; port = parent.listener.port })
    pub backends :
        (e : Endpoint)
        → Member e (slice_endpoints parse_ipv4 slice.ports slice.endpoints) ↔ (
            (p : Pod) × (Member p pods × Serves parse_ipv4 matches p)
            × IsOfPod parse_ipv4 b.backend_port p e)
