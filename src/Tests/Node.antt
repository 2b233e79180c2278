-- ===== src/Tests/Node.antt =====
-- The agent: trackers, rulesets and syncs.
use clusterip_gw.Base.{
  sort_by, decimal, nat_eq, ℕ, ◌+◌, ◌<◌, pos, String, true, false, Option, none, some, [], ◌∷◌, ◌≡◌,
  ◌≢◌, ◌↔◌, refl, inl, if◌then◌else◌, ◌==◌, string_eq, Member, length, lookup, ok, M, arith,
}
use clusterip_gw.Kube.{key_of, Gateway}
use clusterip_gw.Meta.{gateway_class_name}
use clusterip_gw.Net.{Ipv4}
use clusterip_gw.Controller.Listeners.{allowed_routes_supported}
use clusterip_gw.Controller.Listeners.Valid.{AreValid, IsSupported, AreDistinct}
use clusterip_gw.Agent.Frontends.{
  key_string, FrontendKey, Frontend, FrontendMap, new_gateway_tracker, key_eq, gateway_supported,
  address_supported,
}
use clusterip_gw.Agent.Frontends.Supported.{gateway_supported_of_AreValid}
use clusterip_gw.Agent.Endpoints.{EndpointsMap}
use clusterip_gw.Agent.Ruleset.{
  hashed_name, service_chains, backend_chain_specs_for_endpoints, backends_onto,
  dispatch_map_name_for, backend_chain_name_for, chain_name_for, service_chain, to_uint16_port,
  BackendChain, ServiceChain, RulesetSpec, desired_ruleset,
}
use clusterip_gw.Agent.Ruleset.Wanted.{Serves, desired_ruleset-Serves}
use clusterip_gw.Agent.Netlink.{service_dispatch_exprs, service_dispatch_map_elements}
use clusterip_gw.Agent.Netlink.Dispatch.{nth, modulus, service_dispatch_lem}
use clusterip_gw.Agent.Proxier.{State, endpoint_slices_synced, on_event}
use clusterip_gw.Tests.Network.{demo_meta}
use clusterip_gw.Tests.Cluster.{gateway}

abbrev vip : Ipv4
vip = record { b0 = 10; b1 = 96; b2 = 0; b3 = 9 }

abbrev pod_ip : Ipv4
pod_ip = record { b0 = 10; b1 = 0; b2 = 0; b3 = 2 }

pub parse_ipv4 : String → Option Ipv4
parse_ipv4 s = if s == "10.96.0.9" then some vip else if s == "10.0.0.2" then some pod_ip else none

pub digest : String → String
digest s = s

abbrev pub programmed : Gateway
programmed = record gateway {
  status = record {
    addresses = record { type = some "IPAddress"; value = "10.96.0.9" } ∷ [];
    conditions = [];
    listeners = [];
  };
}

gateway-AreValid : AreValid programmed.listeners
unfolding AreValid IsSupported AreDistinct allowed_routes_supported
gateway-AreValid =
    ((λ e. cc), omega arith, (((λ e. cc), (λ e. cc), refl, refl), tt), (tt, tt), (tt, tt))

abbrev tcp_key : FrontendKey
tcp_key = record { gateway = key_of demo_meta; listener = "tcp" }

gateway_supported_of_AreValid_example : (gateway_supported programmed ≡ true) ↔ (
    (programmed.meta.namespace ≢ "")
    × (programmed.meta.name ≢ "")
    × (programmed.meta.deleting ≡ false)
    × (programmed.gateway_class_name ≡ gateway_class_name)
    × (address_supported programmed.status.addresses ≡ true))
gateway_supported_of_AreValid_example = gateway_supported_of_AreValid programmed gateway-AreValid

abbrev frontends : FrontendMap
frontends = (tcp_key, record { address = vip; port = pos 80 }) ∷ []

abbrev endpoints : EndpointsMap
endpoints = (tcp_key, record { ip = "10.0.0.2"; port = pos 8080 } ∷ []) ∷ []

abbrev pub service : ServiceChain
service = record {
  service_key = "default/demo:tcp";
  chain_name = "svc_default/demo:tcp";
  dispatch_map_name = "map_default/demo:tcp";
  cluster_ip = vip;
  service_port = 80;
  backend_chains =
      record { chain_name = "svc_default/demo:tcp_be0"; backend_ip = pod_ip; backend_port = 8080 }
      ∷ [];
}

desired_ruleset-Serves_example :
    (key : FrontendKey) × (f : Frontend) × Member (key, f) frontends
    × Serves parse_ipv4 digest endpoints key f service
unfolding desired_ruleset service_chains sort_by service_chain to_uint16_port nat_eq
    backend_chain_specs_for_endpoints backends_onto lookup key_eq string_eq parse_ipv4 key_string
    chain_name_for dispatch_map_name_for backend_chain_name_for hashed_name digest decimal
desired_ruleset-Serves_example =
    desired_ruleset-Serves parse_ipv4 digest "clusterip_gw" frontends endpoints service (inl refl)

service_dispatch_lem_example :
    (modulus (service_dispatch_exprs service) ≡ some (length service.backend_chains))
    × ((n : ℕ)
        → n < length service.backend_chains
        → (b : BackendChain) × (nth service.backend_chains n ≡ some b)
          × (lookup (service_dispatch_map_elements service) n ≡ some b.chain_name))
service_dispatch_lem_example = service_dispatch_lem service (omega arith)

-- The gateways have synced, and the endpoint slices have not.
abbrev starting : State
starting = record {
  table_name = "clusterip_gw";
  sync_period = 30;
  min_sync_period = 5;
  apply_rules = true;
  gateways_synced = true;
  endpoint_slices_synced = false;
  sync_pending = false;
  gateway_tracker = new_gateway_tracker;
  endpoint_tracker = record { endpoint_slices = [] };
  resync = false;
  last_sync = some 10;
}

-- The world counts the rulesets that were applied.
abbrev pub count_applied : RulesetSpec → M ℕ (Unit {0})
count_applied spec n = (ok tt, n + 1)

abbrev started : State
started = on_event parse_ipv4 digest starting endpoint_slices_synced
