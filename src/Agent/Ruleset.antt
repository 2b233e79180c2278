-- ===== src/Agent/Ruleset.antt =====
-- internal/agent/nftables: the ruleset that proxier.go wants, and the messages by which netlink.go
-- queues it. `digest` is the hexadecimal text of the first eight bytes of `sha256.Sum256`.
pub mod Wanted
use clusterip_gw.Base.{
  ℕ, ℤ, pos, negsuc, zero, suc, String, Bool, true, false, not, Option, none, some, List, [], ◌∷◌,
  ◌++◌, map, ◌==◌, ◌||◌, nat_eq, if◌then◌else◌, ltb, length, lookup, sort_by, str_lt, ◌<>◌, decimal,
}
use clusterip_gw.Net.{Ipv4}
use clusterip_gw.Agent.Frontends.{FrontendKey, key_eq, key_string, Frontend, FrontendMap}
use clusterip_gw.Agent.Endpoints.{Endpoint, EndpointsMap}

-- The structs of netlink.go. A base chain has the hook of its name, the priority of a
-- destination NAT, the type `nat` and the policy `accept`.
pub record BackendChain : Type 0 where
  pub chain_name : String
  pub backend_ip : Ipv4
  pub backend_port : ℕ

pub record ServiceChain : Type 0 where
  pub service_key : String
  pub chain_name : String
  pub dispatch_map_name : String
  pub cluster_ip : Ipv4
  pub service_port : ℕ
  pub backend_chains : List BackendChain

pub record RulesetSpec : Type 0 where
  pub table_name : String
  pub base_chains : List String
  pub service_chains : List ServiceChain

unfoldable pub default_base_chains : List String
default_base_chains = "prerouting" ∷ "output" ∷ []

unfoldable pub to_uint16_port : ℤ → Option ℕ
to_uint16_port (negsuc n) = none
to_uint16_port (pos n) = if n == 0 || ltb 65535 n then none else some n

-- The text behind "svc_", with which the name of every service chain begins.
unfoldable pub dispatch_map_name_for : String → String
dispatch_map_name_for (String.◌∷◌ _ (String.◌∷◌ _ (String.◌∷◌ _ (String.◌∷◌ _ rest)))) =
    "map_" <> rest
dispatch_map_name_for _ = "map_"

unfoldable pub backend_chain_name_for : String → ℕ → String
backend_chain_name_for service_chain_name index = service_chain_name <> "_be" <> decimal index

module _ (digest : String → String) where
  unfoldable pub hashed_name : String → String → String
  hashed_name prefix text = prefix <> digest text

  unfoldable pub chain_name_for : String → String
  chain_name_for text = hashed_name "svc_" text

module _ (parse_ipv4 : String → Option Ipv4) (digest : String → String) where
  add_backend : String → Option Ipv4 → Option ℕ → List BackendChain → List BackendChain
  add_backend chain (some ip) (some port) backends =
      backends
      ++ (record {
        chain_name = backend_chain_name_for chain (length backends);
        backend_ip = ip;
        backend_port = port;
      }
          ∷ [])
  add_backend chain _ _ backends = backends

  unfoldable pub backends_onto : String → List BackendChain → List Endpoint → List BackendChain
  unfolding add_backend
  backends_onto chain backends [] = backends
  backends_onto chain backends (e ∷ rest) =
      backends_onto chain (add_backend chain (parse_ipv4 e.ip) (to_uint16_port e.port) backends)
        rest

  unfoldable pub backend_chain_specs_for_endpoints : String → List Endpoint → List BackendChain
  backend_chain_specs_for_endpoints chain es = backends_onto chain [] es

  endpoints_of : Option (List Endpoint) → List Endpoint
  endpoints_of none = []
  endpoints_of (some es) = es

  service_for : FrontendKey → Frontend → Option ℕ → List BackendChain → List ServiceChain
  service_for key f none backends = []
  service_for key f (some port) backends =
      if length backends == 0
      then []
      else record {
        service_key = key_string key;
        chain_name = chain_name_for digest (key_string key);
        dispatch_map_name = dispatch_map_name_for (chain_name_for digest (key_string key));
        cluster_ip = f.address;
        service_port = port;
        backend_chains = backends;
      }
        ∷ []

  -- The body of the loop over the sorted keys; the address of a frontend is an IPv4 address.
  unfoldable pub service_chain : EndpointsMap → FrontendKey × Frontend → List ServiceChain
  unfolding service_for endpoints_of
  service_chain endpoints (key, f) = service_for key f (to_uint16_port f.port) (
      backend_chain_specs_for_endpoints (chain_name_for digest (key_string key))
        (endpoints_of (lookup endpoints key)))

  unfoldable pub service_chains : EndpointsMap → FrontendMap → List ServiceChain
  service_chains endpoints [] = []
  service_chains endpoints (kf ∷ rest) = service_chain endpoints kf ++ service_chains endpoints rest

  abbrev pub by_key_string : FrontendKey × Frontend → FrontendKey × Frontend → Bool
  by_key_string a b = str_lt (key_string a.0) (key_string b.0)

  -- desiredRulesetLocked, of the two snapshots. The keys of a map are different, so that its pairs are
  -- sorted by their keys.
  unfoldable pub desired_ruleset : String → FrontendMap → EndpointsMap → RulesetSpec
  desired_ruleset table frontends endpoints = record {
    table_name = table;
    base_chains = default_base_chains;
    service_chains = service_chains endpoints (sort_by by_key_string frontends);
  }
