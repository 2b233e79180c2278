-- ===== src/Dns.antt =====
-- plugin/k8s_clusterip_gw/plugin.go: the CoreDNS plugin that answers with the addresses of gateways.
-- `DnsLibrary` is what it calls of miekg/dns and CoreDNS, and `parse_ipv4` is `net.ParseIP` followed by
-- `To4`. Of a reply the model has what the plugin sets; the identifier and the question are the request's.
pub mod Query
pub mod Answers
pub mod Setup
use clusterip_gw.Base.{
  ℕ, ◌-◌, String, Bool, true, false, not, Option, none, some, List, [], ◌∷◌, ◌==◌, ◌!=◌, ◌&&◌, ◌||◌,
  string_eq, option_eq, nat_eq, if◌then◌else◌, length, text_length, drop, trim_suffix, to_lower,
  ◌<>◌, M, Result, ok, err, Error, other, message,
}
use clusterip_gw.Kube.{Gateway, GatewayAddress}
use clusterip_gw.Meta.{gateway_class_name}
use clusterip_gw.Net.{Ipv4}

abbrev pub default_zone : String
default_zone = "gw.cluster.local."

abbrev pub default_ttl : ℕ
default_ttl = 30

pub record DnsLibrary : Type 0 where
  pub fqdn : String → String
  pub is_sub_domain : String → String → Bool
  pub split_domain_name : String → List String
  -- `plugin.Zones.Matches`: the zone that holds the name, or no text.
  pub matches : List String → String → String

-- gatewayStore
pub record Store : Type 0 where
  pub has_synced : Bool
  pub get_by_key : String → Result (Option Gateway)

-- K8sClusterIPGW, without the next handler.
pub record Handler : Type 0 where
  pub zones : List String
  pub ttl : ℕ
  pub store : Option Store

-- `request.Request`: the name asked for, its form in lower case, the type and the DO bit.
pub record Request : Type 0 where
  pub q_name : String
  pub name : String
  pub q_type : ℕ
  pub do_bit : Bool

abbrev pub type_a : ℕ
type_a = 1

abbrev pub type_soa : ℕ
type_soa = 6

abbrev pub rcode_success : ℕ
rcode_success = 0

abbrev pub rcode_server_failure : ℕ
rcode_server_failure = 2

abbrev pub rcode_name_error : ℕ
rcode_name_error = 3

-- dns.SOA
pub record Soa : Type 0 where
  pub name : String
  pub ttl : ℕ
  pub ns : String
  pub mbox : String
  pub serial : ℕ
  pub refresh : ℕ
  pub retry : ℕ
  pub expire : ℕ
  pub minttl : ℕ

-- Records of the class INET: of the type A with name, TTL and address, or SOA.
pub data Rr : Type 0 where
  a_record : String → ℕ → Ipv4 → Rr
  soa_record : Soa → Rr

pub record Message : Type 0 where
  pub rcode : ℕ
  pub authoritative : Bool
  pub answer : List Rr
  pub ns : List Rr
  pub sized : Bool

-- The code and the error that ServeDNS returns, and the world after it.
abbrev pub Served : Type 0 → Type 0
Served W = (ℕ × Option Error) × W

unfoldable pub new_handler : DnsLibrary → Option Store → List String → ℕ → Handler
new_handler lib store zones ttl = record {
  zones = normalized (or_default_zones zones);
  ttl = if ttl == 0 then default_ttl else ttl;
  store = store;
}
  where
    or_default_zones : List String → List String
    or_default_zones [] = default_zone ∷ []
    or_default_zones (z ∷ rest) = z ∷ rest

    normalized : List String → List String
    normalized [] = []
    normalized (z ∷ rest) = lib.fqdn z ∷ normalized rest

unfoldable pub soa : DnsLibrary → Handler → String → Soa
soa lib k zone = record {
  name = lib.fqdn zone;
  ttl = k.ttl;
  ns = "ns." <> lib.fqdn zone;
  mbox = "hostmaster." <> lib.fqdn zone;
  serial = 1;
  refresh = 7200;
  retry = 1800;
  expire = 86400;
  minttl = k.ttl;
}

-- The two labels in front of the zone: a gateway's name and its namespace.
unfoldable pub parse_gateway_query : DnsLibrary → String → String → Option (String × String)
parse_gateway_query lib q_name zone =
    if not (lib.is_sub_domain zone q_name)
    then none
    else if q_name == zone
    then none
    else two (lib.split_domain_name (trim_suffix (trim_suffix q_name zone) "."))
  where
    two : List String → Option (String × String)
    two (name ∷ namespace ∷ []) = some (name, namespace)
    two _ = none

-- What the cache has of a gateway: errGatewayNotFound, another error, or addresses.
pub data Lookup : Type 0 where
  gateway_not_found : Lookup
  lookup_failed : Error → Lookup
  addresses : List Ipv4 → Lookup

module _ (parse_ipv4 : String → Option Ipv4) where
  with_address : Option Ipv4 → List Ipv4 → List Ipv4
  with_address none rest = rest
  with_address (some ip) rest = ip ∷ rest

  is_ip_type : Option String → Bool
  is_ip_type none = true
  is_ip_type (some t) = t == "IPAddress"

  unfoldable pub ipv4_addresses : List GatewayAddress → List Ipv4
  unfolding with_address is_ip_type
  ipv4_addresses [] = []
  ipv4_addresses (a ∷ rest) =
      let later = ipv4_addresses rest in
      if not (is_ip_type a.type) then later else with_address (parse_ipv4 a.value) later

  unfoldable pub found_gateway : String → String → Result (Option Gateway) → Lookup
  found_gateway namespace name (err e) =
      lookup_failed
        (other ("get gateway " <> namespace <> "/" <> name <> " from cache: " <> message e))
  found_gateway namespace name (ok none) = gateway_not_found
  found_gateway namespace name (ok (some g)) =
      if g.meta.deleting
      then gateway_not_found
      else if g.gateway_class_name != gateway_class_name
      then gateway_not_found
      else addresses (ipv4_addresses g.status.addresses)

  unfoldable pub lookup_gateway : Store → String → String → Lookup
  lookup_gateway s namespace name =
      found_gateway namespace name (s.get_by_key (namespace <> "/" <> name))

module _ {W : Type 0} (lib : DnsLibrary) (parse_ipv4 : String → Option Ipv4)
    (write : Message → M W (Unit {0})) (next : Request → W → Served W) (k : Handler) where
  written : ℕ → Result (Unit {0}) × W → Served W
  written code (ok u, w) = ((code, none), w)
  written code (err e, w) = ((rcode_server_failure, some e), w)

  unfoldable pub write_negative : String → ℕ → W → Served W
  unfolding written
  write_negative zone rcode w = written rcode (
      write
        (record {
          rcode = rcode;
          authoritative = true;
          answer = [];
          ns = if rcode != rcode_server_failure then soa_record (soa lib k zone) ∷ [] else [];
          sized = false;
        })
        w)

  unfoldable pub a_records : String → List Ipv4 → List Rr
  a_records q_name [] = []
  a_records q_name (ip ∷ rest) = a_record q_name k.ttl ip ∷ a_records q_name rest

  unfoldable pub write_a_response : String → List Ipv4 → W → Served W
  unfolding a_records written
  write_a_response q_name ips w = written rcode_success (
      write
        (record {
          rcode = rcode_success;
          authoritative = true;
          answer = a_records q_name ips;
          ns = [];
          sized = false;
        })
        w)

  write_soa : Request → String → W → Served W
  unfolding written
  write_soa r zone w = written rcode_success (
      write
        (record {
          rcode = rcode_success;
          authoritative = true;
          answer = soa_record (soa lib k zone) ∷ [];
          ns = [];
          sized = r.do_bit;
        })
        w)

  unfoldable pub answer_lookup : Request → String → Lookup → W → Served W
  answer_lookup r zone gateway_not_found w = write_negative zone rcode_name_error w
  answer_lookup r zone (lookup_failed e) w = ((rcode_server_failure, some e), w)
  answer_lookup r zone (addresses ips) w =
      if r.q_type == type_a
      then (if length ips == 0
          then write_negative zone rcode_name_error w
          else write_a_response r.q_name ips w)
      else write_negative zone rcode_success w

  unfoldable pub answer_query : Store → Request → String → Option (String × String) → W → Served W
  answer_query s r zone none w = write_negative zone rcode_name_error w
  answer_query s r zone (some (name, namespace)) w =
      answer_lookup r zone (lookup_gateway parse_ipv4 s namespace name) w

  -- The query in a zone of the plugin.
  unfoldable pub serve_zone : Request → String → Option Store → W → Served W
  unfolding write_soa
  serve_zone r zone none w = write_negative zone rcode_server_failure w
  serve_zone r zone (some s) w =
      if not s.has_synced
      then write_negative zone rcode_server_failure w
      else if r.q_type == type_soa && r.name == to_lower zone
      then write_soa r zone w
      else answer_query s r zone (parse_gateway_query lib r.name (to_lower zone)) w

  -- The zone is spelled as in the question.
  unfoldable pub serve_dns : Request → W → Served W
  serve_dns r w =
      let zone = lib.matches k.zones r.name in
      if zone == ""
      then next r w
      else serve_zone r (drop r.q_name (text_length r.q_name - text_length zone)) k.store w
