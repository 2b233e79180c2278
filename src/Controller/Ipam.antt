-- ===== src/Controller/Ipam.antt =====
-- internal/controller/ipam.go: the reservation of a gateway's address and its release.
pub mod Walk
pub mod Reservation
pub mod Allocation
use clusterip_gw.Base.{
  ℕ, zero, suc, String, Bool, true, false, not, Option, none, some, List, [], ◌∷◌, ◌++◌, ◌==◌, ◌!=◌,
  string_eq, if◌then◌else◌, contains, keep, sort_by, str_lt, Error, other, is_already_exists,
  is_not_found, Result, ok, err, M, ◌>>=◌, ◌>>◌, return, throw, lift, map_ok, ignore_not_found,
  ◌<>◌, map,
}
use clusterip_gw.Kube.{
  NamespacedName, key_of, Condition, condition_true, condition_status_eq, Gateway, IpAddress,
  IpParentReference, ServiceCidr, label,
}
use clusterip_gw.Net.{
  Ipv4, Addr, invalid, ipv4, addr_string, Prefix, size, masked, prefix_contains, prefix_string,
}
use clusterip_gw.Controller.Refs.{namespaced_key}
use clusterip_gw.Controller.Addresses.{next_addr, first_allocatable, is_last_address}
use clusterip_gw.Controller.{
  gateway_api_group, controller_finalizer, managed_by_label_key, managed_by_label_value,
  ip_family_label_key, ip_family_ipv4_value, Client, Informers,
}

-- `netip.ParsePrefix` gives an IPv4 prefix, or one that the caller leaves aside.
pub data ParsedPrefix : Type 0 where
  v4 : Prefix → ParsedPrefix
  v6 : ParsedPrefix

unfoldable pub delete_string : List String → String → List String
delete_string [] target = []
delete_string (v ∷ values) target =
    let rest = delete_string values target in if v == target then rest else v ∷ rest

-- By the first `Ready` condition; with none the range is taken as ready.
unfoldable pub service_cidr_ready : List Condition → Bool
service_cidr_ready [] = true
service_cidr_ready (c ∷ rest) =
    let later = service_cidr_ready rest in
    if c.type != "Ready" then later else c.status == condition_true

-- The reservation that the allocation creates.
unfoldable pub new_ip_address : Gateway → String → IpAddress
new_ip_address g name = record {
  meta = record {
    namespace = "";
    name = name;
    uid = "";
    generation = 0;
    deleting = false;
    labels =
        (ip_family_label_key, ip_family_ipv4_value)
        ∷ (managed_by_label_key, managed_by_label_value)
        ∷ [];
    finalizers = [];
    owner_references = [];
  };
  parent_ref = some (record {
    group = gateway_api_group;
    resource = "gateways";
    namespace = g.meta.namespace;
    name = g.meta.name;
  });
}

-- How the walk through one prefix ends. `out_of_fuel` is not an end of the source's loop.
pub data Scan : Type 0 where
  found : String → Scan
  exhausted : List String → Scan
  out_of_fuel : Scan

module _ (inf : Informers) where
  unfoldable pub list_owned_gateway_ip_addresses : NamespacedName → Result (List IpAddress)
  list_owned_gateway_ip_addresses key =
      map_ok (keep (λ ip. label ip.meta.labels managed_by_label_key == managed_by_label_value))
        (inf.ip_addresses_by_gateway (namespaced_key key))

  unfoldable pub list_taken_ips : Result (List String)
  list_taken_ips = map_ok (map (λ ip. ip.meta.name)) inf.ip_addresses

abbrev pub by_name : IpAddress → IpAddress → Bool
by_name a b = str_lt a.meta.name b.meta.name

abbrev pub by_string : Prefix → Prefix → Bool
by_string a b = str_lt (prefix_string a) (prefix_string b)

module _ (parse_prefix : String → Option ParsedPrefix) where
  abbrev pub ipv4_prefix : Option ParsedPrefix → List Prefix → List Prefix
  ipv4_prefix (some (v4 p)) rest = masked p ∷ rest
  ipv4_prefix _ rest = rest

  unfoldable pub ipv4_prefixes : List String → List Prefix
  ipv4_prefixes [] = []
  ipv4_prefixes (raw ∷ rest) = ipv4_prefix (parse_prefix raw) (ipv4_prefixes rest)

  unfoldable pub usable_prefixes : List ServiceCidr → List Prefix
  unfolding ipv4_prefixes service_cidr_ready
  usable_prefixes [] = []
  usable_prefixes (c ∷ rest) =
      let later = usable_prefixes rest in
      if c.meta.deleting
      then later
      else if not (service_cidr_ready c.conditions)
      then later
      else ipv4_prefixes c.cidrs ++ later

  unfoldable pub list_ipv4_service_cidrs : Informers → Result (List Prefix)
  list_ipv4_service_cidrs inf =
      map_ok (λ items. sort_by by_string (usable_prefixes items)) inf.service_cidrs

module _ {W : Type 0} (client : Client W) where
  -- `Delete`, where `NotFound` is no error.
  unfoldable pub delete_ip_addresses : List IpAddress → M W (Unit {0})
  delete_ip_addresses [] = return tt
  delete_ip_addresses (ip ∷ rest) = do
    ignore_not_found (client.delete_ip_address ip.meta.name)
    delete_ip_addresses rest

  unfoldable pub release_gateway_ip_addresses : Informers → Gateway → M W (Unit {0})
  release_gateway_ip_addresses inf g = do
    owned ← lift (list_owned_gateway_ip_addresses inf (key_of g.meta))
    delete_ip_addresses owned

  -- What follows the `Create` of a candidate.
  unfoldable pub claimed :
      Result (Unit {0}) × W → String → List String → (List String → M W Scan) → Result Scan × W
  claimed (ok u, w) name taken skip = (ok (found name), w)
  claimed (err e, w) name taken skip =
      let next = skip (name ∷ taken) w in if is_already_exists e then next else (err e, w)

  -- The inner loop of ensureGatewayVIP, from a candidate on.
  unfoldable pub scan : ℕ → Gateway → Prefix → Addr → List String → M W Scan
  scan zero g p c taken w = (ok out_of_fuel, w)
  scan (suc fuel) g p invalid taken w = (ok (exhausted taken), w)
  scan (suc fuel) g p (ipv4 c) taken w =
      let skip = λ (t : List String) (v : W). scan fuel g p (next_addr (ipv4 c)) t v in
      let skipped = skip taken w in
      let name = addr_string c in
      let created = claimed (client.create_ip_address (new_ip_address g name) w) name taken skip in
      if not (prefix_contains p c)
      then (ok (exhausted taken), w)
      else if is_last_address p c
      then (ok (exhausted taken), w)
      else if contains taken name
      then skipped
      else created

  unfoldable pub after_scan : Result Scan × W → (List String → M W String) → Result String × W
  after_scan (ok (found name), w) next = (ok name, w)
  after_scan (ok (exhausted taken), w) next = next taken w
  after_scan (ok out_of_fuel, w) next = (err (other "out of fuel"), w)
  after_scan (err e, w) next = (err e, w)

  -- The outer loop. A prefix has `size` many addresses, and so many rounds are enough for it.
  unfoldable pub scan_prefixes : Gateway → List Prefix → List String → M W String
  scan_prefixes g [] taken w = (err (other "all IPv4 ServiceCIDR addresses are allocated"), w)
  scan_prefixes g (p ∷ ps) taken w =
      after_scan (scan (size p) g p (first_allocatable p) taken w) (λ t v. scan_prefixes g ps t v)

  -- The gateway has no reservation yet.
  unfoldable pub allocate : (String → Option ParsedPrefix) → Informers → Gateway → M W String
  allocate parse_prefix inf g = do
    cidrs ← lift (list_ipv4_service_cidrs parse_prefix inf)
    taken ← elim cidrs [
      | [] ↦ throw (other "no IPv4 ServiceCIDR ranges are available for allocation")
      | p ∷ ps ↦ lift (list_taken_ips inf)
    ]
    scan_prefixes g cidrs taken

  -- The least of the sorted reservations stays.
  unfoldable pub keep_first : List IpAddress → M W String → M W String
  keep_first [] none_owned = none_owned
  keep_first (ip ∷ extra) none_owned = do delete_ip_addresses extra; return ip.meta.name

  unfoldable pub ensure_gateway_vip :
      (String → Option ParsedPrefix) → Informers → Gateway → M W String
  ensure_gateway_vip parse_prefix inf g = do
    owned ← lift (list_owned_gateway_ip_addresses inf (key_of g.meta))
    keep_first (sort_by by_name owned) (allocate parse_prefix inf g)
