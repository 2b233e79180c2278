-- ===== src/Dns/Answers.antt =====
-- What the plugin answers.
use clusterip_gw.Base.{
  ℕ, ◌-◌, ◌≡◌, ◌≢◌, ◌⊎◌, refl, String, true, false, Option, some, none, List, [], ◌∷◌, ◌==◌, ◌!=◌,
  string_eq, nat_eq, Member, text_length, length, drop, to_lower, ◌<>◌, M, ok, arith,
}
use clusterip_gw.Kube.{Gateway}
use clusterip_gw.Meta.{gateway_class_name}
use clusterip_gw.Net.{Ipv4}
use clusterip_gw.Dns.{
  DnsLibrary, Store, Handler, Request, type_a, Message, a_record, Served, addresses, rcode_success,
  ipv4_addresses, found_gateway, lookup_gateway, parse_gateway_query, a_records, write_a_response,
  answer_lookup, answer_query, serve_zone, written, serve_dns,
}
use clusterip_gw.Dns.Query.{DnsLaws, IsLabel, query_name, parse_gateway_query-query_name}

-- A gateway of the cache that is served.
abbrev pub IsLive : Store → String → String → Gateway → Type 0
IsLive s namespace name g =
    (s.get_by_key (namespace <> "/" <> name) ≡ ok (some g))
    × (g.meta.deleting ≡ false)
    × (g.gateway_class_name ≡ gateway_class_name)

module _ {W : Type 0} (lib : DnsLibrary) (laws : DnsLaws lib) (parse_ipv4 : String → Option Ipv4)
    (write : Message → M W (Unit {0})) (next : Request → W → Served W) (k : Handler) where
  -- A question of the type A for a live gateway's name, in a zone of the plugin, with the cache synced, is
  -- answered with the gateway's IPv4 addresses, when there are any.
  pub serve_dns-resolves :
      (r : Request) (s : Store) (name namespace zone : String) (g : Gateway) (w : W)
      → k.store ≡ some s
      → s.has_synced ≡ true
      → r.q_type ≡ type_a
      → lib.matches k.zones r.name ≡ zone
      → zone ≢ ""
      → to_lower (drop r.q_name (text_length r.q_name - text_length zone)) ≡ zone
      → IsLabel name
      → IsLabel namespace
      → r.name ≡ query_name name namespace zone
      → IsLive s namespace name g
      → (length (ipv4_addresses parse_ipv4 g.status.addresses) == 0) ≡ false
      → serve_dns lib parse_ipv4 write next k r w
        ≡ write_a_response lib parse_ipv4 write next k r.q_name
            (ipv4_addresses parse_ipv4 g.status.addresses)
            w
  unfolding serve_dns serve_zone answer_query answer_lookup lookup_gateway found_gateway nat_eq
  serve_dns-resolves r s name namespace zone g w stored synced type_is zone_is some_zone spelled hn
        hs asked (cached, stays, class) some_ip =
      let zone_found : (zone == "") ≡ false = ground (arith, some_zone) in
      let class_same : (g.gateway_class_name != gateway_class_name) ≡ false =
        ground (arith, class) in
      let parsed = parse_gateway_query-query_name lib laws name namespace zone hn hs some_zone in
      rw
        (
          zone_is, zone_found, stored, synced, type_is, spelled, asked, parsed, cached, stays,
          class_same, some_ip,
        )
        refl

-- A writer that keeps the messages, the last one first.
abbrev pub keep_messages : Message → M (List Message) (Unit {0})
keep_messages m w = (ok tt, m ∷ w)

module _ (lib : DnsLibrary) (parse_ipv4 : String → Option Ipv4)
    (next : Request → List Message → Served (List Message)) (k : Handler) where
  pub write_a_response-single :
      (q : String) (ip : Ipv4) (w : List Message)
      → write_a_response lib parse_ipv4 keep_messages next k q (ip ∷ []) w ≡ (
        (rcode_success, none),
        record {
          rcode = rcode_success;
          authoritative = true;
          answer = a_record q k.ttl ip ∷ [];
          ns = [];
          sized = false;
        }
            ∷ w,
      )
  unfolding write_a_response written a_records
  write_a_response-single q ip w = refl

  -- An address of a live gateway of the question.
  abbrev pub IsAnswer : Request → Ipv4 → Type 0
  IsAnswer r ip =
      (s : Store) × (zone : String) × (name : String) × (namespace : String) × (g : Gateway)
      × (k.store ≡ some s)
      × (s.has_synced ≡ true)
      × (parse_gateway_query lib r.name zone ≡ some (name, namespace))
      × IsLive s namespace name g
      × Member ip (ipv4_addresses parse_ipv4 g.status.addresses)

  -- Each address of the message is one.
  abbrev pub IsHonest : Request → Message → Type 0
  IsHonest r m =
      (n : String) (ttl : ℕ) (ip : Ipv4) → Member (a_record n ttl ip) m.answer → IsAnswer r ip

  -- What the written messages are, when only honest ones are written.
  abbrev Written : Request → List Message → Served (List Message) → Type 0
  Written r before p = (m : Message) → Member m p.1 → IsHonest r m ⊎ Member m before
