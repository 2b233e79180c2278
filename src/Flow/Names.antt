-- ===== src/Flow/Names.antt =====
-- The way of a name: what the DNS plugin answers is where the agent listens.
use clusterip_gw.Base.{
  ◌-◌, String, true, false, Option, some, none, List, ◌≡◌, ◌≢◌, ap, ◌∙◌, refl, ◌==◌, string_eq,
  nat_eq, drop, text_length, to_lower, length, Member, lookup, [], ◌∷◌,
}
use clusterip_gw.Kube.{Gateway, Listener, key_of}
use clusterip_gw.Net.{Ipv4}
use clusterip_gw.Controller.Listeners.Valid.{AreValid}
use clusterip_gw.Dns.{
  DnsLibrary, Store, Handler, Request, type_a, Message, Served, ipv4_addresses, a_record,
  rcode_success, write_a_response, serve_dns,
}
use clusterip_gw.Dns.Query.{DnsLaws, IsLabel, query_name}
use clusterip_gw.Dns.Answers.{keep_messages, write_a_response-single, IsLive, serve_dns-resolves}
use clusterip_gw.Agent.Frontends.{key_eq, gateway_to_frontend_map}
use clusterip_gw.Flow.Frontends.{frontend_key, IsPublished, gateway_to_frontend_map-lookup}

published_addresses :
    (parse_ipv4 : String → Option Ipv4) (g : Gateway) (vip : Ipv4)
    → IsPublished parse_ipv4 g vip
    → ipv4_addresses parse_ipv4 g.status.addresses ≡ vip ∷ []
unfolding ipv4_addresses string_eq
published_addresses parse_ipv4 g vip p = simp (p.address, p.parsed) refl

module _ (lib : DnsLibrary) (laws : DnsLaws lib) (parse_ipv4 : String → Option Ipv4)
    (next : Request → List Message → Served (List Message)) (k : Handler) where
  -- When the cache has synced, a question of the type A for the name of a live gateway with valid listeners and an
  -- address, in a zone of the plugin, is answered by one message, whose only record is this address under the name
  -- asked for, and at this address the agent has a frontend for each of the gateway's listeners. The writer keeps
  -- every message, and IsSubDomain and SplitDomainName read such a name as documented.
  pub serve_dns-frontends :
      (r : Request) (s : Store) (name namespace zone : String) (g : Gateway) (w : List Message)
      → (vip : Ipv4) → (l : Listener) → k.store ≡ some s
      → s.has_synced ≡ true
      → r.q_type ≡ type_a
      → lib.matches k.zones r.name ≡ zone
      → zone ≢ ""
      → to_lower (drop r.q_name (text_length r.q_name - text_length zone)) ≡ zone
      → IsLabel name
      → IsLabel namespace
      → r.name ≡ query_name name namespace zone
      → IsLive s namespace name g
      → IsPublished parse_ipv4 g vip
      → AreValid g.listeners
      → Member l g.listeners
      → (serve_dns lib parse_ipv4 keep_messages next k r w ≡ (
        (rcode_success, none),
        record {
          rcode = rcode_success;
          authoritative = true;
          answer = a_record r.q_name k.ttl vip ∷ [];
          ns = [];
          sized = false;
        }
            ∷ w,
      ))
        × (lookup (gateway_to_frontend_map parse_ipv4 g) (frontend_key (key_of g.meta) l.name)
            ≡ some (record { address = vip; port = l.port }))
  unfolding nat_eq
  serve_dns-frontends r s name namespace zone g w vip l stored synced type_is zone_is some_zone
        spelled hn hs asked live p valid m =
      let one = published_addresses parse_ipv4 g vip p in
      (
        serve_dns-resolves lib laws parse_ipv4 keep_messages next k r s name namespace zone g w
              stored synced type_is zone_is some_zone spelled hn hs asked live
              (ap (λ ips. length ips == 0) one)
            ∙ ap (λ ips. write_a_response lib parse_ipv4 keep_messages next k r.q_name ips w) one
            ∙ write_a_response-single lib parse_ipv4 next k r.q_name vip w,
        gateway_to_frontend_map-lookup parse_ipv4 g vip l live.2 valid p m,
      )
