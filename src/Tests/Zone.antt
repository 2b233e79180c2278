-- ===== src/Tests/Zone.antt =====
-- A question for the address of a gateway.
use Prim.Native.String.append
use text.Mathlib.TextLemmas.{append-nil}
use clusterip_gw.Base.{
  pos, lookup, ap, sym, ◌∙◌, inr, Bool-cases, ==_refl, ◌!=◌, trim_suffix-append, text_length-append,
  ◌≡◌, refl, inl, String, true, false, Option, some, none, List, [], ◌∷◌, ◌==◌, string_eq,
  if◌then◌else◌, ◌<>◌, trim_suffix, to_lower, text_length, drop, ok, arith,
}
use clusterip_gw.Kube.{key_of, Gateway}
use clusterip_gw.Net.{Ipv4}
use clusterip_gw.Dns.{
  DnsLibrary, Store, Handler, Request, Message, default_zone, type_a, a_record, rcode_success,
  Served, serve_dns,
}
use clusterip_gw.Dns.Query.{HasNoDot, DnsLaws, IsLabel}
use clusterip_gw.Dns.Answers.{keep_messages}
use clusterip_gw.Controller.Refs.Keys.{push}
use clusterip_gw.Controller.Listeners.{allowed_routes_supported}
use clusterip_gw.Controller.Listeners.Valid.{AreValid, IsSupported, AreDistinct}
use clusterip_gw.Agent.Frontends.{key_eq, gateway_to_frontend_map}
use clusterip_gw.Flow.Frontends.{frontend_key, IsPublished}
use clusterip_gw.Flow.Names.{serve_dns-frontends}
use clusterip_gw.Tests.Cluster.{listener, gateway}

pub split_labels : String → String → List String
split_labels part String.[] = part ∷ []
split_labels part (String.◌∷◌ c s) =
    let ends = split_labels "" s in
    let goes = split_labels (part <> String.◌∷◌ c String.[]) s in
    if String.◌∷◌ c String.[] == "." then part ∷ ends else goes

split_labels-no_dot : (part s : String) → HasNoDot s → split_labels part s ≡ (part <> s) ∷ []
unfolding split_labels
split_labels-no_dot part String.[] h = ap (λ t. t ∷ []) (sym (append-nil part))
split_labels-no_dot part (String.◌∷◌ c s) h =
    rw (h.0) (
      split_labels-no_dot (part <> String.◌∷◌ c String.[]) s h.2 ∙ ap (λ t. t ∷ []) (push part c s))

split_labels-dot :
    (part s t : String)
    → HasNoDot s
    → split_labels part (s <> "." <> t) ≡ (part <> s) ∷ split_labels "" t
unfolding split_labels
split_labels-dot part String.[] t h =
    rw
      (
        append.nil ("." <> t),
        append-nil part,
        append.cons "." "" t,
        append.nil t,
        ==_refl {A = String} ".",
      )
      refl
split_labels-dot part (String.◌∷◌ c s) t h =
    rw (append.cons c s ("." <> t), h.0)
      (split_labels-dot (part <> String.◌∷◌ c String.[]) s t h.2
        ∙ ap (λ x. x ∷ split_labels "" t) (push part c s))

abbrev pub zone_lib : DnsLibrary
zone_lib = record {
  fqdn = λ s. s;
  is_sub_domain = λ zone child. trim_suffix child ("." <> zone) != child;
  split_domain_name = split_labels "";
  matches = λ zones name. default_zone;
}

below :
    (s zone : String) → (trim_suffix (s <> "." <> zone) ("." <> zone) != (s <> "." <> zone)) ≡ true
unfolding text_length
below s zone =
    rw (trim_suffix-append s ("." <> zone)) (elim (Bool-cases (s != (s <> "." <> zone))) [
      | inl e ↦ e
      | inr e ↦
          let same : s ≡ s <> "." <> zone = ground (arith, e) in
          let long : text_length s ≡ text_length (s <> "." <> zone) = ap text_length same in
          absurd
            (omega (arith, long, text_length-append s ("." <> zone), text_length-append "." zone))
    ])

zone_laws : DnsLaws zone_lib
zone_laws = record {
  sub_domain = λ a b zone ha hb h. below (a <> "." <> b) zone;
  two_labels = λ a b ha hb.
      split_labels-dot "" a b ha.1
      ∙ rw (append.nil a, split_labels-no_dot "" b hb.1, append.nil b) refl;
}

demo-IsLabel : IsLabel "demo"
unfolding string_eq
demo-IsLabel = (λ e. cc, ((refl, refl, (refl, refl, (refl, refl, (refl, refl, tt))))))

default-IsLabel : IsLabel "default"
unfolding string_eq
default-IsLabel = (
  λ e. cc,
  ((
    refl,
    refl,
    (refl, refl, (refl, refl, (refl, refl, (refl, refl, (refl, refl, (refl, refl, tt)))))),
  )),
)

abbrev gateway_ip : Ipv4
gateway_ip = record { b0 = 10; b1 = 96; b2 = 0; b3 = 9 }

abbrev parse_ip : String → Option Ipv4
parse_ip s = if s == "10.96.0.9" then some gateway_ip else none

abbrev served_gateway : Gateway
served_gateway = record gateway {
  status = record gateway.status {
    addresses = record { type = some "IPAddress"; value = "10.96.0.9" } ∷ [];
  };
}

abbrev cache : Store
cache = record {
  has_synced = true;
  get_by_key = λ key. if key == "default/demo" then ok (some served_gateway) else ok none;
}

abbrev handler : Handler
handler = record { zones = default_zone ∷ []; ttl = 30; store = some cache }

abbrev question : Request
question = record {
  q_name = "demo.default.gw.cluster.local.";
  name = "demo.default.gw.cluster.local.";
  q_type = type_a;
  do_bit = false;
}

abbrev silent : Request → List Message → Served (List Message)
silent r w = ((0, none), w)

served-IsPublished : IsPublished parse_ip served_gateway gateway_ip
unfolding string_eq
served-IsPublished = record {
  namespace = λ e. cc;
  name = λ e. cc;
  stays = refl;
  value = "10.96.0.9";
  given = λ e. cc;
  address = refl;
  parsed = refl;
}

listeners-AreValid : AreValid served_gateway.listeners
unfolding AreValid IsSupported AreDistinct allowed_routes_supported
listeners-AreValid =
    ((λ e. cc), omega arith, (((λ e. cc), (λ e. cc), refl, refl), tt), (tt, tt), (tt, tt))

abbrev answer : Message
answer = record {
  rcode = rcode_success;
  authoritative = true;
  answer = a_record "demo.default.gw.cluster.local." 30 gateway_ip ∷ [];
  ns = [];
  sized = false;
}

serve_dns-frontends_example :
    (serve_dns zone_lib parse_ip keep_messages silent handler question []
      ≡ ((rcode_success, none), answer ∷ []))
    × (lookup
          (gateway_to_frontend_map parse_ip served_gateway)
          (frontend_key (key_of served_gateway.meta) "tcp")
        ≡ some (record { address = gateway_ip; port = pos 80 }))
unfolding string_eq text_length drop to_lower
serve_dns-frontends_example =
    serve_dns-frontends zone_lib zone_laws parse_ip silent handler question cache "demo" "default"
      default_zone served_gateway [] gateway_ip listener refl refl refl refl (λ e. cc) refl
      demo-IsLabel default-IsLabel refl (refl, refl, refl) served-IsPublished listeners-AreValid
      (inl refl)
