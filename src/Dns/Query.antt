-- ===== src/Dns/Query.antt =====
-- Names in a zone. `DnsLaws` is the documented behaviour of miekg/dns that the plugin relies on.
use text.Mathlib.TextLemmas.{append_assoc}
use clusterip_gw.Base.{
  ◌≡◌, ◌≢◌, refl, ap, sym, ◌∙◌, inl, inr, String, true, false, some, [], ◌∷◌, ◌==◌, string_eq,
  Bool-cases, text_length, text_length-append, trim_suffix, trim_suffix-append, ◌<>◌, arith,
}
use clusterip_gw.Dns.{DnsLibrary, parse_gateway_query}

abbrev pub HasNoDot : String → Type 0
HasNoDot String.[] = Unit
HasNoDot (String.◌∷◌ c s) =
    ((String.◌∷◌ c String.[] == ".") ≡ false)
    × ((String.◌∷◌ c String.[] == "\\") ≡ false)
    × HasNoDot s

-- A label of a name, without escapes.
abbrev pub IsLabel : String → Type 0
IsLabel s = (s ≢ "") × HasNoDot s

abbrev pub query_name : String → String → String → String
query_name name namespace zone = (name <> "." <> namespace) <> "." <> zone

pub record DnsLaws (lib : DnsLibrary) : Type 0 where
  pub sub_domain :
      (a b zone : String)
      → IsLabel a
      → IsLabel b
      → zone ≢ ""
      → lib.is_sub_domain zone (query_name a b zone) ≡ true
  pub two_labels :
      (a b : String) → IsLabel a → IsLabel b → lib.split_domain_name (a <> "." <> b) ≡ a ∷ b ∷ []

longer : (s zone : String) → ((s <> "." <> zone) == zone) ≡ false
unfolding text_length
longer s zone = elim (Bool-cases ((s <> "." <> zone) == zone)) [
  | inl e ↦
      let same : s <> "." <> zone ≡ zone = ground (arith, e) in
      let long : text_length (s <> "." <> zone) ≡ text_length zone = ap text_length same in
      absurd (omega (arith, long, text_length-append s ("." <> zone), text_length-append "." zone))
  | inr e ↦ e
]

in_front : (s zone : String) → trim_suffix (trim_suffix (s <> "." <> zone) zone) "." ≡ s
in_front s zone =
    ap (λ t. trim_suffix (trim_suffix t zone) ".") (sym (append_assoc s "." zone))
    ∙ ap (λ t. trim_suffix t ".") (trim_suffix-append (s <> ".") zone)
    ∙ trim_suffix-append s "."

-- The name of a gateway in a zone is read as the gateway's name and namespace, when both are labels.
pub parse_gateway_query-query_name :
    (lib : DnsLibrary)
    → DnsLaws lib
    → (name namespace zone : String) → IsLabel name
    → IsLabel namespace
    → zone ≢ ""
    → parse_gateway_query lib (query_name name namespace zone) zone ≡ some (name, namespace)
unfolding parse_gateway_query
parse_gateway_query-query_name lib laws name namespace zone hn hs hz =
    rw
      (
        laws.sub_domain name namespace zone hn hs hz,
        longer (name <> "." <> namespace) zone,
        in_front (name <> "." <> namespace) zone,
        laws.two_labels name namespace hn hs,
      )
      refl
