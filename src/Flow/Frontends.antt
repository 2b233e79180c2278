-- ===== src/Flow/Frontends.antt =====
-- The agent's frontends of a gateway that the controller finds valid.
use clusterip_gw.Base.{
  String, true, false, Option, some, List, [], ◌∷◌, ◌≡◌, ◌≢◌, refl, ap, sym, ◌∙◌, subst, inl, inr,
  string_eq, Member, All, lookup, put, lookup-put, lookup-put_other, arith,
}
use clusterip_gw.Kube.{NamespacedName, key_of, Gateway, Listener}
use clusterip_gw.Meta.{gateway_class_name}
use clusterip_gw.Net.{Ipv4}
use clusterip_gw.Controller.Listeners.Valid.{AreValid, AreDistinct}
use clusterip_gw.Agent.Frontends.{
  FrontendKey, key_eq, Frontend, FrontendMap, frontends_from, address_supported, gateway_supported,
  gateway_to_frontend_map, with_vip, first_address,
}
use clusterip_gw.Agent.Frontends.Supported.{gateway_supported_of_AreValid}

abbrev pub frontend_key : NamespacedName → String → FrontendKey
frontend_key name listener = record { gateway = name; listener = listener }

module _ (name : NamespacedName) (vip : Ipv4) where
  frontends_from-other :
      (out : FrontendMap) (n : String) (ls : List Listener)
      → All (λ l. n ≢ l.name) ls
      → lookup (frontends_from name vip out ls) (frontend_key name n)
        ≡ lookup out (frontend_key name n)
  unfolding frontends_from
  frontends_from-other out n [] apart = refl
  frontends_from-other out n (l ∷ rest) (here, apart) =
      frontends_from-other
        (put out (frontend_key name l.name) (record { address = vip; port = l.port })) n rest apart
      ∙ lookup-put_other out (frontend_key name l.name) (frontend_key name n)
          (record { address = vip; port = l.port }) (λ e. here (sym (ap (λ k. k.listener) e)))

  frontends_from-lookup :
      (out : FrontendMap) (l : Listener) (ls : List Listener)
      → AreDistinct (λ (k : Listener). k.name) ls
      → Member l ls
      → lookup (frontends_from name vip out ls) (frontend_key name l.name)
        ≡ some (record { address = vip; port = l.port })
  unfolding frontends_from AreDistinct
  frontends_from-lookup out l [] d m = absurd m
  frontends_from-lookup out l (k ∷ rest) d (inl e) =
      let f : Frontend = record { address = vip; port = k.port } in
      rw e (
        frontends_from-other (put out (frontend_key name k.name) f) k.name rest d.0
        ∙ lookup-put out (frontend_key name k.name) f)
  frontends_from-lookup out l (k ∷ rest) d (inr m) =
      frontends_from-lookup
        (put out (frontend_key name k.name) (record { address = vip; port = k.port })) l rest d.1 m

-- A gateway with valid listeners, a name, no deletion, the class, and one address.
pub record IsPublished (parse_ipv4 : String → Option Ipv4) (g : Gateway) (vip : Ipv4) : Type 0 where
  pub namespace : g.meta.namespace ≢ ""
  pub name : g.meta.name ≢ ""
  pub stays : g.meta.deleting ≡ false
  pub value : String
  pub given : value ≢ ""
  pub address : g.status.addresses ≡ record { type = some "IPAddress"; value = value } ∷ []
  pub parsed : parse_ipv4 value ≡ some vip

address_supported-one :
    (value : String)
    → value ≢ ""
    → address_supported (record { type = some "IPAddress"; value = value } ∷ []) ≡ true
unfolding address_supported
address_supported-one value h = ground (arith, h)

-- The agent has each listener of such a gateway at the gateway's address and the listener's port.
pub gateway_to_frontend_map-lookup :
    (parse_ipv4 : String → Option Ipv4) (g : Gateway) (vip : Ipv4) (l : Listener)
    → g.gateway_class_name ≡ gateway_class_name
    → AreValid g.listeners
    → IsPublished parse_ipv4 g vip
    → Member l g.listeners
    → lookup (gateway_to_frontend_map parse_ipv4 g) (frontend_key (key_of g.meta) l.name)
      ≡ some (record { address = vip; port = l.port })
unfolding gateway_to_frontend_map with_vip first_address AreValid
gateway_to_frontend_map-lookup parse_ipv4 g vip l class valid p m =
    let taken : gateway_supported g ≡ true = (gateway_supported_of_AreValid g valid).1 (
      p.namespace,
      p.name,
      p.stays,
      class,
      subst (λ a. address_supported a ≡ true) (sym p.address)
          (address_supported-one p.value p.given),
    ) in
    rw taken (
      simp (p.address, p.parsed)
        (frontends_from-lookup (key_of g.meta) vip [] l g.listeners valid.3 m))
