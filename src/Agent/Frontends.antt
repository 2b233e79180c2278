-- ===== src/Agent/Frontends.antt =====
-- internal/agent/state: types.go, frontend.go and gatewaytracker.go. The tracker's lock makes each of
-- its methods one step. `parse_ipv4` is `net.ParseIP` followed by `To4`.
pub mod Tracker
pub mod Supported
use clusterip_gw.Base.{
  ℕ, ℤ, pos, String, Bool, true, false, not, Option, none, some, List, [], ◌∷◌, ◌++◌, ◌==◌, ◌!=◌,
  ◌||◌, nat_eq, string_eq, int_eq, option_eq, if◌then◌else◌, ltb, length, contains, Eq, put, remove,
  ◌<>◌, ◌≡◌, ap, ap₂, dite,
}
use clusterip_gw.Kube.{NamespacedName, key_of, Gateway, GatewayAddress, Listener}
use clusterip_gw.Net.{Ipv4}
use clusterip_gw.Meta.{gateway_class_name, max_supported_gateway_listeners}
use clusterip_gw.Controller.Refs.{namespaced_key}

pub record FrontendKey : Type 0 where
  pub gateway : NamespacedName
  pub listener : String

pub record Frontend : Type 0 where
  pub address : Ipv4
  pub port : ℤ

abbrev name_dec : Discrete NamespacedName
name_dec a b =
    dite (string_eq.dec a.namespace b.namespace)
      (λ p.
        dite (string_eq.dec a.name b.name)
          (λ q. yes (ap₂ (λ x y. record { namespace = x; name = y }) p q))
          (λ n. no (λ e. n (ap (λ k. k.name) e))))
      (λ n. no (λ e. n (ap (λ k. k.namespace) e)))

instance unfoldable pub name_eq : Eq NamespacedName
name_eq = record { dec = name_dec }

abbrev key_dec : Discrete FrontendKey
key_dec a b =
    dite (name_dec a.gateway b.gateway)
      (λ p.
        dite (string_eq.dec a.listener b.listener)
          (λ q. yes (ap₂ (λ x y. record { gateway = x; listener = y }) p q))
          (λ n. no (λ e. n (ap (λ k. k.listener) e))))
      (λ n. no (λ e. n (ap (λ k. k.gateway) e)))

instance unfoldable pub key_eq : Eq FrontendKey
key_eq = record { dec = key_dec }

-- FrontendKey.String
unfoldable pub key_string : FrontendKey → String
key_string k =
    if k.listener == ""
    then namespaced_key k.gateway
    else namespaced_key k.gateway <> ":" <> k.listener

abbrev pub FrontendMap : Type 0
FrontendMap = List (FrontendKey × Frontend)

-- The loop over the listeners, with the names and ports that were seen.
unfoldable pub listeners_supported : List String → List ℤ → List Listener → Bool
listeners_supported names ports [] = true
listeners_supported names ports (l ∷ rest) =
    let later = listeners_supported (l.name ∷ names) (l.port ∷ ports) rest in
    if l.protocol != "TCP" || l.name == "" || l.port == pos 0
    then false
    else if contains names l.name
    then false
    else if contains ports l.port
    then false
    else later

unfoldable pub address_supported : List GatewayAddress → Bool
address_supported (a ∷ []) = if a.type != some "IPAddress" || a.value == "" then false else true
address_supported _ = false

unfoldable pub gateway_supported : Gateway → Bool
gateway_supported g =
    if g.meta.namespace == "" || g.meta.name == ""
    then false
    else if g.meta.deleting
    then false
    else if g.gateway_class_name != gateway_class_name
    then false
    else if length g.listeners == 0 || ltb max_supported_gateway_listeners (length g.listeners)
    then false
    else if not (listeners_supported [] [] g.listeners)
    then false
    else address_supported g.status.addresses

unfoldable pub frontends_from : NamespacedName → Ipv4 → FrontendMap → List Listener → FrontendMap
frontends_from name vip out [] = out
frontends_from name vip out (l ∷ rest) =
    frontends_from name vip
      (put out (record { gateway = name; listener = l.name })
        (record { address = vip; port = l.port }))
      rest

-- GatewayChangeTracker
pub record GatewayTracker : Type 0 where
  pub gateways : List (NamespacedName × FrontendMap)

-- NewGatewayChangeTracker
unfoldable pub new_gateway_tracker : GatewayTracker
new_gateway_tracker = record { gateways = [] }

module _ (parse_ipv4 : String → Option Ipv4) where
  unfoldable pub with_vip : Gateway → Option Ipv4 → FrontendMap
  with_vip g none = []
  with_vip g (some vip) = frontends_from (key_of g.meta) vip [] g.listeners

  unfoldable pub first_address : List GatewayAddress → Option Ipv4
  first_address [] = none
  first_address (a ∷ rest) = parse_ipv4 a.value

  -- A nil map and an empty one are not told apart.
  unfoldable pub gateway_to_frontend_map : Gateway → FrontendMap
  unfolding with_vip first_address
  gateway_to_frontend_map g =
      if not (gateway_supported g) then [] else with_vip g (first_address g.status.addresses)

  -- GatewayChangeTracker.Update, with whether it recorded something.
  unfoldable pub update : GatewayTracker → Option Gateway → Option Gateway → GatewayTracker × Bool
  update t none none = (t, false)
  update t (some previous) none =
      (record { gateways = remove t.gateways (key_of previous.meta) }, true)
  update t previous (some g) = (
    record {
      gateways =
          if length (gateway_to_frontend_map g) == 0
          then remove t.gateways (key_of g.meta)
          else put t.gateways (key_of g.meta) (gateway_to_frontend_map g);
    },
    true,
  )

-- GatewayChangeTracker.Snapshot
unfoldable pub put_all : FrontendMap → FrontendMap → FrontendMap
put_all out [] = out
put_all out ((k, f) ∷ rest) = put_all (put out k f) rest

unfoldable pub snapshot_onto : FrontendMap → List (NamespacedName × FrontendMap) → FrontendMap
snapshot_onto out [] = out
snapshot_onto out ((name, m) ∷ rest) = snapshot_onto (put_all out m) rest

unfoldable pub snapshot : GatewayTracker → FrontendMap
snapshot t = snapshot_onto [] t.gateways
