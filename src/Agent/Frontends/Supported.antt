-- ===== src/Agent/Frontends/Supported.antt =====
-- The agent takes every gateway whose listeners the controller finds valid.
use clusterip_gw.Base.{
  ℤ, String, true, false, List, [], ◌∷◌, ◌≡◌, ◌≢◌, ◌↔◌, refl, length, contains, All, string_eq,
  int_eq, nat_eq, Eq, arith,
}
use clusterip_gw.Kube.{Gateway, Listener}
use clusterip_gw.Meta.{gateway_class_name}
use clusterip_gw.Controller.Listeners.Valid.{IsSupported, AreDistinct, AreValid}
use clusterip_gw.Agent.Frontends.{listeners_supported, address_supported, gateway_supported}

module _ {A : Type 0} ⦃e : Eq A⦄ (f : Listener → A) where
  -- No listener's field is among the values that were seen.
  abbrev AreNew : List A → List Listener → Type 0
  AreNew seen ls = All (λ l. contains seen (f l) ≡ false) ls

  see :
      (seen : List A) (l : Listener) (ls : List Listener)
      → AreNew seen ls
      → All (λ k. f l ≢ f k) ls
      → AreNew (f l ∷ seen) ls
  see seen l [] h d = tt
  see seen l (k ∷ ls) h d = ground (arith, h.0, d.0, see seen l ls h.1 d.1)

listeners_supported_of :
    (names : List String) (ports : List ℤ) (ls : List Listener)
    → All IsSupported ls
    → AreDistinct (λ (l : Listener). l.name) ls
    → AreDistinct (λ (l : Listener). l.port) ls
    → AreNew (λ (l : Listener). l.name) names ls
    → AreNew (λ (l : Listener). l.port) ports ls
    → listeners_supported names ports ls ≡ true
unfolding listeners_supported AreDistinct IsSupported
listeners_supported_of names ports [] s dn dp nn np = refl
listeners_supported_of names ports (l ∷ ls) s dn dp nn np =
    let later =
      listeners_supported_of (l.name ∷ names) (l.port ∷ ports) ls s.1 dn.1 dp.1
        (see (λ (k : Listener). k.name) names l ls nn.1 dn.0)
        (see (λ (k : Listener). k.port) ports l ls np.1 dp.0) in
    ground (arith, later, s.0, nn.0, np.0)

all_new : {A : Type 0} ⦃e : Eq A⦄ (f : Listener → A) (ls : List Listener) → AreNew f [] ls
all_new f [] = tt
all_new f (l ∷ ls) = (refl, all_new f ls)

non_empty : (ls : List Listener) → ls ≢ [] → length ls ≢ 0
non_empty [] n e = n refl
non_empty (l ∷ ls) n e = ground (arith, e)

-- A gateway with valid listeners is supported by the agent exactly when it has a namespace and a name, is not
-- being deleted, is of the managed class and has one address, of the type IPAddress and with a value.
pub gateway_supported_of_AreValid :
    (g : Gateway)
    → AreValid g.listeners
    → (gateway_supported g ≡ true) ↔ (
        (g.meta.namespace ≢ "")
        × (g.meta.name ≢ "")
        × (g.meta.deleting ≡ false)
        × (g.gateway_class_name ≡ gateway_class_name)
        × (address_supported g.status.addresses ≡ true))
unfolding gateway_supported AreValid
gateway_supported_of_AreValid g (full, short, each, names, ports) =
    let walk =
      listeners_supported_of [] [] g.listeners each names ports
        (all_new (λ (k : Listener). k.name) g.listeners)
        (all_new (λ (k : Listener). k.port) g.listeners) in
    let some_listener = non_empty g.listeners full in ground (arith, short, walk, some_listener)
