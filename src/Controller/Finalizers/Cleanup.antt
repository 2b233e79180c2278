-- ===== src/Controller/Finalizers/Cleanup.antt =====
-- A gateway's finalizer goes only after its reservations.
use clusterip_gw.Base.{
  String, true, false, List, [], ◌∷◌, ◌≡◌, inl, inr, refl, sym, ap₂, ◌∙◌, subst, some-injective,
  string_eq, contains, Member, some, Result, ok, not_found, already_exists, other, Result-cases,
  ignore_result, Bool-cases, arith,
}
use clusterip_gw.Kube.{Gateway, IpAddress, key_of}
use clusterip_gw.Controller.{controller_finalizer, Client, Informers}
use clusterip_gw.Controller.Ipam.{
  delete_string, delete_ip_addresses, list_owned_gateway_ip_addresses, release_gateway_ip_addresses,
}
use clusterip_gw.Controller.Server.{ignore_result-ok, Server}
use clusterip_gw.Controller.Finalizers.{
  has_finalizer, with_finalizers, drop_finalizer, after_get, remove_gateway_finalizer,
  cleanup_gateway_resources,
}

pub pair-eq : {A B : Type 0} {p : A × B} {a : A} {b : B} → p.0 ≡ a → p.1 ≡ b → p ≡ (a, b)
pair-eq e f = ap₂ (λ x y. (x, y)) e f

pub with_result : {A B : Type 0} {p : A × B} {a : A} → p.0 ≡ a → p ≡ (a, p.1)
with_result e = pair-eq e refl

module _ {W : Type 0} (client : Client W) (s : Server W client) where
  abbrev Released : W → List IpAddress → Type 0
  Released w owned = (ip : IpAddress) → Member ip owned → s.reserved w ip.meta.name ≡ false

  delete_ip_addresses-reserved :
      (xs : List IpAddress) (m : String) (w : W)
      → s.reserved w m ≡ false
      → s.reserved (delete_ip_addresses client xs w).1 m ≡ false
  unfolding delete_ip_addresses
  delete_ip_addresses-reserved [] m w h = h
  delete_ip_addresses-reserved (x ∷ xs) m w h =
      let first = s.delete_ip_address-reserved x.meta.name m w h in
      elim (Result-cases (ignore_result (client.delete_ip_address x.meta.name w).0)) [
        | inl (u, e) ↦ rw e (delete_ip_addresses-reserved xs m _ first)
        | inr (x', e) ↦ rw e first
      ]

  delete_ip_addresses-gateways :
      (xs : List IpAddress) (ns n : String) (w : W)
      → s.gateway_at (delete_ip_addresses client xs w).1 ns n ≡ s.gateway_at w ns n
  unfolding delete_ip_addresses
  delete_ip_addresses-gateways [] ns n w = refl
  delete_ip_addresses-gateways (x ∷ xs) ns n w =
      let first = s.delete_ip_address-gateways x.meta.name ns n w in
      elim (Result-cases (ignore_result (client.delete_ip_address x.meta.name w).0)) [
        | inl (u, e) ↦ rw e (delete_ip_addresses-gateways xs ns n _ ∙ first)
        | inr (x', e) ↦ rw e first
      ]

  delete_ip_addresses-ok :
      (xs : List IpAddress) (w : W)
      → (delete_ip_addresses client xs w).0 ≡ ok tt
      → Released (delete_ip_addresses client xs w).1 xs
  unfolding delete_ip_addresses
  delete_ip_addresses-ok [] w = λ h ip m. absurd m
  delete_ip_addresses-ok (x ∷ xs) w =
      elim (Result-cases (ignore_result (client.delete_ip_address x.meta.name w).0)) [
        | inl (u, e) ↦ rw e (λ h ip m. elim m [
          | inl same ↦ rw same (
              delete_ip_addresses-reserved xs x.meta.name _
                (s.delete_ip_address-gone x.meta.name w (ignore_result-ok _ u e)))
          | inr later ↦ delete_ip_addresses-ok xs _ h ip later
        ])
        | inr (x', e) ↦ rw e (λ h ip m. cc)
      ]

  -- The gateway, if it is still there, does not hold the finalizer.
  abbrev Unprotected : W → Gateway → Type 0
  Unprotected w g =
      (h : Gateway) → s.gateway_at w g.meta.namespace g.meta.name ≡ some h → has_finalizer h ≡ false

  -- `slices.DeleteFunc` leaves no such string.
  contains-delete_string : (xs : List String) (x : String) → contains (delete_string xs x) x ≡ false
  unfolding delete_string
  contains-delete_string [] x = refl
  contains-delete_string (y ∷ xs) x = ground (arith, contains-delete_string xs x)

  drop_finalizer-ok :
      (g : Gateway) (ns n : String) (w : W)
      → s.gateway_at w ns n ≡ some g
      → g.meta.namespace ≡ ns
      → g.meta.name ≡ n
      → (drop_finalizer client g w).0 ≡ ok tt
      → (h : Gateway) → s.gateway_at (drop_finalizer client g w).1 ns n ≡ some h
      → has_finalizer h ≡ false
  unfolding drop_finalizer has_finalizer with_finalizers
  drop_finalizer-ok g ns n w here its_ns its_n =
      elim (Bool-cases (contains g.meta.finalizers controller_finalizer)) [
        | inl e ↦ rw e (λ o h found.
            let finalizers = delete_string g.meta.finalizers controller_finalizer in
            let kept =
              s.update_gateway-gone (with_finalizers g finalizers) w (ignore_result-ok _ tt o) h (
                ap₂ (s.gateway_at (client.update_gateway (with_finalizers g finalizers) w).1) its_ns
                  its_n
                ∙ found) in
            rw kept (contains-delete_string g.meta.finalizers controller_finalizer))
        | inr e ↦ rw e (λ o h found.
            let same : some g ≡ some h = sym here ∙ found in
            subst (λ x. contains x.meta.finalizers controller_finalizer ≡ false)
              (some-injective g h same) e)
      ]

  remove_gateway_finalizer-ok :
      (g : Gateway) (w : W)
      → (remove_gateway_finalizer client g w).0 ≡ ok tt
      → Unprotected (remove_gateway_finalizer client g w).1 g
  unfolding remove_gateway_finalizer after_get
  remove_gateway_finalizer-ok g w =
      let world = s.get_gateway-world g.meta.namespace g.meta.name w in
      elim (Result-cases (client.get_gateway g.meta.namespace g.meta.name w).0) [
        | inl (current, e) ↦
            let (there, ns, n) = s.get_gateway-ok g.meta.namespace g.meta.name w current e in
            rw (pair-eq e world) (drop_finalizer-ok current _ _ w there ns n)
        | inr (not_found m, e) ↦
            let none_there = s.get_gateway-not_found g.meta.namespace g.meta.name w _ e refl in
            rw (pair-eq e world) (λ o h found. cc)
        | inr (already_exists m, e) ↦ rw (pair-eq e world) (λ o. cc)
        | inr (other m, e) ↦ rw (pair-eq e world) (λ o. cc)
      ]

  remove_gateway_finalizer-reserved :
      (g : Gateway) (m : String) (w : W)
      → s.reserved (remove_gateway_finalizer client g w).1 m ≡ s.reserved w m
  unfolding remove_gateway_finalizer after_get drop_finalizer
  remove_gateway_finalizer-reserved g m w =
      let world = s.get_gateway-world g.meta.namespace g.meta.name w in
      elim (Result-cases (client.get_gateway g.meta.namespace g.meta.name w).0) [
        | inl (current, e) ↦ rw (pair-eq e world) (elim (Bool-cases (has_finalizer current)) [
          | inl has ↦ rw has (s.update_gateway-reserved _ w m)
          | inr hasn't ↦ rw hasn't refl
        ])
        | inr (not_found x, e) ↦ rw (pair-eq e world) refl
        | inr (already_exists x, e) ↦ rw (pair-eq e world) refl
        | inr (other x, e) ↦ rw (pair-eq e world) refl
      ]

  module _ (inf : Informers) (g : Gateway) (w : W) (owned : List IpAddress)
      (listed : list_owned_gateway_ip_addresses inf (key_of g.meta) ≡ ok owned) where
    deleted :
        {r : Result (Unit {0})}
        → (delete_ip_addresses client owned w).0 ≡ r
        → delete_ip_addresses client owned w ≡ (r, (delete_ip_addresses client owned w).1)
    deleted e = pair-eq e refl

    -- When the cleanup of a gateway ends without an error, the reservations that the informer showed of it are gone,
    -- and the gateway, if it is still there, does not hold the finalizer.
    pub cleanup_gateway_resources-ok :
        (cleanup_gateway_resources client inf g w).0 ≡ ok tt
        → ((ip : IpAddress)
            → Member ip owned
            → s.reserved (cleanup_gateway_resources client inf g w).1 ip.meta.name ≡ false)
          × ((h : Gateway)
              → s.gateway_at
                  (cleanup_gateway_resources client inf g w).1
                  g.meta.namespace
                  g.meta.name
                ≡ some h
              → has_finalizer h ≡ false)
    unfolding cleanup_gateway_resources release_gateway_ip_addresses
    cleanup_gateway_resources-ok =
        rw listed (elim (Result-cases (delete_ip_addresses client owned w).0) [
          | inl (u, e) ↦ rw (deleted e) (λ o. (
            λ ip m.
                remove_gateway_finalizer-reserved g ip.meta.name _
                ∙ delete_ip_addresses-ok owned w e ip m,
            remove_gateway_finalizer-ok g _ o,
          ))
          | inr (x, e) ↦ rw (deleted e) (λ o. cc)
        ])

    -- As long as a reservation that the informer's cache lists for the gateway is left after its cleanup, the cleanup
    -- changed no gateway, so that it did not remove the finalizer.
    pub cleanup_gateway_resources-protects :
        (ip : IpAddress)
        → Member ip owned
        → s.reserved (cleanup_gateway_resources client inf g w).1 ip.meta.name ≡ true
        → (ns n : String)
        → s.gateway_at (cleanup_gateway_resources client inf g w).1 ns n ≡ s.gateway_at w ns n
    unfolding cleanup_gateway_resources release_gateway_ip_addresses
    cleanup_gateway_resources-protects ip m =
        rw listed (elim (Result-cases (delete_ip_addresses client owned w).0) [
          | inl (u, e) ↦ rw (deleted e) (λ left ns n.
              let gone =
                remove_gateway_finalizer-reserved g ip.meta.name _
                ∙ delete_ip_addresses-ok owned w e ip m in
              ground (arith, left, gone))
          | inr (x, e) ↦ rw (deleted e) (λ left ns n. delete_ip_addresses-gateways owned ns n w)
        ])
