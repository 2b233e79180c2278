-- ===== src/Agent/Handlers/Tracked.antt =====
-- One notice and the two trackers: the maps after a put and after a removal.
use clusterip_gw.Base.{
  String, Option, none, some, List, ◌≡◌, inl, inr, sym, ap, ◌∙◌, subst, ◌==◌, string_eq, ==→≡,
  Bool-cases, lookup, put, remove, lookup-put, lookup-put_other, lookup-remove, lookup-remove_other,
  arith,
}
use clusterip_gw.Kube.{NamespacedName, key_of, Gateway, EndpointSlice}
use clusterip_gw.Net.{Ipv4}
use clusterip_gw.Agent.Frontends.{
  FrontendKey, Frontend, name_eq, key_eq, GatewayTracker, new_gateway_tracker,
  gateway_to_frontend_map, snapshot, snapshot_onto,
}
use clusterip_gw.Agent.Frontends
use clusterip_gw.Agent.Frontends.Tracker.{
  IsWellFormed, update-IsWellFormed, entry, lookup-snapshot, snapshot-update,
}
use clusterip_gw.Agent.Proxier.{State}
use clusterip_gw.Agent.Handlers.Deliveries.{Stores, with_gateway, without_gateway}

module _ (m n : List (NamespacedName × EndpointSlice)) (a : NamespacedName)
    (same : (k : NamespacedName) → lookup m k ≡ lookup n k) where
  pub put_both :
      (e : EndpointSlice) (k : NamespacedName) → lookup (put m a e) k ≡ lookup (put n a e) k
  put_both e k = elim (Bool-cases (a == k)) [
    | inl q ↦
        subst (λ x. lookup (put m a e) x ≡ lookup (put n a e) x) (==→≡ a k q)
          (lookup-put m a e ∙ sym (lookup-put n a e))
    | inr q ↦
        lookup-put_other m a k e (λ x. ground (arith, q, x))
        ∙ (same k ∙ sym (lookup-put_other n a k e (λ x. ground (arith, q, x))))
  ]

  pub remove_both : (k : NamespacedName) → lookup (remove m a) k ≡ lookup (remove n a) k
  remove_both k = elim (Bool-cases (a == k)) [
    | inl q ↦
        subst (λ x. lookup (remove m a) x ≡ lookup (remove n a) x) (==→≡ a k q)
          (lookup-remove m a ∙ sym (lookup-remove n a))
    | inr q ↦
        lookup-remove_other m a k (λ x. ground (arith, q, x))
        ∙ (same k ∙ sym (lookup-remove_other n a k (λ x. ground (arith, q, x))))
  ]

module _ (parse_ipv4 : String → Option Ipv4) where
  -- The frontend that a gateway of the store has under a key.
  unfoldable pub frontend_of : Option Gateway → FrontendKey → Option Frontend
  frontend_of none k = none
  frontend_of (some g) k = lookup (gateway_to_frontend_map parse_ipv4 g) k

  unfoldable pub IsMirrored : Stores → State → Type 0
  IsMirrored s p =
      ((k : FrontendKey)
        → lookup (snapshot p.gateway_tracker) k ≡ frontend_of (lookup s.live_gateways k.gateway) k)
      × ((n : NamespacedName)
          → lookup p.endpoint_tracker.endpoint_slices n ≡ lookup s.live_slices n)

  unfoldable pub IsKept : Stores → State → Type 0
  IsKept s p = IsWellFormed p.gateway_tracker × IsMirrored s p

  module _ (s : Stores) (t : GatewayTracker) (g : Gateway) (h : IsWellFormed t)
      (same : (k : FrontendKey)
        → lookup (snapshot t) k ≡ frontend_of (lookup s.live_gateways k.gateway) k) where
    pub put_gateway :
        (previous : Option Gateway) (k : FrontendKey)
        → lookup (snapshot (Frontends.update parse_ipv4 t previous (some g)).0) k
          ≡ frontend_of (lookup (with_gateway s g).live_gateways k.gateway) k
    unfolding frontend_of
    put_gateway previous k =
        let after = snapshot-update parse_ipv4 t previous g k h in
        elim (Bool-cases (key_of g.meta == k.gateway)) [
          | inl e ↦
              let q = ==→≡ (key_of g.meta) k.gateway e in
              after.0 (sym q)
              ∙ sym (
                  ap (λ o. frontend_of o k)
                    (subst (λ n. lookup (with_gateway s g).live_gateways n ≡ some g) q
                      (lookup-put s.live_gateways (key_of g.meta) g)))
          | inr e ↦
              after.1 (λ q. ground (arith, e, q))
              ∙ (same k
                  ∙ sym (
                      ap (λ o. frontend_of o k)
                        (lookup-put_other s.live_gateways (key_of g.meta) k.gateway g
                          (λ q. ground (arith, e, q)))))
        ]

    pub remove_gateway :
        (k : FrontendKey)
        → lookup (snapshot (Frontends.update parse_ipv4 t (some g) none).0) k
          ≡ frontend_of (lookup (without_gateway s g).live_gateways k.gateway) k
    unfolding frontend_of Frontends.update entry
    remove_gateway k =
        let kept = (update-IsWellFormed parse_ipv4 t (some g) none).1 h in
        rw (lookup-snapshot (Frontends.update parse_ipv4 t (some g) none).0 k kept)
          (elim (Bool-cases (key_of g.meta == k.gateway)) [
            | inl e ↦
                let q = ==→≡ (key_of g.meta) k.gateway e in
                ap (λ o. entry o k)
                  (subst (λ n. lookup (remove t.gateways (key_of g.meta)) n ≡ none) q
                    (lookup-remove t.gateways (key_of g.meta)))
                ∙ sym (
                    ap (λ o. frontend_of o k)
                      (subst (λ n. lookup (without_gateway s g).live_gateways n ≡ none) q
                        (lookup-remove s.live_gateways (key_of g.meta))))
            | inr e ↦
                ap (λ o. entry o k)
                  (lookup-remove_other t.gateways (key_of g.meta) k.gateway
                    (λ q. ground (arith, e, q)))
                ∙ (sym (lookup-snapshot t k h)
                    ∙ (same k
                        ∙ sym (
                            ap (λ o. frontend_of o k)
                              (lookup-remove_other s.live_gateways (key_of g.meta) k.gateway
                                (λ q. ground (arith, e, q))))))
          ])
