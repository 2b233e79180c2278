-- ===== src/Agent/Frontends/Tracker.antt =====
-- The tracker of gateways as a map from the names of gateways, and what a snapshot of it holds.
use clusterip_gw.Base.{
  String, not, Option, none, some, List, [], ◌∷◌, ◌==◌, nat_eq, ◌≡◌, ◌≢◌, inl, inr, refl, sym, ap,
  ◌∙◌, string_eq, int_eq, length, All, lookup, put, remove, remove-All, put-All, Unique, put-Unique,
  remove-Unique, lookup-apart, or_else, subst, ==→≡, lookup-put, lookup-put_other, lookup-remove,
  lookup-remove_other, Bool-cases, if_both, arith,
}
use clusterip_gw.Kube.{NamespacedName, key_of, Gateway, Listener}
use clusterip_gw.Net.{Ipv4}
use clusterip_gw.Agent.Frontends.{
  FrontendKey, Frontend, FrontendMap, name_eq, key_eq, GatewayTracker, new_gateway_tracker, update,
  frontends_from, gateway_supported, first_address, gateway_to_frontend_map, with_vip, put_all,
  snapshot_onto, snapshot,
}

-- All the keys of the map are of one gateway.
IsOf : NamespacedName → FrontendMap → Type 0
IsOf name = All (λ kf. kf.0.gateway ≡ name)

frontends_from-IsOf :
    (name : NamespacedName) (vip : Ipv4) (ls : List Listener) (out : FrontendMap)
    → IsOf name out
    → IsOf name (frontends_from name vip out ls)
unfolding frontends_from IsOf
frontends_from-IsOf name vip [] out h = h
frontends_from-IsOf name vip (l ∷ rest) out h =
    frontends_from-IsOf name vip rest _ (put-All (λ kf. kf.0.gateway ≡ name) out _ _ refl h)

frontends_from-Unique :
    (name : NamespacedName) (vip : Ipv4) (ls : List Listener) (out : FrontendMap)
    → Unique out
    → Unique (frontends_from name vip out ls)
unfolding frontends_from
frontends_from-Unique name vip [] out h = h
frontends_from-Unique name vip (l ∷ rest) out h =
    frontends_from-Unique name vip rest _ (put-Unique out _ _ h)

-- Each gateway has one entry, and the entry has each of its keys once, all of that gateway.
pub IsWellFormed : GatewayTracker → Type 0
IsWellFormed t = Unique t.gateways × All (λ e. IsOf e.0 e.1 × Unique e.1) t.gateways

-- The frontend that the entry of a gateway has under a key.
unfoldable pub entry : Option FrontendMap → FrontendKey → Option Frontend
entry none k = none
entry (some m) k = lookup m k

lookup_foreign :
    (name : NamespacedName) (m : FrontendMap) (k : FrontendKey)
    → IsOf name m
    → name ≢ k.gateway
    → lookup m k ≡ none
unfolding lookup IsOf
lookup_foreign name [] k own n = refl
lookup_foreign name ((j, f) ∷ rest) k (own, h) n = elim (Bool-cases (j == k)) [
  | inl same ↦ absurd (n (sym own ∙ ap (λ x. x.gateway) (==→≡ j k same)))
  | inr other ↦ rw other (lookup_foreign name rest k h n)
]

lookup-put_all :
    (m out : FrontendMap) (k : FrontendKey)
    → Unique m
    → lookup (put_all out m) k ≡ or_else (lookup m k) (lookup out k)
unfolding put_all lookup
lookup-put_all [] out k u = refl
lookup-put_all ((j, f) ∷ rest) out k (apart, u) = elim (Bool-cases (j == k)) [
  | inl same ↦
      let e = ==→≡ j k same in
      rw same (
        lookup-put_all rest (put out j f) k u
        ∙ (ap (λ o. or_else o (lookup (put out j f) k))
              (lookup-apart rest k (subst (λ x. All (λ e. x ≢ e.0) rest) e apart))
            ∙ subst (λ x. lookup (put out j f) x ≡ some f) e (lookup-put out j f)))
  | inr other ↦ rw other (
      lookup-put_all rest (put out j f) k u
      ∙ ap (or_else (lookup rest k)) (lookup-put_other out j k f (λ e. ground (arith, other, e))))
]

lookup-snapshot_onto :
    (es : List (NamespacedName × FrontendMap)) (out : FrontendMap) (k : FrontendKey)
    → Unique es
    → All (λ e. IsOf e.0 e.1 × Unique e.1) es
    → lookup (snapshot_onto out es) k ≡ or_else (entry (lookup es k.gateway) k) (lookup out k)
unfolding snapshot_onto entry lookup
lookup-snapshot_onto [] out k u h = refl
lookup-snapshot_onto ((name, m) ∷ rest) out k (apart, u) ((own, um), h) =
    elim (Bool-cases (name == k.gateway)) [
      | inl same ↦
          let fresh = subst (λ x. All (λ e. x ≢ e.0) rest) (==→≡ name k.gateway same) apart in
          rw same (
            lookup-snapshot_onto rest (put_all out m) k u h
            ∙ (ap (λ o. or_else (entry o k) (lookup (put_all out m) k))
                  (lookup-apart rest k.gateway fresh)
                ∙ lookup-put_all m out k um))
      | inr other ↦ rw other (
          lookup-snapshot_onto rest (put_all out m) k u h
          ∙ ap (or_else (entry (lookup rest k.gateway) k)) (
              lookup-put_all m out k um
              ∙ ap (λ o. or_else o (lookup out k))
                  (lookup_foreign name m k own (λ e. ground (arith, other, e)))))
    ]

or_else-none : {A : Type 0} (o : Option A) → or_else o none ≡ o
or_else-none none = refl
or_else-none (some a) = refl

-- A snapshot of a well-formed tracker holds under a key what the entry of the key's gateway holds.
pub lookup-snapshot :
    (t : GatewayTracker) (k : FrontendKey)
    → IsWellFormed t
    → lookup (snapshot t) k ≡ entry (lookup t.gateways k.gateway) k
unfolding snapshot IsWellFormed lookup
lookup-snapshot t k (u, h) =
    lookup-snapshot_onto t.gateways [] k u h ∙ or_else-none (entry (lookup t.gateways k.gateway) k)

IsOwn : Gateway → FrontendMap → Type 0
IsOwn g m = IsOf (key_of g.meta) m × Unique m

module _ (parse_ipv4 : String → Option Ipv4) where
  with_vip-IsOwn : (g : Gateway) (vip : Option Ipv4) → IsOwn g (with_vip parse_ipv4 g vip)
  unfolding with_vip IsOwn IsOf
  with_vip-IsOwn g none = (tt, tt)
  with_vip-IsOwn g (some vip) = (
    frontends_from-IsOf (key_of g.meta) vip g.listeners [] tt,
    frontends_from-Unique (key_of g.meta) vip g.listeners [] tt,
  )

  empty-IsOwn : (g : Gateway) → IsOwn g []
  unfolding IsOwn IsOf
  empty-IsOwn g = (tt, tt)

  gateway_to_frontend_map-IsOwn : (g : Gateway) → IsOwn g (gateway_to_frontend_map parse_ipv4 g)
  unfolding gateway_to_frontend_map
  gateway_to_frontend_map-IsOwn g =
      if_both (IsOwn g) (not (gateway_supported g)) _ _ (empty-IsOwn g)
        (with_vip-IsOwn g (first_address parse_ipv4 g.status.addresses))

  -- An update keeps the tracker well formed, and a new tracker is.
  pub update-IsWellFormed :
      (t : GatewayTracker) (previous current : Option Gateway)
      → IsWellFormed new_gateway_tracker
        × (IsWellFormed t → IsWellFormed (update parse_ipv4 t previous current).0)
  unfolding update IsWellFormed new_gateway_tracker IsOwn
  update-IsWellFormed t none none = ((tt, tt), λ h. h)
  update-IsWellFormed t (some p) none =
      ((tt, tt), λ (u, h). (remove-Unique t.gateways _ u, remove-All _ t.gateways _ h))
  update-IsWellFormed t previous (some g) =
      let empty = length (gateway_to_frontend_map parse_ipv4 g) == 0 in
      (
        (tt, tt),
        λ (u, h). (
          if_both Unique empty _ _ (remove-Unique t.gateways _ u) (put-Unique t.gateways _ _ u),
          if_both (All (λ e. IsOf e.0 e.1 × Unique e.1)) empty _ _ (remove-All _ t.gateways _ h)
              (put-All _ t.gateways _ _ (gateway_to_frontend_map-IsOwn g) h),
        ),
      )

  no_frontends : (m : FrontendMap) (k : FrontendKey) → length m ≡ 0 → lookup m k ≡ none
  unfolding lookup
  no_frontends [] k e = refl
  no_frontends (kf ∷ rest) k e = ground (arith, e)

  module _ (t : GatewayTracker) (previous : Option Gateway) (g : Gateway) (k : FrontendKey)
      (h : IsWellFormed t) where
    abbrev name : NamespacedName
    name = key_of g.meta

    abbrev made : FrontendMap
    made = gateway_to_frontend_map parse_ipv4 g

    abbrev after : GatewayTracker
    after = (update parse_ipv4 t previous (some g)).0

    updated_snapshot : lookup (snapshot after) k ≡ entry (lookup after.gateways k.gateway) k
    updated_snapshot = lookup-snapshot after k ((update-IsWellFormed t previous (some g)).1 h)

    -- After an update with a gateway, a snapshot has for that gateway's keys what gatewayToFrontendMap makes of it, and
    -- for all other keys what it had.
    pub snapshot-update :
        (k.gateway ≡ key_of g.meta
          → lookup (snapshot after) k ≡ lookup (gateway_to_frontend_map parse_ipv4 g) k)
        × (k.gateway ≢ key_of g.meta → lookup (snapshot after) k ≡ lookup (snapshot t) k)
    unfolding update entry
    snapshot-update =
        rw (updated_snapshot, lookup-snapshot t k h)
          (elim (Bool-cases (length (gateway_to_frontend_map parse_ipv4 g) == 0)) [
            | inl e ↦ rw e (
              λ same.
                  ap (λ n. entry (lookup (remove t.gateways name) n) k) same
                  ∙ (ap (λ o. entry o k) (lookup-remove t.gateways name)
                      ∙ sym (no_frontends made k (==→≡ _ _ e))),
              λ other.
                  ap (λ o. entry o k)
                    (lookup-remove_other t.gateways name k.gateway (λ x. other (sym x))),
            )
            | inr e ↦ rw e (
              λ same.
                  ap (λ n. entry (lookup (put t.gateways name made) n) k) same
                  ∙ ap (λ o. entry o k) (lookup-put t.gateways name made),
              λ other.
                  ap (λ o. entry o k)
                    (lookup-put_other t.gateways name k.gateway made (λ x. other (sym x))),
            )
          ])
