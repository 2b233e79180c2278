-- ===== src/Controller/Handlers/Tasks.antt =====
-- Which objects an event makes the workers look at.
use clusterip_gw.Base.{
  ◌≡◌, ◌⊎◌, refl, ap, sym, subst, inl, inr, String, false, List, [], ◌∷◌, ◌++◌, ◌==◌, ◌||◌,
  string_eq, Member, append-Member, ok, arith, ◌≢◌,
}
use clusterip_gw.Kube.{key_of, Gateway, TcpRoute, NamespacedName}
use clusterip_gw.Controller.Refs.{
  namespaced_key, route_gateway_parent_keys, route_backend_endpoint_selector_keys,
}
use clusterip_gw.Controller.Handlers.{
  Task, gateway_task, route_task, selector_task, Indexes, gateway_event, route_updated,
  enqueue_named, enqueue_keys, for_each, for_items, enqueue_gateway_parents_for_route,
  enqueue_endpoint_selectors_for_route, enqueue_routes_for_gateway, handle,
}

in_front : (t : Task) (xs ys : List Task) → Member t xs → Member t (xs ++ ys)
in_front t xs ys m = append-Member t xs ys (inl m)

behind : (t : Task) (xs ys : List Task) → Member t ys → Member t (xs ++ ys)
behind t xs ys m = append-Member t xs ys (inr m)

keys-Member :
    (task : String → Task) (k : String) (ks : List String)
    → Member k ks
    → Member (task k) (enqueue_keys task ks)
unfolding enqueue_keys
keys-Member task k [] m = m
keys-Member task k (x ∷ rest) (inl e) = inl (ap task e)
keys-Member task k (x ∷ rest) (inr m) = inr (keys-Member task k rest m)

for_each-Member :
    {A : Type 0} (f : A → List Task) (t : Task) (a : A) (xs : List A)
    → Member a xs
    → Member t (f a)
    → Member t (for_each f xs)
unfolding for_each
for_each-Member f t a [] m h = absurd m
for_each-Member f t a (x ∷ rest) (inl e) h =
    append-Member t (f x) (for_each f rest) (inl (subst (λ b. Member t (f b)) e h))
for_each-Member f t a (x ∷ rest) (inr m) h =
    append-Member t (f x) (for_each f rest) (inr (for_each-Member f t a rest m h))

-- An object with a name and a namespace, as all objects of the cache are.
abbrev pub IsNamed : NamespacedName → Type 0
IsNamed key = (key.namespace ≢ "") × (key.name ≢ "")

named-Member :
    (task : String → Task) (key : NamespacedName)
    → IsNamed key
    → Member (task (namespaced_key key)) (enqueue_named task key)
unfolding enqueue_named
named-Member task key (hs, hn) =
    let given : (key.namespace == "" || key.name == "") ≡ false = ground (arith, hs, hn) in
    rw given (inl refl)

module _ (ix : Indexes) where
  route_updated-parts :
      (old new : TcpRoute)
      → IsNamed (key_of new.meta)
      → Member (route_task (namespaced_key (key_of new.meta))) (handle ix (route_updated old new))
        × ((k : String)
            → Member k (route_gateway_parent_keys old) ⊎ Member k (route_gateway_parent_keys new)
            → Member (gateway_task k) (handle ix (route_updated old new)))
        × ((k : String)
            → Member k (route_backend_endpoint_selector_keys old)
              ⊎ Member k (route_backend_endpoint_selector_keys new)
            → Member (selector_task k) (handle ix (route_updated old new)))
  unfolding handle enqueue_gateway_parents_for_route enqueue_endpoint_selectors_for_route
  route_updated-parts old new named =
      let parents_old = enqueue_gateway_parents_for_route old in
      let selectors_old = enqueue_endpoint_selectors_for_route old in
      let itself = enqueue_named route_task (key_of new.meta) in
      let parents = enqueue_gateway_parents_for_route new in
      let selectors = enqueue_endpoint_selectors_for_route new in
      let after_old = λ (t : Task) (m : Member t (itself ++ (parents ++ selectors))).
        behind t parents_old (selectors_old ++ (itself ++ (parents ++ selectors)))
          (behind t selectors_old (itself ++ (parents ++ selectors)) m) in
      let last = λ (t : Task) (m : Member t (parents ++ selectors)).
        after_old t (behind t itself (parents ++ selectors) m) in
      (
        (let t = route_task (namespaced_key (key_of new.meta)) in
            after_old t (
              in_front t itself (parents ++ selectors)
                (named-Member route_task (key_of new.meta) named))),
        λ k m. elim m [
          | inl a ↦
              in_front (gateway_task k) parents_old
                (selectors_old ++ (itself ++ (parents ++ selectors)))
                (keys-Member gateway_task k (route_gateway_parent_keys old) a)
          | inr b ↦ last (gateway_task k) (
              in_front (gateway_task k) parents selectors
                (keys-Member gateway_task k (route_gateway_parent_keys new) b))
        ],
        λ k m. elim m [
          | inl a ↦
              behind (selector_task k) parents_old
                (selectors_old ++ (itself ++ (parents ++ selectors)))
                (in_front (selector_task k) selectors_old (itself ++ (parents ++ selectors))
                  (keys-Member selector_task k (route_backend_endpoint_selector_keys old) a))
          | inr b ↦ last (selector_task k) (
              behind (selector_task k) parents selectors
                (keys-Member selector_task k (route_backend_endpoint_selector_keys new) b))
        ],
      )

  gateway_event-parts :
      (g : Gateway) (routes : List TcpRoute)
      → IsNamed (key_of g.meta)
      → ix.routes_by_gateway (namespaced_key (key_of g.meta)) ≡ ok routes
      → Member (gateway_task (namespaced_key (key_of g.meta))) (handle ix (gateway_event g))
        × ((r : TcpRoute)
            → Member r routes
            → (IsNamed (key_of r.meta)
                → Member
                    (route_task (namespaced_key (key_of r.meta)))
                    (handle ix (gateway_event g)))
              × ((k : String)
                  → Member k (route_backend_endpoint_selector_keys r)
                  → Member (selector_task k) (handle ix (gateway_event g))))
  unfolding handle enqueue_routes_for_gateway enqueue_endpoint_selectors_for_route for_items
  gateway_event-parts g routes named listed =
      let itself = enqueue_named gateway_task (key_of g.meta) in
      let tasks = λ (r : TcpRoute).
        enqueue_named route_task (key_of r.meta) ++ enqueue_endpoint_selectors_for_route r in
      let through = λ (t : Task) (r : TcpRoute) (m : Member r routes) (n : Member t (tasks r)).
        behind t itself (for_each tasks routes) (for_each-Member tasks t r routes m n) in
      rw listed (
        in_front (gateway_task (namespaced_key (key_of g.meta))) itself (for_each tasks routes)
            (named-Member gateway_task (key_of g.meta) named),
        λ r m. (
          λ named_r.
              let t = route_task (namespaced_key (key_of r.meta)) in
              through t r m (
                in_front t (enqueue_named route_task (key_of r.meta))
                  (enqueue_endpoint_selectors_for_route r)
                  (named-Member route_task (key_of r.meta) named_r)),
          λ k n. through (selector_task k) r m (
              behind (selector_task k) (enqueue_named route_task (key_of r.meta))
                (enqueue_endpoint_selectors_for_route r)
                (keys-Member selector_task k (route_backend_endpoint_selector_keys r) n)),
        ),
      )

  -- What the update of a route concerns: itself, and what it named before or names now.
  abbrev pub OfUpdate : TcpRoute → TcpRoute → Task → Type 0
  OfUpdate old new t =
      (t ≡ route_task (namespaced_key (key_of new.meta)))
      ⊎ ((k : String) × (Member k (route_gateway_parent_keys old)
            ⊎ Member k (route_gateway_parent_keys new))
          × (t ≡ gateway_task k))
      ⊎ ((k : String) × (Member k (route_backend_endpoint_selector_keys old)
            ⊎ Member k (route_backend_endpoint_selector_keys new))
          × (t ≡ selector_task k))

  -- After the update of a route, every gateway and every selector that the route named before or names
  -- now is looked at, so that what the update took away is withdrawn too, and the route itself.
  pub handle-route_updated :
      (old new : TcpRoute) (t : Task)
      → IsNamed (key_of new.meta)
      → OfUpdate old new t
      → Member t (handle ix (route_updated old new))
  handle-route_updated old new t named why =
      let (itself, gateways, selectors) = route_updated-parts old new named in
      elim why [
        | inl e ↦ subst (λ u. Member u (handle ix (route_updated old new))) (sym e) itself
        | inr (inl (k, m, e)) ↦
            subst (λ u. Member u (handle ix (route_updated old new))) (sym e) (gateways k m)
        | inr (inr (k, m, e)) ↦
            subst (λ u. Member u (handle ix (route_updated old new))) (sym e) (selectors k m)
      ]

  -- What an event of a gateway concerns: itself, its routes, and the selectors of these.
  abbrev pub OfGateway : Gateway → List TcpRoute → Task → Type 0
  OfGateway g routes t =
      (t ≡ gateway_task (namespaced_key (key_of g.meta)))
      ⊎ ((r : TcpRoute) × Member r routes
          × IsNamed (key_of r.meta)
          × (t ≡ route_task (namespaced_key (key_of r.meta))))
      ⊎ ((r : TcpRoute) × Member r routes
          × ((k : String) × Member k (route_backend_endpoint_selector_keys r)
              × (t ≡ selector_task k)))

  -- After an event of a gateway, it is looked at, and so is each route that the index has for it, and each
  -- selector that such a route names.
  pub handle-gateway_event :
      (g : Gateway) (routes : List TcpRoute) (t : Task)
      → IsNamed (key_of g.meta)
      → ix.routes_by_gateway (namespaced_key (key_of g.meta)) ≡ ok routes
      → OfGateway g routes t
      → Member t (handle ix (gateway_event g))
  handle-gateway_event g routes t named listed why =
      let (itself, attached) = gateway_event-parts g routes named listed in
      elim why [
        | inl e ↦ subst (λ u. Member u (handle ix (gateway_event g))) (sym e) itself
        | inr (inl (r, m, named_r, e)) ↦
            subst (λ u. Member u (handle ix (gateway_event g))) (sym e) ((attached r m).0 named_r)
        | inr (inr (r, m, used)) ↦
            let (k, n, e) = used in
            subst (λ u. Member u (handle ix (gateway_event g))) (sym e) ((attached r m).1 k n)
      ]
