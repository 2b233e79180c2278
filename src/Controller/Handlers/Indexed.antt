-- ===== src/Controller/Handlers/Indexed.antt =====
-- The handlers with the indexes that client-go keeps by the program's index functions.
use clusterip_gw.Base.{
  String, Bool, true, some, List, [], ◌∷◌, ◌≡◌, ◌⊎◌, refl, inl, inr, sym, ap, ◌∙◌, ◌==◌, ◌&&◌,
  string_eq, Member, keep, any_iff, contains, if_both, Result, ok, arith,
}
use clusterip_gw.Kube.{key_of, Gateway, TcpRoute, EndpointSelector, ParentReference}
use clusterip_gw.Kube.Objects.{gateway_object, tombstone, Notice}
use clusterip_gw.Controller.Refs.{
  namespaced_key, is_gateway_parent_ref, route_gateway_parent_keys,
  route_backend_endpoint_selector_keys, index_gateway_by_class, index_route_by_gateway,
  index_route_by_backend_endpoint_selector,
}
use clusterip_gw.Controller.Refs.Keys.{parent_key, route_gateway_parent_keys_lem}
use clusterip_gw.Controller.Handlers.{
  Task, gateway_task, route_task, selector_task, Event, gateway_event, Indexes, handle,
}
use clusterip_gw.Controller.Handlers.Tasks.{IsNamed, handle-gateway_event}
use clusterip_gw.Controller.Objects.{gateways, latest, call, gateway_from_object, register_handlers}

-- `Indexer.ByIndex`: the stored objects for which the index function gives the key.
pub by_index : {A : Type 0} → (A → List String) → List A → String → Result (List A)
by_index keys items k = ok (keep (λ a. contains (keys a) k) items)

Member-keep :
    {A : Type 0} (t : A → Bool) (a : A) (xs : List A)
    → Member a xs
    → t a ≡ true
    → Member a (keep t xs)
Member-keep t a [] m h = absurd m
Member-keep t a (x ∷ xs) (inl e) h = let holds : t x ≡ true = sym (ap t e) ∙ h in rw holds (inl e)
Member-keep t a (x ∷ xs) (inr m) h =
    let rest = Member-keep t a xs m h in if_both (Member a) (t x) _ _ (inr rest) rest

-- The indexes over the objects of the stores.
unfoldable pub indexes_of : List Gateway → List TcpRoute → List EndpointSelector → Indexes
indexes_of gs rs ss = record {
  gateways_by_class = by_index index_gateway_by_class gs;
  routes_by_gateway = by_index index_route_by_gateway rs;
  routes_by_endpoint_selector = by_index index_route_by_backend_endpoint_selector rs;
  selectors_by_namespace = by_index (λ s. s.meta.namespace ∷ []) ss;
}

-- The notices that concern a gateway.
unfoldable pub IsOf : Gateway → Notice → Type 0
IsOf g n = (latest n ≡ gateway_object g) ⊎ (latest n ≡ tombstone (gateway_object g))

IsOf-event :
    (g : Gateway) (n : Notice) → IsOf g n → register_handlers gateways n ≡ some (gateway_event g)
unfolding IsOf register_handlers call gateway_from_object
IsOf-event g n (inl e) = ap (λ o. call gateway_event (gateway_from_object o)) e
IsOf-event g n (inr e) = ap (λ o. call gateway_event (gateway_from_object o)) e

-- The route has a reference to the gateway.
unfoldable pub IsAttached : TcpRoute → Gateway → Type 0
IsAttached r g =
    (p : ParentReference) × Member p r.parent_refs
    × (is_gateway_parent_ref p ≡ true)
    × (parent_key r.meta.namespace p ≡ namespaced_key (key_of g.meta))

attached-key :
    (r : TcpRoute) (g : Gateway)
    → IsAttached r g
    → contains (route_gateway_parent_keys r) (namespaced_key (key_of g.meta)) ≡ true
unfolding IsAttached
attached-key r g (p, m, kind, same) =
    let key = namespaced_key (key_of g.meta) in
    (route_gateway_parent_keys_lem r).1 key
    ∙ (any_iff (λ p. is_gateway_parent_ref p && key == parent_key r.meta.namespace p)
          r.parent_refs).1
        (p, m, ground (arith, kind, same))

-- What a gateway concerns among the stored routes: itself, the routes attached to it, and the selectors that
-- these name.
abbrev pub Concerns : Gateway → List TcpRoute → Task → Type 0
Concerns g rs t =
    (t ≡ gateway_task (namespaced_key (key_of g.meta)))
    ⊎ ((r : TcpRoute) × Member r rs
        × IsAttached r g
        × ((IsNamed (key_of r.meta) × (t ≡ route_task (namespaced_key (key_of r.meta))))
            ⊎ ((k : String) × Member k (route_backend_endpoint_selector_keys r)
                × (t ≡ selector_task k))))

module _ (gs : List Gateway) (rs : List TcpRoute) (ss : List EndpointSelector) where
  -- Whatever notice comes of a gateway, its addition, update, deletion or tombstone, the handler does not panic, and it
  -- enqueues the gateway, each stored route with a reference to it, and each selector that such a route names.
  pub handle-gateway_notice :
      (g : Gateway) (n : Notice)
      → IsOf g n
      → IsNamed (key_of g.meta)
      → (e : Event) × (register_handlers gateways n ≡ some e)
        × ((t : Task) → Concerns g rs t → Member t (handle (indexes_of gs rs ss) e))
  unfolding indexes_of by_index index_route_by_gateway
  handle-gateway_notice g n about named =
      let key = namespaced_key (key_of g.meta) in
      let found = λ (r : TcpRoute). contains (route_gateway_parent_keys r) key in
      let tasks =
        λ (t : Task). handle-gateway_event (indexes_of gs rs ss) g (keep found rs) t named refl in
      let stored = λ (r : TcpRoute) (m : Member r rs) (a : IsAttached r g).
        Member-keep found r rs m (attached-key r g a) in
      (
        gateway_event g,
        IsOf-event g n about,
        λ t why. elim why [
          | inl e ↦ tasks t (inl e)
          | inr (r, m, a, inl (named_r, e)) ↦ tasks t (inr (inl (r, stored r m a, named_r, e)))
          | inr (r, m, a, inr (k, used, e)) ↦ tasks t (inr (inr (r, stored r m a, (k, used, e))))
        ],
      )
