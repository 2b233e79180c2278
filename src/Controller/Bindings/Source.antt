-- ===== src/Controller/Bindings/Source.antt =====
-- What a binding is of: a listener that a parent reference of the route matches, and the port of its backend.
use clusterip_gw.Base.{
  ap, ◌∙◌, Bool-cases, ℤ, Bool, true, false, not, Option, none, some, List, [], ◌∷◌, ◌≡◌, refl, sym,
  subst, some-injective, ok-injective, ◌⊎◌, inl, inr, ◌!=◌, ◌||◌, string_eq, int_eq, if◌then◌else◌,
  Member, Member-keep, Result, ok, err, not_found, already_exists, other, arith,
}
use clusterip_gw.Kube.{
  condition_true, condition_status_eq, Gateway, GatewayClass, Listener, ParentReference, BackendRef,
  RouteRule, TcpRoute, EndpointSelector,
}
use clusterip_gw.Meta.{gateway_class_name}
use clusterip_gw.Controller.{Library, Informers}
use clusterip_gw.Controller.Refs.{
  or_default, is_gateway_parent_ref, is_endpoint_selector_backend_ref,
}
use clusterip_gw.Controller.Listeners.Valid.{AreValid}
use clusterip_gw.Controller.Routes.{
  RouteEvaluation, evaluate_route, resolve_gateway_listener, parent_matches_listener,
}
use clusterip_gw.Controller.Routes.Attached.{Selects, parent_matches_listener_iff}
use clusterip_gw.Controller.Routes.Evaluation.{resolve_gateway_listener-ok}
use clusterip_gw.Controller.Bindings.{
  Binding, bound, bind_class, bind_gateway, first_bound, bind_parents, bind_port, bind_backend,
  bind_refs, bind_rules, gateway_binding_for_route,
}

-- A parent reference of the route leads to the binding: to its gateway, which is of the class and has valid
-- listeners, and there to the listener of its name.
pub record IsByParent (inf : Informers) (r : TcpRoute) (b : Binding) : Type 0 where
  pub parent : ParentReference
  pub in_parents : Member parent r.parent_refs
  pub to_gateway : is_gateway_parent_ref parent ≡ true
  pub found : inf.gateway (or_default parent.namespace r.meta.namespace) parent.name ≡ ok b.gateway
  pub class : b.gateway.gateway_class_name ≡ gateway_class_name
  pub valid : AreValid b.gateway.listeners
  pub listener : Listener
  pub in_listeners : Member listener b.gateway.listeners
  pub by_name : Selects parent.section_name listener.name
  pub by_port : Selects parent.port listener.port
  pub its_name : listener.name ≡ b.listener_name

-- The route has one backend, which is the selector, at the port of the binding.
pub record IsBackend (s : EndpointSelector) (r : TcpRoute) (b : Binding) : Type 0 where
  pub backend : BackendRef
  pub single : r.rules ≡ record { backend_refs = backend ∷ [] } ∷ []
  pub to_selector : is_endpoint_selector_backend_ref r.meta.namespace backend ≡ true
  pub its_namespace : or_default backend.namespace r.meta.namespace ≡ s.meta.namespace
  pub its_name : backend.name ≡ s.meta.name
  pub its_port : backend.port ≡ some b.backend_port

-- What one parent reference gives: a listener of the gateway, and the port.
abbrev IsOfListener : Gateway → ParentReference → ℤ → Binding → Type 0
IsOfListener g p port b =
    (g ≡ b.gateway)
    × (port ≡ b.backend_port)
    × (b.gateway.gateway_class_name ≡ gateway_class_name)
    × AreValid b.gateway.listeners
    × ((l : Listener) × Member l b.gateway.listeners
        × Selects p.section_name l.name
        × Selects p.port l.port
        × (l.name ≡ b.listener_name))

some_after :
    {A : Type 0} (t : Bool) (o : Option A) (a : A) → (if t then none else o) ≡ some a → o ≡ some a
some_after true o a h = absurd cc
some_after false o a h = h

ok_after :
    {A : Type 0} (t : Bool) (r : Result (Option A)) (a : A)
    → (if t then ok none else r) ≡ ok (some a)
    → (t ≡ false) × (r ≡ ok (some a))
ok_after true r a h = absurd cc
ok_after false r a h = (refl, h)

module _ (lib : Library) (inf : Informers) where
  bound-IsOfListener :
      (g : Gateway) (p : ParentReference) (port : ℤ) (e : RouteEvaluation) (o : Result Listener)
      (b : Binding)
      → g.gateway_class_name ≡ gateway_class_name
      → resolve_gateway_listener lib g p ≡ o
      → bound lib inf g port e o ≡ some b
      → IsOfListener g p port b
  unfolding bound
  bound-IsOfListener g p port e (err x) b class found h = absurd cc
  bound-IsOfListener g p port e (ok l) b class found h =
      let (valid, one) = (resolve_gateway_listener-ok lib g p l).0 found in
      let made : Binding = record { gateway = g; listener_name = l.name; backend_port = port } in
      let in_list =
        Member-keep (parent_matches_listener p) l g.listeners
          (subst (Member l) (sym one) (inl refl)) in
      let near = (parent_matches_listener_iff p l).0 in_list.1 in
      subst (IsOfListener g p port)
        (some-injective made b (
          some_after (e.accepted_status != condition_true || e.resolved_status != condition_true)
            (some made) b h))
        (refl, refl, class, valid, (l, in_list.0, near.0, near.1, refl))

  bind_class-IsOfListener :
      (r : TcpRoute) (p : ParentReference) (port : ℤ) (g : Gateway)
      (c : Result (Option GatewayClass))
      → (attached : Result (List TcpRoute)) (b : Binding)
      → g.gateway_class_name ≡ gateway_class_name
      → bind_class lib inf r p port g c attached ≡ ok (some b)
      → IsOfListener g p port b
  unfolding bind_class
  bind_class-IsOfListener r p port g (err e) attached b class h = absurd cc
  bind_class-IsOfListener r p port g (ok c) (err e) b class h = absurd cc
  bind_class-IsOfListener r p port g (ok c) (ok attached) b class h =
      bound-IsOfListener g p port (evaluate_route lib inf r p g c attached) _ b class refl
        (ok-injective h)

  bind_gateway-IsOfListener :
      (r : TcpRoute) (p : ParentReference) (port : ℤ) (o : Result Gateway) (b : Binding)
      → bind_gateway lib inf r p port o ≡ ok (some b)
      → (g : Gateway) × (o ≡ ok g) × IsOfListener g p port b
  unfolding bind_gateway
  bind_gateway-IsOfListener r p port (err (not_found m)) b h = absurd cc
  bind_gateway-IsOfListener r p port (err (already_exists m)) b h = absurd cc
  bind_gateway-IsOfListener r p port (err (other m)) b h = absurd cc
  bind_gateway-IsOfListener r p port (ok g) b h =
      let (managed, rest) = ok_after (g.gateway_class_name != gateway_class_name) _ b h in
      (g, refl, bind_class-IsOfListener r p port g _ _ b (ground (arith, managed)) rest)

  first_bound-either :
      (first later : Result (Option Binding)) (b : Binding)
      → first_bound lib inf first later ≡ ok (some b)
      → (first ≡ ok (some b)) ⊎ (later ≡ ok (some b))
  unfolding first_bound
  first_bound-either (err e) later b h = absurd cc
  first_bound-either (ok none) later b h = inr h
  first_bound-either (ok (some c)) later b h = inl h

  bind_parents-IsByParent :
      (r : TcpRoute) (port : ℤ) (ps : List ParentReference) (b : Binding)
      → ((p : ParentReference) → Member p ps → Member p r.parent_refs)
      → bind_parents lib inf r port ps ≡ ok (some b)
      → IsByParent inf r b × (port ≡ b.backend_port)
  unfolding bind_parents
  bind_parents-IsByParent r port [] b all h = absurd cc
  bind_parents-IsByParent r port (p ∷ rest) b all h =
      let found = inf.gateway (or_default p.namespace r.meta.namespace) p.name in
      let here = bind_gateway lib inf r p port found in
      let later = bind_parents lib inf r port rest in
      elim (Bool-cases (is_gateway_parent_ref p)) [
        | inr foreign ↦
            bind_parents-IsByParent r port rest b (λ q m. all q (inr m))
              (ground (arith, h, foreign))
        | inl ours ↦ elim (first_bound-either here later b (ground (arith, h, ours))) [
          | inl now ↦
              taken p (all p (inl refl)) ours (bind_gateway-IsOfListener r p port found b now)
          | inr after ↦ bind_parents-IsByParent r port rest b (λ q m. all q (inr m)) after
        ]
      ]
    where
      taken :
          (p : ParentReference)
          → Member p r.parent_refs
          → is_gateway_parent_ref p ≡ true
          → (g : Gateway) × (inf.gateway (or_default p.namespace r.meta.namespace) p.name ≡ ok g)
            × IsOfListener g p port b
          → IsByParent inf r b × (port ≡ b.backend_port)
      taken p m ours (g, found, (same, at, class, valid, (l, in_list, by_name, by_port, named))) = (
        record {
          parent = p;
          in_parents = m;
          to_gateway = ours;
          found = found ∙ ap ok same;
          class = class;
          valid = valid;
          listener = l;
          in_listeners = in_list;
          by_name = by_name;
          by_port = by_port;
          its_name = named;
        },
        at,
      )

  bind_port-IsByParent :
      (r : TcpRoute) (port : Option ℤ) (b : Binding)
      → bind_port lib inf r port ≡ ok (some b)
      → IsByParent inf r b × (port ≡ some b.backend_port)
  unfolding bind_port
  bind_port-IsByParent r none b h = absurd cc
  bind_port-IsByParent r (some port) b h =
      let (parent, at) = bind_parents-IsByParent r port r.parent_refs b (λ p m. m) h in
      (parent, ap some at)

  bind_backend-IsBackend :
      (s : EndpointSelector) (r : TcpRoute) (x : BackendRef) (b : Binding)
      → r.rules ≡ record { backend_refs = x ∷ [] } ∷ []
      → bind_backend lib inf s r x ≡ ok (some b)
      → IsBackend s r b × IsByParent inf r b
  unfolding bind_backend
  bind_backend-IsBackend s r x b single h =
      let (one, inner) =
        ok_after (not (is_endpoint_selector_backend_ref r.meta.namespace x)) _ b h in
      let (two, last) =
        ok_after
          (or_default x.namespace r.meta.namespace != s.meta.namespace || x.name != s.meta.name)
          (bind_port lib inf r x.port) b inner in
      let (parent, at) = bind_port-IsByParent r x.port b last in
      (
        record {
          backend = x;
          single = single;
          to_selector = ground (arith, one);
          its_namespace = ground (arith, two);
          its_name = ground (arith, two);
          its_port = at;
        },
        parent,
      )

  bind_refs-IsBackend :
      (s : EndpointSelector) (r : TcpRoute) (xs : List BackendRef) (b : Binding)
      → r.rules ≡ record { backend_refs = xs } ∷ []
      → bind_refs lib inf s r xs ≡ ok (some b)
      → IsBackend s r b × IsByParent inf r b
  unfolding bind_refs
  bind_refs-IsBackend s r [] b e h = absurd cc
  bind_refs-IsBackend s r (x ∷ []) b e h = bind_backend-IsBackend s r x b e h
  bind_refs-IsBackend s r (x ∷ y ∷ rest) b e h = absurd cc

  bind_rules-IsBackend :
      (s : EndpointSelector) (r : TcpRoute) (rules : List RouteRule) (b : Binding)
      → r.rules ≡ rules
      → bind_rules lib inf s r rules ≡ ok (some b)
      → IsBackend s r b × IsByParent inf r b
  unfolding bind_rules
  bind_rules-IsBackend s r [] b e h = absurd cc
  bind_rules-IsBackend s r (x ∷ []) b e h = bind_refs-IsBackend s r x.backend_refs b e h
  bind_rules-IsBackend s r (x ∷ y ∷ rest) b e h = absurd cc

  -- A route that binds a gateway's listener for a selector has the selector as its one backend, at the port of the
  -- binding, and one of its parent references leads to the gateway and matches the listener.
  pub gateway_binding_for_route-IsByParent :
      (s : EndpointSelector) (r : TcpRoute) (b : Binding)
      → gateway_binding_for_route lib inf s r ≡ ok (some b)
      → IsBackend s r b × IsByParent inf r b
  unfolding gateway_binding_for_route
  gateway_binding_for_route-IsByParent s r b h = bind_rules-IsBackend s r r.rules b refl h
