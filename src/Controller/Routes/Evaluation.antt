-- ===== src/Controller/Routes/Evaluation.antt =====
-- When a route is accepted by a gateway, and when its backend is resolved.
use clusterip_gw.Base.{
  String, Bool, false, List, [], ◌∷◌, ◌≡◌, ◌≢◌, ◌↔◌, inl, inr, refl, sym, ap, subst, ◌∙◌, keep,
  length, length-sort_by, Option, none, Result, ok, err, ok-injective, not_found, already_exists,
  other, Bool-cases, string_eq, nat_eq, arith,
}
use clusterip_gw.Kube.{
  ConditionStatus, condition_true, condition_false, condition_unknown, condition_status_eq,
  Listener, Gateway, GatewayClass, ParentReference, BackendRef, RouteRule, TcpRoute,
  EndpointSelector,
}
use clusterip_gw.Controller.{
  endpoint_selector_api_group, endpoint_selector_kind, Library, Informers,
}
use clusterip_gw.Controller.Refs.{or_default}
use clusterip_gw.Controller.Status.{text_of}
use clusterip_gw.Controller.Routes.Attached.{IsAttached, IsSole, attaches_iff, keep-IsSole}
use clusterip_gw.Controller.Listeners.{validate_gateway_listeners}
use clusterip_gw.Controller.Listeners.Valid.{
  AreValid, validate_gateway_listeners-valid, validate_gateway_listeners-listeners,
}
use clusterip_gw.Controller.Routes.{
  parent_matches_listener, one_match, count_attached_routes_for_listener, resolve_gateway_listener,
  get_endpoint_selector, evaluate_endpoint_selector, listener_outcome, attachment,
  by_namespace_and_name, attaches, attached_routes_for_listener, selector_validity,
  selector_resolution, selector_outcome, backend_resolution, rule_resolution, resolution, both,
  is_foreign, evaluate_route,
}

one_match-ok : (ls : List Listener) (l : Listener) → (one_match ls ≡ ok l) ↔ (ls ≡ l ∷ [])
unfolding one_match
one_match-ok [] l = (λ h. cc, λ h. cc)
one_match-ok (x ∷ []) l = (λ h. cc, λ h. cc)
one_match-ok (x ∷ y ∷ rest) l = (λ h. cc, λ h. cc)

-- A reference resolves to a listener exactly when the gateway's listeners are valid and it is the only one of them
-- that the reference matches.
pub resolve_gateway_listener-ok :
    (lib : Library) (g : Gateway) (p : ParentReference) (l : Listener)
    → (resolve_gateway_listener lib g p ≡ ok l)
      ↔ (AreValid g.listeners × (keep (parent_matches_listener p) g.listeners ≡ l ∷ []))
unfolding resolve_gateway_listener
resolve_gateway_listener-ok lib g p l = elim (Bool-cases (validate_gateway_listeners lib g).valid) [
  | inl v ↦
      let same = validate_gateway_listeners-listeners lib g v in
      rw v (
        rw same (
          λ h. ((validate_gateway_listeners-valid lib g).0 v, (one_match-ok _ l).0 h),
          λ h. (one_match-ok _ l).1 h.1,
        ))
  | inr n ↦
      rw n (
        λ h. cc,
        λ h. let v = (validate_gateway_listeners-valid lib g).1 h.0 in ground (arith, n, v),
      )
]

-- The route and the gateway are of one namespace, the route has one reference, this one matches exactly one of the
-- gateway's listeners, which are valid, and one of the routes is attached to that listener, and is listed once.
pub IsAlone : Library → TcpRoute → ParentReference → Gateway → List TcpRoute → Type 0
IsAlone lib r p g attached =
    (r.meta.namespace ≡ g.meta.namespace)
    × (length r.parent_refs ≡ 1)
    × (l : Listener) × (AreValid g.listeners
        × (keep (parent_matches_listener p) g.listeners ≡ l ∷ []))
    × ((x : TcpRoute) × IsSole (IsAttached g l) attached x)

count_attached_routes_for_listener-IsSole :
    (g : Gateway) (l : Listener) (attached : List TcpRoute)
    → (count_attached_routes_for_listener g l attached ≡ 1)
      ↔ ((x : TcpRoute) × IsSole (IsAttached g l) attached x)
unfolding count_attached_routes_for_listener attached_routes_for_listener
count_attached_routes_for_listener-IsSole g l attached =
    rw (length-sort_by by_namespace_and_name (keep (attaches g l) attached))
      (keep-IsSole (attaches g l) (IsAttached g l) (attaches_iff g l) attached)

listener_outcome-true :
    (lib : Library) (g : Gateway) (attached : List TcpRoute) (result : Result Listener)
    → ((listener_outcome lib g attached result).0 ≡ condition_true)
      ↔ ((l : Listener) × (result ≡ ok l) × (count_attached_routes_for_listener g l attached ≡ 1))
unfolding listener_outcome
listener_outcome-true lib g attached (err e) = (λ h. cc, λ h. cc)
listener_outcome-true lib g attached (ok l) = (
  λ h. (l, refl, ground arith),
  λ (k, same, one).
      let alone =
        ap (λ x. count_attached_routes_for_listener g x attached) (ok-injective same) ∙ one in
      ground (arith, alone),
)

attachment-true :
    (lib : Library) (r : TcpRoute) (p : ParentReference) (g : Gateway) (attached : List TcpRoute)
    → ((attachment lib r p g attached).0 ≡ condition_true) ↔ IsAlone lib r p g attached
unfolding attachment IsAlone
attachment-true lib r p g attached =
    let outcome = listener_outcome-true lib g attached (resolve_gateway_listener lib g p) in
    (
      λ h.
          let (l, found, one) = outcome.0 (ground (arith, h)) in
          (
            ground (arith, h),
            ground (arith, h),
            l,
            (resolve_gateway_listener-ok lib g p l).0 found,
            (count_attached_routes_for_listener-IsSole g l attached).0 one,
          ),
      λ (near, single, l, match_, sole).
          let one = (count_attached_routes_for_listener-IsSole g l attached).1 sole in
          let good = outcome.1 (l, (resolve_gateway_listener-ok lib g p l).1 match_, one) in
          ground (arith, near, single, good),
    )

selector_validity-true :
    (result : Result (List (String × String) → Bool))
    → ((selector_validity result).0 ≡ condition_true)
      ↔ ((f : List (String × String) → Bool) × (result ≡ ok f))
unfolding selector_validity
selector_validity-true (err e) = (λ h. cc, λ h. cc)
selector_validity-true (ok f) = (λ h. (f, refl), λ h. refl)

-- The selector that was looked up is there and well formed.
pub IsUsable : Library → Result EndpointSelector → Type 0
IsUsable lib result =
    (s : EndpointSelector) × (result ≡ ok s)
    × ((f : List (String × String) → Bool) × (lib.label_selector_as_selector s.selector ≡ ok f))

selector_resolution-true :
    (lib : Library) (namespace name : String) (o : ConditionStatus × String × String)
    → ((selector_resolution lib namespace name o).0 ≡ condition_true) ↔ (o.0 ≡ condition_true)
unfolding selector_resolution condition_status_eq
selector_resolution-true lib namespace name (condition_true, reason, m) = (λ h. refl, λ h. refl)
selector_resolution-true lib namespace name (condition_false, reason, m) = (λ h. h, λ h. h)
selector_resolution-true lib namespace name (condition_unknown, reason, m) = (λ h. cc, λ h. cc)

selector_outcome-true :
    (lib : Library) (namespace name : String) (result : Result EndpointSelector)
    → ((selector_outcome lib namespace name result).0 ≡ condition_true) ↔ IsUsable lib result
unfolding selector_outcome evaluate_endpoint_selector IsUsable
selector_outcome-true lib namespace name (err (not_found m)) = (λ h. cc, λ h. cc)
selector_outcome-true lib namespace name (err (already_exists m)) = (λ h. cc, λ h. cc)
selector_outcome-true lib namespace name (err (other m)) = (λ h. cc, λ h. cc)
selector_outcome-true lib namespace name (ok s) =
    let through =
      selector_resolution-true lib namespace name
        (selector_validity (lib.label_selector_as_selector s.selector)) in
    let valid = selector_validity-true (lib.label_selector_as_selector s.selector) in
    (
      λ h. (s, refl, valid.0 (through.0 h)),
      λ (t, same, (f, e)). through.1 (
          valid.1 (f, ap (λ x. lib.label_selector_as_selector x.selector) (ok-injective same) ∙ e)),
    )

-- What a backend reference of a route has when it resolves.
pub Resolves : Library → Informers → TcpRoute → BackendRef → Type 0
Resolves lib inf r b =
    (text_of b.group ≡ endpoint_selector_api_group)
    × (or_default b.kind endpoint_selector_kind ≡ endpoint_selector_kind)
    × (or_default b.namespace r.meta.namespace ≡ r.meta.namespace)
    × (b.port ≢ none)
    × IsUsable lib
        (get_endpoint_selector inf (record { namespace = r.meta.namespace; name = b.name }))

backend_resolution-true :
    (lib : Library) (inf : Informers) (r : TcpRoute) (b : BackendRef)
    → ((backend_resolution lib inf r b).0 ≡ condition_true) ↔ Resolves lib inf r b
unfolding backend_resolution Resolves
backend_resolution-true lib inf r b =
    let outcome = selector_outcome-true lib (or_default b.namespace r.meta.namespace) b.name (
      get_endpoint_selector inf
        (record { namespace = or_default b.namespace r.meta.namespace; name = b.name })) in
    let usable : String → Type 0 = λ namespace.
      IsUsable lib (get_endpoint_selector inf (record { namespace = namespace; name = b.name })) in
    (
      λ h.
          let near : or_default b.namespace r.meta.namespace ≡ r.meta.namespace =
            ground (arith, h) in
          (
            ground (arith, h),
            ground (arith, h),
            near,
            (λ e. ground (arith, h, e)),
            subst usable near (outcome.0 (ground (arith, h))),
          ),
      λ (group, kind, near, port, found).
          let good = outcome.1 (subst usable (sym near) found) in
          ground (arith, group, kind, near, port, good),
    )

-- The route has one rule with one backend reference, to an endpoint selector of its namespace and with
-- a port, and the selector exists and is well formed.
pub HasBackend : Library → Informers → TcpRoute → Type 0
HasBackend lib inf r =
    (b : BackendRef) × (r.rules ≡ record { backend_refs = b ∷ [] } ∷ []) × Resolves lib inf r b

rule_resolution-true :
    (lib : Library) (inf : Informers) (r : TcpRoute) (refs : List BackendRef)
    → ((rule_resolution lib inf r refs).0 ≡ condition_true)
      ↔ ((b : BackendRef) × (refs ≡ b ∷ []) × Resolves lib inf r b)
unfolding rule_resolution
rule_resolution-true lib inf r [] = (λ h. cc, λ h. cc)
rule_resolution-true lib inf r (b ∷ []) = (
  λ h. (b, refl, (backend_resolution-true lib inf r b).0 h),
  λ (d, same, good).
      let e : b ≡ d = cc in
      (backend_resolution-true lib inf r b).1 (subst (Resolves lib inf r) (sym e) good),
)
rule_resolution-true lib inf r (_ ∷ _ ∷ _) = (λ h. cc, λ h. cc)

resolution-true :
    (lib : Library) (inf : Informers) (r : TcpRoute) (rules : List RouteRule)
    → ((resolution lib inf r rules).0 ≡ condition_true)
      ↔ ((b : BackendRef) × (rules ≡ record { backend_refs = b ∷ [] } ∷ []) × Resolves lib inf r b)
unfolding resolution
resolution-true lib inf r [] = (λ h. cc, λ h. cc)
resolution-true lib inf r (rule ∷ []) = (
  λ h.
      let (b, e, good) = (rule_resolution-true lib inf r rule.backend_refs).0 h in
      (b, ap (λ refs. record { backend_refs = refs } ∷ []) e, good),
  λ (b, same, good).
      let e : rule ≡ record { backend_refs = b ∷ [] } = cc in
      (rule_resolution-true lib inf r rule.backend_refs).1 (b, ap (λ x. x.backend_refs) e, good),
)
resolution-true lib inf r (_ ∷ _ ∷ _) = (λ h. cc, λ h. cc)

module _ (lib : Library) (inf : Informers) (r : TcpRoute) (p : ParentReference) (g : Gateway)
    (c : Option GatewayClass) (attached : List TcpRoute) where
  -- The evaluation accepts a route and resolves its backend exactly when the class is there and names this
  -- controller, the route is of the gateway's namespace and has one parent reference, this one matches exactly one of
  -- the gateway's listeners, which are valid, one route is attached to that listener and is listed once, and the
  -- route's one backend is usable.
  pub evaluate_route-accepts :
      (((evaluate_route lib inf r p g c attached).accepted_status ≡ condition_true)
        × ((evaluate_route lib inf r p g c attached).resolved_status ≡ condition_true))
      ↔ ((is_foreign lib c ≡ false) × IsAlone lib r p g attached × HasBackend lib inf r)
  unfolding evaluate_route both HasBackend
  evaluate_route-accepts =
      let alone = attachment-true lib r p g attached in
      let backend = resolution-true lib inf r r.rules in
      elim (Bool-cases (is_foreign lib c)) [
        | inl foreign ↦ rw foreign (λ h. cc, λ h. cc)
        | inr ours ↦
            rw ours
              (λ (a, b). (refl, alone.0 a, backend.0 b), λ (o, a, b). (alone.1 a, backend.1 b))
      ]
