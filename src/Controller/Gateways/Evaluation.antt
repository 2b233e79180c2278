-- ===== src/Controller/Gateways/Evaluation.antt =====
-- When a gateway is valid.
use clusterip_gw.Base.{
  ◌+◌, Bool, true, false, List, [], ◌∷◌, ◌≡◌, ◌≢◌, ◌↔◌, inl, inr, refl, ap, ◌∙◌, length, ltb,
  count_if, count_if-any, any_iff, Member, Option, Bool-cases, nat_eq, string_eq, arith,
  if◌then◌else◌,
}
use clusterip_gw.Kube.{
  condition_true, condition_status_eq, Gateway, GatewayClass, Listener, TcpRoute,
}
use clusterip_gw.Controller.{Library, Informers}
use clusterip_gw.Controller.Listeners.{validate_gateway_listeners}
use clusterip_gw.Controller.Listeners.Valid.{
  AreValid, validate_gateway_listeners-valid, validate_gateway_listeners-listeners,
}
use clusterip_gw.Controller.Routes.{
  RouteEvaluation, attached_routes_for_listener, matching_parent_ref, evaluate_route, is_foreign,
}
use clusterip_gw.Controller.Gateways.{
  Progress, refused, fail, route_usable, with_route, evaluate_listener, evaluate_listeners,
  conclude, evaluate_validated, evaluate_gateway,
}
use clusterip_gw.Controller.Gateways.Cases.{evaluate_gateway-cases}

module _ (lib : Library) (inf : Informers) (g : Gateway) (c : Option GatewayClass)
    (routes : List TcpRoute) where
  -- The evaluation of a route against the gateway.
  abbrev evaluation : TcpRoute → RouteEvaluation
  evaluation r = evaluate_route lib inf r (matching_parent_ref r g) g c routes

  -- Exactly one route attaches to the listener, and it is accepted with its backend resolved.
  pub IsServed : Listener → Type 0
  IsServed l =
      (r : TcpRoute) × (attached_routes_for_listener g l routes ≡ r ∷ [])
      × ((evaluation r).accepted_status ≡ condition_true)
      × ((evaluation r).resolved_status ≡ condition_true)

  serves : List TcpRoute → Bool
  serves [] = false
  serves (r ∷ []) = route_usable lib (evaluation r)
  serves (_ ∷ _ ∷ _) = false

  abbrev listener_serves : Listener → Bool
  listener_serves l = serves (attached_routes_for_listener g l routes)

  route_usable_iff :
      (e : RouteEvaluation)
      → (route_usable lib e ≡ true)
        ↔ ((e.accepted_status ≡ condition_true) × (e.resolved_status ≡ condition_true))
  unfolding route_usable
  route_usable_iff e = ground arith

  serves_iff :
      (rs : List TcpRoute)
      → (serves rs ≡ true) ↔ (
          (r : TcpRoute) × (rs ≡ r ∷ [])
          × ((evaluation r).accepted_status ≡ condition_true)
          × ((evaluation r).resolved_status ≡ condition_true))
  unfolding serves
  serves_iff [] = (λ h. cc, λ h. cc)
  serves_iff (r ∷ []) = (
    λ h. let (a, b) = (route_usable_iff (evaluation r)).0 h in (r, refl, a, b),
    λ (r', e, a, b).
        let same : r ≡ r' = cc in
        (route_usable_iff (evaluation r)).1 (
          ap (λ x. (evaluation x).accepted_status) same ∙ a,
          ap (λ x. (evaluation x).resolved_status) same ∙ b,
        ),
  )
  serves_iff (_ ∷ _ ∷ _) = (λ h. cc, λ h. cc)

  evaluate_listener-usable :
      (l : Listener) (rs : List TcpRoute) (s : Progress)
      → (evaluate_listener lib inf g c routes l rs s).usable
        ≡ (if serves rs then 1 else 0) + s.usable
  unfolding evaluate_listener serves with_route fail
  evaluate_listener-usable l [] s = omega arith
  evaluate_listener-usable l (r ∷ []) s = ground arith
  evaluate_listener-usable l (_ ∷ _ ∷ _) s = omega arith

  evaluate_listeners-usable :
      (ls : List Listener) (s : Progress)
      → (evaluate_listeners lib inf g c routes ls s).usable ≡ count_if listener_serves ls + s.usable
  unfolding evaluate_listeners
  evaluate_listeners-usable [] s = omega arith
  evaluate_listeners-usable (l ∷ ls) s = omega (
    arith,
    evaluate_listeners-usable ls
        (evaluate_listener lib inf g c routes l (attached_routes_for_listener g l routes) s),
    evaluate_listener-usable l (attached_routes_for_listener g l routes) s,
  )

  conclude-valid :
      (ls : List Listener) (s : Progress) → ((conclude lib ls s).valid ≡ true) ↔ (s.usable ≢ 0)
  unfolding conclude refused
  conclude-valid ls s = ground arith

  abbrev nothing : Progress
  nothing = record { statuses = []; first_error = ""; usable = 0 }

  usable_iff :
      (ls : List Listener)
      → ((evaluate_listeners lib inf g c routes ls nothing).usable ≢ 0)
        ↔ ((l : Listener) × Member l ls × IsServed l)
  unfolding IsServed
  usable_iff ls =
      let count = evaluate_listeners-usable ls nothing in
      let some_one = count_if-any listener_serves ls in
      let there = any_iff listener_serves ls in
      (
        λ n.
            let (l, m, e) = there.0 (some_one.0 (λ z. n (omega (arith, count, z)))) in
            (l, m, (serves_iff (attached_routes_for_listener g l routes)).0 e),
        λ (l, m, served) z.
            some_one.1
              (there.1 (l, m, (serves_iff (attached_routes_for_listener g l routes)).1 served))
              (omega (arith, count, z)),
      )

  -- The listeners are valid, no address is asked for, and some listener is served.
  pub IsServable : Type 0
  IsServable =
      AreValid g.listeners
      × (length g.spec_addresses ≡ 0)
      × (l : Listener) × Member l g.listeners
      × IsServed l

  evaluate_validated-valid :
      ((evaluate_validated lib inf g c routes (validate_gateway_listeners lib g)).valid ≡ true)
      ↔ IsServable
  unfolding evaluate_validated refused IsServable
  evaluate_validated-valid =
      let valid = validate_gateway_listeners-valid lib g in
      elim (Bool-cases (validate_gateway_listeners lib g).valid) [
        | inl v ↦ elim (Bool-cases (ltb 0 (length g.spec_addresses))) [
          | inl some_address ↦
              rw (v, some_address)
                (λ h. cc, λ h. let none_asked = h.1 in ground (arith, some_address, none_asked))
          | inr no_address ↦
              rw (v, no_address, validate_gateway_listeners-listeners lib g v)
                (
                  λ h.
                      let (l, m, served) =
                        (usable_iff g.listeners).0 ((conclude-valid g.listeners _).0 h) in
                      (valid.0 v, ground (arith, no_address), l, m, served),
                  λ (fine, none_asked, l, m, served).
                      (conclude-valid g.listeners _).1 ((usable_iff g.listeners).1 (l, m, served)),
                )
        ]
        | inr n ↦ rw n (λ h. cc, λ h. let v = valid.1 h.0 in ground (arith, n, v))
      ]

  -- A gateway is evaluated as valid exactly when the class is there and status_names this controller, its listeners
  -- are valid, it asks for no address, and some listener has exactly one route, accepted and resolved.
  pub evaluate_gateway-valid :
      ((evaluate_gateway lib inf g c routes).valid ≡ true)
      ↔ ((is_foreign lib c ≡ false) × IsServable)
  unfolding refused
  evaluate_gateway-valid = elim (evaluate_gateway-cases lib inf g c routes) [
    | inl (foreign, m, e) ↦ rw (e, foreign) (λ h. ground arith, λ h. let ours = h.0 in ground arith)
    | inr (ours, e) ↦
        rw (e, ours)
          (λ h. (refl, evaluate_validated-valid.0 h), λ h. evaluate_validated-valid.1 h.1)
  ]
