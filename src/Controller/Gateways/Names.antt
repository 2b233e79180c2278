-- ===== src/Controller/Gateways/Names.antt =====
-- Which listeners an evaluation has statuses of.
use clusterip_gw.Base.{
  false, List, [], ◌∷◌, ◌++◌, ◌≡◌, inl, inr, sym, ap, ◌∙◌, length, ltb, map_append, append_assoc,
  append_nil, Option, Bool-cases, nat_eq, string_eq, arith,
}
use clusterip_gw.Kube.{condition_status_eq, Gateway, GatewayClass, Listener, TcpRoute}
use clusterip_gw.Controller.{Library, Informers}
use clusterip_gw.Controller.Listeners.{
  validate_gateway_listeners, listener_status_for_outcome, rejected_status,
}
use clusterip_gw.Controller.Listeners.Valid.{validate_gateway_listeners-listeners}
use clusterip_gw.Controller.Listeners.Statuses.{
  status_names, listener_names, validate_gateway_listeners-names,
  listener_statuses_for_gateway_message-names,
}
use clusterip_gw.Controller.Routes.{matching_parent_ref, evaluate_route, is_foreign}
use clusterip_gw.Controller.Gateways.{
  Progress, refused, fail, route_usable, usable_status, with_route, evaluate_listener,
  evaluate_listeners, conclude, evaluate_validated, evaluate_gateway,
}
use clusterip_gw.Controller.Gateways.Cases.{evaluate_gateway-cases}

module _ (lib : Library) (inf : Informers) (g : Gateway) (c : Option GatewayClass)
    (routes : List TcpRoute) where
  evaluate_listener-names :
      (l : Listener) (rs : List TcpRoute) (s : Progress)
      → status_names (evaluate_listener lib inf g c routes l rs s).statuses
        ≡ status_names s.statuses ++ (l.name ∷ [])
  unfolding evaluate_listener with_route fail usable_status rejected_status
      listener_status_for_outcome
  evaluate_listener-names l [] s = map_append (λ x. x.name) s.statuses _
  evaluate_listener-names l (r ∷ []) s =
      elim (Bool-cases
        (route_usable lib (evaluate_route lib inf r (matching_parent_ref r g) g c routes))) [
          | inl e ↦ rw e (map_append (λ x. x.name) s.statuses _)
          | inr e ↦ rw e (map_append (λ x. x.name) s.statuses _)
        ]
  evaluate_listener-names l (_ ∷ _ ∷ _) s = map_append (λ x. x.name) s.statuses _

  evaluate_listeners-names :
      (ls : List Listener) (s : Progress)
      → status_names (evaluate_listeners lib inf g c routes ls s).statuses
        ≡ status_names s.statuses ++ listener_names ls
  unfolding evaluate_listeners
  evaluate_listeners-names [] s = sym (append_nil (status_names s.statuses))
  evaluate_listeners-names (l ∷ ls) s =
      evaluate_listeners-names ls _
      ∙ (ap (λ xs. xs ++ listener_names ls) (evaluate_listener-names l _ s)
          ∙ append_assoc (status_names s.statuses) (l.name ∷ []) _)

  conclude-statuses :
      (ls : List Listener) (s : Progress) → (conclude lib ls s).listeners ≡ s.statuses
  unfolding conclude refused
  conclude-statuses ls s = ground arith

  evaluate_validated-names :
      status_names
        (evaluate_validated lib inf g c routes (validate_gateway_listeners lib g)).listeners
      ≡ listener_names g.listeners
  unfolding evaluate_validated refused
  evaluate_validated-names = elim (Bool-cases (validate_gateway_listeners lib g).valid) [
    | inl v ↦ elim (Bool-cases (ltb 0 (length g.spec_addresses))) [
      | inl some_address ↦
          rw (v, some_address)
            (listener_statuses_for_gateway_message-names lib g.listeners _ g.meta.generation)
      | inr no_address ↦
          rw (v, no_address, validate_gateway_listeners-listeners lib g v)
            (ap status_names (conclude-statuses g.listeners _)
              ∙ evaluate_listeners-names g.listeners
                  (record { statuses = []; first_error = ""; usable = 0 }))
    ]
    | inr n ↦ rw n (validate_gateway_listeners-names lib g)
  ]

  -- With a class that names this controller, the evaluation has one status for each listener of the spec, in its order.
  pub evaluate_gateway-names :
      is_foreign lib c ≡ false
      → status_names (evaluate_gateway lib inf g c routes).listeners ≡ listener_names g.listeners
  evaluate_gateway-names ours = elim (evaluate_gateway-cases lib inf g c routes) [
    | inl (foreign, m, e) ↦ ground (arith, ours, foreign)
    | inr (_, e) ↦ rw e evaluate_validated-names
  ]
