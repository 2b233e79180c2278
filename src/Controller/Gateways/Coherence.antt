-- ===== src/Controller/Gateways/Coherence.antt =====
-- What the fields of every evaluation have in common.
use clusterip_gw.Base.{
  String, true, not, ◌==◌, if_both, List, [], ◌≡◌, inl, inr, refl, length, ltb, Option, nat_eq,
  string_eq, if◌then◌else◌,
}
use clusterip_gw.Kube.{
  condition_true, condition_false, condition_status_eq, Gateway, GatewayClass, Listener,
  ListenerStatus, TcpRoute,
}
use clusterip_gw.Controller.{Library, Informers}
use clusterip_gw.Controller.Listeners.{validate_gateway_listeners}
use clusterip_gw.Controller.Gateways.{
  GatewayEvaluation, Progress, refused, conclude, evaluate_validated, evaluate_gateway,
}
use clusterip_gw.Controller.Gateways.Cases.{evaluate_gateway-cases}

-- What the fields of every evaluation have in common.
IsCoherent : GatewayEvaluation → Type 0
IsCoherent e =
    (e.accepted_status ≡ (if e.valid then condition_true else condition_false))
    × (e.needs_vip ≡ e.valid)
    × (e.selected_vip ≡ "")

refused-IsCoherent :
    (reason m : String) (statuses : List ListenerStatus) → IsCoherent (refused reason m statuses)
unfolding IsCoherent refused
refused-IsCoherent reason m statuses = (refl, refl, refl)

accepted-IsCoherent :
    (m : String) (statuses : List ListenerStatus)
    → IsCoherent (record {
      accepted_status = condition_true;
      accepted_reason = "Accepted";
      accepted_message = m;
      programmed_reason = "Pending";
      programmed_message = "Waiting for VIP allocation.";
      listeners = statuses;
      valid = true;
      selected_vip = "";
      needs_vip = true;
    })
unfolding IsCoherent
accepted-IsCoherent m statuses = (refl, refl, refl)

conclude-IsCoherent :
    (lib : Library) (ls : List Listener) (s : Progress) → IsCoherent (conclude lib ls s)
unfolding conclude
conclude-IsCoherent lib ls s =
    if_both IsCoherent (s.usable == 0) _ _ (refused-IsCoherent _ _ _) (accepted-IsCoherent _ _)

module _ (lib : Library) (inf : Informers) (g : Gateway) (c : Option GatewayClass)
    (routes : List TcpRoute) where
  evaluate_validated-IsCoherent :
      IsCoherent (evaluate_validated lib inf g c routes (validate_gateway_listeners lib g))
  unfolding evaluate_validated
  evaluate_validated-IsCoherent =
      (if_both IsCoherent (not (validate_gateway_listeners lib g).valid) _ _
        (refused-IsCoherent _ _ _)
        (if_both IsCoherent (ltb 0 (length g.spec_addresses)) _ _ (refused-IsCoherent _ _ _)
          (conclude-IsCoherent lib _ _)))

  -- A gateway is accepted, and needs an address, exactly when the evaluation is valid, and
  -- no evaluation selects an address by itself.
  pub evaluate_gateway-accepted :
      ((evaluate_gateway lib inf g c routes).accepted_status
        ≡ (if (evaluate_gateway lib inf g c routes).valid then condition_true else condition_false))
      × ((evaluate_gateway lib inf g c routes).needs_vip
          ≡ (evaluate_gateway lib inf g c routes).valid)
      × ((evaluate_gateway lib inf g c routes).selected_vip ≡ "")
  unfolding IsCoherent
  evaluate_gateway-accepted = elim (evaluate_gateway-cases lib inf g c routes) [
    | inl (foreign, m, e) ↦ rw e (refused-IsCoherent "InvalidParameters" m [])
    | inr (ours, e) ↦ rw e evaluate_validated-IsCoherent
  ]
