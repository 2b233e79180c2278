-- ===== src/Controller/Gateways/Cases.antt =====
-- The two ways of evaluateGateway.
use clusterip_gw.Base.{
  String, true, false, ◌!=◌, List, [], ◌≡◌, ◌⊎◌, inl, inr, refl, Option, none, some, Bool-cases,
  nat_eq, string_eq,
}
use clusterip_gw.Kube.{condition_status_eq, Gateway, GatewayClass, TcpRoute}
use clusterip_gw.Controller.{controller_name, Library, Informers}
use clusterip_gw.Controller.Listeners.{validate_gateway_listeners}
use clusterip_gw.Controller.Routes.{is_foreign}
use clusterip_gw.Controller.Gateways.{refused, evaluate_validated, evaluate_gateway}

-- The class decides first: it is foreign, or the gateway itself is looked at.
pub evaluate_gateway-cases :
    (lib : Library) (inf : Informers) (g : Gateway) (c : Option GatewayClass)
    (routes : List TcpRoute)
    → ((is_foreign lib c ≡ true)
        × (m : String) × (evaluate_gateway lib inf g c routes ≡ refused "InvalidParameters" m []))
      ⊎ ((is_foreign lib c ≡ false)
          × (evaluate_gateway lib inf g c routes
              ≡ evaluate_validated lib inf g c routes (validate_gateway_listeners lib g)))
unfolding evaluate_gateway is_foreign
evaluate_gateway-cases lib inf g none routes = inl (refl, _, refl)
evaluate_gateway-cases lib inf g (some c) routes =
    elim (Bool-cases (c.controller_name != controller_name)) [
      | inl e ↦ rw e (inl (refl, _, refl))
      | inr e ↦ rw e (inr (refl, refl))
    ]
