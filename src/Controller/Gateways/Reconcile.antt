-- ===== src/Controller/Gateways/Reconcile.antt =====
-- internal/controller/gateway_reconcile.go: the reconciliation of gateway classes and gateways, with
-- updateGatewayStatus of status.go.
pub mod Deletion
use clusterip_gw.Base.{
  String, Bool, true, false, not, Option, none, some, List, [], ◌∷◌, ◌==◌, ◌!=◌, ◌&&◌, string_eq,
  if◌then◌else◌, M, lift, return, ◌>>=◌, ◌>>◌, Result, ok, err, Error, not_found, message,
}
use clusterip_gw.Kube.{
  condition_true, condition_false, Condition, GatewayClass, GatewayAddress, GatewayStatus, Gateway,
  TcpRoute, NamespacedName, key_of,
}
use clusterip_gw.Meta.{gateway_class_name}
use clusterip_gw.Controller.{controller_name, Library, Client, Informers}
use clusterip_gw.Controller.Refs.{namespaced_key, split_namespaced_key}
use clusterip_gw.Controller.Status.{
  merge_conditions, condition, bool_to_condition_status, condition_reason,
  gateway_class_status_equal, gateway_status_equal,
}
use clusterip_gw.Controller.Listeners.{set_listener_programmed_condition}
use clusterip_gw.Controller.Ipam.{ParsedPrefix, ensure_gateway_vip, release_gateway_ip_addresses}
use clusterip_gw.Controller.Routes.{found_or_none}
use clusterip_gw.Controller.Finalizers.{
  gateway_previously_managed, clear_managed_gateway_status, ensure_gateway_finalizer,
  cleanup_gateway_resources,
}
use clusterip_gw.Controller.Gateways.{
  GatewayEvaluation, evaluate_gateway, should_manage_gateway_class, gateway_class_accepted_message,
}

module _ (lib : Library) where
  vip_addresses : String → List GatewayAddress
  vip_addresses vip = if vip != "" then record { type = some "IPAddress"; value = vip } ∷ [] else []

  unfoldable pub evaluated_status : Gateway → GatewayEvaluation → Gateway
  unfolding vip_addresses
  evaluated_status g e = record g {
    status = record {
      addresses = vip_addresses e.selected_vip;
      conditions = merge_conditions lib g.status.conditions (
          condition lib "Accepted" e.accepted_status e.accepted_reason e.accepted_message
            g.meta.generation
          ∷ condition lib "Programmed" condition_false e.programmed_reason e.programmed_message
              g.meta.generation
          ∷ []);
      listeners = e.listeners;
    };
  }

  -- The evaluation after ensureGatewayVIP, with its error or the address.
  unfoldable pub with_vip : Gateway → GatewayEvaluation → Result String → GatewayEvaluation
  with_vip g e (err x) = record e {
    needs_vip = false;
    selected_vip = "";
    programmed_reason = "AddressNotAssigned";
    programmed_message = message x;
    listeners =
        set_listener_programmed_condition lib e.listeners condition_false "AddressNotAssigned"
          (message x) g.meta.generation;
  }
  with_vip g e (ok vip) = record e {
    selected_vip = vip;
    programmed_reason = "Pending";
    programmed_message = "VIP reserved; dataplane programming is not implemented in this phase.";
    listeners =
        set_listener_programmed_condition lib e.listeners condition_false "Pending"
          "VIP reserved; dataplane programming is pending." g.meta.generation;
  }

  unfoldable pub class_is_accepted : GatewayClass → Bool
  class_is_accepted c = c.meta.name == gateway_class_name && c.controller_name == controller_name

  unfoldable pub updated_class : GatewayClass → GatewayClass
  updated_class c = record c { conditions = if class_is_accepted c then supported else accepted }
    where
      accepted : List Condition
      accepted = merge_conditions lib c.conditions (
          condition lib "Accepted" (bool_to_condition_status (class_is_accepted c))
            (condition_reason (class_is_accepted c) "Accepted" "Unsupported")
            (gateway_class_accepted_message c (class_is_accepted c)) c.meta.generation
          ∷ [])

      supported : List Condition
      supported = merge_conditions lib accepted (
          condition lib "SupportedVersion" condition_true "SupportedVersion"
            "Gateway API versions used by this controller are supported." c.meta.generation
          ∷ [])

  module _ {W : Type 0} (client : Client W) where
    unfoldable pub update_gateway_status : Gateway → GatewayEvaluation → M W (Unit {0})
    update_gateway_status g e =
        if gateway_status_equal g (evaluated_status g e)
        then return tt
        else client.update_gateway_status (evaluated_status g e)

    found_class : Result GatewayClass → M W (Unit {0})
    found_class (err (not_found m)) = return tt
    found_class (err e) = lift (err e)
    found_class (ok c) =
        if not (should_manage_gateway_class c)
        then return tt
        else if gateway_class_status_equal c (updated_class c)
        then return tt
        else client.update_gateway_class_status (updated_class c)

    unfoldable pub reconcile_gateway_class : Informers → String → M W (Unit {0})
    unfolding found_class
    reconcile_gateway_class inf key = found_class (inf.gateway_class key)

    -- The gateway is of another class: what this controller left in it is cleared.
    unfoldable pub leave_gateway : Informers → Gateway → M W (Unit {0})
    leave_gateway inf g = do
      managed ← lift (gateway_previously_managed inf g)
      (if managed then clear_managed_gateway_status client g else return tt)
      cleanup_gateway_resources client inf g

    -- The error of ensureGatewayVIP does not stop the reconciliation: it is written to the status.
    report : Gateway → GatewayEvaluation → Result String × W → Result (Unit {0}) × W
    report g e (r, w) = update_gateway_status g (with_vip g e r) w

    give_up : Informers → Gateway → GatewayEvaluation → M W (Unit {0})
    give_up inf g e = do release_gateway_ip_addresses client inf g; update_gateway_status g e

    unfoldable pub act_on_evaluation :
        (String → Option ParsedPrefix) → Informers → Gateway → GatewayEvaluation → M W (Unit {0})
    unfolding report give_up
    act_on_evaluation parse_prefix inf g e = if not e.valid then give_up inf g e else λ w.
        report g e (ensure_gateway_vip client parse_prefix inf g w)

    evaluate_and_act : (String → Option ParsedPrefix) → Informers → Gateway → M W (Unit {0})
    evaluate_and_act parse_prefix inf g = do
      c ← lift (found_or_none lib (inf.gateway_class gateway_class_name))
      routes ← lift (inf.routes_by_gateway (namespaced_key (key_of g.meta)))
      act_on_evaluation parse_prefix inf g (evaluate_gateway lib inf g c routes)

    unfoldable pub reconcile_found_gateway :
        (String → Option ParsedPrefix) → Informers → Gateway → M W (Unit {0})
    unfolding evaluate_and_act
    reconcile_found_gateway parse_prefix inf g =
        if g.gateway_class_name != gateway_class_name
        then leave_gateway inf g
        else if g.meta.deleting
        then cleanup_gateway_resources client inf g
        else do
          added ← ensure_gateway_finalizer client g
          (if added then return tt else evaluate_and_act parse_prefix inf g)

    found_gateway : (String → Option ParsedPrefix) → Informers → Result Gateway → M W (Unit {0})
    found_gateway parse_prefix inf (err (not_found m)) = return tt
    found_gateway parse_prefix inf (err e) = lift (err e)
    found_gateway parse_prefix inf (ok g) = reconcile_found_gateway parse_prefix inf g

    get_gateway : Informers → Result NamespacedName → Result Gateway
    get_gateway inf (err e) = err e
    get_gateway inf (ok k) = inf.gateway k.namespace k.name

    unfoldable pub reconcile_gateway :
        (String → Option ParsedPrefix) → Informers → String → M W (Unit {0})
    unfolding found_gateway get_gateway
    reconcile_gateway parse_prefix inf key =
        found_gateway parse_prefix inf (get_gateway inf (split_namespaced_key key))
