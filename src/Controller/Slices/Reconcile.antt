-- ===== src/Controller/Slices/Reconcile.antt =====
-- internal/controller/endpointselector_reconcile.go: reconcileEndpointSelector and its writes.
use clusterip_gw.Base.{
  String, Bool, Option, none, some, List, [], ◌∷◌, ◌!=◌, nat_eq, if◌then◌else◌, lookup, remove,
  string_eq, M, lift, return, ◌>>=◌, ◌>>◌, Result, ok, err, not_found, ignore_not_found,
}
use clusterip_gw.Kube.{
  ConditionStatus, condition_true, condition_status_eq, NamespacedName, EndpointSlice,
  EndpointSelector,
}
use clusterip_gw.Net.{Ipv4}
use clusterip_gw.Controller.{Library, Client, Informers}
use clusterip_gw.Controller.Refs.{namespaced_key, split_namespaced_key}
use clusterip_gw.Controller.Status.{merge_conditions, condition, conditions_equal}
use clusterip_gw.Controller.Routes.{get_endpoint_selector, evaluate_endpoint_selector}
use clusterip_gw.Controller.Bindings.{Binding, list_referenced_gateway_bindings}
use clusterip_gw.Controller.Slices.{
  Semantic, desired_slices, build_endpoint_slice_endpoints, endpoint_slice_equal, refreshed,
}

unfoldable pub endpoint_selector_status_equal : EndpointSelector → EndpointSelector → Bool
endpoint_selector_status_equal a b = conditions_equal a.conditions b.conditions

unfoldable pub list_managed_endpoint_slices :
    Informers → NamespacedName → Result (List EndpointSlice)
list_managed_endpoint_slices inf key = inf.endpoint_slices_by_endpoint_selector (namespaced_key key)

module _ {W : Type 0} (client : Client W) where
  -- `Delete`, where `NotFound` is no error.
  unfoldable pub delete_endpoint_slices : List EndpointSlice → M W (Unit {0})
  delete_endpoint_slices [] = return tt
  delete_endpoint_slices (s ∷ rest) = do
    ignore_not_found (client.delete_endpoint_slice s.meta.namespace s.meta.name)
    delete_endpoint_slices rest

  unfoldable pub delete_managed_endpoint_slices : Informers → NamespacedName → M W (Unit {0})
  delete_managed_endpoint_slices inf key = do
    existing ← lift (list_managed_endpoint_slices inf key)
    delete_endpoint_slices existing

  -- One existing slice, with the desired ones that are left: `desired` loses those that are there.
  unfoldable pub update_slice :
      Semantic
      → EndpointSlice
      → Option EndpointSlice
      → List (String × EndpointSlice)
      → M W (List (String × EndpointSlice))
  update_slice same e none desired = do
    ignore_not_found (client.delete_endpoint_slice e.meta.namespace e.meta.name)
    return desired
  update_slice same e (some d) desired =
      if endpoint_slice_equal same e d
      then return (remove desired e.meta.name)
      else do client.update_endpoint_slice (refreshed e d); return (remove desired e.meta.name)

  unfoldable pub update_slices :
      Semantic
      → List EndpointSlice
      → List (String × EndpointSlice)
      → M W (List (String × EndpointSlice))
  update_slices same [] desired = return desired
  update_slices same (e ∷ rest) desired = do
    left ← update_slice same e (lookup desired e.meta.name) desired
    update_slices same rest left

  unfoldable pub create_slices : List (String × EndpointSlice) → M W (Unit {0})
  create_slices [] = return tt
  create_slices ((name, s) ∷ rest) = do client.create_endpoint_slice s; create_slices rest

  unfoldable pub sync_slices :
      Semantic → List EndpointSlice → List (String × EndpointSlice) → M W (Unit {0})
  sync_slices same existing desired = do
    left ← update_slices same existing desired
    create_slices left

module _ {W : Type 0} (lib : Library) (client : Client W) where
  unfoldable pub with_status :
      EndpointSelector → ConditionStatus × String × String → EndpointSelector
  with_status s (status, reason, message) = record s {
    conditions =
        merge_conditions lib []
          (condition lib "Accepted" status reason message s.meta.generation ∷ []);
  }

  -- The conversion of the selector to an unstructured object belongs to the call.
  unfoldable pub update_endpoint_selector_status :
      EndpointSelector → ConditionStatus × String × String → M W (Unit {0})
  update_endpoint_selector_status s outcome =
      if endpoint_selector_status_equal s (with_status s outcome)
      then return tt
      else client.update_endpoint_selector_status (with_status s outcome)

  -- The slices of a selector that is accepted.
  unfoldable pub serve_bindings :
      Semantic
      → (String → Option Ipv4)
      → (String → String)
      → Informers
      → EndpointSelector
      → NamespacedName
      → List Binding
      → M W (Unit {0})
  serve_bindings same parse_ipv4 digest inf s key [] = delete_managed_endpoint_slices client inf key
  serve_bindings same parse_ipv4 digest inf s key (b ∷ rest) = do
    endpoints ← lift (build_endpoint_slice_endpoints parse_ipv4 lib inf s)
    existing ← lift (list_managed_endpoint_slices inf key)
    sync_slices client same existing (desired_slices digest s endpoints [] (b ∷ rest))

  unfoldable pub serve_selector :
      Semantic
      → (String → Option Ipv4)
      → (String → String)
      → Informers
      → EndpointSelector
      → NamespacedName
      → M W (Unit {0})
  unfolding serve_bindings
  serve_selector same parse_ipv4 digest inf s key = do
    bindings ← lift (list_referenced_gateway_bindings lib inf s)
    serve_bindings same parse_ipv4 digest inf s key bindings

  unfoldable pub evaluate_selector :
      Semantic
      → (String → Option Ipv4)
      → (String → String)
      → Informers
      → NamespacedName
      → Result EndpointSelector
      → M W (Unit {0})
  unfolding serve_selector
  evaluate_selector same parse_ipv4 digest inf key (err (not_found m)) =
      delete_managed_endpoint_slices client inf key
  evaluate_selector same parse_ipv4 digest inf key (err e) = lift (err e)
  evaluate_selector same parse_ipv4 digest inf key (ok s) = do
    update_endpoint_selector_status s (evaluate_endpoint_selector lib s)
    (if (evaluate_endpoint_selector lib s).0 != condition_true
        then delete_managed_endpoint_slices client inf key
        else serve_selector same parse_ipv4 digest inf s key)

  unfoldable pub reconcile_endpoint_selector :
      Semantic → (String → Option Ipv4) → (String → String) → Informers → String → M W (Unit {0})
  unfolding evaluate_selector
  reconcile_endpoint_selector same parse_ipv4 digest inf key = do
    name ← lift (split_namespaced_key key)
    evaluate_selector same parse_ipv4 digest inf name (get_endpoint_selector inf name)
