-- ===== src/Controller/Finalizers.antt =====
-- internal/controller/ipam.go: the finalizer of a gateway, and what is cleared when a gateway goes or
-- leaves the managed class.
pub mod Cleanup
use clusterip_gw.Base.{
  ℕ, suc, String, Bool, true, false, not, List, [], ◌∷◌, ◌++◌, ltb, string_eq, contains,
  if◌then◌else◌, length, M, return, lift, ◌>>=◌, ◌>>◌, Result, ok, err, not_found, ignore_not_found,
  map_ok,
}
use clusterip_gw.Kube.{Gateway, ObjectMeta, key_of}
use clusterip_gw.Controller.{controller_finalizer, Client, Informers}
use clusterip_gw.Controller.Status.{remove_conditions, gateway_status_equal}
use clusterip_gw.Controller.Ipam.{
  delete_string, list_owned_gateway_ip_addresses, release_gateway_ip_addresses,
}

unfoldable pub has_finalizer : Gateway → Bool
has_finalizer g = contains g.meta.finalizers controller_finalizer

unfoldable pub with_finalizers : Gateway → List String → Gateway
with_finalizers g finalizers = record g { meta = record g.meta { finalizers = finalizers } }

unfoldable pub gateway_previously_managed : Informers → Gateway → Result Bool
gateway_previously_managed inf g =
    if has_finalizer g
    then ok true
    else map_ok (λ owned. ltb 0 (length owned))
        (list_owned_gateway_ip_addresses inf (key_of g.meta))

unfoldable pub cleared : Gateway → Gateway
cleared g = record g {
  status = record {
    addresses = [];
    conditions = remove_conditions g.status.conditions ("Accepted" ∷ "Programmed" ∷ []);
    listeners = [];
  };
}

module _ {W : Type 0} (client : Client W) where
  unfoldable pub clear_managed_gateway_status : Gateway → M W (Unit {0})
  clear_managed_gateway_status g =
      if gateway_status_equal g (cleared g)
      then return tt
      else client.update_gateway_status (cleared g)

  -- Whether the finalizer was added; the gateway is read again from the API server.
  unfoldable pub ensure_gateway_finalizer : Gateway → M W Bool
  ensure_gateway_finalizer g =
      if has_finalizer g
      then return false
      else do updated ← client.get_gateway g.meta.namespace g.meta.name; add updated
    where
      add : Gateway → M W Bool
      add updated = if has_finalizer updated then return false else do
        client.update_gateway
            (with_finalizers updated (updated.meta.finalizers ++ (controller_finalizer ∷ [])))
        return true

  drop_finalizer : Gateway → M W (Unit {0})
  drop_finalizer current =
      if not (has_finalizer current)
      then return tt
      else ignore_not_found (
          client.update_gateway
            (with_finalizers current (delete_string current.meta.finalizers controller_finalizer)))

  after_get : Result Gateway × W → Result (Unit {0}) × W
  unfolding drop_finalizer
  after_get (err (not_found m), w) = (ok tt, w)
  after_get (err e, w) = (err e, w)
  after_get (ok current, w) = drop_finalizer current w

  unfoldable pub remove_gateway_finalizer : Gateway → M W (Unit {0})
  unfolding after_get
  remove_gateway_finalizer g w = after_get (client.get_gateway g.meta.namespace g.meta.name w)

  unfoldable pub cleanup_gateway_resources : Informers → Gateway → M W (Unit {0})
  cleanup_gateway_resources inf g = do
    release_gateway_ip_addresses client inf g
    remove_gateway_finalizer g
