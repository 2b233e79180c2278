-- ===== src/Controller/Routes/Reconcile.antt =====
-- internal/controller/route_reconcile.go: the parents of a route's status, and the reconciliation.
use clusterip_gw.Base.{
  String, not, Option, List, [], ◌∷◌, ◌++◌, ◌!=◌, nat_eq, string_eq, int_eq, option_eq,
  if◌then◌else◌, M, lift, return, ◌>>=◌, Result, ok, err, not_found,
}
use clusterip_gw.Kube.{
  condition_status_eq, GatewayClass, Gateway, NamespacedName, key_of, ParentReference,
  RouteParentStatus, TcpRoute,
}
use clusterip_gw.Meta.{gateway_class_name}
use clusterip_gw.Controller.{controller_name, Library, Client, Informers}
use clusterip_gw.Controller.Refs.{
  namespaced_key, split_namespaced_key, or_default, is_gateway_parent_ref,
}
use clusterip_gw.Controller.Status.{
  merge_conditions, condition, merge_route_parents, route_status_equal,
}
use clusterip_gw.Controller.Routes.{RouteEvaluation, found_or_none, evaluate_route}

module _ (lib : Library) where
  unfoldable pub parent_status : TcpRoute → ParentReference → RouteEvaluation → RouteParentStatus
  parent_status r p e = record {
    parent_ref = p;
    controller_name = controller_name;
    conditions = merge_conditions lib [] (
        condition lib "Accepted" e.accepted_status e.accepted_reason e.accepted_message
          r.meta.generation
        ∷ condition lib "ResolvedRefs" e.resolved_status e.resolved_reason e.resolved_message
            r.meta.generation
        ∷ []);
  }

  -- The references of the loop that are skipped: not to a gateway, to a missing one, or to one of
  -- another class.
  desired_parent :
      Informers → TcpRoute → ParentReference → Result Gateway → Result (List RouteParentStatus)
  desired_parent inf r p (err (not_found m)) = ok []
  desired_parent inf r p (err e) = err e
  desired_parent inf r p (ok g) =
      if g.gateway_class_name != gateway_class_name
      then ok []
      else with_class (found_or_none lib (inf.gateway_class gateway_class_name))
          (inf.routes_by_gateway (namespaced_key (key_of g.meta)))
    where
      with_class :
          Result (Option GatewayClass) → Result (List TcpRoute) → Result (List RouteParentStatus)
      with_class (err e) attached = err e
      with_class (ok c) (err e) = err e
      with_class (ok c) (ok attached) =
          ok (parent_status r p (evaluate_route lib inf r p g c attached) ∷ [])

  join_results :
      Result (List RouteParentStatus)
      → Result (List RouteParentStatus)
      → Result (List RouteParentStatus)
  join_results (err e) rest = err e
  join_results (ok now) (err e) = err e
  join_results (ok now) (ok rest) = ok (now ++ rest)

  unfoldable pub desired_parents :
      Informers → TcpRoute → List ParentReference → Result (List RouteParentStatus)
  unfolding desired_parent join_results
  desired_parents inf r [] = ok []
  desired_parents inf r (p ∷ rest) =
      let later = desired_parents inf r rest in
      if not (is_gateway_parent_ref p)
      then later
      else join_results
          (desired_parent inf r p (inf.gateway (or_default p.namespace r.meta.namespace) p.name))
          later

  unfoldable pub updated_route : TcpRoute → List RouteParentStatus → TcpRoute
  updated_route r desired = record r { parents = merge_route_parents r.parents desired }

  module _ {W : Type 0} (client : Client W) where
    write_route : TcpRoute → TcpRoute → M W (Unit {0})
    write_route r updated =
        if route_status_equal r updated then return tt else client.update_route_status updated

    found_route : Informers → Result TcpRoute → M W (Unit {0})
    unfolding write_route
    found_route inf (err (not_found m)) = return tt
    found_route inf (err e) = lift (err e)
    found_route inf (ok r) = do
      desired ← lift (desired_parents inf r r.parent_refs)
      write_route r (updated_route r desired)

    get_route : Informers → Result NamespacedName → Result TcpRoute
    get_route inf (err e) = err e
    get_route inf (ok k) = inf.route k.namespace k.name

    unfoldable pub reconcile_route : Informers → String → M W (Unit {0})
    unfolding found_route get_route
    reconcile_route inf key = found_route inf (get_route inf (split_namespaced_key key))
