-- ===== src/Tests/Events.antt =====
-- Events of a route and a gateway.
use clusterip_gw.Base.{◌≡◌, some, refl, inl, inr, [], ◌∷◌, ok, Member, string_eq}
use clusterip_gw.Kube.{key_of}
use clusterip_gw.Controller.Refs.{namespaced_key}
use clusterip_gw.Controller.Handlers.{Indexes, route_task, route_updated, handle}
use clusterip_gw.Controller.Handlers.Tasks.{handle-route_updated}
use clusterip_gw.Kube.Objects.{Notice, deleted, tombstone, gateway_object}
use clusterip_gw.Controller.Refs.{is_gateway_parent_ref}
use clusterip_gw.Controller.Handlers.{Event, Task}
use clusterip_gw.Controller.Handlers.Indexed.{
  indexes_of, IsOf, IsAttached, Concerns, handle-gateway_notice,
}
use clusterip_gw.Controller.Objects.{gateways, latest, register_handlers}
use clusterip_gw.Tests.Cluster.{gateway, tcp_route, selector}

abbrev indexes : Indexes
indexes = record {
  gateways_by_class = λ c. ok (gateway ∷ []);
  routes_by_gateway = λ k. ok (tcp_route ∷ []);
  routes_by_endpoint_selector = λ k. ok (tcp_route ∷ []);
  selectors_by_namespace = λ k. ok (selector ∷ []);
}

handle-route_updated_example :
    Member
      (route_task (namespaced_key (key_of tcp_route.meta)))
      (handle indexes (route_updated tcp_route tcp_route))
handle-route_updated_example =
    handle-route_updated indexes tcp_route tcp_route
      (route_task (namespaced_key (key_of tcp_route.meta))) (λ e. cc, λ e. cc) (inl refl)

-- The deletion of a gateway that the informer's watch missed.
abbrev missing : Notice
missing = deleted (tombstone (gateway_object gateway))

handle-gateway_notice_example :
    (e : Event) × (register_handlers gateways missing ≡ some e)
    × ((t : Task)
        → Concerns gateway (tcp_route ∷ []) t
        → Member t (handle (indexes_of (gateway ∷ []) (tcp_route ∷ []) (selector ∷ [])) e))
unfolding IsOf latest
handle-gateway_notice_example =
    handle-gateway_notice (gateway ∷ []) (tcp_route ∷ []) (selector ∷ []) gateway missing (inr refl)
      (λ e. cc, λ e. cc)

-- The route is attached to it.
route-IsAttached : IsAttached tcp_route gateway
unfolding IsAttached is_gateway_parent_ref string_eq
route-IsAttached = (_, inl refl, refl, refl)
