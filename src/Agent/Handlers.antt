-- ===== src/Agent/Handlers.antt =====
-- internal/agent/app/server_linux.go: what the informers' handlers hand to the proxier. A handler that
-- panics has the result none.
pub mod Deliveries
pub mod Tracked
pub mod Mirrored
use clusterip_gw.Base.{Option, none, some}
use clusterip_gw.Kube.{Gateway, EndpointSlice}
use clusterip_gw.Kube.Objects.{
  Object, gateway_object, slice_object, tombstone, Notice, added, updated, deleted,
}
use clusterip_gw.Agent.Proxier.{
  Event, gateway_add, gateway_update, gateway_delete, endpoint_slice_add, endpoint_slice_update,
  endpoint_slice_delete,
}

unfoldable pub must_gateway : Object → Option Gateway
must_gateway (gateway_object g) = some g
must_gateway (tombstone (gateway_object g)) = some g
must_gateway _ = none

unfoldable pub must_endpoint_slice : Object → Option EndpointSlice
must_endpoint_slice (slice_object s) = some s
must_endpoint_slice (tombstone (slice_object s)) = some s
must_endpoint_slice _ = none

-- The two informers.
pub data Source : Type 0 where
  gateways endpoint_slices : Source

unfoldable pub call : {A : Type 0} → (A → Event) → Option A → Option Event
call f none = none
call f (some a) = some (f a)

unfoldable pub call_both : {A : Type 0} → (A → A → Event) → Option A → Option A → Option Event
unfolding call
call_both f none b = none
call_both f (some a) b = call (f a) b

-- registerHandlers
unfoldable pub register_handlers : Source → Notice → Option Event
unfolding call call_both must_gateway must_endpoint_slice
register_handlers gateways (added o) = call gateway_add (must_gateway o)
register_handlers gateways (updated old new) =
    call_both gateway_update (must_gateway old) (must_gateway new)
register_handlers gateways (deleted o) = call gateway_delete (must_gateway o)
register_handlers endpoint_slices (added o) = call endpoint_slice_add (must_endpoint_slice o)
register_handlers endpoint_slices (updated old new) =
    call_both endpoint_slice_update (must_endpoint_slice old) (must_endpoint_slice new)
register_handlers endpoint_slices (deleted o) = call endpoint_slice_delete (must_endpoint_slice o)
