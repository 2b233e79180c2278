-- ===== src/Controller/Objects.antt =====
-- internal/controller/indexers.go and handlers.go: the objects in what the informers hand to the handlers
-- that registerHandlers registers, and the event that each notice is. A panic is none.
use clusterip_gw.Base.{Option, none, some}
use clusterip_gw.Kube.{
  GatewayClass, Gateway, TcpRoute, EndpointSelector, Pod, EndpointSlice, IpAddress,
}
use clusterip_gw.Kube.Objects.{
  Object, class_object, gateway_object, route_object, selector_object, pod_object, slice_object,
  address_object, tombstone, Notice, added, updated, deleted,
}
use clusterip_gw.Controller.Handlers.{
  Event, class_event, gateway_event, route_event, route_updated, selector_event, pod_event,
  slice_event, address_event, service_cidr_event,
}

unfoldable pub gateway_class_from_object : Object → Option GatewayClass
gateway_class_from_object (class_object c) = some c
gateway_class_from_object (tombstone (class_object c)) = some c
gateway_class_from_object _ = none

unfoldable pub gateway_from_object : Object → Option Gateway
gateway_from_object (gateway_object g) = some g
gateway_from_object (tombstone (gateway_object g)) = some g
gateway_from_object _ = none

unfoldable pub route_from_object : Object → Option TcpRoute
route_from_object (route_object r) = some r
route_from_object (tombstone (route_object r)) = some r
route_from_object _ = none

unfoldable pub pod_from_object : Object → Option Pod
pod_from_object (pod_object p) = some p
pod_from_object (tombstone (pod_object p)) = some p
pod_from_object _ = none

unfoldable pub endpoint_selector_from_object : Object → Option EndpointSelector
endpoint_selector_from_object (selector_object s) = some s
endpoint_selector_from_object (tombstone (selector_object s)) = some s
endpoint_selector_from_object _ = none

unfoldable pub endpoint_slice_from_object : Object → Option EndpointSlice
endpoint_slice_from_object (slice_object s) = some s
endpoint_slice_from_object (tombstone (slice_object s)) = some s
endpoint_slice_from_object _ = none

unfoldable pub ip_address_from_object : Object → Option IpAddress
ip_address_from_object (address_object a) = some a
ip_address_from_object (tombstone (address_object a)) = some a
ip_address_from_object _ = none

-- The informers that handlers are added to.
pub data Source : Type 0 where
  gateway_classes gateways routes endpoint_selectors pods endpoint_slices ip_addresses
        service_cidrs :
      Source

unfoldable pub call : {A : Type 0} → (A → Event) → Option A → Option Event
call f none = none
call f (some a) = some (f a)

unfoldable pub call_both : {A : Type 0} → (A → A → Event) → Option A → Option A → Option Event
unfolding call
call_both f none b = none
call_both f (some a) b = call (f a) b

-- The object of a notice; of an update the new one.
unfoldable pub latest : Notice → Object
latest (added o) = o
latest (updated old new) = new
latest (deleted o) = o

unfoldable pub route_handler : Notice → Option Event
unfolding call call_both route_from_object
route_handler (added o) = call route_event (route_from_object o)
route_handler (updated old new) =
    call_both route_updated (route_from_object old) (route_from_object new)
route_handler (deleted o) = call route_event (route_from_object o)

unfoldable pub register_handlers : Source → Notice → Option Event
unfolding call latest route_handler
register_handlers gateway_classes n = call class_event (gateway_class_from_object (latest n))
register_handlers gateways n = call gateway_event (gateway_from_object (latest n))
register_handlers routes n = route_handler n
register_handlers endpoint_selectors n =
    call selector_event (endpoint_selector_from_object (latest n))
register_handlers pods n = call pod_event (pod_from_object (latest n))
register_handlers endpoint_slices n = call slice_event (endpoint_slice_from_object (latest n))
register_handlers ip_addresses n = call address_event (ip_address_from_object (latest n))
register_handlers service_cidrs n = some service_cidr_event
