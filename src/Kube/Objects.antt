-- ===== src/Kube/Objects.antt =====
-- What client-go's informers hand to their handlers as `interface{}`: an object of one of the types that
-- the program reads, an object of another type, or the tombstone of one whose deletion was missed.
use clusterip_gw.Kube.{
  GatewayClass, Gateway, TcpRoute, EndpointSelector, Pod, EndpointSlice, IpAddress,
}

pub data Object : Type 0 where
  class_object : GatewayClass → Object
  gateway_object : Gateway → Object
  route_object : TcpRoute → Object
  selector_object : EndpointSelector → Object
  pod_object : Pod → Object
  slice_object : EndpointSlice → Object
  address_object : IpAddress → Object
  other_object : Object
  tombstone : Object → Object

-- The calls of `cache.ResourceEventHandlerFuncs`.
pub data Notice : Type 0 where
  added : Object → Notice
  updated : Object → Object → Notice
  deleted : Object → Notice
