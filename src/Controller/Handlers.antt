-- ===== src/Controller/Handlers.antt =====
-- internal/controller/handlers.go and workers.go: which keys an event puts into the queues, in the order
-- of the calls of `Add`, and what a worker does with a key. The events carry the objects that the
-- informers hand over.
pub mod Tasks
pub mod Indexed
use clusterip_gw.Base.{
  String, Bool, true, false, Option, none, some, List, [], ◌∷◌, ◌++◌, ◌==◌, ◌!=◌, ◌||◌, string_eq,
  if◌then◌else◌, M, Result, ok, err,
}
use clusterip_gw.Kube.{
  NamespacedName, key_of, GatewayClass, Gateway, TcpRoute, EndpointSelector, Pod, EndpointSlice,
  IpAddress,
}
use clusterip_gw.Meta.{gateway_class_name}
use clusterip_gw.Controller.Refs.{
  namespaced_key, route_gateway_parent_keys, route_backend_endpoint_selector_keys,
  gateway_key_for_ip_address, endpoint_selector_key_for_endpoint_slice,
}

-- A key added to one of the four queues.
pub data Task : Type 0 where
  class_task gateway_task route_task selector_task : String → Task

-- The indexes that the handlers read.
pub record Indexes : Type 0 where
  pub gateways_by_class : String → Result (List Gateway)
  pub routes_by_gateway : String → Result (List TcpRoute)
  pub routes_by_endpoint_selector : String → Result (List TcpRoute)
  pub selectors_by_namespace : String → Result (List EndpointSelector)

pub data Event : Type 0 where
  class_event : GatewayClass → Event
  gateway_event : Gateway → Event
  route_event : TcpRoute → Event
  route_updated : TcpRoute → TcpRoute → Event
  selector_event : EndpointSelector → Event
  pod_event : Pod → Event
  slice_event : EndpointSlice → Event
  address_event : IpAddress → Event
  service_cidr_event : Event

-- The key, if it names an object.
unfoldable pub enqueue_named : (String → Task) → NamespacedName → List Task
enqueue_named task key =
    if key.namespace == "" || key.name == "" then [] else task (namespaced_key key) ∷ []

unfoldable pub enqueue_keys : (String → Task) → List String → List Task
enqueue_keys task [] = []
enqueue_keys task (k ∷ rest) = task k ∷ enqueue_keys task rest

unfoldable pub enqueue_key : (String → Task) → String → List Task
enqueue_key task key = if key != "" then task key ∷ [] else []

-- Over the items of an index; an error is logged.
unfoldable pub for_each : {A : Type 0} → (A → List Task) → List A → List Task
for_each f [] = []
for_each f (a ∷ rest) = f a ++ for_each f rest

unfoldable pub for_items : {A : Type 0} → (A → List Task) → Result (List A) → List Task
for_items f (err e) = []
for_items f (ok items) = for_each f items

unfoldable pub enqueue_gateway_parents_for_route : TcpRoute → List Task
enqueue_gateway_parents_for_route r = enqueue_keys gateway_task (route_gateway_parent_keys r)

unfoldable pub enqueue_endpoint_selectors_for_route : TcpRoute → List Task
enqueue_endpoint_selectors_for_route r =
    enqueue_keys selector_task (route_backend_endpoint_selector_keys r)

module _ (ix : Indexes) where
  unfoldable pub enqueue_routes_for_gateway : NamespacedName → List Task
  enqueue_routes_for_gateway key =
      for_items
        (λ r. enqueue_named route_task (key_of r.meta) ++ enqueue_endpoint_selectors_for_route r)
        (ix.routes_by_gateway (namespaced_key key))

  unfoldable pub enqueue_gateways_for_class : String → List Task
  enqueue_gateways_for_class name =
      for_items
        (λ g.
          enqueue_named gateway_task (key_of g.meta) ++ enqueue_routes_for_gateway (key_of g.meta))
        (ix.gateways_by_class name)

  unfoldable pub enqueue_selector_and_related_routes : EndpointSelector → List Task
  enqueue_selector_and_related_routes s =
      enqueue_named selector_task (key_of s.meta)
      ++ for_items
          (λ r. enqueue_named route_task (key_of r.meta) ++ enqueue_gateway_parents_for_route r)
          (ix.routes_by_endpoint_selector (namespaced_key (key_of s.meta)))

  unfoldable pub enqueue_endpoint_selectors_for_pod : Pod → List Task
  enqueue_endpoint_selectors_for_pod p =
      if p.meta.namespace == ""
      then []
      else for_items (λ s. enqueue_named selector_task (key_of s.meta))
          (ix.selectors_by_namespace p.meta.namespace)

  -- The handlers that registerHandlers registers.
  unfoldable pub handle : Event → List Task
  handle (class_event c) = class_task c.meta.name ∷ enqueue_gateways_for_class c.meta.name
  handle (gateway_event g) =
      enqueue_named gateway_task (key_of g.meta) ++ enqueue_routes_for_gateway (key_of g.meta)
  handle (route_event r) =
      enqueue_named route_task (key_of r.meta)
      ++ (enqueue_gateway_parents_for_route r ++ enqueue_endpoint_selectors_for_route r)
  handle (route_updated old new) =
      enqueue_gateway_parents_for_route old
      ++ (enqueue_endpoint_selectors_for_route old
          ++ (enqueue_named route_task (key_of new.meta)
              ++ (enqueue_gateway_parents_for_route new
                  ++ enqueue_endpoint_selectors_for_route new)))
  handle (selector_event s) = enqueue_selector_and_related_routes s
  handle (pod_event p) = enqueue_endpoint_selectors_for_pod p
  handle (slice_event s) = enqueue_key selector_task (endpoint_selector_key_for_endpoint_slice s)
  handle (address_event a) = enqueue_key gateway_task (gateway_key_for_ip_address a)
  handle service_cidr_event = enqueue_gateways_for_class gateway_class_name

-- What a worker tells its queue of a key: `AddRateLimited` or `Forget`, before `Done`.
pub data Verdict : Type 0 where
  retried forgotten : String → Verdict

verdict : {W : Type 0} → String → Result (Unit {0}) × W → Option Verdict × W
verdict key (err e, w) = (some (retried key), w)
verdict key (ok u, w) = (some (forgotten key), w)

-- One round of a worker: no key is the queue's shutdown, which ends the worker.
unfoldable pub process_next :
    {W : Type 0} → (String → M W (Unit {0})) → Option String → W → Option Verdict × W
unfolding verdict
process_next reconcile none w = (none, w)
process_next reconcile (some key) w = verdict key (reconcile key w)
