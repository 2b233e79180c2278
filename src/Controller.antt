-- ===== src/Controller.antt =====
-- What the files of internal/controller share: the constants of controller.go, and the three
-- things that its `Controller` reaches outside the package. `Client` holds the calls of the API
-- server, over a world `W` that they act on; `Informers` holds the answers of the informer caches,
-- which lag behind that world; `Library` holds functions of third-party packages.
pub mod Addresses
pub mod Status
pub mod Refs
pub mod Listeners
pub mod Ipam
pub mod Routes
pub mod Finalizers
pub mod Gateways
pub mod Server
pub mod Bindings
pub mod Slices
pub mod Options
pub mod Handlers
pub mod Objects
use clusterip_gw.Base.{ℕ, String, Bool, Option, List, M, Result}
use clusterip_gw.Kube.{
  Condition, LabelSelector, GatewayClass, Gateway, TcpRoute, IpAddress, ServiceCidr, EndpointSlice,
  EndpointSelector, Pod,
}

abbrev pub gateway_api_group : String
gateway_api_group = "gateway.networking.k8s.io"

abbrev pub endpoint_selector_api_group : String
endpoint_selector_api_group = "gateway.networking.x-k8s.io"

abbrev pub endpoint_selector_kind : String
endpoint_selector_kind = "XEndpointSelector"

abbrev pub controller_name : String
controller_name = "grosskur.github.io/clusterip-gw"

abbrev pub controller_finalizer : String
controller_finalizer = "grosskur.github.io/clusterip-gw-ip-address-protection"

abbrev pub managed_by_label_key : String
managed_by_label_key = "ipaddress.kubernetes.io/managed-by"

abbrev pub managed_by_label_value : String
managed_by_label_value = "gateway.networking.x-k8s.io"

abbrev pub ip_family_label_key : String
ip_family_label_key = "ipaddress.kubernetes.io/ip-family"

abbrev pub ip_family_ipv4_value : String
ip_family_ipv4_value = "IPv4"

-- `SetStatusCondition` and `FindStatusCondition` of apimeta, `metav1.LabelSelectorAsSelector`, and
-- the time that `metav1.Now` gives during one reconciliation.
pub record Library : Type 0 where
  pub set_status_condition : List Condition → Condition → List Condition
  pub find_status_condition : List Condition → String → Option Condition
  pub label_selector_as_selector : LabelSelector → Result (List (String × String) → Bool)
  pub now : ℕ

-- A gateway and a route are found by namespace and name, a slice is deleted by them.
pub record Client (W : Type 0) : Type 0 where
  pub get_gateway : String → String → M W Gateway
  pub update_gateway : Gateway → M W (Unit {0})
  pub update_gateway_status : Gateway → M W (Unit {0})
  pub update_gateway_class_status : GatewayClass → M W (Unit {0})
  pub update_route_status : TcpRoute → M W (Unit {0})
  pub update_endpoint_selector_status : EndpointSelector → M W (Unit {0})
  pub create_ip_address : IpAddress → M W (Unit {0})
  pub delete_ip_address : String → M W (Unit {0})
  pub create_endpoint_slice : EndpointSlice → M W (Unit {0})
  pub update_endpoint_slice : EndpointSlice → M W (Unit {0})
  pub delete_endpoint_slice : String → String → M W (Unit {0})

-- The `by` fields are the lookups by an index, under a key "namespace/name" or a class's name.
pub record Informers : Type 0 where
  pub gateway_class : String → Result GatewayClass
  pub gateway : String → String → Result Gateway
  pub route : String → String → Result TcpRoute
  pub endpoint_selector : String → Result (Option EndpointSelector)
  pub pods : String → Result (List Pod)
  pub service_cidrs : Result (List ServiceCidr)
  pub ip_addresses : Result (List IpAddress)
  pub routes_by_gateway : String → Result (List TcpRoute)
  pub routes_by_endpoint_selector : String → Result (List TcpRoute)
  pub endpoint_slices_by_endpoint_selector : String → Result (List EndpointSlice)
  pub ip_addresses_by_gateway : String → Result (List IpAddress)
