-- ===== src/Meta.antt =====
-- internal/gatewaymeta/meta.go, and the label of discoveryv1 that marks a slice's manager.
use clusterip_gw.Base.{ℕ, String}

abbrev pub gateway_class_name : String
gateway_class_name = "clusterip-gw"

abbrev pub max_supported_gateway_listeners : ℕ
max_supported_gateway_listeners = 10

abbrev pub managed_by_value : String
managed_by_value = "clusterip-gw-controller.grosskur.github.io"

abbrev pub gateway_namespace_label_key : String
gateway_namespace_label_key = "gateway.networking.x-k8s.io/gateway-namespace"

abbrev pub gateway_name_label_key : String
gateway_name_label_key = "gateway.networking.x-k8s.io/gateway-name"

abbrev pub gateway_listener_label_key : String
gateway_listener_label_key = "gateway.networking.x-k8s.io/gateway-listener"

abbrev pub endpoint_selector_namespace_label_key : String
endpoint_selector_namespace_label_key = "gateway.networking.x-k8s.io/endpoint-selector-namespace"

abbrev pub endpoint_selector_name_label_key : String
endpoint_selector_name_label_key = "gateway.networking.x-k8s.io/endpoint-selector-name"

-- `discoveryv1.LabelManagedBy`
abbrev pub label_managed_by : String
label_managed_by = "endpointslice.kubernetes.io/managed-by"
