-- ===== src/Tests/Slices.antt =====
-- A selector with one pod, its slice, and the runs that make and withdraw it.
use mathlib.Core.List.{map}
use clusterip_gw.Base.{
  ok-injective, some-injective, sym, subst, text_length, ◌≡◌, ◌≤◌, ◌↔◌, refl, ap, ◌∙◌, ◌&&◌,
  if◌then◌else◌, inl, inr, pos, String, true, Option, some, none, List, [], ◌∷◌, ◌==◌, string_eq,
  Member, IsSorted, lookup, ok, arith, ◌<>◌,
}
use clusterip_gw.Kube.{NamespacedName, Gateway, condition_true, Pod, EndpointSlice, TcpRoute}
use clusterip_gw.Net.{Ipv4}
use clusterip_gw.Controller.{Informers}
use clusterip_gw.Controller.Refs.{split_namespaced_key, split_onto}
use clusterip_gw.Controller.Bindings.{
  Binding, by_binding_key, gateway_binding_for_route, list_referenced_gateway_bindings,
}
use clusterip_gw.Controller.Bindings.Keyed.{
  HasNo, IsPlain, AreSame, AreOfDistinct, list_referenced_gateway_bindings-ok,
}
use clusterip_gw.Controller.Slices.{
  joined_name, endpoint_slice_name, pod_endpoint, build_endpoint_slice_endpoints,
  desired_endpoint_slice,
}
use clusterip_gw.Controller.Slices.Names.{endpoint_slice_name-length, endpoint_slice_name-collides}
use clusterip_gw.Controller.Slices.Endpoints.{by_pod, Serves, build_endpoint_slice_endpoints-pods}
use clusterip_gw.Controller.Slices.Served.{Withdrawn, reconcile_endpoint_selector-withdraws}
use clusterip_gw.Controller.Slices.Reconcile.{
  delete_managed_endpoint_slices, delete_endpoint_slices, reconcile_endpoint_selector,
}
use clusterip_gw.Controller.Refs.{is_endpoint_selector_backend_ref, is_gateway_parent_ref}
use clusterip_gw.Controller.Bindings.{bind_parents, bind_gateway, bind_class}
use clusterip_gw.Controller.Routes.{
  resolve_gateway_listener, one_match, parent_matches_listener, attached_routes_for_listener,
  attaches, attachment, backend_resolution, count_attached_routes_for_listener,
  evaluate_endpoint_selector, evaluate_route, get_endpoint_selector, is_foreign, refers_to,
  resolution, rule_resolution,
}
use clusterip_gw.Controller.Listeners.{
  validate_gateway_listeners, validate_from, judge, listener_problem, allowed_routes_supported,
  accepted_status, listener_status_for_outcome, rejected_status,
}
use clusterip_gw.Base.{
  nat_eq, int_eq, option_eq, insert_by, sort_by, sort_onto, decimal, decimal_int, quote, lookup,
}
use clusterip_gw.Controller.Status.{condition, merge_conditions, set_conditions}
use clusterip_gw.Kube.{condition_status_eq}
use clusterip_gw.Controller.Slices.Reconcile.{list_managed_endpoint_slices}
use clusterip_gw.Tests.Network.{demo_meta}
use clusterip_gw.Tests.Cluster.{lib, gateway, tcp_route, selector, informers}
use clusterip_gw.Tests.Shelf.{Shelf, shelf, shelf-SliceServer, by_value}

abbrev pub digest : String → String
digest s = "d0c0ffee"

endpoint_slice_name-length_example :
    (text_length (endpoint_slice_name digest "demo" "tcp") ≤ 63)
    × (text_length (joined_name "demo" "tcp") ≤ 63
        → endpoint_slice_name digest "demo" "tcp" ≡ joined_name "demo" "tcp")
unfolding text_length
endpoint_slice_name-length_example =
    endpoint_slice_name-length digest (λ s. omega arith) "demo" "tcp"

endpoint_slice_name-collides_example :
    endpoint_slice_name digest ("a" <> "-" <> "b") "c"
    ≡ endpoint_slice_name digest "a" ("b" <> "-" <> "c")
endpoint_slice_name-collides_example =
    endpoint_slice_name-collides digest "a" "b" "c" (λ e. cc) (λ e. cc)

abbrev pub vip : Ipv4
vip = record { b0 = 10; b1 = 96; b2 = 0; b3 = 9 }

abbrev pub parse_ip : String → Option Ipv4
parse_ip s =
    if s == "10.0.0.1"
    then some (record { b0 = 10; b1 = 0; b2 = 0; b3 = 1 })
    else if s == "10.96.0.9"
    then some vip
    else none

-- The gateway with its address.
abbrev pub published : Gateway
published = record gateway {
  status = record gateway.status {
    addresses = record { type = some "IPAddress"; value = "10.96.0.9" } ∷ [];
  };
}

abbrev pub pod : Pod
pod = record {
  meta = demo_meta;
  pod_ip = "10.0.0.1";
  node_name = "node";
  conditions = record { type = "Ready"; status = condition_true } ∷ [];
}

abbrev pub nodes : Informers
nodes = record (informers []) {
  gateway = λ ns n. ok published;
  pods = λ ns. ok (pod ∷ []);
  routes_by_endpoint_selector = λ k. ok (tcp_route ∷ []);
}

build_endpoint_slice_endpoints-pods_example :
    (chosen : List Pod) × (build_endpoint_slice_endpoints parse_ip lib nodes selector
      ≡ ok (map pod_endpoint chosen))
    × IsSorted by_pod chosen
    × ((p : Pod) → Member p chosen ↔ (Member p (pod ∷ []) × Serves parse_ip (λ l. true) p))
build_endpoint_slice_endpoints-pods_example =
    build_endpoint_slice_endpoints-pods parse_ip lib nodes selector (λ l. true) (pod ∷ []) refl refl

abbrev pub binding : Binding
binding = record { gateway = published; listener_name = "tcp"; backend_port = pos 8080 }

pub route_bound : gateway_binding_for_route lib nodes selector tcp_route ≡ ok (some binding)
unfolding gateway_binding_for_route is_endpoint_selector_backend_ref string_eq bind_parents
    is_gateway_parent_ref bind_gateway bind_class resolve_gateway_listener
    validate_gateway_listeners nat_eq validate_from judge listener_problem int_eq
    allowed_routes_supported one_match parent_matches_listener option_eq insert_by sort_by sort_onto
    decimal decimal_int quote accepted_status listener_status_for_outcome rejected_status
    attached_routes_for_listener attaches attachment backend_resolution
    count_attached_routes_for_listener evaluate_endpoint_selector evaluate_route
    get_endpoint_selector is_foreign refers_to resolution rule_resolution condition merge_conditions
    set_conditions condition_status_eq
route_bound = refl

route_reads :
    (r : TcpRoute)
    → Member r (tcp_route ∷ [])
    → (ob : Option Binding) × (gateway_binding_for_route lib nodes selector r ≡ ok ob)
route_reads r (inl e) =
    (some binding, ap (gateway_binding_for_route lib nodes selector) e ∙ route_bound)
route_reads r (inr m) = absurd m

binding-IsPlain : IsPlain binding
unfolding HasNo string_eq
binding-IsPlain =
    ((refl, (refl, (refl, (refl, (refl, (refl, (refl, tt))))))), (refl, (refl, (refl, (refl, tt)))))

routes-IsPlain :
    (r : TcpRoute) (b : Binding)
    → Member r (tcp_route ∷ [])
    → gateway_binding_for_route lib nodes selector r ≡ ok (some b)
    → IsPlain b
routes-IsPlain r b (inl e) found =
    subst IsPlain
      (some-injective binding b (
        ok-injective
          (sym (ap (gateway_binding_for_route lib nodes selector) e ∙ route_bound) ∙ found)))
      binding-IsPlain
routes-IsPlain r b (inr m) found = absurd m

list_referenced_gateway_bindings-ok_example :
    (bs : List Binding) × (list_referenced_gateway_bindings lib nodes selector ≡ ok bs)
    × IsSorted by_binding_key bs
    × AreOfDistinct bs
    × ((c : Binding)
        → Member c bs
        → (r : TcpRoute) × Member r (tcp_route ∷ [])
          × (gateway_binding_for_route lib nodes selector r ≡ ok (some c)))
    × ((r : TcpRoute) (b : Binding)
        → Member r (tcp_route ∷ [])
        → gateway_binding_for_route lib nodes selector r ≡ ok (some b)
        → (c : Binding) × Member c bs × AreSame c b)
list_referenced_gateway_bindings-ok_example =
    list_referenced_gateway_bindings-ok lib nodes selector (tcp_route ∷ []) refl route_reads
      routes-IsPlain

abbrev key : NamespacedName
key = record { namespace = "default"; name = "pods" }

-- The slice that is there, of a gateway that is gone.
abbrev stale : EndpointSlice
stale = record (desired_endpoint_slice digest selector binding []) {
  meta = record demo_meta { name = "gone" };
}

abbrev stored : Shelf
stored ns n = if ns == "default" && n == "gone" then some stale else none

abbrev wanted : EndpointSlice
wanted = desired_endpoint_slice digest selector binding (pod_endpoint pod ∷ [])

abbrev slices : Informers
slices = record nodes { endpoint_slices_by_endpoint_selector = λ k. ok (stale ∷ []) }

abbrev abandoned : Informers
abandoned = record slices { endpoint_selector = λ k. ok none }

reconcile_endpoint_selector-withdraws_example :
    Withdrawn shelf shelf-SliceServer "default"
      (stale ∷ [])
      (reconcile_endpoint_selector lib shelf by_value parse_ip digest abandoned "default/pods"
        stored).1
unfolding split_namespaced_key split_onto string_eq get_endpoint_selector
    list_managed_endpoint_slices reconcile_endpoint_selector delete_managed_endpoint_slices
    delete_endpoint_slices shelf
reconcile_endpoint_selector-withdraws_example =
    reconcile_endpoint_selector-withdraws lib shelf shelf-SliceServer "default" by_value parse_ip
      digest abandoned "default/pods" key (stale ∷ []) stored refl (inl ("pods", refl)) refl
      (refl, tt) refl
