-- ===== src/Flow/Backends.antt =====
-- What the agent reads in a slice of the controller.
use mathlib.Core.List.{map}
use clusterip_gw.Base.{
  ℤ, String, Option, none, some, List, [], ◌∷◌, ◌++◌, ◌≡◌, ◌≢◌, ◌↔◌, refl, ap, ◌∙◌, subst, inl, inr,
  string_eq, Member, Member-append, append-Member, arith,
}
use clusterip_gw.Kube.{label, key_of, Pod, SliceEndpoint, EndpointSelector}
use clusterip_gw.Net.{Ipv4, addr_string}
use clusterip_gw.Controller.Bindings.{Binding}
use clusterip_gw.Controller.Slices.{pod_endpoint, desired_endpoint_slice}
use clusterip_gw.Agent.Endpoints.{
  Endpoint, frontend_key_for_endpoint_slice, address_endpoints, ready_endpoints, slice_endpoints,
  is_ready, is_tcp, port_endpoints, endpoint_at,
}
use clusterip_gw.Flow.Frontends.{frontend_key}

-- A slice is read back under its gateway's name and its listener.
pub frontend_key_for-desired_endpoint_slice :
    (digest : String → String) (s : EndpointSelector) (b : Binding) (es : List SliceEndpoint)
    → b.gateway.meta.namespace ≢ ""
    → b.gateway.meta.name ≢ ""
    → frontend_key_for_endpoint_slice (desired_endpoint_slice digest s b es)
      ≡ some (frontend_key (key_of b.gateway.meta) b.listener_name)
unfolding frontend_key_for_endpoint_slice desired_endpoint_slice label string_eq
frontend_key_for-desired_endpoint_slice digest s b es hs hn = ground (arith, hs, hn)

module _ (parse_ipv4 : String → Option Ipv4) where
  -- The endpoint of a pod at its address.
  abbrev pub IsOfPod : ℤ → Pod → Endpoint → Type 0
  IsOfPod port p e =
      (ip : Ipv4) × (parse_ipv4 p.pod_ip ≡ some ip)
      × (e ≡ record { ip = addr_string ip; port = port })

  endpoint_at-Member :
      (port : ℤ) (p : Pod) (o : Option Ipv4) (e : Endpoint)
      → parse_ipv4 p.pod_ip ≡ o
      → Member e (endpoint_at parse_ipv4 port o) ↔ IsOfPod port p e
  unfolding endpoint_at
  endpoint_at-Member port p none e h = (λ m. absurd m, λ (ip, found, same). absurd cc)
  endpoint_at-Member port p (some ip) e h = (
    λ m. elim m [ inl same ↦ (ip, h, same) | inr n ↦ absurd n ],
    λ (other, found, same).
        let one : other ≡ ip = cc in
        inl (same ∙ ap (λ x. record { ip = addr_string x; port = port }) one),
  )

  ready_endpoints-pods :
      (port : ℤ) (pods : List Pod) (e : Endpoint)
      → Member e (ready_endpoints parse_ipv4 port (map pod_endpoint pods))
        ↔ ((p : Pod) × Member p pods × IsOfPod port p e)
  unfolding ready_endpoints address_endpoints pod_endpoint is_ready
  ready_endpoints-pods port [] e = (λ m. absurd m, λ (p, m, h). absurd m)
  ready_endpoints-pods port (p ∷ rest) e =
      let here = endpoint_at parse_ipv4 port (parse_ipv4 p.pod_ip) in
      let later = ready_endpoints parse_ipv4 port (map pod_endpoint rest) in
      let of_pod = endpoint_at-Member port p (parse_ipv4 p.pod_ip) e refl in
      (
        λ m. elim (Member-append e (here ++ []) later m) [
          | inl a ↦ elim (Member-append e here [] a) [
            | inl x ↦ (p, inl refl, of_pod.0 x)
            | inr n ↦ absurd n
          ]
          | inr b ↦ let (q, k, h) = (ready_endpoints-pods port rest e).0 b in (q, inr k, h)
        ],
        λ (q, k, h). elim k [
          | inl same ↦ append-Member e (here ++ []) later (
              inl (append-Member e here [] (inl (of_pod.1 (subst (λ x. IsOfPod port x e) same h)))))
          | inr n ↦
              append-Member e (here ++ []) later
                (inr ((ready_endpoints-pods port rest e).1 (q, n, h)))
        ],
      )

  -- The agent's endpoints of a slice are those of the pods it was made of, with the route's port.
  pub slice_endpoints-pods :
      (digest : String → String) (s : EndpointSelector) (b : Binding) (pods : List Pod)
      (e : Endpoint)
      → let slice = desired_endpoint_slice digest s b (map pod_endpoint pods) in
        Member e (slice_endpoints parse_ipv4 slice.ports slice.endpoints)
        ↔ ((p : Pod) × Member p pods × IsOfPod b.backend_port p e)
  unfolding slice_endpoints port_endpoints desired_endpoint_slice is_tcp string_eq
  slice_endpoints-pods digest s b pods e =
      let all = ready_endpoints parse_ipv4 b.backend_port (map pod_endpoint pods) in
      (
        λ m. elim (Member-append e all [] m) [
          | inl x ↦ (ready_endpoints-pods b.backend_port pods e).0 x
          | inr n ↦ absurd n
        ],
        λ h. append-Member e all [] (inl ((ready_endpoints-pods b.backend_port pods e).1 h)),
      )
