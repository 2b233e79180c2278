-- ===== src/Agent/Ruleset/Wanted.antt =====
-- Where the chains of the wanted ruleset come from.
use clusterip_gw.Base.{
  ℕ, ℤ, pos, negsuc, ◌<◌, ◌≤◌, ◌≢◌, String, Option, none, some, List, [], ◌∷◌, ◌≡◌, ◌⊎◌, inl, inr,
  refl, sym, ap, subst, if◌then◌else◌, ◌==◌, nat_eq, length, lookup, sort_by, Member, Member-append,
  Member-sort_by, Bool-cases, arith,
}
use clusterip_gw.Net.{Ipv4}
use clusterip_gw.Agent.Frontends.{FrontendKey, key_eq, key_string, Frontend, FrontendMap}
use clusterip_gw.Agent.Endpoints.{Endpoint, EndpointsMap}
use clusterip_gw.Agent.Ruleset.{
  BackendChain, ServiceChain, to_uint16_port, add_backend, backends_onto,
  backend_chain_specs_for_endpoints, endpoints_of, service_for, service_chain, service_chains,
  by_key_string, desired_ruleset, chain_name_for, dispatch_map_name_for,
}

-- A port that fits in sixteen bits and is not zero.
pub IsPort : ℤ → ℕ → Type 0
IsPort z n = (z ≡ pos n) × (0 < n) × (n ≤ 65535)

to_uint16_port-some : (z : ℤ) (n : ℕ) → to_uint16_port z ≡ some n → IsPort z n
unfolding to_uint16_port IsPort
to_uint16_port-some (negsuc m) n h = cc
to_uint16_port-some (pos m) n h = ground (arith, h)

module _ (parse_ipv4 : String → Option Ipv4) (digest : String → String) where
  -- A backend chain sends to an endpoint.
  pub SendsTo : List Endpoint → BackendChain → Type 0
  SendsTo es b =
      (e : Endpoint) × Member e es
      × (parse_ipv4 e.ip ≡ some b.backend_ip)
      × IsPort e.port b.backend_port

  add_backend-sends :
      (chain : String) (e : Endpoint) (ip : Option Ipv4) (port : Option ℕ) (bs : List BackendChain)
      (b : BackendChain)
      → Member b (add_backend parse_ipv4 digest chain ip port bs)
      → Member b bs ⊎ ((ip ≡ some b.backend_ip) × (port ≡ some b.backend_port))
  unfolding add_backend
  add_backend-sends chain e none port bs b m = inl m
  add_backend-sends chain e (some ip) none bs b m = inl m
  add_backend-sends chain e (some ip) (some port) bs b m = elim (Member-append b bs _ m) [
    | inl old ↦ inl old
    | inr (inl same) ↦
        inr (ap (λ x. some x.backend_ip) (sym same), ap (λ x. some x.backend_port) (sym same))
    | inr (inr none_left) ↦ absurd none_left
  ]

  backends_onto-sends :
      (chain : String) (es : List Endpoint) (bs : List BackendChain) (b : BackendChain)
      → Member b (backends_onto parse_ipv4 digest chain bs es)
      → Member b bs ⊎ SendsTo es b
  unfolding backends_onto SendsTo
  backends_onto-sends chain [] bs b m = inl m
  backends_onto-sends chain (e ∷ es) bs b m = elim (backends_onto-sends chain es _ b m) [
    | inl here ↦
        elim (add_backend-sends chain e (parse_ipv4 e.ip) (to_uint16_port e.port) bs b here) [
          | inl old ↦ inl old
          | inr (ip, port) ↦ inr (e, inl refl, ip, to_uint16_port-some e.port b.backend_port port)
        ]
    | inr (d, there, ip, port) ↦ inr (d, inr there, ip, port)
  ]

  -- What is known of a service chain of a frontend.
  pub Serves : EndpointsMap → FrontendKey → Frontend → ServiceChain → Type 0
  Serves endpoints key f s =
      (s.service_key ≡ key_string key)
      × (s.chain_name ≡ chain_name_for digest (key_string key))
      × (s.cluster_ip ≡ f.address)
      × IsPort f.port s.service_port
      × (s.backend_chains ≢ [])
      × ((b : BackendChain)
          → Member b s.backend_chains
          → (es : List Endpoint) × (lookup endpoints key ≡ some es) × SendsTo es b)

  service_for-Serves :
      (endpoints : EndpointsMap) (key : FrontendKey) (f : Frontend) (port : Option ℕ)
      (bs : List BackendChain) (s : ServiceChain)
      → port ≡ to_uint16_port f.port
      → ((b : BackendChain)
          → Member b bs
          → (es : List Endpoint) × (lookup endpoints key ≡ some es) × SendsTo es b)
      → Member s (service_for parse_ipv4 digest key f port bs)
      → Serves endpoints key f s
  unfolding service_for Serves
  service_for-Serves endpoints key f none bs s p h m = absurd m
  service_for-Serves endpoints key f (some port) bs s p h m = elim (Bool-cases (length bs == 0)) [
    | inl e ↦ absurd (subst (λ t. Member s (if t then [] else made ∷ [])) e m)
    | inr e ↦ elim (subst (λ t. Member s (if t then [] else made ∷ [])) e m) [
      | inl same ↦ subst (Serves endpoints key f) (sym same) (
        refl,
        refl,
        refl,
        to_uint16_port-some f.port port (sym p),
        (λ empty. ground (arith, e, ap length empty)),
        h,
      )
      | inr none_left ↦ absurd none_left
    ]
  ]
    where
      made : ServiceChain
      made = record {
        service_key = key_string key;
        chain_name = chain_name_for digest (key_string key);
        dispatch_map_name = dispatch_map_name_for (chain_name_for digest (key_string key));
        cluster_ip = f.address;
        service_port = port;
        backend_chains = bs;
      }

  backends-send :
      (chain : String) (o : Option (List Endpoint)) (b : BackendChain)
      → Member b (
          backend_chain_specs_for_endpoints parse_ipv4 digest chain
            (endpoints_of parse_ipv4 digest o))
      → (es : List Endpoint) × (o ≡ some es) × SendsTo es b
  unfolding backend_chain_specs_for_endpoints endpoints_of backends_onto
  backends-send chain none b m = absurd m
  backends-send chain (some es) b m = elim (backends_onto-sends chain es [] b m) [
    | inl none_yet ↦ absurd none_yet
    | inr sends ↦ (es, refl, sends)
  ]

  service_chains-Serves :
      (endpoints : EndpointsMap) (kfs : FrontendMap) (s : ServiceChain)
      → Member s (service_chains parse_ipv4 digest endpoints kfs)
      → (key : FrontendKey) × (f : Frontend) × Member (key, f) kfs × Serves endpoints key f s
  unfolding service_chains service_chain
  service_chains-Serves endpoints [] s m = absurd m
  service_chains-Serves endpoints ((key, f) ∷ rest) s m =
      elim (Member-append s (service_chain parse_ipv4 digest endpoints (key, f)) _ m) [
        | inl here ↦ (
          key,
          f,
          inl refl,
          service_for-Serves endpoints key f (to_uint16_port f.port) _ s refl
              (backends-send (chain_name_for digest (key_string key)) (lookup endpoints key)) here,
        )
        | inr later ↦
            let (k, h, there, serves) = service_chains-Serves endpoints rest s later in
            (k, h, inr there, serves)
      ]

  -- Each service chain of the wanted ruleset serves a frontend of the snapshot: it has the chain name of the frontend's key, the
  -- frontend's address and its port, in range, and at least one backend; and each backend sends to an endpoint that the other snapshot has for this key, at its parsed address and its port, in range.
  pub desired_ruleset-Serves :
      (table : String) (frontends : FrontendMap) (endpoints : EndpointsMap) (s : ServiceChain)
      → Member s (desired_ruleset parse_ipv4 digest table frontends endpoints).service_chains
      → (key : FrontendKey) × (f : Frontend) × Member (key, f) frontends × Serves endpoints key f s
  unfolding desired_ruleset
  desired_ruleset-Serves table frontends endpoints s m =
      let (k, f, there, serves) =
        service_chains-Serves endpoints (sort_by (by_key_string parse_ipv4 digest) frontends) s m in
      (k, f, Member-sort_by (by_key_string parse_ipv4 digest) (k, f) frontends there, serves)
