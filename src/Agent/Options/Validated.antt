-- ===== src/Agent/Options/Validated.antt =====
-- Which options the agent accepts, and that it can run with them.
use clusterip_gw.Base.{
  ◌<◌, ℤ, pos, negsuc, String, true, false, Option, none, some, List, [], ◌∷◌, ◌≡◌, ◌≢◌, ◌↔◌, refl,
  inl, inr, sym, ap, subst, ◌==◌, ==→≡, string_eq, nat_eq, Bool-cases, Result, ok, err, arith,
}
use clusterip_gw.Net.{Ipv4}
use clusterip_gw.Apputil.{validate_ipv4_host_port}
use clusterip_gw.Clientconfig.{
  Floats, is_negative, is_positive, wrapped, and_then, FlagResult, help_requested, failed,
  flags_set,
}
use clusterip_gw.Agent.Frontends.{new_gateway_tracker}
use clusterip_gw.Agent.Endpoints.{new_endpoints_tracker}
use clusterip_gw.Agent.Proxier.{State, new_proxier}
use clusterip_gw.Agent.Options.{
  Options, new_options, validate_metrics, validate_limits, validate, accepted, parsed_args,
  parse_args, nanoseconds, proxier_options,
}

positive_nanoseconds :
    (d : ℤ) → is_positive d ≡ true → (pos (nanoseconds d) ≡ d) × (0 < nanoseconds d)
positive_nanoseconds (pos n) h = (refl, ground (arith, h))
positive_nanoseconds (negsuc n) h = absurd cc

natural_nanoseconds : (d : ℤ) → is_negative d ≡ false → pos (nanoseconds d) ≡ d
natural_nanoseconds (pos n) h = refl
natural_nanoseconds (negsuc n) h = absurd cc

module _ {F : Type 0} (floats : Floats F) (parse_ip : String → Option (Option Ipv4)) where
  pub record IsValid (o : Options F) : Type 0 where
    pub table : o.nftables_table_name ≢ ""
    pub config_period : is_positive o.config_sync_period ≡ true
    pub sync_period : is_positive o.nftables_sync_period ≡ true
    pub min_sync_period : is_negative o.nftables_min_sync_period ≡ false
    pub healthz : validate_ipv4_host_port parse_ip o.healthz_bind_address ≡ ok tt
    pub metrics :
        o.metrics_bind_address ≢ ""
        → validate_ipv4_host_port parse_ip o.metrics_bind_address ≡ ok tt
    pub qps : floats.negative o.kube_api_qps ≡ false
    pub burst : is_negative o.kube_api_burst ≡ false

  wrapped-ok : (s : String) (r : Result (Unit {0})) → (wrapped s r ≡ ok tt) ↔ (r ≡ ok tt)
  unfolding wrapped
  wrapped-ok s (ok u) = (λ h. refl, λ h. refl)
  wrapped-ok s (err e) = (λ h. absurd cc, λ h. absurd cc)

  and_then-ok : (r q : Result (Unit {0})) → (and_then r q ≡ ok tt) ↔ ((r ≡ ok tt) × (q ≡ ok tt))
  unfolding and_then
  and_then-ok (ok u) q = (λ h. (refl, h), λ h. h.1)
  and_then-ok (err e) q = (λ h. absurd cc, λ h. absurd cc)

  validate_metrics-ok :
      (s : String)
      → (validate_metrics floats parse_ip s ≡ ok tt)
        ↔ (s ≢ "" → validate_ipv4_host_port parse_ip s ≡ ok tt)
  unfolding validate_metrics
  validate_metrics-ok s =
      let w = wrapped-ok "metrics-bind-address: " (validate_ipv4_host_port parse_ip s) in
      elim (Bool-cases (s == "")) [
        | inl e ↦ (λ h n. absurd (n (==→≡ s "" e)), λ h. ground (arith, e))
        | inr e ↦ (
          λ h n. w.0 (ground (arith, e, h)),
          λ h. let x = w.1 (h (λ q. ground (arith, e, q))) in ground (arith, e, x),
        )
      ]

  validate_limits-ok :
      (o : Options F)
      → (validate_limits floats parse_ip o ≡ ok tt)
        ↔ ((floats.negative o.kube_api_qps ≡ false) × (is_negative o.kube_api_burst ≡ false))
  unfolding validate_limits
  validate_limits-ok o = (λ h. (ground (arith, h), ground (arith, h)), λ h. ground (arith, h))

  validate-checks :
      (o : Options F)
      → (validate floats parse_ip o ≡ ok tt) ↔ (
          (o.nftables_table_name == "" ≡ false)
          × (is_positive o.config_sync_period ≡ true)
          × (is_positive o.nftables_sync_period ≡ true)
          × (is_negative o.nftables_min_sync_period ≡ false)
          × (and_then
                (wrapped "healthz-bind-address: "
                  (validate_ipv4_host_port parse_ip o.healthz_bind_address))
                (and_then
                  (validate_metrics floats parse_ip o.metrics_bind_address)
                  (validate_limits floats parse_ip o))
              ≡ ok tt))
  unfolding validate
  validate-checks o = (
    λ h. (
      ground (arith, h),
      ground (arith, h),
      ground (arith, h),
      ground (arith, h),
      ground (arith, h),
    ),
    λ h. ground (arith, h),
  )

  validate-IsValid : (o : Options F) → (validate floats parse_ip o ≡ ok tt) ↔ IsValid o
  validate-IsValid o =
      let checks = validate-checks o in
      let rest = validate_limits-ok o in
      let metrics = validate_metrics-ok o.metrics_bind_address in
      let health =
        wrapped-ok "healthz-bind-address: "
          (validate_ipv4_host_port parse_ip o.healthz_bind_address) in
      let all =
        and_then-ok
          (wrapped "healthz-bind-address: "
            (validate_ipv4_host_port parse_ip o.healthz_bind_address))
          (and_then (validate_metrics floats parse_ip o.metrics_bind_address)
            (validate_limits floats parse_ip o)) in
      let some_rest =
        and_then-ok (validate_metrics floats parse_ip o.metrics_bind_address)
          (validate_limits floats parse_ip o) in
      (
        λ h.
            let (table, config, period, min_period, ends) = checks.0 h in
            let (healthy, tail) = all.0 ends in
            let (measured, limited) = some_rest.0 tail in
            record {
              table = λ e. ground (arith, table, e);
              config_period = config;
              sync_period = period;
              min_sync_period = min_period;
              healthz = health.0 healthy;
              metrics = metrics.0 measured;
              qps = (rest.0 limited).0;
              burst = (rest.0 limited).1;
            },
        λ v. checks.1 (
          ground (arith, v.table),
          v.config_period,
          v.sync_period,
          v.min_sync_period,
          all.1 (health.1 v.healthz, some_rest.1 (metrics.1 v.metrics, rest.1 (v.qps, v.burst))),
        ),
      )

  accepted-ok :
      (o p : Options F) (r : Result (Unit {0}))
      → (accepted floats parse_ip o r ≡ ok (some p)) ↔ ((r ≡ ok tt) × (o ≡ p))
  unfolding accepted
  accepted-ok o p (ok u) = (λ h. (refl, cc), λ h. ap (λ x. ok (some x)) h.1)
  accepted-ok o p (err e) = (λ h. absurd cc, λ h. absurd cc)

  parsed_args-IsValid :
      (r : FlagResult (Options F)) (o : Options F)
      → (parsed_args floats parse_ip r ≡ ok (some o)) ↔ ((r ≡ flags_set o []) × IsValid o)
  unfolding parsed_args
  parsed_args-IsValid help_requested o = (λ h. absurd cc, λ (e, v). absurd cc)
  parsed_args-IsValid (failed x) o = (λ h. absurd cc, λ (e, v). absurd cc)
  parsed_args-IsValid (flags_set p (a ∷ rest)) o = (λ h. ground (arith, h), λ (e, v). absurd cc)
  parsed_args-IsValid (flags_set p []) o =
      let end = accepted-ok p o (validate floats parse_ip p) in
      (
        λ h.
            let (fine, e) = end.0 h in
            (ap (λ x. flags_set x []) e, subst IsValid e ((validate-IsValid p).0 fine)),
        λ (e, v).
            let same : p ≡ o = cc in
            end.1 ((validate-IsValid p).1 (subst IsValid (sym same) v), same),
      )

  -- parseArgs gives options exactly when pflag sets them with no argument left and they are valid.
  pub parse_args-IsValid :
      (parse : Options F → List String → FlagResult (Options F)) (args : List String)
      (o : Options F)
      → (parse_args floats parse_ip parse args ≡ ok (some o))
        ↔ ((parse (new_options floats parse_ip) args ≡ flags_set o []) × IsValid o)
  unfolding parse_args
  parse_args-IsValid parse args o = parsed_args-IsValid (parse (new_options floats parse_ip) args) o

  new_proxier-made :
      (o : Options F)
      → IsValid o
      → (p : State) × (new_proxier (proxier_options o) ≡ ok p)
        × (p.table_name ≡ o.nftables_table_name)
        × (0 < p.sync_period)
        × (pos p.sync_period ≡ o.nftables_sync_period)
        × (pos p.min_sync_period ≡ o.nftables_min_sync_period)
  unfolding new_proxier proxier_options
  new_proxier-made o v =
      let (period, long) = positive_nanoseconds o.nftables_sync_period v.sync_period in
      (
        record {
          table_name = o.nftables_table_name;
          sync_period = nanoseconds o.nftables_sync_period;
          min_sync_period = nanoseconds o.nftables_min_sync_period;
          apply_rules = o.apply_rules;
          gateways_synced = false;
          endpoint_slices_synced = false;
          sync_pending = false;
          gateway_tracker = new_gateway_tracker;
          endpoint_tracker = new_endpoints_tracker;
          resync = false;
          last_sync = none;
        },
        ground (arith, v.table),
        refl,
        long,
        period,
        natural_nanoseconds o.nftables_min_sync_period v.min_sync_period,
      )

  -- Of the options that parseArgs gives, NewProxier makes a proxier with the table, the period and the minimal
  -- period that they say; the period is not zero, at which time.NewTicker would panic.
  pub parse_args-proxier :
      (parse : Options F → List String → FlagResult (Options F)) (args : List String)
      (o : Options F)
      → parse_args floats parse_ip parse args ≡ ok (some o)
      → (p : State) × (new_proxier (proxier_options o) ≡ ok p)
        × (p.table_name ≡ o.nftables_table_name)
        × (0 < p.sync_period)
        × (pos p.sync_period ≡ o.nftables_sync_period)
        × (pos p.min_sync_period ≡ o.nftables_min_sync_period)
  parse_args-proxier parse args o given =
      new_proxier-made o ((parse_args-IsValid parse args o).0 given).1
