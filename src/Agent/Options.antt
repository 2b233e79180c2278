-- ===== src/Agent/Options.antt =====
-- internal/agent/app/options.go: the options of clusterip-gw-agent, and internal/agent/app/server_linux.go:
-- the proxier that Run makes of them.
pub mod Validated
use clusterip_gw.Base.{
  ℕ, suc, ℤ, pos, negsuc, String, Bool, true, false, not, Option, none, some, List, [], ◌∷◌, ◌==◌,
  ◌!=◌, string_eq, if◌then◌else◌, ltb, ◌<>◌, length, Result, ok, err, Error, other, message,
}
use clusterip_gw.Net.{Ipv4}
use clusterip_gw.Apputil.{validate_ipv4_host_port}
use clusterip_gw.Clientconfig.{
  Floats, ConnectionOptions, is_negative, is_positive, wrapped, and_then, joined, FlagResult,
  help_requested, failed, flags_set,
}
use clusterip_gw.Agent.Proxier

-- Durations are in nanoseconds.
pub record Options (F : Type 0) : Type 0 where
  pub master : String
  pub kubeconfig : String
  pub kube_api_accept_content_types : String
  pub kube_api_content_type : String
  pub kube_api_qps : F
  pub kube_api_burst : ℤ
  pub healthz_bind_address : String
  pub metrics_bind_address : String
  pub config_sync_period : ℤ
  pub nftables_table_name : String
  pub nftables_sync_period : ℤ
  pub nftables_min_sync_period : ℤ
  pub apply_rules : Bool

module _ {F : Type 0} (floats : Floats F) (parse_ip : String → Option (Option Ipv4)) where
  unfoldable pub new_options : Options F
  new_options = record {
    master = "";
    kubeconfig = "";
    kube_api_accept_content_types = "";
    kube_api_content_type = "application/vnd.kubernetes.protobuf";
    kube_api_qps = floats.of_nat 5;
    kube_api_burst = pos 10;
    healthz_bind_address = "0.0.0.0:11256";
    metrics_bind_address = "127.0.0.1:11249";
    config_sync_period = pos 900000000000;
    nftables_table_name = "clusterip-gw";
    nftables_sync_period = pos 30000000000;
    nftables_min_sync_period = pos 1000000000;
    apply_rules = true;
  }

  unfoldable pub validate_metrics : String → Result (Unit {0})
  validate_metrics address =
      if address != ""
      then wrapped "metrics-bind-address: " (validate_ipv4_host_port parse_ip address)
      else ok tt

  unfoldable pub validate_limits : Options F → Result (Unit {0})
  validate_limits o =
      if floats.negative o.kube_api_qps
      then err (other "kube-api-qps must not be negative")
      else if is_negative o.kube_api_burst
      then err (other "kube-api-burst must not be negative")
      else ok tt

  unfoldable pub validate : Options F → Result (Unit {0})
  unfolding validate_metrics and_then validate_limits
  validate o =
      if o.nftables_table_name == ""
      then err (other "nftables table name must not be empty")
      else if not (is_positive o.config_sync_period)
      then err (other "config-sync-period must be greater than 0")
      else if not (is_positive o.nftables_sync_period)
      then err (other "nftables-sync-period must be greater than 0")
      else if is_negative o.nftables_min_sync_period
      then err (other "nftables-min-sync-period must not be negative")
      else and_then
          (wrapped "healthz-bind-address: "
            (validate_ipv4_host_port parse_ip o.healthz_bind_address))
          (and_then (validate_metrics o.metrics_bind_address) (validate_limits o))

  unfoldable pub client_config : Options F → ConnectionOptions F
  client_config o = record {
    kubeconfig = o.kubeconfig;
    accept_content_types = o.kube_api_accept_content_types;
    content_type = o.kube_api_content_type;
    qps = o.kube_api_qps;
    burst = o.kube_api_burst;
  }

  accepted : Options F → Result (Unit {0}) → Result (Option (Options F))
  accepted o (err e) = err e
  accepted o (ok u) = ok (some o)

  -- No options are the answer to a request for help.
  unfoldable pub parsed_args : FlagResult (Options F) → Result (Option (Options F))
  unfolding accepted
  parsed_args help_requested = ok none
  parsed_args (failed e) = err e
  parsed_args (flags_set o rest) =
      if ltb 0 (length rest)
      then err (other ("unexpected positional arguments: " <> joined rest))
      else accepted o (validate o)

  -- `parse` is `pflag.FlagSet.Parse` with the flags of AddFlags, on their defaults.
  unfoldable pub parse_args :
      (Options F → List String → FlagResult (Options F)) → List String → Result (Option (Options F))
  parse_args parse args = parsed_args (parse new_options args)

-- A duration that is not negative; the proxier takes one below zero as it takes zero.
abbrev pub nanoseconds : ℤ → ℕ
nanoseconds (pos n) = n
nanoseconds (negsuc n) = 0

-- The options that Run hands to NewProxier.
unfoldable pub proxier_options : {F : Type 0} → Options F → Proxier.Options
proxier_options o = record {
  table_name = o.nftables_table_name;
  sync_period = nanoseconds o.nftables_sync_period;
  min_sync_period = nanoseconds o.nftables_min_sync_period;
  apply_rules = o.apply_rules;
}
