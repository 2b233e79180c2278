-- ===== src/Controller/Options.antt =====
-- internal/controller/app/options.go: the options of clusterip-gw-controller.
use clusterip_gw.Base.{
  ℤ, pos, String, not, Option, none, some, List, ◌!=◌, string_eq, if◌then◌else◌, ltb, ◌<>◌, length,
  Result, ok, err, other,
}
use clusterip_gw.Net.{Ipv4}
use clusterip_gw.Apputil.{validate_ipv4_host_port}
use clusterip_gw.Clientconfig.{
  Floats, ConnectionOptions, is_negative, is_positive, wrapped, and_then, joined, FlagResult,
  help_requested, failed, flags_set,
}

-- Durations are in nanoseconds.
pub record Options (F : Type 0) : Type 0 where
  pub master : String
  pub kubeconfig : String
  pub kube_api_accept_content_types : String
  pub kube_api_content_type : String
  pub kube_api_qps : F
  pub kube_api_burst : ℤ
  pub healthz_bind_address : String
  pub metrics_bind_address : String
  pub config_sync_period : ℤ

module _ {F : Type 0} (floats : Floats F) (parse_ip : String → Option (Option Ipv4)) where
  unfoldable pub new_options : Options F
  new_options = record {
    master = "";
    kubeconfig = "";
    kube_api_accept_content_types = "";
    kube_api_content_type = "application/json";
    kube_api_qps = floats.of_nat 5;
    kube_api_burst = pos 10;
    healthz_bind_address = "0.0.0.0:10257";
    metrics_bind_address = "127.0.0.1:10258";
    config_sync_period = pos 900000000000;
  }

  unfoldable pub validate_metrics : String → Result (Unit {0})
  validate_metrics address =
      if address != ""
      then wrapped "metrics-bind-address: " (validate_ipv4_host_port parse_ip address)
      else ok tt

  unfoldable pub validate_limits : Options F → Result (Unit {0})
  validate_limits o =
      if floats.negative o.kube_api_qps
      then err (other "kube-api-qps must not be negative")
      else if is_negative o.kube_api_burst
      then err (other "kube-api-burst must not be negative")
      else ok tt

  unfoldable pub validate : Options F → Result (Unit {0})
  unfolding validate_metrics and_then validate_limits
  validate o =
      if not (is_positive o.config_sync_period)
      then err (other "config-sync-period must be greater than 0")
      else and_then
          (wrapped "healthz-bind-address: "
            (validate_ipv4_host_port parse_ip o.healthz_bind_address))
          (and_then (validate_metrics o.metrics_bind_address) (validate_limits o))

  unfoldable pub client_config : Options F → ConnectionOptions F
  client_config o = record {
    kubeconfig = o.kubeconfig;
    accept_content_types = o.kube_api_accept_content_types;
    content_type = o.kube_api_content_type;
    qps = o.kube_api_qps;
    burst = o.kube_api_burst;
  }

  accepted : Options F → Result (Unit {0}) → Result (Option (Options F))
  accepted o (err e) = err e
  accepted o (ok u) = ok (some o)

  -- No options are the answer to a request for help.
  unfoldable pub parsed_args : FlagResult (Options F) → Result (Option (Options F))
  unfolding accepted
  parsed_args help_requested = ok none
  parsed_args (failed e) = err e
  parsed_args (flags_set o rest) =
      if ltb 0 (length rest)
      then err (other ("unexpected positional arguments: " <> joined rest))
      else accepted o (validate o)

  -- `parse` is `pflag.FlagSet.Parse` with the flags of AddFlags, on their defaults.
  unfoldable pub parse_args :
      (Options F → List String → FlagResult (Options F)) → List String → Result (Option (Options F))
  parse_args parse args = parsed_args (parse new_options args)
