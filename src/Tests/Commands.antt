-- ===== src/Tests/Commands.antt =====
-- The agent's options on their defaults, and an address to listen at.
use clusterip_gw.Base.{
  take, parse_uint, drop, read_digits, ℕ, ◌<◌, pos, String, false, Option, none, some, List, [],
  ◌≡◌, ◌↔◌, refl, ◌<>◌, decimal, ok, arith, string_eq, nat_eq, if◌then◌else◌, ◌==◌,
}
use clusterip_gw.Net.{Ipv4, addr_string}
use clusterip_gw.Apputil.{
  split_at, validate_parts, holds, starts_with, split_host_port, last_index_of, is_numeral,
  validate_ipv4_host_port,
}
use clusterip_gw.Apputil.Listen.{validate_ipv4_host_port-join}
use clusterip_gw.Clientconfig.{Floats, FlagResult, flags_set}
use clusterip_gw.Agent.Proxier.{State, new_proxier}
use clusterip_gw.Agent.Options.{Options, new_options, parse_args, proxier_options}
use clusterip_gw.Agent.Options.Validated.{IsValid, parse_args-IsValid, parse_args-proxier}

-- Floats are taken for natural numbers here.
abbrev floats : Floats ℕ
floats = record { of_nat = λ n. n; negative = λ n. false }

abbrev any_host : Ipv4
any_host = record { b0 = 0; b1 = 0; b2 = 0; b3 = 0 }

abbrev local_host : Ipv4
local_host = record { b0 = 127; b1 = 0; b2 = 0; b3 = 1 }

parse_ip : String → Option (Option Ipv4)
parse_ip s =
    if s == "0.0.0.0"
    then some (some any_host)
    else if s == "127.0.0.1"
    then some (some local_host)
    else none

abbrev set_flags : Options ℕ → List String → FlagResult (Options ℕ)
set_flags o args = flags_set o args

abbrev defaults : Options ℕ
defaults = new_options floats parse_ip

host_port_read :
    (validate_ipv4_host_port parse_ip "0.0.0.0:11256" ≡ ok tt)
    × (validate_ipv4_host_port parse_ip "127.0.0.1:11249" ≡ ok tt)
unfolding validate_ipv4_host_port validate_parts split_host_port split_at last_index_of nat_eq
    starts_with holds take drop string_eq is_numeral parse_uint read_digits parse_ip
host_port_read = (refl, refl)

validate_ipv4_host_port-join_example :
    validate_ipv4_host_port parse_ip (addr_string local_host <> ":" <> decimal 65535) ≡ ok tt
unfolding parse_ip string_eq addr_string nat_eq
validate_ipv4_host_port-join_example =
    validate_ipv4_host_port-join parse_ip local_host 65535 refl (omega arith)

defaults_accepted : parse_args floats parse_ip set_flags [] ≡ ok (some defaults)
unfolding new_options string_eq nat_eq
defaults_accepted = (parse_args-IsValid floats parse_ip set_flags [] defaults).1 (
  refl,
  record {
    table = λ e. cc;
    config_period = refl;
    sync_period = refl;
    min_sync_period = refl;
    healthz = host_port_read.0;
    metrics = λ n. host_port_read.1;
    qps = refl;
    burst = refl;
  },
)

parse_args-IsValid_example : (parse_args floats parse_ip set_flags [] ≡ ok (some defaults)) ↔ (
    (set_flags (new_options floats parse_ip) [] ≡ flags_set defaults [])
    × IsValid floats parse_ip defaults)
parse_args-IsValid_example = parse_args-IsValid floats parse_ip set_flags [] defaults

parse_args-proxier_example :
    (p : State) × (new_proxier (proxier_options defaults) ≡ ok p)
    × (p.table_name ≡ defaults.nftables_table_name)
    × (0 < p.sync_period)
    × (pos p.sync_period ≡ defaults.nftables_sync_period)
    × (pos p.min_sync_period ≡ defaults.nftables_min_sync_period)
parse_args-proxier_example =
    parse_args-proxier floats parse_ip set_flags [] defaults defaults_accepted
