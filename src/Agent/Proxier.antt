-- ===== src/Agent/Proxier.antt =====
-- internal/agent/nftables/proxier.go: the state of the proxier, its event handlers, and one sync.
-- Times are nanoseconds of the monotonic clock. The channel `resyncCh` has room for one token.
pub mod Sync
pub mod Loop
use clusterip_gw.Base.{
  ℕ, ◌-◌, String, Bool, true, false, not, Option, none, some, List, ◌==◌, ◌&&◌, ◌||◌, string_eq,
  if◌then◌else◌, ltb, M, Result, ok, err, Error, other,
}
use clusterip_gw.Kube.{Gateway, EndpointSlice}
use clusterip_gw.Net.{Ipv4}
use clusterip_gw.Agent.Frontends
use clusterip_gw.Agent.Frontends.{GatewayTracker, new_gateway_tracker}
use clusterip_gw.Agent.Endpoints
use clusterip_gw.Agent.Endpoints.{EndpointsTracker, new_endpoints_tracker}
use clusterip_gw.Agent.Ruleset.{RulesetSpec, desired_ruleset}

pub record Options : Type 0 where
  pub table_name : String
  pub sync_period : ℕ
  pub min_sync_period : ℕ
  pub apply_rules : Bool

-- `resync` tells whether the channel holds its token; `last_sync` is none for the zero time.
pub record State : Type 0 where
  pub table_name : String
  pub sync_period : ℕ
  pub min_sync_period : ℕ
  pub apply_rules : Bool
  pub gateways_synced : Bool
  pub endpoint_slices_synced : Bool
  pub sync_pending : Bool
  pub gateway_tracker : GatewayTracker
  pub endpoint_tracker : EndpointsTracker
  pub resync : Bool
  pub last_sync : Option ℕ

unfoldable pub new_proxier : Options → Result State
new_proxier cfg =
    if cfg.table_name == ""
    then err (other "nftables table name must not be empty")
    else ok (record {
      table_name = cfg.table_name;
      sync_period = cfg.sync_period;
      min_sync_period = cfg.min_sync_period;
      apply_rules = cfg.apply_rules;
      gateways_synced = false;
      endpoint_slices_synced = false;
      sync_pending = false;
      gateway_tracker = new_gateway_tracker;
      endpoint_tracker = new_endpoints_tracker;
      resync = false;
      last_sync = none;
    })

unfoldable pub ready : State → Bool
ready p = p.gateways_synced && p.endpoint_slices_synced

-- The calls of the informers' handlers.
pub data Event : Type 0 where
  gateway_add : Gateway → Event
  gateway_update : Gateway → Gateway → Event
  gateway_delete : Gateway → Event
  gateway_synced : Event
  endpoint_slice_add : EndpointSlice → Event
  endpoint_slice_update : EndpointSlice → EndpointSlice → Event
  endpoint_slice_delete : EndpointSlice → Event
  endpoint_slices_synced : Event

-- The two parts of requestSync: under the lock, and the send, which a full channel drops.
unfoldable pub mark_pending : State → State
mark_pending p = record p { sync_pending = true }

unfoldable pub push_token : State → State
push_token p = record p { resync = true }

unfoldable pub request_sync : State → State
unfolding mark_pending push_token
request_sync p = push_token (mark_pending p)

-- What is left of the minimal period, with 0 when it is over or was never begun.
unfoldable pub remaining_since : ℕ → Option ℕ → ℕ → ℕ
remaining_since period none now = 0
remaining_since period (some t) now = period - (now - t)

unfoldable pub remaining : State → ℕ → ℕ
remaining p now = remaining_since p.min_sync_period p.last_sync now

module _ (parse_ipv4 : String → Option Ipv4) (digest : String → String) where
  gateway_event : State → Option Gateway → Option Gateway → State
  gateway_event p previous current = record p {
    gateway_tracker = (Frontends.update parse_ipv4 p.gateway_tracker previous current).0;
  }

  endpoint_slice_event : State → EndpointSlice → Bool → State
  endpoint_slice_event p s removed = record p {
    endpoint_tracker = (Endpoints.update p.endpoint_tracker (some s) removed).0;
  }

  -- What a handler changes before it calls requestSync.
  unfoldable pub note_event : State → Event → State
  unfolding gateway_event endpoint_slice_event
  note_event p (gateway_add g) = gateway_event p none (some g)
  note_event p (gateway_update old new) = gateway_event p (some old) (some new)
  note_event p (gateway_delete g) = gateway_event p (some g) none
  note_event p gateway_synced = record p { gateways_synced = true }
  note_event p (endpoint_slice_add s) = endpoint_slice_event p s false
  note_event p (endpoint_slice_update old new) = endpoint_slice_event p new false
  note_event p (endpoint_slice_delete s) = endpoint_slice_event p s true
  note_event p endpoint_slices_synced = record p { endpoint_slices_synced = true }

  unfoldable pub on_event : State → Event → State
  on_event p e = request_sync (note_event p e)

  -- desiredRulesetLocked
  unfoldable pub desired_ruleset_locked : State → RulesetSpec
  desired_ruleset_locked p =
      desired_ruleset parse_ipv4 digest p.table_name (Frontends.snapshot p.gateway_tracker)
        (Endpoints.snapshot parse_ipv4 p.endpoint_tracker)

  module _ {W : Type 0} (applier : RulesetSpec → M W (Unit {0})) where
    unfoldable pub applied : State → ℕ → Result (Unit {0}) × W → Result ℕ × State × W
    applied p now (ok u, w) = (ok 0, record p { last_sync = some now; sync_pending = false }, w)
    applied p now (err e, w) = (err e, p, w)

    -- The delay after which the sync is to be retried, or 0; the clock does not move during it.
    unfoldable pub sync : State → ℕ → W → Result ℕ × State × W
    unfolding applied
    sync p now w =
        if not p.gateways_synced || not p.endpoint_slices_synced
        then (ok 0, p, w)
        else if ltb 0 (remaining p now)
        then if p.sync_pending then (ok (remaining p now), p, w) else (ok 0, p, w)
        else if p.apply_rules
        then applied p now (applier (desired_ruleset_locked p) w)
        else applied p now (ok tt, w)
