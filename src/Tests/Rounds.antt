-- ===== src/Tests/Rounds.antt =====
-- A run of the proxier's loop: both informers sync, and the first sync is asked for.
use clusterip_gw.Base.{ℕ, suc, true, false, none, refl, string_eq}
use clusterip_gw.Agent.Frontends.{new_gateway_tracker}
use clusterip_gw.Agent.Endpoints.{new_endpoints_tracker}
use clusterip_gw.Agent.Proxier.{
  Options, State, Event, on_event, request_sync, new_proxier, gateway_synced,
  endpoint_slices_synced, note_event, mark_pending, push_token, ready,
}
use clusterip_gw.Agent.Proxier.Loop.{Node, begin, note, mark, push, Reach, here, later}
use clusterip_gw.Agent.Proxier.Loop.Covered.{IsCovered, Reach-IsCovered}
use clusterip_gw.Agent.Proxier.Loop.Served.{IsServed, Reach-IsServed}
use clusterip_gw.Tests.Node.{parse_ipv4, digest, count_applied}

abbrev pub options : Options
options = record {
  table_name = "clusterip-gw";
  sync_period = 30;
  min_sync_period = 1;
  apply_rules = true;
}

abbrev pub fresh : State
fresh = record {
  table_name = "clusterip-gw";
  sync_period = 30;
  min_sync_period = 1;
  apply_rules = true;
  gateways_synced = false;
  endpoint_slices_synced = false;
  sync_pending = false;
  gateway_tracker = new_gateway_tracker;
  endpoint_tracker = new_endpoints_tracker;
  resync = false;
  last_sync = none;
}

-- Two events, of which the first asks for its sync.
abbrev asked : Node ℕ
asked = record (begin fresh 7 0) {
  proxier = record fresh {
    gateways_synced = true;
    endpoint_slices_synced = true;
    sync_pending = true;
    resync = true;
  };
}

-- A handler that runs without a break.
handled :
    {a : Node ℕ} (n : Node ℕ) (e : Event)
    → Reach parse_ipv4 digest count_applied true a n
    → Reach parse_ipv4 digest count_applied true a
        (record n { proxier = on_event parse_ipv4 digest n.proxier e })
unfolding on_event request_sync
handled n e r =
    let noted_node = record n {
      proxier = note_event parse_ipv4 digest n.proxier e;
      noted = suc n.noted;
    } in
    let marked_node = record n {
      proxier = mark_pending (note_event parse_ipv4 digest n.proxier e);
      marked = suc n.marked;
    } in
    later (later (later r (note n e)) (mark noted_node n.noted refl))
      (push marked_node n.marked refl)

asked_reached : Reach parse_ipv4 digest count_applied true (begin fresh 7 0) asked
unfolding on_event request_sync note_event begin mark_pending push_token
asked_reached =
    let first = handled (begin fresh 7 0) gateway_synced here in
    handled (record (begin fresh 7 0) { proxier = on_event parse_ipv4 digest fresh gateway_synced })
      endpoint_slices_synced first

Reach-IsCovered_example : IsCovered asked
unfolding new_proxier string_eq ready
Reach-IsCovered_example =
    Reach-IsCovered parse_ipv4 digest count_applied true options fresh 7 0 asked refl asked_reached
      refl refl

Reach-IsServed_example :
    (m : Node ℕ) × IsServed parse_ipv4 digest count_applied asked asked.proxier m
unfolding new_proxier string_eq ready begin
Reach-IsServed_example =
    Reach-IsServed parse_ipv4 digest count_applied options fresh 7 0 asked refl asked_reached refl
      refl refl refl (record { is_ready = refl; pending = refl; rules = refl; works = λ w. refl })
