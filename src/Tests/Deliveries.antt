-- ===== src/Tests/Deliveries.antt =====
-- A gateway that the informer adds, and its deletion as a tombstone.
use clusterip_gw.Base.{some, [], ◌≡◌, refl, string_eq}
use clusterip_gw.Kube.Objects.{gateway_object, tombstone, Notice, added, deleted}
use clusterip_gw.Agent.Proxier.{State, Event, new_proxier, on_event, gateway_add}
use clusterip_gw.Agent.Handlers.{gateways, register_handlers, must_gateway, call}
use clusterip_gw.Agent.Handlers.Deliveries.{
  Stores, with_gateway, without_gateway, gateway_added, gateway_missed, Run, started, delivered,
}
use clusterip_gw.Agent.Handlers.Tracked.{IsMirrored}
use clusterip_gw.Agent.Handlers.Mirrored.{Run-IsMirrored}
use clusterip_gw.Tests.Node.{programmed, parse_ipv4, digest, count_applied}
use clusterip_gw.Tests.Rounds.{options, fresh}

abbrev empty : Stores
empty = record { live_gateways = []; live_slices = [] }

abbrev missing : Notice
missing = deleted (tombstone (gateway_object programmed))

abbrev after_add : State
after_add = on_event parse_ipv4 digest fresh (gateway_add programmed)

add_run : Run parse_ipv4 digest count_applied (with_gateway empty programmed) after_add
unfolding new_proxier string_eq register_handlers must_gateway call
add_run =
    delivered gateways (added (gateway_object programmed)) (gateway_add programmed)
      (started options fresh refl) (gateway_added empty programmed) refl

Run-IsMirrored_example :
    ((e : Event) × (register_handlers gateways missing ≡ some e))
    × IsMirrored parse_ipv4 (with_gateway empty programmed) after_add
Run-IsMirrored_example =
    Run-IsMirrored parse_ipv4 digest count_applied (with_gateway empty programmed)
      (without_gateway (with_gateway empty programmed) programmed) after_add gateways missing
      add_run (gateway_missed (with_gateway empty programmed) programmed)
