-- ===== src/Agent/Handlers/Deliveries.antt =====
-- The stores of the agent's two informers, what these deliver, and the runs of the proxier beside them.
use clusterip_gw.Base.{ℕ, String, Option, some, List, [], ◌≡◌, string_eq, put, remove, M, ok}
use clusterip_gw.Kube.{NamespacedName, key_of, Gateway, EndpointSlice}
use clusterip_gw.Kube.Objects.{
  gateway_object, slice_object, tombstone, Notice, added, updated, deleted,
}
use clusterip_gw.Net.{Ipv4}
use clusterip_gw.Agent.Frontends.{name_eq, key_eq}
use clusterip_gw.Agent.Ruleset.{RulesetSpec}
use clusterip_gw.Agent.Proxier.{
  Options, new_proxier, State, Event, gateway_synced, endpoint_slices_synced, on_event, sync,
}
use clusterip_gw.Agent.Handlers.{Source, gateways, endpoint_slices, register_handlers}

-- What the caches of the two informers hold.
pub record Stores : Type 0 where
  pub live_gateways : List (NamespacedName × Gateway)
  pub live_slices : List (NamespacedName × EndpointSlice)

abbrev pub with_gateway : Stores → Gateway → Stores
with_gateway s g = record s { live_gateways = put s.live_gateways (key_of g.meta) g }

abbrev pub without_gateway : Stores → Gateway → Stores
without_gateway s g = record s { live_gateways = remove s.live_gateways (key_of g.meta) }

abbrev pub with_slice : Stores → EndpointSlice → Stores
with_slice s e = record s { live_slices = put s.live_slices (key_of e.meta) e }

abbrev pub without_slice : Stores → EndpointSlice → Stores
without_slice s e = record s { live_slices = remove s.live_slices (key_of e.meta) }

-- A change of a store with the notice that the informer gives of it. A deletion that the informer's watch
-- missed comes as a tombstone, whose object may be an old one.
pub data Delivery : Stores → Source → Notice → Stores → Type 0 where
  gateway_added :
      (s : Stores) (g : Gateway) → Delivery s gateways (added (gateway_object g)) (with_gateway s g)
  gateway_updated :
      (s : Stores) (old g : Gateway)
      → Delivery s gateways (updated (gateway_object old) (gateway_object g)) (with_gateway s g)
  gateway_deleted :
      (s : Stores) (g : Gateway)
      → Delivery s gateways (deleted (gateway_object g)) (without_gateway s g)
  gateway_missed :
      (s : Stores) (g : Gateway)
      → Delivery s gateways (deleted (tombstone (gateway_object g))) (without_gateway s g)
  slice_added :
      (s : Stores) (e : EndpointSlice)
      → Delivery s endpoint_slices (added (slice_object e)) (with_slice s e)
  slice_updated :
      (s : Stores) (old e : EndpointSlice)
      → Delivery s endpoint_slices (updated (slice_object old) (slice_object e)) (with_slice s e)
  slice_deleted :
      (s : Stores) (e : EndpointSlice)
      → Delivery s endpoint_slices (deleted (slice_object e)) (without_slice s e)
  slice_missed :
      (s : Stores) (e : EndpointSlice)
      → Delivery s endpoint_slices (deleted (tombstone (slice_object e))) (without_slice s e)

module _ (parse_ipv4 : String → Option Ipv4) (digest : String → String) {W : Type 0}
    (applier : RulesetSpec → M W (Unit {0})) where
  -- The stores and the proxier after deliveries, the calls that tell that an informer has synced, and syncs, in any order.
  pub data Run : Stores → State → Type 0 where
    started :
        (cfg : Options) (p : State)
        → new_proxier cfg ≡ ok p
        → Run (record { live_gateways = []; live_slices = [] }) p
    delivered :
        {s t : Stores} {p : State} (source : Source) (notice : Notice) (e : Event)
        → Run s p
        → Delivery s source notice t
        → register_handlers source notice ≡ some e
        → Run t (on_event parse_ipv4 digest p e)
    all_gateways :
        {s : Stores} {p : State} → Run s p → Run s (on_event parse_ipv4 digest p gateway_synced)
    all_slices :
        {s : Stores} {p : State}
        → Run s p
        → Run s (on_event parse_ipv4 digest p endpoint_slices_synced)
    synced :
        {s : Stores} {p : State} (now : ℕ) (w : W)
        → Run s p
        → Run s (sync parse_ipv4 digest applier p now w).1
