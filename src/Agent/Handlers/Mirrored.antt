-- ===== src/Agent/Handlers/Mirrored.antt =====
-- The proxier's trackers beside the informers' stores.
use clusterip_gw.Base.{
  ℕ, String, Option, none, some, some-injective, [], ◌≡◌, refl, sym, ap, ◌∙◌, subst, string_eq,
  lookup, put, M, Result, ok, err, arith,
}
use clusterip_gw.Kube.{key_of}
use clusterip_gw.Kube.Objects.{Notice}
use clusterip_gw.Net.{Ipv4}
use clusterip_gw.Agent.Frontends.{name_eq, key_eq, new_gateway_tracker, snapshot, snapshot_onto}
use clusterip_gw.Agent.Frontends.Tracker.{IsWellFormed, update-IsWellFormed}
use clusterip_gw.Agent.Endpoints.{EndpointsTracker, new_endpoints_tracker}
use clusterip_gw.Agent.Ruleset.{RulesetSpec}
use clusterip_gw.Agent.Proxier.{
  Options, new_proxier, State, Event, gateway_add, gateway_update, gateway_delete,
  endpoint_slice_add, endpoint_slice_update, endpoint_slice_delete, note_event, request_sync,
  on_event, applied, sync,
}
use clusterip_gw.Agent.Handlers.Deliveries.{
  Stores, with_gateway, without_gateway, with_slice, without_slice, Delivery, gateway_added,
  gateway_updated, gateway_deleted, gateway_missed, slice_added, slice_updated, slice_deleted,
  slice_missed, Run, started, delivered, all_gateways, all_slices, synced,
}
use clusterip_gw.Agent.Handlers.{
  Source, register_handlers, must_gateway, must_endpoint_slice, call, call_both,
}
use clusterip_gw.Agent.Handlers.Tracked.{
  frontend_of, IsMirrored, IsKept, put_gateway, remove_gateway, put_both, remove_both,
}

module _ (parse_ipv4 : String → Option Ipv4) (digest : String → String) {W : Type 0}
    (applier : RulesetSpec → M W (Unit {0})) where
  -- A handler never panics on what its informer delivers.
  handled :
      {s t : Stores} {source : Source} {notice : Notice}
      → Delivery s source notice t
      → (e : Event) × (register_handlers source notice ≡ some e)
  unfolding register_handlers must_gateway must_endpoint_slice call call_both
  handled (gateway_added s g) = (gateway_add g, refl)
  handled (gateway_updated s old g) = (gateway_update old g, refl)
  handled (gateway_deleted s g) = (gateway_delete g, refl)
  handled (gateway_missed s g) = (gateway_delete g, refl)
  handled (slice_added s e) = (endpoint_slice_add e, refl)
  handled (slice_updated s old e) = (endpoint_slice_update old e, refl)
  handled (slice_deleted s e) = (endpoint_slice_delete e, refl)
  handled (slice_missed s e) = (endpoint_slice_delete e, refl)

  on : State → Event → State
  on p e = on_event parse_ipv4 digest p e

  by_event :
      (t : Stores) (p : State) (a e : Event)
      → some a ≡ some e
      → IsKept parse_ipv4 t (on p a)
      → IsKept parse_ipv4 t (on p e)
  by_event t p a e r = subst (λ x. IsKept parse_ipv4 t (on p x)) (some-injective a e r)

  delivered-IsKept :
      {s t : Stores} {source : Source} {notice : Notice}
      → Delivery s source notice t
      → (p : State) (e : Event) → register_handlers source notice ≡ some e
      → IsKept parse_ipv4 s p
      → IsKept parse_ipv4 t (on p e)
  unfolding register_handlers must_gateway must_endpoint_slice call call_both IsKept IsMirrored on
      on_event request_sync note_event clusterip_gw.Agent.Endpoints.update put
  delivered-IsKept (gateway_added s g) p e r (h, (same, slices)) =
      by_event (with_gateway s g) p (gateway_add g) e r (
        (update-IsWellFormed parse_ipv4 p.gateway_tracker none (some g)).1 h,
        (put_gateway parse_ipv4 s p.gateway_tracker g h same none, slices),
      )
  delivered-IsKept (gateway_updated s old g) p e r (h, (same, slices)) =
      by_event (with_gateway s g) p (gateway_update old g) e r (
        (update-IsWellFormed parse_ipv4 p.gateway_tracker (some old) (some g)).1 h,
        (put_gateway parse_ipv4 s p.gateway_tracker g h same (some old), slices),
      )
  delivered-IsKept (gateway_deleted s g) p e r (h, (same, slices)) =
      by_event (without_gateway s g) p (gateway_delete g) e r (
        (update-IsWellFormed parse_ipv4 p.gateway_tracker (some g) none).1 h,
        (remove_gateway parse_ipv4 s p.gateway_tracker g h same, slices),
      )
  delivered-IsKept (gateway_missed s g) p e r (h, (same, slices)) =
      by_event (without_gateway s g) p (gateway_delete g) e r (
        (update-IsWellFormed parse_ipv4 p.gateway_tracker (some g) none).1 h,
        (remove_gateway parse_ipv4 s p.gateway_tracker g h same, slices),
      )
  delivered-IsKept (slice_added s x) p e r (h, (same, slices)) =
      by_event (with_slice s x) p (endpoint_slice_add x) e r (
        h,
        (same, put_both p.endpoint_tracker.endpoint_slices s.live_slices (key_of x.meta) slices x),
      )
  delivered-IsKept (slice_updated s old x) p e r (h, (same, slices)) =
      by_event (with_slice s x) p (endpoint_slice_update old x) e r (
        h,
        (same, put_both p.endpoint_tracker.endpoint_slices s.live_slices (key_of x.meta) slices x),
      )
  delivered-IsKept (slice_deleted s x) p e r (h, (same, slices)) =
      by_event (without_slice s x) p (endpoint_slice_delete x) e r (
        h,
        (same, remove_both p.endpoint_tracker.endpoint_slices s.live_slices (key_of x.meta) slices),
      )
  delivered-IsKept (slice_missed s x) p e r (h, (same, slices)) =
      by_event (without_slice s x) p (endpoint_slice_delete x) e r (
        h,
        (same, remove_both p.endpoint_tracker.endpoint_slices s.live_slices (key_of x.meta) slices),
      )

  -- A sync leaves the trackers as they are.
  applied-tracks :
      (p : State) (now : ℕ) (r : Result (Unit {0}) × W)
      → ((applied parse_ipv4 digest applier p now r).1.gateway_tracker ≡ p.gateway_tracker)
        × ((applied parse_ipv4 digest applier p now r).1.endpoint_tracker ≡ p.endpoint_tracker)
  unfolding applied
  applied-tracks p now (ok u, w) = (refl, refl)
  applied-tracks p now (err e, w) = (refl, refl)

  sync-tracks :
      (p : State) (now : ℕ) (w : W)
      → ((sync parse_ipv4 digest applier p now w).1.gateway_tracker ≡ p.gateway_tracker)
        × ((sync parse_ipv4 digest applier p now w).1.endpoint_tracker ≡ p.endpoint_tracker)
  unfolding sync
  sync-tracks p now w = ground (arith, applied-tracks p now)

  IsKept-trackers :
      (s : Stores) (p q : State)
      → q.gateway_tracker ≡ p.gateway_tracker
      → q.endpoint_tracker ≡ p.endpoint_tracker
      → IsKept parse_ipv4 s p
      → IsKept parse_ipv4 s q
  unfolding IsKept IsMirrored
  IsKept-trackers s p q eg ee (h, (same, slices)) = (
    subst IsWellFormed (sym eg) h,
    (
      λ k. ap (λ t. lookup (snapshot t) k) eg ∙ same k,
      λ n. ap (λ t. lookup t.endpoint_slices n) ee ∙ slices n,
    ),
  )

  fresh-IsKept :
      (cfg : Options) (p : State)
      → new_proxier cfg ≡ ok p
      → IsKept parse_ipv4 (record { live_gateways = []; live_slices = [] }) p
  unfolding new_proxier IsKept IsMirrored new_gateway_tracker new_endpoints_tracker snapshot
      snapshot_onto frontend_of lookup
  fresh-IsKept cfg p made =
      let eg : p.gateway_tracker ≡ new_gateway_tracker = ground (arith, made) in
      let ee : p.endpoint_tracker ≡ new_endpoints_tracker = ground (arith, made) in
      (
        subst IsWellFormed (sym eg)
            (update-IsWellFormed parse_ipv4 new_gateway_tracker none none).0,
        (λ k. ap (λ t. lookup (snapshot t) k) eg, λ n. ap (λ t. lookup t.endpoint_slices n) ee),
      )

  Run-IsKept : {s : Stores} {p : State} → Run parse_ipv4 digest applier s p → IsKept parse_ipv4 s p
  unfolding IsKept IsMirrored on on_event request_sync note_event
  Run-IsKept (started cfg p made) = fresh-IsKept cfg p made
  Run-IsKept (delivered source notice e run d h) = delivered-IsKept d _ e h (Run-IsKept run)
  Run-IsKept (all_gateways run) = Run-IsKept run
  Run-IsKept (all_slices run) = Run-IsKept run
  Run-IsKept (synced {s = s} {p = p} now w run) =
      let same = sync-tracks p now w in
      IsKept-trackers s p (sync parse_ipv4 digest applier p now w).1 same.0 same.1 (Run-IsKept run)

  -- Whatever the informers deliver, and whatever syncs come between, no handler panics on the next delivery, a snapshot
  -- of the gateways holds under each key the frontend that the stored gateway of that name has, and the
  -- tracked slices are the stored ones.
  pub Run-IsMirrored :
      (s t : Stores) (p : State) (source : Source) (notice : Notice)
      → Run parse_ipv4 digest applier s p
      → Delivery s source notice t
      → ((e : Event) × (register_handlers source notice ≡ some e)) × IsMirrored parse_ipv4 s p
  unfolding IsKept
  Run-IsMirrored s t p source notice run d = (handled d, (Run-IsKept run).1)
