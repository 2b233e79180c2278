-- ===== src/Agent/Proxier/Sync.antt =====
-- When rules are applied, and that no requested sync is forgotten.
use clusterip_gw.Base.{
  ℕ, ◌+◌, ◌≤◌, ◌<◌, String, true, false, Option, none, some, ◌≡◌, refl, ltb, M, Result, ok, err,
  arith,
}
use clusterip_gw.Net.{Ipv4}
use clusterip_gw.Agent.Ruleset.{RulesetSpec}
use clusterip_gw.Agent.Proxier.{
  State, Event, ready, request_sync, on_event, desired_ruleset_locked, remaining_since, remaining,
  applied, sync,
}

-- The clock has not gone back behind the last sync.
unfoldable pub IsPast : Option ℕ → ℕ → Type 0
IsPast none now = Unit
IsPast (some t) now = t ≤ now

-- The state after a sync that carried out the ruleset, and with it the end of the sync.
unfoldable pub synced : State → ℕ → State
synced p now = record p { last_sync = some now; sync_pending = false }

unfoldable pub Ends :
    {W : Type 0} → State → ℕ → Result (Unit {0}) × W → Result ℕ × State × W → Type 0
Ends p now (ok u, w) end = end ≡ (ok 0, synced p now, w)
Ends p now (err e, w) end = end ≡ (err e, p, w)

pub remaining_since-later :
    (period : ℕ) (last : Option ℕ) (now later : ℕ)
    → IsPast last now
    → now + remaining_since period last now ≤ later
    → ltb 0 (remaining_since period last later) ≡ false
unfolding IsPast remaining_since
remaining_since-later period none now later past late = ground arith
remaining_since-later period (some t) now later past late = ground (arith, past, late)

module _ (parse_ipv4 : String → Option Ipv4) (digest : String → String) where
  on_event-pending : (p : State) (e : Event) → (on_event parse_ipv4 digest p e).sync_pending ≡ true
  unfolding on_event request_sync
  on_event-pending p e = refl

  module _ {W : Type 0} (applier : RulesetSpec → M W (Unit {0})) where
    applied-Ends :
        (p : State) (now : ℕ) (r : Result (Unit {0}) × W)
        → Ends p now r (applied parse_ipv4 digest applier p now r)
    unfolding applied Ends synced
    applied-Ends p now (ok u, w) = refl
    applied-Ends p now (err e, w) = refl

    -- Before both informers have synced, a sync changes neither the world nor the state.
    pub sync-unready :
        (p : State) (now : ℕ) (w : W)
        → ready p ≡ false
        → sync parse_ipv4 digest applier p now w ≡ (ok 0, p, w)
    unfolding sync ready
    sync-unready p now w h = ground (arith, h)

    pub sync-due :
        (p : State) (now : ℕ) (w : W)
        → ready p ≡ true
        → p.apply_rules ≡ true
        → ltb 0 (remaining p now) ≡ false
        → sync parse_ipv4 digest applier p now w
          ≡ applied parse_ipv4 digest applier p now
              (applier (desired_ruleset_locked parse_ipv4 digest p) w)
    unfolding sync ready
    sync-due p now w h rules due = ground (arith, h, rules, due)

    pub sync-early :
        (p : State) (now : ℕ) (w : W)
        → ready p ≡ true
        → p.sync_pending ≡ true
        → 0 < remaining p now
        → sync parse_ipv4 digest applier p now w ≡ (ok (remaining p now), p, w)
    unfolding sync ready
    sync-early p now w h pending early = ground (arith, h, pending, early)

    pending_sync :
        (p : State)
        → p.sync_pending ≡ true
        → (now : ℕ) (w : W) → ready p ≡ true
        → p.apply_rules ≡ true
        → IsPast p.last_sync now
        → (0 < remaining p now
            → sync parse_ipv4 digest applier p now w ≡ (ok (remaining p now), p, w))
          × ((later : ℕ)
              → now + remaining p now ≤ later
              → Ends p later
                  (applier (desired_ruleset_locked parse_ipv4 digest p) w)
                  (sync parse_ipv4 digest applier p later w))
    unfolding remaining
    pending_sync p pending now w h rules past = (
      sync-early p now w h pending,
      λ later late.
          rw
            (sync-due p later w h rules
              (remaining_since-later p.min_sync_period p.last_sync now later past late))
            (applied-Ends p later _),
    )

    -- After any event, once both informers have synced, the next sync applies the ruleset of the state or returns the
    -- delay that is left, changing nothing; and every sync from the end of that delay on applies
    -- the ruleset, and ends with its error, or as synced at its time with no sync pending.
    pub on_event-sync :
        (q : State) (e : Event) (now : ℕ) (w : W)
        → ready (on_event parse_ipv4 digest q e) ≡ true
        → (on_event parse_ipv4 digest q e).apply_rules ≡ true
        → IsPast (on_event parse_ipv4 digest q e).last_sync now
        → (0 < remaining (on_event parse_ipv4 digest q e) now
            → sync parse_ipv4 digest applier (on_event parse_ipv4 digest q e) now w ≡ (
              ok (remaining (on_event parse_ipv4 digest q e) now),
              on_event parse_ipv4 digest q e,
              w,
            ))
          × ((later : ℕ)
              → now + remaining (on_event parse_ipv4 digest q e) now ≤ later
              → Ends
                  (on_event parse_ipv4 digest q e)
                  later
                  (applier
                    (desired_ruleset_locked parse_ipv4 digest (on_event parse_ipv4 digest q e))
                    w)
                  (sync parse_ipv4 digest applier (on_event parse_ipv4 digest q e) later w))
    on_event-sync q e now w h rules past =
        pending_sync (on_event parse_ipv4 digest q e) (on_event-pending q e) now w h rules past
