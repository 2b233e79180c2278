-- ===== src/Agent/Proxier/Loop/Served.antt =====
-- A pending sync is carried out without the ticker's help.
use clusterip_gw.Base.{
  ℕ, zero, suc, ◌+◌, ◌<◌, String, true, false, Option, none, some, ◌≡◌, refl, ap, ◌∙◌, subst, inl,
  inr, ltb, Bool-cases, M, Result, ok, arith,
}
use clusterip_gw.Net.{Ipv4}
use clusterip_gw.Agent.Ruleset.{RulesetSpec}
use clusterip_gw.Agent.Proxier.{
  Options, new_proxier, State, ready, remaining, desired_ruleset_locked, applied, sync,
}
use clusterip_gw.Agent.Proxier.Sync.{IsPast, sync-due, sync-early, remaining_since-later}
use clusterip_gw.Agent.Proxier.Loop.{
  begin, waiting, woken, decided, Node, take_token, synced_node, next_round, Step, note, mark, push,
  pass, tick, take, fire, run, follow, Reach, here, later,
}
use clusterip_gw.Agent.Proxier.Loop.Covered.{
  IsRequested, WillRetry, IsKept, IsPast-later, Reach-IsKept, begin-IsKept,
}

module _ (parse_ipv4 : String → Option Ipv4) (digest : String → String) {W : Type 0}
    (applier : RulesetSpec → M W (Unit {0})) where
  -- A step of the loop or of the clock, none of a handler.
  unfoldable pub IsOwnStep : {n m : Node W} → Step parse_ipv4 digest applier false n m → Type 0
  IsOwnStep (note n e) = ⊥
  IsOwnStep (mark n k h) = ⊥
  IsOwnStep (push n k h) = ⊥
  IsOwnStep (pass n t h) = Unit
  IsOwnStep (tick n t h) = ⊥
  IsOwnStep (take n h t) = Unit
  IsOwnStep (fire n t h r e) = Unit
  IsOwnStep (run n h) = Unit
  IsOwnStep (follow n r h) = Unit

  unfoldable pub IsOwn : {n m : Node W} → Reach parse_ipv4 digest applier false n m → Type 0
  IsOwn here = Unit
  IsOwn (later r s) = IsOwn r × IsOwnStep s

  -- The loop and the clock reach it alone.
  abbrev pub OwnReach : Node W → Node W → Type 0
  OwnReach n m = (r : Reach parse_ipv4 digest applier false n m) × IsOwn r

  own_start : (n : Node W) → OwnReach n n
  unfolding IsOwn
  own_start n = (here, tt)

  own_later :
      {n m k : Node W}
      → OwnReach n m
      → (s : Step parse_ipv4 digest applier false m k) → IsOwnStep s
      → OwnReach n k
  unfolding IsOwn
  own_later (r, h) s o = (later r s, (h, o))

  -- The sync is due for a state that is ready and applies its rules, which succeeds.
  pub record IsServable (p : State) : Type 0 where
    pub is_ready : ready p ≡ true
    pub pending : p.sync_pending ≡ true
    pub rules : p.apply_rules ≡ true
    pub works : (w : W) → (applier (desired_ruleset_locked parse_ipv4 digest p) w).0 ≡ ok tt

  -- The rules are applied to the world, and no sync is pending.
  pub record IsServed (n : Node W) (p : State) (m : Node W) : Type 0 where
    pub path : Reach parse_ipv4 digest applier false n m
    pub own : IsOwn path
    pub phase : m.phase ≡ waiting
    pub done : m.proxier.sync_pending ≡ false
    pub world : m.world ≡ (applier (desired_ruleset_locked parse_ipv4 digest p) n.world).1

  sync-works :
      (p : State) (now : ℕ) (w : W)
      → IsServable p
      → ltb 0 (remaining p now) ≡ false
      → sync parse_ipv4 digest applier p now w ≡ (
        ok 0,
        record p { last_sync = some now; sync_pending = false },
        (applier (desired_ruleset_locked parse_ipv4 digest p) w).1,
      )
  unfolding applied
  sync-works p now w s due =
      let answer = applier (desired_ruleset_locked parse_ipv4 digest p) w in
      let whole : answer ≡ (ok tt, answer.1) = ap (λ r. (r, answer.1)) (s.works w) in
      sync-due parse_ipv4 digest applier p now w s.is_ready s.rules due
      ∙ ap (applied parse_ipv4 digest applier p now) whole

  run_due :
      (a n : Node W)
      → OwnReach a n
      → n.phase ≡ woken
      → n.world ≡ a.world
      → IsServable n.proxier
      → ltb 0 (remaining n.proxier n.now) ≡ false
      → (m : Node W) × IsServed a n.proxier m
  unfolding synced_node next_round IsOwnStep
  run_due a n r awake same s due =
      let result = sync parse_ipv4 digest applier n.proxier n.now n.world in
      let whole = sync-works n.proxier n.now n.world s due in
      let whole_way =
        own_later (own_later r (run n awake) tt)
          (follow (synced_node n result) (ok 0) (ap (λ x. decided x.0) whole)) tt in
      (
        next_round (synced_node n result) (ok 0),
        record {
          path = whole_way.0;
          own = whole_way.1;
          phase = refl;
          done = ap (λ x. x.1.sync_pending) whole;
          world =
              ap (λ x. x.2) whole
              ∙ ap (λ w. (applier (desired_ruleset_locked parse_ipv4 digest n.proxier) w).1) same;
        },
      )

  positive : (d : ℕ) → 0 < d → (k : ℕ) × (d ≡ suc k)
  positive zero h = absurd (omega (arith, h))
  positive (suc k) h = (k, refl)

  -- The loop after a sync that came early: the timer was set, and it has fired.
  fired : Node W → ℕ → Result ℕ × State × W → Node W
  fired n k x = record (next_round (synced_node n x) (ok (suc k))) {
    now = n.now + suc k;
    phase = woken;
    retry = none;
  }

  run_early :
      (a n : Node W) (k : ℕ)
      → OwnReach a n
      → n.phase ≡ woken
      → IsServable n.proxier
      → remaining n.proxier n.now ≡ suc k
      → OwnReach a (fired n k (ok (remaining n.proxier n.now), n.proxier, n.world))
  unfolding fired synced_node next_round IsOwnStep
  run_early a n k r awake s e =
      let result = sync parse_ipv4 digest applier n.proxier n.now n.world in
      let whole =
        sync-early parse_ipv4 digest applier n.proxier n.now n.world s.is_ready s.pending
          (omega (arith, e)) in
      let set = next_round (synced_node n result) (ok (suc k)) in
      subst (λ x. OwnReach a (fired n k x)) whole
        (own_later
          (own_later
            (own_later (own_later r (run n awake) tt)
              (follow (synced_node n result) (ok (suc k))
                (ap (λ x. decided x.0) whole ∙ ap (λ d. decided (ok d)) e))
              tt)
            (pass set (n.now + suc k) (omega arith)) tt)
          (fire (record set { now = n.now + suc k }) (n.now + suc k) refl refl (omega arith)) tt)

  run_woken :
      (a n : Node W)
      → OwnReach a n
      → n.phase ≡ woken
      → n.world ≡ a.world
      → IsServable n.proxier
      → IsPast n.proxier.last_sync n.now
      → (m : Node W) × IsServed a n.proxier m
  unfolding fired synced_node next_round remaining
  run_woken a n r awake same s past = elim (Bool-cases (ltb 0 (remaining n.proxier n.now))) [
    | inr due ↦ run_due a n r awake same s due
    | inl early ↦
        let (k, e) = positive (remaining n.proxier n.now) (ground (arith, early)) in
        run_due a (fired n k (ok (remaining n.proxier n.now), n.proxier, n.world))
          (run_early a n k r awake s e) refl same s
          (remaining_since-later n.proxier.min_sync_period n.proxier.last_sync n.now (n.now + suc k)
            past (omega (arith, e)))
  ]

  by_token :
      (n : Node W)
      → IsKept n
      → n.phase ≡ waiting
      → IsServable n.proxier
      → n.proxier.resync ≡ true
      → (m : Node W) × IsServed n n.proxier m
  unfolding take_token ready desired_ruleset_locked IsOwnStep
  by_token n kept idle s token =
      let (m, served) =
        run_woken n (take_token n) (own_later (own_start n) (take n idle token) tt) refl refl
          (record { is_ready = s.is_ready; pending = s.pending; rules = s.rules; works = s.works })
          kept.past in
      (
        m,
        record {
          path = served.path;
          own = served.own;
          phase = served.phase;
          done = served.done;
          world = served.world;
        },
      )

  by_timer :
      (n : Node W)
      → IsKept n
      → n.phase ≡ waiting
      → IsServable n.proxier
      → n.failed ≡ false
      → WillRetry waiting n
      → (m : Node W) × IsServed n n.proxier m
  unfolding WillRetry IsOwnStep
  by_timer n kept idle s fine (inr failed) = absurd cc
  by_timer n kept idle s fine (inl (t, set)) =
      run_woken n (record n { now = n.now + t; phase = woken; retry = none })
        (own_later (own_later (own_start n) (pass n (n.now + t) (omega arith)) tt)
          (fire (record n { now = n.now + t }) t idle set (omega arith)) tt)
        refl refl s (IsPast-later n.proxier.last_sync n.now (n.now + t) (omega arith) kept.past)

  kept-IsServed :
      (n : Node W)
      → IsKept n
      → n.phase ≡ waiting
      → n.noted ≡ 0
      → n.marked ≡ 0
      → n.failed ≡ false
      → IsServable n.proxier
      → (m : Node W) × IsServed n n.proxier m
  unfolding IsRequested
  kept-IsServed n kept idle quiet silent fine s = elim (kept.covered s.is_ready s.pending) [
    | inl (inl h) ↦ absurd (h quiet)
    | inl (inr (inl h)) ↦ absurd (h silent)
    | inl (inr (inr token)) ↦ by_token n kept idle s token
    | inr w ↦ by_timer n kept idle s fine (subst (λ ph. WillRetry ph n) idle w)
  ]

  -- From any reachable state with the loop in its select, no handler on its way, no failure of the last
  -- sync, both informers synced, a sync pending, the rules applied by the option and an applier that succeeds on
  -- them, there is a run of the loop and the clock, with no step of a handler or of the ticker, to a state with the
  -- loop in its select in which these rules are applied to the world and no sync is pending.
  pub Reach-IsServed :
      (cfg : Options) (p : State) (now : ℕ) (w : W) (n : Node W)
      → new_proxier cfg ≡ ok p
      → Reach parse_ipv4 digest applier true (begin p now w) n
      → n.phase ≡ waiting
      → n.noted ≡ 0
      → n.marked ≡ 0
      → n.failed ≡ false
      → IsServable n.proxier
      → (m : Node W) × IsServed n n.proxier m
  Reach-IsServed cfg p now w n made r idle quiet silent fine s =
      kept-IsServed n
        (Reach-IsKept parse_ipv4 digest applier true
          (begin-IsKept parse_ipv4 digest applier true cfg p now w made) r)
        idle quiet silent fine s
