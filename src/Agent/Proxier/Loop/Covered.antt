-- ===== src/Agent/Proxier/Loop/Covered.antt =====
-- No requested sync is lost by the loop, whatever the order of the steps.
use clusterip_gw.Base.{
  ℕ, zero, suc, ◌+◌, ◌≤◌, String, Bool, true, false, not, Option, none, some, ◌≡◌, ◌≢◌, ◌⊎◌, refl,
  sym, ◌∙◌, subst, inl, inr, string_eq, ◌||◌, ltb, Bool-cases, if_both, M, Result, ok, err, arith,
}
use clusterip_gw.Net.{Ipv4}
use clusterip_gw.Agent.Ruleset.{RulesetSpec}
use clusterip_gw.Agent.Proxier.{
  Options, new_proxier, State, Event, ready, mark_pending, push_token, note_event, gateway_event,
  endpoint_slice_event, remaining, desired_ruleset_locked, applied, sync,
}
use clusterip_gw.Agent.Proxier.Sync.{IsPast}
use clusterip_gw.Agent.Proxier.Loop.{
  Phase, waiting, woken, decided, Node, begin, take_token, synced_node, next_round, Step, note,
  mark, push, pass, tick, take, fire, run, follow, Reach, here, later,
}

-- Some handler is on its way to the channel, or the channel holds its value.
unfoldable pub IsRequested : {W : Type 0} → Node W → Type 0
IsRequested n = (n.noted ≢ 0) ⊎ (n.marked ≢ 0) ⊎ (n.proxier.resync ≡ true)

-- What the phase has besides.
unfoldable pub WillRetry : {W : Type 0} → Phase → Node W → Type 0
WillRetry waiting n = ((t : ℕ) × (n.retry ≡ some t)) ⊎ (n.failed ≡ true)
WillRetry woken n = Unit
WillRetry (decided (err e)) n = Unit
WillRetry (decided (ok zero)) n = ⊥
WillRetry (decided (ok (suc d))) n = Unit

abbrev pub IsCovered : {W : Type 0} → Node W → Type 0
IsCovered n = IsRequested n ⊎ WillRetry n.phase n

-- With both informers synced, a pending sync is covered; the last sync is in the past.
pub record IsKept {W : Type 0} (n : Node W) : Type 0 where
  pub covered : ready n.proxier ≡ true → n.proxier.sync_pending ≡ true → IsCovered n
  pub past : IsPast n.proxier.last_sync n.now

pub IsPast-later : (last : Option ℕ) (now t : ℕ) → now ≤ t → IsPast last now → IsPast last t
unfolding IsPast
IsPast-later none now u h p = tt
IsPast-later (some t) now u h p = omega (arith, h, p)

WillRetry-again :
    {W : Type 0} (ph : Phase) (n m : Node W)
    → m.retry ≡ n.retry
    → m.failed ≡ n.failed
    → WillRetry ph n
    → WillRetry ph m
unfolding WillRetry
WillRetry-again waiting n m er ef (inl (t, e)) = inl (t, er ∙ e)
WillRetry-again waiting n m er ef (inr e) = inr (ef ∙ e)
WillRetry-again woken n m er ef h = tt
WillRetry-again (decided (err x)) n m er ef h = tt
WillRetry-again (decided (ok zero)) n m er ef h = absurd h
WillRetry-again (decided (ok (suc d))) n m er ef h = tt

both_synced :
    (p : State)
    → (not p.gateways_synced || not p.endpoint_slices_synced) ≡ true
    → ready p ≡ true
    → ⊥
unfolding ready
both_synced p h k = ground (arith, h, k)

module _ (parse_ipv4 : String → Option Ipv4) (digest : String → String) where
  note_event-IsPast :
      (p : State) (e : Event) (now : ℕ)
      → IsPast p.last_sync now
      → IsPast (note_event parse_ipv4 digest p e).last_sync now
  unfolding note_event gateway_event endpoint_slice_event
  note_event-IsPast p (Event.gateway_add g) now h = h
  note_event-IsPast p (Event.gateway_update old new) now h = h
  note_event-IsPast p (Event.gateway_delete g) now h = h
  note_event-IsPast p Event.gateway_synced now h = h
  note_event-IsPast p (Event.endpoint_slice_add s) now h = h
  note_event-IsPast p (Event.endpoint_slice_update old new) now h = h
  note_event-IsPast p (Event.endpoint_slice_delete s) now h = h
  note_event-IsPast p Event.endpoint_slices_synced now h = h

  module _ {W : Type 0} (applier : RulesetSpec → M W (Unit {0})) where
    -- After a sync: one that is still pending is retried, or its error is there.
    abbrev Settles : Node W → Result ℕ × State × W → Type 0
    Settles n (r, p, w) =
        IsPast p.last_sync n.now
        × (ready p ≡ true → p.sync_pending ≡ true → WillRetry (decided r) (synced_node n (r, p, w)))

    applied-Settles :
        (n : Node W) (r : Result (Unit {0}) × W)
        → IsPast n.proxier.last_sync n.now
        → Settles n (applied parse_ipv4 digest applier n.proxier n.now r)
    unfolding applied WillRetry IsPast
    applied-Settles n (ok u, w) past = (omega arith, λ h pending. absurd cc)
    applied-Settles n (err e, w) past = (past, λ h pending. tt)

    retried : (n : Node W) (d : ℕ) (k : Node W) → ltb 0 d ≡ true → WillRetry (decided (ok d)) k
    unfolding WillRetry
    retried n zero k h = absurd (ground (arith, h))
    retried n (suc d) k h = tt

    sync-Settles :
        (n : Node W)
        → IsPast n.proxier.last_sync n.now
        → Settles n (sync parse_ipv4 digest applier n.proxier n.now n.world)
    unfolding sync
    sync-Settles n past =
        elim (Bool-cases (not n.proxier.gateways_synced || not n.proxier.endpoint_slices_synced)) [
          | inl unready ↦ rw unready (past, λ h pending. absurd (both_synced n.proxier unready h))
          | inr is_ready ↦ rw is_ready (elim (Bool-cases (ltb 0 (remaining n.proxier n.now))) [
            | inl early ↦ rw early (elim (Bool-cases n.proxier.sync_pending) [
              | inl waits ↦ simp waits (past, λ h pending. retried n _ _ early)
              | inr idle ↦ simp idle (past, λ h pending. absurd cc)
            ])
            | inr due ↦ rw due (
                if_both (Settles n) n.proxier.apply_rules _ _
                  (applied-Settles n
                    (applier (desired_ruleset_locked parse_ipv4 digest n.proxier) n.world) past)
                  (applied-Settles n (ok tt, n.world) past))
          ])
        ]

    next_round-IsCovered :
        (n : Node W) (r : Result ℕ) → n.phase ≡ decided r → IsCovered n → IsCovered (next_round n r)
    unfolding IsRequested WillRetry next_round
    next_round-IsCovered n (err x) e c = inr (inr refl)
    next_round-IsCovered n (ok (suc d)) e c = inr (inl (n.now + suc d, refl))
    next_round-IsCovered n (ok zero) e (inl requested) = inl requested
    next_round-IsCovered n (ok zero) e (inr w) = absurd (subst (λ ph. WillRetry ph n) e w)

    next_round-proxier : (n : Node W) (r : Result ℕ) → (next_round n r).proxier ≡ n.proxier
    unfolding next_round
    next_round-proxier n (err x) = refl
    next_round-proxier n (ok zero) = refl
    next_round-proxier n (ok (suc d)) = refl

    next_round-now : (n : Node W) (r : Result ℕ) → (next_round n r).now ≡ n.now
    unfolding next_round
    next_round-now n (err x) = refl
    next_round-now n (ok zero) = refl
    next_round-now n (ok (suc d)) = refl

    module _ (ticking : Bool) where
      pub Step-IsKept :
          {n m : Node W} → Step parse_ipv4 digest applier ticking n m → IsKept n → IsKept m
      unfolding IsRequested WillRetry mark_pending push_token take_token synced_node
      Step-IsKept (note n e) kept = record {
        covered = λ h p. inl (inl (λ z. omega (arith, z)));
        past = note_event-IsPast n.proxier e n.now kept.past;
      }
      Step-IsKept (mark n k e) kept = record {
        covered = λ h p. inl (inr (inl (λ z. omega (arith, z))));
        past = kept.past;
      }
      Step-IsKept (push n k e) kept = record {
        covered = λ h p. inl (inr (inr refl));
        past = kept.past;
      }
      Step-IsKept (pass n t h) kept = record {
        covered = λ r p. elim (kept.covered r p) [
          | inl requested ↦ inl requested
          | inr w ↦ inr (WillRetry-again n.phase n (record n { now = t }) refl refl w)
        ];
        past = IsPast-later n.proxier.last_sync n.now t h kept.past;
      }
      Step-IsKept (tick n h e) kept = record { covered = λ r p. inr tt; past = kept.past }
      Step-IsKept (take n e h) kept = record { covered = λ r p. inr tt; past = kept.past }
      Step-IsKept (fire n t e h l) kept = record { covered = λ r p. inr tt; past = kept.past }
      Step-IsKept (run n e) kept =
          let (past, settled) = sync-Settles n kept.past in
          record { covered = λ r p. inr (settled r p); past = past }
      Step-IsKept (follow n r e) kept = record {
        covered = λ h p. next_round-IsCovered n r e (
            kept.covered (subst (λ q. ready q ≡ true) (next_round-proxier n r) h)
              (subst (λ q. q.sync_pending ≡ true) (next_round-proxier n r) p));
        past =
            subst (λ q. IsPast q.last_sync (next_round n r).now) (sym (next_round-proxier n r))
              (subst (IsPast n.proxier.last_sync) (sym (next_round-now n r)) kept.past);
      }

      pub Reach-IsKept :
          {n m : Node W} → IsKept n → Reach parse_ipv4 digest applier ticking n m → IsKept m
      Reach-IsKept kept here = kept
      Reach-IsKept kept (later r s) = Step-IsKept s (Reach-IsKept kept r)

      pub begin-IsKept :
          (cfg : Options) (p : State) (now : ℕ) (w : W)
          → new_proxier cfg ≡ ok p
          → IsKept (begin p now w)
      unfolding begin IsPast new_proxier
      begin-IsKept cfg p now w made = record {
        covered =
            λ h pending. absurd (let idle : p.sync_pending ≡ false = ground (arith, made) in cc);
        past =
            let fresh : p.last_sync ≡ none = ground (arith, made) in
            subst (λ l. IsPast l now) (sym fresh) tt;
      }

      -- Whatever the handlers and the loop do in whatever order, once both informers have synced a
      -- pending sync is covered: a handler is on its way to the channel or the channel has its value, or
      -- the loop is in front of a sync or of setting the retry timer, or that timer is set, or the last sync failed.
      pub Reach-IsCovered :
          (cfg : Options) (p : State) (now : ℕ) (w : W) (n : Node W)
          → new_proxier cfg ≡ ok p
          → Reach parse_ipv4 digest applier ticking (begin p now w) n
          → ready n.proxier ≡ true
          → n.proxier.sync_pending ≡ true
          → IsCovered n
      Reach-IsCovered cfg p now w n made r h pending =
          (Reach-IsKept (begin-IsKept cfg p now w made) r).covered h pending
