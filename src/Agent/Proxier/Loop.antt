-- ===== src/Agent/Proxier/Loop.antt =====
-- internal/agent/nftables/proxier.go: SyncLoop beside the informers' handlers, as a step relation. A step
-- is what one goroutine does between two points where others see it: a handler's change, the two parts of
-- requestSync, and of the loop the select, the sync under its lock, and what follows it. The sync reads
-- the two trackers at one time.
pub mod Covered
pub mod Served
use clusterip_gw.Base.{
  ℕ, zero, suc, ◌+◌, ◌≤◌, String, Bool, true, false, Option, none, some, ◌≡◌, M, Result, ok, err,
}
use clusterip_gw.Net.{Ipv4}
use clusterip_gw.Agent.Ruleset.{RulesetSpec}
use clusterip_gw.Agent.Proxier.{State, Event, mark_pending, push_token, note_event, sync}

-- Where the loop is: in its select, in front of the sync, or with the result of one.
pub data Phase : Type 0 where
  waiting woken : Phase
  decided : Result ℕ → Phase

-- `retry` is the time of the retry timer, if it is set; `noted` and `marked` count the handlers in front
-- of the first and of the second part of requestSync. `failed`, which the source does not have, tells
-- whether the last sync ended with an error.
pub record Node (W : Type 0) : Type 0 where
  pub proxier : State
  pub retry : Option ℕ
  pub phase : Phase
  pub now : ℕ
  pub noted : ℕ
  pub marked : ℕ
  pub failed : Bool
  pub world : W

unfoldable pub begin : {W : Type 0} → State → ℕ → W → Node W
begin p now w = record {
  proxier = p;
  retry = none;
  phase = waiting;
  now = now;
  noted = 0;
  marked = 0;
  failed = false;
  world = w;
}

-- A value comes from the channel `resyncCh`.
unfoldable pub take_token : {W : Type 0} → Node W → Node W
take_token n = record n { phase = woken; proxier = record n.proxier { resync = false } }

unfoldable pub synced_node : {W : Type 0} → Node W → Result ℕ × State × W → Node W
synced_node n (r, p, w) = record n { phase = decided r; proxier = p; world = w }

-- After an error the retry timer is left as it is; scheduleRetry sets it, and stopRetry clears it.
unfoldable pub next_round : {W : Type 0} → Node W → Result ℕ → Node W
next_round n (err e) = record n { phase = waiting; failed = true }
next_round n (ok zero) = record n { phase = waiting; retry = none; failed = false }
next_round n (ok (suc d)) = record n {
  phase = waiting;
  retry = some (n.now + suc d);
  failed = false;
}

-- With `ticking` the ticker may wake the loop at any time, without it never.
module _ (parse_ipv4 : String → Option Ipv4) (digest : String → String) {W : Type 0}
    (applier : RulesetSpec → M W (Unit {0})) (ticking : Bool) where
  pub data Step : Node W → Node W → Type 0 where
    note :
        (n : Node W) (e : Event)
        → Step n
            (record n { proxier = note_event parse_ipv4 digest n.proxier e; noted = suc n.noted })
    mark :
        (n : Node W) (k : ℕ)
        → n.noted ≡ suc k
        → Step n (record n { proxier = mark_pending n.proxier; noted = k; marked = suc n.marked })
    push :
        (n : Node W) (k : ℕ)
        → n.marked ≡ suc k
        → Step n (record n { proxier = push_token n.proxier; marked = k })
    pass : (n : Node W) (t : ℕ) → n.now ≤ t → Step n (record n { now = t })
    tick : (n : Node W) → ticking ≡ true → n.phase ≡ waiting → Step n (record n { phase = woken })
    take : (n : Node W) → n.phase ≡ waiting → n.proxier.resync ≡ true → Step n (take_token n)
    fire :
        (n : Node W) (t : ℕ)
        → n.phase ≡ waiting
        → n.retry ≡ some t
        → t ≤ n.now
        → Step n (record n { phase = woken; retry = none })
    run :
        (n : Node W)
        → n.phase ≡ woken
        → Step n (synced_node n (sync parse_ipv4 digest applier n.proxier n.now n.world))
    follow : (n : Node W) (r : Result ℕ) → n.phase ≡ decided r → Step n (next_round n r)

  pub data Reach (n : Node W) : Node W → Type 0 where
    here : Reach n n
    later : {m k : Node W} → Reach n m → Step m k → Reach n k
