-- ===== src/Tests/Kernel.antt =====
-- A kernel with one table, and a ruleset applied to it.
use clusterip_gw.Base.{
  subst, Member, inl, String, Option, none, some, List, [], ◌∷◌, ◌++◌, append_nil, ◌≡◌, refl, sym,
  ap, ◌∙◌, return, M, ok, err, not_found, is_not_found,
}
use clusterip_gw.Agent.Ruleset.{RulesetSpec}
use clusterip_gw.Agent.Netlink.{Connection, apply}
use clusterip_gw.Agent.Netlink.Table.{
  Element, base_chain, chain, dispatch_map, rule, Message, delete_table, add_table, add_element,
  replay,
}
use clusterip_gw.Agent.Netlink.Queued.{Kernel, Queued, Queues, Flushed, ConnectionLaws, Connected}
use clusterip_gw.Tests.Node.{service}
use clusterip_gw.Agent.Netlink.Applied.{Applied, apply-Applied}

record World : Type 0 where
  table : Option (List Element)
  queue : List Message

abbrev kernel : Kernel World
kernel = record { table = λ w. w.table; queue = λ w. w.queue; is_table_missing = is_not_found }

queue_message : Message → M World (Unit {0})
queue_message m w = return tt (record w { queue = w.queue ++ (m ∷ []) })

-- The first message may be the deletion of a table that is not there.
flush_queue : Option (List Element) → List Message → M World (Unit {0})
flush_queue none (delete_table ∷ ms) w = (err (not_found "no such file or directory"), w)
flush_queue t ms w = (ok tt, record w { table = replay t ms; queue = [] })

abbrev link : Connection World
link = record {
  del_table = λ t. queue_message delete_table;
  add_table = λ t. queue_message add_table;
  add_base_chain = λ t n. queue_message (add_element (base_chain n));
  add_chain = λ t n. queue_message (add_element (chain n));
  add_set = λ t n es. queue_message (add_element (dispatch_map n es));
  add_rule = λ t r. queue_message (add_element (rule r));
  flush = λ w. flush_queue w.table w.queue w;
}

open_link : M World (Connection World)
open_link w = (ok link, record w { queue = [] })

message-Queues : (m : Message) → Queues kernel (m ∷ []) (queue_message m)
unfolding Queues Queued queue_message
message-Queues m w = (refl, refl)

replayed :
    (w : World) (t : Option (List Element)) (ms : List Message)
    → w.table ≡ t
    → w.queue ≡ ms
    → replay t ms ≡ replay w.table w.queue
replayed w t ms e q = sym (ap (λ x. replay x w.queue) e ∙ ap (replay t) q)

flush_queue-Flushed :
    (w : World) (t : Option (List Element)) (ms : List Message)
    → w.table ≡ t
    → w.queue ≡ ms
    → Flushed kernel w (flush_queue t ms w)
unfolding Flushed flush_queue
flush_queue-Flushed w none (delete_table ∷ ms) e q =
    (refl, λ h. (e, subst (Member delete_table) (sym q) (inl refl)))
flush_queue-Flushed w none [] e q = replayed w none [] e q
flush_queue-Flushed w none (add_table ∷ ms) e q = replayed w none (add_table ∷ ms) e q
flush_queue-Flushed w none (add_element x ∷ ms) e q = replayed w none (add_element x ∷ ms) e q
flush_queue-Flushed w (some es) ms e q = replayed w (some es) ms e q

link-ConnectionLaws : (name : String) → ConnectionLaws kernel name link
link-ConnectionLaws name = record {
  deletes = message-Queues delete_table;
  adds_table = message-Queues add_table;
  adds_base_chain = λ n. message-Queues (add_element (base_chain n));
  adds_chain = λ n. message-Queues (add_element (chain n));
  adds_set = λ n es. message-Queues (add_element (dispatch_map n es));
  adds_rule = λ r. message-Queues (add_element (rule r));
  flushes = λ w. flush_queue-Flushed w w.table w.queue refl refl;
}

link-connects : (name : String) (w : World) → Connected kernel name w (open_link w)
unfolding Connected open_link
link-connects name w = (link-ConnectionLaws name, refl, refl)

abbrev going_on : M World (Unit {0})
going_on = return tt

going_on-Queues : Queues kernel [] going_on
unfolding Queues Queued
going_on-Queues w = (sym (append_nil w.queue), refl)

abbrev spec : RulesetSpec
spec = record {
  table_name = "clusterip-gw";
  base_chains = "prerouting" ∷ "output" ∷ [];
  service_chains = service ∷ [];
}

abbrev bare : World
bare = record { table = none; queue = [] }

apply-Applied_example :
    Applied kernel going_on open_link spec going_on-Queues
      (link-connects "clusterip-gw")
      bare
      (apply going_on open_link is_not_found spec bare)
apply-Applied_example =
    apply-Applied kernel going_on open_link spec going_on-Queues (link-connects "clusterip-gw") bare
