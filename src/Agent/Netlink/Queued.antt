-- ===== src/Agent/Netlink/Queued.antt =====
-- What a ruleset's messages add to the kernel's table, by what nftables promises of its transactions.
use clusterip_gw.Base.{
  ℕ, Member, String, Bool, true, false, Option, none, List, [], ◌∷◌, ◌++◌, map, append_assoc,
  append_nil, map_append, ◌≡◌, refl, sym, ap, ◌∙◌, subst, if◌then◌else◌, M, after, return, ◌>>◌,
  Result, ok, err, Error,
}
use clusterip_gw.Agent.Ruleset.{ServiceChain, RulesetSpec}
use clusterip_gw.Agent.Netlink.{
  Connection, Rule, service_jump_exprs, service_dispatch_exprs, service_dispatch_map_elements,
  backend_dnat_exprs, for_each, add_service, queue_ruleset,
}
use clusterip_gw.Agent.Netlink.Table.{
  Element, base_chain, chain, dispatch_map, rule, Message, delete_table, add_table, add_element,
  replay, of_all, numbered-elements_from, service_elements, jump_elements, dispatch_elements,
  dnat_elements, table_of,
}

-- `table` is the table of the given name, and `queue` the messages that wait on the newest connection.
pub record Kernel (W : Type 0) : Type 0 where
  pub table : W → Option (List Element)
  pub queue : W → List Message
  pub is_table_missing : Error → Bool

module _ {W : Type 0} (k : Kernel W) where
  -- A call that queues messages, or fails, though not for a missing table; the table stays as it is.
  unfoldable pub Queued : List Message → W → Result (Unit {0}) × W → Type 0
  Queued ms w (ok u, v) = (k.queue v ≡ k.queue w ++ ms) × (k.table v ≡ k.table w)
  Queued ms w (err e, v) = (k.is_table_missing e ≡ false) × (k.table v ≡ k.table w)

  unfoldable pub Queues : List Message → M W (Unit {0}) → Type 0
  Queues ms m = (w : W) → Queued ms w (m w)

  -- A transaction is carried out whole or not at all, and it fails for a missing table only when there is none and a
  -- message deletes it.
  unfoldable pub Flushed : W → Result (Unit {0}) × W → Type 0
  Flushed w (ok u, v) = k.table v ≡ replay (k.table w) (k.queue w)
  Flushed w (err e, v) =
      (k.table v ≡ k.table w)
      × (k.is_table_missing e ≡ true → (k.table w ≡ none) × Member delete_table (k.queue w))

  pub record ConnectionLaws (name : String) (c : Connection W) : Type 0 where
    pub deletes : Queues (delete_table ∷ []) (c.del_table name)
    pub adds_table : Queues (add_table ∷ []) (c.add_table name)
    pub adds_base_chain :
        (n : String) → Queues (add_element (base_chain n) ∷ []) (c.add_base_chain name n)
    pub adds_chain : (n : String) → Queues (add_element (chain n) ∷ []) (c.add_chain name n)
    pub adds_set :
        (n : String) (es : List (ℕ × String))
        → Queues (add_element (dispatch_map n es) ∷ []) (c.add_set name n es)
    pub adds_rule : (r : Rule) → Queues (add_element (rule r) ∷ []) (c.add_rule name r)
    pub flushes : (w : W) → Flushed w (c.flush w)

  unfoldable pub Connected : String → W → Result (Connection W) × W → Type 0
  Connected name w (ok c, v) = ConnectionLaws name c × (k.queue v ≡ []) × (k.table v ≡ k.table w)
  Connected name w (err e, v) = (k.is_table_missing e ≡ false) × (k.table v ≡ k.table w)

  after-Queued :
      (ms ns : List Message) (w : W) (r : Result (Unit {0}) × W) (next : M W (Unit {0}))
      → Queued ms w r
      → Queues ns next
      → Queued (ms ++ ns) w (after r (λ u. next))
  unfolding Queued Queues
  after-Queued ms ns w (err e, v) next h q = h
  after-Queued ms ns w (ok u, v) next (queued, same) q = added (next v) (q v)
    where
      added : (r : Result (Unit {0}) × W) → Queued ns v r → Queued (ms ++ ns) w r
      added (ok u, x) (later, kept) =
          (later ∙ (ap (λ l. l ++ ns) queued ∙ append_assoc (k.queue w) ms ns), kept ∙ same)
      added (err e, x) (other, kept) = (other, kept ∙ same)

  pub Queues-next :
      (ms ns : List Message) (m next : M W (Unit {0}))
      → Queues ms m
      → Queues ns next
      → Queues (ms ++ ns) (m >> next)
  unfolding Queues
  Queues-next ms ns m next h q w = after-Queued ms ns w (m w) next (h w) q

  Queues-return : Queues [] (return tt)
  unfolding Queues Queued
  Queues-return w = (sym (append_nil (k.queue w)), refl)

  unfoldable pub elements : List Element → List Message
  elements es = map add_element es

  elements-append : (es fs : List Element) → elements (es ++ fs) ≡ elements es ++ elements fs
  unfolding elements
  elements-append es fs = map_append add_element es fs

  -- Calls one behind the other, in terms of the elements.
  elements-next :
      (es fs : List Element) (m next : M W (Unit {0}))
      → Queues (elements es) m
      → Queues (elements fs) next
      → Queues (elements (es ++ fs)) (m >> next)
  elements-next es fs m next h q =
      subst (λ ms. Queues ms (m >> next)) (sym (elements-append es fs))
        (Queues-next (elements es) (elements fs) m next h q)

  for_each-Queues :
      {A : Type 0} (f : A → List Element) (g : A → M W (Unit {0})) (xs : List A)
      → ((a : A) → Queues (elements (f a)) (g a))
      → Queues (elements (of_all f xs)) (for_each g xs)
  unfolding for_each of_all elements
  for_each-Queues f g [] h = Queues-return
  for_each-Queues f g (a ∷ rest) h =
      elements-next (f a) (of_all f rest) (g a) (for_each g rest) (h a) (for_each-Queues f g rest h)

  module _ (name : String) (c : Connection W) (laws : ConnectionLaws name c) where
    add_service-Queues :
        (s : ServiceChain) → Queues (elements (service_elements s)) (add_service c name s)
    unfolding add_service elements service_dispatch_map_elements
    add_service-Queues s =
        elements-next (chain s.chain_name ∷ []) _ (c.add_chain name s.chain_name) _
          (laws.adds_chain s.chain_name)
          (elements-next (of_all (λ b. chain b.chain_name ∷ []) s.backend_chains) _
            (for_each (λ b. c.add_chain name b.chain_name) s.backend_chains) _
            (for_each-Queues (λ b. chain b.chain_name ∷ []) _ s.backend_chains
              (λ b. laws.adds_chain b.chain_name))
            (subst
              (λ es.
                Queues (elements (dispatch_map s.dispatch_map_name es ∷ []))
                  (c.add_set name s.dispatch_map_name (service_dispatch_map_elements s)))
              (numbered-elements_from 0 s.backend_chains)
              (laws.adds_set s.dispatch_map_name (service_dispatch_map_elements s))))

  unfoldable pub deletes_first : Bool → List Message
  deletes_first true = delete_table ∷ []
  deletes_first false = []

  module _ (spec : RulesetSpec) (c : Connection W) (laws : ConnectionLaws spec.table_name c) where
    deleting-Queues :
        (delete : Bool)
        → Queues (deletes_first delete) (if delete then c.del_table spec.table_name else return tt)
    unfolding deletes_first
    deleting-Queues true = laws.deletes
    deleting-Queues false = Queues-return

    pub queue_ruleset-Queues :
        (delete : Bool)
        → Queues
            (deletes_first delete ++ (add_table ∷ elements (table_of spec)))
            (queue_ruleset c spec delete)
    unfolding queue_ruleset table_of elements service_jump_exprs service_dispatch_exprs
        backend_dnat_exprs
    queue_ruleset-Queues delete =
        let rules = λ (es : ServiceChain → Rule).
          for_each-Queues (λ s. rule (es s) ∷ []) (λ s. c.add_rule spec.table_name (es s))
            spec.service_chains (λ s. laws.adds_rule (es s)) in
        Queues-next (deletes_first delete) _ _ _ (deleting-Queues delete) (
          Queues-next (add_table ∷ []) _ (c.add_table spec.table_name) _ laws.adds_table (
            elements-next (of_all (λ n. base_chain n ∷ []) spec.base_chains) _ _ _
              (for_each-Queues (λ n. base_chain n ∷ []) (c.add_base_chain spec.table_name)
                spec.base_chains laws.adds_base_chain)
              (elements-next (of_all service_elements spec.service_chains) _ _ _
                (for_each-Queues service_elements (add_service c spec.table_name)
                  spec.service_chains (add_service-Queues spec.table_name c laws))
                (elements-next (of_all (jump_elements "prerouting") spec.service_chains) _ _ _
                  (rules (λ s. record { chain = "prerouting"; exprs = service_jump_exprs s }))
                  (elements-next (of_all (jump_elements "output") spec.service_chains) _ _ _
                    (rules (λ s. record { chain = "output"; exprs = service_jump_exprs s }))
                    (elements-next (of_all dispatch_elements spec.service_chains) _ _ _
                      (rules
                        (λ s. record { chain = s.chain_name; exprs = service_dispatch_exprs s }))
                      (for_each-Queues dnat_elements _ spec.service_chains (λ s.
                        for_each-Queues
                          (λ b.
                            rule (record { chain = b.chain_name; exprs = backend_dnat_exprs b })
                            ∷ [])
                          _ s.backend_chains
                          (λ b.
                            laws.adds_rule (record {
                              chain = b.chain_name;
                              exprs = backend_dnat_exprs b;
                            }))))))))))
