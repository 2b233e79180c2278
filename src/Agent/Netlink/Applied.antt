-- ===== src/Agent/Netlink/Applied.antt =====
-- Apply as a whole: the table of a ruleset is put in place, or the old one stays.
use clusterip_gw.Base.{
  String, Bool, true, false, none, some, List, [], ◌∷◌, ◌++◌, append_nil, append_assoc, ◌≡◌, refl,
  sym, ap, ◌∙◌, Member, subst, inl, inr, Bool-cases, M, after, Result, ok, err,
}
use clusterip_gw.Agent.Ruleset.{RulesetSpec}
use clusterip_gw.Agent.Netlink.{Connection, queue_ruleset, apply_once, retry, apply}
use clusterip_gw.Agent.Netlink.Table.{
  Element, Message, delete_table, add_table, or_empty, with_message, replay, table_of,
}
use clusterip_gw.Agent.Netlink.Queued.{
  Kernel, Queued, Queues, Flushed, ConnectionLaws, Connected, elements, deletes_first,
  queue_ruleset-Queues,
}

module _ {W : Type 0} (k : Kernel W) where
  -- All messages are carried out, or none, and the table is missing only where there is none and one deletes it.
  unfoldable pub Whole : List Message → W → Result (Unit {0}) × W → Type 0
  Whole ms w (ok u, v) = k.table v ≡ replay (k.table w) ms
  Whole ms w (err e, v) =
      (k.table v ≡ k.table w)
      × (k.is_table_missing e ≡ true → (k.table w ≡ none) × Member delete_table ms)

  after-Whole :
      (ms qs ns : List Message) (w v : W) (r : Result (Unit {0}) × W) (next : M W (Unit {0}))
      → k.queue v ≡ qs
      → k.table v ≡ k.table w
      → Queued k ns v r
      → ((x : W) → k.queue x ≡ qs ++ ns → k.table x ≡ k.table w → Whole ms w (next x))
      → Whole ms w (after r (λ u. next))
  unfolding Whole Queued
  after-Whole ms qs ns w v (ok u, x) next q t (queued, same) h =
      h x (queued ∙ ap (λ l. l ++ ns) q) (same ∙ t)
  after-Whole ms qs ns w v (err e, x) next q t (other, same) h = (same ∙ t, λ missing. absurd cc)

  Flushed-Whole :
      (ms : List Message) (w x : W) (r : Result (Unit {0}) × W)
      → k.queue x ≡ ms
      → k.table x ≡ k.table w
      → Flushed k x r
      → Whole ms w r
  unfolding Whole Flushed
  Flushed-Whole ms w x (ok u, v) q t h =
      h ∙ (ap (λ y. replay y (k.queue x)) t ∙ ap (replay (k.table w)) q)
  Flushed-Whole ms w x (err e, v) q t (same, missing) =
      (same ∙ t, λ h. (sym t ∙ (missing h).0, subst (Member delete_table) q (missing h).1))

  Connected-Whole :
      (ms : List Message) (name : String) (w v : W) (r : Result (Connection W) × W)
      → (next : Connection W → M W (Unit {0})) → k.table v ≡ k.table w
      → Connected k name v r
      → ((c : Connection W) (x : W)
          → ConnectionLaws k name c
          → k.queue x ≡ []
          → k.table x ≡ k.table w
          → Whole ms w (next c x))
      → Whole ms w (after r next)
  unfolding Whole Connected
  Connected-Whole ms name w v (ok c, x) next t (laws, empty, same) h = h c x laws empty (same ∙ t)
  Connected-Whole ms name w v (err e, x) next t (other, same) h = (same ∙ t, λ missing. absurd cc)

  module _ (context_error : M W (Unit {0})) (connect : M W (Connection W)) (spec : RulesetSpec)
      (alive : Queues k [] context_error)
      (connects : (w : W) → Connected k spec.table_name w (connect w)) where
    messages : Bool → List Message
    messages delete = deletes_first k delete ++ (add_table ∷ elements k (table_of spec))

    apply_once-Whole :
        (delete : Bool) (w : W)
        → Whole
            (messages delete)
            w
            (apply_once context_error connect k.is_table_missing spec delete w)
    unfolding apply_once messages Queues
    apply_once-Whole delete w =
        let ms = messages delete in
        after-Whole ms (k.queue w) [] w w (context_error w) _ refl refl (alive w) (λ v q t.
          Connected-Whole ms spec.table_name w v (connect v) _ t (connects v) (λ c x laws empty t.
            after-Whole ms [] ms w x (queue_ruleset c spec delete x) _ empty t
              (queue_ruleset-Queues k spec c laws delete x)
              (λ y q t. after-Whole ms ms [] w y (context_error y) _ q t (alive y) (λ z q t.
                Flushed-Whole ms w z (c.flush z) (q ∙ append_nil ms) t (laws.flushes z)))))

    replay-elements : (es fs : List Element) → replay (some es) (elements k fs) ≡ some (es ++ fs)
    unfolding replay elements with_message
    replay-elements es [] = ap some (sym (append_nil es))
    replay-elements es (x ∷ fs) =
        replay-elements (es ++ (x ∷ [])) fs ∙ ap some (append_assoc es (x ∷ []) fs)

    only_additions : (es : List Element) → Member delete_table (elements k es) → ⊥
    unfolding elements
    only_additions [] m = m
    only_additions (x ∷ es) (inl e) = cc
    only_additions (x ∷ es) (inr m) = only_additions es m

    no_deletion : Member delete_table (messages false) → ⊥
    unfolding messages deletes_first
    no_deletion (inl e) = cc
    no_deletion (inr m) = only_additions (table_of spec) m

    -- The wanted table, or an error other than a missing table, with the table as it was.
    unfoldable pub Applied : W → Result (Unit {0}) × W → Type 0
    Applied w (ok u, v) = k.table v ≡ some (table_of spec)
    Applied w (err e, v) = (k.table v ≡ k.table w) × (k.is_table_missing e ≡ false)

    -- The second attempt, without the deletion.
    again-Applied :
        (w v : W) (r : Result (Unit {0}) × W)
        → k.table v ≡ none
        → k.table v ≡ k.table w
        → Whole (messages false) v r
        → Applied w r
    unfolding Applied Whole messages deletes_first replay with_message or_empty
    again-Applied w v (ok u, x) absent same h =
        h ∙ (ap (λ t. replay t (messages false)) absent ∙ replay-elements [] (table_of spec))
    again-Applied w v (err e, x) absent same (kept, missing) = (
      kept ∙ same,
      elim (Bool-cases (k.is_table_missing e)) [
        | inl gone ↦ absurd (no_deletion (missing gone).1)
        | inr held ↦ held
      ],
    )

    retry-Applied :
        (w : W) (r : Result (Unit {0}) × W)
        → Whole (messages true) w r
        → Applied w (retry context_error connect k.is_table_missing spec r)
    unfolding Applied Whole messages deletes_first replay with_message retry
    retry-Applied w (ok u, v) h = h ∙ replay-elements [] (table_of spec)
    retry-Applied w (err e, v) (kept, missing) = elim (Bool-cases (k.is_table_missing e)) [
      | inl gone ↦ rw gone (
          again-Applied w v (apply_once context_error connect k.is_table_missing spec false v)
            (kept ∙ (missing gone).0) kept (apply_once-Whole false v))
      | inr held ↦ rw held (kept, held)
    ]

    Applied-later :
        (w v : W) (r : Result (Unit {0}) × W) → k.table v ≡ k.table w → Applied v r → Applied w r
    unfolding Applied
    Applied-later w v (ok u, x) same h = h
    Applied-later w v (err e, x) same (kept, other) = (kept ∙ same, other)

    begun-Applied :
        (w : W) (r : Result (Unit {0}) × W)
        → Queued k [] w r
        → Applied w (
            after r (λ u v.
              retry context_error connect k.is_table_missing spec
                (apply_once context_error connect k.is_table_missing spec true v)))
    unfolding Queued Applied
    begun-Applied w (err e, v) (other, same) = (same, other)
    begun-Applied w (ok u, v) (queued, same) = Applied-later w v _ same (
        retry-Applied v (apply_once context_error connect k.is_table_missing spec true v)
          (apply_once-Whole true v))

    -- On a kernel that carries out a transaction whole or not at all, and that reports a missing table only when a
    -- message deletes one that is not there, Apply replaces the table by exactly the chains, maps and rules of the
    -- ruleset, whether or not there was one before, or ends with an error that is not the report of a missing table
    -- and leaves the table as it was.
    pub apply-Applied : (w : W) → Applied w (apply context_error connect k.is_table_missing spec w)
    unfolding apply Queues
    apply-Applied w = begun-Applied w (context_error w) (alive w)
