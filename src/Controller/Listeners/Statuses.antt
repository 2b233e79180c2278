-- ===== src/Controller/Listeners/Statuses.antt =====
-- Each listener of the spec has one status, in the order of the spec.
use clusterip_gw.Base.{
  ℕ, String, Option, none, some, List, [], ◌∷◌, ◌++◌, map, ◌≡◌, inl, inr, refl, sym, ap, ◌∙◌,
  length, ==→≡, ◌==◌, nat_eq, Bool-cases, map_append, append_assoc, append_nil, arith,
}
use clusterip_gw.Kube.{Listener, ListenerStatus, Gateway}
use clusterip_gw.Controller.{Library}
use clusterip_gw.Controller.Listeners.{
  Validation, listener_status_for_outcome, rejected_status, accepted_status, reject, judge,
  validate_from, validate_gateway_listeners, listener_statuses_for_gateway_message,
}

abbrev pub status_names : List ListenerStatus → List String
status_names = map (λ s. s.name)

abbrev pub listener_names : List Listener → List String
listener_names = map (λ l. l.name)

module _ (lib : Library) where
  judge-names :
      (o : Option (String × String)) (generation : ℕ) (v : Validation) (l : Listener)
      → status_names (judge lib o generation v l).statuses
        ≡ status_names v.statuses ++ (l.name ∷ [])
  unfolding judge reject rejected_status accepted_status listener_status_for_outcome
  judge-names none generation v l = map_append (λ s. s.name) v.statuses _
  judge-names (some (reason, m)) generation v l = map_append (λ s. s.name) v.statuses _

  validate_from-names :
      (all : List Listener) (generation : ℕ) (ls : List Listener) (v : Validation)
      → status_names (validate_from lib all generation v ls).statuses
        ≡ status_names v.statuses ++ listener_names ls
  unfolding validate_from
  validate_from-names all generation [] v = sym (append_nil (status_names v.statuses))
  validate_from-names all generation (l ∷ ls) v =
      validate_from-names all generation ls _
      ∙ (ap (λ xs. xs ++ listener_names ls) (judge-names _ generation v l)
          ∙ append_assoc (status_names v.statuses) (l.name ∷ []) _)

  empty_names : (ls : List Listener) → length ls ≡ 0 → [] ≡ listener_names ls
  empty_names [] e = refl
  empty_names (l ∷ ls) e = ground (arith, e)

  -- The validation gives one status for each listener, whatever it finds.
  pub validate_gateway_listeners-names :
      (g : Gateway)
      → status_names (validate_gateway_listeners lib g).statuses ≡ listener_names g.listeners
  unfolding validate_gateway_listeners
  validate_gateway_listeners-names g = elim (Bool-cases (length g.listeners == 0)) [
    | inl e ↦ rw e (empty_names g.listeners (==→≡ _ _ e))
    | inr e ↦ rw e (validate_from-names g.listeners g.meta.generation g.listeners _)
  ]

  pub listener_statuses_for_gateway_message-names :
      (ls : List Listener) (m : String) (generation : ℕ)
      → status_names (listener_statuses_for_gateway_message lib ls m generation) ≡ listener_names ls
  unfolding listener_statuses_for_gateway_message rejected_status listener_status_for_outcome
  listener_statuses_for_gateway_message-names [] m generation = refl
  listener_statuses_for_gateway_message-names (l ∷ ls) m generation =
      ap (λ r. l.name ∷ r) (listener_statuses_for_gateway_message-names ls m generation)
