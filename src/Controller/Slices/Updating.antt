-- ===== src/Controller/Slices/Updating.antt =====
-- The first loop of a synchronisation: the existing slices are updated or deleted.
use clusterip_gw.Base.{
  ◌≡◌, ◌≢◌, refl, sym, ◌∙◌, subst, inl, inr, String, Option, some, none, List, [], ◌∷◌, string_eq,
  Bool-cases, Member, All, lookup, remove, Unique, lookup-remove, lookup-remove_other, remove-All,
  remove-Unique, ok, err, Result-cases, ignore_result, ok-injective,
}
use clusterip_gw.Kube.{EndpointSlice}
use clusterip_gw.Controller.{Client}
use clusterip_gw.Controller.Server.{ignore_result-ok}
use clusterip_gw.Controller.Finalizers.Cleanup.{with_result}
use clusterip_gw.Controller.Slices.{Semantic, endpoint_slice_equal, refreshed}
use clusterip_gw.Controller.Slices.Reconcile.{update_slice, update_slices}
use clusterip_gw.Controller.Slices.Stored.{
  Carries, SliceServer, IsReflexive, Outcome, Carries-Outcome, refreshed-equal, names, NamesApart,
  IsPlaced, IsListed,
}

module _ {W : Type 0} (client : Client W) (sv : SliceServer W client) (same : Semantic)
    (r : IsReflexive same) (ns : String) where
  -- One existing slice is dealt with: it is as desired, its entry is gone, the rest is left.
  abbrev Stepped :
      EndpointSlice
      → Option EndpointSlice
      → List (String × EndpointSlice)
      → List (String × EndpointSlice)
      → W
      → W
      → Type 0
  Stepped e o desired left before after =
      Outcome same o (sv.slice_at after ns e.meta.name)
      × (lookup left e.meta.name ≡ none)
      × ((m : String) → e.meta.name ≢ m → lookup left m ≡ lookup desired m)
      × ((m : String) → e.meta.name ≢ m → sv.slice_at after ns m ≡ sv.slice_at before ns m)
      × (Unique desired → Unique left)
      × (All (IsPlaced sv ns) desired → All (IsPlaced sv ns) left)

  removed :
      (e d : EndpointSlice) (desired : List (String × EndpointSlice)) (before after : W)
      → Outcome same (some d) (sv.slice_at after ns e.meta.name)
      → ((m : String) → e.meta.name ≢ m → sv.slice_at after ns m ≡ sv.slice_at before ns m)
      → Stepped e (some d) desired (remove desired e.meta.name) before after
  removed e d desired before after outcome others = (
    outcome,
    lookup-remove desired e.meta.name,
    λ m apart. lookup-remove_other desired e.meta.name m apart,
    others,
    remove-Unique desired e.meta.name,
    remove-All (IsPlaced sv ns) desired e.meta.name,
  )

  update_slice-ok :
      (e : EndpointSlice) (o : Option EndpointSlice) (desired left : List (String × EndpointSlice))
      → (w : W) → lookup desired e.meta.name ≡ o
      → IsListed sv ns w e
      → (update_slice client same e o desired w).0 ≡ ok left
      → Stepped e o desired left w (update_slice client same e o desired w).1
  unfolding update_slice refreshed
  update_slice-ok e none desired left w missing (place, listed) =
      elim (Result-cases
        (ignore_result (client.delete_endpoint_slice e.meta.namespace e.meta.name w).0)) [
          | inl (u, done) ↦ rw done (λ h.
              let after = (client.delete_endpoint_slice e.meta.namespace e.meta.name w).1 in
              subst (λ l. Stepped e none desired l w after) (ok-injective h)
                (
                  subst (λ k. sv.slice_at after k e.meta.name ≡ none) place
                      (sv.delete-gone e.meta.namespace e.meta.name w (ignore_result-ok _ u done)),
                  missing,
                  λ m apart. refl,
                  λ m apart.
                      subst (λ k. sv.slice_at after k m ≡ sv.slice_at w k m) place
                        (sv.delete-other e.meta.namespace e.meta.name m w apart),
                  λ h. h,
                  λ h. h,
                ))
          | inr (x, failed) ↦ rw failed (λ h. absurd cc)
        ]
  update_slice-ok e (some d) desired left w found (place, listed) =
      elim (Bool-cases (endpoint_slice_equal same e d)) [
        | inl equal ↦ rw equal (λ h.
            subst (λ l. Stepped e (some d) desired l w w) (ok-injective h)
              (removed e d desired w w (Carries-Outcome same _ e d equal listed) (λ m apart. refl)))
        | inr differs ↦
            rw differs (elim (Result-cases (client.update_endpoint_slice (refreshed e d) w).0) [
              | inl (u, done) ↦ rw done (λ h.
                  let after = (client.update_endpoint_slice (refreshed e d) w).1 in
                  subst (λ l. Stepped e (some d) desired l w after) (ok-injective h)
                    (removed e d desired w after
                      (Carries-Outcome same _ (refreshed e d) d (refreshed-equal same r e d) (
                        subst (λ k. Carries (sv.slice_at after k e.meta.name) (refreshed e d)) place
                          (sv.update-ok (refreshed e d) w u done)))
                      (λ m apart.
                        subst (λ k. sv.slice_at after k m ≡ sv.slice_at w k m) place
                          (sv.update-other (refreshed e d) m w apart))))
              | inr (x, failed) ↦ rw failed (λ h. absurd cc)
            ])
      ]

  abbrev pub Updated :
      List EndpointSlice
      → List (String × EndpointSlice)
      → List (String × EndpointSlice)
      → W
      → W
      → Type 0
  Updated existing desired left before after =
      ((n : String)
        → Member n (names existing)
        → Outcome same (lookup desired n) (sv.slice_at after ns n) × (lookup left n ≡ none))
      × ((n : String)
          → (Member n (names existing) → ⊥)
          → (lookup left n ≡ lookup desired n) × (sv.slice_at after ns n ≡ sv.slice_at before ns n))
      × (Unique desired → Unique left)
      × (All (IsPlaced sv ns) desired → All (IsPlaced sv ns) left)

  update_slice-IsListed :
      (rest : List EndpointSlice) (n : String) (w after : W)
      → ((m : String) → n ≢ m → sv.slice_at after ns m ≡ sv.slice_at w ns m)
      → (Member n (names rest) → ⊥)
      → All (IsListed sv ns w) rest
      → All (IsListed sv ns after) rest
  update_slice-IsListed [] n w after kept apart listed = tt
  update_slice-IsListed (e ∷ rest) n w after kept apart ((place, carried), later) = (
    (place, subst (λ o. Carries o e) (sym (kept e.meta.name (λ h. apart (inl h)))) carried),
    update_slice-IsListed rest n w after kept (λ m. apart (inr m)) later,
  )

  pub update_slices-ok :
      (existing : List EndpointSlice) (desired left : List (String × EndpointSlice)) (w : W)
      → NamesApart existing
      → All (IsListed sv ns w) existing
      → (update_slices client same existing desired w).0 ≡ ok left
      → Updated existing desired left w (update_slices client same existing desired w).1
  unfolding update_slices
  update_slices-ok [] desired left w apart listed = λ h.
      let same : desired ≡ left = ok-injective h in
      subst (λ l. Updated [] desired l w w) same
        (λ n m. absurd m, λ n m. (refl, refl), λ h. h, λ h. h)
  update_slices-ok (e ∷ rest) desired left w apart listed =
      let now = update_slice client same e (lookup desired e.meta.name) desired w in
      elim (Result-cases now.0) [
        | inl (mid, done) ↦
            let whole : now ≡ (ok mid, now.1) = with_result done in
            let (outcome, gone, left_kept, kept, uniq, placed) =
              update_slice-ok e (lookup desired e.meta.name) desired mid w refl listed.0 done in
            rw whole (λ h.
              let last = (update_slices client same rest mid now.1).1 in
              let (inside, outside, uniq', placed') =
                update_slices-ok rest mid left now.1 apart.1
                  (update_slice-IsListed rest e.meta.name w now.1 kept apart.0 listed.1) h in
              (
                λ n m. elim m [
                  | inl e' ↦
                      subst
                        (λ k.
                          Outcome same (lookup desired k) (sv.slice_at last ns k)
                          × (lookup left k ≡ none))
                        (sym e')
                        (
                          subst (Outcome same (lookup desired e.meta.name))
                              (sym (outside e.meta.name apart.0).1) outcome,
                          (outside e.meta.name apart.0).0 ∙ gone,
                        )
                  | inr later ↦ (
                    subst (λ o. Outcome same o (sv.slice_at last ns n))
                        (left_kept n
                          (λ k. apart.0 (subst (λ x. Member x (names rest)) (sym k) later)))
                        (inside n later).0,
                    (inside n later).1,
                  )
                ],
                λ n m. (
                  (outside n (λ k. m (inr k))).0 ∙ left_kept n (λ k. m (inl (sym k))),
                  (outside n (λ k. m (inr k))).1 ∙ kept n (λ k. m (inl (sym k))),
                ),
                λ u. uniq' (uniq u),
                λ p. placed' (placed p),
              ))
        | inr (x, failed) ↦
            let whole : now ≡ (err x, now.1) = with_result failed in rw whole (λ h. absurd cc)
      ]
