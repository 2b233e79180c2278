-- ===== src/Controller/Slices/Served.antt =====
-- What the reconciliation of a selector leaves on the server.
use clusterip_gw.Base.{
  ◌≡◌, ◌≢◌, ◌⊎◌, ◌∙◌, subst, inl, inr, String, true, Option, none, List, [], ◌∷◌, ◌==◌, ◌!=◌,
  string_eq, Bool-cases, Member, All, ok, err, not_found, Result-cases, ignore_result, arith,
}
use clusterip_gw.Kube.{
  condition_true, condition_status_eq, NamespacedName, EndpointSelector, EndpointSlice,
}
use clusterip_gw.Net.{Ipv4}
use clusterip_gw.Controller.{Library, Client, Informers}
use clusterip_gw.Controller.Server.{ignore_result-ok}
use clusterip_gw.Controller.Finalizers.Cleanup.{with_result}
use clusterip_gw.Controller.Refs.{split_namespaced_key}
use clusterip_gw.Controller.Routes.{get_endpoint_selector, evaluate_endpoint_selector}
use clusterip_gw.Controller.Bindings.{list_referenced_gateway_bindings}
use clusterip_gw.Controller.Slices.{Semantic}
use clusterip_gw.Controller.Slices.Stored.{SliceServer, names}
use clusterip_gw.Controller.Slices.Reconcile.{
  list_managed_endpoint_slices, delete_endpoint_slices, delete_managed_endpoint_slices,
  serve_bindings, serve_selector, update_endpoint_selector_status, evaluate_selector,
  reconcile_endpoint_selector,
}

module _ {W : Type 0} (client : Client W) (sv : SliceServer W client) (ns : String) where
  delete_endpoint_slices-none :
      (xs : List EndpointSlice) (n : String) (w : W)
      → All (λ e. e.meta.namespace ≡ ns) xs
      → (delete_endpoint_slices client xs w).0 ≡ ok tt
      → Member n (names xs) ⊎ (sv.slice_at w ns n ≡ none)
      → sv.slice_at (delete_endpoint_slices client xs w).1 ns n ≡ none
  unfolding delete_endpoint_slices
  delete_endpoint_slices-none [] n w place = λ h m. elim m [ inl x ↦ absurd x | inr gone ↦ gone ]
  delete_endpoint_slices-none (e ∷ rest) n w (here, place) =
      let now = client.delete_endpoint_slice e.meta.namespace e.meta.name w in
      elim (Result-cases (ignore_result now.0)) [
        | inl (u, done) ↦
            let gone : sv.slice_at now.1 ns e.meta.name ≡ none =
              subst (λ k. sv.slice_at now.1 k e.meta.name ≡ none) here
                (sv.delete-gone e.meta.namespace e.meta.name w (ignore_result-ok _ u done)) in
            rw done (λ h m.
              delete_endpoint_slices-none rest n now.1 place h
                (elim (Bool-cases (e.meta.name == n)) [
                  | inl same ↦
                      let equal : e.meta.name ≡ n = ground (arith, same) in
                      inr (subst (λ k. sv.slice_at now.1 ns k ≡ none) equal gone)
                  | inr differs ↦ elim m [
                    | inl (inl equal) ↦
                        let bad : n ≡ e.meta.name = equal in absurd (ground (arith, differs, bad))
                    | inl (inr later) ↦ inl later
                    | inr before ↦
                        let apart : e.meta.name ≢ n = ground (arith, differs) in
                        inr (
                          subst (λ k. sv.slice_at now.1 k n ≡ sv.slice_at w k n) here
                            (sv.delete-other e.meta.namespace e.meta.name n w apart)
                          ∙ before)
                  ]
                ]))
        | inr (x, failed) ↦ rw failed (λ h m. absurd cc)
      ]

  -- No slice that is listed is left.
  abbrev pub Withdrawn : List EndpointSlice → W → Type 0
  Withdrawn xs w = (n : String) → Member n (names xs) → sv.slice_at w ns n ≡ none

  delete_managed-Withdrawn :
      (inf : Informers) (key : NamespacedName) (existing : List EndpointSlice) (w : W)
      → list_managed_endpoint_slices inf key ≡ ok existing
      → All (λ e. e.meta.namespace ≡ ns) existing
      → (delete_managed_endpoint_slices client inf key w).0 ≡ ok tt
      → Withdrawn existing (delete_managed_endpoint_slices client inf key w).1
  unfolding delete_managed_endpoint_slices
  delete_managed-Withdrawn inf key existing w listed place =
      rw listed (λ h n m. delete_endpoint_slices-none existing n w place h (inl m))

module _ {W : Type 0} (lib : Library) (client : Client W) (sv : SliceServer W client) (ns : String)
    (same : Semantic) (parse_ipv4 : String → Option Ipv4) (digest : String → String)
    (inf : Informers) where
  -- The selector is gone, or is not accepted, or no gateway forwards to it.
  abbrev pub IsUnused : NamespacedName → Type 0
  IsUnused key =
      ((m : String) × (get_endpoint_selector inf key ≡ err (not_found m)))
      ⊎ ((s : EndpointSelector) × (get_endpoint_selector inf key ≡ ok s)
          × (((evaluate_endpoint_selector lib s).0 != condition_true) ≡ true
              ⊎ (list_referenced_gateway_bindings lib inf s ≡ ok [])))

  -- When the reconciliation of a selector that is unused ends without an error, no listed slice of it
  -- is left.
  pub reconcile_endpoint_selector-withdraws :
      (raw : String) (key : NamespacedName) (existing : List EndpointSlice) (w : W)
      → split_namespaced_key raw ≡ ok key
      → IsUnused key
      → list_managed_endpoint_slices inf key ≡ ok existing
      → All (λ e. e.meta.namespace ≡ ns) existing
      → (reconcile_endpoint_selector lib client same parse_ipv4 digest inf raw w).0 ≡ ok tt
      → Withdrawn client sv ns existing
          (reconcile_endpoint_selector lib client same parse_ipv4 digest inf raw w).1
  unfolding reconcile_endpoint_selector evaluate_selector serve_selector serve_bindings
  reconcile_endpoint_selector-withdraws raw key existing w split (inl (m, missing)) listed place =
      rw (split, missing) (delete_managed-Withdrawn client sv ns inf key existing w listed place)
  reconcile_endpoint_selector-withdraws raw key existing w split (inr (s, found, why)) listed
        place =
      let now = update_endpoint_selector_status lib client s (evaluate_endpoint_selector lib s) w in
      rw (split, found)
        (elim (Result-cases now.0) [
          | inl (u, done) ↦
              let whole : now ≡ (ok u, now.1) = with_result done in
              rw whole (
                let deleted =
                  delete_managed-Withdrawn client sv ns inf key existing now.1 listed place in
                elim why [
                  | inl rejected ↦ rw rejected deleted
                  | inr unbound ↦
                      elim (Bool-cases ((evaluate_endpoint_selector lib s).0 != condition_true)) [
                        | inl rejected ↦ rw rejected deleted
                        | inr accepted ↦ rw (accepted, unbound) deleted
                      ]
                ])
          | inr (x, failed) ↦
              let whole : now ≡ (err x, now.1) = with_result failed in rw whole (λ h. absurd cc)
        ])
