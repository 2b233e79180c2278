-- ===== src/Controller/Gateways/Reconcile/Deletion.antt =====
-- No address is reserved for a gateway before its finalizer is in place.
use clusterip_gw.Base.{
  String, true, false, [], ◌∷◌, ◌++◌, ◌≡◌, ◌⊎◌, ◌!=◌, refl, string_eq, Option, some, ok, err, Error,
  Result-cases, inl, inr, after, return, arith,
}
use clusterip_gw.Kube.{Gateway}
use clusterip_gw.Meta.{gateway_class_name}
use clusterip_gw.Controller.{controller_finalizer, Library, Client, Informers}
use clusterip_gw.Controller.Server.{Server}
use clusterip_gw.Controller.Ipam.{ParsedPrefix}
use clusterip_gw.Controller.Finalizers.{has_finalizer, with_finalizers, ensure_gateway_finalizer}
use clusterip_gw.Controller.Finalizers.Cleanup.{pair-eq, with_result}
use clusterip_gw.Controller.Gateways.Reconcile.{reconcile_found_gateway}

module _ {W : Type 0} (lib : Library) (client : Client W) (s : Server W client)
    (parse_prefix : String → Option ParsedPrefix) (inf : Informers) (g : Gateway) (w : W) where
  ensure_gateway_finalizer-adds :
      has_finalizer g ≡ false
      → ((h : Gateway)
          → s.gateway_at w g.meta.namespace g.meta.name ≡ some h
          → has_finalizer h ≡ false)
      → (n : String)
      → (s.reserved (ensure_gateway_finalizer client g w).1 n ≡ s.reserved w n)
        × (((ensure_gateway_finalizer client g w).0 ≡ ok true)
            ⊎ ((e : Error) × ((ensure_gateway_finalizer client g w).0 ≡ err e)))
  unfolding ensure_gateway_finalizer
  ensure_gateway_finalizer-adds none_cached none_there n =
      let world = s.get_gateway-world g.meta.namespace g.meta.name w in
      rw none_cached (elim (Result-cases (client.get_gateway g.meta.namespace g.meta.name w).0) [
        | inr (e, failed) ↦ rw (pair-eq failed world) (refl, inr (e, refl))
        | inl (h, got) ↦
            let there = s.get_gateway-ok g.meta.namespace g.meta.name w h got in
            rw (pair-eq got world, none_there h there.0)
              (updated h (with_finalizers h (h.meta.finalizers ++ (controller_finalizer ∷ []))))
      ])
    where
      updated :
          (h u : Gateway)
          → (s.reserved (after (client.update_gateway u w) (λ x. return true)).1 n ≡ s.reserved w n)
            × (((after (client.update_gateway u w) (λ x. return true)).0 ≡ ok true)
                ⊎ ((e : Error) × ((after (client.update_gateway u w) (λ x. return true)).0
                      ≡ err e)))
      updated h u = elim (Result-cases (client.update_gateway u w).0) [
        | inl (x, done) ↦
            let whole : client.update_gateway u w ≡ (ok x, (client.update_gateway u w).1) =
              with_result done in
            rw whole (s.update_gateway-reserved u w n, inl refl)
        | inr (e, failed) ↦
            let whole : client.update_gateway u w ≡ (err e, (client.update_gateway u w).1) =
              with_result failed in
            rw whole (s.update_gateway-reserved u w n, inr (e, refl))
      ]

  -- When neither the informer's copy of a managed gateway nor the server's holds the finalizer, a reconciliation
  -- of it, as long as it is not being deleted, leaves all reservations as they were.
  pub reconcile_found_gateway-unprotected :
      g.gateway_class_name ≡ gateway_class_name
      → g.meta.deleting ≡ false
      → has_finalizer g ≡ false
      → ((h : Gateway)
          → s.gateway_at w g.meta.namespace g.meta.name ≡ some h
          → has_finalizer h ≡ false)
      → (n : String)
      → s.reserved (reconcile_found_gateway lib client parse_prefix inf g w).1 n ≡ s.reserved w n
  unfolding reconcile_found_gateway
  reconcile_found_gateway-unprotected class living none_cached none_there n =
      let (same, outcome) = ensure_gateway_finalizer-adds none_cached none_there n in
      simp (managed class, living)
        (elim outcome [
          | inl added ↦
              let whole : ensure_gateway_finalizer client g w
                  ≡ (ok true, (ensure_gateway_finalizer client g w).1) =
                with_result added in
              rw whole same
          | inr (e, failed) ↦
              let whole : ensure_gateway_finalizer client g w
                  ≡ (err e, (ensure_gateway_finalizer client g w).1) =
                with_result failed in
              rw whole same
        ])
    where
      managed :
          g.gateway_class_name ≡ gateway_class_name
          → (g.gateway_class_name != gateway_class_name) ≡ false
      managed e = ground (arith, e)
