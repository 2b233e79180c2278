-- ===== src/Controller/Bindings/Collected.antt =====
-- The loop over the routes: what it has found, and the keys it has seen.
use clusterip_gw.Base.{
  ◌≡◌, ◌≢◌, refl, ap, ok-injective, sym, ◌∙◌, subst, inl, inr, String, false, Option, some, none,
  List, [], ◌∷◌, ◌++◌, string_eq, Bool-cases, Member, Member-append, append-Member, contains,
  contains-Member, contains-absent, ok, err, Result-cases,
}
use clusterip_gw.Kube.{TcpRoute, EndpointSelector}
use clusterip_gw.Controller.{Library, Informers}
use clusterip_gw.Controller.Bindings.{
  Binding, binding_key, add_binding, gateway_binding_for_route, collect_bindings, add_result,
}

-- No two bindings have one key.
abbrev pub Apart : List Binding → Type 0
Apart [] = Unit
Apart (b ∷ rest) = ((c : Binding) → Member c rest → binding_key b ≢ binding_key c) × Apart rest

Apart-snoc :
    (bs : List Binding) (b : Binding)
    → Apart bs
    → ((c : Binding) → Member c bs → binding_key c ≢ binding_key b)
    → Apart (bs ++ (b ∷ []))
Apart-snoc [] b h fresh = (λ c m. absurd m, tt)
Apart-snoc (a ∷ rest) b h fresh = (
  λ c m. elim (Member-append c rest (b ∷ []) m) [
    | inl l ↦ h.0 c l
    | inr (inl e) ↦ λ same. fresh a (inl refl) (same ∙ ap binding_key e)
    | inr (inr n) ↦ absurd n
  ],
  Apart-snoc rest b h.1 (λ c m. fresh c (inr m)),
)

-- Every binding found has its key among those seen, and every key seen is that of a binding found.
abbrev pub IsCollected : (Binding → Type 0) → List String → List Binding → Type 0
IsCollected From seen out =
    Apart out
    × ((c : Binding) → Member c out → From c × Member (binding_key c) seen)
    × ((k : String) → Member k seen → (c : Binding) × Member c out × (binding_key c ≡ k))

module _ (From : Binding → Type 0) where
  add-fresh :
      (seen : List String) (out : List Binding) (b : Binding)
      → From b
      → contains seen (binding_key b) ≡ false
      → IsCollected From seen out
      → IsCollected From (binding_key b ∷ seen) (out ++ (b ∷ []))
  add-fresh seen out b from fresh (apart, found, keys) = (
    Apart-snoc out b apart (λ c m same.
        contains-absent seen (binding_key b) fresh (subst (λ k. Member k seen) same (found c m).1)),
    λ c m. elim (Member-append c out (b ∷ []) m) [
      | inl l ↦ let (f, k) = found c l in (f, inr k)
      | inr (inl e) ↦ (subst From (sym e) from, inl (ap binding_key e))
      | inr (inr n) ↦ absurd n
    ],
    λ k m. elim m [
      | inl e ↦ (b, append-Member b out (b ∷ []) (inr (inl refl)), sym e)
      | inr l ↦ let (c, m, e) = keys k l in (c, append-Member c out (b ∷ []) (inl m), e)
    ],
  )

  -- What one step of the loop keeps, and what it adds.
  add_binding-IsCollected :
      (ob : Option Binding) (seen : List String) (out : List Binding)
      → ((b : Binding) → ob ≡ some b → From b)
      → IsCollected From seen out
      → let next = add_binding (seen, out) ob in
        IsCollected From next.0 next.1
        × ((c : Binding) → Member c out → Member c next.1)
        × ((k : String) → Member k seen → Member k next.0)
        × ((b : Binding) → ob ≡ some b → Member (binding_key b) next.0)
  unfolding add_binding
  add_binding-IsCollected none seen out from h = (h, λ c m. m, λ k m. m, λ b e. absurd cc)
  add_binding-IsCollected (some b) seen out from h =
      elim (Bool-cases (contains seen (binding_key b))) [
        | inl old ↦ rw old (
          h,
          λ c m. m,
          λ k m. m,
          λ c e.
              let same : b ≡ c = cc in
              subst (λ x. Member (binding_key x) seen) same
                (contains-Member seen (binding_key b) old),
        )
        | inr fresh ↦ rw fresh (
          add-fresh seen out b (from b refl) fresh h,
          λ c m. append-Member c out (b ∷ []) (inl m),
          λ k m. inr m,
          λ c e. let same : c ≡ b = cc in inl (ap binding_key same),
        )
      ]

module _ (From : Binding → Type 0) (lib : Library) (inf : Informers) (s : EndpointSelector) where
  -- What the loop over the routes gives, from what it has found before them.
  pub collect_bindings-IsCollected :
      (routes : List TcpRoute) (seen : List String) (out : List Binding)
      → ((r : TcpRoute) (b : Binding)
          → Member r routes
          → gateway_binding_for_route lib inf s r ≡ ok (some b)
          → From b)
      → IsCollected From seen out
      → (bs : List Binding) → collect_bindings lib inf s routes (seen, out) ≡ ok bs
      → (keys : List String) × IsCollected From keys bs
        × ((c : Binding) → Member c out → Member c bs)
        × ((k : String) → Member k seen → Member k keys)
        × ((r : TcpRoute) (b : Binding)
            → Member r routes
            → gateway_binding_for_route lib inf s r ≡ ok (some b)
            → Member (binding_key b) keys)
  unfolding collect_bindings add_result
  collect_bindings-IsCollected [] seen out from h bs e =
      let same : out ≡ bs = ok-injective e in
      (
        seen,
        subst (IsCollected From seen) same h,
        λ c m. subst (Member c) same m,
        λ k m. m,
        λ r b m g. absurd m,
      )
  collect_bindings-IsCollected (r ∷ rest) seen out from h bs e =
      elim (Result-cases (gateway_binding_for_route lib inf s r)) [
        | inl (ob, here) ↦
            let (kept, more, known, added) =
              add_binding-IsCollected From ob seen out
                (λ b same. from r b (inl refl) (here ∙ ap ok same)) h in
            let later : collect_bindings lib inf s rest (add_binding (seen, out) ob) ≡ ok bs =
              subst
                (λ t.
                  add_result lib inf t (seen, out) (λ n. collect_bindings lib inf s rest n) ≡ ok bs)
                here e in
            let (keys, collected, outs, seens, all) =
              collect_bindings-IsCollected rest (add_binding (seen, out) ob).0
                (add_binding (seen, out) ob).1 (λ q b m. from q b (inr m)) kept bs later in
            (
              keys,
              collected,
              λ c m. outs c (more c m),
              λ k m. seens k (known k m),
              λ q b m g. elim m [
                | inl same ↦ seens (binding_key b) (
                    added b (
                      ok-injective
                        (sym here ∙ sym (ap (gateway_binding_for_route lib inf s) same) ∙ g)))
                | inr l ↦ all q b l g
              ],
            )
        | inr (x, here) ↦
            let failed : err x ≡ ok bs =
              subst
                (λ t.
                  add_result lib inf t (seen, out) (λ n. collect_bindings lib inf s rest n) ≡ ok bs)
                here e in
            absurd cc
      ]

module _ (lib : Library) (inf : Informers) (s : EndpointSelector) where
  -- The loop ends well when every route can be read.
  pub collect_bindings-ok :
      (routes : List TcpRoute) (acc : List String × List Binding)
      → ((r : TcpRoute)
          → Member r routes
          → (ob : Option Binding) × (gateway_binding_for_route lib inf s r ≡ ok ob))
      → (bs : List Binding) × (collect_bindings lib inf s routes acc ≡ ok bs)
  unfolding collect_bindings add_result
  collect_bindings-ok [] acc reads = (acc.1, refl)
  collect_bindings-ok (r ∷ rest) acc reads =
      let (ob, here) = reads r (inl refl) in
      let (bs, later) = collect_bindings-ok rest (add_binding acc ob) (λ q m. reads q (inr m)) in
      (bs, rw here later)
