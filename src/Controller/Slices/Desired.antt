-- ===== src/Controller/Slices/Desired.antt =====
-- The map of the desired slices.
use clusterip_gw.Base.{
  ◌≡◌, refl, ap, sym, ◌∙◌, inl, inr, String, Option, some, none, List, [], ◌∷◌, ◌==◌, string_eq,
  if◌then◌else◌, Member, All, lookup, put, Unique, lookup-put, lookup-put_other, put-Unique,
  put-All, or_else, arith,
}
use clusterip_gw.Kube.{EndpointSelector, SliceEndpoint, EndpointSlice}
use clusterip_gw.Controller.Bindings.{Binding}
use clusterip_gw.Controller.Slices.{endpoint_slice_name, desired_endpoint_slice, desired_slices}

pub or_else-none : (o : Option EndpointSlice) → or_else o none ≡ o
or_else-none none = refl
or_else-none (some a) = refl

module _ (digest : String → String) (s : EndpointSelector) (endpoints : List SliceEndpoint) where
  slice_name : Binding → String
  slice_name b = endpoint_slice_name digest b.gateway.meta.name b.listener_name

  -- The slice of the last binding that has the name.
  unfoldable pub last_slice : List Binding → String → Option EndpointSlice
  last_slice [] n = none
  last_slice (b ∷ rest) n = or_else (last_slice rest n) (
      if endpoint_slice_name digest b.gateway.meta.name b.listener_name == n
      then some (desired_endpoint_slice digest s b endpoints)
      else none)

  or_else_assoc : (a b c : Option EndpointSlice) → or_else (or_else a b) c ≡ or_else a (or_else b c)
  or_else_assoc none b c = refl
  or_else_assoc (some x) b c = refl

  -- For each name, the desired slice is that of the last binding with this name.
  pub lookup-desired_slices :
      (out : List (String × EndpointSlice)) (bs : List Binding) (n : String)
      → lookup (desired_slices digest s endpoints out bs) n
        ≡ or_else (last_slice bs n) (lookup out n)
  unfolding desired_slices last_slice desired_endpoint_slice
  lookup-desired_slices out [] n = refl
  lookup-desired_slices out (b ∷ rest) n =
      let name = endpoint_slice_name digest b.gateway.meta.name b.listener_name in
      let d = desired_endpoint_slice digest s b endpoints in
      lookup-desired_slices (put out name d) rest n
      ∙ ap (or_else (last_slice rest n)) (looked out name d n)
      ∙ sym (or_else_assoc (last_slice rest n) (if name == n then some d else none) (lookup out n))
    where
      looked :
          (out : List (String × EndpointSlice)) (name : String) (d : EndpointSlice) (n : String)
          → lookup (put out name d) n ≡ or_else (if name == n then some d else none) (lookup out n)
      looked out name d n = ground (arith, lookup-put out name d, lookup-put_other out name n d)

  pub desired_slices-Unique :
      (out : List (String × EndpointSlice)) (bs : List Binding)
      → Unique out
      → Unique (desired_slices digest s endpoints out bs)
  unfolding desired_slices
  desired_slices-Unique out [] u = u
  desired_slices-Unique out (b ∷ rest) u =
      desired_slices-Unique (put out _ (desired_endpoint_slice digest s b endpoints)) rest
        (put-Unique out _ (desired_endpoint_slice digest s b endpoints) u)

  pub desired_slices-All :
      (P : String × EndpointSlice → Type 0) (out : List (String × EndpointSlice))
      (bs : List Binding)
      → ((b : Binding)
          → Member b bs
          → P (
            (desired_endpoint_slice digest s b endpoints).meta.name,
            desired_endpoint_slice digest s b endpoints,
          ))
      → All P out
      → All P (desired_slices digest s endpoints out bs)
  unfolding desired_slices
  desired_slices-All P out [] h all = all
  desired_slices-All P out (b ∷ rest) h all =
      desired_slices-All P (put out _ (desired_endpoint_slice digest s b endpoints)) rest
        (λ c m. h c (inr m))
        (put-All P out _ (desired_endpoint_slice digest s b endpoints) (h b (inl refl)) all)
