-- ===== src/Controller/Slices/Stored.antt =====
-- Slices on the server, and what it is to be as desired. `SliceServer` is a view of the slices and the
-- documented behaviour of the calls: each writes its own slice, and leaves those of other names.
use mathlib.Core.List.{map}
use clusterip_gw.Base.{
  ◌≡◌, ◌≢◌, refl, ap, sym, ◌∙◌, String, Bool, true, Option, some, none, List, [], ◌∷◌, ◌==◌, ◌&&◌,
  string_eq, Member, ok, arith,
}
use clusterip_gw.Kube.{OwnerReference, EndpointPort, SliceEndpoint, EndpointSlice}
use clusterip_gw.Controller.{Client}
use clusterip_gw.Controller.Server.{IsGone}
use clusterip_gw.Controller.Slices.{Semantic, endpoint_slice_equal, refreshed}

-- What the controller writes of a slice.
abbrev pub Content : Type 0
Content =
    List (String × String) × List OwnerReference × String × List EndpointPort × List SliceEndpoint

abbrev pub content : EndpointSlice → Content
content s = (s.meta.labels, s.meta.owner_references, s.address_type, s.ports, s.endpoints)

-- The server has the slice's contents.
abbrev pub Carries : Option EndpointSlice → EndpointSlice → Type 0
Carries found s = (t : EndpointSlice) × (found ≡ some t) × (content t ≡ content s)

pub record SliceServer (W : Type 0) (client : Client W) : Type 0 where
  pub slice_at : W → String → String → Option EndpointSlice
  pub delete-gone :
      (ns n : String) (w : W)
      → IsGone (client.delete_endpoint_slice ns n w).0
      → slice_at (client.delete_endpoint_slice ns n w).1 ns n ≡ none
  pub delete-other :
      (ns n m : String) (w : W)
      → n ≢ m
      → slice_at (client.delete_endpoint_slice ns n w).1 ns m ≡ slice_at w ns m
  pub create-ok :
      (s : EndpointSlice) (w : W) (u : Unit {0})
      → (client.create_endpoint_slice s w).0 ≡ ok u
      → Carries (slice_at (client.create_endpoint_slice s w).1 s.meta.namespace s.meta.name) s
  pub create-other :
      (s : EndpointSlice) (m : String) (w : W)
      → s.meta.name ≢ m
      → slice_at (client.create_endpoint_slice s w).1 s.meta.namespace m
        ≡ slice_at w s.meta.namespace m
  pub update-ok :
      (s : EndpointSlice) (w : W) (u : Unit {0})
      → (client.update_endpoint_slice s w).0 ≡ ok u
      → Carries (slice_at (client.update_endpoint_slice s w).1 s.meta.namespace s.meta.name) s
  pub update-other :
      (s : EndpointSlice) (m : String) (w : W)
      → s.meta.name ≢ m
      → slice_at (client.update_endpoint_slice s w).1 s.meta.namespace m
        ≡ slice_at w s.meta.namespace m

-- `DeepEqual` holds of two equal values.
pub record IsReflexive (same : Semantic) : Type 0 where
  pub labels : (x : List (String × String)) → same.labels x x ≡ true
  pub owner_references : (x : List OwnerReference) → same.owner_references x x ≡ true
  pub ports : (x : List EndpointPort) → same.ports x x ≡ true
  pub endpoints : (x : List SliceEndpoint) → same.endpoints x x ≡ true

module _ (same : Semantic) where
  pub agree : Content → Content → Bool
  agree (l, o, a, p, e) (l', o', a', p', e') =
      same.labels l l'
      && same.owner_references o o'
      && a == a'
      && same.ports p p'
      && same.endpoints e e'

  pub equal-agree :
      (a b : EndpointSlice) → endpoint_slice_equal same a b ≡ agree (content a) (content b)
  unfolding endpoint_slice_equal agree
  equal-agree a b = refl

  pub agree_refl : IsReflexive same → (c : Content) → agree c c ≡ true
  unfolding agree
  agree_refl r (l, o, a, p, e) =
      ground (arith, r.labels l, r.owner_references o, r.ports p, r.endpoints e)

  -- A slice that equals the desired one, or none when none is desired.
  abbrev pub Outcome : Option EndpointSlice → Option EndpointSlice → Type 0
  Outcome none found = found ≡ none
  Outcome (some d) found =
      (t : EndpointSlice) × (found ≡ some t) × (endpoint_slice_equal same t d ≡ true)

  pub Carries-Outcome :
      (found : Option EndpointSlice) (s d : EndpointSlice)
      → endpoint_slice_equal same s d ≡ true
      → Carries found s
      → Outcome (some d) found
  Carries-Outcome found s d h (t, at, c) =
      (t, at, equal-agree t d ∙ ap (λ x. agree x (content d)) c ∙ sym (equal-agree s d) ∙ h)

  pub refreshed-equal :
      IsReflexive same → (e d : EndpointSlice) → endpoint_slice_equal same (refreshed e d) d ≡ true
  unfolding refreshed
  refreshed-equal r e d = equal-agree (refreshed e d) d ∙ agree_refl r (content d)

abbrev pub names : List EndpointSlice → List String
names = map (λ e. e.meta.name)

-- No two of the listed slices have one name.
abbrev pub NamesApart : List EndpointSlice → Type 0
NamesApart [] = Unit
NamesApart (e ∷ rest) = (Member e.meta.name (names rest) → ⊥) × NamesApart rest

module _ {W : Type 0} {client : Client W} (sv : SliceServer W client) (ns : String) where
  -- The entries of the desired slices, and the slices listed, as the server has them.
  abbrev pub IsPlaced : String × EndpointSlice → Type 0
  IsPlaced (k, d) = (d.meta.namespace ≡ ns) × (d.meta.name ≡ k)

  abbrev pub IsListed : W → EndpointSlice → Type 0
  IsListed w e = (e.meta.namespace ≡ ns) × Carries (sv.slice_at w ns e.meta.name) e
