-- ===== src/Base/Dict.antt =====
-- Go's maps: an association list, in the order in which a loop over the map meets the keys.
use mathlib.Core.Path.{◌≡◌, refl}
use mathlib.Core.Logic.{◌≢◌}
use mathlib.Core.Option.{Option, none, some}
use mathlib.Core.List.{List, [], ◌∷◌}
use native.Mathlib.Omega.{arith}
use clusterip_gw.Base.Equality.{Eq, ◌==◌, if◌then◌else◌, if_both}
use clusterip_gw.Base.Lists.{All}

module _ {K V : Type 0} ⦃e : Eq K⦄ where
  unfoldable pub lookup : List (K × V) → K → Option V
  lookup [] k = none
  lookup ((j, v) ∷ rest) k = let later = lookup rest k in if j == k then some v else later

  -- `delete(m, k)`
  unfoldable pub remove : List (K × V) → K → List (K × V)
  remove [] k = []
  remove ((j, v) ∷ rest) k = let later = remove rest k in if j == k then later else (j, v) ∷ later

  -- `m[k] = v`
  unfoldable pub put : List (K × V) → K → V → List (K × V)
  put m k v = (k, v) ∷ remove m k

  pub lookup-remove : (m : List (K × V)) (k : K) → lookup (remove m k) k ≡ none
  unfolding lookup remove
  lookup-remove [] k = refl
  lookup-remove ((j, v) ∷ rest) k = ground (arith, lookup-remove rest k)

  pub lookup-remove_other :
      (m : List (K × V)) (k j : K) → k ≢ j → lookup (remove m k) j ≡ lookup m j
  unfolding lookup remove
  lookup-remove_other [] k j n = refl
  lookup-remove_other ((i, v) ∷ rest) k j n = ground (arith, lookup-remove_other rest k j n)

  pub lookup-put : (m : List (K × V)) (k : K) (v : V) → lookup (put m k v) k ≡ some v
  unfolding lookup put
  lookup-put m k v = ground arith

  pub lookup-put_other :
      (m : List (K × V)) (k j : K) (v : V) → k ≢ j → lookup (put m k v) j ≡ lookup m j
  unfolding lookup put
  lookup-put_other m k j v n = ground (arith, lookup-remove_other m k j n)

  pub remove-All : (P : K × V → Type 0) (m : List (K × V)) (k : K) → All P m → All P (remove m k)
  unfolding remove
  remove-All P [] k h = tt
  remove-All P ((j, v) ∷ rest) k h =
      let later = remove-All P rest k h.1 in if_both (All P) (j == k) _ _ later (h.0, later)

  -- No two entries have one key.
  abbrev pub Unique : List (K × V) → Type 0
  Unique [] = Unit
  Unique ((k, v) ∷ rest) = All (λ e. k ≢ e.0) rest × Unique rest

  remove-apart : (m : List (K × V)) (k : K) → All (λ e. k ≢ e.0) (remove m k)
  unfolding remove
  remove-apart [] k = tt
  remove-apart ((j, v) ∷ rest) k = ground (arith, remove-apart rest k)

  pub remove-Unique : (m : List (K × V)) (k : K) → Unique m → Unique (remove m k)
  unfolding remove
  remove-Unique [] k u = tt
  remove-Unique ((j, v) ∷ rest) k (apart, u) =
      let later = remove-Unique rest k u in
      if_both Unique (j == k) _ _ later (remove-All (λ e. j ≢ e.0) rest k apart, later)

  pub put-Unique : (m : List (K × V)) (k : K) (v : V) → Unique m → Unique (put m k v)
  unfolding put
  put-Unique m k v u = (remove-apart m k, remove-Unique m k u)

  pub put-All :
      (P : K × V → Type 0) (m : List (K × V)) (k : K) (v : V)
      → P (k, v)
      → All P m
      → All P (put m k v)
  unfolding put
  put-All P m k v p h = (p, remove-All P m k h)

  pub lookup-apart : (m : List (K × V)) (k : K) → All (λ e. k ≢ e.0) m → lookup m k ≡ none
  unfolding lookup
  lookup-apart [] k h = refl
  lookup-apart ((j, v) ∷ rest) k h = ground (arith, h.0, lookup-apart rest k h.1)

abbrev pub or_else : {A : Type 0} → Option A → Option A → Option A
or_else none later = later
or_else (some a) later = some a
