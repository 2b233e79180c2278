-- ===== src/Base/Sorting.antt =====
-- `slices.SortFunc` and `sort.Slice`, by the insertion sort that they run on short slices. For
-- longer ones the library leaves the order of equal elements open.
use Prim.Native.Nat.{suc, ◌+◌}
use mathlib.Core.Path.{◌≡◌, refl}
use mathlib.Core.Logic.{◌⊎◌, inl, inr}
use mathlib.Core.Bool.{Bool, true, false}
use mathlib.Core.List.{List, [], ◌∷◌}
use native.Mathlib.Omega.{arith}
use clusterip_gw.Base.Equality.{if◌then◌else◌, Bool-cases}
use clusterip_gw.Base.Lists.{length, count_if, Member, All}

module _ {A : Type 0} (less : A → A → Bool) where
  -- Among sorted elements, behind all that are not greater.
  unfoldable pub insert_by : A → List A → List A
  insert_by x [] = x ∷ []
  insert_by x (y ∷ ys) = let rest = insert_by x ys in if less x y then x ∷ y ∷ ys else y ∷ rest

  unfoldable pub sort_onto : List A → List A → List A
  unfolding insert_by
  sort_onto acc [] = acc
  sort_onto acc (x ∷ xs) = sort_onto (insert_by x acc) xs

  unfoldable pub sort_by : List A → List A
  unfolding sort_onto
  sort_by xs = sort_onto [] xs

  abbrev pub IsSorted : List A → Type 0
  IsSorted [] = Unit
  IsSorted (x ∷ xs) = All (λ y. less y x ≡ false) xs × IsSorted xs

  length-insert_by : (x : A) (ys : List A) → length (insert_by x ys) ≡ suc (length ys)
  unfolding insert_by
  length-insert_by x [] = refl
  length-insert_by x (y ∷ ys) = ground (arith, length-insert_by x ys)

  length-sort_onto : (acc xs : List A) → length (sort_onto acc xs) ≡ length acc + length xs
  unfolding sort_onto
  length-sort_onto acc [] = omega arith
  length-sort_onto acc (x ∷ xs) =
      omega (arith, length-sort_onto (insert_by x acc) xs, length-insert_by x acc)

  pub length-sort_by : (xs : List A) → length (sort_by xs) ≡ length xs
  unfolding sort_by
  length-sort_by xs = omega (arith, length-sort_onto [] xs)

  count_if-insert_by :
      (t : A → Bool) (x : A) (ys : List A)
      → count_if t (insert_by x ys) ≡ (if t x then 1 else 0) + count_if t ys
  unfolding insert_by
  count_if-insert_by t x [] = refl
  count_if-insert_by t x (y ∷ ys) = ground (arith, count_if-insert_by t x ys)

  count_if-sort_onto :
      (t : A → Bool) (acc xs : List A)
      → count_if t (sort_onto acc xs) ≡ count_if t acc + count_if t xs
  unfolding sort_onto
  count_if-sort_onto t acc [] = omega arith
  count_if-sort_onto t acc (x ∷ xs) =
      omega (arith, count_if-sort_onto t (insert_by x acc) xs, count_if-insert_by t x acc)

  -- Sorting keeps how often an element is there.
  pub count_if-sort_by : (t : A → Bool) (xs : List A) → count_if t (sort_by xs) ≡ count_if t xs
  unfolding sort_by
  count_if-sort_by t xs = omega (arith, count_if-sort_onto t [] xs)

  pub Member-insert_by : (a x : A) (ys : List A) → Member a (insert_by x ys) → (a ≡ x) ⊎ Member a ys
  unfolding insert_by
  Member-insert_by a x [] m = m
  Member-insert_by a x (y ∷ ys) m = ground (arith, Member-insert_by a x ys)

  insert_by-Member : (a x : A) (ys : List A) → (a ≡ x) ⊎ Member a ys → Member a (insert_by x ys)
  unfolding insert_by
  insert_by-Member a x [] m = m
  insert_by-Member a x (y ∷ ys) m = ground (arith, insert_by-Member a x ys)

  Member-sort_onto :
      (a : A) (acc xs : List A) → Member a (sort_onto acc xs) → Member a acc ⊎ Member a xs
  unfolding sort_onto
  Member-sort_onto a acc [] m = inl m
  Member-sort_onto a acc (x ∷ xs) m =
      ground (arith, Member-sort_onto a (insert_by x acc) xs m, Member-insert_by a x acc)

  sort_onto-Member :
      (a : A) (acc xs : List A) → Member a acc ⊎ Member a xs → Member a (sort_onto acc xs)
  unfolding sort_onto
  sort_onto-Member a acc [] (inl m) = m
  sort_onto-Member a acc [] (inr m) = absurd m
  sort_onto-Member a acc (x ∷ xs) m =
      ground (arith, sort_onto-Member a (insert_by x acc) xs, insert_by-Member a x acc)

  -- Sorting keeps the elements.
  pub Member-sort_by : (a : A) (xs : List A) → Member a (sort_by xs) → Member a xs
  unfolding sort_by
  Member-sort_by a xs m = ground (arith, Member-sort_onto a [] xs m)

  pub sort_by-Member : (a : A) (xs : List A) → Member a xs → Member a (sort_by xs)
  unfolding sort_by
  sort_by-Member a xs m = sort_onto-Member a [] xs (inr m)

-- What `less` must be: that of a total preorder.
pub record IsOrder {A : Type 0} (less : A → A → Bool) : Type 0 where
  pub asym : (a b : A) → less a b ≡ true → less b a ≡ false
  pub trans : (a b c : A) → less b a ≡ false → less c b ≡ false → less c a ≡ false

module _ {A : Type 0} (less : A → A → Bool) (o : IsOrder less) where
  All-insert_by :
      (a x : A) (ys : List A)
      → less x a ≡ false
      → All (λ y. less y a ≡ false) ys
      → All (λ y. less y a ≡ false) (insert_by less x ys)
  unfolding insert_by
  All-insert_by a x [] h k = (h, tt)
  All-insert_by a x (y ∷ ys) h k = ground (arith, All-insert_by a x ys h k.1)

  above :
      (x y : A) (ys : List A)
      → less x y ≡ true
      → All (λ z. less z y ≡ false) ys
      → All (λ z. less z x ≡ false) ys
  above x y [] h k = tt
  above x y (z ∷ ys) h k = (o.trans x y z (o.asym x y h) k.0, above x y ys h k.1)

  insert_by-IsSorted :
      (x : A) (ys : List A) → IsSorted less ys → IsSorted less (insert_by less x ys)
  unfolding insert_by
  insert_by-IsSorted x [] s = (tt, tt)
  insert_by-IsSorted x (y ∷ ys) s = elim (Bool-cases (less x y)) [
    | inl e ↦ rw (e, insert_by) ((o.asym x y e, above x y ys e s.0), s)
    | inr e ↦ rw (e, insert_by) (All-insert_by y x ys e s.0, insert_by-IsSorted x ys s.1)
  ]

  sort_onto-IsSorted : (acc xs : List A) → IsSorted less acc → IsSorted less (sort_onto less acc xs)
  unfolding sort_onto
  sort_onto-IsSorted acc [] s = s
  sort_onto-IsSorted acc (x ∷ xs) s =
      sort_onto-IsSorted (insert_by less x acc) xs (insert_by-IsSorted x acc s)

  pub sort_by-IsSorted : (xs : List A) → IsSorted less (sort_by less xs)
  unfolding sort_by
  sort_by-IsSorted xs = sort_onto-IsSorted [] xs tt
