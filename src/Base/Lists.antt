-- ===== src/Base/Lists.antt =====
-- Lists as Go's slices use them: a length in native numbers, Boolean tests and filters, and
-- membership as a predicate by recursion.
use Prim.Native.Nat.{ℕ, suc, ◌+◌, ◌≤◌}
use mathlib.Core.Path.{◌≡◌, refl, ap}
use mathlib.Core.Logic.{◌⊎◌, ◌↔◌, ◌≢◌, inl, inr}
use mathlib.Core.Bool.{Bool, true, false, ◌||◌}
use mathlib.Core.Option.{Option, none, some}
use mathlib.Core.List.{List, [], ◌∷◌, ◌++◌, map}
use native.Mathlib.Omega.{arith}
use clusterip_gw.Base.Equality.{Eq, ◌==◌, if◌then◌else◌, Bool-cases}

module _ {ℓ} {A : Type ℓ} where
  abbrev pub length : List A → ℕ
  length [] = 0
  length (x ∷ xs) = suc (length xs)

  abbrev pub head? : List A → Option A
  head? [] = none
  head? (x ∷ xs) = some x

  -- `for _, x := range xs { if !p(x) { continue }; out = append(out, x) }`
  abbrev pub keep : (A → Bool) → List A → List A
  keep p [] = []
  keep p (x ∷ xs) = let rest = keep p xs in if p x then x ∷ rest else rest

  abbrev pub any : (A → Bool) → List A → Bool
  any p [] = false
  any p (x ∷ xs) = p x || any p xs

  abbrev pub count_if : (A → Bool) → List A → ℕ
  count_if p [] = 0
  count_if p (x ∷ xs) = (if p x then 1 else 0) + count_if p xs

  -- Bounded quantification by recursion on the list.
  abbrev pub All {κ} : (A → Type κ) → List A → Type κ
  All P [] = Unit
  All P (x ∷ xs) = P x × All P xs

module _ {A : Type 0} where
  -- Membership by recursion on the list.
  abbrev pub Member : A → List A → Type 0
  Member a [] = ⊥
  Member a (x ∷ xs) = (a ≡ x) ⊎ Member a xs

module _ {A : Type 0} where
  pub length-append : (xs ys : List A) → length (xs ++ ys) ≡ length xs + length ys
  length-append [] ys = omega arith
  length-append (x ∷ xs) ys = omega (arith, length-append xs ys)

  pub length-keep-le : (p : A → Bool) (xs : List A) → length (keep p xs) ≤ length xs
  length-keep-le p [] = omega arith
  length-keep-le p (x ∷ xs) = ground (arith, length-keep-le p xs)

  pub Member-keep :
      (p : A → Bool) (a : A) (xs : List A) → Member a (keep p xs) → Member a xs × (p a ≡ true)
  Member-keep p a [] m = absurd m
  Member-keep p a (x ∷ xs) m = ground (arith, Member-keep p a xs)

  pub keep-Member :
      (p : A → Bool) (a : A) (xs : List A) → Member a xs → p a ≡ true → Member a (keep p xs)
  keep-Member p a [] m h = absurd m
  keep-Member p a (x ∷ xs) m h = ground (arith, keep-Member p a xs)

  pub All-Member : (P : A → Type 0) (xs : List A) (a : A) → All P xs → Member a xs → P a
  All-Member P [] a h m = absurd m
  All-Member P (x ∷ xs) a h (inl e) = rw e h.0
  All-Member P (x ∷ xs) a h (inr m) = All-Member P xs a h.1 m

  pub All-of_Member : (P : A → Type 0) (xs : List A) → ((a : A) → Member a xs → P a) → All P xs
  All-of_Member P [] h = tt
  All-of_Member P (x ∷ xs) h = (h x (inl refl), All-of_Member P xs (λ a m. h a (inr m)))

  pub Member-append : (a : A) (xs ys : List A) → Member a (xs ++ ys) → Member a xs ⊎ Member a ys
  Member-append a [] ys m = inr m
  Member-append a (x ∷ xs) ys (inl e) = inl (inl e)
  Member-append a (x ∷ xs) ys (inr m) = elim (Member-append a xs ys m) [
    | inl l ↦ inl (inr l)
    | inr r ↦ inr r
  ]

  pub append-Member : (a : A) (xs ys : List A) → Member a xs ⊎ Member a ys → Member a (xs ++ ys)
  append-Member a [] ys (inr m) = m
  append-Member a [] ys (inl m) = absurd m
  append-Member a (x ∷ xs) ys (inl (inl e)) = inl e
  append-Member a (x ∷ xs) ys (inl (inr m)) = inr (append-Member a xs ys (inl m))
  append-Member a (x ∷ xs) ys (inr m) = inr (append-Member a xs ys (inr m))

  pub map_append :
      {B : Type 0} (f : A → B) (xs ys : List A) → map f (xs ++ ys) ≡ map f xs ++ map f ys
  map_append f [] ys = refl
  map_append f (x ∷ xs) ys = ap (λ r. f x ∷ r) (map_append f xs ys)

  pub append_nil : (xs : List A) → xs ++ [] ≡ xs
  append_nil [] = refl
  append_nil (x ∷ xs) = ap (λ r. x ∷ r) (append_nil xs)

  pub append_assoc : (xs ys zs : List A) → (xs ++ ys) ++ zs ≡ xs ++ (ys ++ zs)
  append_assoc [] ys zs = refl
  append_assoc (x ∷ xs) ys zs = ap (λ r. x ∷ r) (append_assoc xs ys zs)

  pub any_iff :
      (t : A → Bool) (xs : List A) → (any t xs ≡ true) ↔ ((x : A) × Member x xs × (t x ≡ true))
  any_iff t [] = (λ h. ground arith, λ h. absurd h.1)
  any_iff t (x ∷ xs) = (
    λ h. elim (Bool-cases (t x)) [
      | inl holds ↦ (x, inl refl, holds)
      | inr fails ↦ let (y, m, e) = (any_iff t xs).0 (ground (arith, fails)) in (y, inr m, e)
    ],
    λ (y, m, e). elim m [
      | inl same ↦ ground (arith, ap t same)
      | inr later ↦ let rest = (any_iff t xs).1 (y, later, e) in ground (arith, rest)
    ],
  )

  pub count_if-any : (t : A → Bool) (xs : List A) → (count_if t xs ≢ 0) ↔ (any t xs ≡ true)
  count_if-any t [] = (λ h. ground (arith, h), λ h. ground (arith, h))
  count_if-any t (x ∷ xs) = ground (arith, count_if-any t xs)

module _ {A : Type 0} ⦃e : Eq A⦄ where
  abbrev pub contains : List A → A → Bool
  contains [] a = false
  contains (x ∷ xs) a = a == x || contains xs a

  pub contains-Member : (xs : List A) (a : A) → contains xs a ≡ true → Member a xs
  contains-Member [] a h = cc
  contains-Member (x ∷ xs) a h = ground (arith, contains-Member xs a)

  pub Member-contains : (xs : List A) (a : A) → Member a xs → contains xs a ≡ true
  Member-contains [] a m = absurd m
  Member-contains (x ∷ xs) a m = ground (arith, Member-contains xs a)

  pub contains-absent : (xs : List A) (a : A) → contains xs a ≡ false → Member a xs → ⊥
  contains-absent xs a h m = let here = Member-contains xs a m in cc
