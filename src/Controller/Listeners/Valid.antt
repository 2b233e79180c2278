-- ===== src/Controller/Listeners/Valid.antt =====
-- When the listeners of a gateway are valid, against a description by the listeners alone.
use clusterip_gw.Base.{
  ℕ, ◌≤◌, pos, true, false, not, none, List, [], ◌∷◌, ◌++◌, ◌≡◌, ◌≢◌, ◌↔◌, ◌⊎◌, inl, inr, refl, ap,
  sym, ◌∙◌, ◌==◌, nat_eq, string_eq, int_eq, if◌then◌else◌, ltb, length, count_if, append_assoc,
  append_nil, All, Bool-cases, Eq, arith,
}
use clusterip_gw.Kube.{Listener, Gateway}
use clusterip_gw.Controller.{Library}
use clusterip_gw.Controller.Listeners.{
  Validation, allowed_routes_supported, too_many, too_many_message, listener_problem, judge,
  validate_from, validate_gateway_listeners,
}

-- What one listener must have by itself.
unfoldable pub IsSupported : Listener → Type 0
IsSupported l =
    (l.name ≢ "")
    × (l.port ≢ pos 0)
    × (l.protocol ≡ "TCP")
    × (allowed_routes_supported l.allowed_routes ≡ true)

-- No two positions of the list agree on the field.
unfoldable pub AreDistinct : {A : Type 0} → (Listener → A) → List Listener → Type 0
AreDistinct f [] = Unit
AreDistinct f (l ∷ ls) = All (λ k. f l ≢ f k) ls × AreDistinct f ls

module _ {A : Type 0} ⦃e : Eq A⦄ (f : Listener → A) where
  abbrev occurrences : A → List Listener → ℕ
  occurrences a ls = count_if (λ k. f k == a) ls

  absent : (a : A) (ls : List Listener) → All (λ k. a ≢ f k) ls → occurrences a ls ≡ 0
  absent a [] h = refl
  absent a (l ∷ ls) h = ground (arith, absent a ls)

  absent_of_zero : (a : A) (ls : List Listener) → occurrences a ls ≡ 0 → All (λ k. a ≢ f k) ls
  absent_of_zero a [] h = tt
  absent_of_zero a (l ∷ ls) h = ground (arith, absent_of_zero a ls)

  -- Each member's field occurs at most once.
  abbrev OccursOnce : List Listener → List Listener → Type 0
  OccursOnce all ls = All (λ l. ltb 1 (occurrences (f l) all) ≡ false) ls

  once-tail : (x : Listener) (all ls : List Listener) → OccursOnce (x ∷ all) ls → OccursOnce all ls
  once-tail x all [] h = tt
  once-tail x all (l ∷ ls) h = (ground (arith, h.0), once-tail x all ls h.1)

  once-extend :
      (x : Listener) (all ls : List Listener)
      → All (λ k. f x ≢ f k) ls
      → OccursOnce all ls
      → OccursOnce (x ∷ all) ls
  once-extend x all [] d h = tt
  once-extend x all (l ∷ ls) d h = (ground (arith, h.0, d.0), once-extend x all ls d.1 h.1)

  distinct_of_once : (ls : List Listener) → OccursOnce ls ls → AreDistinct f ls
  unfolding AreDistinct
  distinct_of_once [] h = tt
  distinct_of_once (l ∷ ls) h =
      (absent_of_zero (f l) ls (ground (arith, h.0)), distinct_of_once ls (once-tail l ls ls h.1))

  once_of_distinct : (ls : List Listener) → AreDistinct f ls → OccursOnce ls ls
  unfolding AreDistinct
  once_of_distinct [] h = tt
  once_of_distinct (l ∷ ls) h =
      (ground (arith, absent (f l) ls h.0), once-extend l ls ls h.0 (once_of_distinct ls h.1))

-- A listener among all has no problem.
abbrev IsFine : List Listener → Listener → Type 0
IsFine all l = listener_problem all l ≡ none

IsFine-iff :
    (all : List Listener) (l : Listener)
    → IsFine all l ↔ (
        (too_many all ≡ false)
        × IsSupported l
        × (ltb 1 (count_if (λ k. k.name == l.name) all) ≡ false)
        × (ltb 1 (count_if (λ k. k.port == l.port) all) ≡ false))
unfolding listener_problem IsSupported
IsFine-iff all l = (λ h. ground arith, λ h. ground arith)

module _ (lib : Library) (all : List Listener) (generation : ℕ) where
  validate_from-valid :
      (v : Validation) (ls : List Listener)
      → ((validate_from lib all generation v ls).valid ≡ true)
        ↔ ((v.valid ≡ true) × All (IsFine all) ls)
  unfolding validate_from judge
  validate_from-valid v [] = (λ h. (h, tt), λ h. h.0)
  validate_from-valid v (l ∷ ls) =
      ground (arith, validate_from-valid (judge lib (listener_problem all l) generation v l) ls)

  validate_from-listeners :
      (v : Validation) (ls : List Listener)
      → All (IsFine all) ls
      → (validate_from lib all generation v ls).listeners ≡ v.listeners ++ ls
  unfolding validate_from judge
  validate_from-listeners v [] h = sym (append_nil v.listeners)
  validate_from-listeners v (l ∷ ls) h =
      ap (λ p. (validate_from lib all generation (judge lib p generation v l) ls).listeners) h.0
      ∙ (validate_from-listeners (judge lib none generation v l) ls h.1
          ∙ append_assoc v.listeners (l ∷ []) ls)

-- What all the listeners of a gateway must have together.
unfoldable pub AreValid : List Listener → Type 0
AreValid ls =
    (ls ≢ [])
    × (length ls ≤ 10)
    × All IsSupported ls
    × AreDistinct (λ (l : Listener). l.name) ls
    × AreDistinct (λ (l : Listener). l.port) ls

All-IsFine :
    (all ls : List Listener)
    → too_many all ≡ false
    → All (IsFine all) ls ↔ (
        All IsSupported ls
        × OccursOnce (λ (l : Listener). l.name) all ls
        × OccursOnce (λ (l : Listener). l.port) all ls)
All-IsFine all [] few = (λ h. (tt, tt, tt), λ h. tt)
All-IsFine all (l ∷ ls) few = ground (arith, IsFine-iff all l, All-IsFine all ls few)

-- The result that the walk over a non-empty list starts from.
abbrev start : List Listener → Validation
start ls = record {
  valid = not (too_many ls);
  message = if too_many ls then too_many_message else "Listeners accepted.";
  listeners = [];
  statuses = [];
}

distinct_and_once :
    (ls : List Listener)
    → (AreDistinct (λ (l : Listener). l.name) ls ↔ OccursOnce (λ (l : Listener). l.name) ls ls)
      × (AreDistinct (λ (l : Listener). l.port) ls ↔ OccursOnce (λ (l : Listener). l.port) ls ls)
distinct_and_once ls = (
  (once_of_distinct (λ (l : Listener). l.name) ls, distinct_of_once (λ (l : Listener). l.name) ls),
  (once_of_distinct (λ (l : Listener). l.port) ls, distinct_of_once (λ (l : Listener). l.port) ls),
)

-- What all the listeners of a non-empty list have, by the tests of the code.
few_and_IsFine :
    (ls : List Listener)
    → ((not (too_many ls) ≡ true) × All (IsFine ls) ls) ↔ (
        (length ls ≤ 10)
        × All IsSupported ls
        × AreDistinct (λ (l : Listener). l.name) ls
        × AreDistinct (λ (l : Listener). l.port) ls)
few_and_IsFine ls = elim (Bool-cases (too_many ls)) [
  | inl many ↦ (λ h. ground (arith, many), λ h. ground (arith, many))
  | inr few ↦
      let both = distinct_and_once ls in
      let fine = All-IsFine ls ls few in
      (
        λ h.
            let (supported, names, ports) = fine.0 h.1 in
            (ground (arith, few), supported, both.0.1 names, both.1.1 ports),
        λ (short, supported, names, ports).
            (ap not few, fine.1 (supported, both.0.0 names, both.1.0 ports)),
      )
]

List-cases : (ls : List Listener) → (ls ≡ []) ⊎ (length ls ≢ 0)
List-cases [] = inl refl
List-cases (l ∷ ls) = inr (λ e. ground arith)

non_empty : (ls : List Listener) → length ls ≢ 0 → ls ≢ []
non_empty ls n e = n (ap length e)

module _ (lib : Library) (g : Gateway) where
  abbrev walked : Validation
  walked = validate_from lib g.listeners g.meta.generation (start g.listeners) g.listeners

  validate_gateway_listeners-walked :
      length g.listeners ≢ 0 → validate_gateway_listeners lib g ≡ walked
  unfolding validate_gateway_listeners
  validate_gateway_listeners-walked n = ground arith

  validate_gateway_listeners-empty :
      length g.listeners ≡ 0 → (validate_gateway_listeners lib g).valid ≡ false
  unfolding validate_gateway_listeners
  validate_gateway_listeners-empty e = ground arith

  -- The listeners of a gateway are valid exactly when there are one to ten of them, each is a TCP
  -- listener with a name, a port and supported allowedRoutes, and no two share a name or a port.
  pub validate_gateway_listeners-valid :
      ((validate_gateway_listeners lib g).valid ≡ true) ↔ AreValid g.listeners
  unfolding AreValid
  validate_gateway_listeners-valid = elim (List-cases g.listeners) [
    | inl e ↦ (
      λ v. let no = validate_gateway_listeners-empty (ap length e) in ground (arith, no, v),
      λ h. absurd (h.0 e),
    )
    | inr n ↦
        let walk =
          validate_from-valid lib g.listeners g.meta.generation (start g.listeners) g.listeners in
        let fine = few_and_IsFine g.listeners in
        rw (validate_gateway_listeners-walked n) (
          (λ v.
              let (short, supported, names, ports) = fine.0 (walk.0 v) in
              (non_empty g.listeners n, short, supported, names, ports)),
          λ (full, short, supported, names, ports).
              walk.1 (fine.1 (short, supported, names, ports)),
        )
  ]

  -- Valid listeners are passed on as they are.
  pub validate_gateway_listeners-listeners :
      (validate_gateway_listeners lib g).valid ≡ true
      → (validate_gateway_listeners lib g).listeners ≡ g.listeners
  unfolding AreValid
  validate_gateway_listeners-listeners v = elim (List-cases g.listeners) [
    | inl e ↦ absurd ((validate_gateway_listeners-valid.0 v).0 e)
    | inr n ↦
        let same = validate_gateway_listeners-walked n in
        let walk =
          validate_from-valid lib g.listeners g.meta.generation (start g.listeners) g.listeners in
        let fine = (walk.0 (sym (ap (λ r. r.valid) same) ∙ v)).1 in
        rw same (
          validate_from-listeners lib g.listeners g.meta.generation (start g.listeners) g.listeners
            fine)
  ]
