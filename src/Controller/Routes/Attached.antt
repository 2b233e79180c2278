-- ===== src/Controller/Routes/Attached.antt =====
-- The routes that attach to a listener, against a description of one route.
use clusterip_gw.Base.{
  [], ◌∷◌, ◌++◌, All, length, count_if, count_if-sort_by, Bool-cases, inl, inr, false, ap, ◌∙◌,
  String, subst, sym, Bool, true, List, ◌≡◌, refl, ◌↔◌, string_eq, any_iff, keep, Member,
  Member-keep, keep-Member, IsSorted, IsOrder, sort_by-IsSorted, Member-sort_by, sort_by-Member,
  str_lt_asym, str_lt_trans, str_lt_total, Option, none, some, ◌&&◌, int_eq, ℤ, arith,
}
use clusterip_gw.Kube.{Gateway, Listener, ParentReference, TcpRoute}
use clusterip_gw.Controller.Refs.{or_default, is_gateway_parent_ref}
use clusterip_gw.Controller.Routes.{
  selects_name, selects_port, parent_matches_listener, refers_to, attaches, by_namespace_and_name,
  attached_routes_for_listener,
}

-- A pointer that is set holds the value.
pub Selects : {A : Type 0} → Option A → A → Type 0
Selects none a = Unit
Selects (some b) a = b ≡ a

-- A reference of a route in the namespace selects the listener of the gateway.
pub Refers : String → Gateway → Listener → ParentReference → Type 0
Refers namespace g l p =
    (is_gateway_parent_ref p ≡ true)
    × (or_default p.namespace namespace ≡ g.meta.namespace)
    × (p.name ≡ g.meta.name)
    × Selects p.section_name l.name
    × Selects p.port l.port

selects_name_iff :
    (o : Option String) (name : String) → (selects_name o name ≡ true) ↔ Selects o name
unfolding selects_name Selects
selects_name_iff none name = (λ h. tt, λ h. refl)
selects_name_iff (some s) name = (λ h. ground arith, λ h. ground arith)

selects_port_iff : (o : Option ℤ) (port : ℤ) → (selects_port o port ≡ true) ↔ Selects o port
unfolding selects_port Selects
selects_port_iff none port = (λ h. tt, λ h. refl)
selects_port_iff (some p) port = (λ h. ground arith, λ h. ground arith)

pub parent_matches_listener_iff :
    (p : ParentReference) (l : Listener)
    → (parent_matches_listener p l ≡ true) ↔ (Selects p.section_name l.name × Selects p.port l.port)
unfolding parent_matches_listener
parent_matches_listener_iff p l =
    ground (arith, selects_name_iff p.section_name l.name, selects_port_iff p.port l.port)

Refers-iff :
    (namespace : String) (g : Gateway) (l : Listener) (p : ParentReference)
    → ((refers_to namespace g p && parent_matches_listener p l) ≡ true) ↔ Refers namespace g l p
unfolding refers_to parent_matches_listener Refers
Refers-iff namespace g l p =
    ground (arith, selects_name_iff p.section_name l.name, selects_port_iff p.port l.port)

by_namespace_and_name-IsOrder : IsOrder by_namespace_and_name
by_namespace_and_name-IsOrder = record {
  asym = λ a b.
      ground
        (arith, str_lt_asym a.meta.name b.meta.name, str_lt_asym a.meta.namespace b.meta.namespace);
  trans = λ a b c. ground (
    arith,
    str_lt_trans a.meta.name b.meta.name c.meta.name,
    str_lt_trans a.meta.namespace b.meta.namespace c.meta.namespace,
    str_lt_total a.meta.namespace b.meta.namespace,
    str_lt_total b.meta.namespace c.meta.namespace,
  );
}

-- A route attaches by one of its references.
pub IsAttached : Gateway → Listener → TcpRoute → Type 0
IsAttached g l r =
    (r.meta.namespace ≡ g.meta.namespace)
    × (p : ParentReference) × Member p r.parent_refs
    × Refers r.meta.namespace g l p

abbrev selecting : Gateway → Listener → TcpRoute → ParentReference → Bool
selecting g l r p = refers_to r.meta.namespace g p && parent_matches_listener p l

pub attaches_iff :
    (g : Gateway) (l : Listener) (r : TcpRoute) → (attaches g l r ≡ true) ↔ IsAttached g l r
unfolding attaches IsAttached
attaches_iff g l r = (
  λ h.
      let (p, m, e) = (any_iff (selecting g l r) r.parent_refs).0 (ground (arith, h)) in
      (ground (arith, h), p, m, (Refers-iff r.meta.namespace g l p).0 e),
  λ (same, p, m, e).
      let some_one =
        (any_iff (selecting g l r) r.parent_refs).1
          (p, m, (Refers-iff r.meta.namespace g l p).1 e) in
      ground (arith, same, some_one),
)

count_if-keep :
    {A : Type 0} (t a : A → Bool) (xs : List A)
    → ((x : A) → t x ≡ true → a x ≡ true)
    → count_if t (keep a xs) ≡ count_if t xs
count_if-keep t a [] h = refl
count_if-keep t a (x ∷ xs) h = ground (arith, h x, count_if-keep t a xs h)

-- One element of the list passes the test, and it is there once.
abbrev pub IsSole : {A : Type 0} → (A → Type 0) → List A → A → Type 0
IsSole P xs x =
    (before : List _) × (later : List _) × (xs ≡ before ++ (x ∷ later))
    × P x
    × All (λ y. P y → ⊥) before
    × All (λ y. P y → ⊥) later

module _ {A : Type 0} (a : A → Bool) (P : A → Type 0) (same : (x : A) → (a x ≡ true) ↔ P x) where
  keep-none : (xs : List A) → (length (keep a xs) ≡ 0) ↔ All (λ y. P y → ⊥) xs
  keep-none [] = (λ h. tt, λ h. refl)
  keep-none (x ∷ xs) = elim (Bool-cases (a x)) [
    | inl e ↦ rw e (λ h. absurd (omega (arith, h)), λ h. absurd (h.0 ((same x).0 e)))
    | inr e ↦
        rw e
          (λ h. (λ p. let bad = (same x).1 p in cc, (keep-none xs).0 h), λ h. (keep-none xs).1 h.1)
  ]

  pub keep-IsSole : (xs : List A) → (length (keep a xs) ≡ 1) ↔ ((x : A) × IsSole P xs x)
  keep-IsSole [] = (
    λ h. absurd (omega (arith, h)),
    λ (x, (before, later, e, h, early, late)). absurd (nothing before x later e),
  )
    where
      nothing : (before : List A) (x : A) (later : List A) → [] ≡ before ++ (x ∷ later) → ⊥
      nothing [] x later e = cc
      nothing (y ∷ before) x later e = cc
  keep-IsSole (x ∷ xs) = elim (Bool-cases (a x)) [
    | inl e ↦ rw e (
      λ h. (x, ([], xs, refl, (same x).0 e, tt, (keep-none xs).0 (omega (arith, h)))),
      λ (y, (before, later, split, here, early, late)).
          omega (arith, taken before y later split here early late ((same x).0 e)),
    )
    | inr e ↦ rw e (
      λ h.
          let (y, (before, later, split, here, early, late)) = (keep-IsSole xs).0 h in
          (
            y,
            (
              x ∷ before,
              later,
              ap (λ l. x ∷ l) split,
              here,
              ((λ p. let bad = (same x).1 p in cc), early),
              late,
            ),
          ),
      λ (y, (before, later, split, here, early, late)).
          (keep-IsSole xs).1 (left e before y later split here early late),
    )
  ]
    where
      taken :
          (before : List A) (y : A) (later : List A)
          → x ∷ xs ≡ before ++ (y ∷ later)
          → P y
          → All (λ z. P z → ⊥) before
          → All (λ z. P z → ⊥) later
          → P x
          → length (keep a xs) ≡ 0
      taken [] y later split here early late px =
          let tails : xs ≡ later = cc in
          ap (λ l. length (keep a l)) tails ∙ (keep-none later).1 late
      taken (z ∷ before) y later split here early late px =
          let heads : x ≡ z = cc in absurd (early.0 (subst P heads px))

      left :
          (a x ≡ false)
          → (before : List A) (y : A) (later : List A) → x ∷ xs ≡ before ++ (y ∷ later)
          → P y
          → All (λ z. P z → ⊥) before
          → All (λ z. P z → ⊥) later
          → (w : A) × IsSole P xs w
      left e [] y later split here early late =
          let heads : x ≡ y = cc in let yes = (same x).1 (subst P (sym heads) here) in absurd cc
      left e (z ∷ before) y later split here early late =
          let tails : xs ≡ before ++ (y ∷ later) = cc in
          (y, (before, later, tails, here, early.1, late))

-- The routes that attach to a listener are listed in the order of namespaces and names, and they are those
-- routes of the gateway's namespace that have a reference that selects the listener, each as often as the
-- given list has it: any test that only attached routes pass counts the same in both.
pub attached_routes_for_listener_lem :
    (g : Gateway) (l : Listener) (routes : List TcpRoute)
    → IsSorted by_namespace_and_name (attached_routes_for_listener g l routes)
      × ((r : TcpRoute)
          → Member r (attached_routes_for_listener g l routes)
            ↔ (Member r routes × IsAttached g l r))
      × ((t : TcpRoute → Bool)
          → ((r : TcpRoute) → t r ≡ true → IsAttached g l r)
          → count_if t (attached_routes_for_listener g l routes) ≡ count_if t routes)
unfolding attached_routes_for_listener
attached_routes_for_listener_lem g l routes = (
  sort_by-IsSorted by_namespace_and_name by_namespace_and_name-IsOrder (keep (attaches g l) routes),
  λ r. (
    λ m.
        let (here, e) =
          Member-keep (attaches g l) r routes (Member-sort_by by_namespace_and_name r _ m) in
        (here, (attaches_iff g l r).0 e),
    λ (m, h).
        sort_by-Member by_namespace_and_name r _
          (keep-Member (attaches g l) r routes m ((attaches_iff g l r).1 h)),
  ),
  λ t only.
      count_if-sort_by by_namespace_and_name t (keep (attaches g l) routes)
      ∙ count_if-keep t (attaches g l) routes (λ r h. (attaches_iff g l r).1 (only r h)),
)
