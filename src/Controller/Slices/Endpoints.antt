-- ===== src/Controller/Slices/Endpoints.antt =====
-- The endpoints that a selector's slices carry: which pods they are, and in which order.
use mathlib.Core.List.{map}
use clusterip_gw.Base.{
  ◌∙◌, ◌≢◌, ◌++◌, All, ap, sym, Bool-cases, inl, inr, false, none, some, ◌≡◌, ◌↔◌, refl, String,
  Bool, true, not, Option, List, [], ◌∷◌, ◌==◌, ◌!=◌, ◌&&◌, string_eq, if◌then◌else◌, Member,
  Member-keep, keep-Member, keep, IsOrder, IsSorted, insert_by, sort_onto, sort_by,
  sort_by-IsSorted, sort_by-Member, Member-sort_by, str_lt, str_lt_asym, str_lt_trans, str_lt_total,
  str_lt_irrefl, ok, arith,
}
use clusterip_gw.Kube.{
  Pod, PodCondition, ConditionStatus, condition_true, condition_false, condition_unknown,
  condition_status_eq, EndpointSelector,
}
use clusterip_gw.Net.{Ipv4}
use clusterip_gw.Controller.{Library, Informers}
use clusterip_gw.Controller.Slices.{
  pod_ready, is_ipv4_string, pod_endpoint, by_address, by_names, both_targets, address_of,
  endpoint_for_pod, with_endpoint, pod_endpoints, sorted_endpoints, build_endpoint_slice_endpoints,
}

-- By address, and by name when the addresses are the same.
abbrev pub by_pod : Pod → Pod → Bool
by_pod p q =
    if p.pod_ip == q.pod_ip then str_lt p.meta.name q.meta.name else str_lt p.pod_ip q.pod_ip

by_pod-IsOrder : IsOrder by_pod
by_pod-IsOrder = record {
  asym =
      λ p q h. ground (arith, str_lt_asym p.meta.name q.meta.name, str_lt_asym p.pod_ip q.pod_ip);
  trans = λ p q r h k. ground (
    arith,
    str_lt_trans p.meta.name q.meta.name r.meta.name,
    str_lt_trans p.pod_ip q.pod_ip r.pod_ip,
    str_lt_total p.pod_ip q.pod_ip,
    str_lt_total q.pod_ip r.pod_ip,
    str_lt_irrefl p.pod_ip,
  );
}

by_address-pods : (p q : Pod) → by_address (pod_endpoint p) (pod_endpoint q) ≡ by_pod p q
unfolding by_address pod_endpoint by_names both_targets address_of
by_address-pods p q = refl

-- Sorting images is sorting what they are images of.
module _ {A B : Type 0} (less : B → B → Bool) (below : A → A → Bool) (f : A → B)
    (same : (a b : A) → less (f a) (f b) ≡ below a b) where
  insert_by-map :
      (a : A) (xs : List A) → insert_by less (f a) (map f xs) ≡ map f (insert_by below a xs)
  unfolding insert_by
  insert_by-map a [] = refl
  insert_by-map a (x ∷ xs) = ground (arith, same a x, insert_by-map a xs)

  sort_onto-map :
      (acc xs : List A) → sort_onto less (map f acc) (map f xs) ≡ map f (sort_onto below acc xs)
  unfolding sort_onto
  sort_onto-map acc [] = refl
  sort_onto-map acc (x ∷ xs) =
      rw (sort_onto, insert_by-map x acc) (sort_onto-map (insert_by below x acc) xs)

-- The first condition of type Ready is true.
pub IsReady : List PodCondition → Type 0
IsReady conditions =
    (before : List PodCondition) × (c : PodCondition) × (later : List PodCondition) × (conditions
      ≡ before ++ (c ∷ later))
    × All (λ d. d.type ≢ "Ready") before
    × (c.type ≡ "Ready")
    × (c.status ≡ condition_true)

condition_status_eq_iff :
    (s : ConditionStatus) → ((s == condition_true) ≡ true) ↔ (s ≡ condition_true)
unfolding condition_status_eq
condition_status_eq_iff condition_true = (λ h. refl, λ h. refl)
condition_status_eq_iff condition_false = (λ h. cc, λ h. cc)
condition_status_eq_iff condition_unknown = (λ h. cc, λ h. cc)

IsReady-iff : (cs : List PodCondition) → (pod_ready cs ≡ true) ↔ IsReady cs
unfolding pod_ready IsReady
IsReady-iff [] =
    (λ h. cc, λ (before, c, later, e, early, named, good). absurd (nothing before c later e))
  where
    nothing :
        (before : List PodCondition) (c : PodCondition) (later : List PodCondition)
        → [] ≡ before ++ (c ∷ later)
        → ⊥
    nothing [] c later e = cc
    nothing (d ∷ before) c later e = cc
IsReady-iff (c ∷ rest) =
    let there = IsReady-iff rest in
    elim (Bool-cases (c.type == "Ready")) [
      | inl e ↦ rw e (
        λ h. ([], c, rest, refl, tt, (ground (arith, e)), (condition_status_eq_iff c.status).0 h),
        λ (before, d, later, split, early, named, good).
            (condition_status_eq_iff c.status).1
              (first before d later split early good (ground (arith, e))),
      )
      | inr e ↦ rw e (
        λ h.
            let (before, d, later, split, early, named, good) = there.0 h in
            (
              c ∷ before,
              d,
              later,
              ap (λ l. c ∷ l) split,
              ((λ k. ground (arith, e, k)), early),
              named,
              good,
            ),
        λ (before, d, later, split, early, named, good).
            there.1 (left e before d later split early named good),
      )
    ]
  where
    first :
        (before : List PodCondition) (d : PodCondition) (later : List PodCondition)
        → c ∷ rest ≡ before ++ (d ∷ later)
        → All (λ d. d.type ≢ "Ready") before
        → d.status ≡ condition_true
        → c.type ≡ "Ready"
        → c.status ≡ condition_true
    first [] d later split early good e = let heads : c ≡ d = cc in ap (λ x. x.status) heads ∙ good
    first (x ∷ before) d later split early good e =
        let heads : c ≡ x = cc in absurd (early.0 (sym (ap (λ x. x.type) heads) ∙ e))

    left :
        (c.type == "Ready") ≡ false
        → (before : List PodCondition) (d : PodCondition) (later : List PodCondition)
        → c ∷ rest ≡ before ++ (d ∷ later)
        → All (λ d. d.type ≢ "Ready") before
        → d.type ≡ "Ready"
        → d.status ≡ condition_true
        → IsReady rest
    left e [] d later split early named good =
        let heads : c ≡ d = cc in
        let same = ap (λ x. x.type) heads ∙ named in ground (arith, e, same)
    left e (x ∷ before) d later split early named good =
        let tails : rest ≡ before ++ (d ∷ later) = cc in
        (before, d, later, tails, early.1, named, good)

module _ (parse_ipv4 : String → Option Ipv4) (matches : List (String × String) → Bool) where
  -- The pod has the labels, a namespace and a name, is not being deleted, is ready and has an IPv4 address.
  pub Serves : Pod → Type 0
  Serves p =
      (matches p.meta.labels ≡ true)
      × (p.meta.namespace ≢ "")
      × (p.meta.name ≢ "")
      × (p.meta.deleting ≡ false)
      × IsReady p.conditions
      × ((ip : Ipv4) × (parse_ipv4 p.pod_ip ≡ some ip))

  abbrev serves : Pod → Bool
  serves p =
      matches p.meta.labels
      && (p.meta.namespace != "" && p.meta.name != "" && not p.meta.deleting)
      && (pod_ready p.conditions && is_ipv4_string (parse_ipv4 p.pod_ip))

  is_ipv4_string-true :
      (o : Option Ipv4) → (is_ipv4_string o ≡ true) ↔ ((ip : Ipv4) × (o ≡ some ip))
  unfolding is_ipv4_string
  is_ipv4_string-true none = (λ h. cc, λ h. cc)
  is_ipv4_string-true (some ip) = (λ h. (ip, refl), λ h. refl)

  Serves-iff : (p : Pod) → (serves p ≡ true) ↔ Serves p
  unfolding Serves
  Serves-iff p =
      let ready = IsReady-iff p.conditions in
      let address = is_ipv4_string-true (parse_ipv4 p.pod_ip) in
      (
        λ h. (
          ground (arith, h),
          (λ e. ground (arith, h, e)),
          (λ e. ground (arith, h, e)),
          ground (arith, h),
          ready.0 (ground (arith, h)),
          address.0 (ground (arith, h)),
        ),
        λ (labels, namespace, name, stays, is_ready, parsed).
            let r = ready.1 is_ready in
            let a = address.1 parsed in ground (arith, labels, namespace, name, stays, r, a),
      )

  pod_endpoints-keep :
      (pods : List Pod)
      → pod_endpoints parse_ipv4 matches pods ≡ map pod_endpoint (keep serves pods)
  unfolding pod_endpoints endpoint_for_pod with_endpoint
  pod_endpoints-keep [] = refl
  pod_endpoints-keep (p ∷ rest) = ground (arith, pod_endpoints-keep rest)

-- When the selector is well formed and the pods can be listed, the endpoints are those of exactly the pods that match,
-- have a namespace and a name, are not being deleted, whose first condition of type Ready is true, and that have an IPv4
-- address, sorted by address and name.
pub build_endpoint_slice_endpoints-pods :
    (parse_ipv4 : String → Option Ipv4)
    → (lib : Library) (inf : Informers) (s : EndpointSelector)
    → (matches : List (String × String) → Bool) (pods : List Pod)
    → lib.label_selector_as_selector s.selector ≡ ok matches
    → inf.pods s.meta.namespace ≡ ok pods
    → (chosen : List Pod) × (build_endpoint_slice_endpoints parse_ipv4 lib inf s
        ≡ ok (map pod_endpoint chosen))
      × IsSorted by_pod chosen
      × ((p : Pod) → Member p chosen ↔ (Member p pods × Serves parse_ipv4 matches p))
unfolding build_endpoint_slice_endpoints sorted_endpoints sort_by
build_endpoint_slice_endpoints-pods parse_ipv4 lib inf s matches pods hm hp =
    let served = keep (serves parse_ipv4 matches) pods in
    (
      sort_by by_pod served,
      rw
          (
            hm,
            hp,
            pod_endpoints-keep parse_ipv4 matches pods,
            sort_onto-map by_address by_pod pod_endpoint by_address-pods [] served,
          )
          refl,
      sort_by-IsSorted by_pod by_pod-IsOrder served,
      λ p. (
        λ m.
            let (here, e) =
              Member-keep (serves parse_ipv4 matches) p pods (Member-sort_by by_pod p served m) in
            (here, (Serves-iff parse_ipv4 matches p).0 e),
        λ (m, h). sort_by-Member by_pod p served (
            keep-Member (serves parse_ipv4 matches) p pods m
              ((Serves-iff parse_ipv4 matches p).1 h)),
      ),
    )
