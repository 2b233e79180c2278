-- ===== src/Tests/Shelf.antt =====
-- A server in memory that holds slices.
use clusterip_gw.Base.{
  ◌≡◌, ◌≢◌, refl, String, Bool, true, false, Option, some, none, List, [], ◌∷◌, ◌==◌, option_eq,
  int_eq, ◌&&◌, string_eq, if◌then◌else◌, Result, ok, err, not_found, already_exists, return, arith,
}
use clusterip_gw.Kube.{EndpointSlice}
use clusterip_gw.Controller.{Client}
use clusterip_gw.Controller.Slices.{Semantic}
use clusterip_gw.Controller.Slices.Stored.{SliceServer, IsReflexive, Carries}

abbrev pub Shelf : Type 0
Shelf = String → String → Option EndpointSlice

-- The world with the slice of a name set, or removed.
unfoldable pub placed : Shelf → String → String → Option EndpointSlice → Shelf
placed w ns n o ns' n' = if ns == ns' && n == n' then o else w ns' n'

unfoldable pub created : EndpointSlice → Option EndpointSlice → Shelf → Result (Unit {0}) × Shelf
created s (some old) w = (err (already_exists s.meta.name), w)
created s none w = (ok tt, placed w s.meta.namespace s.meta.name (some s))

unfoldable pub updated : EndpointSlice → Option EndpointSlice → Shelf → Result (Unit {0}) × Shelf
updated s none w = (err (not_found s.meta.name), w)
updated s (some old) w = (ok tt, placed w s.meta.namespace s.meta.name (some s))

unfoldable pub deleted : String → String → Option EndpointSlice → Shelf → Result (Unit {0}) × Shelf
deleted ns n none w = (err (not_found n), w)
deleted ns n (some old) w = (ok tt, placed w ns n none)

unfoldable pub shelf : Client Shelf
unfolding created updated deleted
shelf = record {
  get_gateway = λ ns n w. (err (not_found n), w);
  update_gateway = λ g. return tt;
  update_gateway_status = λ g. return tt;
  update_gateway_class_status = λ c. return tt;
  update_route_status = λ r. return tt;
  update_endpoint_selector_status = λ s. return tt;
  create_ip_address = λ ip. return tt;
  delete_ip_address = λ n. return tt;
  create_endpoint_slice = λ s w. created s (w s.meta.namespace s.meta.name) w;
  update_endpoint_slice = λ s w. updated s (w s.meta.namespace s.meta.name) w;
  delete_endpoint_slice = λ ns n w. deleted ns n (w ns n) w;
}

pub placed-here : (w : Shelf) (ns n : String) (o : Option EndpointSlice) → placed w ns n o ns n ≡ o
unfolding placed
placed-here w ns n o = ground arith

pub placed-other :
    (w : Shelf) (ns n m : String) (o : Option EndpointSlice) → n ≢ m → placed w ns n o ns m ≡ w ns m
unfolding placed
placed-other w ns n m o apart = ground (arith, apart)

pub deleted-gone :
    (ns n : String) (o : Option EndpointSlice) (w : Shelf)
    → w ns n ≡ o
    → (deleted ns n o w).1 ns n ≡ none
unfolding deleted
deleted-gone ns n none w e = e
deleted-gone ns n (some old) w e = placed-here w ns n none

pub deleted-other :
    (ns n m : String) (o : Option EndpointSlice) (w : Shelf)
    → n ≢ m
    → (deleted ns n o w).1 ns m ≡ w ns m
unfolding deleted
deleted-other ns n m none w apart = refl
deleted-other ns n m (some old) w apart = placed-other w ns n m none apart

pub created-ok :
    (s : EndpointSlice) (o : Option EndpointSlice) (w : Shelf) (u : Unit {0})
    → (created s o w).0 ≡ ok u
    → Carries ((created s o w).1 s.meta.namespace s.meta.name) s
unfolding created
created-ok s none w u h = (s, placed-here w s.meta.namespace s.meta.name (some s), refl)
created-ok s (some old) w u h = absurd cc

pub created-other :
    (s : EndpointSlice) (m : String) (o : Option EndpointSlice) (w : Shelf)
    → s.meta.name ≢ m
    → (created s o w).1 s.meta.namespace m ≡ w s.meta.namespace m
unfolding created
created-other s m none w apart = placed-other w s.meta.namespace s.meta.name m (some s) apart
created-other s m (some old) w apart = refl

pub updated-ok :
    (s : EndpointSlice) (o : Option EndpointSlice) (w : Shelf) (u : Unit {0})
    → (updated s o w).0 ≡ ok u
    → Carries ((updated s o w).1 s.meta.namespace s.meta.name) s
unfolding updated
updated-ok s none w u h = absurd cc
updated-ok s (some old) w u h = (s, placed-here w s.meta.namespace s.meta.name (some s), refl)

pub updated-other :
    (s : EndpointSlice) (m : String) (o : Option EndpointSlice) (w : Shelf)
    → s.meta.name ≢ m
    → (updated s o w).1 s.meta.namespace m ≡ w s.meta.namespace m
unfolding updated
updated-other s m none w apart = refl
updated-other s m (some old) w apart = placed-other w s.meta.namespace s.meta.name m (some s) apart

unfoldable pub shelf-SliceServer : SliceServer Shelf shelf
unfolding shelf
shelf-SliceServer = record {
  slice_at = λ w ns n. w ns n;
  delete-gone = λ ns n w gone. deleted-gone ns n (w ns n) w refl;
  delete-other = λ ns n m w apart. deleted-other ns n m (w ns n) w apart;
  create-ok = λ s w u h. created-ok s (w s.meta.namespace s.meta.name) w u h;
  create-other = λ s m w apart. created-other s m (w s.meta.namespace s.meta.name) w apart;
  update-ok = λ s w u h. updated-ok s (w s.meta.namespace s.meta.name) w u h;
  update-other = λ s m w apart. updated-other s m (w s.meta.namespace s.meta.name) w apart;
}

same_list : {A : Type 0} → (A → A → Bool) → List A → List A → Bool
same_list t [] [] = true
same_list t [] (y ∷ ys) = false
same_list t (x ∷ xs) [] = false
same_list t (x ∷ xs) (y ∷ ys) = t x y && same_list t xs ys

same_list_refl :
    {A : Type 0} (t : A → A → Bool)
    → ((x : A) → t x x ≡ true)
    → (xs : List A) → same_list t xs xs ≡ true
unfolding same_list
same_list_refl t h [] = refl
same_list_refl t h (x ∷ xs) = ground (arith, h x, same_list_refl t h xs)

-- The lists are compared element by element, without the targets of endpoints.
unfoldable pub by_value : Semantic
unfolding same_list
by_value = record {
  labels = same_list (λ (k, v) (k', v'). k == k' && v == v');
  owner_references = same_list (λ a b. a.kind == b.kind && a.name == b.name && a.uid == b.uid);
  ports = same_list (λ a b. a.protocol == b.protocol && a.port == b.port);
  endpoints =
      same_list
        (λ a b. same_list (λ x y. x == y) a.addresses b.addresses && a.node_name == b.node_name);
}

pub by_value-IsReflexive : IsReflexive by_value
unfolding by_value
by_value-IsReflexive = record {
  labels = same_list_refl _ (λ (k, v). ground arith);
  owner_references = same_list_refl _ (λ a. ground arith);
  ports = same_list_refl _ (λ a. ground arith);
  endpoints = same_list_refl _ (λ a.
      ground (arith, same_list_refl {A = String} (λ x y. x == y) (λ x. ground arith) a.addresses));
}
