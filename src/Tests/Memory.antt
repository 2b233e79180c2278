-- ===== src/Tests/Memory.antt =====
-- A server in memory that holds one gateway and the names of reservations. One that is `stuck` cannot
-- delete a reservation.
use clusterip_gw.Base.{
  String, Bool, true, false, Option, none, some, some-injective, List, [], ◌∷◌, ◌≡◌, refl, sym, ap,
  subst, ◌∙◌, ◌==◌, ◌&&◌, string_eq, if◌then◌else◌, contains, Error, Result, ok, err, not_found,
  other, already_exists, Bool-cases, inl, inr, arith, return,
}
use clusterip_gw.Kube.{Gateway}
use clusterip_gw.Controller.{Client}
use clusterip_gw.Controller.Ipam.{delete_string}
use clusterip_gw.Controller.Server.{Server, IsGone}

pub record World : Type 0 where
  pub stored : Option Gateway
  pub names : List String

unfoldable pub matching : Option Gateway → String → String → Option Gateway
matching none ns n = none
matching (some g) ns n = if g.meta.namespace == ns && g.meta.name == n then some g else none

pub answer : Option Gateway → String → Result Gateway
answer none n = err (not_found n)
answer (some g) n = ok g

pub replaced : Option Gateway → Gateway → World → Result (Unit {0}) × World
replaced none g w = (err (not_found g.meta.name), w)
replaced (some old) g w = (ok tt, record w { stored = some g })

unfoldable pub memory : Bool → Client World
unfolding answer replaced
memory stuck = record {
  get_gateway = λ ns n w. (answer (matching w.stored ns n) n, w);
  update_gateway = λ g w. replaced (matching w.stored g.meta.namespace g.meta.name) g w;
  update_gateway_status = λ g w. replaced (matching w.stored g.meta.namespace g.meta.name) g w;
  update_gateway_class_status = λ c. return tt;
  update_route_status = λ r. return tt;
  update_endpoint_selector_status = λ s. return tt;
  create_ip_address = λ ip w.
      if contains w.names ip.meta.name
      then (err (already_exists ip.meta.name), w)
      else (ok tt, record w { names = ip.meta.name ∷ w.names });
  delete_ip_address = λ n w. if stuck then (err (other "timeout"), w) else (
    if contains w.names n then ok tt else err (not_found n),
    record w { names = delete_string w.names n },
  );
  create_endpoint_slice = λ s. return tt;
  update_endpoint_slice = λ s. return tt;
  delete_endpoint_slice = λ ns n. return tt;
}

pub contains-delete_string :
    (xs : List String) (x : String) → contains (delete_string xs x) x ≡ false
unfolding delete_string
contains-delete_string [] x = refl
contains-delete_string (y ∷ xs) x = ground (arith, contains-delete_string xs x)

pub contains-delete_other :
    (xs : List String) (x y : String)
    → contains xs y ≡ false
    → contains (delete_string xs x) y ≡ false
unfolding delete_string
contains-delete_other [] x y h = refl
contains-delete_other (z ∷ xs) x y h = ground (arith, h, contains-delete_other xs x y)

pub matching-some :
    (o : Option Gateway) (ns n : String) (g : Gateway)
    → matching o ns n ≡ some g
    → (g.meta.namespace ≡ ns) × (g.meta.name ≡ n)
unfolding matching
matching-some none ns n g h = cc
matching-some (some f) ns n g h = elim (Bool-cases (f.meta.namespace == ns && f.meta.name == n)) [
  | inl e ↦
      let same : f ≡ g =
        some-injective f g (subst (λ t. (if t then some f else none) ≡ some g) e h) in
      (
        ap (λ x. x.meta.namespace) (sym same) ∙ ground (arith, e),
        ap (λ x. x.meta.name) (sym same) ∙ ground (arith, e),
      )
  | inr e ↦ let bad : none ≡ some g = subst (λ t. (if t then some f else none) ≡ some g) e h in cc
]

pub answer-ok : (o : Option Gateway) (n : String) (g : Gateway) → answer o n ≡ ok g → o ≡ some g
unfolding answer
answer-ok none n g h = cc
answer-ok (some f) n g h = cc

pub answer-none : (o : Option Gateway) (n : String) (e : Error) → answer o n ≡ err e → o ≡ none
unfolding answer
answer-none none n e h = refl
answer-none (some f) n e h = cc

matching-itself : (g : Gateway) → matching (some g) g.meta.namespace g.meta.name ≡ some g
unfolding matching
matching-itself g = ground arith

pub replaced-gone :
    (o : Option Gateway) (g : Gateway) (w : World)
    → o ≡ matching w.stored g.meta.namespace g.meta.name
    → (h : Gateway) → matching (replaced o g w).1.stored g.meta.namespace g.meta.name ≡ some h
    → h.meta.finalizers ≡ g.meta.finalizers
unfolding replaced
replaced-gone none g w e h found = let bad : none ≡ some h = e ∙ found in cc
replaced-gone (some old) g w e h found =
    ap (λ x. x.meta.finalizers) (sym (some-injective g h (sym (matching-itself g) ∙ found)))

pub replaced-names :
    (o : Option Gateway) (g : Gateway) (w : World) → (replaced o g w).1.names ≡ w.names
unfolding replaced
replaced-names none g w = refl
replaced-names (some old) g w = refl

pub deleted-gone :
    (stuck : Bool) (n : String) (w : World)
    → IsGone ((memory stuck).delete_ip_address n w).0
    → contains ((memory stuck).delete_ip_address n w).1.names n ≡ false
unfolding memory IsGone
deleted-gone true n w h = cc
deleted-gone false n w h = contains-delete_string w.names n

pub deleted-free :
    (stuck : Bool) (n m : String) (w : World)
    → contains w.names m ≡ false
    → contains ((memory stuck).delete_ip_address n w).1.names m ≡ false
unfolding memory
deleted-free true n m w h = h
deleted-free false n m w h = contains-delete_other w.names n m h

pub deleted-stored :
    (stuck : Bool) (n : String) (w : World)
    → ((memory stuck).delete_ip_address n w).1.stored ≡ w.stored
unfolding memory
deleted-stored true n w = refl
deleted-stored false n w = refl

unfoldable pub memory-Server : (stuck : Bool) → Server World (memory stuck)
unfolding memory
memory-Server stuck = record {
  gateway_at = λ w ns n. matching w.stored ns n;
  reserved = λ w n. contains w.names n;
  get_gateway-world = λ ns n w. refl;
  get_gateway-ok = λ ns n w g h.
      let here = answer-ok (matching w.stored ns n) n g h in
      let (its_ns, its_n) = matching-some w.stored ns n g here in (here, its_ns, its_n);
  get_gateway-not_found = λ ns n w e h missing. answer-none (matching w.stored ns n) n e h;
  update_gateway-gone = λ g w gone h found. replaced-gone _ g w refl h found;
  update_gateway-reserved = λ g w n. ap (λ xs. contains xs n) (replaced-names _ g w);
  delete_ip_address-gone = λ n w gone. deleted-gone stuck n w gone;
  delete_ip_address-reserved = λ n m w free. deleted-free stuck n m w free;
  delete_ip_address-gateways = λ n ns m w. ap (λ o. matching o ns m) (deleted-stored stuck n w);
}
