-- ===== src/Controller/Refs/Keys.antt =====
-- Keys: the round trip between a name and its key, no key twice, and the index of reservations.
use Prim.Native.Char.{Char}
use Prim.Native.String.append
use text.Mathlib.TextLemmas.{append_assoc, append-nil}
use clusterip_gw.Base.{
  ◌≡◌, ◌≢◌, refl, sym, ap, ◌∙◌, inl, inr, String, false, List, [], ◌∷◌, ◌++◌, ◌==◌, ==_refl, ◌||◌,
  string_eq, contains, any, ◌&&◌, not, Bool-cases, if_both, ok, ◌<>◌, arith,
}
use clusterip_gw.Kube.{NamespacedName, ParentReference, TcpRoute}
use clusterip_gw.Controller.Refs.{
  namespaced_key, or_default, is_gateway_parent_ref, split_onto, split_namespaced_key, add_key,
  parent_keys, route_gateway_parent_keys,
}

abbrev pub HasNoSlash : String → Type 0
HasNoSlash String.[] = Unit
HasNoSlash (String.◌∷◌ c s) = ((String.◌∷◌ c String.[] == "/") ≡ false) × HasNoSlash s

-- The collected text grows by one character.
pub push :
    (part : String) (c : Char) (s : String)
    → (part <> String.◌∷◌ c String.[]) <> s ≡ part <> String.◌∷◌ c s
push part c s =
    append_assoc part (String.◌∷◌ c String.[]) s ∙ rw (append.cons c String.[] s, append.nil s)

split_onto-no_slash : (part s : String) → HasNoSlash s → split_onto part s ≡ (part <> s) ∷ []
unfolding split_onto
split_onto-no_slash part String.[] h = ap (λ t. t ∷ []) (sym (append-nil part))
split_onto-no_slash part (String.◌∷◌ c s) h =
    rw (h.0) (
      split_onto-no_slash (part <> String.◌∷◌ c String.[]) s h.1 ∙ ap (λ t. t ∷ []) (push part c s))

split_onto-separator :
    (part t : String) → split_onto part (String.◌∷◌ "/" t) ≡ part ∷ split_onto "" t
unfolding split_onto
split_onto-separator part t = rw (==_refl {A = String} "/")

split_onto-slash :
    (part s t : String)
    → HasNoSlash s
    → split_onto part (s <> "/" <> t) ≡ (part <> s) ∷ split_onto "" t
unfolding split_onto
split_onto-slash part String.[] t h =
    rw (append.nil ("/" <> t), append-nil part, append.cons "/" "" t, append.nil t)
      (split_onto-separator part t)
split_onto-slash part (String.◌∷◌ c s) t h =
    rw (append.cons c s ("/" <> t), h.0)
      (split_onto-slash (part <> String.◌∷◌ c String.[]) s t h.1
        ∙ ap (λ u. u ∷ split_onto "" t) (push part c s))

-- The key of a name splits into that name, if both parts are there and hold no slash.
pub split_namespaced_key-namespaced_key :
    (k : NamespacedName)
    → k.namespace ≢ ""
    → k.name ≢ ""
    → HasNoSlash k.namespace
    → HasNoSlash k.name
    → split_namespaced_key (namespaced_key k) ≡ ok k
unfolding split_namespaced_key
split_namespaced_key-namespaced_key k hn hm sn sm =
    rw
      (
        split_onto-slash "" k.namespace k.name sn,
        split_onto-no_slash "" k.name sm,
        append.nil k.namespace,
        append.nil k.name,
      )
      (ground arith)

-- The key of a parent reference, in a route's namespace.
abbrev pub parent_key : String → ParentReference → String
parent_key namespace p =
    namespaced_key (record { namespace = or_default p.namespace namespace; name = p.name })

contains-append :
    (xs : List String) (x k : String) → contains (xs ++ (x ∷ [])) k ≡ (contains xs k || k == x)
contains-append [] x k = ground arith
contains-append (y ∷ xs) x k = ground (arith, contains-append xs x k)

contains-add_key :
    (keys : List String) (x k : String) → contains (add_key keys x) k ≡ (contains keys k || k == x)
unfolding add_key
contains-add_key keys x k = elim (Bool-cases (contains keys x)) [
  | inl old ↦ rw old (ground (arith, old))
  | inr new ↦ rw new (contains-append keys x k)
]

contains-parent_keys :
    (namespace : String) (keys : List String) (refs : List ParentReference) (k : String)
    → contains (parent_keys namespace keys refs) k
      ≡ (contains keys k || any (λ p. is_gateway_parent_ref p && k == parent_key namespace p) refs)
unfolding parent_keys
contains-parent_keys namespace keys [] k = ground arith
contains-parent_keys namespace keys (p ∷ rest) k = elim (Bool-cases (is_gateway_parent_ref p)) [
  | inl e ↦ rw e (
      contains-parent_keys namespace (add_key keys (parent_key namespace p)) rest k
      ∙ ground (arith, contains-add_key keys (parent_key namespace p) k))
  | inr e ↦ rw e (contains-parent_keys namespace keys rest k)
]

abbrev pub HasNoRepeats : List String → Type 0
HasNoRepeats [] = Unit
HasNoRepeats (x ∷ xs) = (contains xs x ≡ false) × HasNoRepeats xs

append-HasNoRepeats :
    (xs : List String) (x : String)
    → HasNoRepeats xs
    → contains xs x ≡ false
    → HasNoRepeats (xs ++ (x ∷ []))
append-HasNoRepeats [] x u h = (refl, tt)
append-HasNoRepeats (y ∷ xs) x (fresh, u) h =
    ground (arith, append-HasNoRepeats xs x u, contains-append xs x y)

add_key-HasNoRepeats :
    (keys : List String) (x : String) → HasNoRepeats keys → HasNoRepeats (add_key keys x)
unfolding add_key
add_key-HasNoRepeats keys x u = elim (Bool-cases (contains keys x)) [
  | inl old ↦ rw old u
  | inr new ↦ rw new (append-HasNoRepeats keys x u new)
]

parent_keys-HasNoRepeats :
    (namespace : String) (refs : List ParentReference) (keys : List String)
    → HasNoRepeats keys
    → HasNoRepeats (parent_keys namespace keys refs)
unfolding parent_keys
parent_keys-HasNoRepeats namespace [] keys u = u
parent_keys-HasNoRepeats namespace (p ∷ rest) keys u =
    parent_keys-HasNoRepeats namespace rest _
      (if_both HasNoRepeats (not (is_gateway_parent_ref p)) _ _ u (add_key-HasNoRepeats keys _ u))

-- The keys of a route are those of its references to gateways, each once.
pub route_gateway_parent_keys_lem :
    (r : TcpRoute)
    → HasNoRepeats (route_gateway_parent_keys r)
      × ((k : String)
          → contains (route_gateway_parent_keys r) k
            ≡ any
                (λ p. is_gateway_parent_ref p && k == parent_key r.meta.namespace p)
                r.parent_refs)
unfolding route_gateway_parent_keys
route_gateway_parent_keys_lem r = (
  parent_keys-HasNoRepeats r.meta.namespace r.parent_refs [] tt,
  contains-parent_keys r.meta.namespace [] r.parent_refs,
)
