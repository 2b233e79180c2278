-- ===== src/Controller/Bindings/Keyed.antt =====
-- The bindings of a selector: no two of one key, sorted by it, and each from a route.
use Prim.Native.Char.{Char}
use Prim.Native.String.append
use text.Mathlib.TextLemmas.{append_assoc}
use clusterip_gw.Base.{
  false, ◌==◌, arith, String, ◌<>◌, ◌≡◌, ◌≢◌, refl, ap, sym, ◌∙◌, inl, inr, Option, some, List, [],
  ◌∷◌, string_eq, Bool-cases, Member, IsOrder, IsSorted, insert_by, sort_onto, Member-insert_by,
  sort_by, sort_by-IsSorted, sort_by-Member, Member-sort_by, str_lt_asym, str_lt_trans, ok,
}
use clusterip_gw.Kube.{key_of, TcpRoute, EndpointSelector}
use clusterip_gw.Controller.{Library, Informers}
use clusterip_gw.Controller.Refs.{namespaced_key}
use clusterip_gw.Controller.Bindings.{
  Binding, binding_key, by_binding_key, sorted_bindings, list_referenced_gateway_bindings,
  gateway_binding_for_route,
}
use clusterip_gw.Controller.Bindings.Collected.{
  Apart, collect_bindings-IsCollected, collect_bindings-ok,
}

-- The separator is no character of the text.
unfoldable pub HasNo : Char → String → Type 0
HasNo sep String.[] = Unit
HasNo sep (String.◌∷◌ c s) =
    ((String.◌∷◌ c String.[] == String.◌∷◌ sep String.[]) ≡ false) × HasNo sep s

first_or : Char → String → Char
first_or d String.[] = d
first_or d (String.◌∷◌ c s) = c

rest_of : String → String
rest_of String.[] = ""
rest_of (String.◌∷◌ c s) = s

same_char :
    (sep c : Char) → c ≡ sep → (String.◌∷◌ c String.[] == String.◌∷◌ sep String.[]) ≡ false → ⊥
same_char sep c e h = let same = ap (λ d. String.◌∷◌ d String.[]) e in ground (arith, same, h)

-- A text is cut at its first separator in one way.
cut :
    (sep : Char) (a b x y : String)
    → HasNo sep a
    → HasNo sep b
    → a <> String.◌∷◌ sep x ≡ b <> String.◌∷◌ sep y
    → (a ≡ b) × (x ≡ y)
unfolding rest_of HasNo first_or
cut sep String.[] String.[] x y ha hb e =
    let heads = sym (append.nil (String.◌∷◌ sep x)) ∙ e ∙ append.nil (String.◌∷◌ sep y) in
    (refl, ap rest_of heads)
cut sep String.[] (String.◌∷◌ c b) x y ha hb e =
    let heads = sym (append.nil (String.◌∷◌ sep x)) ∙ e ∙ append.cons c b (String.◌∷◌ sep y) in
    absurd (same_char sep c (sym (ap (first_or sep) heads)) hb.0)
cut sep (String.◌∷◌ c a) String.[] x y ha hb e =
    let heads = sym (append.cons c a (String.◌∷◌ sep x)) ∙ e ∙ append.nil (String.◌∷◌ sep y) in
    absurd (same_char sep c (ap (first_or sep) heads) ha.0)
cut sep (String.◌∷◌ c a) (String.◌∷◌ d b) x y ha hb e =
    let both = sym (append.cons c a (String.◌∷◌ sep x)) ∙ e ∙ append.cons d b (String.◌∷◌ sep y) in
    let (tails, ends) = cut sep a b x y ha.1 hb.1 (ap rest_of both) in
    (ap (λ h. String.◌∷◌ h a) (ap (first_or sep) both) ∙ ap (String.◌∷◌ d) tails, ends)

-- The gateway's key and the listener's name are the same.
abbrev pub AreSame : Binding → Binding → Type 0
AreSame b c =
    (b.gateway.meta.namespace ≡ c.gateway.meta.namespace)
    × (b.gateway.meta.name ≡ c.gateway.meta.name)
    × (b.listener_name ≡ c.listener_name)

-- No two bindings are of one gateway and listener.
abbrev pub AreOfDistinct : List Binding → Type 0
AreOfDistinct [] = Unit
AreOfDistinct (b ∷ rest) = ((c : Binding) → Member c rest → AreSame b c → ⊥) × AreOfDistinct rest

-- Names as the API server admits them: no slash in the gateway's namespace and no colon in its name.
abbrev pub IsPlain : Binding → Type 0
IsPlain b = HasNo "/" b.gateway.meta.namespace × HasNo ":" b.gateway.meta.name

AreSame-binding_key : (b c : Binding) → AreSame b c → binding_key b ≡ binding_key c
unfolding binding_key
AreSame-binding_key b c (space, name, listener) =
    ap (λ n. (n <> "/" <> b.gateway.meta.name) <> ":" <> b.listener_name) space
    ∙ ap (λ n. (c.gateway.meta.namespace <> "/" <> n) <> ":" <> b.listener_name) name
    ∙ ap (λ n. (c.gateway.meta.namespace <> "/" <> c.gateway.meta.name) <> ":" <> n) listener

Apart-AreOfDistinct : (bs : List Binding) → Apart bs → AreOfDistinct bs
Apart-AreOfDistinct [] h = tt
Apart-AreOfDistinct (b ∷ rest) h =
    (λ c m same. h.0 c m (AreSame-binding_key b c same), Apart-AreOfDistinct rest h.1)

separated : (sep : Char) (s : String) → String.◌∷◌ sep String.[] <> s ≡ String.◌∷◌ sep s
separated sep s = append.cons sep "" s ∙ ap (String.◌∷◌ sep) (append.nil s)

-- The whole key in the form of its parts.
parts :
    (b : Binding)
    → binding_key b
      ≡ b.gateway.meta.namespace
        <> String.◌∷◌ "/" (b.gateway.meta.name <> String.◌∷◌ ":" b.listener_name)
unfolding binding_key
parts b =
    append_assoc b.gateway.meta.namespace ("/" <> b.gateway.meta.name) (":" <> b.listener_name)
    ∙ ap (λ t. b.gateway.meta.namespace <> t)
        (append_assoc "/" b.gateway.meta.name (":" <> b.listener_name)
          ∙ separated "/" (b.gateway.meta.name <> (":" <> b.listener_name))
          ∙ ap (λ t. String.◌∷◌ "/" (b.gateway.meta.name <> t)) (separated ":" b.listener_name))

binding_key-AreSame :
    (b c : Binding) → IsPlain b → IsPlain c → binding_key b ≡ binding_key c → AreSame b c
binding_key-AreSame b c hb hc e =
    let (space, rest) = cut "/" _ _ _ _ hb.0 hc.0 (sym (parts b) ∙ e ∙ parts c) in
    let (name, listener) = cut ":" _ _ _ _ hb.1 hc.1 rest in (space, name, listener)

by_binding_key-IsOrder : IsOrder by_binding_key
by_binding_key-IsOrder = record {
  asym = λ a b. str_lt_asym (binding_key a) (binding_key b);
  trans = λ a b c. str_lt_trans (binding_key a) (binding_key b) (binding_key c);
}

insert_by-Apart :
    (x : Binding) (ys : List Binding)
    → ((c : Binding) → Member c ys → binding_key x ≢ binding_key c)
    → Apart ys
    → Apart (insert_by by_binding_key x ys)
unfolding insert_by
insert_by-Apart x [] fresh h = (λ c m. absurd m, tt)
insert_by-Apart x (y ∷ ys) fresh h = elim (Bool-cases (by_binding_key x y)) [
  | inl e ↦ rw e (fresh, h)
  | inr e ↦ rw e (
    λ c m. elim (Member-insert_by by_binding_key c x ys m) [
      | inl same ↦ λ k. fresh y (inl refl) (sym (k ∙ ap binding_key same))
      | inr l ↦ h.0 c l
    ],
    insert_by-Apart x ys (λ c m. fresh c (inr m)) h.1,
  )
]

sort_onto-Apart :
    (acc xs : List Binding)
    → Apart acc
    → Apart xs
    → ((c d : Binding) → Member c acc → Member d xs → binding_key c ≢ binding_key d)
    → Apart (sort_onto by_binding_key acc xs)
unfolding sort_onto
sort_onto-Apart acc [] h k cross = h
sort_onto-Apart acc (x ∷ xs) h k cross =
    sort_onto-Apart (insert_by by_binding_key x acc) xs
      (insert_by-Apart x acc (λ c m e. cross c x m (inl refl) (sym e)) h) k.1
      (λ c d m n. elim (Member-insert_by by_binding_key c x acc m) [
        | inl same ↦ λ e. k.0 d n (ap binding_key (sym same) ∙ e)
        | inr l ↦ cross c d l (inr n)
      ])

-- When every route that names the selector can be evaluated, and the gateways they are bound to have no slash in the
-- namespace and no colon in the name, the bindings are found: each is that of one of the routes, every route that is
-- bound has its gateway's namespace and name and its listener's name among them, no two have all three in common,
-- and they are sorted by their key.
pub list_referenced_gateway_bindings-ok :
    (lib : Library) (inf : Informers) (s : EndpointSelector) (routes : List TcpRoute)
    → inf.routes_by_endpoint_selector (namespaced_key (key_of s.meta)) ≡ ok routes
    → ((r : TcpRoute)
        → Member r routes
        → (ob : Option Binding) × (gateway_binding_for_route lib inf s r ≡ ok ob))
    → ((r : TcpRoute) (b : Binding)
        → Member r routes
        → gateway_binding_for_route lib inf s r ≡ ok (some b)
        → IsPlain b)
    → (bs : List Binding) × (list_referenced_gateway_bindings lib inf s ≡ ok bs)
      × IsSorted by_binding_key bs
      × AreOfDistinct bs
      × ((c : Binding)
          → Member c bs
          → (r : TcpRoute) × Member r routes
            × (gateway_binding_for_route lib inf s r ≡ ok (some c)))
      × ((r : TcpRoute) (b : Binding)
          → Member r routes
          → gateway_binding_for_route lib inf s r ≡ ok (some b)
          → (c : Binding) × Member c bs × AreSame c b)
unfolding list_referenced_gateway_bindings sorted_bindings sort_by
list_referenced_gateway_bindings-ok lib inf s routes listed reads plain =
    let (bs, collected) = collect_bindings-ok lib inf s routes ([], []) reads in
    let (keys, (apart, found, named), outs, seens, all) =
      collect_bindings-IsCollected
        (λ b.
          (r : TcpRoute) × Member r routes × (gateway_binding_for_route lib inf s r ≡ ok (some b)))
        lib inf s routes [] [] (λ r b m e. (r, m, e)) (tt, λ c m. absurd m, λ k m. absurd m) bs
        collected in
    (
      sort_by by_binding_key bs,
      rw (listed, collected) refl,
      sort_by-IsSorted by_binding_key by_binding_key-IsOrder bs,
      Apart-AreOfDistinct _ (sort_onto-Apart [] bs tt apart (λ c d m. absurd m)),
      λ c m. (found c (Member-sort_by by_binding_key c bs m)).0,
      λ r b m e.
          let (c, n, k) = named (binding_key b) (all r b m e) in
          let (q, in_routes, from) = (found c n).0 in
          (
            c,
            sort_by-Member by_binding_key c bs n,
            binding_key-AreSame c b (plain q c in_routes from) (plain r b m e) k,
          ),
    )
