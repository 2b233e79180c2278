-- ===== src/Controller/Ipam/Reservation.antt =====
-- listIPv4ServiceCIDRs and ensureGatewayVIP as a whole, and the reservation that a gateway keeps.
use native.Mathlib.Nat.{div-eq_of_eq-mul_left}
use text.Mathlib.TextLemmas.{append-eq-nil_iff}
use clusterip_gw.Base.{
  ignore_not_found, Bool, count_if, count_if-sort_by, ◌*◌, ◌≤◌, ◌<◌, ◌≡◌, ◌≢◌, refl, sym, ap, ◌∙◌,
  inl, inr, String, false, Option, none, some, List, [], ◌∷◌, ◌++◌, string_eq, keep-Member, Member,
  All, All-of_Member, All-Member, length, length-sort_by, subst, map_ok-eq-ok, sort_onto, sort_by,
  IsSorted, IsOrder, sort_by-IsSorted, Member-sort_by, str_lt, str_lt_asym, str_lt_trans, Result,
  ok, M, ◌>>◌, return, arith, if_both,
}
use clusterip_gw.Kube.{Gateway, NamespacedName, IpAddress, ServiceCidr, key_of, label}
use clusterip_gw.Net.{IsIpv4, Prefix, size, masked}
use clusterip_gw.Net.Values.{IsMasked, size_pos}
use clusterip_gw.Controller.{Client, Informers, managed_by_label_key, managed_by_label_value}
use clusterip_gw.Controller.Refs.{
  namespaced_key, gateway_key_for_ip_address, index_ip_address_by_gateway,
}
use clusterip_gw.Controller.Addresses.Order.{masked-IsIpv4, value-masked}
use clusterip_gw.Controller.Ipam.{
  ParsedPrefix, v4, v6, ipv4_prefix, ipv4_prefixes, usable_prefixes, list_ipv4_service_cidrs,
  by_string, by_name, list_taken_ips, list_owned_gateway_ip_addresses, delete_ip_addresses,
  new_ip_address, keep_first, allocate, ensure_gateway_vip,
}
use clusterip_gw.Controller.Ipam.Allocation.{Allocates, scan_prefixes-Allocates}

-- What `netip.ParsePrefix` promises of the IPv4 prefixes that it gives.
abbrev pub ParsesValid : (String → Option ParsedPrefix) → Type 0
ParsesValid parse =
    (raw : String) (p : Prefix) → parse raw ≡ some (v4 p) → IsIpv4 p.addr × (p.bits ≤ 32)

masked-IsMasked : (p : Prefix) → IsIpv4 p.addr → p.bits ≤ 32 → IsMasked (masked p)
unfolding masked
masked-IsMasked p v h =
    let e = value-masked p v in
    record {
      is_ipv4 = masked-IsIpv4 p;
      bits_le = h;
      is_base = e ∙ sym (ap (λ t. t * size p) (div-eq_of_eq-mul_left (size_pos p) e));
    }

module _ (parse : String → Option ParsedPrefix) (valid : ParsesValid parse) where
  ipv4_prefix-IsMasked :
      (raw : String) (o : Option ParsedPrefix) (rest : List Prefix)
      → parse raw ≡ o
      → All IsMasked rest
      → All IsMasked (ipv4_prefix parse o rest)
  ipv4_prefix-IsMasked raw (some (v4 p)) rest e m =
      let v = valid raw p e in (masked-IsMasked p v.0 v.1, m)
  ipv4_prefix-IsMasked raw (some v6) rest e m = m
  ipv4_prefix-IsMasked raw none rest e m = m

  ipv4_prefixes-IsMasked : (raws : List String) → All IsMasked (ipv4_prefixes parse raws)
  unfolding ipv4_prefixes
  ipv4_prefixes-IsMasked [] = tt
  ipv4_prefixes-IsMasked (raw ∷ rest) =
      ipv4_prefix-IsMasked raw (parse raw) _ refl (ipv4_prefixes-IsMasked rest)

  All-append : (xs ys : List Prefix) → All IsMasked xs → All IsMasked ys → All IsMasked (xs ++ ys)
  All-append [] ys h k = k
  All-append (x ∷ xs) ys h k = (h.0, All-append xs ys h.1 k)

  usable_prefixes-IsMasked : (cs : List ServiceCidr) → All IsMasked (usable_prefixes parse cs)
  unfolding usable_prefixes
  usable_prefixes-IsMasked [] = tt
  usable_prefixes-IsMasked (c ∷ cs) =
      let later = usable_prefixes-IsMasked cs in
      if_both (All IsMasked) c.meta.deleting _ _ later
        (if_both (All IsMasked) _ _ _ later (All-append _ _ (ipv4_prefixes-IsMasked c.cidrs) later))

  -- Whatever ranges are usable, the walk gets prefixes in the form that it needs.
  list_ipv4_service_cidrs-IsMasked :
      (inf : Informers) {ps : List Prefix}
      → list_ipv4_service_cidrs parse inf ≡ ok ps
      → All IsMasked ps
  unfolding list_ipv4_service_cidrs
  list_ipv4_service_cidrs-IsMasked inf {ps} h =
      let (items, _, e) = map_ok-eq-ok _ inf.service_cidrs h in
      rw (← e) (
        All-of_Member IsMasked _ (λ p m.
          All-Member IsMasked _ p (usable_prefixes-IsMasked items)
            (Member-sort_by by_string p (usable_prefixes parse items) m)))

  -- With no reservation of its own a gateway gets one of the free addresses, if there is one and
  -- the server goes along.
  pub ensure_gateway_vip-Allocates :
      {W : Type 0} (client : Client W) (inf : Informers) (g : Gateway) (w : W) (p : Prefix)
      (ps : List Prefix) (taken : List String)
      → list_owned_gateway_ip_addresses inf (key_of g.meta) ≡ ok []
      → list_ipv4_service_cidrs parse inf ≡ ok (p ∷ ps)
      → list_taken_ips inf ≡ ok taken
      → Allocates client g (p ∷ ps) taken (ensure_gateway_vip client parse inf g w)
  unfolding ensure_gateway_vip allocate keep_first sort_by sort_onto
  ensure_gateway_vip-Allocates client inf g w p ps taken none_owned cidrs names =
      rw (none_owned, cidrs, names)
        (scan_prefixes-Allocates client g (p ∷ ps) taken w
          (list_ipv4_service_cidrs-IsMasked inf cidrs))

by_name-IsOrder : IsOrder by_name
by_name-IsOrder = record {
  asym = λ a b. str_lt_asym a.meta.name b.meta.name;
  trans = λ a b c. str_lt_trans a.meta.name b.meta.name c.meta.name;
}

module _ {W : Type 0} (client : Client W) (parse : String → Option ParsedPrefix) where
  -- One call deletes a reservation by its name, and finding it gone is no error; then the next, up to the first error.
  abbrev pub each_deleted : List IpAddress → M W (Unit {0})
  each_deleted [] = return tt
  each_deleted (o ∷ rest) = do
    ignore_not_found (client.delete_ip_address o.meta.name)
    each_deleted rest

  delete_ip_addresses-each : (os : List IpAddress) → delete_ip_addresses client os ≡ each_deleted os
  unfolding delete_ip_addresses
  delete_ip_addresses-each [] = refl
  delete_ip_addresses-each (o ∷ rest) =
      ap (λ m. ignore_not_found (client.delete_ip_address o.meta.name) >> m)
        (delete_ip_addresses-each rest)

  -- `owned` is `ip` with `extra`, each as often as it is there: whatever test is counted by. None of `extra`
  -- has a lesser name, and these are deleted.
  abbrev pub Keeps : List IpAddress → W → Result String × W → Type 0
  Keeps owned w r =
      (ip : IpAddress) × (extra : List IpAddress) × Member ip owned
      × All (λ (o : IpAddress). Member o owned × (str_lt o.meta.name ip.meta.name ≡ false)) extra
      × ((t : IpAddress → Bool) → count_if t (ip ∷ extra) ≡ count_if t owned)
      × (r ≡ (each_deleted extra >> return ip.meta.name) w)

  keep_first-Keeps :
      (owned sorted : List IpAddress) (none_owned : M W String) (w : W)
      → sort_by by_name owned ≡ sorted
      → 0 < length owned
      → Keeps owned w (keep_first client sorted none_owned w)
  unfolding keep_first
  keep_first-Keeps owned [] none_owned w e h =
      absurd (omega (arith, length-sort_by by_name owned, ap length e))
  keep_first-Keeps owned (ip ∷ extra) none_owned w e h =
      let source = λ (o : IpAddress) (m : Member o (ip ∷ extra)).
        Member-sort_by by_name o owned (subst (Member o) (sym e) m) in
      let sorted = subst (IsSorted by_name) e (sort_by-IsSorted by_name by_name-IsOrder owned) in
      (
        ip,
        extra,
        source ip (inl refl),
        All-of_Member _ extra
            (λ o m. (source o (inr m), All-Member (λ q. by_name q ip ≡ false) extra o sorted.0 m)),
        λ t. ap (count_if t) (sym e) ∙ count_if-sort_by by_name t owned,
        ap (λ m. (m >> return ip.meta.name) w) (delete_ip_addresses-each extra),
      )

  -- With reservations of its own in the informer's cache a gateway keeps one of the least name, and the
  -- call deletes exactly the others, each as often as the cache lists it, up to the first error, creates none, and
  -- returns the name that is kept, or the error of a deletion.
  pub ensure_gateway_vip-Keeps :
      (inf : Informers) (g : Gateway) (w : W) (owned : List IpAddress)
      → list_owned_gateway_ip_addresses inf (key_of g.meta) ≡ ok owned
      → 0 < length owned
      → Keeps owned w (ensure_gateway_vip client parse inf g w)
  unfolding ensure_gateway_vip
  ensure_gateway_vip-Keeps inf g w owned e h =
      rw e (keep_first-Keeps owned _ (allocate client parse inf g) w refl h)

namespaced_key-ne : (k : NamespacedName) → k.namespace ≢ "" → namespaced_key k ≢ ""
namespaced_key-ne k h e = h (append-eq-nil_iff.0 e).0

new_ip_address-label :
    (g : Gateway) (n : String)
    → label (new_ip_address g n).meta.labels managed_by_label_key ≡ managed_by_label_value
unfolding new_ip_address label string_eq
new_ip_address-label g n = refl

new_ip_address-key :
    (g : Gateway) (n : String)
    → g.meta.namespace ≢ ""
    → g.meta.name ≢ ""
    → gateway_key_for_ip_address (new_ip_address g n) ≡ namespaced_key (key_of g.meta)
unfolding gateway_key_for_ip_address
new_ip_address-key g n hn hm = rw (new_ip_address-label g n) (unfold new_ip_address in ground arith)

-- The reservation that the allocation creates is indexed under the gateway's key, and counts as
-- its own once the index holds it.
pub new_ip_address-owned :
    (inf : Informers) (g : Gateway) (n : String) (items owned : List IpAddress)
    → g.meta.namespace ≢ ""
    → g.meta.name ≢ ""
    → inf.ip_addresses_by_gateway (namespaced_key (key_of g.meta)) ≡ ok items
    → Member (new_ip_address g n) items
    → list_owned_gateway_ip_addresses inf (key_of g.meta) ≡ ok owned
    → (index_ip_address_by_gateway (new_ip_address g n) ≡ namespaced_key (key_of g.meta) ∷ [])
      × Member (new_ip_address g n) owned
unfolding index_ip_address_by_gateway list_owned_gateway_ip_addresses
new_ip_address-owned inf g n items owned hn hm e m o = (
  rw (new_ip_address-key g n hn hm) (ground (arith, namespaced_key-ne (key_of g.meta) hn)),
  let listed = map_ok-eq-ok _ (inf.ip_addresses_by_gateway (namespaced_key (key_of g.meta))) o in
      let same : listed.0 ≡ items = ground (arith, listed.1, e) in
      subst (Member (new_ip_address g n)) listed.2 (
        keep-Member _ (new_ip_address g n) listed.0
          (subst (Member (new_ip_address g n)) (sym same) m)
          (ground (arith, new_ip_address-label g n))),
)
