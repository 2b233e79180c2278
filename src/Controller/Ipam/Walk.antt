-- ===== src/Controller/Ipam/Walk.antt =====
-- The walk through one prefix: it ends within its fuel, and what it finds or passes over.
use clusterip_gw.Base.{
  ℕ, zero, suc, ◌+◌, ◌≤◌, ◌<◌, ◌≡◌, refl, ◌≢◌, ◌⊎◌, inl, inr, ◌∙◌, String, true, false, not, List,
  ◌∷◌, ==→≡, if◌then◌else◌, contains, Bool-cases, Error, is_already_exists, Result, ok, err, M,
  arith, ap, sym, string_eq, dec_le,
}
use clusterip_gw.Kube.{Gateway}
use clusterip_gw.Net.{
  Ipv4, IsIpv4, ipv4_eq, ipv4, value, of_value, addr_string, Prefix, size, prefix_contains,
}
use clusterip_gw.Net.Values.{base, IsMasked, prefix_contains_iff}
use clusterip_gw.Controller.{Client}
use clusterip_gw.Controller.Addresses.{next_addr, last_addr, is_last_address}
use clusterip_gw.Controller.Addresses.Order.{
  next_addr_lem, last_addr_lem, value-of_value, of_value-value, of_value-IsIpv4, value-masked,
}
use clusterip_gw.Controller.Ipam.{
  Scan, found, exhausted, out_of_fuel, new_ip_address, claimed, scan,
}

-- Strictly between the first and the last address of the prefix.
abbrev pub IsAllocatable : Prefix → Ipv4 → Type 0
IsAllocatable p a = IsIpv4 a × (base p < value a) × (value a + 1 < base p + size p)

value-injective : (a b : Ipv4) → IsIpv4 a → IsIpv4 b → value a ≡ value b → a ≡ b
value-injective a b va vb e = sym (of_value-value a va) ∙ ap of_value e ∙ of_value-value b vb

module _ (p : Prefix) (m : IsMasked p) where
  pub last_addr_masked : IsIpv4 (last_addr p) × (value (last_addr p) + 1 ≡ base p + size p)
  last_addr_masked =
      let l = last_addr_lem p m.is_ipv4 m.bits_le in
      (l.0, l.1 ∙ ap (λ t. t + size p) (value-masked p m.is_ipv4))

  -- The test for the last address is one on numbers.
  is_last_address-false :
      (a : Ipv4)
      → IsIpv4 a
      → value a < base p + size p
      → is_last_address p a ≡ false
      → value a + 1 < base p + size p
  unfolding is_last_address
  is_last_address-false a va h e =
      let l = last_addr_masked in
      let ne : value a ≢ value (last_addr p) =
        λ q. ground (arith, value-injective a (last_addr p) va l.0 q) in
      omega (arith, ne, l.1)

  is_last_address-true : (a : Ipv4) → is_last_address p a ≡ true → base p + size p ≤ value a + 1
  unfolding is_last_address
  is_last_address-true a e = rw (==→≡ a (last_addr p) e) (omega (arith, last_addr_masked.1))

  -- Below the last address of a prefix there is a next one.
  next_addr_inside :
      (a : Ipv4)
      → IsIpv4 a
      → value a + 1 < base p + size p
      → (b : Ipv4) × (next_addr (ipv4 a) ≡ ipv4 b) × IsIpv4 b × (value b ≡ value a + 1)
  next_addr_inside a va h =
      let l = last_addr_masked in
      let bound : value a + 1 < 4294967296 = omega (arith, l.0, l.1) in
      (
        of_value (value a + 1),
        next_addr_lem a va ∙ ground arith,
        of_value-IsIpv4 (value a + 1),
        value-of_value (value a + 1) bound,
      )

module _ {W : Type 0} (client : Client W) (g : Gateway) where
  -- The server accepted the reservation of a name for the gateway, and is left in the world `v`.
  abbrev pub Created : String → W → Type 0
  Created n v = (w : W) × (client.create_ip_address (new_ip_address g n) w ≡ (ok tt, v))

  -- The server failed it with an error.
  abbrev pub Failed : String → Error → W → Type 0
  Failed n e v = (w : W) × (client.create_ip_address (new_ip_address g n) w ≡ (err e, v))

  -- The server answered `AlreadyExists`.
  abbrev pub Refused : String → Type 0
  Refused n = (e : Error) × (v : W) × Failed n e v × (is_already_exists e ≡ true)

  -- What a walk through `p` from the number `lo` on may end in.
  abbrev pub Ends : Prefix → List String → ℕ → Result Scan × W → Type 0
  Ends p taken lo (ok (found n), v) =
      (c : Ipv4) × IsAllocatable p c
      × (n ≡ addr_string c)
      × (contains taken n ≡ false)
      × Created n v
  Ends p taken lo (ok (exhausted t), v) =
      ((c : Ipv4)
        → IsIpv4 c
        → lo ≤ value c
        → value c + 1 < base p + size p
        → contains t (addr_string c) ≡ true)
      × ((n : String) → contains t n ≡ true → (contains taken n ≡ true) ⊎ Refused n)
      × ((n : String) → contains taken n ≡ true → contains t n ≡ true)
  Ends p taken lo (ok out_of_fuel, v) = ⊥
  Ends p taken lo (err e, v) = (n : String) × Failed n e v × (is_already_exists e ≡ false)

  -- The candidate `a` is passed over because its name is taken, or refused just now.
  pass_over :
      (p : Prefix) (a : Ipv4) (taken taken' : List String) (lo : ℕ) (r : Result Scan × W)
      → IsIpv4 a
      → lo ≡ value a + 1
      → contains taken' (addr_string a) ≡ true
      → ((n : String) → contains taken' n ≡ true → (contains taken n ≡ true) ⊎ Refused n)
      → ((n : String) → contains taken n ≡ true → contains taken' n ≡ true)
      → Ends p taken' lo r
      → Ends p taken (value a) r
  pass_over p a taken taken' lo (ok (found n), v) va e here from back (c, al, name, fresh, made) =
      (c, al, name, ground (arith, back n), made)
  pass_over p a taken taken' lo (ok (exhausted t), v) va e here from back (all, source, into) = (
    λ c vc h k. elim (dec_le lo (value c)) [
      | yes q ↦ all c vc q k
      | no q ↦
          let same = value-injective c a vc va (omega arith) in rw same (into (addr_string a) here)
    ],
    λ n h. ground (arith, source n h, from n),
    λ n h. into n (back n h),
  )
  pass_over p a taken taken' lo (ok out_of_fuel, v) va e here from back h = h
  pass_over p a taken taken' lo (err x, v) va e here from back h = h

  -- No allocatable address is left from `lo` on.
  pub stop :
      (p : Prefix) (taken : List String) (lo : ℕ) (v : W)
      → base p + size p ≤ lo + 1
      → Ends p taken lo (ok (exhausted taken), v)
  stop p taken lo v h = (λ c vc k l. absurd (omega arith), λ n h. inl h, λ n h. h)

  claimed-Ends :
      (p : Prefix) (c : Ipv4) (taken : List String) (w : W) (skip : List String → M W Scan)
      (r : Result (Unit {0}) × W)
      → IsAllocatable p c
      → contains taken (addr_string c) ≡ false
      → client.create_ip_address (new_ip_address g (addr_string c)) w ≡ r
      → ((t : List String) (v : W) → Ends p t (value c + 1) (skip t v))
      → Ends p taken (value c) (claimed client r (addr_string c) taken skip)
  unfolding claimed
  claimed-Ends p c taken w skip (ok u, v) al fresh e rest = (c, al, refl, fresh, (w, e))
  claimed-Ends p c taken w skip (err x, v) al fresh e rest =
      elim (Bool-cases (is_already_exists x)) [
        | inr no_clash ↦ rw (no_clash, claimed) (addr_string c, (w, e), no_clash)
        | inl clash ↦
            rw (clash, claimed)
              (pass_over p c taken (addr_string c ∷ taken) (value c + 1) _ al.0 refl (ground arith)
                (λ n h. elim (string_eq.dec n (addr_string c)) [
                  | yes same ↦ inr (x, v, rw same (w, e), clash)
                  | no differ ↦ inl (ground arith)
                ])
                (λ n h. ground arith) (rest (addr_string c ∷ taken) v))
      ]

  scan_step :
      (fuel : ℕ) (p : Prefix) (c : Ipv4) (taken : List String) (w : W)
      → let skip = scan client fuel g p (next_addr (ipv4 c)) in
        scan client (suc fuel) g p (ipv4 c) taken w ≡ (
          if not (prefix_contains p c)
          then (ok (exhausted taken), w)
          else if is_last_address p c
          then (ok (exhausted taken), w)
          else if contains taken (addr_string c)
          then skip taken w
          else claimed client
              (client.create_ip_address (new_ip_address g (addr_string c)) w)
              (addr_string c)
              taken
              skip)
  unfolding scan
  scan_step fuel p c taken w = refl

  -- The body of the loop, over what the later rounds end in.
  round-Ends :
      (p : Prefix) (c : Ipv4) (taken : List String) (w : W) (skip : List String → M W Scan)
      → IsMasked p
      → IsIpv4 c
      → base p < value c
      → ((t : List String) (u : W)
          → value c + 1 < base p + size p
          → Ends p t (value c + 1) (skip t u))
      → Ends p taken (value c) (
          if not (prefix_contains p c)
          then (ok (exhausted taken), w)
          else if is_last_address p c
          then (ok (exhausted taken), w)
          else if contains taken (addr_string c)
          then skip taken w
          else claimed client
              (client.create_ip_address (new_ip_address g (addr_string c)) w)
              (addr_string c)
              taken
              skip)
  round-Ends p c taken w skip m v lo rest = elim (Bool-cases (prefix_contains p c)) [
    | inr outside ↦ rw outside (stop p taken (value c) w (ground (arith, prefix_contains_iff p c)))
    | inl inside ↦ rw inside (elim (Bool-cases (is_last_address p c)) [
      | inl last ↦ rw last (stop p taken (value c) w (is_last_address-true p m c last))
      | inr before ↦
          let below = is_last_address-false p m c v ((prefix_contains_iff p c).0 inside).1 before in
          rw before (elim (Bool-cases (contains taken (addr_string c))) [
            | inl there ↦ rw there (
                pass_over p c taken taken (value c + 1) (skip taken w) v refl there (λ n h. inl h)
                  (λ n h. h) (rest taken w below))
            | inr fresh ↦
                rw fresh (
                  claimed-Ends p c taken w skip _ (v, lo, below) fresh refl (λ t u. rest t u below))
          ])
    ])
  ]

  -- With as many rounds as the prefix has addresses left, the walk ends, and ends well.
  pub scan-Ends :
      (fuel : ℕ) (p : Prefix) (c : Ipv4) (taken : List String) (w : W)
      → IsMasked p
      → IsIpv4 c
      → base p < value c
      → value c + fuel ≡ base p + size p + 1
      → value c ≤ base p + size p
      → Ends p taken (value c) (scan client fuel g p (ipv4 c) taken w)
  scan-Ends zero p c taken w m v lo f hi = absurd (omega arith)
  scan-Ends (suc fuel) p c taken w m v lo f hi = rw (scan_step fuel p c taken w) (
      round-Ends p c taken w (scan client fuel g p (next_addr (ipv4 c))) m v lo λ t u below.
        let (b, e, vb, eb) = next_addr_inside p m c v below in
        rw (e, ← eb)
          (scan-Ends fuel p b t u m vb (omega (arith, eb)) (omega (arith, eb)) (omega (arith, eb))))
