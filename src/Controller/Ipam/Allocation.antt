-- ===== src/Controller/Ipam/Allocation.antt =====
-- What ensureGatewayVIP reserves, over all usable prefixes and all answers of the server.
use clusterip_gw.Base.{
  ℕ, zero, suc, ◌+◌, ◌≤◌, ◌<◌, ◌≡◌, refl, ◌⊎◌, inl, inr, ◌∙◌, String, true, false, List, [], ◌∷◌,
  string_eq, contains, Member, All, Error, other, is_already_exists, Result, ok, err, M, arith, ap,
  dec_lt, subst,
}
use clusterip_gw.Kube.{Gateway}
use clusterip_gw.Net.{Ipv4, IsIpv4, invalid, ipv4, value, of_value, addr_string, Prefix, size}
use clusterip_gw.Net.Values.{base, IsMasked, size_pos}
use clusterip_gw.Controller.{Client}
use clusterip_gw.Controller.Addresses.{first_allocatable}
use clusterip_gw.Controller.Addresses.Order.{next_addr_lem, value-of_value, of_value-IsIpv4}
use clusterip_gw.Controller.Ipam.{
  Scan, found, exhausted, out_of_fuel, scan, after_scan, scan_prefixes,
}
use clusterip_gw.Controller.Ipam.Walk.{
  IsAllocatable, Created, Failed, Refused, Ends, stop, scan-Ends, last_addr_masked,
}

abbrev pub all_allocated : Error
all_allocated = other "all IPv4 ServiceCIDR addresses are allocated"

first_cases :
    (p : Prefix)
    → IsMasked p
    → ((b : Ipv4) × (first_allocatable p ≡ ipv4 b) × IsIpv4 b × (value b ≡ base p + 1))
      ⊎ ((first_allocatable p ≡ invalid) × (4294967296 ≤ base p + 1))
unfolding first_allocatable
first_cases p m = elim (dec_lt (value p.addr + 1) 4294967296) [
  | yes q ↦ inl (
    of_value (value p.addr + 1),
    next_addr_lem p.addr m.is_ipv4 ∙ ground arith,
    of_value-IsIpv4 (value p.addr + 1),
    value-of_value _ q ∙ ap (λ t. t + 1) m.is_base,
  )
  | no q ↦ inr (next_addr_lem p.addr m.is_ipv4 ∙ ground arith, omega (arith, m.is_base))
]

module _ {W : Type 0} (client : Client W) (g : Gateway) where
  scan-invalid :
      (fuel : ℕ) (p : Prefix) (taken : List String) (w : W)
      → 0 < fuel
      → scan client fuel g p invalid taken w ≡ (ok (exhausted taken), w)
  unfolding scan
  scan-invalid zero p taken w h = absurd (omega arith)
  scan-invalid (suc fuel) p taken w h = refl

  -- A whole prefix, from its first allocatable address on.
  scan-first :
      (p : Prefix) (taken : List String) (w : W)
      → IsMasked p
      → Ends client g p taken (base p + 1) (scan client (size p) g p (first_allocatable p) taken w)
  unfolding first_allocatable
  scan-first p taken w m = elim (first_cases p m) [
    | inl (b, e, vb, eb) ↦
        rw (e, ← eb)
          (scan-Ends client g (size p) p b taken w m vb (omega (arith, eb)) (omega (arith, eb))
            (omega (arith, eb, size_pos p)))
    | inr (e, h) ↦
        rw (e, scan-invalid (size p) p taken w (size_pos p))
          (stop client g p taken (base p + 1) w
            (omega (arith, (last_addr_masked p m).0, (last_addr_masked p m).1)))
  ]

  -- What the walk through the prefixes may end in, on success and on failure.
  abbrev pub Allocates : List Prefix → List String → Result String × W → Type 0
  Allocates ps taken (ok n, v) =
      (p : Prefix) × (c : Ipv4) × Member p ps
      × IsAllocatable p c
      × (n ≡ addr_string c)
      × (contains taken n ≡ false)
      × Created client g n v
  Allocates ps taken (err e, v) =
      ((e ≡ all_allocated)
        × ((p : Prefix) (c : Ipv4)
            → Member p ps
            → IsAllocatable p c
            → (contains taken (addr_string c) ≡ true) ⊎ Refused client g (addr_string c)))
      ⊎ ((n : String) × Failed client g n e v × (is_already_exists e ≡ false))

  -- A later prefix is walked with the names `t`, all taken or refused by then.
  later :
      (p : Prefix) (ps : List Prefix) (taken t : List String) (w : W) (r : Result String × W)
      → Ends client g p taken (base p + 1) (ok (exhausted t), w)
      → Allocates ps t r
      → Allocates (p ∷ ps) taken r
  later p ps taken t w (ok n, v) (all, source, into) (q, c, m, al, e, fresh, made) =
      (q, c, inr m, al, e, ground (arith, into n), made)
  later p ps taken t w (err x, v) (all, source, into) (inr failed) = inr failed
  later p ps taken t w (err x, v) (all, source, into) (inl (e, rest)) = inl (
    e,
    λ q c m al. elim m [
      | inl same ↦ source (addr_string c) (
          all c al.0 (subst (λ u. base u + 1 ≤ value c) same (omega (arith, al.1)))
            (subst (λ u. value c + 1 < base u + size u) same al.2))
      | inr there ↦ elim (rest q c there al) [
        | inl old ↦ source (addr_string c) old
        | inr refused ↦ inr refused
      ]
    ],
  )

  after_scan-Allocates :
      (p : Prefix) (ps : List Prefix) (taken : List String) (next : List String → M W String)
      (r : Result Scan × W)
      → Ends client g p taken (base p + 1) r
      → ((t : List String) (v : W) → Allocates ps t (next t v))
      → Allocates (p ∷ ps) taken (after_scan client r next)
  unfolding after_scan
  after_scan-Allocates p ps taken next (ok (found n), v) (c, al, e, fresh, made) rest =
      (p, c, inl refl, al, e, fresh, made)
  after_scan-Allocates p ps taken next (ok (exhausted t), v) h rest =
      later p ps taken t v (next t v) h (rest t v)
  after_scan-Allocates p ps taken next (ok out_of_fuel, v) h rest = absurd h
  after_scan-Allocates p ps taken next (err e, v) h rest = inr h

  -- The walk reserves a free address, or fails because nothing is free or the server failed.
  pub scan_prefixes-Allocates :
      (ps : List Prefix) (taken : List String) (w : W)
      → All IsMasked ps
      → Allocates ps taken (scan_prefixes client g ps taken w)
  unfolding scan_prefixes
  scan_prefixes-Allocates [] taken w m = inl (refl, λ p c h al. absurd h)
  scan_prefixes-Allocates (p ∷ ps) taken w m =
      after_scan-Allocates p ps taken (λ t v. scan_prefixes client g ps t v) _
        (scan-first p taken w m.0) (λ t v. scan_prefixes-Allocates ps t v m.1)
