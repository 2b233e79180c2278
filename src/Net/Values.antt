-- ===== src/Net/Values.antt =====
-- Prefixes as ranges of numbers.
use native.Mathlib.Nat.{div-mul-le_self, lt-div-mul-add, div-eq_of_lt-le, one-le-pow}
use clusterip_gw.Base.{
  ℕ, ◌+◌, ◌-◌, ◌*◌, ◌/◌, ◌≤◌, ◌<◌, ◌≡◌, ◌↔◌, true, nat_eq, ==→≡, ==_refl, arith,
}
use clusterip_gw.Net.{Ipv4, IsIpv4, value, Prefix, size, prefix_contains}

-- The least number in a prefix.
abbrev pub base : Prefix → ℕ
base p = value p.addr / size p * size p

-- An IPv4 prefix whose own address is its least, as `Masked` gives it.
pub record IsMasked (p : Prefix) : Type 0 where
  pub is_ipv4 : IsIpv4 p.addr
  pub bits_le : p.bits ≤ 32
  pub is_base : value p.addr ≡ base p

pub size_pos : (p : Prefix) → 0 < size p
size_pos p = one-le-pow (32 - p.bits) 2 (omega arith)

-- `Contains` tells the numbers from `base` on, `size` many.
pub prefix_contains_iff :
    (p : Prefix) (a : Ipv4)
    → (prefix_contains p a ≡ true) ↔ ((base p ≤ value a) × (value a < base p + size p))
unfolding prefix_contains
prefix_contains_iff p a = (inside, λ h. outside h.0 h.1)
  where
    inside : prefix_contains p a ≡ true → (base p ≤ value a) × (value a < base p + size p)
    inside h =
        let e = ==→≡ (value a / size p) (value p.addr / size p) h in
        rw (← e) (div-mul-le_self (value a) (size p), lt-div-mul-add (size_pos p))

    outside : base p ≤ value a → value a < base p + size p → prefix_contains p a ≡ true
    outside h k =
        let q = value p.addr / size p in
        let e : value a / size p ≡ q = div-eq_of_lt-le {k = q} (size p) h (omega arith) in
        rw e (==_refl q)
