-- ===== src/Controller/Addresses.antt =====
-- The address arithmetic of internal/controller/ipam.go, on bytes as in the source.
pub mod Order
use Prim.Native.Nat.{bit_or}
use clusterip_gw.Base.{
  ℕ, zero, suc, ◌+◌, ◌-◌, ◌/◌, ◌%◌, ◌^◌, ◌<◌, Bool, true, false, ◌==◌, ◌!=◌, nat_eq, if◌then◌else◌,
}
use clusterip_gw.Net.{Ipv4, Addr, invalid, ipv4, ipv4_eq, Prefix, masked}

-- `next[i]++` on a `byte`
inc : ℕ → ℕ
inc b = (b + 1) % 256

-- The loop over the four bytes from the last to the first, unrolled: it goes on while the byte
-- wraps around to 0.
unfoldable pub next_addr : Addr → Addr
unfolding inc nat_eq
next_addr invalid = invalid
next_addr (ipv4 a) =
    if inc a.b3 != 0
    then ipv4 (record a { b3 = inc a.b3 })
    else if inc a.b2 != 0
    then ipv4 (record a { b2 = inc a.b2; b3 = inc a.b3 })
    else if inc a.b1 != 0
    then ipv4 (record a { b1 = inc a.b1; b2 = inc a.b2; b3 = inc a.b3 })
    else if inc a.b0 != 0
    then ipv4 (record { b0 = inc a.b0; b1 = inc a.b1; b2 = inc a.b2; b3 = inc a.b3 })
    else invalid

unfoldable pub first_allocatable : Prefix → Addr
first_allocatable p = next_addr (ipv4 p.addr)

-- `addr[bit/8] |= 1 << (7 - bit%8)`, for a bit below 32.
unfoldable pub set_bit : Ipv4 → ℕ → Ipv4
unfolding nat_eq
set_bit a bit =
    let mask = 2 ^ (7 - bit % 8) in
    if bit / 8 == 0
    then record a { b0 = bit_or a.b0 mask }
    else if bit / 8 == 1
    then record a { b1 = bit_or a.b1 mask }
    else if bit / 8 == 2
    then record a { b2 = bit_or a.b2 mask }
    else record a { b3 = bit_or a.b3 mask }

-- `for bit := bits; bit < 32; bit++`, by the number of rounds left.
unfoldable pub set_bits : ℕ → ℕ → Ipv4 → Ipv4
set_bits zero bit a = a
set_bits (suc rounds) bit a = set_bits rounds (bit + 1) (set_bit a bit)

unfoldable pub last_addr : Prefix → Ipv4
last_addr p = set_bits (32 - p.bits) p.bits (masked p).addr

unfoldable pub is_last_address : Prefix → Ipv4 → Bool
is_last_address p a = a == last_addr p
