-- ===== src/Net.antt =====
-- IPv4 addresses and prefixes as the program uses those of `net` and `net/netip`, by their four
-- bytes in network order.
pub mod Values
use Prim.Native.Nat.{bit_or}
use clusterip_gw.Base.{
  ℕ, zero, suc, ◌+◌, ◌-◌, ◌*◌, ◌/◌, ◌%◌, ◌^◌, ◌<◌, String, Bool, true, false, ◌==◌, nat_eq, Eq,
  if◌then◌else◌, ◌<>◌, decimal, Option, none, some, ℕ_discrete,
}

pub record Ipv4 : Type 0 where
  pub b0 : ℕ
  pub b1 : ℕ
  pub b2 : ℕ
  pub b3 : ℕ

pub record IsIpv4 (a : Ipv4) : Type 0 where
  pub byte0 : a.b0 < 256
  pub byte1 : a.b1 < 256
  pub byte2 : a.b2 < 256
  pub byte3 : a.b3 < 256

Ipv4-discrete : Discrete Ipv4
Ipv4-discrete = hlevel ℕ_discrete

instance unfoldable pub ipv4_eq : Eq Ipv4
unfolding Ipv4-discrete
ipv4_eq = record { dec = Ipv4-discrete }

-- The address as a number.
abbrev pub value : Ipv4 → ℕ
value a = a.b0 * 16777216 + a.b1 * 65536 + a.b2 * 256 + a.b3

abbrev pub of_value : ℕ → Ipv4
of_value n = record {
  b0 = n / 16777216 % 256;
  b1 = n / 65536 % 256;
  b2 = n / 256 % 256;
  b3 = n % 256;
}

-- `netip.Addr`, for the addresses of the IPv4 prefixes; `invalid` is the zero value.
pub data Addr : Type 0 where
  invalid : Addr
  ipv4 : Ipv4 → Addr

-- `Addr.String`
unfoldable pub addr_string : Ipv4 → String
unfolding decimal
addr_string a = decimal a.b0 <> "." <> decimal a.b1 <> "." <> decimal a.b2 <> "." <> decimal a.b3

-- `netip.Prefix` of an IPv4 address; `bits` is at most 32.
pub record Prefix : Type 0 where
  pub addr : Ipv4
  pub bits : ℕ

-- How many addresses a prefix holds.
abbrev pub size : Prefix → ℕ
size p = 2 ^ (32 - p.bits)

-- `Prefix.Masked`: the bits behind the prefix are cleared.
unfoldable pub masked : Prefix → Prefix
masked p = record p { addr = of_value (value p.addr / size p * size p) }

-- `Prefix.Contains`
unfoldable pub prefix_contains : Prefix → Ipv4 → Bool
unfolding nat_eq
prefix_contains p a = value a / size p == value p.addr / size p

-- `Prefix.String`
unfoldable pub prefix_string : Prefix → String
unfolding addr_string
prefix_string p = addr_string p.addr <> "/" <> decimal p.bits
