-- ===== src/Controller/Addresses/Order.antt =====
-- The address arithmetic by numbers: the successor, and the broadcast address of a prefix.
use Prim.Native.Nat.{bit_or}
use native.Mathlib.Nat.{pow-suc, mul-mod_left, div-mul-le_self}
use clusterip_gw.Base.{
  ℕ, zero, suc, ◌+◌, ◌-◌, ◌*◌, ◌/◌, ◌%◌, ◌^◌, ◌≤◌, ◌<◌, ◌≡◌, refl, Bool, true, false, ◌==◌, nat_eq,
  if◌then◌else◌, ltb, arith, dec_lt, subst, ap,
}
use clusterip_gw.Net.{Ipv4, IsIpv4, invalid, ipv4, value, of_value, Prefix, size, masked}
use clusterip_gw.Controller.Addresses.{next_addr, set_bit, set_bits, last_addr}

pub value-of_value : (n : ℕ) → n < 4294967296 → value (of_value n) ≡ n
value-of_value n h = omega arith

pub of_value-IsIpv4 : (n : ℕ) → IsIpv4 (of_value n)
of_value-IsIpv4 n = omega arith

pub of_value-value : (a : Ipv4) → IsIpv4 a → of_value (value a) ≡ a
of_value-value a h = ground arith

-- The successor of an address is the one with the next number, and there is none behind the last.
pub next_addr_lem :
    (a : Ipv4)
    → IsIpv4 a
    → next_addr (ipv4 a)
      ≡ (if ltb (value a + 1) 4294967296 then ipv4 (of_value (value a + 1)) else invalid)
unfolding next_addr
next_addr_lem a h = ground arith

-- The test passes at all numbers under the bound.
passes : (ℕ → Bool) → ℕ → Bool
passes test zero = true
passes test (suc bound) = let smaller = passes test bound in if test bound then smaller else false

passes_at : (test : ℕ → Bool) (bound n : ℕ) → passes test bound ≡ true → n < bound → test n ≡ true
unfolding passes
passes_at test zero n all under = absurd (omega (arith, under))
passes_at test (suc bound) n all under = ground (arith, passes_at test bound n, all, under)

-- A byte whose last `j + 1` bits are clear gains `2 ^ j` by setting bit `j`.
sets_free_bit : ℕ → ℕ → Bool
unfolding nat_eq
sets_free_bit j b = if b % 2 ^ suc j == 0 then bit_or b (2 ^ j) == b + 2 ^ j else true

bit_or_table : passes (λ j. passes (sets_free_bit j) 256) 8 ≡ true
unfolding passes sets_free_bit
bit_or_table = refl

sets_free_bit_lem :
    (j b : ℕ) → sets_free_bit j b ≡ true → b % 2 ^ suc j ≡ 0 → bit_or b (2 ^ j) ≡ b + 2 ^ j
unfolding sets_free_bit
sets_free_bit_lem j b t h = ground arith

bit_or_free : (j b : ℕ) → j < 8 → b < 256 → b % 2 ^ suc j ≡ 0 → bit_or b (2 ^ j) ≡ b + 2 ^ j
bit_or_free j b hj hb = sets_free_bit_lem j b (
    passes_at (sets_free_bit j) 256 b
      (passes_at (λ i. passes (sets_free_bit i) 256) 8 j bit_or_table hj) hb)

-- One round of the loop: bit 31 - k is clear, with all behind it, and is set.
SetsBit : ℕ → Ipv4 → Type 0
SetsBit k a =
    IsIpv4 a
    → value a % 2 ^ suc k ≡ 0
    → IsIpv4 (set_bit a (31 - k)) × (value (set_bit a (31 - k)) ≡ value a + 2 ^ k)

pattern abbrev eight_more : ℕ → ℕ
eight_more j = suc (suc (suc (suc (suc (suc (suc (suc j)))))))

set_bit_byte3 : (a : Ipv4) (j : ℕ) → j < 8 → SetsBit j a
unfolding SetsBit set_bit
set_bit_byte3 a (eight_more j) h v m = absurd (omega arith)
set_bit_byte3 a j h v m = ground (arith, bit_or_free j a.b3)

set_bit_byte2 : (a : Ipv4) (j : ℕ) → j < 8 → SetsBit (j + 8) a
unfolding SetsBit set_bit
set_bit_byte2 a (eight_more j) h v m = absurd (omega arith)
set_bit_byte2 a j h v m = ground (arith, bit_or_free j a.b2)

set_bit_byte1 : (a : Ipv4) (j : ℕ) → j < 8 → SetsBit (j + 16) a
unfolding SetsBit set_bit
set_bit_byte1 a (eight_more j) h v m = absurd (omega arith)
set_bit_byte1 a j h v m = ground (arith, bit_or_free j a.b1)

set_bit_byte0 : (a : Ipv4) (j : ℕ) → j < 8 → SetsBit (j + 24) a
unfolding SetsBit set_bit
set_bit_byte0 a (eight_more j) h v m = absurd (omega arith)
set_bit_byte0 a j h v m = ground (arith, bit_or_free j a.b0)

set_bit_lem : (a : Ipv4) (k : ℕ) → k < 32 → SetsBit k a
set_bit_lem a k h = elim (dec_lt k 8) [
  | yes p ↦ set_bit_byte3 a k p
  | no p ↦ elim (dec_lt k 16) [
    | yes q ↦ subst (λ n. SetsBit n a) (omega arith) (set_bit_byte2 a (k - 8) (omega arith))
    | no q ↦ elim (dec_lt k 24) [
      | yes r ↦ subst (λ n. SetsBit n a) (omega arith) (set_bit_byte1 a (k - 16) (omega arith))
      | no r ↦ subst (λ n. SetsBit n a) (omega arith) (set_bit_byte0 a (k - 24) (omega arith))
    ]
  ]
]

-- The whole loop, from an address whose last `k` bits are clear.
SetsBits : ℕ → ℕ → Ipv4 → Type 0
SetsBits k bit a = IsIpv4 (set_bits k bit a) × (value (set_bits k bit a) + 1 ≡ value a + 2 ^ k)

set_bits_step :
    (k bit q : ℕ) (a : Ipv4)
    → bit + suc k ≡ 32
    → IsIpv4 a
    → value a ≡ q * 2 ^ suc k
    → IsIpv4 (set_bit a bit) × (value (set_bit a bit) ≡ value a + 2 ^ k)
unfolding SetsBit
set_bits_step k bit q a e v m =
    subst (λ b. IsIpv4 (set_bit a b) × (value (set_bit a b) ≡ value a + 2 ^ k)) (omega arith)
      (set_bit_lem a k (omega arith) v (rw m (mul-mod_left q (2 ^ suc k))))

set_bits_lem :
    (k bit q : ℕ) (a : Ipv4) → bit + k ≡ 32 → IsIpv4 a → value a ≡ q * 2 ^ k → SetsBits k bit a
unfolding SetsBits set_bits
set_bits_lem zero bit q a e v m = (v, refl)
set_bits_lem (suc k) bit q a e v m =
    let step = set_bits_step k bit q a e v m in
    let rest =
      set_bits_lem k (bit + 1) (2 * q + 1) (set_bit a bit) (omega arith) step.0
        (omega (arith, step.1, ap (λ t. q * t) (pow-suc 2 k))) in
    (rest.0, omega (arith, rest.1, step.1, pow-suc 2 k))

pub masked-IsIpv4 : (p : Prefix) → IsIpv4 (masked p).addr
unfolding masked
masked-IsIpv4 p = of_value-IsIpv4 (value p.addr / size p * size p)

pub value-masked :
    (p : Prefix) → IsIpv4 p.addr → value (masked p).addr ≡ value p.addr / size p * size p
unfolding masked
value-masked p v = value-of_value _ (omega (arith, div-mul-le_self (value p.addr) (size p)))

-- `lastAddr` is the last of the prefix's addresses, `size` many from the masked address on.
pub last_addr_lem :
    (p : Prefix)
    → IsIpv4 p.addr
    → p.bits ≤ 32
    → IsIpv4 (last_addr p) × (value (last_addr p) + 1 ≡ value (masked p).addr + size p)
unfolding last_addr SetsBits
last_addr_lem p v h =
    set_bits_lem (32 - p.bits) p.bits (value p.addr / size p) (masked p).addr (omega arith)
      (masked-IsIpv4 p) (value-masked p v)
