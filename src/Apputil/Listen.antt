-- ===== src/Apputil/Listen.antt =====
-- The texts of an IPv4 address and a port, joined by a colon.
use Prim.Native.Char.{code}
use Prim.Native.String.append
use clusterip_gw.Base.{
  ℕ, zero, suc, ◌/◌, ◌%◌, ◌≤◌, ◌<◌, String, false, Option, none, some, ◌≡◌, refl, ap, sym, ◌∙◌,
  subst, inl, inr, Bool-cases, ltb, ◌==◌, ==→≡, text_length-append, nat_eq, string_eq, take, drop,
  text_length, ◌<>◌, digit, digit-code, decimal_onto, decimal, numeral, parse_uint,
  parse_uint-decimal, ok, arith,
}
use clusterip_gw.Net.{Ipv4, addr_string}
use clusterip_gw.Apputil.{
  last_or, last_index_of, holds, starts_with, checked, split_at, split_host_port, is_numeral,
  only_ipv4, validate_parts, validate_ipv4_host_port,
}

-- All characters come before the one of the code `b`.
IsBelow : ℕ → String → Type 0
IsBelow b String.[] = Unit
IsBelow b (String.◌∷◌ c s) = (code c < b) × IsBelow b s

IsBelow-append : (b : ℕ) (s t : String) → IsBelow b s → IsBelow b t → IsBelow b (s <> t)
unfolding IsBelow
IsBelow-append b String.[] t h k = subst (IsBelow b) (sym (append.nil t)) k
IsBelow-append b (String.◌∷◌ c s) t (h, r) k =
    subst (IsBelow b) (sym (append.cons c s t)) (h, IsBelow-append b s t r k)

IsBelow-more : (s : String) → IsBelow 58 s → IsBelow 59 s
unfolding IsBelow
IsBelow-more String.[] h = tt
IsBelow-more (String.◌∷◌ c s) (h, r) = (omega (arith, h), IsBelow-more s r)

digit-IsBelow : (d : ℕ) → d < 10 → IsBelow 58 (digit d)
unfolding IsBelow
digit-IsBelow d h =
    let (c, whole, value) = digit-code d h in
    subst (IsBelow 58) (sym whole) (omega (arith, value, h), tt)

decimal_onto-IsBelow :
    (f n : ℕ) (acc : String) → n < f → IsBelow 58 acc → IsBelow 58 (decimal_onto f n acc)
unfolding decimal_onto
decimal_onto-IsBelow zero n acc h k = absurd (omega (arith, h))
decimal_onto-IsBelow (suc f) n acc h k = elim (Bool-cases (ltb n 10)) [
  | inl e ↦ rw e (IsBelow-append 58 (digit n) acc (digit-IsBelow n (ground (arith, e))) k)
  | inr e ↦ rw e (
      decimal_onto-IsBelow f (n / 10) (digit (n % 10) <> acc) (ground (arith, e, h))
        (IsBelow-append 58 (digit (n % 10)) acc (digit-IsBelow (n % 10) (omega arith)) k))
]

decimal-IsBelow : (n : ℕ) → IsBelow 58 (decimal n)
unfolding decimal IsBelow
decimal-IsBelow n = decimal_onto-IsBelow (suc n) n "" (omega arith) tt

addr_string-IsBelow : (a : Ipv4) → IsBelow 58 (addr_string a)
unfolding addr_string IsBelow
addr_string-IsBelow a =
    let dot : IsBelow 58 "." = (omega arith, tt) in
    let join = IsBelow-append 58 in
    join (decimal a.b0) _ (decimal-IsBelow a.b0) (
      join "." _ dot (
        join (decimal a.b1) _ (decimal-IsBelow a.b1) (
          join "." _ dot (
            join (decimal a.b2) _ (decimal-IsBelow a.b2) (join "." _ dot (decimal-IsBelow a.b3))))))

addr_string-long : (a : Ipv4) → 0 < text_length (addr_string a)
unfolding addr_string text_length
addr_string-long a =
    let rest = "." <> decimal a.b1 <> "." <> decimal a.b2 <> "." <> decimal a.b3 in
    let tail = decimal a.b1 <> "." <> decimal a.b2 <> "." <> decimal a.b3 in
    omega (arith, text_length-append (decimal a.b0) rest, text_length-append "." tail)

-- A text is not one with a character beyond.
apart : (b : ℕ) (s t : String) → IsBelow b s → (IsBelow b t → ⊥) → (s == t) ≡ false
apart b s t h n = elim (Bool-cases (s == t)) [
  | inl e ↦ absurd (n (subst (IsBelow b) (==→≡ s t e) h))
  | inr e ↦ e
]

filled : (s : String) → 0 < text_length s → (s == "") ≡ false
unfolding text_length
filled s h = elim (Bool-cases (s == "")) [
  | inl e ↦ absurd (omega (arith, h, ap text_length (==→≡ s "" e)))
  | inr e ↦ e
]

holds-below : (b k : ℕ) (s : String) → b ≤ k → IsBelow b s → holds k s ≡ false
unfolding holds IsBelow
holds-below b k String.[] big h = refl
holds-below b k (String.◌∷◌ c s) big (h, r) = ground (arith, holds-below b k s big r, h)

starts_with-below : (b k : ℕ) (s : String) → b ≤ k → IsBelow b s → starts_with k s ≡ false
unfolding starts_with IsBelow
starts_with-below b k String.[] big h = refl
starts_with-below b k (String.◌∷◌ c s) big (h, r) = ground (arith, h)

last_index_of-below : (s : String) → IsBelow 58 s → last_index_of 58 s ≡ none
unfolding last_index_of IsBelow last_or
last_index_of-below String.[] h = refl
last_index_of-below (String.◌∷◌ c s) (h, r) = rw (last_index_of-below s r) (ground (arith, h))

colon : (p : String) → ":" <> p ≡ String.◌∷◌ ":" p
colon p = append.cons ":" "" p ∙ ap (String.◌∷◌ ":") (append.nil p)

last_index_of-join :
    (h p : String) → IsBelow 58 p → last_index_of 58 (h <> ":" <> p) ≡ some (text_length h)
unfolding last_index_of last_or text_length nat_eq
last_index_of-join String.[] p k = rw (append.nil (":" <> p), colon p, last_index_of-below p k) refl
last_index_of-join (String.◌∷◌ c s) p k =
    rw (append.cons c s (":" <> p), last_index_of-join s p k) refl

take-join : (h p : String) → take (h <> p) (text_length h) ≡ h
unfolding take text_length
take-join String.[] p = refl
take-join (String.◌∷◌ c s) p = rw (append.cons c s p, take-join s p) refl

drop-join : (h p : String) → drop (h <> ":" <> p) (suc (text_length h)) ≡ p
unfolding drop text_length
drop-join String.[] p = rw (append.nil (":" <> p), colon p) refl
drop-join (String.◌∷◌ c s) p = rw (append.cons c s (":" <> p)) (drop-join s p)

join-IsBelow : (h p : String) → IsBelow 58 h → IsBelow 58 p → IsBelow 59 (h <> ":" <> p)
unfolding IsBelow
join-IsBelow h p x y =
    IsBelow-append 59 h (":" <> p) (IsBelow-more h x)
      (IsBelow-append 59 ":" p (omega arith, tt) (IsBelow-more p y))

split_host_port-join :
    (h p : String) → IsBelow 58 h → IsBelow 58 p → split_host_port (h <> ":" <> p) ≡ ok (h, p)
unfolding split_host_port split_at starts_with checked drop
split_host_port-join h p x y =
    let whole = join-IsBelow h p x y in
    rw
      (
        last_index_of-join h p y,
        starts_with-below 59 91 (h <> ":" <> p) (omega arith) whole,
        take-join h (":" <> p),
        drop-join h p,
        holds-below 58 58 h (omega arith) x,
        holds-below 59 91 (h <> ":" <> p) (omega arith) whole,
        holds-below 59 93 (h <> ":" <> p) (omega arith) whole,
      )
      refl

read_port : (s : String) (n : ℕ) → parse_uint 65535 s ≡ numeral n → (s == "") ≡ false
unfolding parse_uint
read_port s n h = elim (Bool-cases (s == "")) [
  | inl e ↦ absurd (
      let none_read : parse_uint 65535 "" ≡ numeral n =
        subst (λ t. parse_uint 65535 t ≡ numeral n) (==→≡ s "" e) h in
      cc)
  | inr e ↦ e
]

module _ (parse_ip : String → Option (Option Ipv4)) where
  -- The text of an IPv4 address, a colon and a port up to 65535 in decimal is accepted, when net.ParseIP reads the
  -- address.
  pub validate_ipv4_host_port-join :
      (a : Ipv4) (port : ℕ)
      → parse_ip (addr_string a) ≡ some (some a)
      → port ≤ 65535
      → validate_ipv4_host_port parse_ip (addr_string a <> ":" <> decimal port) ≡ ok tt
  unfolding validate_ipv4_host_port validate_parts is_numeral only_ipv4 IsBelow
  validate_ipv4_host_port-join a port read fits =
      let plain = addr_string-IsBelow a in
      let number = parse_uint-decimal 65535 port fits in
      rw
        (
          split_host_port-join (addr_string a) (decimal port) plain (decimal-IsBelow port),
          filled (addr_string a) (addr_string-long a),
          read_port (decimal port) port number,
          number,
          apart 58 (addr_string a) "::" plain (λ h. omega (arith, h.0)),
          apart 58 (addr_string a) "[::]" plain (λ h. omega (arith, h.0)),
          read,
        )
        refl
