-- ===== src/Dns/Setup/Bounds.antt =====
-- That reading the configuration ends, and within which bounds its result is.
use clusterip_gw.Base.{
  ℕ, zero, suc, ◌≤◌, ◌<◌, ℤ, pos, negsuc, String, Bool, true, false, none, List, [], ◌∷◌, ◌≡◌, refl,
  inl, inr, Bool-cases, ltb, ◌==◌, nat_eq, string_eq, if_both, atoi, Result, ok, err, Error, arith,
}
use clusterip_gw.Dns.{DnsLibrary, Handler, new_handler, default_zone, default_ttl}
use clusterip_gw.Dns.Setup.{
  Dispenser, Reading, unread, refused, read, zones_of, with_ttl, ttl_of, property, then_read,
  after_block, properties, once, directive, parse,
}

-- `left` counts the tokens behind the cursor. Each property takes one, and nothing gives one back.
pub record DispenserLaws {C : Type 0} (d : Dispenser C) : Type 0 where
  pub left : C → ℕ
  pub next_block-less : (c : C) → (d.next_block c).0 ≡ true → left (d.next_block c).1 < left c
  pub next_block-le : (c : C) → left (d.next_block c).1 ≤ left c
  pub remaining_args-le : (c : C) → left (d.remaining_args c).1 ≤ left c
  pub next-le : (c : C) → left (d.next c).1 ≤ left c

module _ (lib : DnsLibrary) (err_once : Error) {C : Type 0} (d : Dispenser C)
    (laws : DispenserLaws d) where
  -- A time to live of at most an hour, and one zone, which is fully qualified.
  pub record IsBounded (k : Handler) : Type 0 where
    pub ttl_le : k.ttl ≤ 3600
    pub zone : String
    pub zones_are : k.zones ≡ lib.fqdn zone ∷ []

  -- The reading ended, in an error or with such a handler, in front of at most `n` tokens.
  pub Ends : ℕ → Reading C → Type 0
  Ends n unread = ⊥
  Ends n (refused e) = Unit
  Ends n (read k c) = IsBounded k × (laws.left c ≤ n)

  zones_of-Ends :
      (n : ℕ) (k : Handler) (x : List String × C)
      → IsBounded k
      → laws.left x.1 ≤ n
      → Ends n (zones_of lib err_once d k x)
  unfolding zones_of Ends
  zones_of-Ends n k ([], c) h l = (h, l)
  zones_of-Ends n k (z ∷ [], c) h l = (record { ttl_le = h.ttl_le; zone = z; zones_are = refl }, l)
  zones_of-Ends n k (z ∷ y ∷ rest, c) h l = tt

  with_ttl-Ends :
      (n : ℕ) (k : Handler) (c : C) (r : Result ℤ)
      → IsBounded k
      → laws.left c ≤ n
      → Ends n (with_ttl lib err_once d k c r)
  unfolding with_ttl Ends
  with_ttl-Ends n k c (err e) h l = tt
  with_ttl-Ends n k c (ok (negsuc m)) h l = tt
  with_ttl-Ends n k c (ok (pos m)) h l = elim (Bool-cases (ltb 3600 m)) [
    | inl e ↦ rw e tt
    | inr e ↦
        rw e (record { ttl_le = ground (arith, e); zone = h.zone; zones_are = h.zones_are }, l)
  ]

  ttl_of-Ends :
      (n : ℕ) (k : Handler) (x : List String × C)
      → IsBounded k
      → laws.left x.1 ≤ n
      → Ends n (ttl_of lib err_once d k x)
  unfolding ttl_of Ends
  ttl_of-Ends n k ([], c) h l = tt
  ttl_of-Ends n k (t ∷ [], c) h l = with_ttl-Ends n k c (atoi t) h l
  ttl_of-Ends n k (t ∷ y ∷ rest, c) h l = tt

  property-Ends :
      (n : ℕ) (k : Handler) (c : C)
      → IsBounded k
      → laws.left c ≤ n
      → Ends n (property lib err_once d k c)
  unfolding property Ends
  property-Ends n k c h l =
      if_both (Ends n) (d.val c == "ttl") _ _
        (ttl_of-Ends n k (d.remaining_args c) h (omega (arith, l, laws.remaining_args-le c))) tt

  then_read-Ends :
      (n : ℕ) (r : Reading C) (rest : Handler → C → Reading C)
      → Ends n r
      → ((k : Handler) (c : C) → IsBounded k → laws.left c ≤ n → Ends n (rest k c))
      → Ends n (then_read lib err_once d r rest)
  unfolding then_read Ends
  then_read-Ends n unread rest h next = h
  then_read-Ends n (refused e) rest h next = tt
  then_read-Ends n (read k c) rest (h, l) next = next k c h l

  Ends-more : (n m : ℕ) (r : Reading C) → n ≤ m → Ends n r → Ends m r
  unfolding Ends
  Ends-more n m unread le h = h
  Ends-more n m (refused e) le h = tt
  Ends-more n m (read k c) le (h, l) = (h, omega (arith, le, l))

  after_block-Ends :
      (n : ℕ) (k : Handler) (b : Bool) (c : C) (rest : Handler → C → Reading C)
      → IsBounded k
      → (b ≡ true → laws.left c < n)
      → laws.left c ≤ n
      → ((m : ℕ) (k : Handler) (c : C) → m < n → IsBounded k → laws.left c ≤ m → Ends m (rest k c))
      → Ends n (after_block lib err_once d k (b, c) rest)
  unfolding after_block Ends
  after_block-Ends n k false c rest h less le next = (h, le)
  after_block-Ends n k true c rest h less le next =
      let m = laws.left c in
      Ends-more m n _ le (
        then_read-Ends m (property lib err_once d k c) rest (property-Ends m k c h (omega arith))
          (λ k c h l. next m k c (less refl) h l))

  properties-Ends :
      (fuel : ℕ) (n : ℕ) (k : Handler) (c : C)
      → IsBounded k
      → laws.left c ≤ n
      → n < fuel
      → Ends n (properties lib err_once d fuel k c)
  unfolding properties
  properties-Ends zero n k c h l enough = absurd (omega (arith, enough))
  properties-Ends (suc fuel) n k c h l enough =
      after_block-Ends n k (d.next_block c).0 (d.next_block c).1 (properties lib err_once d fuel) h
        (λ e. omega (arith, l, laws.next_block-less c e)) (omega (arith, l, laws.next_block-le c))
        (λ m k c less h l. properties-Ends fuel m k c h l (omega (arith, less, enough)))

  once-Ends :
      (n : ℕ) (k : Handler) (x : Bool × C)
      → IsBounded k
      → laws.left x.1 ≤ n
      → Ends n (once lib err_once d k x)
  unfolding once Ends
  once-Ends n k (true, c) h l = tt
  once-Ends n k (false, c) h l = (h, l)

  directive-Ends :
      (fuel n : ℕ) (k : Handler) (x : Bool × C)
      → IsBounded k
      → laws.left x.1 ≤ n
      → n < fuel
      → Ends n (directive lib err_once d fuel k x)
  unfolding directive Ends
  directive-Ends fuel n k (false, c) h l enough = (h, l)
  directive-Ends fuel n k (true, c) h l enough =
      then_read-Ends n
        (then_read lib err_once d (zones_of lib err_once d k (d.remaining_args c))
          (properties lib err_once d fuel))
        _
        (then_read-Ends n (zones_of lib err_once d k (d.remaining_args c))
          (properties lib err_once d fuel)
          (zones_of-Ends n k (d.remaining_args c) h (omega (arith, l, laws.remaining_args-le c)))
          (λ k c h l. properties-Ends fuel n k c h l enough))
        (λ k c h l. once-Ends n k (d.next c) h (omega (arith, l, laws.next-le c)))

  -- With more fuel than there are tokens, the reading of the configuration ends, in an error or with a handler of one
  -- fully qualified zone and a time to live of at most 3600 seconds.
  pub parse-Ends :
      (fuel : ℕ) (c : C) → laws.left c < fuel → Ends (laws.left c) (parse lib err_once d fuel c)
  unfolding parse new_handler nat_eq
  parse-Ends fuel c enough =
      directive-Ends fuel (laws.left c) (new_handler lib none (default_zone ∷ []) default_ttl)
        (d.next c) (record { ttl_le = omega arith; zone = default_zone; zones_are = refl })
        (laws.next-le c) enough
