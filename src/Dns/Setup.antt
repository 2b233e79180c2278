-- ===== src/Dns/Setup.antt =====
-- plugin/k8s_clusterip_gw/setup.go: how parse reads the plugin's configuration, and plugin/k8s_clusterip_gw/store.go:
-- the lookup in the informer's store. `Dispenser` is the controller of caddy, with its state `C`.
pub mod Bounds
use clusterip_gw.Base.{
  ℕ, zero, suc, ◌+◌, ◌≤◌, ◌<◌, ℤ, pos, negsuc, String, Bool, true, false, Option, none, some, List,
  [], ◌∷◌, ◌==◌, ◌||◌, string_eq, if◌then◌else◌, ltb, ◌<>◌, decimal_int, quote, atoi, length,
  Result, ok, err, Error, other,
}
use clusterip_gw.Kube.{Gateway}
use clusterip_gw.Kube.Objects.{Object, gateway_object}
use clusterip_gw.Dns.{DnsLibrary, Handler, new_handler, default_zone, default_ttl}

-- `Next`, `NextBlock` and `RemainingArgs` with the state after them, `Val`, and the errors that `ArgErr` and
-- `Errf` make, the latter of the formatted text.
pub record Dispenser (C : Type 0) : Type 0 where
  pub next : C → Bool × C
  pub next_block : C → Bool × C
  pub remaining_args : C → List String × C
  pub val : C → String
  pub arg_err : C → Error
  pub errf : C → String → Error

-- The block of a property; `none` is the end of the fuel.
pub data Reading (C : Type 0) : Type 0 where
  unread : Reading C
  refused : Error → Reading C
  read : Handler → C → Reading C

module _ (lib : DnsLibrary) (err_once : Error) {C : Type 0} (d : Dispenser C) where
  unfoldable pub zones_of : Handler → List String × C → Reading C
  zones_of k ([], c) = read k c
  zones_of k (zone ∷ [], c) = read (record k { zones = lib.fqdn zone ∷ [] }) c
  zones_of k (zone ∷ z ∷ rest, c) = refused (d.arg_err c)

  unfoldable pub with_ttl : Handler → C → Result ℤ → Reading C
  with_ttl k c (err e) = refused e
  with_ttl k c (ok (negsuc n)) =
      refused (d.errf c ("ttl must be in range [0, 3600]: " <> decimal_int (negsuc n)))
  with_ttl k c (ok (pos n)) =
      if ltb 3600 n
      then refused (d.errf c ("ttl must be in range [0, 3600]: " <> decimal_int (pos n)))
      else read (record k { ttl = n }) c

  unfoldable pub ttl_of : Handler → List String × C → Reading C
  unfolding with_ttl
  ttl_of k ([], c) = refused (d.arg_err c)
  ttl_of k (text ∷ [], c) = with_ttl k c (atoi text)
  ttl_of k (text ∷ t ∷ rest, c) = refused (d.arg_err c)

  unfoldable pub property : Handler → C → Reading C
  unfolding ttl_of
  property k c =
      if d.val c == "ttl"
      then ttl_of k (d.remaining_args c)
      else refused (d.errf c ("unknown property " <> quote (d.val c)))

  unfoldable pub then_read : Reading C → (Handler → C → Reading C) → Reading C
  then_read unread rest = unread
  then_read (refused e) rest = refused e
  then_read (read k c) rest = rest k c

  unfoldable pub after_block : Handler → Bool × C → (Handler → C → Reading C) → Reading C
  unfolding property then_read
  after_block k (false, c) rest = read k c
  after_block k (true, c) rest = then_read (property k c) rest

  -- The loop over the properties of the block.
  unfoldable pub properties : ℕ → Handler → C → Reading C
  unfolding after_block
  properties zero k c = unread
  properties (suc fuel) k c = after_block k (d.next_block c) (properties fuel)

  -- The plugin may be named once in a server's block.
  unfoldable pub once : Handler → Bool × C → Reading C
  once k (true, c) = refused err_once
  once k (false, c) = read k c

  unfoldable pub directive : ℕ → Handler → Bool × C → Reading C
  unfolding zones_of properties then_read once
  directive fuel k (false, c) = read k c
  directive fuel k (true, c) =
      then_read (then_read (zones_of k (d.remaining_args c)) (properties fuel))
        (λ k c. once k (d.next c))

  unfoldable pub parse : ℕ → C → Reading C
  unfolding directive
  parse fuel c = directive fuel (new_handler lib none (default_zone ∷ []) default_ttl) (d.next c)

-- What the informer's store has for a key. A panic is none.
unfoldable pub get_by_key : Result (Option Object) → Option (Result (Option Gateway))
get_by_key (err e) = some (err e)
get_by_key (ok none) = some (ok none)
get_by_key (ok (some (gateway_object g))) = some (ok (some g))
get_by_key (ok (some _)) = none
