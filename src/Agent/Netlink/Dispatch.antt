-- ===== src/Agent/Netlink/Dispatch.antt =====
-- A connection that a service chain takes over reaches one of its backends.
use clusterip_gw.Base.{
  ℕ, zero, suc, ◌+◌, ◌<◌, ◌≤◌, ◌%◌, Option, none, some, List, [], ◌∷◌, ◌≡◌, ◌≢◌, refl, ap, subst,
  length, nat_eq, lookup, arith,
}
use clusterip_gw.Agent.Ruleset.{BackendChain, ServiceChain}
use clusterip_gw.Agent.Netlink.{
  Expr, elements_from, service_dispatch_map_elements, service_dispatch_exprs, random,
}

-- The element of a list at an index.
pub nth : {A : Type 0} → List A → ℕ → Option A
nth [] n = none
nth (x ∷ xs) zero = some x
nth (x ∷ xs) (suc n) = nth xs n

lookup-elements_from :
    (bs : List BackendChain) (i n : ℕ)
    → n < length bs
    → i + length bs ≤ 4294967296
    → (b : BackendChain) × (nth bs n ≡ some b)
      × (lookup (elements_from i bs) (i + n) ≡ some b.chain_name)
unfolding nth lookup elements_from
lookup-elements_from [] i n less fits = ground (arith, less)
lookup-elements_from (b ∷ bs) i zero less fits =
    let here : (i % 4294967296) ≡ i + zero = omega (arith, fits) in (b, refl, ground (arith, here))
lookup-elements_from (b ∷ bs) i (suc n) less fits =
    let (d, at, found) =
      lookup-elements_from bs (suc i) n (omega (arith, less)) (omega (arith, fits)) in
    let moved : lookup (elements_from (suc i) bs) (i + suc n) ≡ some d.chain_name =
      subst (λ k. lookup (elements_from (suc i) bs) k ≡ some d.chain_name) (omega arith) found in
    let apart : (i % 4294967296) ≢ i + suc n = λ e. omega (arith, fits, e) in
    (d, at, ground (arith, moved, apart))

-- The number that the generator of a service chain draws from.
pub modulus : List Expr → Option ℕ
modulus (random n ∷ rest) = some n
modulus _ = none

-- With fewer than 2 ^ 32 backends, the generator of a service's dispatch rule draws from as many numbers as the service has
-- backends, and the dispatch map of the service sends each of them to the backend chain at that place.
pub service_dispatch_lem :
    (s : ServiceChain)
    → length s.backend_chains < 4294967296
    → (modulus (service_dispatch_exprs s) ≡ some (length s.backend_chains))
      × ((n : ℕ)
          → n < length s.backend_chains
          → (b : BackendChain) × (nth s.backend_chains n ≡ some b)
            × (lookup (service_dispatch_map_elements s) n ≡ some b.chain_name))
unfolding service_dispatch_exprs service_dispatch_map_elements modulus
service_dispatch_lem s few = (
  ap some (omega (arith, few)),
  λ n less.
      let (b, at, found) = lookup-elements_from s.backend_chains 0 n less (omega (arith, few)) in
      (
        b,
        at,
        subst (λ k. lookup (elements_from 0 s.backend_chains) k ≡ some b.chain_name) (omega arith)
            found,
      ),
)
