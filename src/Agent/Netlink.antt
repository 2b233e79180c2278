-- ===== src/Agent/Netlink.antt =====
-- internal/agent/nftables/netlink.go: the messages that carry a ruleset to the kernel. `Connection` is
-- the interface `nftConn`, whose calls act on a world `W`; chains and maps are referred to by name.
pub mod Dispatch
pub mod Table
pub mod Queued
pub mod Applied
use clusterip_gw.Base.{
  ℕ, zero, suc, ◌+◌, ◌%◌, ◌^◌, String, Bool, true, false, not, Option, none, some, List, [], ◌∷◌,
  ◌++◌, if◌then◌else◌, length, M, return, throw, ◌>>=◌, ◌>>◌, Result, ok, err, Error, other,
  message, ◌<>◌,
}
use clusterip_gw.Net.{Ipv4}
use clusterip_gw.Agent.Ruleset.{BackendChain, ServiceChain, RulesetSpec}

-- The expressions of `nftables/expr` that the rules are made of. Ports are numbers, which the
-- source puts in network order.
pub data Expr : Type 0 where
  payload_network payload_transport : ℕ → ℕ → Expr
  compare_address : Ipv4 → Expr
  compare_number : ℕ → Expr
  meta_l4proto : Expr
  jump : String → Expr
  random : ℕ → Expr
  lookup_map : String → Expr
  load_address : Ipv4 → Expr
  load_port : ℕ → Expr
  destination_nat : Expr

pub record Rule : Type 0 where
  pub chain : String
  pub exprs : List Expr

pub record Connection (W : Type 0) : Type 0 where
  pub del_table : String → M W (Unit {0})
  pub add_table : String → M W (Unit {0})
  pub add_base_chain : String → String → M W (Unit {0})
  pub add_chain : String → String → M W (Unit {0})
  pub add_set : String → String → List (ℕ × String) → M W (Unit {0})
  pub add_rule : String → Rule → M W (Unit {0})
  pub flush : M W (Unit {0})

-- The protocol number is `unix.IPPROTO_TCP`.
unfoldable pub service_jump_exprs : ServiceChain → List Expr
service_jump_exprs s =
    payload_network 16 4
    ∷ compare_address s.cluster_ip
    ∷ meta_l4proto
    ∷ compare_number 6
    ∷ payload_transport 2 2
    ∷ compare_number s.service_port
    ∷ jump s.chain_name
    ∷ []

-- `uint32(len(...))`
unfoldable pub service_dispatch_exprs : ServiceChain → List Expr
service_dispatch_exprs s =
    random (length s.backend_chains % 4294967296) ∷ lookup_map s.dispatch_map_name ∷ []

unfoldable pub elements_from : ℕ → List BackendChain → List (ℕ × String)
elements_from i [] = []
elements_from i (b ∷ rest) = (i % 4294967296, b.chain_name) ∷ elements_from (suc i) rest

unfoldable pub service_dispatch_map_elements : ServiceChain → List (ℕ × String)
service_dispatch_map_elements s = elements_from 0 s.backend_chains

unfoldable pub backend_dnat_exprs : BackendChain → List Expr
backend_dnat_exprs b = load_address b.backend_ip ∷ load_port b.backend_port ∷ destination_nat ∷ []

-- A loop of calls that ends at the first error.
unfoldable pub for_each : {W A : Type 0} → (A → M W (Unit {0})) → List A → M W (Unit {0})
for_each f [] = return tt
for_each f (x ∷ rest) = do f x; for_each f rest

module _ {W : Type 0} (c : Connection W) where
  unfoldable pub add_service : String → ServiceChain → M W (Unit {0})
  add_service table s = do
    c.add_chain table s.chain_name
    for_each (λ b. c.add_chain table b.chain_name) s.backend_chains
    c.add_set table s.dispatch_map_name (service_dispatch_map_elements s)

  unfoldable pub queue_ruleset : RulesetSpec → Bool → M W (Unit {0})
  queue_ruleset spec delete_table = do
    (if delete_table then c.del_table spec.table_name else return tt)
    c.add_table spec.table_name
    for_each (c.add_base_chain spec.table_name) spec.base_chains
    for_each (add_service spec.table_name) spec.service_chains
    for_each
        (λ s.
          c.add_rule spec.table_name
            (record { chain = "prerouting"; exprs = service_jump_exprs s }))
        spec.service_chains
    for_each
        (λ s.
          c.add_rule spec.table_name (record { chain = "output"; exprs = service_jump_exprs s }))
        spec.service_chains
    for_each
        (λ s.
          c.add_rule spec.table_name
            (record { chain = s.chain_name; exprs = service_dispatch_exprs s }))
        spec.service_chains
    for_each
        (λ s.
          for_each
            (λ b.
              c.add_rule spec.table_name
                (record { chain = b.chain_name; exprs = backend_dnat_exprs b }))
            s.backend_chains)
        spec.service_chains

-- `context_error` is `ctx.Err()`, `connect` is `connFactory.New()`, and `is_table_missing` are the tests
-- of isTableMissingError by `errors.Is`, which sees through the wrapping of an error by another text. The texts are not kept.
module _ {W : Type 0} (context_error : M W (Unit {0})) (connect : M W (Connection W))
    (is_table_missing : Error → Bool) where
  unfoldable pub apply_once : RulesetSpec → Bool → M W (Unit {0})
  apply_once spec delete_table = do
    context_error
    c ← connect
    queue_ruleset c spec delete_table
    context_error
    c.flush

  -- A missing table cannot be deleted: without the deletion, the ruleset is applied once more.
  retry : RulesetSpec → Result (Unit {0}) × W → Result (Unit {0}) × W
  retry spec (ok u, w) = (ok u, w)
  retry spec (err e, w) =
      let again = apply_once spec false w in if is_table_missing e then again else (err e, w)

  unfoldable pub apply : RulesetSpec → M W (Unit {0})
  unfolding retry
  apply spec = do context_error; λ w. retry spec (apply_once spec true w)
