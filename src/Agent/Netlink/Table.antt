-- ===== src/Agent/Netlink/Table.antt =====
-- The table that a ruleset asks for, and what nftables promises of the messages of a transaction.
use clusterip_gw.Base.{
  ℕ, suc, ◌%◌, length, String, Option, none, some, List, [], ◌∷◌, ◌++◌, ◌≡◌, refl, ap,
}
use clusterip_gw.Agent.Ruleset.{BackendChain, ServiceChain, RulesetSpec}
use clusterip_gw.Agent.Netlink.{
  payload_network, compare_address, meta_l4proto, compare_number, payload_transport, jump, random,
  lookup_map, load_address, load_port, destination_nat, elements_from, Rule,
}

-- What a table holds, in the order of its addition.
pub data Element : Type 0 where
  base_chain chain : String → Element
  dispatch_map : String → List (ℕ × String) → Element
  rule : Rule → Element

pub data Message : Type 0 where
  delete_table add_table : Message
  add_element : Element → Message

unfoldable pub or_empty : Option (List Element) → List Element
or_empty none = []
or_empty (some es) = es

-- The table after one message; none is no table.
unfoldable pub with_message : Option (List Element) → Message → Option (List Element)
unfolding or_empty
with_message t delete_table = none
with_message t add_table = some (or_empty t)
with_message none (add_element x) = none
with_message (some es) (add_element x) = some (es ++ (x ∷ []))

unfoldable pub replay : Option (List Element) → List Message → Option (List Element)
unfolding with_message
replay t [] = t
replay t (m ∷ ms) = replay (with_message t m) ms

unfoldable pub of_all : {A : Type 0} → (A → List Element) → List A → List Element
of_all f [] = []
of_all f (a ∷ rest) = f a ++ of_all f rest

-- The map of a service has the number of each backend chain, counted in 32 bits, and the chain's name.
unfoldable pub numbered : ℕ → List BackendChain → List (ℕ × String)
numbered i [] = []
numbered i (b ∷ rest) = (i % 4294967296, b.chain_name) ∷ numbered (suc i) rest

pub numbered-elements_from : (i : ℕ) (bs : List BackendChain) → elements_from i bs ≡ numbered i bs
unfolding elements_from numbered
numbered-elements_from i [] = refl
numbered-elements_from i (b ∷ rest) =
    ap (λ l. (i % 4294967296, b.chain_name) ∷ l) (numbered-elements_from (suc i) rest)

-- The chains and the map of a service.
abbrev pub service_elements : ServiceChain → List Element
service_elements s =
    (chain s.chain_name ∷ [])
    ++ (of_all (λ b. chain b.chain_name ∷ []) s.backend_chains
        ++ (dispatch_map s.dispatch_map_name (numbered 0 s.backend_chains) ∷ []))

-- The four bytes at 16 of the network header are the destination address, the protocol 6 is TCP, and the two
-- bytes at 2 of the transport header are the destination port.
abbrev pub jump_elements : String → ServiceChain → List Element
jump_elements name s =
    rule (record {
      chain = name;
      exprs =
          payload_network 16 4
          ∷ compare_address s.cluster_ip
          ∷ meta_l4proto
          ∷ compare_number 6
          ∷ payload_transport 2 2
          ∷ compare_number s.service_port
          ∷ jump s.chain_name
          ∷ [];
    })
    ∷ []

abbrev pub dispatch_elements : ServiceChain → List Element
dispatch_elements s =
    rule (record {
      chain = s.chain_name;
      exprs = random (length s.backend_chains % 4294967296) ∷ lookup_map s.dispatch_map_name ∷ [];
    })
    ∷ []

abbrev pub dnat_elements : ServiceChain → List Element
dnat_elements s =
    of_all
      (λ b.
        rule (record {
          chain = b.chain_name;
          exprs = load_address b.backend_ip ∷ load_port b.backend_port ∷ destination_nat ∷ [];
        })
        ∷ [])
      s.backend_chains

-- The whole table of a ruleset: first all chains and maps, then the rules.
unfoldable pub table_of : RulesetSpec → List Element
table_of spec =
    of_all (λ n. base_chain n ∷ []) spec.base_chains
    ++ (of_all service_elements spec.service_chains
        ++ (of_all (jump_elements "prerouting") spec.service_chains
            ++ (of_all (jump_elements "output") spec.service_chains
                ++ (of_all dispatch_elements spec.service_chains
                    ++ of_all dnat_elements spec.service_chains))))
