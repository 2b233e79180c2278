-- ===== src/Controller/Status/Merging.antt =====
-- What merged conditions and merged parents hold, and in which order.
use clusterip_gw.Base.{
  ◌≡◌, ◌↔◌, String, Bool, false, not, List, ◌!=◌, string_eq, keep-Member, Member-keep, Member,
  contains, IsSorted, IsOrder, sort_by-IsSorted, Member-sort_by, sort_by-Member, str_lt_asym,
  str_lt_trans, arith,
}
use clusterip_gw.Kube.{Condition, RouteParentStatus}
use clusterip_gw.Controller.{controller_name, Library}
use clusterip_gw.Controller.Status.{by_type, set_conditions, merge_conditions, remove_conditions}

by_type-IsOrder : IsOrder by_type
by_type-IsOrder = record {
  asym = λ a b. str_lt_asym a.type b.type;
  trans = λ a b c. str_lt_trans a.type b.type c.type;
}

-- Merged conditions are those that were set, in the order of their types.
pub merge_conditions_lem :
    (lib : Library) (existing desired : List Condition)
    → IsSorted by_type (merge_conditions lib existing desired)
      × ((c : Condition)
          → Member c (merge_conditions lib existing desired)
            ↔ Member c (set_conditions lib existing desired))
unfolding merge_conditions
merge_conditions_lem lib existing desired = (
  sort_by-IsSorted by_type by_type-IsOrder (set_conditions lib existing desired),
  λ c. (Member-sort_by by_type c _, sort_by-Member by_type c _),
)

-- Exactly the conditions of the other types stay.
pub Member-remove_conditions :
    (existing : List Condition) (types : List String) (c : Condition)
    → Member c (remove_conditions existing types)
      ↔ (Member c existing × (contains types c.type ≡ false))
unfolding remove_conditions
Member-remove_conditions existing types c = (
  λ m.
      let (there, kept) =
        Member-keep (λ (d : Condition). not (contains types d.type)) c existing m in
      (there, ground arith),
  λ h. keep-Member (λ (d : Condition). not (contains types d.type)) c existing h.0 (ground arith),
)

abbrev foreign : RouteParentStatus → Bool
foreign p = p.controller_name != controller_name
