-- ===== src/Controller/Status/Equality.antt =====
-- What the comparisons of statuses see.
use clusterip_gw.Base.{◌≡◌, ◌↔◌, refl, true, List, [], ◌∷◌, map, arith}
use clusterip_gw.Kube.{Condition}
use clusterip_gw.Controller.Status.{condition_equal, conditions_equal}

-- A condition without its time of transition.
abbrev pub timeless : Condition → Condition
timeless c = record c { last_transition_time = 0 }

condition_equal_iff : (a b : Condition) → (condition_equal a b ≡ true) ↔ (timeless a ≡ timeless b)
unfolding condition_equal
condition_equal_iff a b = (λ h. ground arith, λ h. ground arith)

-- Lists of conditions compare as equal exactly when they are the same but for the times.
pub conditions_equal_iff :
    (xs ys : List Condition) → (conditions_equal xs ys ≡ true) ↔ (map timeless xs ≡ map timeless ys)
unfolding conditions_equal
conditions_equal_iff [] [] = (λ h. refl, λ h. refl)
conditions_equal_iff [] (y ∷ ys) = (λ h. cc, λ h. cc)
conditions_equal_iff (x ∷ xs) [] = (λ h. cc, λ h. cc)
conditions_equal_iff (x ∷ xs) (y ∷ ys) = (
  λ h. ground (arith, condition_equal_iff x y, conditions_equal_iff xs ys),
  λ h. ground (arith, condition_equal_iff x y, conditions_equal_iff xs ys),
)
