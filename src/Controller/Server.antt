-- ===== src/Controller/Server.antt =====
-- What the controller relies on of the API server, as far as gateways and reservations go. `Server` is
-- a view of the world and the documented behaviour of the calls, whatever else may happen in between:
-- a call that fails with another error may or may not have been carried out.
use clusterip_gw.Base.{
  String, Bool, true, false, Option, none, some, ◌≡◌, Result, ok, err, Error, is_not_found,
  not_found, already_exists, other, refl, ignore_result,
}
use clusterip_gw.Kube.{Gateway}
use clusterip_gw.Controller.{Client}

-- What `Delete` answers when the object is gone afterwards.
unfoldable pub IsGone : Result (Unit {0}) → Type 0
IsGone (ok u) = Unit
IsGone (err e) = is_not_found e ≡ true

-- An ignored result is no error exactly when the object is gone.
pub ignore_result-ok : (r : Result (Unit {0})) (u : Unit {0}) → ignore_result r ≡ ok u → IsGone r
unfolding IsGone
ignore_result-ok (ok v) u h = tt
ignore_result-ok (err (not_found m)) u h = refl
ignore_result-ok (err (already_exists m)) u h = cc
ignore_result-ok (err (other m)) u h = cc

pub record Server (W : Type 0) (client : Client W) : Type 0 where
  pub gateway_at : W → String → String → Option Gateway
  pub reserved : W → String → Bool
  pub get_gateway-world : (ns n : String) (w : W) → (client.get_gateway ns n w).1 ≡ w
  pub get_gateway-ok :
      (ns n : String) (w : W) (g : Gateway)
      → (client.get_gateway ns n w).0 ≡ ok g
      → (gateway_at w ns n ≡ some g) × (g.meta.namespace ≡ ns) × (g.meta.name ≡ n)
  pub get_gateway-not_found :
      (ns n : String) (w : W) (e : Error)
      → (client.get_gateway ns n w).0 ≡ err e
      → is_not_found e ≡ true
      → gateway_at w ns n ≡ none
  pub update_gateway-gone :
      (g : Gateway) (w : W)
      → IsGone (client.update_gateway g w).0
      → (h : Gateway)
      → gateway_at (client.update_gateway g w).1 g.meta.namespace g.meta.name ≡ some h
      → h.meta.finalizers ≡ g.meta.finalizers
  pub update_gateway-reserved :
      (g : Gateway) (w : W) (n : String) → reserved (client.update_gateway g w).1 n ≡ reserved w n
  pub delete_ip_address-gone :
      (n : String) (w : W)
      → IsGone (client.delete_ip_address n w).0
      → reserved (client.delete_ip_address n w).1 n ≡ false
  pub delete_ip_address-reserved :
      (n m : String) (w : W)
      → reserved w m ≡ false
      → reserved (client.delete_ip_address n w).1 m ≡ false
  pub delete_ip_address-gateways :
      (n ns m : String) (w : W)
      → gateway_at (client.delete_ip_address n w).1 ns m ≡ gateway_at w ns m
