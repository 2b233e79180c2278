-- ===== src/Controller/Slices/Synced.antt =====
-- What a synchronisation of slices leaves on the server.
use clusterip_gw.Base.{◌≡◌, String, Option, some, none, string_eq}
use clusterip_gw.Kube.{EndpointSlice}
use clusterip_gw.Controller.{Client}
use clusterip_gw.Controller.Slices.{Semantic}
use clusterip_gw.Controller.Slices.Stored.{SliceServer, IsReflexive, Outcome}

module _ {W : Type 0} (client : Client W) (sv : SliceServer W client) (same : Semantic)
    (r : IsReflexive same) (ns : String) where
  -- What creating the slices that are left makes of a name.
  abbrev Created : Option EndpointSlice → Option EndpointSlice → Option EndpointSlice → Type 0
  Created none before after = after ≡ before
  Created (some d) before after = Outcome same (some d) after
