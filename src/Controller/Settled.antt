-- ===== src/Controller/Settled.antt =====
-- `pushPeersToTargets` of internal/controller/clustermesh_controller.go: the targets after a push
-- without an error.
use kilo_clustermesh_operato.Base.{◌≡◌, ◌≢◌, refl, Option, none, some, List, [], ◌∷◌, Text, In}
use kilo_clustermesh_operato.Api.{ClusterEntry, Peer}
use kilo_clustermesh_operato.Multicluster.Registry.{client_of}
use kilo_clustermesh_operato.Peer.Naming.{labels}
use kilo_clustermesh_operato.Peer.Reconciler.{ReconcileError}
use kilo_clustermesh_operato.Peer.Reconciler.Client.{IsPeerStore}
use kilo_clustermesh_operato.Peer.Reconciler.Converge.{VisitsAll}
use kilo_clustermesh_operato.Peer.Reconciler.Settled.{Settled}
use kilo_clustermesh_operato.Peer.Reconciler.Keys.{KeyIsFree}
use kilo_clustermesh_operato.Controller.Objects.{ClusterMeshReconciler, ClusterClient}
use kilo_clustermesh_operato.Controller.Push.{reconciled, push_desired}
use kilo_clustermesh_operato.Controller.Frame.{IsFleet}

pub reconciled-none :
    (source target : Text) (errs : List ReconcileError)
    → reconciled source target errs ≡ none
    → errs ≡ []
unfolding reconciled
reconciled-none source target [] e = refl
reconciled-none source target (x ∷ errs) e = cc

module _ {W : Type 0} (r : ClusterMeshReconciler W) (find : Text → W → Text → Option Peer)
    (fleet : IsFleet r find) (visits : VisitsAll r.visit) (mesh source : Text) (desired : List Peer)
    (t : ClusterEntry) (c : ClusterClient W) (other : t.name ≢ source)
    (known : client_of r.registry t.name ≡ some c) where
  abbrev target_store : IsPeerStore c.peers (find t.name)
  target_store = fleet.stores t.name c known

  -- What the target should hold.
  abbrev wanted : W → List Peer
  wanted w = push_desired r c desired w

  abbrev Free : W → Type 0
  Free w = (d : Peer) → In d (wanted w) → KeyIsFree c.peers (find t.name) target_store w d

  abbrev Done : W → W → Type 0
  Done w w' = Settled c.peers (find t.name) target_store (labels mesh source) (wanted w) w'

  -- The target looks the same.
  abbrev Same : W → W → Type 0
  Same w w' = ((k : Text) → find t.name w' k ≡ find t.name w k) × (c.list_nodes w' ≡ c.list_nodes w)
