-- ===== src/Controller/Objects.antt =====
-- What internal/controller/clustermesh_controller.go works on: the objects of the API and the clients.
-- `W` is the state of all clusters; a client acts on it, so that two names may share a cluster.
use kilo_clustermesh_operato.Base.{ℕ, Bool, Option, List, String, Text}
use kilo_clustermesh_operato.Base.Result.{Result}
use kilo_clustermesh_operato.Api.{ClusterMesh, ClusterStatus, Node}
use kilo_clustermesh_operato.Validation.Mesh.{MeshError}
use kilo_clustermesh_operato.Peer.Naming.{Platform}
use kilo_clustermesh_operato.Peer.Builder.{BuildError}
use kilo_clustermesh_operato.Peer.Reconciler.{ReconcileError}
use kilo_clustermesh_operato.Peer.Reconciler.Client.{PeerClient, ApiError}
use kilo_clustermesh_operato.Peer.Reconciler.Maps.{PeerMap}
use kilo_clustermesh_operato.Kilonode.Discovered.{Decoder}
use kilo_clustermesh_operato.Multicluster.Registry.{ClusterRegistry}
use kilo_clustermesh_operato.Controller.Requests.{Request}

-- The text of a condition: written in the source, or that of an error.
pub data Message : Type 0 where
  literal : String → Message
  error_text : MeshError → Message

-- `metav1.Condition`; the status is `True` or `False`.
pub record Condition : Type 0 where
  pub kind : String
  pub status : Bool
  pub reason : String
  pub message : Message
  pub observed_generation : ℕ

-- A `ClusterMesh` with the parts of its metadata and its status that the controller uses.
pub record MeshObject : Type 0 where
  pub mesh : ClusterMesh
  pub generation : ℕ
  pub deleting : Bool
  pub finalizers : List String
  pub clusters : List ClusterStatus
  pub conditions : List Condition

-- `client.Client` on ClusterMesh objects.
pub record MeshClient (W : Type 0) : Type 0 where
  pub get : Request → W → Result ApiError MeshObject
  pub list : W → Option (List ClusterMesh)
  pub list_in : Text → W → Option (List ClusterMesh)
  pub update : MeshObject → W → W × Option ApiError
  pub status_update : MeshObject → W → W × Option ApiError

-- `client.Client` on the peers and the nodes of a cluster.
pub record ClusterClient (W : Type 0) : Type 0 where
  pub peers : PeerClient W
  pub list_nodes : W → Option (List Node)

-- `controllerutil` and `apimeta.SetStatusCondition`.
pub record Libraries : Type 0 where
  pub contains_finalizer : String → List String → Bool
  pub add_finalizer : String → List String → List String
  pub remove_finalizer : String → List String → List String
  pub set_status_condition : Condition → List Condition → List Condition

-- `ClusterMeshReconciler`, and what else its methods call: the orders in which `range` visits a map
-- of peers and the registry, the platform and the decoder of an annotation.
pub record ClusterMeshReconciler (W : Type 0) : Type 0 where
  pub client : MeshClient W
  pub registry : ClusterRegistry (ClusterClient W)
  pub visit : PeerMap → PeerMap
  pub visit_names : List Text → List Text
  pub platform : Platform
  pub decode : Decoder
  pub libraries : Libraries

-- The errors of `reconcile`.
pub data ControllerError : Type 0 where
  fetching adding_finalizer removing_finalizer updating_on_overlap updating_status : ControllerError
  listing_nodes : Text → ControllerError
  building : Text → BuildError → ControllerError
  reconciling : Text → Text → List ReconcileError → ControllerError
