-- ===== src/Controller/Statuses/Rounds.antt =====
-- The rounds of `reconcileAllClusters` of internal/controller/clustermesh_controller.go, as far as
-- the nodes of the clusters determine them.
use kilo_clustermesh_operato.Base.{
  ◌<◌, ◌^◌, ◌≡◌, refl, sym, ◌∙◌, subst, inl, inr, ◌⊎◌, true, false, ◌||◌, Option, none, some, List,
  [], ◌∷◌, ◌++◌, Text, In, str_eq, length, Bool-cases, Option-cases, some-eq-some,
}
use kilo_clustermesh_operato.Base.Result.{Result, ok, err, Result-cases}
use kilo_clustermesh_operato.Api.{ClusterMesh, ClusterEntry, ClusterStatus, Node, Peer}
use kilo_clustermesh_operato.Multicluster.Registry.{client_of}
use kilo_clustermesh_operato.Peer.Reconciler.{ReconcileError, reconcile_peers}
use kilo_clustermesh_operato.Controller.Nodes.{filter_nodes}
use kilo_clustermesh_operato.Controller.Desired.{mesh_persistent_keepalive}
use kilo_clustermesh_operato.Controller.Desired.Complete.{filtered_nodes-get_peers}
use kilo_clustermesh_operato.Controller.Objects.{
  ClusterMeshReconciler, ClusterClient, ControllerError, fetching, adding_finalizer,
  removing_finalizer, updating_on_overlap, updating_status, listing_nodes, building, reconciling,
}
use kilo_clustermesh_operato.Controller.Push.{
  reconciled, push_desired, push_to_client, push_to_target, push_to_targets, push_peers_to_targets,
}
use kilo_clustermesh_operato.Controller.Sources.{
  Progress, is_bootstrapping, initial_status, reconcile_listed, reconcile_source, reconcile_sources,
}
use kilo_clustermesh_operato.Controller.Frame.{IsFleet, reconcile_source-keeps}

-- The error of a call to a cluster: a listing of nodes, or a reconciliation of peers.
abbrev pub IsCallFailure : ControllerError → Type 0
IsCallFailure (listing_nodes n) = Unit
IsCallFailure (reconciling s t es) = Unit
IsCallFailure (building n e) = ⊥
IsCallFailure fetching = ⊥
IsCallFailure adding_finalizer = ⊥
IsCallFailure removing_finalizer = ⊥
IsCallFailure updating_on_overlap = ⊥
IsCallFailure updating_status = ⊥

reconciled-IsCallFailure :
    (s t : Text) (errs : List ReconcileError) (e : ControllerError)
    → reconciled s t errs ≡ some e
    → IsCallFailure e
unfolding reconciled
reconciled-IsCallFailure s t [] e h = cc
reconciled-IsCallFailure s t (x ∷ errs) e h = subst IsCallFailure (some-eq-some _ e h) tt

-- The status of an entry whose nodes are known.
abbrev pub status_of : ClusterEntry → List Node → ClusterStatus
status_of e nodes = record {
  name = e.name;
  registered_peers = length (filter_nodes nodes e).valid;
  skipped_nodes = (filter_nodes nodes e).skipped;
}

abbrev pub both : Progress → Progress → Progress
both here later = record {
  statuses = here.statuses ++ later.statuses;
  incomplete = here.incomplete || later.incomplete;
}

module _ {W : Type 0} (r : ClusterMeshReconciler W) where
  target-IsCallFailure :
      (mesh source : Text) (desired : List Peer) (t : ClusterEntry) (w : W) (e : ControllerError)
      → (push_to_target r mesh source desired t w).1 ≡ some e
      → IsCallFailure e
  unfolding push_to_target push_to_client
  target-IsCallFailure mesh source desired t w e h = elim (Bool-cases (str_eq t.name source)) [
    | inl own ↦ cc (rw (own, push_to_target) at h)
    | inr other ↦ elim (Option-cases (client_of r.registry t.name)) [
      | inl missing ↦ cc (rw (other, missing, push_to_target) at h)
      | inr (c, known) ↦
          reconciled-IsCallFailure source t.name
            (reconcile_peers c.peers r.visit mesh source (push_desired r c desired w) w).1 e
            (rw (other, known, push_to_target) at h)
    ]
  ]

  targets-IsCallFailure :
      (mesh source : Text) (desired : List Peer) (ts : List ClusterEntry) (w : W)
      (e : ControllerError)
      → (push_to_targets r mesh source desired ts w).1 ≡ some e
      → IsCallFailure e
  unfolding push_to_targets
  targets-IsCallFailure mesh source desired [] w e h = cc
  targets-IsCallFailure mesh source desired (t ∷ ts) w e h =
      elim (Option-cases (push_to_target r mesh source desired t w).1) [
        | inr (x, failure) ↦
            target-IsCallFailure mesh source desired t w e
              (failure ∙ (rw (failure, push_to_targets) at h))
        | inl fine ↦
            targets-IsCallFailure mesh source desired ts _ e (rw (fine, push_to_targets) at h)
      ]

  -- What a round returns, from the nodes at `w`.
  abbrev pub IsRound : W → ClusterEntry → Progress → Type 0
  IsRound w e p =
      ((client_of r.registry e.name ≡ none) × (p ≡ record { statuses = []; incomplete = true }))
      ⊎ ((c : ClusterClient W) × (nodes : List Node) × (client_of r.registry e.name ≡ some c)
          × (c.list_nodes w ≡ some nodes)
          × (p ≡ record {
            statuses = status_of e nodes ∷ [];
            incomplete = is_bootstrapping nodes (filter_nodes nodes e);
          }))

  abbrev pub AllRounds : W → List ClusterEntry → Progress → Type 0
  AllRounds w [] p = p ≡ record { statuses = []; incomplete = false }
  AllRounds w (e ∷ es) p =
      (here : Progress) × (later : Progress) × IsRound w e here
      × AllRounds w es later
      × (p ≡ both here later)

  -- A result that is a failed call or has a progress as described.
  abbrev pub IsExpected : (Progress → Type 0) → Result ControllerError Progress → Type 0
  IsExpected P (ok p) = P p
  IsExpected P (err e) = IsCallFailure e

  IsExpected-map :
      (P Q : Progress → Type 0) (x : Result ControllerError Progress)
      → ((p : Progress) → P p → Q p)
      → IsExpected P x
      → IsExpected Q x
  IsExpected-map P Q (ok p) f h = f p h
  IsExpected-map P Q (err e) f h = h

  module _ (mesh : ClusterMesh) where
    reconcile_listed-IsRound :
        (source : ClusterEntry) (nodes : List Node) (w : W)
        → source.wireguard_port < 2 ^ 16
        → IsExpected
            (λ p. p ≡ record {
              statuses = status_of source nodes ∷ [];
              incomplete = is_bootstrapping nodes (filter_nodes nodes source);
            })
            (reconcile_listed r mesh source nodes w).1
    unfolding reconcile_listed push_peers_to_targets initial_status
    reconcile_listed-IsRound source nodes w bound =
        let (desired, built, same, _) =
          filtered_nodes-get_peers r.platform mesh.name source
            (mesh_persistent_keepalive mesh.spec.clusters) bound nodes in
        elim (Option-cases
          (push_to_targets r mesh.name source.name desired mesh.spec.clusters w).1) [
            | inl fine ↦ rw (built, reconcile_listed, push_peers_to_targets, fine, same) refl
            | inr (e, failure) ↦
                rw (built, reconcile_listed, push_peers_to_targets, failure)
                  (targets-IsCallFailure mesh.name source.name desired mesh.spec.clusters w e
                    failure)
          ]

    reconcile_source-IsRound :
        (source : ClusterEntry) (w : W)
        → source.wireguard_port < 2 ^ 16
        → IsExpected (IsRound w source) (reconcile_source r mesh source w).1
    unfolding reconcile_source
    reconcile_source-IsRound source w bound =
        elim (Option-cases (client_of r.registry source.name)) [
          | inl missing ↦ rw (missing, reconcile_source) (inl (missing, refl))
          | inr (c, known) ↦ elim (Option-cases (c.list_nodes w)) [
            | inl failure ↦ rw (known, failure, reconcile_source) tt
            | inr (nodes, listed) ↦
                rw (known, listed, reconcile_source)
                  (IsExpected-map _ (IsRound w source) (reconcile_listed r mesh source nodes w).1
                    (λ p same. inr (c, nodes, known, listed, same))
                    (reconcile_listed-IsRound source nodes w bound))
          ]
        ]

    -- The clusters list the same nodes.
    abbrev pub SameNodes : W → W → Type 0
    SameNodes v w =
        (n : Text) (c : ClusterClient W)
        → client_of r.registry n ≡ some c
        → c.list_nodes v ≡ c.list_nodes w

    IsRound-SameNodes :
        (v w : W) (e : ClusterEntry) (p : Progress) → SameNodes v w → IsRound v e p → IsRound w e p
    IsRound-SameNodes v w e p same (inl missing) = inl missing
    IsRound-SameNodes v w e p same (inr (c, nodes, known, listed, h)) =
        inr (c, nodes, known, sym (same e.name c known) ∙ listed, h)

    module _ (find : Text → W → Text → Option Peer) (fleet : IsFleet r find)
        (bounds : (e : ClusterEntry) → In e mesh.spec.clusters → e.wireguard_port < 2 ^ 16) where
      round-SameNodes :
          (e : ClusterEntry) (v w : W) → SameNodes v w → SameNodes (reconcile_source r mesh e v).0 w
      round-SameNodes e v w same n c known =
          reconcile_source-keeps r (λ x. c.list_nodes x ≡ c.list_nodes w) mesh
            (λ t d i k. fleet.nodes t.name n d c (c.list_nodes w) k known) e v (same n c known)

      pub reconcile_sources-Rounds :
          (sources : List ClusterEntry) (v w : W)
          → ((e : ClusterEntry) → In e sources → In e mesh.spec.clusters)
          → SameNodes v w
          → IsExpected (AllRounds w sources) (reconcile_sources r mesh sources v).1
      unfolding reconcile_sources
      reconcile_sources-Rounds [] v w member same = refl
      reconcile_sources-Rounds (e ∷ es) v w member same =
          let round = reconcile_source-IsRound e v (bounds e (member e (inl refl))) in
          let v' = (reconcile_source r mesh e v).0 in
          let rest =
            reconcile_sources-Rounds es v' w (λ x i. member x (inr i))
              (round-SameNodes e v w same) in
          elim (Result-cases (reconcile_source r mesh e v).1) [
            | inr (x, failure) ↦
                rw (failure, reconcile_sources) (subst (IsExpected (IsRound v e)) failure round)
            | inl (here, fine) ↦
                let round_at =
                  IsRound-SameNodes v w e here same (subst (IsExpected (IsRound v e)) fine round) in
                elim (Result-cases (reconcile_sources r mesh es v').1) [
                  | inr (x, failure) ↦
                      rw (fine, reconcile_sources, failure)
                        (subst (IsExpected (AllRounds w es)) failure rest)
                  | inl (later, fine') ↦
                      rw (fine, reconcile_sources, fine')
                        (
                          here,
                          later,
                          round_at,
                          subst (IsExpected (AllRounds w es)) fine' rest,
                          refl,
                        )
                ]
          ]
