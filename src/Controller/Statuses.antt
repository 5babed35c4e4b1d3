-- ===== src/Controller/Statuses.antt =====
-- `reconcileAllClusters` of internal/controller/clustermesh_controller.go: its statuses, its flag and
-- its errors.
mod Rounds
use kilo_clustermesh_operato.Base.{
  ℕ, zero, suc, ◌+◌, ◌<◌, ◌^◌, ◌≡◌, ◌≢◌, ◌↔◌, refl, sym, ◌∙◌, ap, subst, inl, inr, ◌⊎◌, Bool, true,
  false, ◌||◌, ◌&&◌, Option, none, some, List, [], ◌∷◌, ◌++◌, Text, In, In-append, In-append_left,
  In-append_right, length, ltb, ltb_iff, arith, Bool-cases, Option-cases, some-eq-some,
}
use kilo_clustermesh_operato.Base.Result.{Result, ok, err}
use kilo_clustermesh_operato.Api.{ClusterMesh, ClusterEntry, ClusterStatus, Node, Peer}
use kilo_clustermesh_operato.Multicluster.Registry.{client_of}
use kilo_clustermesh_operato.Controller.Nodes.{Filtered, filter_nodes}
use kilo_clustermesh_operato.Controller.Nodes.Counts.{filter_nodes-Accounts}
use kilo_clustermesh_operato.Controller.Objects.{
  ClusterMeshReconciler, ClusterClient, ControllerError,
}
use kilo_clustermesh_operato.Controller.Sources.{
  Progress, is_nil, is_bootstrapping, reconcile_all_clusters,
}
use kilo_clustermesh_operato.Controller.Frame.{IsFleet}
pub use Rounds.{IsCallFailure}
use Rounds.{IsRound, AllRounds, IsExpected, status_of, both, reconcile_sources-Rounds}

-- A source that may come up by itself: it is not in the registry, or none of the nodes it lists is
-- valid, and it lists none or skips one for a transient reason.
abbrev pub IsWaiting : {W : Type 0} → ClusterMeshReconciler W → W → ClusterEntry → Type 0
IsWaiting {W} r w e =
    (client_of r.registry e.name ≡ none)
    ⊎ ((c : ClusterClient W) × (nodes : List Node) × (client_of r.registry e.name ≡ some c)
        × (c.list_nodes w ≡ some nodes)
        × ((filter_nodes nodes e).valid ≡ [])
        × ((nodes ≡ []) ⊎ (0 < (filter_nodes nodes e).transient_skipped)))

-- The status accounts for every node that the entry's cluster lists.
abbrev pub AccountsFor :
    {W : Type 0} → ClusterMeshReconciler W → W → ClusterEntry → ClusterStatus → Type 0
AccountsFor {W} r w e st =
    (c : ClusterClient W) × (nodes : List Node) × (client_of r.registry e.name ≡ some c)
    × (c.list_nodes w ≡ some nodes)
    × (st.name ≡ e.name)
    × (st.registered_peers ≡ length (filter_nodes nodes e).valid)
    × (st.registered_peers + st.skipped_nodes ≡ length nodes)

is_nil_iff : {A : Type 0} (xs : List A) → (is_nil xs ≡ true) ↔ (xs ≡ [])
is_nil_iff [] = (λ h. refl, λ h. refl)
is_nil_iff (x ∷ xs) = (λ h. cc, λ h. cc)

is_bootstrapping_iff :
    (nodes : List Node) (f : Filtered)
    → (is_bootstrapping nodes f ≡ true)
      ↔ ((f.valid ≡ []) × ((nodes ≡ []) ⊎ (0 < f.transient_skipped)))
unfolding is_bootstrapping
is_bootstrapping_iff nodes f = (
  λ h. (
    (is_nil_iff f.valid).0 (ground arith),
    elim (Bool-cases (is_nil nodes)) [
      | inl empty ↦ inl ((is_nil_iff nodes).0 empty)
      | inr full ↦ inr ((ltb_iff 0 f.transient_skipped).0 (ground arith))
    ],
  ),
  λ (none_valid, reason). elim reason [
    | inl empty ↦ rw ((is_nil_iff f.valid).1 none_valid, (is_nil_iff nodes).1 empty) refl
    | inr some_skipped ↦
        rw ((is_nil_iff f.valid).1 none_valid, (ltb_iff 0 f.transient_skipped).1 some_skipped)
          (elim (Bool-cases (is_nil nodes)) [ inl e ↦ rw e refl | inr e ↦ rw e refl ])
  ],
)

module _ {W : Type 0} (r : ClusterMeshReconciler W) (w : W) where
  round-IsWaiting :
      (e : ClusterEntry) (p : Progress) → IsRound r w e p → (p.incomplete ≡ true) ↔ IsWaiting r w e
  round-IsWaiting e p (inl (missing, same)) = rw same (λ h. inl missing, λ h. refl)
  round-IsWaiting e p (inr (c, nodes, known, listed, same)) =
      let (to, from) = is_bootstrapping_iff nodes (filter_nodes nodes e) in
      rw same (
        λ h. let (bare, reason) = to h in inr (c, nodes, known, listed, bare, reason),
        λ waits. elim waits [
          | inl missing ↦ cc (missing, known)
          | inr (d, nodes', known', listed', bare, reason) ↦
              let one : d ≡ c = some-eq-some d c (sym known' ∙ known) in
              let two =
                some-eq-some nodes' nodes (sym listed' ∙ ap (λ x. x.list_nodes w) one ∙ listed) in
              from (
                subst
                  (λ ns.
                    ((filter_nodes ns e).valid ≡ [])
                    × ((ns ≡ []) ⊎ (0 < (filter_nodes ns e).transient_skipped)))
                  two (bare, reason))
        ],
      )

  rounds-IsWaiting :
      (sources : List ClusterEntry) (p : Progress)
      → AllRounds r w sources p
      → (p.incomplete ≡ true) ↔ ((e : ClusterEntry) × In e sources × IsWaiting r w e)
  rounds-IsWaiting [] p same = rw same (λ h. cc, λ (e, i, waits). absurd i)
  rounds-IsWaiting (e ∷ es) p (here, later, round, rest, same) =
      let (to, from) = round-IsWaiting e here round in
      let (to', from') = rounds-IsWaiting es later rest in
      rw same (
        λ h. elim (Bool-cases here.incomplete) [
          | inl waits ↦ (e, inl refl, to waits)
          | inr steady ↦ let (x, i, waits) = to' (rw steady at h) in (x, inr i, waits)
        ],
        λ (x, i, waits). elim i [
          | inl first ↦ rw (from (subst (IsWaiting r w) first waits)) refl
          | inr j ↦
              rw (from' (x, j, waits))
                (elim (Bool-cases here.incomplete) [ inl b ↦ rw b refl | inr b ↦ rw b refl ])
        ],
      )

  round-Accounts :
      (e : ClusterEntry) (p : Progress) (st : ClusterStatus)
      → IsRound r w e p
      → In st p.statuses
      → AccountsFor r w e st
  round-Accounts e p st (inl (missing, same)) i = absurd (subst (λ q. In st q.statuses) same i)
  round-Accounts e p st (inr (c, nodes, known, listed, same)) i =
      elim (subst (λ q. In st q.statuses) same i) [
        | inr out ↦ absurd out
        | inl equal ↦
            rw equal (c, nodes, known, listed, refl, refl, (filter_nodes-Accounts nodes e).0)
      ]

  rounds-Accounts :
      (sources : List ClusterEntry) (p : Progress)
      → AllRounds r w sources p
      → (st : ClusterStatus) → In st p.statuses
      → (e : ClusterEntry) × In e sources × AccountsFor r w e st
  rounds-Accounts [] p same st i = absurd (subst (λ q. In st q.statuses) same i)
  rounds-Accounts (e ∷ es) p (here, later, round, rest, same) st i =
      elim (In-append st here.statuses later.statuses (subst (λ q. In st q.statuses) same i)) [
        | inl j ↦ (e, inl refl, round-Accounts e here st round j)
        | inr j ↦ let (x, k, h) = rounds-Accounts es later rest st j in (x, inr k, h)
      ]

  round-reported :
      (e : ClusterEntry) (p : Progress) (c : ClusterClient W)
      → IsRound r w e p
      → client_of r.registry e.name ≡ some c
      → (st : ClusterStatus) × In st p.statuses × AccountsFor r w e st
  round-reported e p c (inl (missing, same)) known = cc
  round-reported e p c (inr (d, nodes, known', listed, same)) known =
      let i = subst (λ q. In (status_of e nodes) q.statuses) (sym same) (inl refl) in
      (
        status_of e nodes,
        i,
        round-Accounts e p (status_of e nodes) (inr (d, nodes, known', listed, same)) i,
      )

  rounds-reported :
      (sources : List ClusterEntry) (p : Progress)
      → AllRounds r w sources p
      → (e : ClusterEntry) (c : ClusterClient W) → In e sources
      → client_of r.registry e.name ≡ some c
      → (st : ClusterStatus) × In st p.statuses × AccountsFor r w e st
  rounds-reported [] p same e c i known = absurd i
  rounds-reported (x ∷ es) p (here, later, round, rest, same) e c i known = elim i [
    | inl first ↦
        let (st, j, h) =
          round-reported e here c (subst (λ y. IsRound r w y here) (sym first) round) known in
        (
          st,
          subst (λ q. In st q.statuses) (sym same)
              (In-append_left st here.statuses later.statuses j),
          h,
        )
    | inr k ↦
        let (st, j, h) = rounds-reported es later rest e c k known in
        (
          st,
          subst (λ q. In st q.statuses) (sym same)
              (In-append_right st here.statuses later.statuses j),
          h,
        )
  ]

module _ {W : Type 0} (r : ClusterMeshReconciler W) (find : Text → W → Text → Option Peer)
    (fleet : IsFleet r find) (mesh : ClusterMesh)
    (bounds : (e : ClusterEntry) → In e mesh.spec.clusters → e.wireguard_port < 2 ^ 16)
    (w : W) where
  expected : IsExpected r (AllRounds r w mesh.spec.clusters) (reconcile_all_clusters r mesh w).1
  unfolding reconcile_all_clusters
  expected =
      reconcile_sources-Rounds r mesh find fleet bounds mesh.spec.clusters w w (λ e i. i)
        (λ n c known. refl)

  -- On separate clusters and entries with 16-bit ports, `reconcileAllClusters` only fails in a call to
  -- a cluster, a listing of nodes or a reconciliation of peers: never in building the peers.
  pub reconcile_all_clusters-IsCallFailure :
      (e : ControllerError) → (reconcile_all_clusters r mesh w).1 ≡ err e → IsCallFailure e
  reconcile_all_clusters-IsCallFailure e h =
      subst (IsExpected r (AllRounds r w mesh.spec.clusters)) h expected

  -- The statuses of a run without an error, on separate clusters and entries with 16-bit ports, count
  -- every node that was listed before the run: each status is that of an entry of the mesh, its
  -- registered peers are the nodes that `filterNodes` leaves, and with its skipped nodes they are as
  -- many as the cluster's nodes; and every entry whose cluster is in the registry has such a status.
  pub reconcile_all_clusters-statuses :
      (p : Progress)
      → (reconcile_all_clusters r mesh w).1 ≡ ok p
      → ((st : ClusterStatus)
          → In st p.statuses
          → (e : ClusterEntry) × In e mesh.spec.clusters × AccountsFor r w e st)
        × ((e : ClusterEntry) (c : ClusterClient W)
            → In e mesh.spec.clusters
            → client_of r.registry e.name ≡ some c
            → (st : ClusterStatus) × In st p.statuses × AccountsFor r w e st)
  reconcile_all_clusters-statuses p h =
      let rounds = subst (IsExpected r (AllRounds r w mesh.spec.clusters)) h expected in
      (
        rounds-Accounts r w mesh.spec.clusters p rounds,
        rounds-reported r w mesh.spec.clusters p rounds,
      )

  pub incomplete_iff :
      (p : Progress)
      → (reconcile_all_clusters r mesh w).1 ≡ ok p
      → (p.incomplete ≡ true) ↔ ((e : ClusterEntry) × In e mesh.spec.clusters × IsWaiting r w e)
  incomplete_iff p h =
      rounds-IsWaiting r w mesh.spec.clusters p
        (subst (IsExpected r (AllRounds r w mesh.spec.clusters)) h expected)
