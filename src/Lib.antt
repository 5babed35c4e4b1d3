-- ===== src/Lib.antt =====
-- The clustermesh operator: it joins several Kubernetes clusters into a WireGuard mesh by writing
-- Kilo `Peer` objects, one per node of each cluster, into every other cluster of a `ClusterMesh`.
--
-- One reconciliation of a mesh goes through these parts. The mesh's networks are validated
-- (internal/validation/mesh.go); the nodes of each source cluster are listed and filtered
-- (internal/controller/clustermesh_controller.go, internal/validation/node.go); a peer is built of
-- every node that is left (internal/peer/builder.go, naming.go, internal/kilonode/endpoint.go); and
-- the peers are brought into each target cluster (internal/peer/reconciler.go).
-- internal/netutil/cidr.go has the arithmetic on networks that all of them use. The clients of the
-- clusters come from a registry that is built at the start (internal/multicluster/registry.go,
-- cmd/main.go), and a change of the clusters or of their secrets restarts the operator
-- (internal/restart/watcher.go). The CRD is installed before all that (internal/crd/install.go).
--
-- Files:
--   Base, Base/*: shared names, Boolean tests on numbers, lists, texts, results with errors.
--   Go, Go/*: what the program uses of the Go standard library, modelled in full: the bytewise `&` and
--     `|`, `strings`, `strconv.ParseUint`/`Itoa`, and of `net` the parsing and printing of addresses
--     and networks (IPv4 and IPv6), `IPNet.Contains`, `SplitHostPort` and `JoinHostPort`.
--   Api: api/v1alpha1/clustermesh_types.go and pkg/kilo/v1alpha1/types.go, with the fields used.
--   Netutil: internal/netutil/cidr.go (ParseCIDR is parse_cidr, CIDROverlaps is cidr_overlaps, ...).
--   Kilonode: internal/kilonode/annotations.go and endpoint.go (ResolveEndpoint is resolve_endpoint).
--     Kilonode/Discovered: discovered.go.
--   Multicluster/Registry: internal/multicluster/registry.go and client.go, with buildInitialRegistry
--     and mergeClusterEntries of cmd/main.go.
--   Restart/Watcher: internal/restart/watcher.go (Reconcile is watch).
--   Crd: internal/crd/install.go.
--   Validation/Mesh: internal/validation/mesh.go. Validation/Node: internal/validation/node.go.
--   Peer/Naming, Peer/Builder, Peer/Reconciler: the files of that name under internal/peer.
--   Controller/Nodes, Desired, Orphans, Enrich and Requests: of
--     internal/controller/clustermesh_controller.go, filterNodes; buildDesiredPeers and
--     meshPersistentKeepalive; collectLivingMeshes and sweepOrphanPeersInCluster;
--     enrichEndpointsFromDiscovered; nodeToClusterMeshRequests.
--   Controller/Objects: the objects and the clients of the controller. Push, Sources, Cleanup and
--     Reconcile: pushPeersToTargets; reconcileAllClusters; handleDeletion, cleanupStaleSourceClusters
--     and cleanupOrphanMeshPeers; reconcile with the rest of its helpers, and selectResult. Frame,
--     Settled, Swept, Deletion, Statuses and Requeue have the theorems on them.
--   Examples, Examples/*: runs on concrete inputs, with an API server in memory.
-- A Go name in mixed case becomes the same words with underscores; a loop is a function of its own,
-- named for what it does, next to the function it stands in.
--
-- State. The only state is that of the clusters, which the program reads and writes through
-- clients. A handler of the controller is a function from the state of all clusters to the next one
-- and its result; a client of any of them acts on that state (Controller/Objects), and
-- Controller/Frame says what it takes for the clusters behind different names to be separate.
-- Peer/Reconciler/Client has the client as a record of operations over any type of states, and the
-- documented behaviour of the API server as laws of a second record; a write returns the new state
-- and its error. A Go map is a list of entries with distinct keys (Peer/Reconciler/Maps), and the
-- order in which `range` visits it is a parameter.
--
-- Bounds. A text is the list of its code points; for valid UTF-8 their order is that of the bytes.
-- A uint16 or uint32 is a natural number with its bound as a hypothesis or a test; the keepalive,
-- which the CRD keeps in 0..65535, is a natural number. Fuel occurs in the standard library only: 8
-- rounds for the groups of an IPv6 address, which has 16 bytes of two per round, and 20 digits for
-- the decimal form of a 64-bit number, which has at most 20.
--
-- Parameters. SHA-256 and lower case beyond ASCII (Peer/Naming.Platform); the API servers; the
-- order of map iteration; the JSON of an annotation (Kilonode/Discovered.Decoder); the secrets, the
-- parser of a kubeconfig and the constructor of a cluster (Multicluster/Registry.Environment); the
-- sort and the digest of the watcher (Restart/Watcher.Tools); the decoded CRD and the events of its
-- wait (Crd); the finalizer helpers and SetStatusCondition (Controller/Objects.Libraries).
--
-- Not modelled: error texts (an error keeps the values in it), log lines and events, contexts and
-- deadlines (a call that is cut off is a call that fails), the resettable REST mapper and its
-- reset, which wrap a library's mapper, the decoding of the embedded CRD by a YAML library, and the
-- wiring of controllers and flags in cmd/main.go and SetupWithManager.
pub mod Base
pub mod Go
pub mod Netutil
pub mod Api
pub mod Kilonode
pub mod Validation
pub mod Peer
pub mod Restart
pub mod Crd
pub mod Multicluster
pub mod Controller
pub mod Examples
