-- ===== src/Examples/Fleet.antt =====
-- Two clusters in memory, "a" and "b", and the clients of the registry.
use kilo_clustermesh_operato.Base.{
  ◌≡◌, ◌≢◌, refl, sym, ◌∙◌, ap, subst, inl, inr, ◌⊎◌, false, Option, none, some, List, [], ◌∷◌,
  Text, codes, str_eq, str_eq_iff, if◌then◌else◌, Bool-cases, some-eq-some, get_key,
}
use text.Mathlib.Text.{◌==◌ as key_eq}
use kilo_clustermesh_operato.Base.{any, String}
use kilo_clustermesh_operato.Api.{Node, Peer}
use kilo_clustermesh_operato.Peer.Reconciler.Client.{PeerClient, IsPeerStore, ApiError, not_found}
use kilo_clustermesh_operato.Peer.Reconciler.Frame.{Keeps}
use kilo_clustermesh_operato.Multicluster.Registry.{ClusterRegistry, client_of}
use kilo_clustermesh_operato.Controller.Objects.{ClusterClient, ClusterMeshReconciler, MeshClient}
use kilo_clustermesh_operato.Controller.Frame.{IsFleet}
use kilo_clustermesh_operato.Examples.Fixtures.{ascii}
use kilo_clustermesh_operato.Examples.Store.{Server, find, server, server-IsPeerStore}

abbrev pub Fleet : Type 0
Fleet = Server × Server

-- A server as a part of the fleet.
record Part : Type 0 where
  get : Fleet → Server
  put : Server → Fleet → Fleet
  get-put : (s : Server) (w : Fleet) → get (put s w) ≡ s

abbrev at : Part → PeerClient Fleet
at part = record {
  list_all = λ w. server.list_all (part.get w);
  list_labelled = λ sel w. server.list_labelled sel (part.get w);
  create_peer = λ p w. let r = server.create_peer p (part.get w) in (part.put r.0 w, r.1);
  update_peer = λ p w. let r = server.update_peer p (part.get w) in (part.put r.0 w, r.1);
  delete_peer = λ p w. let r = server.delete_peer p (part.get w) in (part.put r.0 w, r.1);
}

inner :
    (part : Part) (r : Server × Option ApiError) (e : Option ApiError) (w w' : Fleet)
    → ◌≡◌ {A = Fleet × Option ApiError} (part.put r.0 w, r.1) (w', e)
    → ◌≡◌ {A = Server × Option ApiError} r (part.get w', e)
inner part r e w w' h =
    ap (λ s. (s, r.1)) (sym (part.get-put r.0 w)) ∙ ap (λ x. (part.get x.0, x.1)) h

at-IsPeerStore : (part : Part) → IsPeerStore (at part) (λ w. find (part.get w))
at-IsPeerStore part = record {
  named = λ w. server-IsPeerStore.named (part.get w);
  lists = λ sel w. server-IsPeerStore.lists sel (part.get w);
  lists_all = λ w. server-IsPeerStore.lists_all (part.get w);
  creates = λ p w w' h.
      server-IsPeerStore.creates p (part.get w) (part.get w')
        (inner part (server.create_peer p (part.get w)) none w w' h);
  updates = λ p w w' h.
      server-IsPeerStore.updates p (part.get w) (part.get w')
        (inner part (server.update_peer p (part.get w)) none w w' h);
  deletes = λ p w w' h.
      server-IsPeerStore.deletes p (part.get w) (part.get w')
        (inner part (server.delete_peer p (part.get w)) none w w' h);
  missing = λ p w w' h.
      server-IsPeerStore.missing p (part.get w) (part.get w')
        (inner part (server.delete_peer p (part.get w)) (some not_found) w w' h);
}

abbrev part_a : Part
part_a = record { get = λ w. w.0; put = λ s w. (s, w.1); get-put = λ s w. refl }

abbrev part_b : Part
part_b = record { get = λ w. w.1; put = λ s w. (w.0, s); get-put = λ s w. refl }

abbrev pub name_a : Text
name_a = codes "a"

abbrev pub name_b : Text
name_b = codes "b"

unfoldable pub find_in : Text → Fleet → Text → Option Peer
find_in n w k = if str_eq name_a n then find w.0 k else if str_eq name_b n then find w.1 k else none

abbrev pub client_b : Option (List Node) → ClusterClient Fleet
client_b nodes_b = record { peers = at part_b; list_nodes = λ w. nodes_b }

-- The registry of the two clusters, with what their list calls of nodes return.
abbrev pub registry_of :
    Option (List Node) → Option (List Node) → ClusterRegistry (ClusterClient Fleet)
registry_of nodes_a nodes_b = record {
  clusters =
      (name_a, record { peers = at part_a; list_nodes = λ w. nodes_a })
      ∷ (name_b, client_b nodes_b)
      ∷ [];
  local = name_a;
}

module _ (nodes_a nodes_b : Option (List Node)) where
  registered :
      (n : Text) (c : ClusterClient Fleet)
      → client_of (registry_of nodes_a nodes_b) n ≡ some c
      → ((n ≡ name_a) × (c ≡ record { peers = at part_a; list_nodes = λ w. nodes_a }))
        ⊎ ((n ≡ name_b) × (c ≡ record { peers = at part_b; list_nodes = λ w. nodes_b }))
  unfolding client_of get_key
  registered n c h = elim (Bool-cases (str_eq name_a n)) [
    | inl hit ↦ inl (sym ((str_eq_iff name_a n).0 hit), sym (some-eq-some _ c (rw hit at h)))
    | inr miss ↦ elim (Bool-cases (str_eq name_b n)) [
      | inl hit ↦
          inr (sym ((str_eq_iff name_b n).0 hit), sym (some-eq-some _ c (rw (miss, hit) at h)))
      | inr miss' ↦ cc (rw (miss, miss') at h)
    ]
  ]

at_a-store : IsPeerStore (at part_a) (find_in name_a)
unfolding find_in str_eq
at_a-store = at-IsPeerStore part_a

at_b-store : IsPeerStore (at part_b) (find_in name_b)
unfolding find_in str_eq
at_b-store = at-IsPeerStore part_b

ne_str_eq : (s t : Text) → s ≢ t → str_eq s t ≡ false
ne_str_eq s t ne = elim (Bool-cases (str_eq s t)) [
  | inl hit ↦ absurd (ne ((str_eq_iff s t).0 hit))
  | inr miss ↦ miss
]

beside_a : (m k : Text) (s s' t : Server) → name_a ≢ m → find_in m (s', t) k ≡ find_in m (s, t) k
unfolding find_in
beside_a m k s s' t ne = rw (ne_str_eq name_a m ne) refl

beside_b : (m k : Text) (s t t' : Server) → name_b ≢ m → find_in m (s, t') k ≡ find_in m (s, t) k
unfolding find_in
beside_b m k s t t' ne = rw (ne_str_eq name_b m ne) refl

a-apart : (m k : Text) (x : Option Peer) → name_a ≢ m → Keeps (at part_a) (λ w. find_in m w k ≡ x)
a-apart m k x ne = record {
  creates = λ p w h. beside_a m k w.0 (server.create_peer p w.0).0 w.1 ne ∙ h;
  updates = λ p w h. beside_a m k w.0 (server.update_peer p w.0).0 w.1 ne ∙ h;
  deletes = λ p w h. beside_a m k w.0 (server.delete_peer p w.0).0 w.1 ne ∙ h;
}

b-apart : (m k : Text) (x : Option Peer) → name_b ≢ m → Keeps (at part_b) (λ w. find_in m w k ≡ x)
b-apart m k x ne = record {
  creates = λ p w h. beside_b m k w.0 w.1 (server.create_peer p w.1).0 ne ∙ h;
  updates = λ p w h. beside_b m k w.0 w.1 (server.update_peer p w.1).0 ne ∙ h;
  deletes = λ p w h. beside_b m k w.0 w.1 (server.delete_peer p w.1).0 ne ∙ h;
}

abbrev without : String → List String → List String
without f [] = []
without f (g ∷ gs) = if key_eq f g then without f gs else g ∷ without f gs

-- A controller of the two clusters whose API of ClusterMesh objects returns one object.
abbrev pub controller_of :
    MeshClient Fleet → Option (List Node) → Option (List Node) → ClusterMeshReconciler Fleet
controller_of meshes nodes_a nodes_b = record {
  client = meshes;
  registry = registry_of nodes_a nodes_b;
  visit = λ m. m;
  visit_names = λ ns. ns;
  platform = ascii;
  decode = λ raw. none;
  libraries = record {
    contains_finalizer = λ f fs. any (key_eq f) fs;
    add_finalizer = λ f fs. f ∷ fs;
    remove_finalizer = without;
    set_status_condition = λ c cs. c ∷ cs;
  };
}

pub controller-IsFleet :
    (meshes : MeshClient Fleet) (nodes_a nodes_b : Option (List Node))
    → IsFleet (controller_of meshes nodes_a nodes_b) find_in
controller-IsFleet meshes nodes_a nodes_b = record {
  stores = λ n c known. elim (registered nodes_a nodes_b n c known) [
    | inl (e, e') ↦
        subst (λ m. IsPeerStore c.peers (find_in m)) (sym e)
          (subst (λ d. IsPeerStore d.peers (find_in name_a)) (sym e') at_a-store)
    | inr (e, e') ↦
        subst (λ m. IsPeerStore c.peers (find_in m)) (sym e)
          (subst (λ d. IsPeerStore d.peers (find_in name_b)) (sym e') at_b-store)
  ];
  apart = λ n c m k x known ne. elim (registered nodes_a nodes_b n c known) [
    | inl (e, e') ↦
        subst (λ d. Keeps d.peers (λ w. find_in m w k ≡ x)) (sym e')
          (a-apart m k x (λ h. ne (e ∙ h)))
    | inr (e, e') ↦
        subst (λ d. Keeps d.peers (λ w. find_in m w k ≡ x)) (sym e')
          (b-apart m k x (λ h. ne (e ∙ h)))
  ];
  nodes = λ n m c d x known known'. elim (registered nodes_a nodes_b m d known') [
    | inl (e, e') ↦
        subst (λ z. Keeps c.peers (λ w. z.list_nodes w ≡ x)) (sym e') (constant c nodes_a x)
    | inr (e, e') ↦
        subst (λ z. Keeps c.peers (λ w. z.list_nodes w ≡ x)) (sym e') (constant c nodes_b x)
  ];
}
  where
    constant : (c : ClusterClient Fleet) (ns x : Option (List Node)) → Keeps c.peers (λ w. ns ≡ x)
    constant c ns x = record { creates = λ p w h. h; updates = λ p w h. h; deletes = λ p w h. h }
