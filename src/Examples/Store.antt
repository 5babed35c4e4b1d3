-- ===== src/Examples/Store.antt =====
-- A cluster's API server in memory, for the runs: its state is a map of peers, a create of a name
-- that is taken fails, and so do an update and a delete of a name that is not there.
use kilo_clustermesh_operato.Base.{
  ◌≡◌, ◌↔◌, refl, sym, subst, ◌∙◌, ap, inl, inr, true, Option, none, some, List, [], ◌∷◌, String,
  if◌then◌else◌, Text, str_eq, str_eq_iff, In, AllPairs, arith, Bool-cases, Option-cases,
  some-eq-some,
}
use kilo_clustermesh_operato.Api.{Peer}
use kilo_clustermesh_operato.Peer.Reconciler.Client.{
  PeerClient, IsPeerStore, ApiError, not_found, failed, matches,
}
use kilo_clustermesh_operato.Peer.Reconciler.Maps.{
  PeerMap, lookup_peer, set_peer, build_map, KeyDiffers, IsMap, build_map-IsMap, set_peer-IsMap,
  lookup-set_peer, lookup-In, In-lookup,
}

unfoldable pub remove_peer : Text → PeerMap → PeerMap
remove_peer n [] = []
remove_peer n ((k, p) ∷ m) =
    let rest = remove_peer n m in if str_eq k n then rest else (k, p) ∷ rest

lookup-remove_peer :
    (n k : Text) (m : PeerMap)
    → lookup_peer k (remove_peer n m) ≡ (if str_eq n k then none else lookup_peer k m)
unfolding lookup_peer remove_peer
lookup-remove_peer n k [] = ground arith
lookup-remove_peer n k ((j, q) ∷ m) =
    ground (arith, str_eq_iff j n, str_eq_iff n k, str_eq_iff j k, lookup-remove_peer n k m)

In-remove_peer : (n : Text) (m : PeerMap) (e : Text × Peer) → In e (remove_peer n m) → In e m
unfolding remove_peer
In-remove_peer n [] e i = absurd i
In-remove_peer n ((j, q) ∷ m) e i = elim (Bool-cases (str_eq j n)) [
  | inl hit ↦ inr (In-remove_peer n m e (rw (hit, remove_peer) at i))
  | inr miss ↦ elim (rw (miss, remove_peer) at i) [
    | inl same ↦ inl same
    | inr k ↦ inr (In-remove_peer n m e k)
  ]
]

remove_peer-distinct :
    (n : Text) (m : PeerMap) → AllPairs KeyDiffers m → AllPairs KeyDiffers (remove_peer n m)
unfolding remove_peer
remove_peer-distinct n [] d = tt
remove_peer-distinct n ((j, q) ∷ m) d = elim (Bool-cases (str_eq j n)) [
  | inl hit ↦ rw hit (remove_peer-distinct n m d.1)
  | inr miss ↦ rw miss ((λ e i. d.0 e (In-remove_peer n m e i)), remove_peer-distinct n m d.1)
]

pub remove_peer-IsMap : (n : Text) (m : PeerMap) → IsMap m → IsMap (remove_peer n m)
remove_peer-IsMap n m v = record {
  distinct = remove_peer-distinct n m v.distinct;
  named = λ e i. v.named e (In-remove_peer n m e i);
}

-- The peers whose labels a selector matches.
unfoldable pub selected : List (String × Text) → PeerMap → List Peer
selected sel [] = []
selected sel ((n, p) ∷ m) =
    let rest = selected sel m in if matches sel p.labels then p ∷ rest else rest

selected_iff :
    (sel : List (String × Text)) (m : PeerMap) (p : Peer)
    → ((e : Text × Peer) → In e m → e.0 ≡ e.1.name)
    → In p (selected sel m) ↔ (In (p.name, p) m × (matches sel p.labels ≡ true))
unfolding selected
selected_iff sel [] p named = (λ i. absurd i, λ (i, h). i)
selected_iff sel ((n, q) ∷ m) p named =
    let (to, from) = selected_iff sel m p (λ e i. named e (inr i)) in
    let key = named (n, q) (inl refl) in
    elim (Bool-cases (matches sel q.labels)) [
      | inl h ↦ rw h (
        λ i. elim i [
          | inl same ↦
              (inl (rw same (ap (λ x. (x, q)) (sym key))), ap (λ x. matches sel x.labels) same ∙ h)
          | inr j ↦ let (k, l) = to j in (inr k, l)
        ],
        λ (i, l). elim i [ inl same ↦ inl (ap (λ e. e.1) same) | inr j ↦ inr (from (j, l)) ],
      )
      | inr h ↦ rw h (
        λ i. let (k, l) = to i in (inr k, l),
        λ (i, l). elim i [
          | inl same ↦ cc (ap (λ e. matches sel e.1.labels) same, l, h)
          | inr j ↦ from (j, l)
        ],
      )
    ]

abbrev pub Server : Type 0
Server = (m : PeerMap) × IsMap m

abbrev pub find : Server → Text → Option Peer
find (m, v) n = lookup_peer n m

abbrev serve_list : List (String × Text) → Server → Option (List Peer)
serve_list sel (m, v) = some (selected sel m)

unfoldable pub serve_create : Peer → Server → Server × Option ApiError
serve_create p (m, v) = elim (lookup_peer p.name m) [
  | some q ↦ ((m, v), some failed)
  | none ↦ ((set_peer p.name p m, set_peer-IsMap p m v), none)
]

unfoldable pub serve_update : Peer → Server → Server × Option ApiError
serve_update p (m, v) = elim (lookup_peer p.name m) [
  | none ↦ ((m, v), some not_found)
  | some q ↦ ((set_peer p.name p m, set_peer-IsMap p m v), none)
]

unfoldable pub serve_delete : Peer → Server → Server × Option ApiError
serve_delete p (m, v) = elim (lookup_peer p.name m) [
  | none ↦ ((m, v), some not_found)
  | some q ↦ ((remove_peer p.name m, remove_peer-IsMap p.name m v), none)
]

abbrev pub server : PeerClient Server
server = record {
  list_all = serve_list [];
  list_labelled = serve_list;
  create_peer = serve_create;
  update_peer = serve_update;
  delete_peer = serve_delete;
}

create_law :
    (p : Peer) (s s' : Server)
    → serve_create p s ≡ (s', none)
    → (n : Text) → find s' n ≡ (if str_eq p.name n then some p else find s n)
unfolding serve_create
create_law p (m, v) s' e n = elim (Option-cases (lookup_peer p.name m)) [
  | inr (q, h) ↦ cc (ap (λ r. r.1) (rw (h, serve_create) at e))
  | inl h ↦ ap (λ r. find r.0 n) (sym (rw (h, serve_create) at e)) ∙ lookup-set_peer p.name n p m
]

update_law :
    (p : Peer) (s s' : Server)
    → serve_update p s ≡ (s', none)
    → (n : Text) → find s' n ≡ (if str_eq p.name n then some p else find s n)
unfolding serve_update
update_law p (m, v) s' e n = elim (Option-cases (lookup_peer p.name m)) [
  | inl h ↦ cc (ap (λ r. r.1) (rw (h, serve_update) at e))
  | inr (q, h) ↦
      ap (λ r. find r.0 n) (sym (rw (h, serve_update) at e)) ∙ lookup-set_peer p.name n p m
]

delete_law :
    (p : Peer) (s s' : Server)
    → serve_delete p s ≡ (s', none)
    → (n : Text) → find s' n ≡ (if str_eq p.name n then none else find s n)
unfolding serve_delete
delete_law p (m, v) s' e n = elim (Option-cases (lookup_peer p.name m)) [
  | inl h ↦ cc (ap (λ r. r.1) (rw (h, serve_delete) at e))
  | inr (q, h) ↦
      ap (λ r. find r.0 n) (sym (rw (h, serve_delete) at e)) ∙ lookup-remove_peer p.name n m
]

missing_law :
    (p : Peer) (s s' : Server)
    → serve_delete p s ≡ (s', some not_found)
    → (find s p.name ≡ none) × ((n : Text) → find s' n ≡ find s n)
unfolding serve_delete
missing_law p (m, v) s' e = elim (Option-cases (lookup_peer p.name m)) [
  | inl h ↦ (h, λ n. ap (λ r. find r.0 n) (sym (rw (h, serve_delete) at e)))
  | inr (q, h) ↦ cc (ap (λ r. r.1) (rw (h, serve_delete) at e))
]

lists_all_law :
    (s : Server) (ps : List Peer)
    → serve_list [] s ≡ some ps
    → (p : Peer) → In p ps ↔ (find s p.name ≡ some p)
unfolding matches
lists_all_law (m, v) ps e p =
    let (to, from) = selected_iff [] m p v.named in
    let same = some-eq-some (selected [] m) ps e in
    (
      λ i. In-lookup p.name p m v.distinct (to (subst (In p) (sym same) i)).0,
      λ h. subst (In p) same (from (lookup-In p.name p m h, refl)),
    )

pub server-IsPeerStore : IsPeerStore server find
server-IsPeerStore = record {
  named = λ (m, v) n p e. sym (v.named (n, p) (lookup-In n p m e));
  lists = λ sel (m, v) ps e p.
      let (to, from) = selected_iff sel m p v.named in
      let same = some-eq-some (selected sel m) ps e in
      (
        λ i. let (j, l) = to (subst (In p) (sym same) i) in (In-lookup p.name p m v.distinct j, l),
        λ (h, l). subst (In p) same (from (lookup-In p.name p m h, l)),
      );
  creates = create_law;
  updates = update_law;
  lists_all = lists_all_law;
  deletes = delete_law;
  missing = missing_law;
}

-- A server that holds the given peers.
abbrev pub server_of : List Peer → Server
server_of ps = (build_map ps, build_map-IsMap ps)
