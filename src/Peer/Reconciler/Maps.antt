-- ===== src/Peer/Reconciler/Maps.antt =====
-- Go's `map[string]*Peer` as a list of entries with distinct keys.
use kilo_clustermesh_operato.Base.{
  ◌≡◌, ◌≢◌, refl, sym, ◌∙◌, ap, inl, inr, ◌⊎◌, Option, none, some, List, [], ◌∷◌, if◌then◌else◌,
  ne_of_str_eq-false, Text, In, AllPairs, str_eq, str_eq_iff, str_eq_refl, some-eq-some, arith,
  Bool-cases,
}
use kilo_clustermesh_operato.Api.{Peer}

abbrev pub PeerMap : Type 0
PeerMap = List (Text × Peer)

unfoldable pub lookup_peer : Text → PeerMap → Option Peer
lookup_peer n [] = none
lookup_peer n ((k, p) ∷ m) = if str_eq k n then some p else lookup_peer n m

-- `m[n] = p`
unfoldable pub set_peer : Text → Peer → PeerMap → PeerMap
set_peer n p [] = (n, p) ∷ []
set_peer n p ((k, q) ∷ m) = if str_eq k n then (n, p) ∷ m else (k, q) ∷ set_peer n p m

unfoldable pub add_all : PeerMap → List Peer → PeerMap
unfolding set_peer
add_all m [] = m
add_all m (p ∷ ps) = add_all (set_peer p.name p m) ps

-- `buildDesiredMap`, `buildExistingMap`: a later peer replaces an earlier one of the same name.
unfoldable pub build_map : List Peer → PeerMap
unfolding add_all
build_map ps = add_all [] ps

pub lookup-set_peer :
    (n k : Text) (p : Peer) (m : PeerMap)
    → lookup_peer k (set_peer n p m) ≡ (if str_eq n k then some p else lookup_peer k m)
unfolding lookup_peer set_peer
lookup-set_peer n k p [] = refl
lookup-set_peer n k p ((j, q) ∷ m) =
    ground (arith, str_eq_iff j n, str_eq_iff n k, str_eq_iff j k, lookup-set_peer n k p m)

abbrev pub KeyDiffers : Text × Peer → Text × Peer → Type 0
KeyDiffers a b = a.0 ≢ b.0

-- A map has each key once, and keeps each peer under its name.
pub record IsMap (m : PeerMap) : Type 0 where
  pub distinct : AllPairs KeyDiffers m
  pub named : (e : Text × Peer) → In e m → e.0 ≡ e.1.name

pub In-set_peer :
    (n : Text) (p : Peer) (m : PeerMap) (e : Text × Peer)
    → In e (set_peer n p m)
    → (e ≡ (n, p)) ⊎ In e m
unfolding set_peer
In-set_peer n p [] e h = elim h [ inl s ↦ inl s | inr f ↦ inr f ]
In-set_peer n p ((j, q) ∷ m) e h = elim (Bool-cases (str_eq j n)) [
  | inl hit ↦ elim (rw (hit, set_peer) at h) [ inl s ↦ inl s | inr later ↦ inr (inr later) ]
  | inr miss ↦ elim (rw (miss, set_peer) at h) [
    | inl s ↦ inr (inl s)
    | inr later ↦ elim (In-set_peer n p m e later) [ inl s ↦ inl s | inr t ↦ inr (inr t) ]
  ]
]

set_peer-distinct :
    (n : Text) (p : Peer) (m : PeerMap)
    → AllPairs KeyDiffers m
    → AllPairs KeyDiffers (set_peer n p m)
unfolding set_peer
set_peer-distinct n p [] h = (λ e m. absurd m, tt)
set_peer-distinct n p ((j, q) ∷ m) h = elim (Bool-cases (str_eq j n)) [
  | inl hit ↦ let same = (str_eq_iff j n).0 hit in rw hit ((λ e i k. h.0 e i (same ∙ k)), h.1)
  | inr miss ↦ rw miss (
    (λ e i. elim (In-set_peer n p m e i) [
      | inl new ↦ λ k. ne_of_str_eq-false j n miss (k ∙ ap (λ x. x.0) new)
      | inr old ↦ h.0 e old
    ]),
    set_peer-distinct n p m h.1,
  )
]

pub set_peer-IsMap : (p : Peer) (m : PeerMap) → IsMap m → IsMap (set_peer p.name p m)
set_peer-IsMap p m v = record {
  distinct = set_peer-distinct p.name p m v.distinct;
  named = λ e i. elim (In-set_peer p.name p m e i) [ inl new ↦ rw new | inr old ↦ v.named e old ];
}

add_all-IsMap : (m : PeerMap) (ps : List Peer) → IsMap m → IsMap (add_all m ps)
unfolding add_all
add_all-IsMap m [] v = v
add_all-IsMap m (p ∷ ps) v = add_all-IsMap (set_peer p.name p m) ps (set_peer-IsMap p m v)

pub build_map-IsMap : (ps : List Peer) → IsMap (build_map ps)
unfolding build_map
build_map-IsMap ps = add_all-IsMap [] ps (record { distinct = tt; named = λ e i. absurd i })

pub lookup-In : (n : Text) (p : Peer) (m : PeerMap) → lookup_peer n m ≡ some p → In (n, p) m
unfolding lookup_peer
lookup-In n p [] e = cc
lookup-In n p ((j, q) ∷ m) e = elim (Bool-cases (str_eq j n)) [
  | inl hit ↦ inl (ground (arith, str_eq_iff j n))
  | inr miss ↦ inr (lookup-In n p m (rw (miss, lookup_peer) at e))
]

pub In-lookup :
    (n : Text) (p : Peer) (m : PeerMap)
    → AllPairs KeyDiffers m
    → In (n, p) m
    → lookup_peer n m ≡ some p
unfolding lookup_peer
In-lookup n p [] h i = absurd i
In-lookup n p ((j, q) ∷ m) h (inl e) = ground (arith, str_eq_iff j n)
In-lookup n p ((j, q) ∷ m) h (inr i) = elim (Bool-cases (str_eq j n)) [
  | inl hit ↦ absurd (h.0 (n, p) i ((str_eq_iff j n).0 hit))
  | inr miss ↦ rw miss (In-lookup n p m h.1 i)
]

-- What a lookup finds was in the map or in the list.
lookup-add_all :
    (n : Text) (q : Peer) (m : PeerMap) (ps : List Peer)
    → lookup_peer n (add_all m ps) ≡ some q
    → (lookup_peer n m ≡ some q) ⊎ (In q ps × (q.name ≡ n))
unfolding add_all
lookup-add_all n q m [] e = inl e
lookup-add_all n q m (p ∷ ps) e = elim (lookup-add_all n q (set_peer p.name p m) ps e) [
  | inr (i, k) ↦ inr (inr i, k)
  | inl h ↦ elim (Bool-cases (str_eq p.name n)) [
    | inl hit ↦
        let same = some-eq-some p q (ground (arith, lookup-set_peer p.name n p m)) in
        inr (inl (sym same), ap (λ x. x.name) (sym same) ∙ (str_eq_iff p.name n).0 hit)
    | inr miss ↦ inl (ground (arith, lookup-set_peer p.name n p m))
  ]
]

lookup-nil : (n : Text) → lookup_peer n [] ≡ none
unfolding lookup_peer
lookup-nil n = refl

pub lookup-build_map :
    (n : Text) (q : Peer) (ps : List Peer)
    → lookup_peer n (build_map ps) ≡ some q
    → In q ps × (q.name ≡ n)
unfolding build_map
lookup-build_map n q ps e = elim (lookup-add_all n q [] ps e) [
  | inl h ↦ cc (lookup-nil n)
  | inr found ↦ found
]

-- A key that is in the map stays in it.
kept-add_all :
    (n : Text) (q : Peer) (m : PeerMap) (ps : List Peer)
    → lookup_peer n m ≡ some q
    → (r : Peer) × (lookup_peer n (add_all m ps) ≡ some r)
unfolding add_all
kept-add_all n q m [] e = (q, e)
kept-add_all n q m (p ∷ ps) e = elim (Bool-cases (str_eq p.name n)) [
  | inl hit ↦
      kept-add_all n p (set_peer p.name p m) ps (ground (arith, lookup-set_peer p.name n p m))
  | inr miss ↦
      kept-add_all n q (set_peer p.name p m) ps (ground (arith, lookup-set_peer p.name n p m))
]

found-add_all :
    (q : Peer) (m : PeerMap) (ps : List Peer)
    → In q ps
    → (r : Peer) × (lookup_peer q.name (add_all m ps) ≡ some r)
unfolding add_all
found-add_all q m [] i = absurd i
found-add_all q m (p ∷ ps) (inl e) =
    kept-add_all q.name p (set_peer p.name p m) ps
      (rw e (lookup-set_peer p.name p.name p m ∙ rw (str_eq_refl p.name)))
found-add_all q m (p ∷ ps) (inr i) = found-add_all q (set_peer p.name p m) ps i

-- Every name of the list is a key.
pub found-build_map :
    (q : Peer) (ps : List Peer)
    → In q ps
    → (r : Peer) × (lookup_peer q.name (build_map ps) ≡ some r)
unfolding build_map
found-build_map q ps i = found-add_all q [] ps i
