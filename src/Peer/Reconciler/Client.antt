-- ===== src/Peer/Reconciler/Client.antt =====
-- What the reconciler calls of a target cluster, `client.Client` on Peer objects: an interface over
-- the cluster's state, and the documented behaviour of the API server as laws.
use kilo_clustermesh_operato.Base.{
  ◌≡◌, ◌↔◌, Bool, true, false, ◌&&◌, Option, none, some, List, [], ◌∷◌, String, if◌then◌else◌, Text,
  In, str_eq, lookup,
}
use kilo_clustermesh_operato.Api.{Peer}

pub data ApiError : Type 0 where
  not_found failed : ApiError

-- A list call reads the state and may fail; a write returns the new state and its error, if any.
pub record PeerClient (S : Type 0) : Type 0 where
  pub list_all : S → Option (List Peer)
  pub list_labelled : List (String × Text) → S → Option (List Peer)
  pub create_peer : Peer → S → S × Option ApiError
  pub update_peer : Peer → S → S × Option ApiError
  pub delete_peer : Peer → S → S × Option ApiError

-- `labels.SelectorFromSet`: every pair of the selector stands in the labels.
unfoldable pub matches : List (String × Text) → List (String × Text) → Bool
matches [] ls = true
matches ((k, v) ∷ sel) ls = has_value (lookup k ls) v && matches sel ls
  where
    has_value : Option Text → Text → Bool
    has_value none w = false
    has_value (some u) w = str_eq u w

-- The documented behaviour: objects are kept by name, a list call shows what is stored, and a write
-- without an error changes the object of that name only. A delete that finds no
-- object changes nothing; of any other write that fails nothing is said.
pub record IsPeerStore {S : Type 0} (client : PeerClient S) (find : S → Text → Option Peer)
    : Type 0 where
  pub named : (s : S) (n : Text) (p : Peer) → find s n ≡ some p → p.name ≡ n
  pub lists :
      (sel : List (String × Text)) (s : S) (ps : List Peer)
      → client.list_labelled sel s ≡ some ps
      → (p : Peer) → In p ps ↔ ((find s p.name ≡ some p) × (matches sel p.labels ≡ true))
  pub lists_all :
      (s : S) (ps : List Peer)
      → client.list_all s ≡ some ps
      → (p : Peer) → In p ps ↔ (find s p.name ≡ some p)
  pub creates :
      (p : Peer) (s s' : S)
      → client.create_peer p s ≡ (s', none)
      → (n : Text) → find s' n ≡ (if str_eq p.name n then some p else find s n)
  pub updates :
      (p : Peer) (s s' : S)
      → client.update_peer p s ≡ (s', none)
      → (n : Text) → find s' n ≡ (if str_eq p.name n then some p else find s n)
  pub deletes :
      (p : Peer) (s s' : S)
      → client.delete_peer p s ≡ (s', none)
      → (n : Text) → find s' n ≡ (if str_eq p.name n then none else find s n)
  pub missing :
      (p : Peer) (s s' : S)
      → client.delete_peer p s ≡ (s', some not_found)
      → (find s p.name ≡ none) × ((n : Text) → find s' n ≡ find s n)
