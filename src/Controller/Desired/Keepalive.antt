-- ===== src/Controller/Desired/Keepalive.antt =====
-- `meshPersistentKeepalive` of internal/controller/clustermesh_controller.go.
use Prim.Native.Nat.{max}
use kilo_clustermesh_operato.Base.{
  ℕ, ◌≤◌, ◌≡◌, refl, sym, ◌∙◌, inl, inr, ◌⊎◌, List, [], ◌∷◌, In, arith,
}
use kilo_clustermesh_operato.Api.{ClusterEntry}
use kilo_clustermesh_operato.Controller.Desired.{keepalive_from, mesh_persistent_keepalive}

-- The greatest of a number and the entries' keepalives.
abbrev IsGreatest : ℕ → List ClusterEntry → ℕ → Type 0
IsGreatest start clusters k =
    (start ≤ k)
    × ((c : ClusterEntry) → In c clusters → c.persistent_keepalive ≤ k)
    × ((k ≡ start) ⊎ ((c : ClusterEntry) × In c clusters × (c.persistent_keepalive ≡ k)))

larger : (a b : ℕ) → (max a b ≡ a) ⊎ (max a b ≡ b)
larger a b = ground arith

keepalive_from-IsGreatest :
    (start : ℕ) (clusters : List ClusterEntry)
    → IsGreatest start clusters (keepalive_from start clusters)
unfolding keepalive_from
keepalive_from-IsGreatest start [] = (omega arith, λ c i. absurd i, inl refl)
keepalive_from-IsGreatest start (c ∷ cs) =
    let (least, all, reached) = keepalive_from-IsGreatest (max start c.persistent_keepalive) cs in
    (
      omega (arith, least),
      λ d i. elim i [ inl same ↦ rw same (omega (arith, least)) | inr j ↦ all d j ],
      elim reached [ inr (d, i, e) ↦ inr (d, inr i, e) | inl e ↦ first e ],
    )
  where
    first :
        keepalive_from (max start c.persistent_keepalive) cs ≡ max start c.persistent_keepalive
        → (keepalive_from (max start c.persistent_keepalive) cs ≡ start)
          ⊎ ((d : ClusterEntry) × In d (c ∷ cs)
              × (d.persistent_keepalive ≡ keepalive_from (max start c.persistent_keepalive) cs))
    first e = elim (larger start c.persistent_keepalive) [
      | inl h ↦ inl (e ∙ h)
      | inr h ↦ inr (c, inl refl, sym (e ∙ h))
    ]

-- The keepalive of a mesh is the greatest of its entries: no entry has a greater one, and it is that
-- of an entry, or 0.
pub mesh_persistent_keepalive_greatest :
    (clusters : List ClusterEntry)
    → ((c : ClusterEntry)
        → In c clusters
        → c.persistent_keepalive ≤ mesh_persistent_keepalive clusters)
      × ((mesh_persistent_keepalive clusters ≡ 0)
          ⊎ ((c : ClusterEntry) × In c clusters
              × (c.persistent_keepalive ≡ mesh_persistent_keepalive clusters)))
unfolding mesh_persistent_keepalive
mesh_persistent_keepalive_greatest clusters =
    let (_, all, reached) = keepalive_from-IsGreatest 0 clusters in (all, reached)
