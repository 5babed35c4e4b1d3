-- ===== src/Validation/Mesh/Disjoint.antt =====
-- `ValidateClusterNetworks` of internal/validation/mesh.go against addresses.
use kilo_clustermesh_operato.Base.{
  ◌≡◌, refl, sym, ◌∙◌, subst, inl, inr, ◌↔◌, Bool, true, false, Option, none, some, List, [], ◌∷◌,
  Text, Bool-cases, Option-cases, some-eq-some, In, AllPairs, AllPairs-map, All, All-append,
}
use kilo_clustermesh_operato.Base.Result.{ok, err, Result-cases, ok-eq-ok}
use kilo_clustermesh_operato.Api.{ClusterEntry, all_cidrs}
use kilo_clustermesh_operato.Go.Net.Address.{Ip, IpNet, contains}
use kilo_clustermesh_operato.Go.Net.Parse
use kilo_clustermesh_operato.Go.Net.Canonical.{IsNet}
use kilo_clustermesh_operato.Go.Net.Parsed.{parse_cidr-IsNet}
use kilo_clustermesh_operato.Netutil.{parse_cidr, cidr_overlaps}
use kilo_clustermesh_operato.Netutil.Overlap.{cidr_overlaps_iff}
use kilo_clustermesh_operato.Base.{ap}
use kilo_clustermesh_operato.Validation.Mesh.Parsed.{
  networks_of, Parses, Parses-unique, Parses-In, nets_of, parse_clusters-Parses, parse_clusters-err,
}
use kilo_clustermesh_operato.Validation.Mesh.{
  ParsedCidr, MeshError, parse_networks, parse_clusters, is_cross_mesh, conflicts, check_against,
  ◌then_check◌, check_overlaps, validate_cluster_networks,
}

-- No address lies in both networks.
abbrev pub IsDisjoint : IpNet → IpNet → Type 0
IsDisjoint a b = (x : Ip) → contains a x ≡ true → contains b x ≡ true → ⊥

pub parsed-IsNet : (s : Text) (n : IpNet) → parse_cidr s ≡ some n → IsNet n
unfolding parse_cidr
parsed-IsNet s n e = elim (Option-cases (Parse.parse_cidr s)) [
  | inl h ↦ cc (rw h at e)
  | inr ((ip, net), h) ↦ subst IsNet (some-eq-some net n (rw h at e)) (parse_cidr-IsNet s ip net h)
]

pub overlaps-IsDisjoint :
    (a b : IpNet) → IsNet a → IsNet b → cidr_overlaps a b ≡ false → IsDisjoint a b
overlaps-IsDisjoint a b va vb e x ca cb = cc ((cidr_overlaps_iff a b va vb).1 (x, ca, cb))

pub then_check-eq-none :
    (a b : Option MeshError) → (a then_check b) ≡ none → (a ≡ none) × (b ≡ none)
then_check-eq-none none b e = (refl, e)
then_check-eq-none (some x) b e = cc

-- Every network of a parsed list is canonical.
abbrev AllNets : List ParsedCidr → Type 0
AllNets = All (λ c. IsNet c.net)

parse_networks-AllNets :
    (cluster : Text) (raws : List Text) (cidrs : List ParsedCidr)
    → parse_networks cluster raws ≡ ok cidrs
    → AllNets cidrs
unfolding parse_networks
parse_networks-AllNets cluster [] cidrs e = subst AllNets (ok-eq-ok _ _ e) tt
parse_networks-AllNets cluster (raw ∷ raws) cidrs e = elim (Option-cases (parse_cidr raw)) [
  | inl h ↦ cc (rw (h, parse_networks) at e)
  | inr (n, h) ↦ elim (Result-cases (parse_networks cluster raws)) [
    | inr (x, k) ↦ cc (rw (h, k, parse_networks) at e)
    | inl (rest, k) ↦
        subst AllNets (ok-eq-ok _ _ (rw (h, k, parse_networks) at e))
          (parsed-IsNet raw n h, parse_networks-AllNets cluster raws rest k)
  ]
]

parse_clusters-AllNets :
    (clusters : List ClusterEntry) (cidrs : List ParsedCidr)
    → parse_clusters clusters ≡ ok cidrs
    → AllNets cidrs
unfolding parse_clusters
parse_clusters-AllNets [] cidrs e = subst AllNets (ok-eq-ok _ _ e) tt
parse_clusters-AllNets (c ∷ cs) cidrs e =
    elim (Result-cases (parse_networks c.name (all_cidrs c))) [
      | inr (x, h) ↦ cc (rw (h, parse_clusters) at e)
      | inl (here, h) ↦ elim (Result-cases (parse_clusters cs)) [
        | inr (x, k) ↦ cc (rw (h, k, parse_clusters) at e)
        | inl (rest, k) ↦ subst AllNets (ok-eq-ok _ _ (rw (h, k, parse_clusters) at e)) (
            All-append _ here rest (parse_networks-AllNets c.name (all_cidrs c) here h)
              (parse_clusters-AllNets cs rest k))
      ]
    ]

-- Two parsed networks that `checkOverlaps` lets pass.
abbrev pub Passes : Bool → ParsedCidr → ParsedCidr → Type 0
Passes cross a b = conflicts cross a b ≡ false

module _ (mesh_a mesh_b : Text) where
  check_against_iff :
      (a : ParsedCidr) (bs : List ParsedCidr)
      → (check_against mesh_a mesh_b a bs ≡ none)
        ↔ ((b : ParsedCidr) → In b bs → Passes (is_cross_mesh mesh_a mesh_b) a b)
  unfolding check_against
  check_against_iff a [] = (λ _ b m. absurd m, λ _. refl)
  check_against_iff a (b ∷ bs) = elim (Bool-cases (conflicts (is_cross_mesh mesh_a mesh_b) a b)) [
    | inl h ↦ (λ e. cc (rw (h, check_against) at e), λ all. cc (all b (inl refl)))
    | inr h ↦
        let (to, from) = check_against_iff a bs in
        (
          λ e c m. elim m [
            | inl same ↦ rw same h
            | inr later ↦ to (rw (h, check_against) at e) c later
          ],
          λ all. rw h (from (λ c m. all c (inr m))),
        )
  ]

  pub check_overlaps_iff :
      (cidrs : List ParsedCidr)
      → (check_overlaps mesh_a mesh_b cidrs ≡ none)
        ↔ AllPairs (Passes (is_cross_mesh mesh_a mesh_b)) cidrs
  unfolding check_overlaps
  check_overlaps_iff [] = (λ _. tt, λ _. refl)
  check_overlaps_iff (a ∷ rest) =
      let (to, from) = check_against_iff a rest in
      let (to', from') = check_overlaps_iff rest in
      (
        λ e.
            let (h, k) = then_check-eq-none (check_against mesh_a mesh_b a rest) _ e in
            (to h, to' k),
        λ all. rw (from all.0) (from' all.1),
      )

IsDisjoint-overlaps : (a b : IpNet) → IsNet a → IsNet b → IsDisjoint a b → cidr_overlaps a b ≡ false
IsDisjoint-overlaps a b va vb d = elim (Bool-cases (cidr_overlaps a b)) [
  | inl h ↦ let (x, ca, cb) = (cidr_overlaps_iff a b va vb).0 h in absurd (d x ca cb)
  | inr h ↦ h
]

-- The networks of a list have no address in common, two by two.
abbrev ArePairwiseDisjoint : List ParsedCidr → Type 0
ArePairwiseDisjoint = AllPairs (λ a b. IsDisjoint a.net b.net)

In-nets_of : (c : ParsedCidr) (cs : List ParsedCidr) → In c cs → In c.net (nets_of cs)
In-nets_of c [] i = absurd i
In-nets_of c (d ∷ ds) (inl e) = inl (ap (λ x. x.net) e)
In-nets_of c (d ∷ ds) (inr j) = inr (In-nets_of c ds j)

nets_of-In :
    (n : IpNet) (cs : List ParsedCidr)
    → In n (nets_of cs)
    → (c : ParsedCidr) × In c cs × (n ≡ c.net)
nets_of-In n [] i = absurd i
nets_of-In n (d ∷ ds) (inl e) = (d, inl refl, e)
nets_of-In n (d ∷ ds) (inr j) = let (c, k, e) = nets_of-In n ds j in (c, inr k, e)

pairwise_iff : (cs : List ParsedCidr) → AllPairs IsDisjoint (nets_of cs) ↔ ArePairwiseDisjoint cs
pairwise_iff [] = (λ p. tt, λ p. tt)
pairwise_iff (c ∷ cs) =
    let (to, from) = pairwise_iff cs in
    (
      λ (first, rest). ((λ d i. first d.net (In-nets_of d cs i)), to rest),
      λ (first, rest). (
        (λ n i. let (d, j, e) = nets_of-In n cs i in subst (IsDisjoint c.net) (sym e) (first d j)),
        from rest,
      ),
    )

intra_mesh_iff :
    (cidrs : List ParsedCidr)
    → AllNets cidrs
    → (check_overlaps [] [] cidrs ≡ none) ↔ ArePairwiseDisjoint cidrs
unfolding conflicts
intra_mesh_iff cidrs nets =
    let (to, from) = check_overlaps_iff [] [] cidrs in
    (
      λ e.
          AllPairs-map _ _ _ cidrs (λ a b va vb. overlaps-IsDisjoint a.net b.net va vb) nets (to e),
      λ d.
          from
            (AllPairs-map _ _ _ cidrs (λ a b va vb. IsDisjoint-overlaps a.net b.net va vb) nets d),
    )

validate-parsed :
    (clusters : List ClusterEntry) (cidrs : List ParsedCidr)
    → parse_clusters clusters ≡ ok cidrs
    → validate_cluster_networks clusters ≡ check_overlaps [] [] cidrs
unfolding validate_cluster_networks
validate-parsed clusters cidrs h = rw (h, validate_cluster_networks)

validate-unparsed :
    (clusters : List ClusterEntry) (e : MeshError)
    → parse_clusters clusters ≡ err e
    → validate_cluster_networks clusters ≡ some e
unfolding validate_cluster_networks
validate-unparsed clusters e h = rw (h, validate_cluster_networks)

-- `ValidateClusterNetworks` accepts the clusters of a mesh exactly when all their allowed networks
-- parse and no address lies in two of the parsed networks.
pub validate_cluster_networks_iff :
    (clusters : List ClusterEntry)
    → (validate_cluster_networks clusters ≡ none)
      ↔ ((nets : List IpNet) × Parses (networks_of clusters) nets × AllPairs IsDisjoint nets)
validate_cluster_networks_iff clusters = elim (Result-cases (parse_clusters clusters)) [
  | inr (x, h) ↦ (
    λ e. cc (validate-unparsed clusters x h),
    λ (nets, p, d).
        let (raw, i, bad) = parse_clusters-err clusters x h in
        absurd (Parses-In raw (networks_of clusters) nets p i bad),
  )
  | inl (cidrs, h) ↦
      let (to, from) = intra_mesh_iff cidrs (parse_clusters-AllNets clusters cidrs h) in
      let (apart, disjoint) = pairwise_iff cidrs in
      let parsed = parse_clusters-Parses clusters cidrs h in
      (
        λ e. (nets_of cidrs, parsed, disjoint (to (sym (validate-parsed clusters cidrs h) ∙ e))),
        λ (nets, p, d).
            let same = Parses-unique (networks_of clusters) nets (nets_of cidrs) p parsed in
            validate-parsed clusters cidrs h ∙ from (apart (subst (AllPairs IsDisjoint) same d)),
      )
]
