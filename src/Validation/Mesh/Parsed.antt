-- ===== src/Validation/Mesh/Parsed.antt =====
-- `parseClusters` of internal/validation/mesh.go against the texts of the entries.
use kilo_clustermesh_operato.Base.{
  ◌≡◌, ◌≢◌, refl, sym, ◌∙◌, ap, subst, inl, inr, none, some, List, [], ◌∷◌, ◌++◌, Text,
  Option-cases, some-eq-some, In, In-append_left, In-append_right,
}
use kilo_clustermesh_operato.Base.Result.{ok, err, Result-cases, ok-eq-ok}
use kilo_clustermesh_operato.Api.{ClusterEntry, all_cidrs}
use kilo_clustermesh_operato.Go.Net.Address.{IpNet}
use kilo_clustermesh_operato.Netutil.{parse_cidr}
use kilo_clustermesh_operato.Validation.Mesh.{ParsedCidr, MeshError, parse_networks, parse_clusters}

-- The allowed networks of all clusters, in order.
abbrev pub networks_of : List ClusterEntry → List Text
networks_of [] = []
networks_of (c ∷ cs) = c.allowed_networks ++ networks_of cs

-- The texts parse to these networks, one by one.
abbrev pub Parses : List Text → List IpNet → Type 0
Parses [] [] = Unit
Parses [] (n ∷ ns) = ⊥
Parses (s ∷ ss) [] = ⊥
Parses (s ∷ ss) (n ∷ ns) = (parse_cidr s ≡ some n) × Parses ss ns

abbrev pub nets_of : List ParsedCidr → List IpNet
nets_of [] = []
nets_of (c ∷ cs) = c.net ∷ nets_of cs

nets_of-append : (xs ys : List ParsedCidr) → nets_of (xs ++ ys) ≡ nets_of xs ++ nets_of ys
nets_of-append [] ys = refl
nets_of-append (x ∷ xs) ys = ap (λ ns. x.net ∷ ns) (nets_of-append xs ys)

Parses-append :
    (ss ts : List Text) (ns ms : List IpNet)
    → Parses ss ns
    → Parses ts ms
    → Parses (ss ++ ts) (ns ++ ms)
Parses-append [] ts [] ms p q = q
Parses-append [] ts (n ∷ ns) ms p q = absurd p
Parses-append (s ∷ ss) ts [] ms p q = absurd p
Parses-append (s ∷ ss) ts (n ∷ ns) ms (h, p) q = (h, Parses-append ss ts ns ms p q)

-- The networks are determined by the texts.
pub Parses-unique : (ss : List Text) (ns ms : List IpNet) → Parses ss ns → Parses ss ms → ns ≡ ms
Parses-unique [] [] [] p q = refl
Parses-unique [] [] (m ∷ ms) p q = absurd q
Parses-unique [] (n ∷ ns) ms p q = absurd p
Parses-unique (s ∷ ss) [] ms p q = absurd p
Parses-unique (s ∷ ss) (n ∷ ns) [] p q = absurd q
Parses-unique (s ∷ ss) (n ∷ ns) (m ∷ ms) (h, p) (k, q) =
    ap (λ x. x ∷ ns) (some-eq-some n m (sym h ∙ k)) ∙ ap (λ xs. m ∷ xs) (Parses-unique ss ns ms p q)

pub Parses-In :
    (s : Text) (ss : List Text) (ns : List IpNet) → Parses ss ns → In s ss → parse_cidr s ≢ none
Parses-In s [] ns p i e = absurd i
Parses-In s (t ∷ ts) [] p i e = absurd p
Parses-In s (t ∷ ts) (n ∷ ns) (h, p) (inl same) e = cc (ap parse_cidr same)
Parses-In s (t ∷ ts) (n ∷ ns) (h, p) (inr j) e = Parses-In s ts ns p j e

module _ (cluster : Text) where
  parse_networks-Parses :
      (raws : List Text) (cidrs : List ParsedCidr)
      → parse_networks cluster raws ≡ ok cidrs
      → Parses raws (nets_of cidrs)
  unfolding parse_networks
  parse_networks-Parses [] cidrs e = subst (λ cs. Parses [] (nets_of cs)) (ok-eq-ok _ _ e) tt
  parse_networks-Parses (raw ∷ raws) cidrs e = elim (Option-cases (parse_cidr raw)) [
    | inl h ↦ cc (rw (h, parse_networks) at e)
    | inr (n, h) ↦ elim (Result-cases (parse_networks cluster raws)) [
      | inr (x, k) ↦ cc (rw (h, k, parse_networks) at e)
      | inl (rest, k) ↦
          subst (λ cs. Parses (raw ∷ raws) (nets_of cs))
            (ok-eq-ok _ _ (rw (h, k, parse_networks) at e)) (h, parse_networks-Parses raws rest k)
    ]
  ]

  parse_networks-err :
      (raws : List Text) (x : MeshError)
      → parse_networks cluster raws ≡ err x
      → (raw : Text) × In raw raws × (parse_cidr raw ≡ none)
  unfolding parse_networks
  parse_networks-err [] x e = cc
  parse_networks-err (raw ∷ raws) x e = elim (Option-cases (parse_cidr raw)) [
    | inl h ↦ (raw, inl refl, h)
    | inr (n, h) ↦ elim (Result-cases (parse_networks cluster raws)) [
      | inr (y, k) ↦ let (bad, i, b) = parse_networks-err raws y k in (bad, inr i, b)
      | inl (rest, k) ↦ cc (rw (h, k, parse_networks) at e)
    ]
  ]

pub parse_clusters-Parses :
    (clusters : List ClusterEntry) (cidrs : List ParsedCidr)
    → parse_clusters clusters ≡ ok cidrs
    → Parses (networks_of clusters) (nets_of cidrs)
unfolding parse_clusters all_cidrs
parse_clusters-Parses [] cidrs e = subst (λ cs. Parses [] (nets_of cs)) (ok-eq-ok _ _ e) tt
parse_clusters-Parses (c ∷ cs) cidrs e = elim (Result-cases (parse_networks c.name (all_cidrs c))) [
  | inr (x, h) ↦ cc (rw (h, parse_clusters) at e)
  | inl (here, h) ↦ elim (Result-cases (parse_clusters cs)) [
    | inr (x, k) ↦ cc (rw (h, k, parse_clusters) at e)
    | inl (rest, k) ↦
        subst (λ ns. Parses (networks_of (c ∷ cs)) ns)
          (sym (nets_of-append here rest)
            ∙ ap nets_of (ok-eq-ok _ _ (rw (h, k, parse_clusters) at e)))
          (Parses-append c.allowed_networks (networks_of cs) (nets_of here) (nets_of rest)
            (parse_networks-Parses c.name c.allowed_networks here h)
            (parse_clusters-Parses cs rest k))
  ]
]

pub parse_clusters-err :
    (clusters : List ClusterEntry) (x : MeshError)
    → parse_clusters clusters ≡ err x
    → (raw : Text) × In raw (networks_of clusters) × (parse_cidr raw ≡ none)
unfolding parse_clusters all_cidrs
parse_clusters-err [] x e = cc
parse_clusters-err (c ∷ cs) x e = elim (Result-cases (parse_networks c.name (all_cidrs c))) [
  | inr (y, h) ↦
      let (bad, i, b) = parse_networks-err c.name c.allowed_networks y h in
      (bad, In-append_left bad c.allowed_networks (networks_of cs) i, b)
  | inl (here, h) ↦ elim (Result-cases (parse_clusters cs)) [
    | inr (y, k) ↦
        let (bad, i, b) = parse_clusters-err cs y k in
        (bad, In-append_right bad c.allowed_networks (networks_of cs) i, b)
    | inl (rest, k) ↦ cc (rw (h, k, parse_clusters) at e)
  ]
]
