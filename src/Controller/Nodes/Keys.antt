-- ===== src/Controller/Nodes/Keys.antt =====
-- The WireGuard addresses of the nodes that `filterNodes` of
-- internal/controller/clustermesh_controller.go leaves, with `FindDuplicateWGIPs` of
-- internal/validation/node.go.
use kilo_clustermesh_operato.Base.{
  ◌≡◌, ◌≢◌, refl, sym, ◌∙◌, ap, subst, inl, inr, true, some, List, [], ◌∷◌, Text, str_eq, any,
  any-str_eq_iff, In, AllPairs, Bool-cases, Option-cases, some-eq-some, lookup, value_at,
}
use kilo_clustermesh_operato.Api.{Node, ClusterEntry}
use kilo_clustermesh_operato.Go.Net.Address.{Ip, IpNet}
use kilo_clustermesh_operato.Go.Net.Format.{ip_string}
use kilo_clustermesh_operato.Netutil.{parse_host_in_cidr}
use kilo_clustermesh_operato.Kilonode.{annotation_wireguard_ip, source}
use kilo_clustermesh_operato.Validation.Node.{
  normalize_wgip_key, find_duplicates_from, find_duplicate_wgips,
}
use kilo_clustermesh_operato.Controller.Nodes.{skip, filter_from, filter_nodes}
use kilo_clustermesh_operato.Controller.Nodes.Counts.{Stays, filter-cases}

-- The keys of the two nodes' WireGuard addresses, if both have one, differ.
abbrev KeysDiffer : Node → Node → Type 0
KeysDiffer a b =
    (u v : Text)
    → source annotation_wireguard_ip a ≡ some u
    → source annotation_wireguard_ip b ≡ some v
    → normalize_wgip_key u ≢ normalize_wgip_key v

-- The node's key is not among those seen.
abbrev IsFresh : List Text → Node → Type 0
IsFresh seen n =
    (w : Text) → source annotation_wireguard_ip n ≡ some w → In (normalize_wgip_key w) seen → ⊥

abbrev AreFresh : List Text → List Node → Type 0
AreFresh seen nodes = ((n : Node) → In n nodes → IsFresh seen n) × AllPairs KeysDiffer nodes

-- The duplicates cover what the loop of `FindDuplicateWGIPs` reports.
abbrev Covers : List Text → List Text → List Node → Type 0
Covers duplicates seen nodes =
    (x : Text) → In x (find_duplicates_from seen nodes) → any (str_eq x) duplicates ≡ true

module _ (duplicates : List Text) (entry : ClusterEntry) (node : Node) (nodes : List Node) where
  -- A dropped node changes nothing of the nodes that stay.
  dropped-AreFresh :
      (seen : List Text)
      → AreFresh seen (filter_from duplicates entry nodes).valid
      → (Stays duplicates entry node
          → (n : Node) → In n (filter_from duplicates entry nodes).valid
          → KeysDiffer node n)
      → (Stays duplicates entry node → IsFresh seen node)
      → AreFresh seen (filter_from duplicates entry (node ∷ nodes)).valid
  unfolding skip
  dropped-AreFresh seen (fresh, differ) apart own =
      elim (filter-cases duplicates entry node nodes) [
        | inr (transient, e, out) ↦ subst (λ f. AreFresh seen f.valid) (sym e) (fresh, differ)
        | inl (e, stays) ↦
            subst (λ f. AreFresh seen f.valid) (sym e)
              (
                λ n i. elim i [
                  | inl same ↦ subst (IsFresh seen) (sym same) (own stays)
                  | inr j ↦ fresh n j
                ],
                (apart stays, differ),
              )
      ]

filter_from-AreFresh :
    (duplicates : List Text) (entry : ClusterEntry) (seen : List Text) (nodes : List Node)
    → Covers duplicates seen nodes
    → AreFresh seen (filter_from duplicates entry nodes).valid
unfolding filter_from find_duplicates_from
filter_from-AreFresh duplicates entry seen [] covers = (λ n i. absurd i, tt)
filter_from-AreFresh duplicates entry seen (node ∷ nodes) covers =
    elim (Option-cases (source annotation_wireguard_ip node)) [
      | inl bare ↦
          dropped-AreFresh duplicates entry node nodes seen
            (filter_from-AreFresh duplicates entry seen nodes
              (rw (bare, find_duplicates_from) at covers))
            (λ s n i u v a b. cc (a, bare)) (λ s w a. cc (a, bare))
      | inr (w, h) ↦ elim (Bool-cases (any (str_eq (normalize_wgip_key w)) seen)) [
        | inl old ↦
            let covers' = rw (h, old, find_duplicates_from) at covers in
            let reported = covers' node.name (inl refl) in
            dropped-AreFresh duplicates entry node nodes seen
              (filter_from-AreFresh duplicates entry seen nodes (λ x i. covers' x (inr i)))
              (λ s. cc (s.0, reported)) (λ s. cc (s.0, reported))
        | inr new ↦
            let (fresh, differ) =
              filter_from-AreFresh duplicates entry (normalize_wgip_key w ∷ seen) nodes
                (rw (h, new, find_duplicates_from) at covers) in
            dropped-AreFresh duplicates entry node nodes seen
              ((λ n i v a k. fresh n i v a (inr k)), differ)
              (λ s n i u v a b same.
                fresh n i v b
                  (inl (sym same ∙ ap normalize_wgip_key (sym (some-eq-some w u (sym h ∙ a))))))
              (λ s v a k. cc (
                (any-str_eq_iff (normalize_wgip_key w) seen).1 (
                    subst (λ t. In (normalize_wgip_key t) seen) (sym (some-eq-some w v (sym h ∙ a)))
                      k),
                new,
              ))
      ]
    ]

-- The WireGuard addresses of the two nodes, if both annotations parse, differ.
abbrev pub AddressesDiffer : Node → Node → Type 0
AddressesDiffer a b =
    (h h' : Ip × IpNet)
    → parse_host_in_cidr (value_at annotation_wireguard_ip a.annotations) ≡ some h
    → parse_host_in_cidr (value_at annotation_wireguard_ip b.annotations) ≡ some h'
    → h.0 ≢ h'.0

source-parsed :
    (n : Node) (h : Ip × IpNet)
    → parse_host_in_cidr (value_at annotation_wireguard_ip n.annotations) ≡ some h
    → source annotation_wireguard_ip n ≡ some (value_at annotation_wireguard_ip n.annotations)
unfolding source value_at parse_host_in_cidr
source-parsed n h e = elim (Option-cases (lookup annotation_wireguard_ip n.annotations)) [
  | inl missing ↦ cc (rw (missing, value_at) at e)
  | inr ([], empty) ↦ cc (rw (empty, value_at) at e)
  | inr (b ∷ bs, there) ↦ rw (there, source, value_at) refl
]

key-parsed :
    (t : Text) (h : Ip × IpNet)
    → parse_host_in_cidr t ≡ some h
    → normalize_wgip_key t ≡ ip_string h.0
unfolding normalize_wgip_key
key-parsed t h e = rw (e, normalize_wgip_key) refl

KeysDiffer-AddressesDiffer : (a b : Node) → KeysDiffer a b → AddressesDiffer a b
KeysDiffer-AddressesDiffer a b differ h h' ea eb same =
    differ _ _ (source-parsed a h ea) (source-parsed b h' eb)
      (key-parsed _ h ea ∙ ap ip_string same ∙ sym (key-parsed _ h' eb))

AllPairs-AddressesDiffer :
    (nodes : List Node) → AllPairs KeysDiffer nodes → AllPairs AddressesDiffer nodes
AllPairs-AddressesDiffer [] p = tt
AllPairs-AddressesDiffer (n ∷ ns) (first, rest) =
    (λ m i. KeysDiffer-AddressesDiffer n m (first m i), AllPairs-AddressesDiffer ns rest)

-- No two of the nodes that `filterNodes` leaves have the same WireGuard address, however the prefix
-- lengths and the spellings of their annotations differ.
pub filter_nodes-distinct_addresses :
    (nodes : List Node) (entry : ClusterEntry)
    → AllPairs AddressesDiffer (filter_nodes nodes entry).valid
unfolding filter_nodes find_duplicate_wgips
filter_nodes-distinct_addresses nodes entry =
    AllPairs-AddressesDiffer (filter_nodes nodes entry).valid
      (filter_from-AreFresh (find_duplicate_wgips nodes) entry [] nodes
        (λ x i. (any-str_eq_iff x (find_duplicate_wgips nodes)).1 i)).1
