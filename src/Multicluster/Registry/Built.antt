-- ===== src/Multicluster/Registry/Built.antt =====
-- `Build` of internal/multicluster/registry.go against the opening of one entry, and
-- `buildInitialRegistry` of cmd/main.go.
use kilo_clustermesh_operato.Base.{
  subst, ◌≡◌, ◌≢◌, refl, sym, ◌∙◌, ap, inl, inr, ◌⊎◌, ◌↔◌, Bool, true, false, Option, none, some,
  List, [], ◌∷◌, if◌then◌else◌, Text, str_eq, str_eq_iff, In, AllPairs, Bool-cases, Option-cases,
  some-eq-some, get_key, get_key-set_key,
}
use kilo_clustermesh_operato.Base.Result.{ok, err, Result-cases, ok-eq-ok}
use kilo_clustermesh_operato.Api.{ClusterMesh, SecretKeyRef}
use kilo_clustermesh_operato.Multicluster.Registry.{
  EntrySource, Environment, ClusterRegistry, rest_config_from_secret, merge_cluster_entries,
  config_for_entry, add_entry, add_entries, build, build_initial_registry, client_of,
}
use kilo_clustermesh_operato.Multicluster.Registry.Merged.{
  first_named, first_entry, NameDiffers, merge_cluster_entries-first,
}

-- The cluster of one entry, if its configuration and its construction succeed.
abbrev opened :
    {Config Cluster : Type 0} → Environment Config Cluster → EntrySource → Option Cluster
opened env src = elim (config_for_entry env src.entry src.mesh_namespace) [
  | err e ↦ none
  | ok cfg ↦ env.new_cluster cfg
]

abbrev opened_if :
    {Config Cluster : Type 0} → Environment Config Cluster → Option EntrySource → Option Cluster
opened_if env none = none
opened_if env (some src) = opened env src

abbrev or_else : {A : Type 0} → Option A → Option A → Option A
or_else none o = o
or_else (some a) o = some a

not_named :
    (n : Text) (srcs : List EntrySource)
    → ((s : EntrySource) → In s srcs → s.entry.name ≢ n)
    → first_named n srcs ≡ none
not_named n [] out = refl
not_named n (s ∷ ss) out = elim (Bool-cases (str_eq s.entry.name n)) [
  | inl hit ↦ absurd (out s (inl refl) ((str_eq_iff s.entry.name n).0 hit))
  | inr miss ↦ rw miss (not_named n ss (λ t i. out t (inr i)))
]

both : {A : Type 0} (b : Bool) (a : A) → a ≡ (if b then a else a)
both true a = refl
both false a = refl

module _ {Config Cluster : Type 0} (env : Environment Config Cluster) where
  client_of-add_entry :
      (src : EntrySource) (reg : ClusterRegistry Cluster) (n : Text)
      → client_of (add_entry env src reg) n ≡ (
          if str_eq src.entry.name n
          then or_else (opened env src) (client_of reg n)
          else client_of reg n)
  unfolding add_entry client_of
  client_of-add_entry src reg n =
      elim (Result-cases (config_for_entry env src.entry src.mesh_namespace)) [
        | inr (e, h) ↦
            rw (h, add_entry, opened) (both (str_eq src.entry.name n) (get_key n reg.clusters))
        | inl (cfg, h) ↦ elim (Option-cases (env.new_cluster cfg)) [
          | inl k ↦
              rw (h, k, add_entry, opened)
                (ap (get_key n)
                    (elim (Bool-cases src.entry.local) [ inl l ↦ rw l refl | inr l ↦ rw l refl ])
                  ∙ both (str_eq src.entry.name n) (get_key n reg.clusters))
          | inr (c, k) ↦
              rw (h, k, add_entry, opened) (get_key-set_key src.entry.name n c reg.clusters)
        ]
      ]

  -- A later entry of another name changes nothing.
  client_of-add_entries :
      (srcs : List EntrySource) (reg : ClusterRegistry Cluster) (n : Text)
      → AllPairs NameDiffers srcs
      → client_of (add_entries env srcs reg) n
        ≡ or_else (opened_if env (first_named n srcs)) (client_of reg n)
  unfolding add_entries
  client_of-add_entries [] reg n d = refl
  client_of-add_entries (src ∷ srcs) reg n d = elim (Bool-cases (str_eq src.entry.name n)) [
    | inl hit ↦
        let none_left =
          not_named n srcs (λ s i e. d.0 s i ((str_eq_iff src.entry.name n).0 hit ∙ sym e)) in
        client_of-add_entries srcs (add_entry env src reg) n d.1
        ∙ rw (hit, none_left) (client_of-add_entry src reg n ∙ rw hit refl)
    | inr miss ↦
        client_of-add_entries srcs (add_entry env src reg) n d.1
        ∙ rw miss (
            ap (or_else (opened_if env (first_named n srcs)))
              (client_of-add_entry src reg n ∙ rw miss refl))
  ]

  -- The configuration of an entry: the local one, or what the secret that the entry refers to, of
  -- the namespace of its mesh, parses to.
  abbrev pub IsConfig : EntrySource → Config → Type 0
  IsConfig src cfg =
      ((src.entry.local ≡ true) × (cfg ≡ env.local_config))
      ⊎ ((ref : SecretKeyRef) × (secret : List (Text × Text)) × (kubeconfig : Text)
          × (src.entry.local ≡ false)
          × (src.entry.kubeconfig_secret_ref ≡ some ref)
          × (env.secret_data src.mesh_namespace ref.name ≡ some secret)
          × (get_key ref.key secret ≡ some kubeconfig)
          × (env.parse_kubeconfig kubeconfig ≡ some cfg))

  -- The cluster of the first entry of the name.
  abbrev pub IsClusterOf : List ClusterMesh → Text → Cluster → Type 0
  IsClusterOf meshes n cluster =
      (src : EntrySource) × (cfg : Config) × (first_entry n meshes ≡ some src)
      × IsConfig src cfg
      × (env.new_cluster cfg ≡ some cluster)

  IsConfig-config_for_entry :
      (src : EntrySource) (cfg : Config)
      → IsConfig src cfg
      → config_for_entry env src.entry src.mesh_namespace ≡ ok cfg
  unfolding config_for_entry rest_config_from_secret
  IsConfig-config_for_entry src cfg (inl (local_, same)) = rw (local_, config_for_entry, same) refl
  IsConfig-config_for_entry src cfg
        (inr (ref, secret, text, remote, refers, found, keyed, parsed)) =
      rw (remote, refers, config_for_entry, rest_config_from_secret, found, keyed, parsed) refl

  remote-IsConfig :
      (src : EntrySource) (ref : SecretKeyRef) (cfg : Config)
      → src.entry.local ≡ false
      → src.entry.kubeconfig_secret_ref ≡ some ref
      → config_for_entry env src.entry src.mesh_namespace ≡ ok cfg
      → IsConfig src cfg
  unfolding config_for_entry rest_config_from_secret
  remote-IsConfig src ref cfg remote refers e =
      elim (Option-cases (env.secret_data src.mesh_namespace ref.name)) [
        | inl missing ↦
            cc (rw (remote, refers, config_for_entry, rest_config_from_secret, missing) at e)
        | inr (secret, found) ↦ elim (Option-cases (get_key ref.key secret)) [
          | inl missing ↦
              cc (
                rw (remote, refers, config_for_entry, rest_config_from_secret, found, missing) at e)
          | inr (text, keyed) ↦ elim (Option-cases (env.parse_kubeconfig text)) [
            | inl bad ↦ cc (
                rw (remote, refers, config_for_entry, rest_config_from_secret, found, keyed, bad) at
                  e)
            | inr (cfg', good) ↦
                let same : cfg' ≡ cfg = ok-eq-ok cfg' cfg (
                  rw (remote, refers, config_for_entry, rest_config_from_secret, found, keyed, good)
                    at e) in
                inr (ref, secret, text, remote, refers, found, keyed, good ∙ ap some same)
          ]
        ]
      ]

  config_for_entry-IsConfig :
      (src : EntrySource) (cfg : Config)
      → config_for_entry env src.entry src.mesh_namespace ≡ ok cfg
      → IsConfig src cfg
  unfolding config_for_entry
  config_for_entry-IsConfig src cfg e = elim (Bool-cases src.entry.local) [
    | inl local_ ↦ inl (local_, sym (ok-eq-ok _ _ (rw (local_, config_for_entry) at e)))
    | inr remote ↦ elim (Option-cases src.entry.kubeconfig_secret_ref) [
      | inr (ref, refers) ↦ remote-IsConfig src ref cfg remote refers e
      | inl missing ↦ cc (rw (remote, missing, config_for_entry) at e)
    ]
  ]

  opened_iff :
      (src : EntrySource) (cluster : Cluster)
      → (opened env src ≡ some cluster)
        ↔ ((cfg : Config) × IsConfig src cfg × (env.new_cluster cfg ≡ some cluster))
  opened_iff src cluster = elim (Result-cases (config_for_entry env src.entry src.mesh_namespace)) [
    | inr (x, h) ↦
        rw (opened, h) (λ e. cc, λ (cfg, is, new). cc (IsConfig-config_for_entry src cfg is, h))
    | inl (cfg, h) ↦
        rw (opened, h)
          (
            λ e. (cfg, config_for_entry-IsConfig src cfg h, e),
            λ (cfg', is, new).
                let same = ok-eq-ok cfg' cfg (sym (IsConfig-config_for_entry src cfg' is) ∙ h) in
                subst (λ x. env.new_cluster x ≡ some cluster) same new,
          )
  ]

  first_opened_iff :
      (meshes : List ClusterMesh) (n : Text) (cluster : Cluster)
      → (opened_if env (first_entry n meshes) ≡ some cluster) ↔ IsClusterOf meshes n cluster
  first_opened_iff meshes n cluster = elim (Option-cases (first_entry n meshes)) [
    | inl missing ↦ rw missing (λ e. cc, λ (src, cfg, found, is, new). cc)
    | inr (src, found) ↦
        let (to, from) = opened_iff src cluster in
        rw found (
          λ e. let (cfg, is, new) = to e in (src, cfg, refl, is, new),
          λ (src', cfg, same, is, new).
              from (cfg, subst (λ x. IsConfig x cfg) (sym (some-eq-some src src' same)) is, new),
        )
  ]

  initial_client :
      (meshes : List ClusterMesh) (reg : ClusterRegistry Cluster) (n : Text)
      → build_initial_registry env (some meshes) ≡ some reg
      → client_of reg n ≡ opened_if env (first_entry n meshes)
  unfolding build_initial_registry build client_of get_key
  initial_client meshes reg n e =
      let (finds, distinct) = merge_cluster_entries-first meshes in
      ap (λ r. client_of r n) (sym (some-eq-some _ reg e))
      ∙ client_of-add_entries (merge_cluster_entries meshes) (record { clusters = []; local = [] })
          n distinct
      ∙ nothing (opened_if env (first_named n (merge_cluster_entries meshes)))
      ∙ ap (opened_if env) (finds n)
    where
      nothing : (o : Option Cluster) → or_else o none ≡ o
      nothing none = refl
      nothing (some c) = refl

  -- The registry that `buildInitialRegistry` builds of the meshes has a client under a name if and only
  -- if the first entry of that name among the clusters of all meshes can be opened, and then that
  -- client: the configuration of the entry is the local one, or what the key of the secret that the
  -- entry refers to, read in the namespace of the entry's mesh, parses to, and a cluster can be made of
  -- it. An entry that cannot be opened leaves all other names as they are.
  pub build_initial_registry-client_of :
      (meshes : List ClusterMesh) (reg : ClusterRegistry Cluster) (n : Text) (cluster : Cluster)
      → build_initial_registry env (some meshes) ≡ some reg
      → (client_of reg n ≡ some cluster) ↔ IsClusterOf meshes n cluster
  build_initial_registry-client_of meshes reg n cluster e =
      let (to, from) = first_opened_iff meshes n cluster in
      let here = initial_client meshes reg n e in (λ h. to (sym here ∙ h), λ v. here ∙ from v)
