-- ===== src/Kilonode/Discovered/First.antt =====
-- `DiscoveredEndpointsByKey` of internal/kilonode/discovered.go against the list of all entries.
use kilo_clustermesh_operato.Kilonode.Discovered.Usable.{
  IsUsable, observed_endpoint_iff, none-unusable,
}
use kilo_clustermesh_operato.Base.{
  ◌≡◌, refl, sym, subst, ◌∙◌, ap, inl, inr, Option, none, some, List, [], ◌∷◌, ◌++◌, if◌then◌else◌,
  Text, str_eq, str_eq_iff, Bool-cases, Option-cases, some-eq-some, get_key, set_key,
  get_key-set_key,
}
use kilo_clustermesh_operato.Base.{lookup, ne_of_str_eq-false, ◌⊎◌, ◌↔◌}
use kilo_clustermesh_operato.Api.{Node}
use kilo_clustermesh_operato.Kilonode.{source}
use kilo_clustermesh_operato.Kilonode.Discovered.{
  annotation_discovered_endpoints, DiscoveredEntry, Decoder, observed_endpoint, add_entries,
  node_entries, add_nodes, discovered_endpoints_by_key,
}

abbrev decoded : Option (List (Text × DiscoveredEntry)) → List (Text × DiscoveredEntry)
decoded none = []
decoded (some entries) = entries

-- What an annotation says: nothing if it is missing, empty or malformed.
abbrev pub observations : Decoder → Option Text → List (Text × DiscoveredEntry)
observations decode none = []
observations decode (some []) = []
observations decode (some (b ∷ bs)) = decoded (decode (b ∷ bs))

-- The entries of the nodes' annotations `kilo.squat.ai/discovered-endpoints`, in the order in which
-- they are visited.
abbrev pub all_observed : Decoder → List Node → List (Text × DiscoveredEntry)
all_observed decode [] = []
all_observed decode (n ∷ ns) =
    observations decode (lookup annotation_discovered_endpoints n.annotations)
    ++ all_observed decode ns

-- The text is the endpoint of the first usable entry of the key.
abbrev pub IsFirst : Text → Text → List (Text × DiscoveredEntry) → Type 0
IsFirst key t [] = ⊥
IsFirst key t ((k, entry) ∷ es) =
    ((k ≡ key) × IsUsable entry t)
    ⊎ ((k ≡ key → (u : Text) → IsUsable entry u → ⊥) × IsFirst key t es)

node_entries-observations :
    (decode : Decoder) (n : Node)
    → node_entries decode n
      ≡ observations decode (lookup annotation_discovered_endpoints n.annotations)
unfolding node_entries source
node_entries-observations decode n =
    elim (Option-cases (lookup annotation_discovered_endpoints n.annotations)) [
      | inl missing ↦ rw (missing, node_entries, source) refl
      | inr ([], there) ↦ rw (there, node_entries, source) refl
      | inr (b ∷ bs, there) ↦ elim (Option-cases (decode (b ∷ bs))) [
        | inl bad ↦ rw (there, node_entries, source, bad) refl
        | inr (es, good) ↦ rw (there, node_entries, source, good) refl
      ]
    ]

abbrev or_else : Option Text → Option Text → Option Text
or_else none o = o
or_else (some t) o = some t

-- The endpoint of the first usable entry of a key.
abbrev first_observed : Text → List (Text × DiscoveredEntry) → Option Text
first_observed key [] = none
first_observed key ((k, entry) ∷ es) =
    let later = first_observed key es in
    if str_eq k key then or_else (observed_endpoint entry) later else later

or_else-none : (o : Option Text) → or_else o none ≡ o
or_else-none none = refl
or_else-none (some t) = refl

or_else_assoc : (a b c : Option Text) → or_else (or_else a b) c ≡ or_else a (or_else b c)
or_else_assoc none b c = refl
or_else_assoc (some t) b c = refl

-- An entry that adds nothing leaves the first value as it is.
add_entries-get_key :
    (key : Text) (result : List (Text × Text)) (entries : List (Text × DiscoveredEntry))
    → get_key key (add_entries result entries)
      ≡ or_else (get_key key result) (first_observed key entries)
unfolding add_entries
add_entries-get_key key result [] = sym (or_else-none (get_key key result))
add_entries-get_key key result ((k, entry) ∷ es) = elim (Option-cases (observed_endpoint entry)) [
  | inl unusable ↦
      rw (unusable, add_entries)
        (add_entries-get_key key result es
          ∙ ap (or_else (get_key key result))
              (elim (Bool-cases (str_eq k key)) [ inl h ↦ rw h refl | inr h ↦ rw h refl ]))
  | inr (t, usable) ↦ elim (Option-cases (get_key k result)) [
    | inr (u, seen) ↦
        rw (usable, seen, add_entries)
          (add_entries-get_key key result es ∙ elim (Bool-cases (str_eq k key)) [
            | inr miss ↦ rw miss refl
            | inl hit ↦
                let here = subst (λ x. get_key x result ≡ some u) ((str_eq_iff k key).0 hit) seen in
                rw (hit, here) refl
          ])
    | inl fresh ↦
        rw (usable, fresh, add_entries)
          (add_entries-get_key key (set_key k t result) es ∙ elim (Bool-cases (str_eq k key)) [
            | inr miss ↦ rw miss (
                ap (λ o. or_else o (first_observed key es))
                  (get_key-set_key k key t result ∙ rw miss refl))
            | inl hit ↦
                let missing =
                  subst (λ x. get_key x result ≡ none) ((str_eq_iff k key).0 hit) fresh in
                let set : get_key key (set_key k t result) ≡ some t =
                  get_key-set_key k key t result ∙ rw hit refl in
                rw (hit, missing, set) refl
          ])
  ]
]

first_observed-append :
    (key : Text) (xs ys : List (Text × DiscoveredEntry))
    → first_observed key (xs ++ ys) ≡ or_else (first_observed key xs) (first_observed key ys)
first_observed-append key [] ys = refl
first_observed-append key ((k, entry) ∷ xs) ys = elim (Bool-cases (str_eq k key)) [
  | inr miss ↦ rw miss (first_observed-append key xs ys)
  | inl hit ↦ rw hit (
      ap (or_else (observed_endpoint entry)) (first_observed-append key xs ys)
      ∙ sym
          (or_else_assoc (observed_endpoint entry) (first_observed key xs) (first_observed key ys)))
]

add_nodes-get_key :
    (decode : Decoder) (key : Text) (result : List (Text × Text)) (nodes : List Node)
    → get_key key (add_nodes decode result nodes)
      ≡ or_else (get_key key result) (first_observed key (all_observed decode nodes))
unfolding add_nodes
add_nodes-get_key decode key result [] = sym (or_else-none (get_key key result))
add_nodes-get_key decode key result (n ∷ ns) =
    let here = observations decode (lookup annotation_discovered_endpoints n.annotations) in
    rw (node_entries-observations decode n, add_nodes)
      (let later = first_observed key (all_observed decode ns) in
        add_nodes-get_key decode key (add_entries result here) ns
        ∙ ap (λ o. or_else o later) (add_entries-get_key key result here)
        ∙ or_else_assoc (get_key key result) (first_observed key here) later
        ∙ ap (or_else (get_key key result))
            (sym (first_observed-append key here (all_observed decode ns))))

or_else-some :
    (o later : Option Text) (t : Text)
    → (or_else o later ≡ some t) ↔ ((o ≡ some t) ⊎ ((o ≡ none) × (later ≡ some t)))
or_else-some none later t = (λ e. inr (refl, e), λ v. elim v [ inl e ↦ cc | inr (_, e) ↦ e ])
or_else-some (some u) later t = (λ e. inl e, λ v. elim v [ inl e ↦ e | inr (e, _) ↦ cc ])

first_observed_iff :
    (key t : Text) (es : List (Text × DiscoveredEntry))
    → (first_observed key es ≡ some t) ↔ IsFirst key t es
first_observed_iff key t [] = (λ e. cc, λ out. absurd out)
first_observed_iff key t ((k, entry) ∷ es) =
    let (to, from) = first_observed_iff key t es in
    let (usable, endpoint) = observed_endpoint_iff entry t in
    let (unusable, nothing) = none-unusable entry in
    elim (Bool-cases (str_eq k key)) [
      | inr miss ↦
          let other = ne_of_str_eq-false k key miss in
          rw miss (
            λ e. inr ((λ same. absurd (other same)), to e),
            λ v. elim v [ inl (same, _) ↦ absurd (other same) | inr (_, later) ↦ from later ],
          )
      | inl hit ↦
          let same = (str_eq_iff k key).0 hit in
          let (split, join) = or_else-some (observed_endpoint entry) (first_observed key es) t in
          rw hit (
            λ e. elim (split e) [
              | inl now ↦ inl (same, usable now)
              | inr (not_now, later) ↦ inr ((λ _. unusable not_now), to later)
            ],
            λ v. join (elim v [
              | inl (_, now) ↦ inl (endpoint now)
              | inr (not_now, later) ↦ inr (nothing (not_now same), from later)
            ]),
          )
    ]

pub discovered_endpoints-IsFirst :
    (decode : Decoder) (nodes : List Node) (found : Text → Option Text) (key t : Text)
    → discovered_endpoints_by_key decode (some nodes) ≡ some found
    → (found key ≡ some t) ↔ IsFirst key t (all_observed decode nodes)
unfolding discovered_endpoints_by_key get_key
discovered_endpoints-IsFirst decode nodes found key t e =
    let (to, from) = first_observed_iff key t (all_observed decode nodes) in
    let found_first : found key ≡ first_observed key (all_observed decode nodes) =
      ap (λ f. f key) (sym (some-eq-some _ found e)) ∙ add_nodes-get_key decode key [] nodes in
    (λ h. to (sym found_first ∙ h), λ v. found_first ∙ from v)
