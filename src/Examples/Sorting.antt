-- ===== src/Examples/Sorting.antt =====
-- An insertion sort of the watcher's refs, with what is documented of `sort.Slice`.
use kilo_clustermesh_operato.Base.{
  ◌≡◌, ◌↔◌, refl, sym, ◌∙◌, ap, subst, inl, inr, ◌⊎◌, true, false, List, [], ◌∷◌, ◌++◌, Text, In,
  AllPairs, str_lt, str_lt_asym, str_lt-false_trans, Bool-cases, if◌then◌else◌,
}
use kilo_clustermesh_operato.Restart.Watcher.{ClusterRef, Tools}
use kilo_clustermesh_operato.Restart.Watcher.Refs.{NamesDiffer}
use kilo_clustermesh_operato.Restart.Watcher.Fingerprint.{IsSort}

unfoldable pub insert_ref : ClusterRef → List ClusterRef → List ClusterRef
insert_ref x [] = x ∷ []
insert_ref x (y ∷ ys) = if str_lt y.name x.name then y ∷ insert_ref x ys else x ∷ y ∷ ys

unfoldable pub sort_refs : List ClusterRef → List ClusterRef
unfolding insert_ref
sort_refs [] = []
sort_refs (x ∷ xs) = insert_ref x (sort_refs xs)

In-insert_ref :
    (z x : ClusterRef) (ys : List ClusterRef) → In z (insert_ref x ys) ↔ ((z ≡ x) ⊎ In z ys)
unfolding insert_ref
In-insert_ref z x [] = (λ i. i, λ i. i)
In-insert_ref z x (y ∷ ys) =
    let (to, from) = In-insert_ref z x ys in
    elim (Bool-cases (str_lt y.name x.name)) [
      | inr h ↦ rw h (λ i. i, λ i. i)
      | inl h ↦ rw h (
        λ i. elim i [
          | inl same ↦ inr (inl same)
          | inr j ↦ elim (to j) [ inl same ↦ inl same | inr k ↦ inr (inr k) ]
        ],
        λ i. elim i [
          | inl same ↦ inr (from (inl same))
          | inr j ↦ elim j [ inl same ↦ inl same | inr k ↦ inr (from (inr k)) ]
        ],
      )
    ]

In-sort_refs : (xs : List ClusterRef) (z : ClusterRef) → In z (sort_refs xs) ↔ In z xs
unfolding sort_refs
In-sort_refs [] z = (λ i. i, λ i. i)
In-sort_refs (x ∷ xs) z =
    let (to, from) = In-insert_ref z x (sort_refs xs) in
    let (to', from') = In-sort_refs xs z in
    (
      λ i. elim (to i) [ inl same ↦ inl same | inr j ↦ inr (to' j) ],
      λ i. from (elim i [ inl same ↦ inl same | inr j ↦ inr (from' j) ]),
    )

-- An insertion keeps a relation that the new ref has with the others on either side.
insert_ref-AllPairs :
    (R : ClusterRef → ClusterRef → Type 0) (x : ClusterRef) (ys : List ClusterRef)
    → ((y : ClusterRef) → In y ys → str_lt y.name x.name ≡ true → R y x)
    → ((y z : ClusterRef)
        → In y ys
        → str_lt y.name x.name ≡ false
        → (z ≡ y) ⊎ (In z ys × R y z)
        → R x z)
    → AllPairs R ys
    → AllPairs R (insert_ref x ys)
unfolding insert_ref
insert_ref-AllPairs R x [] before behind d = (λ z i. absurd i, tt)
insert_ref-AllPairs R x (y ∷ ys) before behind d = elim (Bool-cases (str_lt y.name x.name)) [
  | inl h ↦ rw h (
    (λ z i. elim ((In-insert_ref z x ys).0 i) [
      | inl same ↦ subst (R y) (sym same) (before y (inl refl) h)
      | inr j ↦ d.0 z j
    ]),
    insert_ref-AllPairs R x ys (λ v i. before v (inr i))
        (λ v z i k c. behind v z (inr i) k (elim c [ inl e ↦ inl e | inr (j, q) ↦ inr (inr j, q) ]))
        d.1,
  )
  | inr h ↦ rw h (
    (λ z i.
        behind y z (inl refl) h (elim i [ inl same ↦ inl same | inr j ↦ inr (inr j, d.0 z j) ])),
    d,
  )
]

sorted : (xs : List ClusterRef) → AllPairs (λ a b. str_lt b.name a.name ≡ false) (sort_refs xs)
unfolding sort_refs
sorted [] = tt
sorted (x ∷ xs) =
    insert_ref-AllPairs (λ a b. str_lt b.name a.name ≡ false) x (sort_refs xs)
      (λ y i h. str_lt_asym y.name x.name h)
      (λ y z i h c. elim c [
        | inl same ↦ ap (λ v. str_lt v.name x.name) same ∙ h
        | inr (j, q) ↦ str_lt-false_trans x.name y.name z.name h q
      ])
      (sorted xs)

kept_distinct :
    (xs : List ClusterRef) → AllPairs NamesDiffer xs → AllPairs NamesDiffer (sort_refs xs)
unfolding sort_refs
kept_distinct [] d = tt
kept_distinct (x ∷ xs) d =
    insert_ref-AllPairs NamesDiffer x (sort_refs xs)
      (λ y i h e. d.0 y ((In-sort_refs xs y).0 i) (sym e))
      (λ y z i h c. elim c [
        | inl same ↦ λ e. d.0 y ((In-sort_refs xs y).0 i) (e ∙ ap (λ v. v.name) same)
        | inr (j, q) ↦ d.0 z ((In-sort_refs xs z).0 j)
      ])
      (kept_distinct xs d.1)

-- The digest is the texts of the refs in a row.
abbrev digest_refs : List ClusterRef → Text
digest_refs [] = []
digest_refs (x ∷ xs) = x.name ++ (0 ∷ x.secret_rv) ++ (0 ∷ digest_refs xs)

abbrev pub tools : Tools
tools = record { sort_by_name = sort_refs; digest = digest_refs }

pub tools-IsSort : IsSort tools
tools-IsSort = record { members = In-sort_refs; ordered = sorted; distinct = kept_distinct }
