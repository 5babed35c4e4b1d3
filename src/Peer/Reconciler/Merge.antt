-- ===== src/Peer/Reconciler/Merge.antt =====
-- `mergeAllowedIPs` of internal/peer/reconciler.go.
use kilo_clustermesh_operato.Base.{
  ◌≡◌, ◌≢◌, ◌↔◌, refl, sym, subst, ◌∙◌, any-str_eq_iff, inl, inr, ◌⊎◌, List, [], ◌∷◌, Text, str_eq,
  str_lt, any, In, AllPairs, Bool-cases,
}
use kilo_clustermesh_operato.Peer.Reconciler.{
  insert_sorted, sort_strings, union_into, merge_allowed_ips,
}

In-insert_sorted : (x s : Text) (ts : List Text) → In x (insert_sorted s ts) ↔ ((x ≡ s) ⊎ In x ts)
unfolding insert_sorted
In-insert_sorted x s [] = (λ i. i, λ i. i)
In-insert_sorted x s (t ∷ ts) = elim (Bool-cases (str_lt t s)) [
  | inr h ↦ rw h (λ i. i, λ i. i)
  | inl h ↦ rw h (
    λ i. elim i [
      | inl same ↦ inr (inl same)
      | inr j ↦ elim ((In-insert_sorted x s ts).0 j) [ inl same ↦ inl same | inr k ↦ inr (inr k) ]
    ],
    λ i. elim i [
      | inl same ↦ inr ((In-insert_sorted x s ts).1 (inl same))
      | inr j ↦ elim j [ inl same ↦ inl same | inr k ↦ inr ((In-insert_sorted x s ts).1 (inr k)) ]
    ],
  )
]

In-sort_strings : (x : Text) (ts : List Text) → In x (sort_strings ts) ↔ In x ts
unfolding sort_strings
In-sort_strings x [] = (λ i. i, λ i. i)
In-sort_strings x (t ∷ ts) =
    let (to, from) = In-insert_sorted x t (sort_strings ts) in
    (
      λ i. elim (to i) [ inl same ↦ inl same | inr j ↦ inr ((In-sort_strings x ts).0 j) ],
      λ i. from (elim i [ inl same ↦ inl same | inr j ↦ inr ((In-sort_strings x ts).1 j) ]),
    )

abbrev Differ : Text → Text → Type 0
Differ s t = s ≢ t

-- A set gets the members of a list, and stays a set.
In-union_into :
    (x : Text) (seen ips : List Text) → In x (union_into seen ips) ↔ (In x seen ⊎ In x ips)
unfolding union_into
In-union_into x seen [] = (λ i. inl i, λ i. elim i [ inl j ↦ j | inr j ↦ absurd j ])
In-union_into x seen (ip ∷ ips) = elim (Bool-cases (any (str_eq ip) seen)) [
  | inl old ↦
      let (to, from) = In-union_into x seen ips in
      rw old (
        λ i. elim (to i) [ inl j ↦ inl j | inr j ↦ inr (inr j) ],
        λ i. elim i [
          | inl j ↦ from (inl j)
          | inr k ↦ elim k [
            | inl same ↦ from (inl (rw same ((any-str_eq_iff ip seen).0 old)))
            | inr j ↦ from (inr j)
          ]
        ],
      )
  | inr new ↦
      let (to, from) = In-union_into x (ip ∷ seen) ips in
      rw new (
        λ i. elim (to i) [
          | inl k ↦ elim k [ inl same ↦ inr (inl same) | inr j ↦ inl j ]
          | inr j ↦ inr (inr j)
        ],
        λ i. elim i [
          | inl j ↦ from (inl (inr j))
          | inr k ↦ elim k [ inl same ↦ from (inl (inl same)) | inr j ↦ from (inr j) ]
        ],
      )
]

union_into-distinct :
    (seen ips : List Text) → AllPairs Differ seen → AllPairs Differ (union_into seen ips)
unfolding union_into
union_into-distinct seen [] d = d
union_into-distinct seen (ip ∷ ips) d = elim (Bool-cases (any (str_eq ip) seen)) [
  | inl old ↦ rw old (union_into-distinct seen ips d)
  | inr new ↦ rw new (
      union_into-distinct (ip ∷ seen) ips (
        (λ t i same. cc ((any-str_eq_iff ip seen).1 (subst (λ y. In y seen) (sym same) i), new)),
        d,
      ))
]

insert_sorted-distinct :
    (s : Text) (ts : List Text)
    → ((t : Text) → In t ts → s ≢ t)
    → AllPairs Differ ts
    → AllPairs Differ (insert_sorted s ts)
unfolding insert_sorted
insert_sorted-distinct s [] apart d = (λ t i. absurd i, tt)
insert_sorted-distinct s (t ∷ ts) apart d = elim (Bool-cases (str_lt t s)) [
  | inr h ↦ rw h (apart, d)
  | inl h ↦ rw h (
    (λ u i. elim ((In-insert_sorted u s ts).0 i) [
      | inl same ↦ λ e. apart t (inl refl) (sym (e ∙ same))
      | inr j ↦ d.0 u j
    ]),
    insert_sorted-distinct s ts (λ u i. apart u (inr i)) d.1,
  )
]

sort_strings-distinct : (ts : List Text) → AllPairs Differ ts → AllPairs Differ (sort_strings ts)
unfolding sort_strings
sort_strings-distinct [] d = tt
sort_strings-distinct (t ∷ ts) d =
    insert_sorted-distinct t (sort_strings ts) (λ u i. d.0 u ((In-sort_strings u ts).0 i))
      (sort_strings-distinct ts d.1)

-- `mergeAllowedIPs` returns the union: a network is in the merged list exactly when it is in one of
-- the two lists, and no network is in it twice.
pub merge_allowed_ips-union :
    (a b : List Text)
    → ((x : Text) → In x (merge_allowed_ips a b) ↔ (In x a ⊎ In x b))
      × AllPairs (λ s t. s ≢ t) (merge_allowed_ips a b)
unfolding merge_allowed_ips
merge_allowed_ips-union a b = (
  λ x.
      let (to, from) = In-union_into x (union_into [] a) b in
      let (to', from') = In-union_into x [] a in
      let (out, back) = In-sort_strings x (union_into (union_into [] a) b) in
      (
        λ i. elim (to (out i)) [
          | inl j ↦ elim (to' j) [ inl k ↦ absurd k | inr k ↦ inl k ]
          | inr j ↦ inr j
        ],
        λ i. back (from (elim i [ inl j ↦ inl (from' (inr j)) | inr j ↦ inr j ])),
      ),
  sort_strings-distinct (union_into (union_into [] a) b)
      (union_into-distinct (union_into [] a) b (union_into-distinct [] a tt)),
)
