-- ===== src/Peer/Naming/Bounds.antt =====
-- `Name` of internal/peer/naming.go: the length of a name.
use mathlib.Core.List.{reverse-cons}
use kilo_clustermesh_operato.Base.{
  ℕ, suc, ◌-◌, ◌≤◌, ◌≡◌, refl, inl, inr, ◌∙◌, ap, zero, Bool, [], ◌∷◌, Text, length, take, leb,
  leb_iff, arith, Bool-cases, length-append, reverse,
}
use kilo_clustermesh_operato.Go.Strings.{trim_left, trim_right}
use kilo_clustermesh_operato.Peer.Naming.{
  Platform, is_separator, max_name_length, raw_name, sanitize_dns, name_of_raw, name,
}

length-trim_left : (p : ℕ → Bool) (s : Text) → length (trim_left p s) ≤ length s
unfolding trim_left
length-trim_left p [] = omega arith
length-trim_left p (c ∷ s) = elim (Bool-cases (p c)) [
  | inl h ↦ rw h (omega (arith, length-trim_left p s))
  | inr h ↦ rw h (omega arith)
]

length-reverse : (s : Text) → length (reverse s) ≡ length s
length-reverse [] = refl
length-reverse (c ∷ s) =
    ap length (reverse-cons c s)
    ∙ length-append (reverse s) (c ∷ [])
    ∙ omega (arith, length-reverse s)

length-trim_right : (p : ℕ → Bool) (s : Text) → length (trim_right p s) ≤ length s
unfolding trim_right
length-trim_right p s = omega (
  arith,
  length-reverse (trim_left p (reverse s)),
  length-trim_left p (reverse s),
  length-reverse s,
)

length-take : (n : ℕ) (s : Text) → length (take n s) ≤ n
length-take zero s = omega arith
length-take (suc n) [] = omega arith
length-take (suc n) (c ∷ s) = omega (arith, length-take n s)

-- If the digest of a text has 16 characters, a name of `Name` has at most 253, however long the
-- names of the mesh, the cluster and the node are.
pub length-name :
    (os : Platform)
    → ((s : Text) → length (os.hash16 s) ≡ 16)
    → (mesh source node : Text) → length (name os mesh source node) ≤ max_name_length
unfolding name name_of_raw
length-name os digest mesh source node =
    let raw = raw_name mesh source node in
    let safe = sanitize_dns os raw in
    elim (Bool-cases (leb (length safe) max_name_length)) [
      | inl short ↦ rw short ((leb_iff _ _).0 short)
      | inr long ↦ rw long (
          omega (
            arith,
            digest raw,
            length-append (trim_right is_separator (take (max_name_length - 17) safe))
                (b'-' ∷ os.hash16 raw),
            length-trim_right is_separator (take (max_name_length - 17) safe),
            length-take (max_name_length - 17) safe,
          ))
    ]
