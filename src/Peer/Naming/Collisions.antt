-- ===== src/Peer/Naming/Collisions.antt =====
-- The peers that `Name` of internal/peer/naming.go does not tell apart.
use kilo_clustermesh_operato.Base.{◌≡◌, sym, ◌∙◌, ap, ◌∷◌, ◌++◌, append_assoc, Text}
use kilo_clustermesh_operato.Peer.Naming.{Platform, raw_name, name_of_raw, name}

-- Two parts joined as `Name` joins them.
abbrev pub joined : Text → Text → Text
joined a b = a ++ (b'-' ∷ b'-' ∷ b)

joined_assoc : (a b c : Text) → joined (joined a b) c ≡ joined a (joined b c)
joined_assoc a b c = append_assoc a (b'-' ∷ b'-' ∷ b) (b'-' ∷ b'-' ∷ c)

-- The separator "--" may occur in a name: a mesh `a` with a source cluster `b--c` and a mesh `a--b`
-- with a source cluster `c` get the same peer name for a node of the same name.
pub name-joined :
    (os : Platform) (a b c node : Text) → name os a (joined b c) node ≡ name os (joined a b) c node
unfolding name raw_name
name-joined os a b c node =
    ap (name_of_raw os)
      (ap (joined a) (joined_assoc b c node) ∙ sym (joined_assoc a b (joined c node)))
