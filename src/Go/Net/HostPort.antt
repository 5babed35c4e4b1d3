-- ===== src/Go/Net/HostPort.antt =====
-- `net.SplitHostPort` and `net.JoinHostPort`.
pub mod Laws
pub mod RoundTrip
use kilo_clustermesh_operato.Base.{
  ℕ, zero, suc, Bool, true, false, ◌&&◌, ◌||◌, Option, none, some, List, [], ◌∷◌, ◌++◌, ◌==◌,
  if◌then◌else◌, length, Text, codes, ◌>>=◌,
}
use kilo_clustermesh_operato.Go.Strings.{has_char, cut, cut_last}

-- `hostport[0] == '['`
abbrev is_bracketed : Text → Bool
is_bracketed [] = false
is_bracketed (c ∷ s) = c == b'['

-- The host between the brackets, checked for further brackets.
checked : Text → Text → Text → Option (Text × Text)
unfolding has_char
checked [] rest port = none
checked (c ∷ host) rest port =
    if length rest == 0
    then (if has_char b'[' host || has_char b'[' port || has_char b']' port
        then none
        else some (host, port))
    else none

-- A bracketed host: the first `]` stands just before the last colon.
bracketed : Text → Text → Option (Text × Text)
unfolding cut checked
bracketed before port = elim (cut b']' before) [
  | none ↦ none
  | some (inner, rest) ↦ checked inner rest port
]

bare : Text → Text → Option (Text × Text)
unfolding has_char
bare host port =
    if has_char b':' host
      || has_char b'[' host
      || has_char b'[' port
      || has_char b']' host
      || has_char b']' port
    then none
    else some (host, port)

unfoldable pub split_host_port : Text → Option (Text × Text)
unfolding cut_last bracketed bare
split_host_port s = do
  (before, port) ← cut_last b':' s
  if is_bracketed s then bracketed before port else bare before port

unfoldable pub join_host_port : Text → Text → Text
unfolding has_char
join_host_port host port =
    if has_char b':' host then b'[' ∷ host ++ codes "]:" ++ port else host ++ b':' ∷ port
