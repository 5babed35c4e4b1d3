-- ===== src/Go/Net/HostPort/Laws.antt =====
-- What `net.SplitHostPort` and `net.JoinHostPort` say of the last colon.
use kilo_clustermesh_operato.Base.{
  ◌≡◌, ◌∙◌, ap, Bool, true, false, some, [], ◌∷◌, ◌++◌, Text, codes, arith, if◌then◌else◌,
  Option-cases, Bool-cases, inl, inr, >>=-eq-some, append_assoc,
}
use kilo_clustermesh_operato.Go.Strings.{has_char, cut, cut_last}
use kilo_clustermesh_operato.Go.Strings.Laws.{cut_last-append}
use kilo_clustermesh_operato.Go.Net.HostPort.{
  split_host_port, join_host_port, bracketed, bare, is_bracketed, checked,
}

pub cut_last-bracketed :
    (host port : Text)
    → has_char b':' port ≡ false
    → cut_last b':' (b'[' ∷ host ++ codes "]:" ++ port) ≡ some (b'[' ∷ host ++ codes "]", port)
cut_last-bracketed host port h =
    ap (cut_last b':') (simp append_assoc) ∙ cut_last-append b':' (b'[' ∷ host ++ codes "]") port h

checked-port :
    (inner rest port host' port' : Text)
    → checked inner rest port ≡ some (host', port')
    → port ≡ port'
unfolding checked
checked-port [] rest port host' port' e = cc
checked-port (c ∷ host) rest port host' port' e = ground arith

bracketed-port :
    (before port host' port' : Text) → bracketed before port ≡ some (host', port') → port ≡ port'
unfolding bracketed
bracketed-port before port host' port' e = elim (Option-cases (cut b']' before)) [
  | inl h ↦ cc (rw (h, bracketed) at e)
  | inr ((inner, rest), h) ↦ checked-port inner rest port host' port' (rw (h, bracketed) at e)
]

bare-port : (host port host' port' : Text) → bare host port ≡ some (host', port') → port ≡ port'
unfolding bare
bare-port host port host' port' e = ground arith

chosen-port :
    (b : Bool) (before port host' port' : Text)
    → (if b then bracketed before port else bare before port) ≡ some (host', port')
    → port ≡ port'
chosen-port true before port host' port' e = bracketed-port before port host' port' e
chosen-port false before port host' port' e = bare-port before port host' port' e

-- The port that `SplitHostPort` returns is the text behind the last colon.
pub cut_last_of_split_host_port :
    (s host port : Text)
    → split_host_port s ≡ some (host, port)
    → (before : Text) × (cut_last b':' s ≡ some (before, port))
unfolding split_host_port
cut_last_of_split_host_port s host port e =
    let ((before, behind), e1, f1) = >>=-eq-some (cut_last b':' s) _ e in
    (
      before,
      e1 ∙ ap (λ q. some (before, q)) (chosen-port (is_bracketed s) before behind host port f1),
    )

pub cut_last-join_host_port :
    (host port : Text)
    → has_char b':' port ≡ false
    → (before : Text) × (cut_last b':' (join_host_port host port) ≡ some (before, port))
unfolding join_host_port
cut_last-join_host_port host port h = elim (Bool-cases (has_char b':' host)) [
  | inl v6 ↦ (b'[' ∷ host ++ codes "]", rw v6 (cut_last-bracketed host port h))
  | inr v4 ↦ (host, rw v4 (cut_last-append b':' host port h))
]
