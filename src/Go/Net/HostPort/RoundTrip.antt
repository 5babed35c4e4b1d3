-- ===== src/Go/Net/HostPort/RoundTrip.antt =====
-- `net.SplitHostPort` of `net.JoinHostPort`.
use kilo_clustermesh_operato.Base.{
  ℕ, ◌≡◌, refl, false, some, [], ◌∷◌, ◌++◌, Text, codes, arith, Bool-cases, inl, inr,
}
use kilo_clustermesh_operato.Go.Strings.{has_char, cut}
use kilo_clustermesh_operato.Go.Strings.Laws.{cut_last-append}
use kilo_clustermesh_operato.Go.Net.HostPort.{
  split_host_port, join_host_port, bracketed, bare, is_bracketed, checked,
}
use kilo_clustermesh_operato.Go.Net.HostPort.Laws.{cut_last-bracketed}

-- A text without brackets.
pub record IsUnbracketed (s : Text) : Type 0 where
  pub no_left : has_char b'[' s ≡ false
  pub no_right : has_char b']' s ≡ false

cut-append : (c : ℕ) (p : Text) → has_char c p ≡ false → cut c (p ++ c ∷ []) ≡ some (p, [])
unfolding cut has_char
cut-append c [] h = ground arith
cut-append c (d ∷ p) h = ground (arith, cut-append c p)

not_bracketed :
    (host port : Text) → has_char b'[' host ≡ false → is_bracketed (host ++ b':' ∷ port) ≡ false
unfolding has_char
not_bracketed [] port h = refl
not_bracketed (c ∷ host) port h = ground arith

module _ (host port : Text) (h : IsUnbracketed host) (p : IsUnbracketed port)
    (bare_port : has_char b':' port ≡ false) where
  bracketed-joined : bracketed (b'[' ∷ host ++ codes "]") port ≡ some (host, port)
  unfolding bracketed checked has_char
  bracketed-joined =
      rw (cut-append b']' (b'[' ∷ host) (ground (arith, h.no_right)), bracketed)
        (rw (h.no_left, p.no_left, p.no_right) refl)

  bare-joined : has_char b':' host ≡ false → bare host port ≡ some (host, port)
  unfolding bare
  bare-joined v4 = rw (v4, h.no_left, h.no_right, p.no_left, p.no_right) refl

  pub split_host_port-join_host_port :
      split_host_port (join_host_port host port) ≡ some (host, port)
  unfolding split_host_port join_host_port
  split_host_port-join_host_port = elim (Bool-cases (has_char b':' host)) [
    | inl v6 ↦ rw v6 (rw (cut_last-bracketed host port bare_port) bracketed-joined)
    | inr v4 ↦ rw v4 (
        rw (cut_last-append b':' host port bare_port)
          (rw (not_bracketed host port h.no_left) (bare-joined v4)))
  ]
