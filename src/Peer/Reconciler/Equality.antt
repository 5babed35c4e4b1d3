-- ===== src/Peer/Reconciler/Equality.antt =====
-- `peerSpecEqual` of internal/peer/reconciler.go on equal specifications.
use kilo_clustermesh_operato.Base.{
  ℕ, ◌≡◌, refl, true, Option, none, some, List, [], ◌∷◌, ◌==◌, Text, str_eq_refl, ==_iff, length,
}
use kilo_clustermesh_operato.Api.{PeerSpec, PeerEndpoint}
use kilo_clustermesh_operato.Peer.Reconciler.{
  sort_strings, texts_equal, allowed_ips_equal, endpoint_equal, peer_spec_equal,
}

texts_equal_refl : (ss : List Text) → texts_equal ss ss ≡ true
unfolding texts_equal
texts_equal_refl [] = refl
texts_equal_refl (s ∷ ss) = rw (str_eq_refl s, texts_equal_refl ss)

==-refl : (n : ℕ) → (n == n) ≡ true
==-refl n = (==_iff n n).1 refl

allowed_ips_equal_refl : (ips : List Text) → allowed_ips_equal ips ips ≡ true
unfolding allowed_ips_equal
allowed_ips_equal_refl ips = rw (==-refl (length ips), texts_equal_refl (sort_strings ips))

endpoint_equal_refl : (e : Option PeerEndpoint) → endpoint_equal e e ≡ true
unfolding endpoint_equal
endpoint_equal_refl none = refl
endpoint_equal_refl (some e) =
    rw (str_eq_refl e.dns_or_ip.dns, str_eq_refl e.dns_or_ip.ip, ==-refl e.port)

pub peer_spec_equal_refl : (a : PeerSpec) → peer_spec_equal a a ≡ true
unfolding peer_spec_equal
peer_spec_equal_refl a = rw (
  str_eq_refl a.public_key,
  ==-refl a.persistent_keepalive,
  str_eq_refl a.preshared_key,
  endpoint_equal_refl a.endpoint,
  allowed_ips_equal_refl a.allowed_ips,
)
