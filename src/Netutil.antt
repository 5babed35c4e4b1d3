-- ===== src/Netutil.antt =====
-- internal/netutil/cidr.go: parsing and comparing networks. A network that the program compares
-- comes from `net.ParseCIDR`, so its mask is as long as its address and no index is out of range.
pub mod Overlap
pub mod Containment
use Prim.Native.Nat.{bit_or}
use mathlib.Core.Option
use kilo_clustermesh_operato.Base.{
  ℕ, ◌-◌, Bool, true, false, ◌||◌, Option, none, some, List, [], ◌∷◌, ◌++◌, ◌==◌, if◌then◌else◌,
  Text, codes,
}
use kilo_clustermesh_operato.Go.Net.Address.{Ip, IpMask, IpNet, to4, contains, mask_size}
use kilo_clustermesh_operato.Go.Net.Parse
use kilo_clustermesh_operato.Go.Net.Format.{ip_string}

-- `ParseCIDR`: the masked network, `none` for the error.
unfoldable pub parse_cidr : Text → Option IpNet
unfolding Parse.parse_cidr
parse_cidr s = Option.map (λ r. r.1) (Parse.parse_cidr s)

last_bytes : Ip → IpMask → Ip
last_bytes [] m = []
last_bytes (a ∷ ip) [] = a ∷ ip
last_bytes (a ∷ ip) (b ∷ m) = bit_or a (255 - b) ∷ last_bytes ip m

-- `lastAddr`
pub last_addr : IpNet → Ip
unfolding last_bytes
last_addr n = last_bytes n.ip n.mask

-- `CIDRContains`
unfoldable pub cidr_contains : IpNet → IpNet → Bool
unfolding last_addr
cidr_contains outer inner =
    if contains outer inner.ip then contains outer (last_addr inner) else false

-- `CIDROverlaps`
unfoldable pub cidr_overlaps : IpNet → IpNet → Bool
cidr_overlaps a b = contains a b.ip || contains b a.ip

-- `IsHostRoute`
unfoldable pub is_host_route : IpNet → Bool
is_host_route n = let (ones, bits) = mask_size n.mask in ones == bits

-- `ParseHostInCIDR`: the host address and the masked network.
unfoldable pub parse_host_in_cidr : Text → Option (Ip × IpNet)
unfolding Parse.parse_cidr
parse_host_in_cidr s = Parse.parse_cidr s

-- `HostRoute`
unfoldable pub host_route : Ip → Text
unfolding to4 ip_string
host_route ip = elim (to4 ip) [
  | some v4 ↦ ip_string ip ++ codes "/32"
  | none ↦ ip_string ip ++ codes "/128"
]
