-- ===== src/Go/Tests.antt =====
-- Runs of the standard library's functions, on inputs that its documentation and tests show.
use mathlib.Core.Option
use kilo_clustermesh_operato.Base.{
  ◌≡◌, refl, true, false, Option, none, some, [], ◌∷◌, codes, replicate, String, Text, ◌++◌,
}
use kilo_clustermesh_operato.Go.Strconv.{parse_uint, format_uint}
use kilo_clustermesh_operato.Go.Net.Address.{IpNet, contains, mask_size}
use kilo_clustermesh_operato.Go.Net.Parse.{parse_ip, parse_cidr, parse_addr}
use kilo_clustermesh_operato.Go.Net.Format.{ip_string}
use kilo_clustermesh_operato.Go.Net.HostPort.{split_host_port, join_host_port}

v4_tests :
    (parse_addr (codes "10.4.0.1") ≡ some (10 ∷ 4 ∷ 0 ∷ 1 ∷ []))
    × (parse_addr (codes "10.04.0.1") ≡ none)
    × (parse_addr (codes "10.4.0.256") ≡ none)
    × (parse_addr (codes "10.4.0.") ≡ none)
    × (parse_addr (codes "node-1") ≡ none)
unfolding parse_addr
v4_tests = (refl, refl, refl, refl, refl)

v6_tests :
    (parse_addr (codes "::") ≡ some (replicate 16 0))
    × (parse_addr (codes "2001:db8::1") ≡ some (32 ∷ 1 ∷ 13 ∷ 184 ∷ replicate 11 0 ++ 1 ∷ []))
    × (parse_addr (codes "::ffff:1.2.3.4")
        ≡ some (replicate 10 0 ++ 255 ∷ 255 ∷ 1 ∷ 2 ∷ 3 ∷ 4 ∷ []))
    × (parse_addr (codes "1:2:3:4:5:6:7:8:9") ≡ none)
    × (parse_addr (codes "1::2::3") ≡ none)
    × (parse_addr (codes "fe80::1%eth0") ≡ none)
    × (parse_addr (codes "1:2:3:4:5:6:7:") ≡ none)
    × (parse_addr (codes "12345::") ≡ none)
unfolding parse_addr
v6_tests = (refl, refl, refl, refl, refl, refl, refl, refl)

-- `net.ParseIP(s).String()`
abbrev reprint : String → Option Text
reprint s = Option.map ip_string (parse_ip (codes s))

ip_string_tests :
    (reprint "10.4.0.1" ≡ some (codes "10.4.0.1"))
    × (reprint "2001:DB8:0:0:1:0:0:1" ≡ some (codes "2001:db8::1:0:0:1"))
    × (reprint "::ffff:1.2.3.4" ≡ some (codes "1.2.3.4"))
    × (reprint "fd00::" ≡ some (codes "fd00::"))
unfolding parse_ip ip_string
ip_string_tests = (refl, refl, refl, refl)

cidr_tests :
    (parse_cidr (codes "100.66.0.3/16")
      ≡ some (
        replicate 10 0 ++ 255 ∷ 255 ∷ 100 ∷ 66 ∷ 0 ∷ 3 ∷ [],
        record { ip = 100 ∷ 66 ∷ 0 ∷ 0 ∷ []; mask = 255 ∷ 255 ∷ 0 ∷ 0 ∷ [] },
      ))
    × (parse_cidr (codes "10.4.0.1/33") ≡ none)
    × (parse_cidr (codes "10.4.0.1") ≡ none)
unfolding parse_cidr
cidr_tests = (refl, refl, refl)

abbrev ten : IpNet
ten = record { ip = 10 ∷ 0 ∷ 0 ∷ 0 ∷ []; mask = 255 ∷ 128 ∷ 0 ∷ 0 ∷ [] }

contains_tests :
    (contains ten (10 ∷ 127 ∷ 0 ∷ 1 ∷ []) ≡ true)
    × (contains ten (10 ∷ 128 ∷ 0 ∷ 1 ∷ []) ≡ false)
    × (mask_size ten.mask ≡ (9, 32))
unfolding contains mask_size
contains_tests = (refl, refl, refl)

host_port_tests :
    (split_host_port (codes "[fd00::1]:51820") ≡ some (codes "fd00::1", codes "51820"))
    × (split_host_port (codes "node.example.com:51820")
        ≡ some (codes "node.example.com", codes "51820"))
    × (split_host_port (codes "fd00::1:51820") ≡ none)
    × (split_host_port (codes "[fd00::1]") ≡ none)
    × (split_host_port (codes "[fd00::1]x:1") ≡ none)
    × (join_host_port (codes "fd00::1") (codes "1") ≡ codes "[fd00::1]:1")
    × (parse_uint 16 (codes "65535") ≡ some 65535)
    × (parse_uint 16 (codes "65536") ≡ none)
    × (parse_uint 16 (codes "") ≡ none)
    × (format_uint 51820 ≡ codes "51820")
unfolding split_host_port join_host_port parse_uint format_uint
host_port_tests = (refl, refl, refl, refl, refl, refl, refl, refl, refl, refl)
