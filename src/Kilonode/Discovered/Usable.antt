-- ===== src/Kilonode/Discovered/Usable.antt =====
-- What the inner loop of `DiscoveredEndpointsByKey` of internal/kilonode/discovered.go makes of an entry.
use kilo_clustermesh_operato.Base.{
  ◌≡◌, refl, sym, subst, ◌∙◌, ap, inl, inr, none, some, [], ◌∷◌, Text, Bool-cases, Option-cases,
  some-eq-some,
}
use kilo_clustermesh_operato.Base.{ℕ, zero, suc, Bool, true, false, ◌||◌, ◌↔◌}
use kilo_clustermesh_operato.Go.Strconv.{format_uint}
use kilo_clustermesh_operato.Go.Net.Address.{Ip}
use kilo_clustermesh_operato.Go.Net.Parse.{parse_ip}
use kilo_clustermesh_operato.Go.Net.HostPort.{join_host_port}
use kilo_clustermesh_operato.Kilonode.Discovered.{
  ℤ, pos, negsuc, is_loopback, is_link_local_unicast, DiscoveredEntry, observed_endpoint,
}

-- The entry has an IP that is neither a loopback nor a link-local address, and a positive port; the
-- text joins them.
abbrev pub IsUsable : DiscoveredEntry → Text → Type 0
IsUsable entry t =
    (ip : Ip) × (n : ℕ) × (parse_ip entry.ip ≡ some ip)
    × (is_loopback ip ≡ false)
    × (is_link_local_unicast ip ≡ false)
    × (entry.port ≡ pos (suc n))
    × (t ≡ join_host_port entry.ip (format_uint (suc n)))

or-false : (a b : Bool) → a || b ≡ false → (a ≡ false) × (b ≡ false)
or-false true b e = cc
or-false false b e = (refl, e)

pos-pos : (n m : ℕ) → pos (suc n) ≡ pos (suc m) → n ≡ m
pos-pos n m e = ap predecessor e
  where
    predecessor : ℤ → ℕ
    predecessor (pos (suc k)) = k
    predecessor _ = 0

some_endpoint_iff :
    (b : ℕ) (bs : Text) (n : ℕ) (t : Text)
    → (observed_endpoint (record { ip = b ∷ bs; port = pos (suc n) }) ≡ some t)
      ↔ IsUsable (record { ip = b ∷ bs; port = pos (suc n) }) t
unfolding observed_endpoint
some_endpoint_iff b bs n t = elim (Option-cases (parse_ip (b ∷ bs))) [
  | inl bad ↦ rw (bad, observed_endpoint) (λ e. cc, λ (ip, m, h, l, s, p, r). cc)
  | inr (ip, good) ↦ elim (Bool-cases (is_loopback ip || is_link_local_unicast ip)) [
    | inl local_ ↦
        rw (good, local_, observed_endpoint)
          (
            λ e. cc,
            λ (ip', m, h, l, s, p, r). cc (
                rw
                  (
                    subst (λ i. is_loopback i ≡ false) (sym (some-eq-some ip ip' h)) l,
                    subst (λ i. is_link_local_unicast i ≡ false) (sym (some-eq-some ip ip' h)) s,
                  )
                  at local_),
          )
    | inr global ↦
        let (l, s) = or-false (is_loopback ip) (is_link_local_unicast ip) global in
        rw (good, global, observed_endpoint)
          (
            λ e. (ip, n, refl, l, s, refl, sym (some-eq-some _ t e)),
            λ (ip', m, h, l', s', p, r).
                ap some
                  (ap (λ k. join_host_port (b ∷ bs) (format_uint (suc k))) (pos-pos n m p) ∙ sym r),
          )
  ]
]

pub observed_endpoint_iff :
    (entry : DiscoveredEntry) (t : Text) → (observed_endpoint entry ≡ some t) ↔ IsUsable entry t
unfolding observed_endpoint parse_ip
observed_endpoint_iff entry t = go entry.ip entry.port
  where
    go :
        (i : Text) (p : ℤ)
        → (observed_endpoint (record { ip = i; port = p }) ≡ some t)
          ↔ IsUsable (record { ip = i; port = p }) t
    go [] p = (λ e. cc, λ (ip, n, h, l, s, q, r). cc)
    go (b ∷ bs) (negsuc n) = (λ e. cc, λ (ip, m, h, l, s, p, r). cc)
    go (b ∷ bs) (pos zero) = (λ e. cc, λ (ip, m, h, l, s, p, r). cc)
    go (b ∷ bs) (pos (suc n)) = some_endpoint_iff b bs n t

pub none-unusable :
    (entry : DiscoveredEntry)
    → (observed_endpoint entry ≡ none) ↔ ((u : Text) → IsUsable entry u → ⊥)
none-unusable entry = (
  λ e u usable. cc ((observed_endpoint_iff entry u).1 usable, e),
  λ unusable. elim (Option-cases (observed_endpoint entry)) [
    | inl e ↦ e
    | inr (u, e) ↦ absurd (unusable u ((observed_endpoint_iff entry u).0 e))
  ],
)
