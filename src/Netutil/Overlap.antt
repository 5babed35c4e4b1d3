-- ===== src/Netutil/Overlap.antt =====
-- `CIDROverlaps` of internal/netutil/cidr.go against addresses.
use kilo_clustermesh_operato.Base.{
  ◌≤◌, ◌≡◌, refl, inl, inr, ◌↔◌, sym, subst, ◌∙◌, true, ◌||◌, length, arith, ==_iff, Bool-cases,
  &&-eq-true,
}
use native.Mathlib.Decide.{dec_le}
use kilo_clustermesh_operato.Netutil.{cidr_overlaps}
use kilo_clustermesh_operato.Go.Net.Address.{
  Ip, IpNet, cidr_mask, short_form, contains, same_under, and_bytes, same_under,
}
use kilo_clustermesh_operato.Go.Net.Canonical.{
  IsNet, contains-IsNet, same_under_refl, same_under_nested,
}

contains_self : (n : IpNet) → IsNet n → contains n n.ip ≡ true
contains_self n v =
    contains-IsNet n v n.ip
    ∙ rw (
      v.short,
      (==_iff (length v.number) (length v.number)).1 refl,
      same_under_refl v.number (cidr_mask v.ones (length v.number)),
    )

-- An address of both networks puts the network with the longer prefix inside the other one.
wider_contains :
    (a b : IpNet) (va : IsNet a) (vb : IsNet b) (x : Ip)
    → va.ones ≤ vb.ones
    → contains a x ≡ true
    → contains b x ≡ true
    → contains a b.ip ≡ true
wider_contains a b va vb x h ca cb =
    let (la, sa) = &&-eq-true _ _ (sym (contains-IsNet a va x) ∙ ca) in
    let (lb, sb) = &&-eq-true _ _ (sym (contains-IsNet b vb x) ∙ cb) in
    let ea = (==_iff _ _).0 la in
    let eb = (==_iff _ _).0 lb in
    let same =
      same_under_nested (length va.number) va.ones vb.ones va.number vb.number (short_form x) h refl
        (sym eb ∙ ea) ea sa
        (subst (λ l. same_under vb.number (short_form x) (cidr_mask vb.ones l) ≡ true) (sym eb ∙ ea)
          sb)
        (subst (λ l. and_bytes vb.number (cidr_mask vb.ones l) ≡ vb.number) (sym eb ∙ ea)
          vb.masked) in
    contains-IsNet a va b.ip ∙ rw (vb.short, (==_iff _ _).1 (sym eb ∙ ea), same)

-- Two canonical networks overlap exactly when they share an address.
pub cidr_overlaps_iff :
    (a b : IpNet)
    → IsNet a
    → IsNet b
    → (cidr_overlaps a b ≡ true) ↔ ((x : Ip) × (contains a x ≡ true) × (contains b x ≡ true))
unfolding cidr_overlaps
cidr_overlaps_iff a b va vb = (forth, back)
  where
    forth :
        (contains a b.ip || contains b a.ip) ≡ true
        → (x : Ip) × (contains a x ≡ true) × (contains b x ≡ true)
    forth e = elim (Bool-cases (contains a b.ip)) [
      | inl h ↦ (b.ip, h, contains_self b vb)
      | inr h ↦ (a.ip, contains_self a va, ground arith)
    ]

    back :
        (x : Ip) × (contains a x ≡ true) × (contains b x ≡ true)
        → (contains a b.ip || contains b a.ip) ≡ true
    back (x, ca, cb) = elim (dec_le va.ones vb.ones) [
      | yes h ↦ rw (wider_contains a b va vb x h ca cb)
      | no h ↦ ground (arith, wider_contains b a vb va x (omega arith) cb ca)
    ]
