-- ===== src/Netutil/Containment.antt =====
-- `CIDRContains` of internal/netutil/cidr.go against addresses.
use kilo_clustermesh_operato.Base.{
  ℕ, zero, suc, ◌-◌, ◌≡◌, refl, inl, inr, ◌⊎◌, sym, ◌∙◌, ap, subst, true, [], ◌∷◌, length, arith,
  ==_iff, Bool-cases, &&-eq-true,
}
use kilo_clustermesh_operato.Go.Bits.{block_agrees}
use kilo_clustermesh_operato.Go.Net.Address.{
  Ip, IpNet, IpMask, cidr_mask, mask_byte, short_form, contains, same_under, and_bytes,
}
use kilo_clustermesh_operato.Go.Net.Canonical.{
  IsNet, contains-IsNet, mask_byte-lt, mask_byte_complement, short_form-four, short_form-sixteen,
  tail-eq, head-eq,
}
use kilo_clustermesh_operato.Go.Net.Parsed.{length-drop12}
use kilo_clustermesh_operato.Netutil.{last_bytes, last_addr, cidr_contains}

same_under_block :
    (l p q : ℕ) (nu ni x : Ip)
    → length nu ≡ l
    → length ni ≡ l
    → length x ≡ l
    → same_under nu ni (cidr_mask p l) ≡ true
    → same_under nu (last_bytes ni (cidr_mask q l)) (cidr_mask p l) ≡ true
    → same_under ni x (cidr_mask q l) ≡ true
    → and_bytes ni (cidr_mask q l) ≡ ni
    → same_under nu x (cidr_mask p l) ≡ true
unfolding same_under and_bytes cidr_mask last_bytes
same_under_block zero p q [] ni x lo li lx s1 s2 s3 e = refl
same_under_block zero p q (a ∷ nu) ni x lo li lx s1 s2 s3 e = absurd (omega arith)
same_under_block (suc l) p q [] ni x lo li lx s1 s2 s3 e = refl
same_under_block (suc l) p q (a ∷ nu) [] x lo li lx s1 s2 s3 e = absurd (omega arith)
same_under_block (suc l) p q (a ∷ nu) (b ∷ ni) [] lo li lx s1 s2 s3 e = refl
same_under_block (suc l) p q (a ∷ nu) (b ∷ ni) (c ∷ x) lo li lx s1 s2 s3 e =
    let (f1, r1) = &&-eq-true _ _ s1 in
    let (f2, r2) = &&-eq-true _ _ s2 in
    let (f3, r3) = &&-eq-true _ _ s3 in
    let masked = sym ((==_iff _ _).0 f3) ∙ head-eq _ _ _ _ e in
    let byte =
      block_agrees 8 c (mask_byte q) (255 - mask_byte q) (mask_byte p) b _ _ (mask_byte-lt p)
        (mask_byte_complement q) masked refl (sym ((==_iff _ _).0 f1)) (sym ((==_iff _ _).0 f2)) in
    let rest =
      same_under_block l (p - 8) (q - 8) nu ni x (omega arith) (omega arith) (omega arith) r1 r2 r3
        (tail-eq _ _ _ _ e) in
    rw ((==_iff _ _).1 (sym byte), rest)

length-last_bytes : (ip : Ip) (m : IpMask) → length (last_bytes ip m) ≡ length ip
unfolding last_bytes
length-last_bytes [] m = refl
length-last_bytes (a ∷ ip) [] = refl
length-last_bytes (a ∷ ip) (b ∷ m) = omega (arith, length-last_bytes ip m)

-- An address whose short form is as long as a plain number of the same length is plain too.
short_form-plain :
    (x : Ip) (l : ℕ)
    → (l ≡ 4) ⊎ (l ≡ 16)
    → length x ≡ l
    → length (short_form x) ≡ l
    → short_form x ≡ x
short_form-plain x l (inl e) h k = short_form-four x (h ∙ e)
short_form-plain x l (inr e) h k = elim (short_form-sixteen x (h ∙ e)) [
  | inl same ↦ same
  | inr short ↦ absurd (omega (arith, ap length short, length-drop12 x (h ∙ e)))
]

-- The two parts of a test of membership.
contains_parts :
    (n : IpNet) (v : IsNet n) (x : Ip)
    → contains n x ≡ true
    → (length (short_form x) ≡ length v.number)
      × (same_under v.number (short_form x) (cidr_mask v.ones (length v.number)) ≡ true)
contains_parts n v x c =
    let (l, s) = &&-eq-true _ _ (sym (contains-IsNet n v x) ∙ c) in ((==_iff _ _).0 l, s)

module _ (inner : IpNet) (vi : IsNet inner) (plain : short_form inner.ip ≡ inner.ip) where
  number-eq-ip : vi.number ≡ inner.ip
  number-eq-ip = sym vi.short ∙ plain

  -- The last address, in terms of the canonical number and mask.
  last_addr-IsNet :
      (l : ℕ) → length vi.number ≡ l → last_addr inner ≡ last_bytes vi.number (cidr_mask vi.ones l)
  unfolding last_addr
  last_addr-IsNet l h =
      ap (λ i. last_bytes i inner.mask) (sym number-eq-ip)
      ∙ ap (last_bytes vi.number) (vi.plain_mask number-eq-ip ∙ ap (cidr_mask vi.ones) h)

  length-last_addr : length (last_addr inner) ≡ length vi.number
  length-last_addr =
      ap length (last_addr-IsNet (length vi.number) refl)
      ∙ length-last_bytes vi.number (cidr_mask vi.ones (length vi.number))

  block_inside :
      (outer : IpNet) (vo : IsNet outer) (x : Ip)
      → contains outer inner.ip ≡ true
      → contains outer (last_addr inner) ≡ true
      → contains inner x ≡ true
      → contains outer x ≡ true
  block_inside outer vo x c1 c2 cx =
      let (l1, s1) = contains_parts outer vo inner.ip c1 in
      let (l2, s2) = contains_parts outer vo (last_addr inner) c2 in
      let (lx, sx) = contains_parts inner vi x cx in
      let l = length vo.number in
      let li : length vi.number ≡ l = ap length (sym vi.short) ∙ l1 in
      let last_short = short_form-plain (last_addr inner) l vo.family (length-last_addr ∙ li) l2 in
      let same =
        same_under_block l vo.ones vi.ones vo.number vi.number (short_form x) refl li (lx ∙ li)
          (subst (λ y. same_under vo.number y (cidr_mask vo.ones l) ≡ true) vi.short s1)
          (subst (λ y. same_under vo.number y (cidr_mask vo.ones l) ≡ true)
            (last_short ∙ last_addr-IsNet l li) s2)
          (subst (λ k. same_under vi.number (short_form x) (cidr_mask vi.ones k) ≡ true) li sx)
          (subst (λ k. and_bytes vi.number (cidr_mask vi.ones k) ≡ vi.number) li vi.masked) in
      contains-IsNet outer vo x ∙ rw ((==_iff _ _).1 (lx ∙ li), same)

-- If `CIDRContains` accepts two canonical networks, every address of the inner network lies in the
-- outer one. The inner network is not written in the IPv4-mapped form.
pub cidr_contains_sound :
    (outer inner : IpNet)
    → IsNet outer
    → IsNet inner
    → short_form inner.ip ≡ inner.ip
    → cidr_contains outer inner ≡ true
    → (x : Ip) → contains inner x ≡ true
    → contains outer x ≡ true
unfolding cidr_contains
cidr_contains_sound outer inner vo vi plain c x cx = elim (Bool-cases (contains outer inner.ip)) [
  | inl c1 ↦ block_inside inner vi plain outer vo x c1 (rw c1 at c) cx
  | inr c1 ↦ cc (rw c1 at c)
]
