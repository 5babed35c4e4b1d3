-- ===== src/Go/Net/Parsed.antt =====
-- The networks that `net.ParseCIDR` returns.
use kilo_clustermesh_operato.Base.{
  ℕ, zero, suc, ◌-◌, ◌*◌, ◌≤◌, ◌≡◌, refl, inl, inr, ◌⊎◌, sym, ◌∙◌, ap, subst, some, List, [], ◌∷◌,
  length, take, drop, arith, Text, >>=-eq-some, some-eq-some,
}
use kilo_clustermesh_operato.Go.Bits.{bit_and_idem}
use kilo_clustermesh_operato.Go.Strings.{cut}
use kilo_clustermesh_operato.Go.Net.Address.{
  Ip, IpNet, and_bytes, mask_byte, cidr_mask, short_form, network_number_and_mask,
}
use kilo_clustermesh_operato.Go.Net.Canonical.{
  IsNet, short_form-four, short_form-sixteen, mask_byte-lt,
}
use kilo_clustermesh_operato.Go.Net.Parse.{parse_addr, parse_cidr, prefix_length}
use kilo_clustermesh_operato.Go.Net.Parse.Lengths.{length-parse_addr, length-take-drop}

pub length-and_bytes :
    (l : ℕ) (x m : List ℕ) → length x ≡ l → length m ≡ l → length (and_bytes x m) ≡ l
unfolding and_bytes
length-and_bytes l [] m h k = h
length-and_bytes zero (a ∷ x) m h k = absurd (omega arith)
length-and_bytes (suc l) (a ∷ x) [] h k = absurd (omega arith)
length-and_bytes (suc l) (a ∷ x) (b ∷ m) h k = omega (arith, length-and_bytes l x m)

pub length-cidr_mask : (ones l : ℕ) → length (cidr_mask ones l) ≡ l
unfolding cidr_mask
length-cidr_mask ones zero = refl
length-cidr_mask ones (suc l) = omega (arith, length-cidr_mask (ones - 8) l)

and_bytes_idem :
    (ones l : ℕ) (x : Ip)
    → and_bytes (and_bytes x (cidr_mask ones l)) (cidr_mask ones l) ≡ and_bytes x (cidr_mask ones l)
unfolding and_bytes cidr_mask
and_bytes_idem ones zero [] = refl
and_bytes_idem ones zero (a ∷ x) = refl
and_bytes_idem ones (suc l) [] = refl
and_bytes_idem ones (suc l) (a ∷ x) =
    cc (bit_and_idem 8 a (mask_byte ones) (mask_byte-lt ones), and_bytes_idem (ones - 8) l x)

and_bytes-drop : (k : ℕ) (x m : List ℕ) → and_bytes (drop k x) (drop k m) ≡ drop k (and_bytes x m)
unfolding and_bytes
and_bytes-drop zero x m = refl
and_bytes-drop (suc k) [] [] = refl
and_bytes-drop (suc k) [] (b ∷ m) = refl
and_bytes-drop (suc k) (a ∷ x) [] = nil_right (drop k x)
  where
    nil_right : (y : List ℕ) → and_bytes y [] ≡ []
    nil_right [] = refl
    nil_right (b ∷ y) = refl
and_bytes-drop (suc k) (a ∷ x) (b ∷ m) = and_bytes-drop k x m

-- The mask of the last four of sixteen bytes.
drop-cidr_mask : (ones : ℕ) → drop 12 (cidr_mask ones 16) ≡ cidr_mask (ones - 96) 4
unfolding cidr_mask
drop-cidr_mask ones = ap (λ o. cidr_mask o 4) (omega arith)

length-take : (k : ℕ) (x : Ip) → k ≤ length x → length (take k x) ≡ k
length-take zero x h = refl
length-take (suc k) [] h = absurd (omega arith)
length-take (suc k) (a ∷ x) h = omega (arith, length-take k x)

pub length-drop12 : (x : Ip) → length x ≡ 16 → length (drop 12 x) ≡ 4
length-drop12 x h = omega (arith, length-take-drop 12 x, length-take 12 x (omega arith))

module _ (n : IpNet) (nn : Ip) (short : short_form n.ip ≡ nn) where
  number-four : length nn ≡ 4 → length n.mask ≡ 4 → network_number_and_mask n ≡ some (nn, n.mask)
  unfolding network_number_and_mask
  number-four h k = rw (short, h, k)

  number-mapped :
      length nn ≡ 4 → length n.mask ≡ 16 → network_number_and_mask n ≡ some (nn, drop 12 n.mask)
  unfolding network_number_and_mask
  number-mapped h k = rw (short, h, k)

  number-sixteen :
      length nn ≡ 16 → length n.mask ≡ 16 → network_number_and_mask n ≡ some (nn, n.mask)
  unfolding network_number_and_mask
  number-sixteen h k = rw (short, h, k)

module _ (x : Ip) (ones : ℕ) where
  abbrev net_of : ℕ → IpNet
  net_of l = record { ip = and_bytes x (cidr_mask ones l); mask = cidr_mask ones l }

  -- A number and a mask of four bytes.
  v4-IsNet : length x ≡ 4 → IsNet (net_of 4)
  v4-IsNet h =
      let number = and_bytes x (cidr_mask ones 4) in
      let four = length-and_bytes 4 x (cidr_mask ones 4) h (length-cidr_mask ones 4) in
      let short = short_form-four number four in
      record {
        number = number;
        ones = ones;
        short = short;
        normal =
            subst (λ l. network_number_and_mask (net_of 4) ≡ some (number, cidr_mask ones l))
              (sym four) (number-four (net_of 4) number short four (length-cidr_mask ones 4));
        masked = rw four (and_bytes_idem ones 4 x);
        family = inl four;
        plain_mask = λ _. ap (cidr_mask ones) (sym four);
      }

  -- Sixteen bytes that stand for themselves.
  v6-IsNet :
      length x ≡ 16
      → short_form (and_bytes x (cidr_mask ones 16)) ≡ and_bytes x (cidr_mask ones 16)
      → IsNet (net_of 16)
  v6-IsNet h short =
      let number = and_bytes x (cidr_mask ones 16) in
      let sixteen = length-and_bytes 16 x (cidr_mask ones 16) h (length-cidr_mask ones 16) in
      record {
        number = number;
        ones = ones;
        short = short;
        normal =
            subst (λ l. network_number_and_mask (net_of 16) ≡ some (number, cidr_mask ones l))
              (sym sixteen)
              (number-sixteen (net_of 16) number short sixteen (length-cidr_mask ones 16));
        masked = rw sixteen (and_bytes_idem ones 16 x);
        family = inr sixteen;
        plain_mask = λ _. ap (cidr_mask ones) (sym sixteen);
      }

  -- Sixteen bytes that hold an IPv4 address.
  mapped-IsNet :
      length x ≡ 16
      → short_form (and_bytes x (cidr_mask ones 16)) ≡ drop 12 (and_bytes x (cidr_mask ones 16))
      → IsNet (net_of 16)
  mapped-IsNet h short =
      let whole = and_bytes x (cidr_mask ones 16) in
      let number = drop 12 whole in
      let sixteen = length-and_bytes 16 x (cidr_mask ones 16) h (length-cidr_mask ones 16) in
      let four = length-drop12 whole sixteen in
      record {
        number = number;
        ones = ones - 96;
        short = short;
        normal =
            subst (λ m. network_number_and_mask (net_of 16) ≡ some (number, m))
              (drop-cidr_mask ones ∙ ap (cidr_mask (ones - 96)) (sym four))
              (number-mapped (net_of 16) number short four (length-cidr_mask ones 16));
        masked =
            subst (λ m. and_bytes number m ≡ number)
              (drop-cidr_mask ones ∙ ap (cidr_mask (ones - 96)) (sym four))
              (and_bytes-drop 12 whole (cidr_mask ones 16)
                ∙ ap (drop 12) (and_bytes_idem ones 16 x));
        family = inl four;
        plain_mask = λ same. absurd (omega (arith, ap length same));
      }

  parsed-IsNet : (l : ℕ) → length x ≡ l → (l ≡ 4) ⊎ (l ≡ 16) → IsNet (net_of l)
  parsed-IsNet l h (inl e) = rw e (v4-IsNet (h ∙ e))
  parsed-IsNet l h (inr e) =
      elim (short_form-sixteen (and_bytes x (cidr_mask ones 16))
        (length-and_bytes 16 x (cidr_mask ones 16) (h ∙ e) (length-cidr_mask ones 16))) [
          | inl short ↦ rw e (v6-IsNet (h ∙ e) short)
          | inr short ↦ rw e (mapped-IsNet (h ∙ e) short)
        ]

pub parse_cidr-IsNet : (s : Text) (ip : Ip) (n : IpNet) → parse_cidr s ≡ some (ip, n) → IsNet n
unfolding parse_cidr
parse_cidr-IsNet s ip n e =
    let ((addr, mask), e1, f1) = >>=-eq-some (cut b'/' s) _ e in
    let (x, e2, f2) = >>=-eq-some (parse_addr addr) _ f1 in
    let (ones, e3, f3) = >>=-eq-some (prefix_length (8 * length x) mask) _ f2 in
    subst IsNet (ap (λ r. r.1) (some-eq-some _ _ f3))
      (parsed-IsNet x ones (length x) refl (length-parse_addr addr x e2))
