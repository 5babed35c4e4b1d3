-- ===== src/Go/Net/Parse/Lengths.antt =====
-- The lengths of the addresses that `netip.ParseAddr` returns.
use kilo_clustermesh_operato.Base.{
  ℕ, zero, suc, ◌+◌, ◌-◌, ◌≡◌, refl, inl, inr, ◌⊎◌, Option, none, some, List, [], ◌∷◌, ◌++◌, length,
  take, drop, replicate, arith, Option-cases, length-append, Text,
}
use kilo_clustermesh_operato.Go.Strings.{split}
use kilo_clustermesh_operato.Go.Net.Address.{Ip}
use kilo_clustermesh_operato.Go.Net.Parse.{
  v4_field, v4_fields, parse_v4, Round, broken, ended, goes_on, one_round, expand, v6_loop,
  parse_v6, by_first, parse_addr,
}

pub length-take-drop : (e : ℕ) (x : Ip) → length (take e x) + length (drop e x) ≡ length x
length-take-drop zero x = omega arith
length-take-drop (suc e) [] = omega arith
length-take-drop (suc e) (a ∷ x) = omega (arith, length-take-drop e x)

length-replicate : (n a : ℕ) → length (replicate n a) ≡ n
length-replicate zero a = refl
length-replicate (suc n) a = omega (arith, length-replicate n a)

length-v4_fields : (fs : List Text) (ip : Ip) → v4_fields fs ≡ some ip → length ip ≡ length fs
unfolding v4_fields
length-v4_fields [] ip e = ground arith
length-v4_fields (f ∷ fs) ip e = elim (Option-cases (v4_field f)) [
  | inl n ↦ cc (rw (n, v4_fields) at e)
  | inr (b, eb) ↦ elim (Option-cases (v4_fields fs)) [
    | inl n ↦ ground arith
    | inr (bs, ebs) ↦ ground (arith, length-v4_fields fs bs ebs)
  ]
]

length-parse_v4 : (s : Text) (ip : Ip) → parse_v4 s ≡ some ip → length ip ≡ 4
unfolding parse_v4
length-parse_v4 s ip e = ground (arith, length-v4_fields (split b'.' s) ip)

length-expand :
    (ip : Ip) (ellipsis : Option ℕ) (r : Ip) → expand ip ellipsis ≡ some r → length r ≡ 16
unfolding expand
length-expand ip none r e = ground arith
length-expand ip (some k) r e = ground (
  arith,
  length-append (take k ip ++ replicate (16 - length ip) 0) (drop k ip),
  length-append (take k ip) (replicate (16 - length ip) 0),
  length-replicate (16 - length ip) 0,
  length-take-drop k ip,
)

length-v6_loop :
    (f : ℕ) (ip : Ip) (ellipsis : Option ℕ) (s : Text) (r : Ip)
    → v6_loop f ip ellipsis s ≡ some r
    → length r ≡ 16
unfolding v6_loop
length-v6_loop zero ip ellipsis s r e = cc
length-v6_loop (suc f) ip ellipsis s r e =
    by_round (length-v6_loop f) (one_round ip ellipsis s) refl
  where
    by_round :
        ((ip' : Ip) (e' : Option ℕ) (s' : Text) (q : Ip)
          → v6_loop f ip' e' s' ≡ some q
          → length q ≡ 16)
        → (d : Round) → one_round ip ellipsis s ≡ d
        → length r ≡ 16
    by_round ih broken h = cc (rw (h, v6_loop) at e)
    by_round ih (ended ip' e') h = length-expand ip' e' r (rw (h, v6_loop) at e)
    by_round ih (goes_on ip' e' s') h = ih ip' e' s' r (rw (h, v6_loop) at e)

length-parse_v6 : (s : Text) (r : Ip) → parse_v6 s ≡ some r → length r ≡ 16
unfolding parse_v6
length-parse_v6 [] r e = length-v6_loop 8 [] none [] r e
length-parse_v6 (a ∷ []) r e = length-v6_loop 8 [] none (a ∷ []) r e
length-parse_v6 (a ∷ b ∷ []) r e = ground (arith, length-v6_loop 8 [] none (a ∷ b ∷ []) r)
length-parse_v6 (a ∷ b ∷ c ∷ s) r e =
    ground
      (arith, length-v6_loop 8 [] (some 0) (c ∷ s) r, length-v6_loop 8 [] none (a ∷ b ∷ c ∷ s) r)

length-by_first :
    (s t : Text) (ip : Ip) → by_first s t ≡ some ip → (length ip ≡ 4) ⊎ (length ip ≡ 16)
unfolding by_first
length-by_first s [] ip e = cc
length-by_first s (c ∷ t) ip e =
    ground (arith, length-parse_v4 s ip, length-parse_v6 s ip, length-by_first s t ip)

pub length-parse_addr :
    (s : Text) (ip : Ip) → parse_addr s ≡ some ip → (length ip ≡ 4) ⊎ (length ip ≡ 16)
unfolding parse_addr
length-parse_addr s ip e = ground (arith, length-by_first s s ip)
