-- ===== src/Cksum/Tests.antt =====
-- Checksums of small packets.
use my_unp.Prelude.{ℕ, ◌≡◌, refl, sym, List, [], ◌∷◌, ◌++◌, arith}
use my_unp.Cksum.{big_endian, sum_words, add_carries, in_cksum}
use my_unp.Cksum.Verifies.{in_cksum-Verifies}

-- An ICMP echo request with an odd byte behind it.
abbrev before : List ℕ
before = 8 ∷ 0 ∷ []

abbrev behind : List ℕ
behind = 1 ∷ 2 ∷ 0 ∷ 7 ∷ 255 ∷ []

request_sum : in_cksum big_endian (before ++ (0 ∷ 0 ∷ behind)) ≡ 63477
unfolding in_cksum sum_words add_carries
request_sum = refl

in_cksum-Verifies_example : in_cksum big_endian (before ++ (247 ∷ 245 ∷ behind)) ≡ 0
in_cksum-Verifies_example =
    in_cksum-Verifies big_endian 1 before behind 247 245 refl (omega arith, (omega arith, tt))
      (omega arith, (omega arith, (omega arith, (omega arith, (omega arith, tt))))) (omega arith)
      (sym request_sum)
