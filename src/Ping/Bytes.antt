-- ===== src/Ping/Bytes.antt =====
-- Numbers stored in memory and loaded again.
use my_unp.Prelude.{
  ℕ, zero, suc, ◌+◌, ◌*◌, ◌/◌, ◌%◌, ◌^◌, ◌<◌, ◌≡◌, refl, ◌∙◌, ap, List, [], ◌∷◌, ◌++◌, length,
  arith,
}
use my_unp.Cksum.{ByteOrder, little_endian, big_endian, word}
use my_unp.Cksum.Verifies.{AllBytes}
use my_unp.Ping.{low_first, high_first, stored, value_low_first, value_high_first, loaded}

power : ℕ → ℕ
power zero = 1
power (suc k) = 256 * power k

pub length-low_first : (k n : ℕ) → length (low_first k n) ≡ k
unfolding low_first
length-low_first zero n = refl
length-low_first (suc k) n = ap suc (length-low_first k (n / 256))

length-high_first : (k n : ℕ) (rest : List ℕ) → length (high_first k n rest) ≡ k + length rest
unfolding high_first
length-high_first zero n rest = omega arith
length-high_first (suc k) n rest = omega (arith, length-high_first k (n / 256) ((n % 256) ∷ rest))

pub length-stored : (o : ByteOrder) (k n : ℕ) → length (stored o k n) ≡ k
length-stored little_endian k n = length-low_first k n
length-stored big_endian k n = omega (arith, length-high_first k n [])

value-low_first : (k n : ℕ) → n < power k → value_low_first (low_first k n) ≡ n
unfolding low_first power
value-low_first zero n h = omega (arith, h)
value-low_first (suc k) n h = omega (arith, value-low_first k (n / 256) (omega (arith, h)))

value-high_first :
    (k n : ℕ) (rest : List ℕ)
    → n < power k
    → value_high_first 0 (high_first k n rest) ≡ value_high_first n rest
unfolding high_first power
value-high_first zero n rest h = ap (λ x. value_high_first x rest) (omega (arith, h))
value-high_first (suc k) n rest h =
    value-high_first k (n / 256) ((n % 256) ∷ rest) (omega (arith, h))
    ∙ ap (λ x. value_high_first x rest) (omega arith)

loaded-stored : (o : ByteOrder) (k n : ℕ) → n < power k → loaded o (stored o k n) ≡ n
loaded-stored little_endian k n h = value-low_first k n h
loaded-stored big_endian k n h = value-high_first k n [] h

-- A long of 64 bits.
pub loaded-stored_long : (o : ByteOrder) (n : ℕ) → n < 2 ^ 64 → loaded o (stored o 8 n) ≡ n
unfolding power
loaded-stored_long o n h = loaded-stored o 8 n h

AllBytes-low_first : (k n : ℕ) → AllBytes (low_first k n)
unfolding low_first
AllBytes-low_first zero n = tt
AllBytes-low_first (suc k) n = (omega arith, AllBytes-low_first k (n / 256))

AllBytes-high_first : (k n : ℕ) (rest : List ℕ) → AllBytes rest → AllBytes (high_first k n rest)
unfolding high_first
AllBytes-high_first zero n rest h = h
AllBytes-high_first (suc k) n rest h =
    AllBytes-high_first k (n / 256) ((n % 256) ∷ rest) (omega arith, h)

pub AllBytes-stored : (o : ByteOrder) (k n : ℕ) → AllBytes (stored o k n)
AllBytes-stored little_endian k n = AllBytes-low_first k n
AllBytes-stored big_endian k n = AllBytes-high_first k n [] tt

pub AllBytes-append : (xs ys : List ℕ) → AllBytes xs → AllBytes ys → AllBytes (xs ++ ys)
AllBytes-append [] ys h k = k
AllBytes-append (x ∷ xs) ys h k = (h.0, AllBytes-append xs ys h.1 k)

-- A uint16_t in memory, and the load of it.
pub record Short (o : ByteOrder) (n : ℕ) : Type 0 where
  pub first : ℕ
  pub second : ℕ
  pub bytes_are : stored o 2 n ≡ first ∷ second ∷ []
  pub word_is : word o first second ≡ n

pub short : (o : ByteOrder) (n : ℕ) → n < 65536 → Short o n
unfolding low_first high_first
short little_endian n h = record {
  first = n % 256;
  second = n / 256 % 256;
  bytes_are = refl;
  word_is = omega (arith, h);
}
short big_endian n h = record {
  first = n / 256 % 256;
  second = n % 256;
  bytes_are = refl;
  word_is = omega (arith, h);
}
