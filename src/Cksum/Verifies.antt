-- ===== src/Cksum/Verifies.antt =====
-- A packet with its checksum stored in it has checksum 0.
use my_unp.Prelude.{
  ℕ, zero, suc, ◌+◌, ◌-◌, ◌*◌, ◌/◌, ◌%◌, ◌^◌, ◌≤◌, ◌<◌, ◌≡◌, refl, ◌∙◌, ap, List, [], ◌∷◌, ◌++◌,
  length, arith,
}
use my_unp.Cksum.{ByteOrder, little_endian, big_endian, word, sum_words, add_carries, in_cksum}

abbrev pub AllBytes : List ℕ → Type 0
AllBytes [] = Unit
AllBytes (b ∷ bs) = (b < 256) × AllBytes bs

-- The sum without wrap-around.
total : ByteOrder → List ℕ → ℕ
total o [] = 0
total o (a ∷ []) = word o a 0
total o (a ∷ b ∷ bs) = word o a b + total o bs

word_bound : (o : ByteOrder) (a b : ℕ) → a < 256 → b < 256 → word o a b < 65536
word_bound little_endian a b h k = omega arith
word_bound big_endian a b h k = omega arith

total_bound : (o : ByteOrder) (bs : List ℕ) → AllBytes bs → 2 * total o bs ≤ 65535 * (length bs + 1)
unfolding total
total_bound o [] h = omega arith
total_bound o (a ∷ []) h = omega (arith, word_bound o a 0 h.0 (omega arith))
total_bound o (a ∷ b ∷ bs) h = omega (arith, word_bound o a b h.0 h.1.0, total_bound o bs h.1.1)

sum_words-total :
    (o : ByteOrder) (bs : List ℕ) (sum : ℕ)
    → sum + total o bs < 2 ^ 32
    → sum_words o bs sum ≡ sum + total o bs
unfolding sum_words total
sum_words-total o [] sum h = omega arith
sum_words-total o (a ∷ []) sum h = omega arith
sum_words-total o (a ∷ b ∷ bs) sum h =
    let once : (sum + word o a b) % 2 ^ 32 ≡ sum + word o a b = omega arith in
    rw once (omega (arith, sum_words-total o bs (sum + word o a b) (omega arith)))

-- Behind an even number of bytes the words of the rest are the same.
total-append :
    (o : ByteOrder) (m : ℕ) (xs bs : List ℕ)
    → length xs ≡ 2 * m
    → total o (xs ++ bs) ≡ total o xs + total o bs
unfolding total
total-append o zero [] bs h = omega arith
total-append o zero (a ∷ xs) bs h = absurd (omega (arith, h))
total-append o (suc m) [] bs h = absurd (omega (arith, h))
total-append o (suc m) (a ∷ []) bs h = absurd (omega (arith, h))
total-append o (suc m) (a ∷ b ∷ xs) bs h = omega (arith, total-append o m xs bs (omega (arith, h)))

-- Adding the carries back takes a multiple of 65535 to 65535, and what the checksum adds to a sum
-- makes it one.
add_carries_multiple : (k : ℕ) → 1 ≤ k → k ≤ 65536 → add_carries (65535 * k) ≡ 65535
unfolding add_carries
add_carries_multiple k h u = omega arith

complement :
    (s : ℕ)
    → s < 2 ^ 31
    → (k : ℕ) × (1 ≤ k) × (k ≤ 65536) × (s + (2 ^ 32 - 1 - add_carries s) % 2 ^ 16 ≡ 65535 * k)
unfolding add_carries
complement s h =
    (s / 65536 + 1 + (s / 65536 + s % 65536) / 65536, omega arith, omega arith, omega arith)

-- The words of a packet with `a` and `b` stored behind an even number of bytes.
total-around :
    (o : ByteOrder) (m : ℕ) (before behind : List ℕ) (a b : ℕ)
    → length before ≡ 2 * m
    → total o (before ++ (a ∷ b ∷ behind)) ≡ total o before + word o a b + total o behind
unfolding total
total-around o m before behind a b h = omega (arith, total-append o m before (a ∷ b ∷ behind) h)

zero_word : (o : ByteOrder) → word o 0 0 ≡ 0
zero_word little_endian = refl
zero_word big_endian = refl

-- The checksum of a packet whose checksum field (two bytes, behind an even number of bytes) holds 0,
-- stored in that field in the order of the host: the packet then has checksum 0. This holds in both
-- byte orders, also where the number of bytes is odd, for packets of up to 65535 bytes.
pub in_cksum-Verifies :
    (o : ByteOrder) (m : ℕ) (before behind : List ℕ) (a b : ℕ)
    → length before ≡ 2 * m
    → AllBytes before
    → AllBytes behind
    → length before + 2 + length behind ≤ 65535
    → word o a b ≡ in_cksum o (before ++ (0 ∷ 0 ∷ behind))
    → in_cksum o (before ++ (a ∷ b ∷ behind)) ≡ 0
unfolding in_cksum
in_cksum-Verifies o m before behind a b even h k small stored =
    let (c, pos, small_c, whole) = complement (total o empty) bound₀ in
    let full : 0 + total o filled ≡ 65535 * c =
      omega (arith, around a b, around 0 0, zero_word o, whole, field) in
    let sums : sum_words o filled 0 ≡ 65535 * c =
      sum_words-total o filled 0 (omega (arith, full, small_c)) ∙ full in
    rw (sums, add_carries_multiple c pos small_c) refl
  where
    empty : List ℕ
    empty = before ++ (0 ∷ 0 ∷ behind)

    filled : List ℕ
    filled = before ++ (a ∷ b ∷ behind)

    around :
        (a b : ℕ)
        → total o (before ++ (a ∷ b ∷ behind)) ≡ total o before + word o a b + total o behind
    around a b = total-around o m before behind a b even

    bound₀ : total o empty < 2 ^ 31
    bound₀ =
        omega
          (arith, around 0 0, zero_word o, total_bound o before h, total_bound o behind k, small)

    plus_zero : 0 + total o empty ≡ total o empty
    plus_zero = omega arith

    field : word o a b ≡ (2 ^ 32 - 1 - add_carries (total o empty)) % 2 ^ 16
    field =
        stored
        ∙ ap (λ s. (2 ^ 32 - 1 - add_carries s) % 2 ^ 16)
            (sum_words-total o empty 0 (omega (arith, bound₀)) ∙ plus_zero)
