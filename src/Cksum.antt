-- ===== src/Cksum.antt =====
-- origin-src/unpv13e/libfree/in_cksum.c: the checksum of the Internet protocols.
pub mod Verifies
mod Tests
use my_unp.Prelude.{ℕ, ◌+◌, ◌-◌, ◌*◌, ◌/◌, ◌%◌, ◌^◌, List, [], ◌∷◌}

-- The byte order of the host, which decides what the loads through `uint16_t *` give.
pub data ByteOrder : Type 0 where
  little_endian big_endian : ByteOrder

-- The uint16_t whose bytes in memory are `a` and `b`.
abbrev pub word : ByteOrder → ℕ → ℕ → ℕ
word little_endian a b = a + 256 * b
word big_endian a b = 256 * a + b

-- The while loop and the odd byte behind it, which is the first byte of an answer that is else 0.
unfoldable pub sum_words : ByteOrder → List ℕ → ℕ → ℕ
sum_words o [] sum = sum
sum_words o (a ∷ []) sum = (sum + word o a 0) % 2 ^ 32
sum_words o (a ∷ b ∷ bs) sum = sum_words o bs ((sum + word o a b) % 2 ^ 32)

-- The two lines that add the carries back.
unfoldable pub add_carries : ℕ → ℕ
add_carries sum = let s = (sum / 2 ^ 16 + sum % 2 ^ 16) % 2 ^ 32 in (s + s / 2 ^ 16) % 2 ^ 32

-- `~sum`, truncated to 16 bits.
unfoldable pub in_cksum : ByteOrder → List ℕ → ℕ
in_cksum o bs = (2 ^ 32 - 1 - add_carries (sum_words o bs 0)) % 2 ^ 16
