-- ===== src/Sock/Pattern.antt =====
-- origin-src/unpv13e/sock/pattern.c: the bytes that the source modes send.
pub mod Cycle
use my_unp.Prelude.{
  ℕ, zero, suc, ◌+◌, ◌%◌, List, [], ◌∷◌, Bool, true, false, ◌&&◌, Option, none, some, leb,
  if◌then◌else◌, Text,
}

-- isprint, in the C locale.
abbrev pub isprint : ℕ → Bool
isprint c = leb 32 c && leb c 126

-- The inner `while`: the first value of `c`, a byte, whose low seven bits print; none if `fuel`
-- turns do not reach one.
unfoldable pub skip : ℕ → ℕ → Option ℕ
skip zero c = none
skip (suc fuel) c =
    let later = skip fuel ((c + 1) % 256) in if isprint (c % 128) then some c else later

abbrev pub stored_first : ℕ → Option Text → Option Text
stored_first b none = none
stored_first b (some bs) = some (b ∷ bs)

-- `*ptr++ = (c++ & 0x7F)`, and the turns that follow.
abbrev pub stores : Option ℕ → (ℕ → Option Text) → Option Text
stores none rest = none
stores (some d) rest = stored_first (d % 128) (rest ((d + 1) % 256))

-- The outer `while`, with `len` bytes to go.
unfoldable pub pattern_loop : ℕ → ℕ → ℕ → Option Text
pattern_loop fuel zero c = some []
pattern_loop fuel (suc len) c = stores (skip fuel c) (pattern_loop fuel len)

unfoldable pub pattern : ℕ → ℕ → Option Text
pattern fuel len = pattern_loop fuel len 0
