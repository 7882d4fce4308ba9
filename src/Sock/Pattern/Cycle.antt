-- ===== src/Sock/Pattern/Cycle.antt =====
-- The pattern runs through the printing characters, again and again.
use my_unp.Prelude.{
  leb, false, ℕ, zero, suc, ◌+◌, ◌%◌, ◌≡◌, ◌<◌, ◌≤◌, refl, [], ◌∷◌, Bool, true, some, Text, ◌⊎◌,
  inl, inr, arith,
}
use my_unp.Sock.Pattern.{isprint, skip, pattern_loop, pattern}

-- The printing characters in order, from the `i`th on, with space behind `~`.
unfoldable pub printing : ℕ → ℕ → Text
printing i zero = []
printing i (suc n) = (32 + i % 95) ∷ printing (i + 1) n

-- `c` before the byte number `i`.
data At (i c : ℕ) : Type 0 where
  ahead : i % 95 ≡ 0 → (c ≡ 0) ⊎ (c ≡ 127) ⊎ (c ≡ 255) → At i c
  within : 1 ≤ i % 95 → c % 128 ≡ 32 + i % 95 → c < 256 → At i c

-- Enough turns for the 33 characters from 127 + 1 to the next space.
abbrev pub turns_enough : ℕ
turns_enough = 34

abbrev Skipped : ℕ → ℕ → Type 0
Skipped i c =
    (d : ℕ) × (skip turns_enough c ≡ some d) × (d % 128 ≡ 32 + i % 95) × At (i + 1) ((d + 1) % 256)

skip-here : (fuel c : ℕ) → isprint (c % 128) ≡ true → skip (suc fuel) c ≡ some c
unfolding skip
skip-here fuel c h = rw h

skip-At : (i c : ℕ) → At i c → Skipped i c
unfolding skip
skip-At i c (ahead h (inl e)) =
    (32, rw e, omega arith, within (omega arith) (omega arith) (omega arith))
skip-At i c (ahead h (inr (inl e))) =
    (160, rw e, omega arith, within (omega arith) (omega arith) (omega arith))
skip-At i c (ahead h (inr (inr e))) =
    (32, rw e, omega arith, within (omega arith) (omega arith) (omega arith))
skip-At i c (within h q k) = (c, skip-here 33 c (ground arith), q, after (leb 94 (i % 95)) refl)
  where
    after : (b : Bool) → leb 94 (i % 95) ≡ b → At (i + 1) ((c + 1) % 256)
    after true e = ahead (ground arith) (inr (turned (leb 128 c) refl))
      where
        turned : (u : Bool) → leb 128 c ≡ u → ((c + 1) % 256 ≡ 127) ⊎ ((c + 1) % 256 ≡ 255)
        turned true t = inr (ground arith)
        turned false t = inl (ground arith)
    after false e = within (ground arith) (ground arith) (omega arith)

pattern_loop-printing :
    (len i c : ℕ) → At i c → pattern_loop turns_enough len c ≡ some (printing i len)
unfolding pattern_loop printing
pattern_loop-printing zero i c h = refl
pattern_loop-printing (suc len) i c h =
    let (d, found, byte, after) = skip-At i c h in
    rw (found, pattern_loop-printing len (i + 1) ((d + 1) % 256) after, byte)

-- The loops of `pattern` end, whatever the length: with 34 turns for each inner loop they store
-- the 95 printing characters from space to tilde in order, again and again, up to that length.
pub pattern-printing : (len : ℕ) → pattern turns_enough len ≡ some (printing 0 len)
unfolding pattern
pattern-printing len = pattern_loop-printing len 0 0 (ahead (omega arith) (inl refl))
