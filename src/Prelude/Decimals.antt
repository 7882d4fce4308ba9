-- ===== src/Prelude/Decimals.antt =====
-- Numbers as text: `%d` and the digits that atoi reads.
use Prim.Native.Nat.{ℕ, zero, suc, ◌+◌, ◌-◌, ◌*◌, ◌/◌, ◌%◌, ◌<◌}
use mathlib.Core.Path.{◌≡◌, refl, ap, ◌∙◌}
use mathlib.Core.Logic.{inl, inr}
use mathlib.Core.Bool.{true, false}
use mathlib.Core.List.{[], ◌∷◌}
use native.Mathlib.Omega.{arith}
use my_unp.Prelude.Tests.{◌==◌, if◌then◌else◌, Bool-cases}
use my_unp.Prelude.Chars.{Text, isdigit, first_char}

-- The digits of `%d`, in front of `rest`, by rounds: the number has fewer digits than rounds.
unfoldable pub print : ℕ → ℕ → Text → Text
print zero n rest = rest
print (suc rounds) n rest = elim (n / 10 == 0) [
  | true ↦ (b'0' + n % 10) ∷ rest
  | false ↦ print rounds (n / 10) ((b'0' + n % 10) ∷ rest)
]

abbrev pub decimal : ℕ → Text
decimal n = print (n + 1) n []

-- atoi
abbrev pub atoi_from : ℕ → Text → ℕ
atoi_from n [] = n
atoi_from n (c ∷ cs) = if isdigit c then atoi_from (n * 10 + (c - b'0')) cs else n

-- Reading what was printed in front of `rest` comes to `rest` with the number.
pub atoi-print :
    (rounds n : ℕ) (rest : Text) → n < rounds → atoi_from 0 (print rounds n rest) ≡ atoi_from n rest
unfolding print
atoi-print zero n rest h = absurd (omega (arith, h))
atoi-print (suc rounds) n rest h = elim (Bool-cases (n / 10 == 0)) [
  | inl last ↦ rw (last, print) (one_digit 0 n rest (ground arith))
  | inr more ↦
      rw (more, print)
        (atoi-print rounds (n / 10) ((b'0' + n % 10) ∷ rest) (ground arith)
          ∙ one_digit (n / 10) n rest refl)
]
  where
    one_digit :
        (m n : ℕ) (rest : Text)
        → m ≡ n / 10
        → atoi_from m ((b'0' + n % 10) ∷ rest) ≡ atoi_from n rest
    one_digit m n rest e =
        let digit : isdigit (b'0' + n % 10) ≡ true = ground arith in
        let value : m * 10 + ((b'0' + n % 10) - b'0') ≡ n = omega (arith, e) in
        rw digit (ap (λ x. atoi_from x rest) value)

pub print-first_char :
    (rounds n : ℕ) (rest : Text) → n < rounds → isdigit (first_char (print rounds n rest)) ≡ true
unfolding print
print-first_char zero n rest h = absurd (omega (arith, h))
print-first_char (suc rounds) n rest h = elim (Bool-cases (n / 10 == 0)) [
  | inl last ↦ rw (last, print) (ground arith)
  | inr more ↦
      rw (more, print) (print-first_char rounds (n / 10) ((b'0' + n % 10) ∷ rest) (ground arith))
]
