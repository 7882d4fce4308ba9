-- ===== src/Lines/Requests/Numbers.antt =====
-- A number that the client prints on a line is the number that web_child reads.
use my_unp.Prelude.{
  ℕ, zero, suc, ◌+◌, ◌-◌, ◌*◌, ◌/◌, ◌%◌, ◌^◌, min, ◌≤◌, ◌<◌, ◌≡◌, refl, sym, [], ◌∷◌, ◌++◌, Bool,
  true, false, ◌==◌, Text, length, isdigit, first_char, print, decimal, atoi_from, atoi-print,
  print-first_char, Bool-cases, inl, inr, arith,
}
use my_unp.Stream.Readline.Refine.{newline, take_line}
use my_unp.Lines.Requests.{isspace, skip_space, signed, atol, to_int, request}

print-append : (rounds n : ℕ) (xs ys : Text) → print rounds n (xs ++ ys) ≡ print rounds n xs ++ ys
unfolding print
print-append zero n xs ys = refl
print-append (suc rounds) n xs ys =
    go (n / 10 == 0) (print-append rounds (n / 10) ((b'0' + n % 10) ∷ xs) ys)
  where
    go :
        (b : Bool)
        → print rounds (n / 10) ((b'0' + n % 10) ∷ (xs ++ ys))
          ≡ print rounds (n / 10) ((b'0' + n % 10) ∷ xs) ++ ys
        → (elim b [
          | true ↦ (b'0' + n % 10) ∷ (xs ++ ys)
          | false ↦ print rounds (n / 10) ((b'0' + n % 10) ∷ (xs ++ ys))
        ])
          ≡ (elim b [
            | true ↦ (b'0' + n % 10) ∷ xs
            | false ↦ print rounds (n / 10) ((b'0' + n % 10) ∷ xs)
          ])
            ++ ys
    go true ih = refl
    go false ih = ih

-- The powers of ten, as the number of digits grows.
ten_to : ℕ → ℕ
ten_to zero = 1
ten_to (suc k) = 10 * ten_to k

abbrev AllDigits : Text → Type 0
AllDigits [] = Unit
AllDigits (c ∷ cs) = (isdigit c ≡ true) × AllDigits cs

-- A number below 10 ^ (k + 1) has at most k + 1 digits.
length-print :
    (k rounds n : ℕ) (rest : Text)
    → n < ten_to (suc k)
    → length (print rounds n rest) ≤ suc k + length rest
unfolding print ten_to
length-print k zero n rest h = omega arith
length-print zero (suc rounds) n rest h = elim (Bool-cases (n / 10 == 0)) [
  | inl last ↦ rw (last, print) (omega arith)
  | inr more ↦ absurd (ground (arith, more, h))
]
length-print (suc k) (suc rounds) n rest h = elim (Bool-cases (n / 10 == 0)) [
  | inl last ↦ rw (last, print) (omega arith)
  | inr more ↦
      rw (more, print)
        (omega (arith, length-print k rounds (n / 10) ((b'0' + n % 10) ∷ rest) (omega (arith, h))))
]

print-AllDigits :
    (rounds n : ℕ) (rest : Text) → AllDigits rest → n < rounds → AllDigits (print rounds n rest)
unfolding print
print-AllDigits zero n rest h e = absurd (omega (arith, e))
print-AllDigits (suc rounds) n rest h e = elim (Bool-cases (n / 10 == 0)) [
  | inl last ↦ rw (last, print) (ground arith, h)
  | inr more ↦
      rw (more, print)
        (print-AllDigits rounds (n / 10) ((b'0' + n % 10) ∷ rest) (ground arith, h) (ground arith))
]

skip_space-digit : (t : Text) → isdigit (first_char t) ≡ true → skip_space t ≡ t
skip_space-digit [] h = refl
skip_space-digit (c ∷ cs) h = let mark : isspace c ≡ false = ground (arith, h) in rw mark

signed-digit :
    (t : Text)
    → isdigit (first_char t) ≡ true
    → signed t ≡ record { negative = false; magnitude = min (atoi_from 0 t) (2 ^ 63 - 1) }
unfolding signed
signed-digit [] h = absurd cc
signed-digit (c ∷ cs) h =
    let no_minus : (c == b'-') ≡ false = ground (arith, h) in
    let no_plus : (c == b'+') ≡ false = ground (arith, h) in rw (no_minus, no_plus)

request-print : (n : ℕ) → request n ≡ print (n + 1) n (b'\n' ∷ [])
unfolding request
request-print n = sym (print-append (n + 1) n [] (b'\n' ∷ []))

pub to_int-request : (n : ℕ) → n < 2 ^ 31 → to_int (atol (request n)) ≡ n
unfolding to_int
to_int-request n h =
    rw
      (
        request-print n,
        skip_space-digit (print (n + 1) n (b'\n' ∷ [])) digit,
        signed-digit (print (n + 1) n (b'\n' ∷ [])) digit,
        atoi-print (n + 1) n (b'\n' ∷ []) (omega arith),
      )
      (small n h)
  where
    digit : isdigit (first_char (print (n + 1) n (b'\n' ∷ []))) ≡ true
    digit = print-first_char (n + 1) n (b'\n' ∷ []) (omega arith)

    small : (m : ℕ) → m < 2 ^ 31 → min m (2 ^ 63 - 1) % 2 ^ 32 ≡ m
    small m q = omega (arith, q)

take_line-digits :
    (ds rest : Text) (room : ℕ)
    → AllDigits ds
    → length ds < room
    → take_line room (ds ++ (b'\n' ∷ rest))
      ≡ record { text = ds ++ (b'\n' ∷ []); why = newline; rest = rest }
unfolding take_line
take_line-digits [] rest zero h e = absurd (omega arith)
take_line-digits [] rest (suc room) h e = refl
take_line-digits (d ∷ ds) rest zero h e = absurd (omega arith)
take_line-digits (d ∷ ds) rest (suc room) h e =
    let other : (d == 10) ≡ false = ground (arith, h.0) in
    rw (other, take_line-digits ds rest room h.1 (omega arith))

-- A request is a line of its own.
pub take_line-request :
    (n : ℕ) (rest : Text)
    → n < 2 ^ 31
    → take_line 4095 (decimal n ++ (b'\n' ∷ rest))
      ≡ record { text = request n; why = newline; rest = rest }
unfolding request ten_to
take_line-request n rest h =
    take_line-digits (decimal n) rest 4095 (print-AllDigits (n + 1) n [] tt (omega arith))
      (omega (arith, length-print 9 (n + 1) n [] (omega (arith, h))))
