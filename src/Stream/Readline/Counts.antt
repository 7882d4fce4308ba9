-- ===== src/Stream/Readline/Counts.antt =====
-- What the count that readline returns tells of its line.
use my_unp.Prelude.{
  ℕ, zero, suc, ◌≡◌, refl, ◌∙◌, sym, ap, List, [], ◌∷◌, length, Bool, true, false, ◌==◌,
  if◌then◌else◌, arith,
}
use my_unp.Stream.Readline.Refine.{
  Line, LineEnd, newline, end_of_file, truncated, take_line, count_of,
}

take_line-some :
    (room : ℕ) (xs : List ℕ)
    → (take_line (suc room) xs).text ≡ []
    → (take_line (suc room) xs).why ≡ end_of_file
unfolding take_line
take_line-some room [] h = refl
take_line-some room (x ∷ xs) h = go (x == 10) h
  where
    l : Line
    l = take_line room xs

    cut : Bool → Line
    cut b =
        if b
        then record { text = x ∷ []; why = newline; rest = xs }
        else record l { text = x ∷ l.text }

    go : (b : Bool) → (cut b).text ≡ [] → (cut b).why ≡ end_of_file
    go true q = absurd cc
    go false q = absurd cc

-- The count is 0 at the end of the stream, and only there.
pub data Counted : ℕ → List ℕ → Type 0 where
  at_end : Counted 0 []
  a_line : (n c : ℕ) (cs : List ℕ) → Counted (suc n) (c ∷ cs)

view :
    (n : ℕ) (text : List ℕ) (why : LineEnd)
    → (text ≡ [] → why ≡ end_of_file)
    → n ≡ count_of why (length text)
    → Counted n text
view zero [] why ends e = at_end
view (suc n) [] why ends e =
    let same = ends refl in absurd (not_one (e ∙ ap (λ w. count_of w 0) same))
  where
    not_one : suc n ≡ 0 → ⊥
    not_one q = omega arith
view zero (c ∷ cs) newline ends e = absurd (omega arith)
view zero (c ∷ cs) end_of_file ends e = absurd (omega arith)
view zero (c ∷ cs) truncated ends e = absurd (omega arith)
view (suc n) (c ∷ cs) why ends e = a_line n c cs

pub counted :
    (room n : ℕ) (text all : List ℕ)
    → text ≡ (take_line (suc room) all).text
    → n ≡ count_of (take_line (suc room) all).why (length text)
    → Counted n text
counted room n text all same e =
    view n text (take_line (suc room) all).why (λ q. take_line-some room all (sym same ∙ q)) e
