-- ===== src/Sock/Crlf/Returns.antt =====
-- Texts with and without carriage returns.
use my_unp.Prelude.{
  ℕ, suc, ◌+◌, ◌≡◌, refl, sym, ap, ◌∙◌, [], ◌∷◌, ◌++◌, Bool, true, false, ◌==◌, if◌then◌else◌, Text,
  length, arith, append_assoc,
}

-- The text with a carriage return before each newline.
unfoldable pub with_returns : Text → Text
with_returns [] = []
with_returns (c ∷ cs) = (if c == b'\n' then b'\r' ∷ c ∷ [] else c ∷ []) ++ with_returns cs

-- The text without its carriage returns.
unfoldable pub without_returns : Text → Text
without_returns [] = []
without_returns (c ∷ cs) = (if c == b'\r' then [] else c ∷ []) ++ without_returns cs

unfoldable pub newlines : Text → ℕ
newlines [] = 0
newlines (c ∷ cs) = if c == b'\n' then 1 + newlines cs else newlines cs

pub length-with_returns : (cs : Text) → length (with_returns cs) ≡ length cs + newlines cs
unfolding with_returns newlines
length-with_returns [] = refl
length-with_returns (c ∷ cs) = go (c == b'\n') (length-with_returns cs)
  where
    go :
        (b : Bool)
        → length (with_returns cs) ≡ length cs + newlines cs
        → length ((if b then b'\r' ∷ c ∷ [] else c ∷ []) ++ with_returns cs)
          ≡ suc (length cs) + (if b then 1 + newlines cs else newlines cs)
    go true h = omega arith
    go false h = omega arith

pub with_returns-append :
    (xs ys : Text) → with_returns (xs ++ ys) ≡ with_returns xs ++ with_returns ys
unfolding with_returns
with_returns-append [] ys = refl
with_returns-append (x ∷ xs) ys =
    ap (λ r. (if x == b'\n' then b'\r' ∷ x ∷ [] else x ∷ []) ++ r) (with_returns-append xs ys)
    ∙ sym (
        append_assoc (if x == b'\n' then b'\r' ∷ x ∷ [] else x ∷ []) (with_returns xs)
          (with_returns ys))

pub without_returns-append :
    (xs ys : Text) → without_returns (xs ++ ys) ≡ without_returns xs ++ without_returns ys
unfolding without_returns
without_returns-append [] ys = refl
without_returns-append (x ∷ xs) ys =
    ap (λ r. (if x == b'\r' then [] else x ∷ []) ++ r) (without_returns-append xs ys)
    ∙ sym
        (append_assoc (if x == b'\r' then [] else x ∷ []) (without_returns xs) (without_returns ys))

-- What is stripped of the text with returns is what is stripped of the text.
pub without_returns-with_returns :
    (cs : Text) → without_returns (with_returns cs) ≡ without_returns cs
unfolding with_returns without_returns
without_returns-with_returns [] = refl
without_returns-with_returns (c ∷ cs) = go (c == b'\n') (without_returns-with_returns cs)
  where
    go :
        (b : Bool)
        → without_returns (with_returns cs) ≡ without_returns cs
        → without_returns ((if b then b'\r' ∷ c ∷ [] else c ∷ []) ++ with_returns cs)
          ≡ (if c == b'\r' then [] else c ∷ []) ++ without_returns cs
    go true h = rw h
    go false h = rw h

abbrev pub NoReturn : Text → Type 0
NoReturn [] = Unit
NoReturn (c ∷ cs) = ((c == b'\r') ≡ false) × NoReturn cs

pub without_returns_none : (cs : Text) → NoReturn cs → without_returns cs ≡ cs
unfolding without_returns
without_returns_none [] h = refl
without_returns_none (c ∷ cs) h = rw (h.0, without_returns_none cs h.1)
