-- ===== src/Prelude/Chars.antt =====
-- Text as lists of character codes.
use Prim.Native.Char.{code}
use Prim.Native.String.{String}
use Prim.Native.Nat.{ℕ}
use mathlib.Core.Bool.{Bool, true, false, ◌&&◌, ◌||◌}
use mathlib.Core.List.{List, [], ◌∷◌}
use my_unp.Prelude.Tests.{leb, ◌==◌}

abbrev pub codes : String → List ℕ
codes String.[] = []
codes (String.◌∷◌ c s) = code c ∷ codes s

abbrev pub Text : Type 0
Text = List ℕ

-- strcmp(s, t) == 0
abbrev pub same_text : Text → Text → Bool
same_text [] [] = true
same_text [] (y ∷ ys) = false
same_text (x ∷ xs) [] = false
same_text (x ∷ xs) (y ∷ ys) = x == y && same_text xs ys

-- strchr(s, c) != NULL
abbrev pub contains : ℕ → Text → Bool
contains c [] = false
contains c (x ∷ xs) = x == c || contains c xs

abbrev pub isdigit : ℕ → Bool
isdigit c = leb b'0' c && leb c b'9'

abbrev pub isxdigit : ℕ → Bool
isxdigit c = isdigit c || (leb b'a' c && leb c b'f') || (leb b'A' c && leb c b'F')

-- s[0], which is 0 at the end.
abbrev pub first_char : Text → ℕ
first_char [] = 0
first_char (c ∷ cs) = c
