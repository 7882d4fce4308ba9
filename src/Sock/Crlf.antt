-- ===== src/Sock/Crlf.antt =====
-- origin-src/unpv13e/sock/crlf.c: newlines to carriage return and newline, and back.
pub mod Returns
pub mod Conversion
use my_unp.Prelude.{
  ℕ, zero, suc, ◌+◌, List, [], ◌∷◌, ◌++◌, Bool, true, false, not, Option, none, some, leb, ltb,
  ◌==◌, if◌then◌else◌, Text, length,
}

-- What either function has stored at `dst` when it returns `lenout`; none is err_quit.
abbrev pub Converted : Type 0
Converted = Option (ℕ × Text)

-- One turn of the loop of `crlf_add`: the new `lenout`, and what is stored.
unfoldable pub add_char : ℕ → ℕ → ℕ → Converted
add_char dstsize lenout c =
    if c == b'\n'
    then (if leb dstsize (suc lenout) then none else some (suc lenout, b'\r' ∷ c ∷ []))
    else some (lenout, c ∷ [])

-- One turn of the loop of `crlf_strip`.
unfoldable pub strip_char : ℕ → ℕ → ℕ → Converted
strip_char dstsize lenout c =
    if not (c == b'\r')
    then (if leb dstsize (suc lenout) then none else some (suc lenout, c ∷ []))
    else some (lenout, [])

-- `*dst++ = ...` of one turn before those of the turns that follow.
abbrev pub stored_before : Text → Converted → Converted
stored_before bs none = none
stored_before bs (some r) = some (r.0, bs ++ r.1)

abbrev pub next_turn : Converted → (ℕ → Converted) → Converted
next_turn none k = none
next_turn (some r) k = stored_before r.1 (k r.0)

-- The `for` loops, over the `lenin` bytes at `src`.
abbrev pub turns : (ℕ → ℕ → Converted) → Text → ℕ → Converted
turns step [] lenout = some (lenout, [])
turns step (c ∷ src) lenout = next_turn (step lenout c) (turns step src)

unfoldable pub crlf_add : ℕ → Text → Converted
crlf_add dstsize src =
    if ltb dstsize (length src) then none else turns (add_char dstsize) src (length src)

unfoldable pub crlf_strip : ℕ → Text → Converted
crlf_strip dstsize src = turns (strip_char dstsize) src 0
