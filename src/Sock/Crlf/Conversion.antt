-- ===== src/Sock/Crlf/Conversion.antt =====
-- What the two conversions compute, when they fit, and that one undoes the other.
use my_unp.Prelude.{
  ℕ, suc, ◌+◌, ◌≡◌, ◌<◌, refl, sym, ap, ◌∙◌, [], ◌∷◌, ◌++◌, Bool, true, false, not, ◌||◌, ◌&&◌,
  none, some, leb, ltb, ◌==◌, if◌then◌else◌, Text, length, arith,
}
use my_unp.Sock.Crlf.{add_char, strip_char, stored_before, next_turn, turns, crlf_add, crlf_strip}
use my_unp.Sock.Crlf.Returns.{
  with_returns, without_returns, newlines, length-with_returns, without_returns-with_returns,
  NoReturn, without_returns_none,
}

-- Whether `n` more bytes fit behind the count `lenout`: the last of them may not take it to `dstsize`.
abbrev pub fits : ℕ → ℕ → ℕ → Bool
fits dstsize lenout n = n == 0 || ltb (lenout + n) dstsize

fit_full :
    (dstsize lenout n : ℕ) → leb dstsize (suc lenout) ≡ true → fits dstsize lenout (1 + n) ≡ false
fit_full dstsize lenout n h = ground arith

fit_next :
    (dstsize lenout n : ℕ)
    → leb dstsize (suc lenout) ≡ false
    → fits dstsize lenout (1 + n) ≡ fits dstsize (suc lenout) n
fit_next dstsize lenout n h = ground arith

fit_full_suc :
    (dstsize lenout n : ℕ) → leb dstsize (suc lenout) ≡ true → fits dstsize lenout (suc n) ≡ false
fit_full_suc dstsize lenout n h = ground arith

fit_next_suc :
    (dstsize lenout n : ℕ)
    → leb dstsize (suc lenout) ≡ false
    → fits dstsize lenout (suc n) ≡ fits dstsize (suc lenout) n
fit_next_suc dstsize lenout n h = ground arith

fits_below : (dstsize n : ℕ) → n < dstsize → fits dstsize 0 n ≡ true
fits_below dstsize n h = ground arith

leb_of_ltb : (a b : ℕ) (t : Bool) → ltb a b ≡ t → leb b a ≡ not t
leb_of_ltb a b true h = ground arith
leb_of_ltb a b false h = ground arith

stored_before-if :
    (b : Bool) (bs dst : Text) (n m : ℕ)
    → n ≡ m
    → stored_before bs (if b then some (n, dst) else none)
      ≡ (if b then some (m, bs ++ dst) else none)
stored_before-if true bs dst n m e = rw e
stored_before-if false bs dst n m e = refl

turns-add_char :
    (dstsize : ℕ) (src : Text) (lenout : ℕ)
    → turns (add_char dstsize) src lenout ≡ (
        if fits dstsize lenout (newlines src)
        then some (lenout + newlines src, with_returns src)
        else none)
unfolding add_char with_returns newlines
turns-add_char dstsize [] lenout = ap (λ n. some (n, [])) (omega arith)
turns-add_char dstsize (c ∷ src) lenout =
    go (c == b'\n') (leb dstsize (suc lenout)) refl (turns-add_char dstsize src)
  where
    go :
        (b full : Bool)
        → leb dstsize (suc lenout) ≡ full
        → ((m : ℕ)
            → turns (add_char dstsize) src m ≡ (
                if fits dstsize m (newlines src)
                then some (m + newlines src, with_returns src)
                else none))
        → next_turn
            (if b
              then (if full then none else some (suc lenout, b'\r' ∷ c ∷ []))
              else some (lenout, c ∷ []))
            (turns (add_char dstsize) src)
          ≡ (if fits dstsize lenout (if b then 1 + newlines src else newlines src)
              then some (
                lenout + (if b then 1 + newlines src else newlines src),
                (if b then b'\r' ∷ c ∷ [] else c ∷ []) ++ with_returns src,
              )
              else none)
    go true true q rest = rw (fit_full dstsize lenout (newlines src) q)
    go true false q rest =
        rw (rest (suc lenout), fit_next dstsize lenout (newlines src) q)
          (stored_before-if (fits dstsize (suc lenout) (newlines src)) (b'\r' ∷ c ∷ [])
            (with_returns src) (suc lenout + newlines src) (lenout + (1 + newlines src))
            (omega arith))
    go false full q rest = rw (rest lenout) (
        stored_before-if (fits dstsize lenout (newlines src)) (c ∷ []) (with_returns src)
          (lenout + newlines src) (lenout + newlines src) refl)

-- crlf_add ends at err_quit if `src` is longer than `dstsize`, or has newlines and does not come to
-- less than `dstsize` with a carriage return before each; else it stores `src` with a carriage
-- return before each newline, and returns the length of that.
pub crlf_add-Fits :
    (dstsize : ℕ) (src : Text)
    → crlf_add dstsize src ≡ (
        if leb (length src) dstsize && fits dstsize (length src) (newlines src)
        then some (length (with_returns src), with_returns src)
        else none)
unfolding crlf_add
crlf_add-Fits dstsize src = go (ltb dstsize (length src)) refl
  where
    go :
        (long : Bool)
        → ltb dstsize (length src) ≡ long
        → (if long then none else turns (add_char dstsize) src (length src)) ≡ (
            if leb (length src) dstsize && fits dstsize (length src) (newlines src)
            then some (length (with_returns src), with_returns src)
            else none)
    go true q = rw (leb_of_ltb dstsize (length src) true q)
    go false q =
        rw (leb_of_ltb dstsize (length src) false q, length-with_returns src)
          (turns-add_char dstsize src (length src))

turns-strip_char :
    (dstsize : ℕ) (src : Text) (lenout : ℕ)
    → turns (strip_char dstsize) src lenout ≡ (
        if fits dstsize lenout (length (without_returns src))
        then some (lenout + length (without_returns src), without_returns src)
        else none)
unfolding strip_char without_returns
turns-strip_char dstsize [] lenout = ap (λ n. some (n, [])) (omega arith)
turns-strip_char dstsize (c ∷ src) lenout =
    go (c == b'\r') (leb dstsize (suc lenout)) refl (turns-strip_char dstsize src)
  where
    go :
        (b full : Bool)
        → leb dstsize (suc lenout) ≡ full
        → ((m : ℕ)
            → turns (strip_char dstsize) src m ≡ (
                if fits dstsize m (length (without_returns src))
                then some (m + length (without_returns src), without_returns src)
                else none))
        → next_turn
            (if not b
              then (if full then none else some (suc lenout, c ∷ []))
              else some (lenout, []))
            (turns (strip_char dstsize) src)
          ≡ (if fits dstsize lenout (length ((if b then [] else c ∷ []) ++ without_returns src))
              then some (
                lenout + length ((if b then [] else c ∷ []) ++ without_returns src),
                (if b then [] else c ∷ []) ++ without_returns src,
              )
              else none)
    go true full q rest = rw (rest lenout) (
        stored_before-if (fits dstsize lenout (length (without_returns src))) []
          (without_returns src) (lenout + length (without_returns src))
          (lenout + length (without_returns src)) refl)
    go false true q rest = rw (fit_full_suc dstsize lenout (length (without_returns src)) q)
    go false false q rest =
        rw (rest (suc lenout), fit_next_suc dstsize lenout (length (without_returns src)) q)
          (stored_before-if (fits dstsize (suc lenout) (length (without_returns src))) (c ∷ [])
            (without_returns src) (suc lenout + length (without_returns src))
            (lenout + suc (length (without_returns src))) (omega arith))

-- crlf_strip ends at err_quit if the text without its carriage returns is not empty and not shorter
-- than `dstsize`; else it stores that text and returns its length.
pub crlf_strip-Fits :
    (dstsize : ℕ) (src : Text)
    → crlf_strip dstsize src ≡ (
        if fits dstsize 0 (length (without_returns src))
        then some (length (without_returns src), without_returns src)
        else none)
unfolding crlf_strip
crlf_strip-Fits dstsize src =
    turns-strip_char dstsize src 0
    ∙ ap
        (λ n.
          if fits dstsize 0 (length (without_returns src))
          then some (n, without_returns src)
          else none)
        (omega arith)

stores-if :
    (b : Bool) (n : ℕ) (t : Text) (r : ℕ × Text)
    → (if b then some (n, t) else none) ≡ some r
    → r.1 ≡ t
stores-if true n t r h = cc
stores-if false n t r h = absurd cc

pub crlf_add-stores :
    (dstsize : ℕ) (src : Text) (r : ℕ × Text)
    → crlf_add dstsize src ≡ some r
    → r.1 ≡ with_returns src
crlf_add-stores dstsize src r h =
    stores-if (leb (length src) dstsize && fits dstsize (length src) (newlines src))
      (length (with_returns src)) (with_returns src) r (sym (crlf_add-Fits dstsize src) ∙ h)

pub crlf_strip-stores :
    (dstsize : ℕ) (src : Text) (r : ℕ × Text)
    → crlf_strip dstsize src ≡ some r
    → r.1 ≡ without_returns src
crlf_strip-stores dstsize src r h =
    stores-if (fits dstsize 0 (length (without_returns src))) (length (without_returns src))
      (without_returns src) r (sym (crlf_strip-Fits dstsize src) ∙ h)

-- What crlf_add makes of a text without carriage returns, crlf_strip turns back into that text, in
-- any buffer that is longer than the text.
pub crlf_strip-crlf_add :
    (dstsize backsize lenout : ℕ) (src dst : Text)
    → NoReturn src
    → length src < backsize
    → crlf_add dstsize src ≡ some (lenout, dst)
    → crlf_strip backsize dst ≡ some (length src, src)
crlf_strip-crlf_add dstsize backsize lenout src dst clean room e =
    back_of (lenout, dst) (crlf_add-stores dstsize src (lenout, dst) e)
  where
    back : without_returns (with_returns src) ≡ src
    back = without_returns-with_returns src ∙ without_returns_none src clean

    stripped : crlf_strip backsize (with_returns src) ≡ some (length src, src)
    stripped =
        crlf_strip-Fits backsize (with_returns src)
        ∙ ap (λ t. if fits backsize 0 (length t) then some (length t, t) else none) back
        ∙ ap (λ b. if b then some (length src, src) else none)
            (fits_below backsize (length src) room)

    back_of :
        (r : ℕ × Text) → r.1 ≡ with_returns src → crlf_strip backsize r.1 ≡ some (length src, src)
    back_of r q = ap (crlf_strip backsize) q ∙ stripped
