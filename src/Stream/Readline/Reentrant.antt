-- ===== src/Stream/Readline/Reentrant.antt =====
-- origin-src/unpv13e/server/readline_r.c: lines out of a stream, through a buffer that the caller has.
use my_unp.Prelude.{
  ℕ, zero, suc, ◌+◌, ◌-◌, ◌≡◌, refl, ◌∙◌, sym, ap, List, [], ◌∷◌, ◌++◌, ◌==◌, Bool, true, false,
  if◌then◌else◌, length, length-append, arith, ◌⊎◌, inl, inr,
}
use my_unp.Stream.Kernel.{Kernel}
use my_unp.Stream.Readline.{
  Buffered, MyRead, char, end, fault, no_fuel, Readline, line, fail, out_of_fuel, my_read,
  line_loop, readline,
}

-- `Rline`: the caller's read_maxlen, and the buffer with the stream of read_fd behind it.
pub record Rline (S : Type 0) : Type 0 where
  pub read_maxlen : ℕ
  pub buffered : Buffered S

-- The caller's arguments, with an empty buffer.
unfoldable pub readline_rinit : {S : Type 0} → S → ℕ → Rline S
readline_rinit s maxlen = record {
  read_maxlen = maxlen;
  buffered = record { ready = []; stream = s };
}

-- Whether the text has a newline at its end.
abbrev pub ends_line : List ℕ → Bool
ends_line [] = false
ends_line (c ∷ []) = c == 10
ends_line (c ∷ d ∷ cs) = ends_line (d ∷ cs)

-- The count of a text that is not empty and has no newline at its end is one more than its length.
abbrev pub recounted : ℕ → List ℕ → ℕ
recounted n [] = n
recounted n (c ∷ cs) = if ends_line (c ∷ cs) then n else suc (length (c ∷ cs))

abbrev pub recount : {S : Type 0} → Readline S → Readline S
recount (line n buf st) = line (recounted n buf) buf st
recount (fail buf st) = fail buf st
recount out_of_fuel = out_of_fuel

ends_line-append : (cs : List ℕ) (c : ℕ) → ends_line (cs ++ (c ∷ [])) ≡ (c == 10)
ends_line-append [] c = refl
ends_line-append (x ∷ []) c = refl
ends_line-append (x ∷ y ∷ cs) c = ends_line-append (y ∷ cs) c

recounted_same :
    (n : ℕ) (buf : List ℕ) → (ends_line buf ≡ true) ⊎ (n ≡ suc (length buf)) → recounted n buf ≡ n
recounted_same n [] h = refl
recounted_same n (c ∷ cs) (inl e) = rw e
recounted_same n (c ∷ cs) (inr e) = go (ends_line (c ∷ cs))
  where
    go : (b : Bool) → (if b then n else suc (length (c ∷ cs))) ≡ n
    go true = refl
    go false = sym e

recounted_end :
    (n : ℕ) (buf : List ℕ)
    → n ≡ suc (length buf)
    → ends_line buf ≡ false
    → (if n == 1 then 0 else n) ≡ recounted (n - 1) buf
recounted_end n [] e h = ground arith
recounted_end n (c ∷ cs) e h = rw h (ground arith)

module _ {S : Type 0} (k : Kernel S) where
  -- `my_read_r` reads as `my_read` does. At its end of file the loop returns 0 if it is the first
  -- round, and else leaves the loop with `n`.
  unfoldable pub line_loop_r : ℕ → ℕ → ℕ → List ℕ → Buffered S → Readline S
  line_loop_r fuel zero n buf st = line n buf st
  line_loop_r fuel (suc rounds) n buf st = elim (my_read k fuel st.ready st.stream) [
    | char c st' ↦ elim (c == 10) [
      | true ↦ line n (buf ++ (c ∷ [])) st'
      | false ↦ line_loop_r fuel rounds (n + 1) (buf ++ (c ∷ [])) st'
    ]
    | end st' ↦ line (if n == 1 then 0 else n) buf st'
    | fault st' ↦ fail buf st'
    | no_fuel ↦ out_of_fuel
  ]

  unfoldable pub readline_r : ℕ → Rline S → Readline S
  readline_r fuel r = line_loop_r fuel (r.read_maxlen - 1) 1 [] r.buffered

  line_loop_r-recount :
      (fuel rounds n : ℕ) (buf : List ℕ) (st : Buffered S)
      → n ≡ suc (length buf)
      → ends_line buf ≡ false
      → line_loop_r fuel rounds n buf st ≡ recount (line_loop k fuel rounds n buf st)
  unfolding line_loop_r line_loop
  line_loop_r-recount fuel zero n buf st e h =
      ap (λ m. line m buf st) (sym (recounted_same n buf (inr e)))
  line_loop_r-recount fuel (suc rounds) n buf st e h =
      go (my_read k fuel st.ready st.stream) (λ c st' fresh.
        line_loop_r-recount fuel rounds (n + 1) (buf ++ (c ∷ [])) st'
          (omega (arith, e, length-append buf (c ∷ []))) (ends_line-append buf c ∙ fresh))
    where
      go :
          (m : MyRead S)
          → ((c : ℕ) (st' : Buffered S)
              → (c == 10) ≡ false
              → line_loop_r fuel rounds (n + 1) (buf ++ (c ∷ [])) st'
                ≡ recount (line_loop k fuel rounds (n + 1) (buf ++ (c ∷ [])) st'))
          → (elim m [
            | char c st' ↦ elim (c == 10) [
              | true ↦ line n (buf ++ (c ∷ [])) st'
              | false ↦ line_loop_r fuel rounds (n + 1) (buf ++ (c ∷ [])) st'
            ]
            | end st' ↦ line (if n == 1 then 0 else n) buf st'
            | fault st' ↦ fail buf st'
            | no_fuel ↦ out_of_fuel
          ])
            ≡ recount (elim m [
              | char c st' ↦ elim (c == 10) [
                | true ↦ line n (buf ++ (c ∷ [])) st'
                | false ↦ line_loop k fuel rounds (n + 1) (buf ++ (c ∷ [])) st'
              ]
              | end st' ↦ line (n - 1) buf st'
              | fault st' ↦ fail buf st'
              | no_fuel ↦ out_of_fuel
            ])
      go (char c st') rest = at_char (c == 10) refl
        where
          at_char :
              (b : Bool)
              → (c == 10) ≡ b
              → (elim b [
                | true ↦ line n (buf ++ (c ∷ [])) st'
                | false ↦ line_loop_r fuel rounds (n + 1) (buf ++ (c ∷ [])) st'
              ])
                ≡ recount (elim b [
                  | true ↦ line n (buf ++ (c ∷ [])) st'
                  | false ↦ line_loop k fuel rounds (n + 1) (buf ++ (c ∷ [])) st'
                ])
          at_char true q =
              ap (λ m. line m (buf ++ (c ∷ [])) st')
                (sym (recounted_same n (buf ++ (c ∷ [])) (inl (ends_line-append buf c ∙ q))))
          at_char false q = rest c st' q
      go (end st') rest = ap (λ m. line m buf st') (recounted_end n buf e h)
      go (fault st') rest = refl
      go no_fuel rest = refl

  -- From the same buffer and with the same limit, readline_r and the library's readline store the
  -- same bytes, leave the same in the buffer and fail together, whatever the stream does. They
  -- return the same count for a text that ends with a newline and for none; for any other, cut at
  -- the limit or by the end of file, readline_r returns one more than it has stored.
  pub readline_r-recount :
      (fuel : ℕ) (r : Rline S)
      → readline_r fuel r ≡ recount (readline k fuel r.read_maxlen r.buffered)
  unfolding readline_r readline
  readline_r-recount fuel r = line_loop_r-recount fuel (r.read_maxlen - 1) 1 [] r.buffered refl refl
