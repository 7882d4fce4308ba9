-- ===== src/Talk/Whole.antt =====
-- The client and the echo server on the two ends of a connection.
use my_unp.Prelude.{
  ℕ, zero, suc, ◌+◌, ◌<◌, ◌≡◌, refl, ◌∙◌, sym, ap, subst, List, [], ◌∷◌, ◌++◌, append_assoc,
  append-nil, length, Text, true, false, ◌==◌, arith,
}
use mathlib.Core.List.{append_cancel_left}
use my_unp.Stream.Kernel.{Kernel, ReadLaws, WriteLaws}
use my_unp.Stream.Readline.{maxline, Buffered}
use my_unp.Stream.Readline.Refine.{newline, take_line, unread}
use my_unp.Stream.Frames.{DuplexLaws}
use my_unp.Lines.{closed}
use my_unp.Lines.Answers.{CarriesOut}
use my_unp.Lines.Echo.{echo, str_echo, str_echo-CarriesOut}
use my_unp.Talk.{cstr, str_cli}
use my_unp.Talk.Plan.{Talk, finished, exchange, talk, Follows}
use my_unp.Talk.Follows.{AllFit, str_cli-Follows}

-- A line of at most `room` bytes: one newline, at its end, and no NUL.
abbrev pub IsLine : ℕ → Text → Type 0
IsLine room [] = ⊥
IsLine zero (c ∷ cs) = ⊥
IsLine (suc room) (c ∷ []) = c ≡ 10
IsLine (suc room) (c ∷ d ∷ ds) = ((c == 10) ≡ false) × ((c == 0) ≡ false) × IsLine room (d ∷ ds)

abbrev pub AllLines : List Text → Type 0
AllLines [] = Unit
AllLines (l ∷ ls) = IsLine 4095 l × AllLines ls

unfoldable pub all_of : List Text → Text
all_of [] = []
all_of (l ∷ ls) = l ++ all_of ls

take_line-line :
    (room : ℕ) (l more : Text)
    → IsLine room l
    → take_line room (l ++ more) ≡ record { text = l; why = newline; rest = more }
unfolding take_line
take_line-line room [] more h = absurd h
take_line-line zero (c ∷ cs) more h = absurd h
take_line-line (suc room) (c ∷ []) more h =
    let ends : (c == 10) ≡ true = ground (arith, h) in rw ends refl
take_line-line (suc room) (c ∷ d ∷ ds) more (other, _, h) =
    rw (other, take_line-line room (d ∷ ds) more h) refl

cstr-line : (room : ℕ) (l : Text) → IsLine room l → cstr l ≡ l
cstr-line room [] h = absurd h
cstr-line zero (c ∷ cs) h = absurd h
cstr-line (suc room) (c ∷ []) h =
    let no_nul : (c == 0) ≡ false = ground (arith, h) in rw no_nul refl
cstr-line (suc room) (c ∷ d ∷ ds) (_, no_nul, h) =
    rw (no_nul) (ap (λ t. c ∷ t) (cstr-line room (d ∷ ds) h))

length-line : (room : ℕ) (l : Text) → IsLine room l → length l < suc room
length-line room [] h = absurd h
length-line zero (c ∷ cs) h = absurd h
length-line (suc room) (c ∷ []) h = omega arith
length-line (suc room) (c ∷ d ∷ ds) (_, _, h) = omega (arith, length-line room (d ∷ ds) h)

AllLines-AllFit : (ls : List Text) → AllLines ls → AllFit ls
AllLines-AllFit [] h = tt
AllLines-AllFit (l ∷ ls) (h, hs) =
    (omega (arith, length-line 4095 l h, ap length (cstr-line 4095 l h)), AllLines-AllFit ls hs)

exchange-line :
    (room : ℕ) (l : Text) (rest : Talk)
    → IsLine room l
    → exchange l l rest
      ≡ record { sends = l ++ rest.sends; prints = cstr l ++ rest.prints; why = rest.why }
exchange-line room [] rest h = absurd h
exchange-line room (c ∷ cs) rest h = refl

-- The plan where the lines come back as they are sent.
talk-echo :
    (ls : List Text) (more : Text)
    → AllLines ls
    → talk ls (all_of ls ++ more) ≡ record { sends = all_of ls; prints = all_of ls; why = finished }
unfolding talk all_of
talk-echo [] more h = refl
talk-echo (l ∷ ls) more (h, hs) =
    rw
      (
        append_assoc l (all_of ls) more,
        take_line-line 4095 l (all_of ls ++ more) h,
        cstr-line 4095 l h,
        talk-echo ls more hs,
        exchange-line 4095 l (record { sends = all_of ls; prints = all_of ls; why = finished }) h,
        cstr-line 4095 l h,
      )
      refl

-- Where str_echo has returned, having served the lines of the client's input, and the client gets what
-- it sent: str_cli prints just its input and returns; where a call of its own fails, it has sent and
-- printed the first bytes of it.
pub str_cli-str_echo :
    {S : Type 0} {T : Type 0} (k : Kernel S) (j : Kernel T)
    → ReadLaws k
    → WriteLaws k
    → DuplexLaws k
    → ReadLaws j
    → WriteLaws j
    → DuplexLaws j
    → (fuel rounds : ℕ) (ls : List Text) (st : Buffered S) (t t' : T)
    → maxline + k.patience st.stream < fuel
    → maxline + j.patience t < fuel
    → length (j.pending t) + j.patience t < rounds
    → AllLines ls
    → j.pending t ≡ all_of ls
    → str_echo j fuel rounds t ≡ closed t'
    → j.sent t' ≡ j.sent t ++ unread k st
    → Follows k st.stream []
        (record { sends = all_of ls; prints = all_of ls; why = finished })
        (str_cli k fuel ls st [])
str_cli-str_echo k j kr kw kd jr jw jd fuel rounds ls st t t' enough_k enough_j enough lines all
      ends linked =
    subst (λ x. Follows k st.stream [] x (str_cli k fuel ls st [])) plan
      (str_cli-Follows k kr kw kd fuel ls st enough_k (AllLines-AllFit ls lines))
  where
    echoed : j.sent t' ≡ j.sent t ++ j.pending t
    echoed =
        (subst (λ r. CarriesOut j t (echo j t) r) ends
          (str_echo-CarriesOut j jr jw jd fuel rounds t enough_j enough)).1

    comes : unread k st ≡ all_of ls ++ []
    comes =
        append_cancel_left (j.sent t) (unread k st) (all_of ls ++ [])
          (sym linked ∙ echoed ∙ ap (λ p. j.sent t ++ p) (all ∙ sym (append-nil (all_of ls))))

    plan : talk ls (unread k st) ≡ record { sends = all_of ls; prints = all_of ls; why = finished }
    plan = ap (talk ls) comes ∙ talk-echo ls [] lines
