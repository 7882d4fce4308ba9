-- ===== src/Talk/Follows.antt =====
-- The client of the echo server follows its plan.
use my_unp.Prelude.{
  ℕ, ◌+◌, ◌≤◌, ◌<◌, ◌≡◌, refl, ◌∙◌, sym, ap, subst, List, [], ◌∷◌, ◌++◌, append-nil, append_assoc,
  length, Text, arith,
}
use my_unp.Stream.Kernel.{Kernel, ReadLaws, WriteLaws}
use my_unp.Stream.Readline.{maxline, Buffered, Readline, line, fail, out_of_fuel, readline}
use my_unp.Stream.Readline.Refine.{
  Line, LineEnd, newline, end_of_file, truncated, take_line, count_of, unread, readline-Reads,
}
use my_unp.Stream.Readline.Refine
use my_unp.Stream.Writen.{WritenResult, written, writen, Writes, writen-Writes}
use my_unp.Stream.Writen as Writen
use my_unp.Stream.Frames.{DuplexLaws, AfterReadline, AfterWriten, readline-leaves, writen-leaves}
use my_unp.Stream.Readline.Counts.{Counted, at_end, a_line, counted}
use my_unp.Talk.{cstr, after_writen, after_readline, str_cli}
use my_unp.Talk.Plan.{Talk, exchange, talk, Follows, Follows-exchange}

-- What Fgets gives fits the buffer.
abbrev pub AllFit : List Text → Type 0
AllFit [] = Unit
AllFit (l ∷ ls) = (length (cstr l) < maxline) × AllFit ls

module _ {S : Type 0} (k : Kernel S) (reads : ReadLaws k) (writes : WriteLaws k)
    (duplex : DuplexLaws k) (fuel most : ℕ) (enough : maxline + most < fuel) where
  Frame : S → S → Type 0
  Frame s s' = (k.sent s' ≡ k.sent s) × (k.patience s' ≤ most)

  Next : List Text → Type 0
  Next ls =
      (st : Buffered S) (out : Text)
      → k.patience st.stream ≤ most
      → Follows k st.stream out (talk ls (unread k st)) (str_cli k fuel ls st out)

  -- The line is sent; a line of some bytes is printed, and the count 0 is the end of the stream.
  counted-Follows :
      (ls : List Text) (n : ℕ) (s : S) (l out text : Text) (st : Buffered S)
      → Next ls
      → k.sent st.stream ≡ k.sent s ++ l
      → k.patience st.stream ≤ most
      → Counted n text
      → Follows k s out
          (exchange l text (talk ls (unread k st)))
          (after_readline (line n text st) out (str_cli k fuel ls))
  unfolding Next
  counted-Follows ls n s l out text st next sent few at_end = (refl, sent, sym (append-nil out))
  counted-Follows ls n s l out text st next sent few (a_line m c cs) =
      Follows-exchange k s st.stream out l c cs (talk ls (unread k st))
        (str_cli k fuel ls st (out ++ cstr (c ∷ cs))) sent (next st (out ++ cstr (c ∷ cs)) few)

  exchange-sends :
      (l text : Text) (rest : Talk) → (more : Text) × ((exchange l text rest).sends ≡ l ++ more)
  exchange-sends l [] rest = ([], sym (append-nil l))
  exchange-sends l (c ∷ cs) rest = (rest.sends, refl)

  after_readline-Follows :
      (ls : List Text) (s s' : S) (l out : Text) (all : List ℕ)
      → Next ls
      → k.sent s' ≡ k.sent s ++ l
      → (r : Readline S) → Refine.Reads k 4095 all r
      → AfterReadline (Frame s') r
      → Follows k s out
          (exchange l (take_line 4095 all).text (talk ls (take_line 4095 all).rest))
          (after_readline r out (str_cli k fuel ls))
  unfolding Frame
  after_readline-Follows ls s s' l out all next sent (line n text st) (same, behind, count)
        (kept, few) =
      subst (λ x. Follows k s out x (after_readline (line n text st) out (str_cli k fuel ls)))
        (ap (λ t. exchange l t (talk ls (unread k st))) same
          ∙ ap (λ b. exchange l (take_line 4095 all).text (talk ls b)) behind)
        (counted-Follows ls n s l out text st next (kept ∙ sent) few
          (counted 4094 n text all same count))
  after_readline-Follows ls s s' l out all next sent (fail text st) h (kept, few) =
      let split = exchange-sends l (take_line 4095 all).text (talk ls (take_line 4095 all).rest) in
      (l, split.0, [], _, split.1, kept ∙ sent, refl, sym (append-nil out))
  after_readline-Follows ls s s' l out all next sent out_of_fuel h kept = absurd h

  after_writen-Follows :
      (ls : List Text) (st : Buffered S) (l out : Text)
      → Next ls
      → (w : WritenResult S) → Writes k st.stream l w
      → AfterWriten (λ s'. (k.pending s' ≡ k.pending st.stream) × (k.patience s' ≤ most)) w
      → Follows k st.stream out
          (exchange l
            (take_line 4095 (unread k st)).text
            (talk ls (take_line 4095 (unread k st)).rest))
          (after_writen w st.ready out
            (λ st'. after_readline (readline k fuel maxline st') out (str_cli k fuel ls)))
  unfolding Frame
  after_writen-Follows ls st l out next (written c s') (_, sent) (pending, few) =
      after_readline-Follows ls st.stream s' l out (unread k st) next sent
        (readline k fuel maxline st')
        (subst (λ p. Refine.Reads k 4095 (st.ready ++ p) (readline k fuel maxline st')) pending
          (readline-Reads k reads fuel maxline st' (omega (arith, few, enough))))
        (readline-leaves k duplex fuel most maxline st' few)
    where
      st' : Buffered S
      st' = record { ready = st.ready; stream = s' }
  after_writen-Follows ls st l out next (Writen.failed s') (front, back, split, _, sent) kept =
      let more =
        exchange-sends l (take_line 4095 (unread k st)).text
          (talk ls (take_line 4095 (unread k st)).rest) in
      (
        front,
        back ++ more.0,
        [],
        _,
        more.1 ∙ ap (λ p. p ++ more.0) split ∙ append_assoc front back more.0,
        sent,
        refl,
        sym (append-nil out),
      )
  after_writen-Follows ls st l out next Writen.out_of_fuel w kept = absurd w

  lines-Follow : (ls : List Text) → AllFit ls → Next ls
  unfolding Next str_cli talk
  lines-Follow [] fits st out few =
      (refl, sym (append-nil (k.sent st.stream)), sym (append-nil out))
  lines-Follow (l ∷ ls) (fit, fits) st out few =
      after_writen-Follows ls st (cstr l) out (lines-Follow ls fits)
        (writen k fuel st.stream (cstr l))
        (writen-Writes k writes fuel st.stream (cstr l) (omega (arith, fit, few, enough)))
        (writen-leaves k duplex fuel most st.stream (cstr l) few)

-- On a lawful stream and with fuel for a buffer and the signals to come, str_cli sends each line of its
-- input and prints for it the next line of the bytes that come, to its NUL, whatever the sizes of the
-- reads and writes; it returns at the end of the input, or ends at err_quit where the stream ends
-- before; where a call fails, it has sent and printed the first bytes of this.
pub str_cli-Follows :
    {S : Type 0} (k : Kernel S)
    → ReadLaws k
    → WriteLaws k
    → DuplexLaws k
    → (fuel : ℕ) (ls : List Text) (st : Buffered S) → maxline + k.patience st.stream < fuel
    → AllFit ls
    → Follows k st.stream [] (talk ls (unread k st)) (str_cli k fuel ls st [])
unfolding Next
str_cli-Follows k reads writes duplex fuel ls st enough fits =
    lines-Follow k reads writes duplex fuel (k.patience st.stream) enough ls fits st []
      (omega arith)
