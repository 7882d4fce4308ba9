-- ===== src/Lines/Session.antt =====
-- The loop of a line server carries out its session.
use my_unp.Prelude.{
  ℕ, zero, suc, ◌+◌, ◌≤◌, ◌<◌, ◌≡◌, ◌≢◌, refl, ◌∙◌, sym, ap, subst, List, [], ◌∷◌, ◌++◌,
  append_assoc, append-nil, length, Option, none, some, Text, arith,
}
use my_unp.Stream.Kernel.{Kernel, ReadLaws, WriteLaws}
use my_unp.Stream.Readline.{maxline, Buffered, Readline, line, fail, out_of_fuel, readline}
use my_unp.Stream.Readline.Refine.{
  Line, LineEnd, newline, end_of_file, truncated, take_line, count_of, unread, readline-Reads,
}
use my_unp.Stream.Readline.Refine
use my_unp.Stream.Readline.Counts.{Counted, at_end, a_line, counted}
use my_unp.Stream.Writen.{WritenResult, written, writen, Writes, writen-Writes}
use my_unp.Stream.Writen as Writen
use my_unp.Stream.Frames.{DuplexLaws, AfterReadline, AfterWriten, readline-leaves, writen-leaves}
use my_unp.Lines.{after_write, answer_line, on_line, serve_loop}
use my_unp.Lines.Answers.{
  CarriesOut-answered, CarriesOut-from, session-finishes, unfinished, answered, next_answer,
  session, CarriesOut,
}

module _ {S : Type 0} (k : Kernel S) (reads : ReadLaws k) (writes : WriteLaws k)
    (duplex : DuplexLaws k) (reply : Text → Option Text) (fuel most : ℕ)
    (enough : (text bs : Text) → reply text ≡ some bs → length bs + most < fuel)
    (some_fuel : most < fuel) where
  Frame : S → S → Type 0
  Frame s s' = (k.sent s' ≡ k.sent s) × (k.patience s' ≤ most)

  -- A step that may follow carries out the rest.
  Next : ℕ → Type 0
  Next rounds =
      (st : Buffered S)
      → k.patience st.stream ≤ most
      → CarriesOut k st.stream (session reply rounds (unread k st))
          (serve_loop k fuel reply rounds st)

  after_write-CarriesOut :
      (rounds : ℕ) (st : Buffered S) (bs : List ℕ)
      → Next rounds
      → (w : WritenResult S) → Writes k st.stream bs w
      → AfterWriten (λ s'. (k.pending s' ≡ k.pending st.stream) × (k.patience s' ≤ most)) w
      → CarriesOut k st.stream
          (answered (some bs) (session reply rounds (unread k st)))
          (after_write w st.ready (serve_loop k fuel reply rounds))
  unfolding Next
  after_write-CarriesOut rounds st bs next (written c s') (_, sent) (pending, few) =
      CarriesOut-answered k st.stream s' bs (session reply rounds (unread k st))
        (serve_loop k fuel reply rounds (record { ready = st.ready; stream = s' })) sent
        (subst
          (λ p.
            CarriesOut k s' (session reply rounds (st.ready ++ p))
              (serve_loop k fuel reply rounds (record { ready = st.ready; stream = s' })))
          pending (next (record { ready = st.ready; stream = s' }) few))
  after_write-CarriesOut rounds st bs next (Writen.failed s') (front, back, split, _, sent) h = (
    front,
    back ++ (session reply rounds (unread k st)).answers,
    ap (λ p. p ++ (session reply rounds (unread k st)).answers) split
        ∙ append_assoc front back (session reply rounds (unread k st)).answers,
    sent,
  )
  after_write-CarriesOut rounds st bs next Writen.out_of_fuel w h = absurd w

  answer_line-CarriesOut :
      (rounds : ℕ) (text : Text) (st : Buffered S)
      → Next rounds
      → k.patience st.stream ≤ most
      → CarriesOut k st.stream
          (answered (reply text) (session reply rounds (unread k st)))
          (answer_line k fuel reply (reply text) st (serve_loop k fuel reply rounds))
  answer_line-CarriesOut rounds text st next few = go (reply text) refl
    where
      go :
          (o : Option Text)
          → reply text ≡ o
          → CarriesOut k st.stream
              (answered o (session reply rounds (unread k st)))
              (answer_line k fuel reply o st (serve_loop k fuel reply rounds))
      go none e = (refl, sym (append-nil (k.sent st.stream)))
      go (some bs) e =
          after_write-CarriesOut rounds st bs next (writen k fuel st.stream bs)
            (writen-Writes k writes fuel st.stream bs (omega (arith, enough text bs e, few)))
            (writen-leaves k duplex fuel most st.stream bs few)

  -- A line of some bytes is answered; the count 0 comes only with the end of the stream.
  counted-CarriesOut :
      (rounds : ℕ) (n : ℕ) (text : Text) (st : Buffered S)
      → Next rounds
      → k.patience st.stream ≤ most
      → Counted n text
      → CarriesOut k st.stream
          (next_answer reply text (session reply rounds (unread k st)))
          (on_line k fuel reply (line n text st) (serve_loop k fuel reply rounds))
  counted-CarriesOut rounds n text st next few at_end = (refl, sym (append-nil (k.sent st.stream)))
  counted-CarriesOut rounds n text st next few (a_line m c cs) =
      answer_line-CarriesOut rounds (c ∷ cs) st next few

  on_line-CarriesOut :
      (rounds : ℕ) (st : Buffered S)
      → Next rounds
      → (r : Readline S) → Refine.Reads k 4095 (unread k st) r
      → AfterReadline (Frame st.stream) r
      → CarriesOut k st.stream
          (let l = take_line 4095 (unread k st) in
            next_answer reply l.text (session reply rounds l.rest))
          (on_line k fuel reply r (serve_loop k fuel reply rounds))
  unfolding Frame
  on_line-CarriesOut rounds st next (line n text st') (same, behind, count) (sent, few) =
      CarriesOut-from k st.stream st'.stream _
        (on_line k fuel reply (line n text st') (serve_loop k fuel reply rounds)) sent
        (subst
          (λ x.
            CarriesOut k st'.stream x
              (on_line k fuel reply (line n text st') (serve_loop k fuel reply rounds)))
          (ap (λ t. next_answer reply t (session reply rounds (unread k st'))) same
            ∙ ap (λ b. next_answer reply l.text (session reply rounds b)) behind)
          (counted-CarriesOut rounds n text st' next few
            (counted 4094 n text (unread k st) same count)))
    where
      l : Line
      l = take_line 4095 (unread k st)
  on_line-CarriesOut rounds st next (fail text st') h (sent, few) =
      ([], _, refl, sent ∙ sym (append-nil (k.sent st.stream)))
  on_line-CarriesOut rounds st next out_of_fuel h after = absurd h

  loop-CarriesOut :
      (rounds : ℕ)
      → (st : Buffered S) → k.patience st.stream ≤ most
      → CarriesOut k st.stream
          (session reply rounds (unread k st))
          (serve_loop k fuel reply rounds st)
  unfolding Next serve_loop session Frame
  loop-CarriesOut zero st few = refl
  loop-CarriesOut (suc rounds) st few =
      on_line-CarriesOut rounds st (loop-CarriesOut rounds) (readline k fuel maxline st)
        (readline-Reads k reads fuel maxline st (omega (arith, few, some_fuel)))
        (readline-leaves k duplex fuel most maxline st few)

-- On a lawful stream and with fuel for the longest answer and the signals to come, the loop of a line
-- server carries out the session of the bytes that the client sends: whatever the sizes of the reads
-- and the writes, it answers the lines in order, each once, till the end of the stream or a line that
-- it refuses; where a call fails, it has sent the first bytes of these answers. One round more than
-- the bytes is enough to come to one of these ends.
pub serve_loop-CarriesOut :
    {S : Type 0} (k : Kernel S)
    → ReadLaws k
    → WriteLaws k
    → DuplexLaws k
    → (reply : Text → Option Text) (fuel most : ℕ)
    → ((text bs : Text) → reply text ≡ some bs → length bs + most < fuel)
    → most < fuel
    → (rounds : ℕ) (st : Buffered S) → k.patience st.stream ≤ most
    → length (unread k st) < rounds
    → CarriesOut k st.stream
        (session reply rounds (unread k st))
        (serve_loop k fuel reply rounds st)
      × ((session reply rounds (unread k st)).why ≢ unfinished)
serve_loop-CarriesOut k reads writes duplex reply fuel most enough some_fuel rounds st few bytes = (
  loop-CarriesOut k reads writes duplex reply fuel most enough some_fuel rounds st few,
  session-finishes reply rounds (unread k st) bytes,
)
