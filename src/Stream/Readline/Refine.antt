-- ===== src/Stream/Readline/Refine.antt =====
-- `readline` against a function of the byte stream alone.
use my_unp.Prelude.{
  ℕ, zero, suc, ◌+◌, ◌-◌, ◌≤◌, ◌<◌, ◌≡◌, refl, ◌∙◌, sym, ap, List, [], ◌∷◌, ◌++◌, ◌==◌,
  if◌then◌else◌, false, Bool-cases, inl, inr, arith, length, length-append, append_assoc,
  append-nil,
}
use my_unp.Stream.Kernel.{Kernel, ReadLaws}
use my_unp.Stream.View.{eof, bytes, intr, error, read_view}
use my_unp.Stream.Readline.{
  Buffered, MyRead, char, end, fault, Readline, line, fail, out_of_fuel, maxline, refill, my_read,
  line_loop, readline,
}

-- Why a line ends.
pub data LineEnd : Type 0 where
  newline end_of_file truncated : LineEnd

-- The first line of a stream, of at most `room` bytes: up to and with the first newline.
pub record Line : Type 0 where
  pub text : List ℕ
  pub why : LineEnd
  pub rest : List ℕ

unfoldable pub take_line : ℕ → List ℕ → Line
take_line zero xs = record { text = []; why = truncated; rest = xs }
take_line (suc room) [] = record { text = []; why = end_of_file; rest = [] }
take_line (suc room) (x ∷ xs) =
    let r = take_line room xs in
    if x == 10
    then record { text = x ∷ []; why = newline; rest = xs }
    else record r { text = x ∷ r.text }

-- The count that goes with a line.
abbrev pub count_of : LineEnd → ℕ → ℕ
count_of truncated n = n + 1
count_of _ n = n

module _ {S : Type 0} (k : Kernel S) where
  -- All bytes that a reader has yet to see.
  abbrev pub unread : Buffered S → List ℕ
  unread st = st.ready ++ k.pending st.stream

  pub data MyReadView (ready : List ℕ) (s : S) (r : MyRead S) : Type 0 where
    a_char :
        (c : ℕ) (st' : Buffered S)
        → r ≡ char c st'
        → ready ++ k.pending s ≡ c ∷ unread st'
        → k.patience st'.stream ≤ k.patience s
        → MyReadView ready s r
    at_end :
        (st' : Buffered S)
        → r ≡ end st'
        → ready ++ k.pending s ≡ []
        → unread st' ≡ []
        → MyReadView ready s r
    at_fault :
        (st' : Buffered S)
        → r ≡ fault st'
        → ready ++ k.pending s ≡ unread st'
        → MyReadView ready s r

module _ {S : Type 0} (k : Kernel S) (laws : ReadLaws k) where
  refill-view : (fuel : ℕ) (s : S) → k.patience s < fuel → MyReadView k [] s (refill k fuel s)
  unfolding refill
  refill-view zero s f = absurd (omega arith)
  refill-view (suc fuel) s f = elim (read_view k laws s 4095) [
    | eof q same nil ↦ rw (q, refill) (at_end _ refl (same ∙ nil) nil)
    | bytes b bs q here few less ↦ rw (q, refill) (a_char b _ refl here less)
    | intr q same less ↦ rw (q, refill) (shift same less (refill-view fuel s' (omega arith)))
    | error n q same ↦ rw (q, refill) (at_fault _ refl same)
  ]
    where
      s' : S
      s' = (k.read s maxline).1

      shift :
          {r : MyRead S}
          → k.pending s ≡ k.pending s'
          → k.patience s' < k.patience s
          → MyReadView k [] s' r
          → MyReadView k [] s r
      shift same less (a_char c st' q h l) = a_char c st' q (same ∙ h) (omega arith)
      shift same less (at_end st' q h l) = at_end st' q (same ∙ h) l
      shift same less (at_fault st' q h) = at_fault st' q (same ∙ h)

  my_read-view :
      (fuel : ℕ) (ready : List ℕ) (s : S)
      → k.patience s < fuel
      → MyReadView k ready s (my_read k fuel ready s)
  unfolding my_read
  my_read-view fuel [] s f = refill-view fuel s f
  my_read-view fuel (b ∷ bs) s f = a_char b _ refl refl (omega arith)

module _ {S : Type 0} (k : Kernel S) where
  -- What `readline` promises of a result on the stream `all`: the stream's line with its count, and
  -- the rest still to be read; or a failure, with what was stored taken off the stream.
  abbrev pub Reads : ℕ → List ℕ → Readline S → Type 0
  Reads room all (line n text st') =
      let l = take_line room all in
      (text ≡ l.text) × (unread k st' ≡ l.rest) × (n ≡ count_of l.why (length text))
  Reads room all (fail text st') = all ≡ text ++ unread k st'
  Reads room all out_of_fuel = ⊥

  -- The same inside the loop, with the bytes `buf` stored so far.
  abbrev LoopReads : List ℕ → List ℕ → ℕ → List ℕ → Readline S → Type 0
  LoopReads all buf room bs (line n text st') =
      let l = take_line room bs in
      (text ≡ buf ++ l.text) × (unread k st' ≡ l.rest) × (n ≡ count_of l.why (length text))
  LoopReads all buf room bs (fail text st') = all ≡ text ++ unread k st'
  LoopReads all buf room bs out_of_fuel = ⊥

module _ {S : Type 0} (k : Kernel S) (laws : ReadLaws k) (all : List ℕ) (fuel : ℕ) where
  -- One byte that is no newline moves from the stream to the buffer.
  step :
      (c room : ℕ) (bs buf : List ℕ)
      → (c == 10) ≡ false
      → (r : Readline S) → LoopReads k all (buf ++ (c ∷ [])) room bs r
      → LoopReads k all buf (suc room) (c ∷ bs) r
  unfolding take_line
  step c room bs buf other (line n text st') h =
      rw other (h.0 ∙ append_assoc buf (c ∷ []) (take_line room bs).text, h.1, h.2)
  step c room bs buf other (fail text st') h = h
  step c room bs buf other out_of_fuel h = h

  line_loop-Reads :
      (rounds n : ℕ) (buf : List ℕ) (st : Buffered S)
      → k.patience st.stream < fuel
      → n ≡ length buf + 1
      → all ≡ buf ++ unread k st
      → LoopReads k all buf rounds (unread k st) (line_loop k fuel rounds n buf st)
  unfolding line_loop take_line
  line_loop-Reads zero n buf st f e h = (sym (append-nil buf), refl, omega arith)
  line_loop-Reads (suc rounds) n buf st f e h =
      elim (my_read-view k laws fuel st.ready st.stream f) [
        | a_char c st' q here less ↦ elim (Bool-cases (c == 10)) [
          | inl is_newline ↦
              rw (q, line_loop, is_newline, here, take_line, is_newline)
                (refl, refl, omega (arith, length-append buf (c ∷ [])))
          | inr other ↦
              rw (q, line_loop, other, here)
                (step c rounds (unread k st') buf other _ (
                  line_loop-Reads rounds (n + 1) (buf ++ (c ∷ [])) st' (omega arith)
                    (omega (arith, length-append buf (c ∷ [])))
                    (h ∙ ap (λ p. buf ++ p) here ∙ sym (append_assoc buf (c ∷ []) (unread k st')))))
        ]
        | at_end st' q here nil ↦
            rw (q, line_loop, here, take_line) (sym (append-nil buf), nil, omega arith)
        | at_fault st' q here ↦ rw (q, line_loop) (h ∙ ap (λ p. buf ++ p) here)
      ]

-- On a lawful stream, one more round than the signals to come is enough for `readline`, whatever
-- the sizes of the reads, and then: a result is the first line of the bytes buffered and pending,
-- cut at maxlen - 1 bytes, and leaves the rest of them unread; its count is the bytes stored, and
-- one more than these where the line was cut. A failure has taken what it stored off the front.
pub readline-Reads :
    {S : Type 0} (k : Kernel S)
    → ReadLaws k
    → (fuel maxlen : ℕ) (st : Buffered S) → k.patience st.stream < fuel
    → Reads k (maxlen - 1) (unread k st) (readline k fuel maxlen st)
unfolding readline
readline-Reads k laws fuel maxlen st f =
    finish (readline k fuel maxlen st)
      (line_loop-Reads k laws (unread k st) fuel (maxlen - 1) 1 [] st f (omega arith) refl)
  where
    finish :
        (r : Readline _)
        → LoopReads k (unread k st) [] (maxlen - 1) (unread k st) r
        → Reads k (maxlen - 1) (unread k st) r
    finish (line n text st') h = h
    finish (fail text st') h = h
    finish out_of_fuel h = h
