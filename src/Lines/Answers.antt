-- ===== src/Lines/Answers.antt =====
-- The spec of a line server: its session as a function of the bytes that the client sends.
use my_unp.Prelude.{
  ◌∙◌, sym, ap, append_assoc, if◌then◌else◌, ℕ, zero, suc, ◌≡◌, refl, List, [], ◌∷◌, ◌++◌, Option,
  none, some, Text, ◌==◌, Bool, true, false, if◌then◌else◌, ◌+◌, ◌<◌, ◌≢◌, length, arith,
}
use my_unp.Stream.Kernel.{Kernel}
use my_unp.Stream.Readline.Refine.{Line, newline, take_line}
use my_unp.Lines.{Served, closed, refused, io_failed, no_rounds}

pub data SessionEnd : Type 0 where
  ended line_refused unfinished : SessionEnd

-- All the answers, and why there are no more.
pub record Session : Type 0 where
  pub answers : List ℕ
  pub why : SessionEnd

abbrev pub answered : Option Text → Session → Session
answered none rest = record { answers = []; why = line_refused }
answered (some bs) rest = record rest { answers = bs ++ rest.answers }

abbrev pub next_answer : (Text → Option Text) → Text → Session → Session
next_answer reply [] rest = record { answers = []; why = ended }
next_answer reply (c ∷ cs) rest = answered (reply (c ∷ cs)) rest

-- The lines of the stream, cut at MAXLINE - 1 bytes, are answered in order.
unfoldable pub session : (Text → Option Text) → ℕ → List ℕ → Session
session reply zero all = record { answers = []; why = unfinished }
session reply (suc rounds) all =
    let l = take_line 4095 all in next_answer reply l.text (session reply rounds l.rest)

-- A server has carried out the session: the answers are sent, in order, when it returns or refuses a
-- line; and if a call has failed, the first of them.
abbrev pub CarriesOut : {S : Type 0} → Kernel S → S → Session → Served S → Type 0
CarriesOut k s session (closed s') =
    (session.why ≡ ended) × (k.sent s' ≡ k.sent s ++ session.answers)
CarriesOut k s session (refused s') =
    (session.why ≡ line_refused) × (k.sent s' ≡ k.sent s ++ session.answers)
CarriesOut k s session (io_failed s') =
    (front : List ℕ) × (back : List ℕ) × (session.answers ≡ front ++ back)
    × (k.sent s' ≡ k.sent s ++ front)
CarriesOut k s session no_rounds = session.why ≡ unfinished

module _ {S : Type 0} (k : Kernel S) where
  -- The answer is sent, and then what follows.
  pub CarriesOut-answered :
      (s s' : S) (bs : List ℕ) (rest : Session) (r : Served S)
      → k.sent s' ≡ k.sent s ++ bs
      → CarriesOut k s' rest r
      → CarriesOut k s (answered (some bs) rest) r
  CarriesOut-answered s s' bs rest (closed t) e h =
      (h.0, h.1 ∙ ap (λ p. p ++ rest.answers) e ∙ append_assoc (k.sent s) bs rest.answers)
  CarriesOut-answered s s' bs rest (refused t) e h =
      (h.0, h.1 ∙ ap (λ p. p ++ rest.answers) e ∙ append_assoc (k.sent s) bs rest.answers)
  CarriesOut-answered s s' bs rest (io_failed t) e (front, back, split, sent) = (
    bs ++ front,
    back,
    ap (λ p. bs ++ p) split ∙ sym (append_assoc bs front back),
    sent ∙ ap (λ p. p ++ front) e ∙ append_assoc (k.sent s) bs front,
  )
  CarriesOut-answered s s' bs rest no_rounds e h = h

  -- What is sent stays as it is, and then what follows.
  pub CarriesOut-from :
      (s s' : S) (x : Session) (r : Served S)
      → k.sent s' ≡ k.sent s
      → CarriesOut k s' x r
      → CarriesOut k s x r
  CarriesOut-from s s' x (closed t) e h = (h.0, h.1 ∙ ap (λ p. p ++ x.answers) e)
  CarriesOut-from s s' x (refused t) e h = (h.0, h.1 ∙ ap (λ p. p ++ x.answers) e)
  CarriesOut-from s s' x (io_failed t) e (front, back, split, sent) =
      (front, back, split, sent ∙ ap (λ p. p ++ front) e)
  CarriesOut-from s s' x no_rounds e h = h

length-take_line :
    (room : ℕ) (xs : List ℕ)
    → length (take_line room xs).text + length (take_line room xs).rest ≡ length xs
unfolding take_line
length-take_line zero xs = omega arith
length-take_line (suc room) [] = refl
length-take_line (suc room) (x ∷ xs) = go (x == 10) (length-take_line room xs)
  where
    l : Line
    l = take_line room xs

    cut : Bool → Line
    cut b =
        if b
        then record { text = x ∷ []; why = newline; rest = xs }
        else record l { text = x ∷ l.text }

    go :
        (b : Bool)
        → length l.text + length l.rest ≡ length xs
        → length (cut b).text + length (cut b).rest ≡ suc (length xs)
    go true h = omega arith
    go false h = omega arith

-- More rounds than the client sends bytes are enough.
pub session-finishes :
    (reply : Text → Option Text) (rounds : ℕ) (all : List ℕ)
    → length all < rounds
    → (session reply rounds all).why ≢ unfinished
unfolding session
session-finishes reply zero all h = absurd (omega arith)
session-finishes reply (suc rounds) all h =
    go (take_line 4095 all).text (length-take_line 4095 all)
      (session-finishes reply rounds (take_line 4095 all).rest)
  where
    rest : Session
    rest = session reply rounds (take_line 4095 all).rest

    step : (o : Option Text) → rest.why ≢ unfinished → (answered o rest).why ≢ unfinished
    step none q = λ e. cc
    step (some bs) q = q

    go :
        (text : List ℕ)
        → length text + length (take_line 4095 all).rest ≡ length all
        → (length (take_line 4095 all).rest < rounds → rest.why ≢ unfinished)
        → (next_answer reply text rest).why ≢ unfinished
    go [] e ih = λ q. cc
    go (c ∷ cs) e ih = step (reply (c ∷ cs)) (ih (omega arith))
