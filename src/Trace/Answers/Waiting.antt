-- ===== src/Trace/Answers/Waiting.antt =====
-- What ends the wait of recv_v4.
use my_unp.Prelude.{
  ℕ, ◌<◌, ◌≡◌, refl, sym, ap, subst, ◌∙◌, List, [], ◌∷◌, ◌++◌, Bool, true, false, some, length, ◌⊎◌,
  inl, inr,
}
use my_unp.Trace.{
  Reply, timeout, Verdict, answer, next_packet, Ports, Checked, check_packet, Received, packet,
  interrupted, failed, Arrival, Outcome, returned, quits, waiting, overrun, unless_alarm, judged,
  turn, recv_v4,
}
use my_unp.Trace.Answers.{verdict, check_packet-reads}

abbrev pub HasByte : Received → Type 0
HasByte (packet bs) = 0 < length bs
HasByte interrupted = Unit
HasByte failed = Unit

-- Every packet has a first byte, as the kernel's raw IP packets have.
abbrev pub NonEmpty : List Arrival → Type 0
NonEmpty [] = Unit
NonEmpty (a ∷ arrivals) = HasByte a.received × NonEmpty arrivals

-- recvfrom did not fail, and what it may have received is no answer.
abbrev pub NoAnswer : Ports → ℕ → Received → Type 0
NoAnswer p seq (packet bs) = verdict p seq bs ≡ next_packet
NoAnswer p seq interrupted = Unit
NoAnswer p seq failed = ⊥

abbrev pub AnswersWith : Ports → ℕ → Reply → Received → Type 0
AnswersWith p seq r (packet bs) = verdict p seq bs ≡ answer r
AnswersWith p seq r interrupted = ⊥
AnswersWith p seq r failed = ⊥

-- No answer, no failure and no alarm.
abbrev pub Quiet : Ports → ℕ → List Arrival → Type 0
Quiet p seq [] = Unit
Quiet p seq (a ∷ rest) = NoAnswer p seq a.received × (a.alarm ≡ false) × Quiet p seq rest

-- Why the wait ends with an arrival: it is the answer, the alarm came, or recvfrom failed.
abbrev pub EndsWith : Ports → ℕ → Outcome → Arrival → Type 0
EndsWith p seq (returned r) a =
    AnswersWith p seq r a.received ⊎ (r ≡ timeout) × (a.alarm ≡ true) × NoAnswer p seq a.received
EndsWith p seq quits a = a.received ≡ failed
EndsWith p seq waiting a = ⊥
EndsWith p seq overrun a = ⊥

-- Still waiting behind quiet arrivals; or quiet arrivals stand in front of the one that ends it.
abbrev pub Waits : Ports → ℕ → List Arrival → Outcome → Type 0
Waits p seq arrivals o =
    ((o ≡ waiting) × Quiet p seq arrivals)
    ⊎ ((front : List Arrival) × (last : Arrival) × (behind : List Arrival) × (arrivals
          ≡ front ++ (last ∷ behind))
        × Quiet p seq front
        × EndsWith p seq o last)

at_once :
    (p : Ports) (seq : ℕ) (a : Arrival) (rest : List Arrival) (o : Outcome)
    → EndsWith p seq o a
    → Waits p seq (a ∷ rest) o
at_once p seq a rest o h = inr ([], a, rest, refl, tt, h)

one_later :
    (p : Ports) (seq : ℕ) (a : Arrival) (rest : List Arrival) (o : Outcome)
    → NoAnswer p seq a.received
    → a.alarm ≡ false
    → Waits p seq rest o
    → Waits p seq (a ∷ rest) o
one_later p seq a rest o h k (inl w) = inl (w.0, (h, k, w.1))
one_later p seq a rest o h k (inr (front, last, behind, split, quiet, ends)) =
    inr (a ∷ front, last, behind, ap (λ xs. a ∷ xs) split, (h, k, quiet), ends)

unless_alarm-Waits :
    (p : Ports) (seq : ℕ) (a : Arrival) (rest : List Arrival) (o : Outcome) (alarm : Bool)
    → a.alarm ≡ alarm
    → NoAnswer p seq a.received
    → Waits p seq rest o
    → Waits p seq (a ∷ rest) (unless_alarm alarm o)
unless_alarm-Waits p seq a rest o true e h w =
    at_once p seq a rest (returned timeout) (inr (refl, e, h))
unless_alarm-Waits p seq a rest o false e h w = one_later p seq a rest o h e w

turn-Waits :
    (p : Ports) (seq : ℕ) (r : Received) (alarm : Bool) (rest : List Arrival) (o : Outcome)
    → NonEmpty (record { received = r; alarm = alarm } ∷ rest)
    → Waits p seq rest o
    → Waits p seq (record { received = r; alarm = alarm } ∷ rest) (turn p seq r alarm o)
turn-Waits p seq (packet bs) alarm rest o full w =
    go (check_packet p seq bs) (check_packet-reads p seq bs full.0) (verdict p seq bs) refl
  where
    a : Arrival
    a = record { received = packet bs; alarm = alarm }

    go :
        (c : Checked)
        → c ≡ some (verdict p seq bs)
        → (v : Verdict) → verdict p seq bs ≡ v
        → Waits p seq (a ∷ rest) (judged c alarm o)
    go c e (answer r) q =
        subst (λ m. Waits p seq (a ∷ rest) (judged m alarm o)) (sym (e ∙ ap some q))
          (at_once p seq a rest (returned r) (inl q))
    go c e next_packet q =
        subst (λ m. Waits p seq (a ∷ rest) (judged m alarm o)) (sym (e ∙ ap some q))
          (unless_alarm-Waits p seq a rest o alarm refl q w)
turn-Waits p seq interrupted alarm rest o full w =
    unless_alarm-Waits p seq (record { received = interrupted; alarm = alarm }) rest o alarm refl tt
      w
turn-Waits p seq failed alarm rest o full w =
    at_once p seq (record { received = failed; alarm = alarm }) rest quits refl

-- Whatever arrives, if every packet has a first byte: recv_v4 reads no byte that was not received.
-- It returns -2, -1 or a code only on a packet long enough to have the ports of the probe with this
-- number, and the reply that its type and code say; it returns -3 only behind the alarm, and ends
-- only on an error of recvfrom. Nothing that came before was an answer, and it waits as long as
-- there is neither an answer, nor the alarm, nor an error.
pub recv_v4-Waits :
    (p : Ports) (seq : ℕ) (arrivals : List Arrival)
    → NonEmpty arrivals
    → Waits p seq arrivals (recv_v4 p seq arrivals)
unfolding recv_v4
recv_v4-Waits p seq [] full = inl (refl, tt)
recv_v4-Waits p seq (a ∷ rest) full =
    turn-Waits p seq a.received a.alarm rest (recv_v4 p seq rest) full
      (recv_v4-Waits p seq rest full.1)
