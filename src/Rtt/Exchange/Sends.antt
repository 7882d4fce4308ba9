-- ===== src/Rtt/Exchange/Sends.antt =====
-- How an exchange may end, and what it has sent till then.
use my_unp.Prelude.{
  ℕ, suc, ◌+◌, ◌≤◌, ◌<◌, ◌≡◌, ◌≢◌, refl, ◌∙◌, sym, ap, List, [], ◌∷◌, ◌++◌, false, arith, length,
  append_assoc, append-nil, ◌⊎◌,
}
use my_unp.Rtt.{Timeval, maxnrexmt}
use my_unp.Rtt.Exchange.{
  Hdr, hdr_size, Event, received, alarm, Peer, Reply, answered, timed_out, waiting,
}

-- An event that does not answer the request numbered `seq`.
abbrev pub Stale : ℕ → Event → Type 0
Stale seq (received n h now) = (n < hdr_size) ⊎ (h.seq ≢ seq)
Stale seq (alarm now) = Unit

abbrev pub AllStale : ℕ → List Event → Type 0
AllStale seq [] = Unit
AllStale seq (e ∷ es) = Stale seq e × AllStale seq es

abbrev pub timeouts : List Event → ℕ
timeouts [] = 0
timeouts (received n h now ∷ es) = timeouts es
timeouts (alarm now ∷ es) = suc (timeouts es)

-- All the headers sent carry the number.
abbrev pub Numbered : ℕ → List Hdr → Type 0
Numbered seq [] = Unit
Numbered seq (h ∷ hs) = (h.seq ≡ seq) × Numbered seq hs

Numbered-append :
    (seq : ℕ) (xs ys : List Hdr) → Numbered seq xs → Numbered seq ys → Numbered seq (xs ++ ys)
Numbered-append seq [] ys h k = k
Numbered-append seq (x ∷ xs) ys h k = (h.0, Numbered-append seq xs ys h.1 k)

-- The headers sent from `p` to `q`, `count` of them, all with the number.
pub record Sent {F : Type 0} (seq : ℕ) (p q : Peer F) (count : ℕ) : Type 0 where
  pub later : List Hdr
  pub logged : q.sends ≡ p.sends ++ later
  pub counted : length later ≡ count
  pub numbered : Numbered seq later

-- A call that returns the answer of request `seq`: the first datagram with its number and at least a
-- header, with the timeouts before it no more than the retransmissions allowed.
pub record Answered {F : Type 0} (seq : ℕ) (p : Peer F) (es : List Event) (m : ℕ) (q : Peer F)
    : Type 0 where
  pub before : List Event
  pub size : ℕ
  pub hdr : Hdr
  pub now : Timeval
  pub after : List Event
  pub events : es ≡ before ++ (received size hdr now ∷ after)
  pub stale : AllStale seq before
  pub matches : hdr.seq ≡ seq
  pub result : m + hdr_size ≡ size
  pub sent : Sent seq p q (timeouts before)
  pub allowed : p.rttinfo.nrexmt + timeouts before ≤ maxnrexmt

-- A call that gives up: one timeout more than the retransmissions allowed, and no answer before.
pub record TimedOut {F : Type 0} (seq : ℕ) (p : Peer F) (es : List Event) (q : Peer F)
    : Type 0 where
  pub before : List Event
  pub now : Timeval
  pub after : List Event
  pub events : es ≡ before ++ (alarm now ∷ after)
  pub stale : AllStale seq before
  pub sent : Sent seq p q (timeouts before)
  pub used_up : p.rttinfo.nrexmt + timeouts before ≡ maxnrexmt
  pub reinit : q.rttinit ≡ false

-- A call that waits still.
pub record Waiting {F : Type 0} (seq : ℕ) (p : Peer F) (es : List Event) (q : Peer F) : Type 0 where
  pub stale : AllStale seq es
  pub sent : Sent seq p q (timeouts es)
  pub allowed : p.rttinfo.nrexmt + timeouts es ≤ maxnrexmt

abbrev pub Ends : {F : Type 0} → ℕ → Peer F → List Event → Reply F → Type 0
Ends seq p es (answered m q) = Answered seq p es m q
Ends seq p es (timed_out q) = TimedOut seq p es q
Ends seq p es (waiting q) = Waiting seq p es q

-- An event in front that is no answer and sends nothing.
pub Ends-Stale :
    {F : Type 0} (seq : ℕ) (p : Peer F) (n : ℕ) (h : Hdr) (now : Timeval) (es : List Event)
    (r : Reply F)
    → Stale seq (received n h now)
    → Ends seq p es r
    → Ends seq p (received n h now ∷ es) r
Ends-Stale seq p n h now es (answered m q) s a = record {
  before = received n h now ∷ a.before;
  size = a.size;
  hdr = a.hdr;
  now = a.now;
  after = a.after;
  events = ap (λ x. received n h now ∷ x) a.events;
  stale = (s, a.stale);
  matches = a.matches;
  result = a.result;
  sent = a.sent;
  allowed = a.allowed;
}
Ends-Stale seq p n h now es (timed_out q) s a = record {
  before = received n h now ∷ a.before;
  now = a.now;
  after = a.after;
  events = ap (λ x. received n h now ∷ x) a.events;
  stale = (s, a.stale);
  sent = a.sent;
  used_up = a.used_up;
  reinit = a.reinit;
}
Ends-Stale seq p n h now es (waiting q) s a = record {
  stale = (s, a.stale);
  sent = a.sent;
  allowed = a.allowed;
}

-- What a retransmission does to the peer.
pub record Resent {F : Type 0} (seq : ℕ) (p p' : Peer F) : Type 0 where
  pub hdr : Hdr
  pub logged : p'.sends ≡ p.sends ++ (hdr ∷ [])
  pub numbered : hdr.seq ≡ seq
  pub kept : p'.sendhdr.seq ≡ seq
  pub counted : p'.rttinfo.nrexmt ≡ suc (p.rttinfo.nrexmt)

Sent-suc :
    {F : Type 0} (seq c : ℕ) (p p' q : Peer F)
    → Resent seq p p'
    → Sent seq p' q c
    → Sent seq p q (suc c)
Sent-suc seq c p p' q r s = record {
  later = r.hdr ∷ s.later;
  logged = s.logged ∙ ap (λ x. x ++ s.later) r.logged ∙ append_assoc p.sends (r.hdr ∷ []) s.later;
  counted = ap suc s.counted;
  numbered = (r.numbered, s.numbered);
}

-- A timeout in front with a retransmission.
pub Ends-Resent :
    {F : Type 0} (seq : ℕ) (p p' : Peer F) (now : Timeval) (es : List Event) (r : Reply F)
    → Resent seq p p'
    → Ends seq p' es r
    → Ends seq p (alarm now ∷ es) r
Ends-Resent seq p p' now es (answered m q) v a = record {
  before = alarm now ∷ a.before;
  size = a.size;
  hdr = a.hdr;
  now = a.now;
  after = a.after;
  events = ap (λ x. alarm now ∷ x) a.events;
  stale = (tt, a.stale);
  matches = a.matches;
  result = a.result;
  sent = Sent-suc seq (timeouts a.before) p p' q v a.sent;
  allowed = omega (arith, a.allowed, v.counted);
}
Ends-Resent seq p p' now es (timed_out q) v a = record {
  before = alarm now ∷ a.before;
  now = a.now;
  after = a.after;
  events = ap (λ x. alarm now ∷ x) a.events;
  stale = (tt, a.stale);
  sent = Sent-suc seq (timeouts a.before) p p' q v a.sent;
  used_up = omega (arith, a.used_up, v.counted);
  reinit = a.reinit;
}
Ends-Resent seq p p' now es (waiting q) v a = record {
  stale = (tt, a.stale);
  sent = Sent-suc seq (timeouts es) p p' q v a.sent;
  allowed = omega (arith, a.allowed, v.counted);
}

pub nothing-Sent : {F : Type 0} (seq : ℕ) (p q : Peer F) → q.sends ≡ p.sends → Sent seq p q 0
nothing-Sent seq p q e = record {
  later = [];
  logged = e ∙ sym (append-nil p.sends);
  counted = refl;
  numbered = tt;
}
