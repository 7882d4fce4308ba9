-- ===== src/Tcpserv/Poll/Serve.antt =====
-- Which clients a round of tcpsrvpoll01.c serves: never the one in the last slot in use.
use my_unp.Prelude.{
  ℕ, zero, suc, ◌+◌, ◌-◌, ◌≤◌, ◌<◌, ◌≡◌, refl, ◌∙◌, sym, ap, List, [], ◌∷◌, ◌++◌, arith, Bool, true,
  false, leb, take, Option, none, some, length, get_or, set, get_or-set_ne, length-set,
  get_or-set_keeps, append_assoc, append-nil, Bool-cases, Option-cases, inl, inr,
}
use my_unp.Tcpserv.Poll.{
  Pollfd, available, Event, echoed, closed, Server, Reply, got, reset, read_error, Kernel, Outcome,
  running, too_many_clients, failed, Served, served, fails, echo, serve_client, serve_loop, round,
}

-- The slot that an event is about.
abbrev pub slot_of : Event → ℕ
slot_of (echoed i fd bs) = i
slot_of (closed i fd) = i

-- All events are about slots below `m`.
abbrev pub Below : ℕ → List Event → Type 0
Below m [] = Unit
Below m (e ∷ es) = (slot_of e < m) × Below m es

-- From `s` on, `t` has the same slots from `m` on, and has done something only to slots below `m`.
pub record Spares (m : ℕ) (s t : Server) : Type 0 where
  pub done : List Event
  pub logged : t.log ≡ s.log ++ done
  pub below : Below m done
  pub slots_kept : (j : ℕ) → m ≤ j → get_or t.client j available ≡ get_or s.client j available
  pub stays_free :
      (j : ℕ) → (get_or s.client j available).fd ≡ none → (get_or t.client j available).fd ≡ none
  pub maxi_kept : t.maxi ≡ s.maxi
  pub first_kept : get_or t.client 0 available ≡ get_or s.client 0 available
  pub length_kept : length t.client ≡ length s.client

Below-append : (m : ℕ) (xs ys : List Event) → Below m xs → Below m ys → Below m (xs ++ ys)
Below-append m [] ys h k = k
Below-append m (x ∷ xs) ys h k = (h.0, Below-append m xs ys h.1 k)

Spares-refl : (m : ℕ) (s : Server) → Spares m s s
Spares-refl m s = record {
  done = [];
  length_kept = refl;
  logged = sym (append-nil s.log);
  below = tt;
  slots_kept = λ j h. refl;
  stays_free = λ j h. h;
  maxi_kept = refl;
  first_kept = refl;
}

Spares-trans : {m : ℕ} {s t u : Server} → Spares m s t → Spares m t u → Spares m s u
Spares-trans {m} {s} {t} {u} a b = record {
  done = a.done ++ b.done;
  logged = b.logged ∙ ap (λ p. p ++ b.done) a.logged ∙ append_assoc s.log a.done b.done;
  below = Below-append m a.done b.done a.below b.below;
  slots_kept = λ j h. b.slots_kept j h ∙ a.slots_kept j h;
  stays_free = λ j h. b.stays_free j (a.stays_free j h);
  maxi_kept = b.maxi_kept ∙ a.maxi_kept;
  first_kept = b.first_kept ∙ a.first_kept;
  length_kept = b.length_kept ∙ a.length_kept;
}

-- However a stage ends.
abbrev pub Ends : (Server → Type 0) → Outcome → Type 0
Ends P (running s) = P s
Ends P too_many_clients = Unit
Ends P (failed s) = P s

Ends-after :
    (m : ℕ) (s t : Server) (r : Outcome) → Spares m s t → Ends (Spares m t) r → Ends (Spares m s) r
Ends-after m s t (running u) a b = Spares-trans a b
Ends-after m s t too_many_clients a b = tt
Ends-after m s t (failed u) a b = Spares-trans a b

abbrev Done : (Server → Type 0) → Served → Type 0
Done P (served s) = P s
Done P (fails s) = P s

close-Spares :
    (m i fd : ℕ) (s : Server) (p : Pollfd)
    → 1 ≤ i
    → i < m
    → p.fd ≡ none
    → Spares m s (record s { client = set s.client i p; log = s.log ++ (closed i fd ∷ []) })
close-Spares m i fd s p pos lt free = record {
  done = closed i fd ∷ [];
  length_kept = length-set s.client i p;
  logged = refl;
  below = (lt, tt);
  slots_kept = λ j h. get_or-set_ne s.client i j p available (omega arith);
  stays_free =
      λ j h. get_or-set_keeps (λ (q : Pollfd). q.fd ≡ none) s.client i j p available free h;
  maxi_kept = refl;
  first_kept = get_or-set_ne s.client i 0 p available (omega arith);
}

log-Spares :
    (m i fd : ℕ) (s : Server) (bs : List ℕ)
    → i < m
    → Spares m s (record s { log = s.log ++ (echoed i fd bs ∷ []) })
log-Spares m i fd s bs lt = record {
  done = echoed i fd bs ∷ [];
  length_kept = refl;
  logged = refl;
  below = (lt, tt);
  slots_kept = λ j h. refl;
  stays_free = λ j h. h;
  maxi_kept = refl;
  first_kept = refl;
}

echo-Spares :
    (m : ℕ) (w : Option ℕ) (i fd : ℕ) (s : Server) (bs : List ℕ)
    → i < m
    → Done (Spares m s) (echo w i fd bs s)
echo-Spares m none i fd s bs lt = log-Spares m i fd s bs lt
echo-Spares m (some n) i fd s bs lt = log-Spares m i fd s (take n bs) lt

serve_client-Spares :
    (m : ℕ) (r : Reply) (w : Option ℕ) (i fd : ℕ) (s : Server)
    → 1 ≤ i
    → i < m
    → Done (Spares m s) (serve_client r w i fd s)
unfolding serve_client
serve_client-Spares m (got []) w i fd s pos lt = close-Spares m i fd s _ pos lt refl
serve_client-Spares m (got (b ∷ bs)) w i fd s pos lt = echo-Spares m w i fd s (b ∷ bs) lt
serve_client-Spares m reset w i fd s pos lt = close-Spares m i fd s _ pos lt refl
serve_client-Spares m read_error w i fd s pos lt = Spares-refl m s

pub serve_loop-Spares :
    (m : ℕ) (k : Kernel) (rounds i nready : ℕ) (s : Server)
    → 1 ≤ i
    → i + rounds ≤ m
    → Ends (Spares m s) (serve_loop k rounds i nready s)
unfolding serve_loop
serve_loop-Spares m k zero i nready s pos h = Spares-refl m s
serve_loop-Spares m k (suc rounds) i nready s pos h =
    elim (Option-cases (get_or s.client i available).fd) [
      | inl free ↦
          rw (free, serve_loop)
            (serve_loop-Spares m k rounds (i + 1) nready s (omega arith) (omega arith))
      | inr (fd, used) ↦ elim (Bool-cases (k.revents i)) [
        | inr quiet ↦
            rw (used, serve_loop, quiet)
              (serve_loop-Spares m k rounds (i + 1) nready s (omega arith) (omega arith))
        | inl ready ↦
            rw (used, serve_loop, ready)
              (go (serve_client (k.read fd) (k.writen fd) i fd s) (leb nready 1)
                (serve_client-Spares m (k.read fd) (k.writen fd) i fd s pos (omega arith))
                (λ t.
                  serve_loop-Spares m k rounds (i + 1) (nready - 1) t (omega arith) (omega arith)))
      ]
    ]
  where
    go :
        (r : Served) (last : Bool)
        → Done (Spares m s) r
        → ((t : Server) → Ends (Spares m t) (serve_loop k rounds (i + 1) (nready - 1) t))
        → Ends (Spares m s) (elim r [
          | fails s' ↦ failed s'
          | served s' ↦ elim last [
            | true ↦ running s'
            | false ↦ serve_loop k rounds (i + 1) (nready - 1) s'
          ]
        ])
    go (fails t) last d ih = d
    go (served t) true d ih = d
    go (served t) false d ih = Ends-after m s t _ d (ih t)

-- While the listening socket is quiet, a round never touches or answers the client in slot maxi,
-- the last one in use, nor any behind it: whatever poll and read report, all that is logged is
-- about slots below maxi.
pub round_skips_last :
    (k : Kernel) (s : Server)
    → k.revents 0 ≡ false
    → 1 ≤ s.maxi
    → Ends (Spares s.maxi s) (round k s)
unfolding round
round_skips_last k s quiet some_client =
    rw quiet (serve_loop-Spares s.maxi k (s.maxi - 1) 1 k.nready s (omega arith) (omega arith))
