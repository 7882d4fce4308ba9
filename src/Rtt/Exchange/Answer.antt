-- ===== src/Rtt/Exchange/Answer.antt =====
-- What a call of dg_send_recv returns, and how often it has sent by then.
use my_unp.Prelude.{
  ℕ, ◌+◌, ◌%◌, ◌^◌, ◌≤◌, ◌<◌, ◌≡◌, refl, ap, List, [], ◌∷◌, ◌++◌, Bool, true, false, ltb,
  if◌then◌else◌, Bool-cases, inl, inr, arith, ◌⊎◌,
}
use my_unp.Rtt.Float.{FloatOps}
use my_unp.Rtt.{Timeval, init, newpack, timeout, maxnrexmt}
use my_unp.Rtt.Exchange.{
  Hdr, hdr_size, Event, received, alarm, Peer, send_again, on_alarm, ignores, finish, await, ready,
  next_request, dg_send_recv,
}
use my_unp.Rtt.Exchange.Sends.{Stale, Ends, Ends-Stale, Resent, Ends-Resent, nothing-Sent}

module _ {F : Type 0} (fl : FloatOps F) (seq : ℕ) where
  ignores-Stale :
      (p : Peer F) (n : ℕ) (h : Hdr) (now : Timeval)
      → p.sendhdr.seq ≡ seq
      → ignores fl p n h ≡ true
      → Stale seq (received n h now)
  unfolding ignores
  ignores-Stale p n h now e q = ground arith

  ignores_answer :
      (p : Peer F) (n : ℕ) (h : Hdr)
      → p.sendhdr.seq ≡ seq
      → ignores fl p n h ≡ false
      → (h.seq ≡ seq) × (hdr_size ≤ n)
  unfolding ignores
  ignores_answer p n h e q = ground arith

  -- A timeout either gives up or sends again.
  on_alarm-cases :
      (now : Timeval) (p : Peer F)
      → p.sendhdr.seq ≡ seq
      → (((on_alarm fl now p).1 ≡ true)
          × (maxnrexmt < p.rttinfo.nrexmt + 1)
          × ((on_alarm fl now p).0.sends ≡ p.sends)
          × ((on_alarm fl now p).0.rttinit ≡ false))
        ⊎ (((on_alarm fl now p).1 ≡ false)
            × (p.rttinfo.nrexmt + 1 ≤ maxnrexmt)
            × Resent seq p (on_alarm fl now p).0)
  unfolding on_alarm timeout send_again
  on_alarm-cases now p e = elim (Bool-cases (ltb maxnrexmt (p.rttinfo.nrexmt + 1))) [
    | inl late ↦ inl (rw late (refl, ground arith, refl, refl))
    | inr early ↦ inr (
        rw early (
          refl,
          ground arith,
          record {
            hdr = record { seq = p.sendhdr.seq; ts = _ };
            logged = refl;
            numbered = e;
            kept = e;
            counted = omega arith;
          },
        ))
  ]

  -- What `await` promises, from fewer retransmissions than are allowed.
  await-Ends :
      (es : List Event) (p : Peer F)
      → p.sendhdr.seq ≡ seq
      → p.rttinfo.nrexmt ≤ maxnrexmt
      → Ends seq p es (await fl es p)
  unfolding await finish
  await-Ends [] p e few = record {
    stale = tt;
    sent = nothing-Sent seq p p refl;
    allowed = omega arith;
  }
  await-Ends (alarm now ∷ es) p e few = elim (on_alarm-cases now p e) [
    | inl (stop_now, late, same, off) ↦
        rw (stop_now, await)
          (record {
            before = [];
            now = now;
            after = es;
            events = refl;
            stale = tt;
            sent = nothing-Sent seq p (on_alarm fl now p).0 same;
            used_up = omega arith;
            reinit = off;
          })
    | inr (go_on, early, again) ↦
        rw (go_on, await)
          (Ends-Resent seq p (on_alarm fl now p).0 now es _ again
            (await-Ends es (on_alarm fl now p).0 again.kept (omega (arith, again.counted))))
  ]
  await-Ends (received n h now ∷ es) p e few = elim (Bool-cases (ignores fl p n h)) [
    | inl other ↦
        rw (other, await)
          (Ends-Stale seq p n h now es (await fl es p) (ignores-Stale p n h now e other)
            (await-Ends es p e few))
    | inr answer ↦
        rw (answer, await)
          (record {
            before = [];
            size = n;
            hdr = h;
            now = now;
            after = es;
            events = refl;
            stale = tt;
            matches = (ignores_answer p n h e answer).0;
            result = omega (arith, ignores_answer p n h e answer);
            sent = nothing-Sent seq p (finish fl h now p) refl;
            allowed = omega arith;
          })
  ]

ready_keeps :
    {F : Type 0} (fl : FloatOps F) (now : Timeval) (p : Peer F)
    → ((ready fl now p).sends ≡ p.sends) × ((ready fl now p).sendhdr ≡ p.sendhdr)
unfolding ready
ready_keeps fl now p = go p.rttinit
  where
    go :
        (b : Bool)
        → let q = if b then p else record p { rttinfo = init fl now; rttinit = true } in
          (q.sends ≡ p.sends) × (q.sendhdr ≡ p.sendhdr)
    go true = (refl, refl)
    go false = (refl, refl)

-- One call, whatever arrives: if it returns, its result is the size, less the header, of the first
-- datagram of at least a header that carries this request's number, which is one more (mod 2 ^ 32)
-- than the last; all before it are ignored. It gives up exactly at the timeout after
-- RTT_MAXNREXMT retransmissions with no answer before, and then has the estimator set up anew. The
-- request is sent once and once more for each timeout before the end, always with the same number.
pub dg_send_recv-Ends :
    {F : Type 0} (fl : FloatOps F) (now : Timeval) (es : List Event) (p : Peer F)
    → let p₁ = send_again fl now (next_request fl (ready fl now p)) in
      let seq = (p.sendhdr.seq + 1) % 2 ^ 32 in
      (p₁.sends ≡ p.sends ++ (p₁.sendhdr ∷ []))
      × (p₁.sendhdr.seq ≡ seq)
      × (p₁.rttinfo.nrexmt ≡ 0)
      × Ends seq p₁ es (dg_send_recv fl now es p)
unfolding dg_send_recv send_again next_request newpack
dg_send_recv-Ends fl now es p =
    let same = ready_keeps fl now p in
    let number = ap (λ (h : Hdr). (h.seq + 1) % 2 ^ 32) same.1 in
    (
      ap (λ x. x ++ ((send_again fl now (next_request fl (ready fl now p))).sendhdr ∷ [])) same.0,
      number,
      refl,
      await-Ends fl ((p.sendhdr.seq + 1) % 2 ^ 32) es
          (send_again fl now (next_request fl (ready fl now p))) number (omega arith),
    )
