-- ===== src/Rtt/Exchange/Measured.antt =====
-- What rtt_stop is given when the answer to a request has come.
use my_unp.Prelude.{
  ℕ, ◌-◌, ◌^◌, ◌≤◌, ◌<◌, ◌≡◌, refl, ◌∙◌, ap, List, [], ◌∷◌, ◌++◌, true, false, arith, inl, inr,
}
use my_unp.Rtt.Float.{FloatOps}
use my_unp.Rtt.{Timeval, ts, stop}
use my_unp.Rtt.Bounds.{millis, ts-sub32}
use my_unp.Rtt.Exchange.{
  Hdr, hdr_size, Event, received, alarm, Peer, answered, send_again, ignores, finish, await,
}
use my_unp.Rtt.Exchange.Sends.{Stale, AllStale, timeouts}

module _ {F : Type 0} (fl : FloatOps F) where
  Stale-ignores :
      (p : Peer F) (n : ℕ) (h : Hdr) (now : Timeval)
      → Stale p.sendhdr.seq (received n h now)
      → ignores fl p n h ≡ true
  unfolding ignores
  Stale-ignores p n h now (inl short) = ground arith
  Stale-ignores p n h now (inr other) = ground arith

  -- Datagrams that do not answer the request change nothing.
  await-stale :
      (before es : List Event) (p : Peer F)
      → AllStale p.sendhdr.seq before
      → timeouts before ≡ 0
      → await fl (before ++ es) p ≡ await fl es p
  unfolding await
  await-stale [] es p all none_late = refl
  await-stale (alarm now ∷ before) es p all none_late = absurd (omega (arith, none_late))
  await-stale (received n h now ∷ before) es p (stale, all) none_late =
      rw (Stale-ignores p n h now stale, await) (await-stale before es p all none_late)

  own-answer : (p : Peer F) (n : ℕ) → hdr_size ≤ n → ignores fl p n p.sendhdr ≡ false
  unfolding ignores
  own-answer p n fits = ground arith

-- After each transmission of a request, the first one or one after a timeout: where datagrams come that are too
-- short or carry another number, and then, before the timer goes off, an answer of at least a header
-- that returns the header sent, the call returns the size of that answer less the header, and the
-- estimator is given the milliseconds from the transmission to the answer, if these are fewer than
-- 2 ^ 32, also where the timestamps wrap in between; what was sent stays as it was.
pub await-Measures :
    {F : Type 0} (fl : FloatOps F) (sent now : Timeval) (n : ℕ) (before after : List Event)
    (p : Peer F)
    → p.rttinfo.base ≤ 2 ^ 32
    → millis sent ≤ millis now
    → millis now - millis sent < 2 ^ 32
    → hdr_size ≤ n
    → AllStale p.sendhdr.seq before
    → timeouts before ≡ 0
    → let q = send_again fl sent p in
      await fl (before ++ (received n q.sendhdr now ∷ after)) q
      ≡ answered
          (n - hdr_size)
          (record q { rttinfo = stop fl p.rttinfo (millis now - millis sent) })
unfolding send_again await finish ts
await-Measures fl sent now n before after p base order short fits all none_late =
    await-stale fl before _ (send_again fl sent p) all none_late
    ∙ rw (own-answer fl (send_again fl sent p) n fits, await)
        (ap
          (λ ms.
            answered (n - hdr_size)
              (record (send_again fl sent p) { rttinfo = stop fl p.rttinfo ms }))
          (ts-sub32 p.rttinfo.base sent now base order short))
