-- ===== src/Lines/Requests/Exchange.antt =====
-- The client and the server of the requests together.
use my_unp.Prelude.{
  ℕ, suc, ◌+◌, ◌-◌, ◌^◌, ◌≤◌, ◌<◌, ◌≡◌, refl, ◌∙◌, sym, ap, List, [], ◌∷◌, ◌++◌, append_assoc,
  append-nil, Bool, true, false, ltb, if◌then◌else◌, Option, none, some, Text, take, length,
  length-append, length-take, subst, decimal, arith, ◌⊎◌, inl, inr,
}
use my_unp.Stream.Kernel.{Kernel, ReadLaws, WriteLaws}
use my_unp.Stream.Readline.{Buffered}
use my_unp.Stream.Readline.Refine.{take_line, unread}
use my_unp.Stream.Frames.{DuplexLaws}
use my_unp.Lines.{serve_loop}
use my_unp.Lines.Session.{serve_loop-CarriesOut}
use my_unp.Lines.Requests.{maxn, refuses, web_reply, atol, to_int, request}
use my_unp.Lines.Requests.Numbers.{to_int-request, take_line-request}
use my_unp.Lines.Answers.{
  SessionEnd, ended, line_refused, Session, session, answered, next_answer, CarriesOut,
}

-- The lines of several requests, and the bytes that answer them.
unfoldable pub requests : List ℕ → Text
requests [] = []
requests (n ∷ ns) = decimal n ++ (b'\n' ∷ requests ns)

unfoldable pub blocks : List ℕ → List ℕ → List ℕ
blocks result [] = []
blocks result (n ∷ ns) = take n result ++ blocks result ns

abbrev pub AllServed : List ℕ → Type 0
AllServed [] = Unit
AllServed (n ∷ ns) = (0 < n) × (n < maxn) × AllServed ns

web_reply-request :
    (result : List ℕ) (n : ℕ)
    → 0 < n
    → n < maxn
    → web_reply result (request n) ≡ some (take n result)
unfolding web_reply
web_reply-request result n some_bytes fits =
    let good : refuses n ≡ false = ground (arith, some_bytes, fits) in
    rw (to_int-request n (omega (arith, fits)), good)

web_reply-refused :
    (result : List ℕ) (n : ℕ)
    → (n ≡ 0) ⊎ (maxn ≤ n)
    → n < 2 ^ 31
    → web_reply result (request n) ≡ none
unfolding web_reply
web_reply-refused result n (inl e) h =
    let bad : refuses n ≡ true = ground (arith, e) in rw (to_int-request n h, bad)
web_reply-refused result n (inr e) h =
    let bad : refuses n ≡ true = ground (arith, e, h) in rw (to_int-request n h, bad)

next_answer-append :
    (reply : Text → Option Text) (t : Text) (c : ℕ) (rest : Session)
    → next_answer reply (t ++ (c ∷ [])) rest ≡ answered (reply (t ++ (c ∷ []))) rest
next_answer-append reply [] c rest = refl
next_answer-append reply (x ∷ t) c rest = refl

session-request :
    (result : List ℕ) (rounds n : ℕ) (more : Text)
    → n < 2 ^ 31
    → session (web_reply result) (suc rounds) (decimal n ++ (b'\n' ∷ more))
      ≡ answered (web_reply result (request n)) (session (web_reply result) rounds more)
unfolding session request
session-request result rounds n more h = rw (take_line-request n more h) (
    next_answer-append (web_reply result) (decimal n) b'\n'
      (session (web_reply result) rounds more))

abbrev behind : List ℕ → Session → Session
behind bs rest = record rest { answers = bs ++ rest.answers }

session-requests :
    (result : List ℕ) (rounds : ℕ) (ns : List ℕ) (more : Text)
    → AllServed ns
    → session (web_reply result) (length ns + rounds) (requests ns ++ more)
      ≡ behind (blocks result ns) (session (web_reply result) rounds more)
unfolding requests blocks
session-requests result rounds [] more all =
    let none_more : 0 + rounds ≡ rounds = omega arith in rw none_more
session-requests result rounds (n ∷ ns) more (some_bytes, fits, all) =
    let one_more : suc (length ns) + rounds ≡ suc (length ns + rounds) = omega arith in
    rw
      (
        one_more,
        append_assoc (decimal n) (b'\n' ∷ requests ns) more,
        session-request result (length ns + rounds) n (requests ns ++ more) (omega (arith, fits)),
        web_reply-request result n some_bytes fits,
        session-requests result rounds ns more all,
      )
      (ap (λ bs. record { answers = bs; why = (session (web_reply result) rounds more).why })
        (sym (
          append_assoc (take n result) (blocks result ns)
            (session (web_reply result) rounds more).answers)))

length-requests : (ns : List ℕ) → length ns ≤ length (requests ns)
unfolding requests
length-requests [] = omega arith
length-requests (n ∷ ns) =
    omega (arith, length-append (decimal n) (b'\n' ∷ requests ns), length-requests ns)

-- What stands behind the requests that are served: the end of the stream, or one that is refused.
pub data Tail : Text → SessionEnd → Type 0 where
  at_end : Tail [] ended
  bad_request :
      (n : ℕ) (more : Text)
      → (n ≡ 0) ⊎ (maxn ≤ n)
      → n < 2 ^ 31
      → Tail (decimal n ++ (b'\n' ∷ more)) line_refused

session-Tail :
    (result : List ℕ) (rounds : ℕ) (more : Text) (why : SessionEnd)
    → Tail more why
    → session (web_reply result) (suc rounds) more ≡ record { answers = []; why = why }
unfolding session take_line
session-Tail result rounds more why at_end = refl
session-Tail result rounds more why (bad_request n rest bad h) =
    session-request result rounds n rest h
    ∙ ap (λ o. answered o (session (web_reply result) rounds rest))
        (web_reply-refused result n bad h)

-- What web_child answers to requests that it serves and what stands behind them.
session-all :
    (result : List ℕ) (rounds : ℕ) (ns : List ℕ) (more : Text) (why : SessionEnd)
    → AllServed ns
    → Tail more why
    → length (requests ns ++ more) < rounds
    → session (web_reply result) rounds (requests ns ++ more)
      ≡ record { answers = blocks result ns; why = why }
session-all result rounds ns more why all tail enough =
    ap (λ r. session (web_reply result) r (requests ns ++ more)) split
    ∙ session-requests result (suc (rounds - length ns - 1)) ns more all
    ∙ ap (behind (blocks result ns)) (session-Tail result (rounds - length ns - 1) more why tail)
    ∙ ap (λ bs. record { answers = bs; why = why }) (append-nil (blocks result ns))
  where
    split : rounds ≡ length ns + suc (rounds - length ns - 1)
    split = omega (arith, enough, length-requests ns, length-append (requests ns) more)

-- The answers to one request.
pub session-alone :
    (result : List ℕ) (rounds n : ℕ)
    → 0 < n
    → n < 2 ^ 31
    → length (request n) < rounds
    → ((n < maxn) × ((session (web_reply result) rounds (request n)).answers ≡ take n result))
      ⊎ ((maxn ≤ n) × ((session (web_reply result) rounds (request n)).answers ≡ []))
unfolding request requests blocks
session-alone result rounds n some_bytes small enough = go (ltb n maxn) refl
  where
    go :
        (b : Bool)
        → ltb n maxn ≡ b
        → ((n < maxn) × ((session (web_reply result) rounds (request n)).answers ≡ take n result))
          ⊎ ((maxn ≤ n) × ((session (web_reply result) rounds (request n)).answers ≡ []))
    go true e = inl (
      ground arith,
      ap (λ t. (session (web_reply result) rounds t).answers) (sym (append-nil (request n)))
          ∙ ap (λ x. x.answers)
              (session-all result rounds (n ∷ []) [] ended (some_bytes, ground arith, tt) at_end
                (omega (arith, enough, length-append (request n) [])))
          ∙ append-nil (take n result),
    )
    go false e = inr (
      ground arith,
      ap (λ x. x.answers)
          (session-all result rounds [] (request n) line_refused tt
            (bad_request n [] (inr (ground arith)) small) enough),
    )

reply_short :
    (result : List ℕ) (fuel most : ℕ)
    → length result ≡ maxn
    → maxn + most < fuel
    → (text bs : Text) → web_reply result text ≡ some bs
    → length bs + most < fuel
unfolding web_reply
reply_short result fuel most size enough text bs = go (refuses (to_int (atol text)))
  where
    n : ℕ
    n = to_int (atol text)

    go : (b : Bool) → (if b then none else some (take n result)) ≡ some bs → length bs + most < fuel
    go true e = absurd cc
    go false e =
        let same : take n result ≡ bs = cc in
        omega (arith, ap length same, length-take n result, size, enough)

module _ {S : Type 0} (k : Kernel S) (reads : ReadLaws k) (writes : WriteLaws k)
    (duplex : DuplexLaws k) where
  -- On a lawful stream, with `result` of MAXN bytes and fuel for an answer and the signals to come: a
  -- client that sends requests for 1 to MAXN - 1 bytes, printed in decimal, and then closes, is sent
  -- for each in turn just the bytes it asks for, and the loop of web_child returns; at a request for
  -- 0 bytes, or for MAXN or more but fewer than 2 ^ 31, it ends at err_quit, having sent these. Where
  -- a call fails, it has sent the first of these bytes. One round more than the bytes of the requests
  -- is enough.
  pub web_child-CarriesOut :
      (result : List ℕ) (fuel most rounds : ℕ) (st : Buffered S) (ns : List ℕ) (more : Text)
      (why : SessionEnd)
      → length result ≡ maxn
      → maxn + most < fuel
      → k.patience st.stream ≤ most
      → unread k st ≡ requests ns ++ more
      → length (unread k st) < rounds
      → AllServed ns
      → Tail more why
      → CarriesOut k st.stream
          (record { answers = blocks result ns; why = why })
          (serve_loop k fuel (web_reply result) rounds st)
  web_child-CarriesOut result fuel most rounds st ns more why size enough few asked bytes all tail =
      subst (λ x. CarriesOut k st.stream x (serve_loop k fuel (web_reply result) rounds st))
        (ap (session (web_reply result) rounds) asked
          ∙ session-all result rounds ns more why all tail (rw (← asked) bytes))
        (serve_loop-CarriesOut k reads writes duplex (web_reply result) fuel most
          (reply_short result fuel most size enough) (omega (arith, enough)) rounds st few bytes).0
