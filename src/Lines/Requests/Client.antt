-- ===== src/Lines/Requests/Client.antt =====
-- What a client of web_child gets for its request.
use my_unp.Prelude.{
  ℕ, suc, ◌+◌, ◌^◌, ◌≤◌, ◌<◌, ◌≡◌, refl, ◌∙◌, sym, ap, List, [], ◌∷◌, ◌++◌, append-nil, Bool, true,
  false, ◌==◌, take, length, length-take, length-append, ◌⊎◌, inl, inr, arith,
}
use my_unp.Stream.Kernel.{Kernel, ReadLaws}
use my_unp.Stream.Readn.{ReadnResult, stored, read_n, Reads, read_n-Reads}
use my_unp.Stream.Readn as Readn
use my_unp.Stream.Frames.{DuplexLaws}
use my_unp.Lines.Requests.{
  maxn, request, web_reply, Turn, whole, short, write_failed, read_failed, no_fuel, got_reply,
  wrote_request, all_written, client_turn, client_loop, counted_turn,
}
use my_unp.Lines.Requests.Exchange.{session-alone}
use my_unp.Lines.Answers.{session}

-- How a turn for `n` bytes ends: with just the bytes that are sent for it, if they are fewer than MAXN;
-- with none, at err_quit, if they are not; or with a call that failed.
abbrev pub Gets : {S : Type 0} → Kernel S → ℕ → List ℕ → S → Turn S → Type 0
Gets k n result s (whole bs s') = (n < maxn) × (bs ≡ take n result) × (length bs ≡ n)
Gets k n result s (short m) = (maxn ≤ n) × (m ≡ 0)
Gets k n result s write_failed = all_written (k.write s (request n)).0 (length (request n)) ≡ false
Gets k n result s (read_failed e) = Unit
Gets k n result s no_fuel = ⊥

whole_front : (bs ys xs : List ℕ) → xs ≡ bs ++ ys → (length bs ≡ length xs) ⊎ (ys ≡ []) → bs ≡ xs
whole_front bs [] xs e h = sym (append-nil bs) ∙ sym e
whole_front bs (y ∷ ys) xs e (inl h) =
    absurd (omega (arith, h, ap length e, length-append bs (y ∷ ys)))
whole_front bs (y ∷ ys) xs e (inr h) = absurd cc

got_reply-Gets :
    {S : Type 0} (k : Kernel S) (n : ℕ) (result : List ℕ) (s s' : S) (r : ReadnResult S)
    → Reads k s' n r
    → 0 < n
    → ((n < maxn) × (k.pending s' ≡ take n result) × (length (take n result) ≡ n))
      ⊎ ((maxn ≤ n) × (k.pending s' ≡ []))
    → Gets k n result s (got_reply n r)
got_reply-Gets k n result s s' (stored bs t) (front, few, ends) some_bytes
      (inl (small, sent, size)) =
    let same : bs ≡ take n result =
      whole_front bs (k.pending t) (take n result) (sym sent ∙ front) (at_most ends) in
    let full : (length bs == n) ≡ true = ground (arith, ap length same, size) in
    rw full (small, same, ap length same ∙ size)
  where
    at_most :
        (length bs ≡ n) ⊎ (k.pending t ≡ [])
        → (length bs ≡ length (take n result)) ⊎ (k.pending t ≡ [])
    at_most (inl e) = inl (e ∙ sym size)
    at_most (inr e) = inr e
got_reply-Gets k n result s s' (stored [] t) (front, few, ends) some_bytes (inr (big, none_sent)) =
    let not_all : (0 == n) ≡ false = ground (arith, some_bytes) in rw not_all (big, refl)
got_reply-Gets k n result s s' (stored (b ∷ bs) t) (front, few, ends) some_bytes
      (inr (big, none_sent)) =
    absurd (not_both (sym none_sent ∙ front))
  where
    not_both : [] ≡ b ∷ (bs ++ k.pending t) → ⊥
    not_both e = cc
got_reply-Gets k n result s s' (Readn.failed e bs t) h some_bytes sent = tt
got_reply-Gets k n result s s' Readn.out_of_fuel h some_bytes sent = absurd h

wrote_request-Gets :
    {S : Type 0} (k : Kernel S) (n : ℕ) (result : List ℕ) (s : S) (b : Bool) (r : ReadnResult S)
    → all_written (k.write s (request n)).0 (length (request n)) ≡ b
    → Gets k n result s (got_reply n r)
    → Gets k n result s (wrote_request b r n)
wrote_request-Gets k n result s true r e h = h
wrote_request-Gets k n result s false r e h = e

-- A turn of the client against web_child, with `result` of MAXN bytes, where the bytes to come are
-- what web_child answers to the request: with fuel for the bytes and the signals to come, a client
-- that asks for 1 to MAXN - 1 bytes gets just that many, those that the server has; one that asks for
-- MAXN or more gets none and ends at err_quit; unless a call fails.
pub client_turn-Gets :
    {S : Type 0} (k : Kernel S)
    → ReadLaws k
    → DuplexLaws k
    → (fuel rounds n : ℕ) (s : S) (result : List ℕ) → length result ≡ maxn
    → 0 < n
    → n < 2 ^ 31
    → length (request n) < rounds
    → k.pending s ≡ (session (web_reply result) rounds (request n)).answers
    → n + k.patience s < fuel
    → Gets k n result s (client_turn k fuel s n)
unfolding client_turn
client_turn-Gets {S = S} k reads duplex fuel rounds n s result size some_bytes small enough comes
      f =
    wrote_request-Gets k n result s (all_written (k.write s (request n)).0 (length (request n)))
      (read_n k fuel s' n) refl
      (got_reply-Gets k n result s s' (read_n k fuel s' n)
        (read_n-Reads k reads fuel s' n (omega (arith, f, duplex.write_patience s (request n))))
        some_bytes (answers (session-alone result rounds n some_bytes small enough)))
  where
    s' : S
    s' = (k.write s (request n)).1

    same : k.pending s' ≡ (session (web_reply result) rounds (request n)).answers
    same = duplex.write_keeps s (request n) ∙ comes

    answers :
        ((n < maxn) × ((session (web_reply result) rounds (request n)).answers ≡ take n result))
          ⊎ ((maxn ≤ n) × ((session (web_reply result) rounds (request n)).answers ≡ []))
        → ((n < maxn) × (k.pending s' ≡ take n result) × (length (take n result) ≡ n))
          ⊎ ((maxn ≤ n) × (k.pending s' ≡ []))
    answers (inl (less, e)) = inl (less, same ∙ e, omega (arith, length-take n result, size))
    answers (inr (more, e)) = inr (more, same ∙ e)

-- A child that comes to its end has got a whole reply on each connection.
pub client_loop-all :
    {S : Type 0} (k : Kernel S) (fuel n : ℕ) (connections : List S)
    → (client_loop k fuel n connections).1 ≡ true
    → (client_loop k fuel n connections).0 ≡ length connections
unfolding client_loop
client_loop-all k fuel n [] = λ e. refl
client_loop-all {S = S} k fuel n (s ∷ connections) =
    go (client_turn k fuel s n) (client_loop-all k fuel n connections)
  where
    rest : ℕ × Bool
    rest = client_loop k fuel n connections

    go :
        (t : Turn S)
        → (rest.1 ≡ true → rest.0 ≡ length connections)
        → (counted_turn t rest).1 ≡ true
        → (counted_turn t rest).0 ≡ suc (length connections)
    go (whole bs s') ih e = ap suc (ih e)
    go (short m) ih e = absurd cc
    go write_failed ih e = absurd cc
    go (read_failed m) ih e = absurd cc
    go no_fuel ih e = absurd cc
