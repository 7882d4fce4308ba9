-- ===== src/Tcpserv/Select/Sets/Rounds.antt =====
-- tcpservselect01.c: rounds of the loop keep the set and the table in agreement.
use my_unp.Prelude.{
  FdSet, fd_put, fd_put_self, equal?, ℕ, zero, suc, ◌+◌, ◌-◌, ◌≡◌, ◌≢◌, inl, inr, ◌∙◌, ap, subst,
  true, false, ◌&&◌, leb, Option, none, some, get_or, get_or-replicate, replicate, Bool-cases,
  Option-cases, arith,
}
use my_unp.Tcpserv.Select.{
  Server, Kernel, Outcome, running, too_many_clients, call_failed, init, find_free, accept_at,
  accept_client, serve_client, serve_loop, round,
}
use my_unp.Tcpserv.Select.Sets.{After, Free, Inv, accept_at-Inv, find_free-Free, serve_client-Inv}

-- However a round ends with the server running, the invariant holds.
abbrev pub Ends : ℕ → Outcome → Type 0
Ends l (running t) = Inv l t
Ends l too_many_clients = Unit
Ends l call_failed = Unit

serve_loop-Inv :
    (l : ℕ) (k : Kernel) (rset : FdSet) (rounds i nready : ℕ) (s : Server)
    → Inv l s
    → Ends l (serve_loop k rset rounds i nready s)
unfolding serve_loop
serve_loop-Inv l k rset zero i nready s v = v
serve_loop-Inv l k rset (suc rounds) i nready s v = elim (Option-cases (get_or s.client i none)) [
  | inl free ↦ rw (free, serve_loop) (serve_loop-Inv l k rset rounds (i + 1) nready s v)
  | inr (fd, used) ↦ elim (Bool-cases (rset fd)) [
    | inr quiet ↦ rw (used, quiet, serve_loop) (serve_loop-Inv l k rset rounds (i + 1) nready s v)
    | inl ready ↦ elim (Option-cases (serve_client i fd (k.read fd) (k.write_ok fd) s)) [
      | inl fails ↦ rw (used, ready, fails, serve_loop) tt
      | inr (t, ok) ↦
          let v' =
            subst (After l s v) ok (serve_client-Inv l s v i fd (k.read fd) (k.write_ok fd) used) in
          elim (Bool-cases (leb nready 1)) [
            | inl last ↦ rw (used, ready, ok, last, serve_loop) v'
            | inr more ↦
                rw (used, ready, ok, more, serve_loop)
                  (serve_loop-Inv l k rset rounds (i + 1) (nready - 1) t v')
          ]
    ]
  ]
]

accept_client-Inv :
    (l c : ℕ) (s : Server) (v : Inv l s) → s.allset c ≡ false → After l s v (accept_client c s)
unfolding accept_client Free
accept_client-Inv l c s v new = go (find_free 0 s.client) (find_free-Free 0 s.client)
  where
    go : (r : Option ℕ) → Free 0 s.client r → After l s v (accept_at c s r)
    go none h = tt
    go (some i) (d, at, fits, free) =
        accept_at-Inv l s v c i new (omega arith) (ap (λ x. get_or s.client x none) same ∙ free)
      where
        same : i ≡ d
        same = omega arith

-- Accept hands out a descriptor that is not in use.
round-Inv :
    (listenfd : ℕ) (k : Kernel) (s : Server)
    → s.allset k.connfd ≡ false
    → Inv listenfd s
    → Ends listenfd (round listenfd k s)
unfolding round
round-Inv l k s new v = elim (Bool-cases (s.allset l && k.ready l)) [
  | inr quiet ↦ rw quiet (serve_loop-Inv l k _ s.top 0 k.nready s v)
  | inl incoming ↦ elim (Option-cases (accept_client k.connfd s)) [
    | inl full ↦ rw (incoming, full) tt
    | inr (t, ok) ↦
        let v' = subst (After l s v) ok (accept_client-Inv l k.connfd s v new) in
        elim (Bool-cases (leb k.nready 1)) [
          | inl last ↦ rw (incoming, ok, last) v'
          | inr more ↦ rw (incoming, ok, more) (serve_loop-Inv l k _ t.top 0 (k.nready - 1) t v')
        ]
  ]
]

init-Inv : (fd_setsize listenfd : ℕ) → Inv listenfd (init fd_setsize listenfd)
unfolding init
init-Inv n l = record {
  entries = λ i fd e. absurd (no_client i fd e);
  owned =
      λ fd e. elim (equal? fd l) [ inl same ↦ inl same | inr other ↦ absurd (not_set fd other e) ];
  apart = λ i j fd e f. absurd (no_client i fd e);
  listening = fd_put_self l true (λ x. false);
  below = omega arith;
}
  where
    blank : Option ℕ
    blank = none

    no_client : (i fd : ℕ) → get_or (replicate n none) i none ≡ some fd → ⊥
    no_client i fd e =
        let empty : get_or (replicate n blank) i blank ≡ blank = get_or-replicate n i blank in cc

    not_set : (fd : ℕ) → fd ≢ l → fd_put l true (λ x. false) fd ≡ true → ⊥
    not_set fd h e = ground arith

-- The rounds that leave the server running, where accept hands out descriptors that are not in use.
pub data Reach (fd_setsize listenfd : ℕ) : Server → Type 0 where
  begin : Reach fd_setsize listenfd (init fd_setsize listenfd)
  later :
      {s : Server} (k : Kernel) (t : Server)
      → Reach fd_setsize listenfd s
      → s.allset k.connfd ≡ false
      → round listenfd k s ≡ running t
      → Reach fd_setsize listenfd t

-- After every number of rounds in which accept hands out descriptors that are not in use: allset has
-- just the listening socket and the clients' descriptors, each of these in one entry of client,
-- and maxfd and maxi cover them; so a closed client is out of both and a new one in both.
pub Reach-Tabled :
    (fd_setsize listenfd : ℕ) {s : Server} → Reach fd_setsize listenfd s → Inv listenfd s
Reach-Tabled n l begin = init-Inv n l
Reach-Tabled n l (later {s} k t r new e) =
    subst (Ends l) e (round-Inv l k s new (Reach-Tabled n l r))
