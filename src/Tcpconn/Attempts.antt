-- ===== src/Tcpconn/Attempts.antt =====
-- The first address that works is used, and every other descriptor that was opened is closed.
use my_unp.Prelude.{
  ℕ, ◌≡◌, refl, ◌∙◌, sym, ap, List, [], ◌∷◌, ◌++◌, Bool, false, if◌then◌else◌, Option, none, some,
  append_assoc, append-nil,
}
use my_unp.Tcpconn.{
  Attempt, no_socket, refused, accepted, Connect, connected, unknown_host, not_connected,
  connect_loop, tcp_connect, Listenfd, uninitialised, negative, fd, listening, listen_error,
  null_dereference, bind_loop, after_bind, tcp_listen,
}

-- None of the attempts succeeds.
abbrev pub AllFail : List Attempt → Type 0
AllFail [] = Unit
AllFail (accepted n ∷ res) = ⊥
AllFail (no_socket ∷ res) = AllFail res
AllFail (refused n ∷ res) = AllFail res

-- The descriptors opened by attempts that fail.
abbrev pub opened : List Attempt → List ℕ
opened [] = []
opened (no_socket ∷ res) = opened res
opened (refused n ∷ res) = n ∷ opened res
opened (accepted n ∷ res) = opened res

-- The attempts up to the first that succeeds.
pub record First (res : List Attempt) (n : ℕ) (closed : List ℕ) : Type 0 where
  pub before : List Attempt
  pub after : List Attempt
  pub order : res ≡ before ++ (accepted n ∷ after)
  pub fail_before : AllFail before
  pub closed_before : closed ≡ opened before

-- What is behind a failed attempt, seen from in front of it.
First-no_socket :
    {res : List Attempt} {n : ℕ} {closed : List ℕ}
    → First res n closed
    → First (no_socket ∷ res) n closed
First-no_socket f = record {
  before = no_socket ∷ f.before;
  after = f.after;
  order = ap (λ r. no_socket ∷ r) f.order;
  fail_before = f.fail_before;
  closed_before = f.closed_before;
}

First-refused :
    {res : List Attempt} {n : ℕ} {closed : List ℕ} (m : ℕ)
    → First res n closed
    → First (refused m ∷ res) n (m ∷ closed)
First-refused m f = record {
  before = refused m ∷ f.before;
  after = f.after;
  order = ap (λ r. refused m ∷ r) f.order;
  fail_before = f.fail_before;
  closed_before = ap (λ c. m ∷ c) f.closed_before;
}

First-here : (n : ℕ) (res : List Attempt) → First (accepted n ∷ res) n []
First-here n res = record {
  before = [];
  after = res;
  order = refl;
  fail_before = tt;
  closed_before = refl;
}

-- What tcp_connect promises, the descriptors in `kept` having been closed before.
abbrev LoopEnds : List Attempt → List ℕ → Connect → Type 0
LoopEnds res kept (connected n closed) =
    (more : List ℕ) × (closed ≡ kept ++ more) × First res n more
LoopEnds res kept unknown_host = ⊥
LoopEnds res kept (not_connected closed) = (closed ≡ kept ++ opened res) × AllFail res

LoopEnds-refused :
    (m : ℕ) (res : List Attempt) (kept : List ℕ) (r : Connect)
    → LoopEnds res (kept ++ (m ∷ [])) r
    → LoopEnds (refused m ∷ res) kept r
LoopEnds-refused m res kept (connected n closed) (more, e, f) =
    (m ∷ more, e ∙ append_assoc kept (m ∷ []) more, First-refused m f)
LoopEnds-refused m res kept unknown_host h = h
LoopEnds-refused m res kept (not_connected closed) h =
    (h.0 ∙ append_assoc kept (m ∷ []) (opened res), h.1)

LoopEnds-no_socket :
    (res : List Attempt) (kept : List ℕ) (r : Connect)
    → LoopEnds res kept r
    → LoopEnds (no_socket ∷ res) kept r
LoopEnds-no_socket res kept (connected n closed) (more, e, f) = (more, e, First-no_socket f)
LoopEnds-no_socket res kept unknown_host h = h
LoopEnds-no_socket res kept (not_connected closed) h = h

connect_loop-LoopEnds :
    (res : List Attempt) (kept : List ℕ) → LoopEnds res kept (connect_loop res kept)
unfolding connect_loop
connect_loop-LoopEnds [] kept = (sym (append-nil kept), tt)
connect_loop-LoopEnds (no_socket ∷ res) kept =
    LoopEnds-no_socket res kept (connect_loop res kept) (connect_loop-LoopEnds res kept)
connect_loop-LoopEnds (refused m ∷ res) kept =
    LoopEnds-refused m res kept (connect_loop res (kept ++ (m ∷ [])))
      (connect_loop-LoopEnds res (kept ++ (m ∷ [])))
connect_loop-LoopEnds (accepted n ∷ res) kept = ([], sym (append-nil kept), First-here n res)

abbrev pub Connects : Option (List Attempt) → Connect → Type 0
Connects none r = r ≡ unknown_host
Connects (some res) (connected n closed) = First res n closed
Connects (some res) unknown_host = ⊥
Connects (some res) (not_connected closed) = (closed ≡ opened res) × AllFail res

-- tcp_connect on every answer of getaddrinfo and the kernel: it connects to the first address that
-- lets it and has closed exactly the descriptors opened before; it fails only if no address does,
-- with all descriptors closed; and it quits where getaddrinfo fails.
pub tcp_connect-Connects : (o : Option (List Attempt)) → Connects o (tcp_connect o)
unfolding tcp_connect
tcp_connect-Connects none = refl
tcp_connect-Connects (some res) = go (connect_loop res []) (connect_loop-LoopEnds res [])
  where
    go : (r : Connect) → LoopEnds res [] r → Connects (some res) r
    go (connected n closed) (more, e, f) = record {
      before = f.before;
      after = f.after;
      order = f.order;
      fail_before = f.fail_before;
      closed_before = e ∙ f.closed_before;
    }
    go unknown_host h = h
    go (not_connected closed) h = h

-- The loop of tcp_listen: the first address that can be bound, or none, with listenfd left at what
-- socket handed back last.
abbrev pub last_fd : Listenfd → List Attempt → Listenfd
last_fd l [] = l
last_fd l (no_socket ∷ res) = last_fd negative res
last_fd l (refused n ∷ res) = last_fd (fd n) res
last_fd l (accepted n ∷ res) = last_fd (fd n) res

bind_loop_unbound :
    (res : List Attempt) (l : Listenfd) (kept : List ℕ)
    → AllFail res
    → bind_loop res l kept
      ≡ record { found = false; listenfd = last_fd l res; closed = kept ++ opened res }
unfolding bind_loop
bind_loop_unbound [] l kept f = rw append-nil
bind_loop_unbound (no_socket ∷ res) l kept f = bind_loop_unbound res negative kept f
bind_loop_unbound (refused n ∷ res) l kept f =
    bind_loop_unbound res (fd n) (kept ++ (n ∷ [])) f
    ∙ ap (λ c. record { found = false; listenfd = last_fd (fd n) res; closed = c })
        (append_assoc kept (n ∷ []) (opened res))
bind_loop_unbound (accepted n ∷ res) l kept f = absurd f

-- With no address that can be bound, tcp_listen does not stop at its message: it calls listen on
-- what socket handed back last, which it has closed, and only a failure there ends it; if that
-- call succeeds, it reads through a null pointer or returns that descriptor.
pub tcp_listen_unbound :
    (listen_ok : Listenfd → Bool) (wants_len : Bool) (res : List Attempt)
    → AllFail res
    → tcp_listen listen_ok wants_len (some res) ≡ (
        if listen_ok (last_fd uninitialised res)
        then (if wants_len
            then null_dereference
            else listening (last_fd uninitialised res) (opened res))
        else listen_error (last_fd uninitialised res) (opened res))
unfolding tcp_listen after_bind
tcp_listen_unbound listen_ok wants_len res f = rw (bind_loop_unbound res uninitialised [] f)
