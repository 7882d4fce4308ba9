-- ===== src/Nonblock/Client/Rounds.antt =====
-- Whole rounds of `str_cli` (strclinonb.c) keep the invariant; what that says at the end.
use my_unp.Prelude.{ℕ, ◌<◌, ◌≡◌, refl, List, [], ◌∷◌, ◌++◌, arith, true, ltb, ◌&&◌, length}
use my_unp.Nonblock.Client.{
  maxline, Kernel, Client, Outcome, running, finished, terminated_prematurely, failed, ◌>>=◌, start,
  select, stdin_stage, socket_stage, stdout_stage, to_socket_stage, round, run, unsent, on_stdin,
  on_socket, on_stdout, on_to_socket, room, got,
}
use my_unp.Nonblock.Client.Invariant.{
  Honest, Inv, Ready, Keeps, Keeps-if, select-Selected, on_stdin-Ready, on_socket-Inv,
  on_stdout-Inv, on_to_socket-Inv,
}

-- The next stage starts from what holds after the one before; an exit keeps what it has.
Keeps-bind :
    (P Q : Client → Type 0) (m : Outcome) (f : Client → Outcome)
    → ((c : Client) → P c → Q c)
    → ((c : Client) → P c → Keeps Q (f c))
    → Keeps P m
    → Keeps Q (m >>= f)
Keeps-bind P Q (running c) f weaken next h = next c h
Keeps-bind P Q (finished c) f weaken next h = weaken c h
Keeps-bind P Q (terminated_prematurely c) f weaken next h = weaken c h
Keeps-bind P Q (failed c) f weaken next h = weaken c h

module _ (k : Kernel) (honest : Honest k) where
  select_and_read-Ready : (c : Client) → Inv c → Keeps Ready (stdin_stage k (select k c))
  unfolding stdin_stage
  select_and_read-Ready c i =
      let (i', v) = select-Selected k c i in
      let s = select k c in
      Keeps-if Ready s.rset_stdin (on_stdin (k.read_stdin (room s.to)) s) (running s)
        (λ e.
          on_stdin-Ready (k.read_stdin (room s.to)) s (i', v.socket_room) (v.stdin_open e).0
            (honest.stdin_fits (room s.to)))
        (λ _. (i', v.socket_room))

  socket_stage-Inv : (c : Client) → Inv c → Keeps Inv (socket_stage k c)
  unfolding socket_stage
  socket_stage-Inv c i =
      Keeps-if Inv c.rset_socket (on_socket (k.read_socket (room c.fr)) c) (running c)
        (λ _. on_socket-Inv (k.read_socket (room c.fr)) c i (honest.socket_fits (room c.fr)))
        (λ _. i)

  stdout_stage-Inv : (c : Client) → Inv c → Keeps Inv (stdout_stage k c)
  unfolding stdout_stage
  stdout_stage-Inv c i =
      Keeps-if Inv (c.wset_stdout && ltb c.fr.out (length c.fr.stored))
        (on_stdout (k.write_stdout (unsent c.fr)) c) (running c)
        (λ _. on_stdout-Inv (k.write_stdout (unsent c.fr)) c i (honest.stdout_takes (unsent c.fr)))
        (λ _. i)

  to_socket_stage-Inv : (c : Client) → Inv c → Keeps Inv (to_socket_stage k c)
  unfolding to_socket_stage
  to_socket_stage-Inv c i =
      Keeps-if Inv (c.wset_socket && ltb c.to.out (length c.to.stored))
        (on_to_socket (k.write_socket (unsent c.to)) c) (running c)
        (λ e.
          on_to_socket-Inv (k.write_socket (unsent c.to)) c i (ground arith)
            (honest.socket_takes (unsent c.to)))
        (λ _. i)

  round-Inv : (c : Client) → Inv c → Keeps Inv (round k c)
  unfolding round
  round-Inv c i =
      Keeps-bind Ready Inv (stdin_stage k (select k c)) _ (λ c h. h.0)
        (λ c₁ h₁.
          Keeps-bind Inv Inv (socket_stage k c₁) _ (λ c h. h)
            (λ c₂ h₂.
              Keeps-bind Inv Inv (stdout_stage k c₂) _ (λ c h. h)
                (λ c₃ h₃. to_socket_stage-Inv c₃ h₃) (stdout_stage-Inv c₂ h₂))
            (socket_stage-Inv c₁ h₁.0))
        (select_and_read-Ready c i)

abbrev pub All {ℓ κ} : {A : Type ℓ} → (A → Type κ) → List A → Type κ
All P [] = Unit
All P (x ∷ xs) = P x × All P xs

start-Inv : Inv start
start-Inv = record {
  outward = record {
    pointers = omega arith;
    in_bounds = omega arith;
    rewound = λ _. refl;
    account = refl;
  };
  inward = record {
    pointers = omega arith;
    in_bounds = omega arith;
    rewound = λ _. refl;
    account = refl;
  };
  fin_once = refl;
}

run-Inv : (ks : List Kernel) (c : Client) → All Honest ks → Inv c → Keeps Inv (run ks c)
unfolding run
run-Inv [] c h i = i
run-Inv (k ∷ ks) c h i =
    Keeps-bind Inv Inv (round k c) (run ks) (λ c i. i) (λ c' i'. run-Inv ks c' h.1 i')
      (round-Inv k h.0 c i)

-- Whatever the kernel does within the contracts of read and write, and however the client stops:
-- both buffers stay within MAXLINE with the out-pointer behind the in-pointer, and rewound when
-- they meet; what went to the socket and what is still in the buffer are exactly what came from
-- stdin, in order, and so from the socket to stdout; Shutdown was called once if stdin has ended
-- and all of it was sent, and else never.
pub run-start-Inv : (ks : List Kernel) → All Honest ks → Keeps Inv (run ks start)
run-start-Inv ks h = run-Inv ks start h start-Inv

-- The end of the server's stream, with stdin at its end.
pub record AtServerEof (k : Kernel) (c : Client) : Type 0 where
  pub stdin_done : c.stdineof ≡ true
  pub socket_readable : k.socket_ready ≡ true
  pub eof : (n : ℕ) → k.read_socket n ≡ got []
  pub space : length c.fr.stored < maxline

-- `str_cli` returns at the server's end of file in the same round, before it writes to stdout: the
-- bytes that stdout has not taken by then stay unwritten.
pub round_drops_unwritten :
    (k : Kernel) (c : Client)
    → AtServerEof k c
    → Inv c
    → (d : Client) × (round k c ≡ finished d)
      × (d.from_socket ≡ d.to_stdout ++ unsent c.fr)
      × (d.to_stdout ≡ c.to_stdout)
unfolding round stdin_stage socket_stage on_socket select
round_drops_unwritten k c e i =
    (select k c, ground (arith, e.eof (room c.fr)), i.inward.account, refl)
