-- ===== src/Nonblock/Tests.antt =====
-- Runs of the nonblocking client, and the theorems at them.
use my_unp.Prelude.{
  ℕ, ◌≤◌, ◌≡◌, refl, List, [], ◌∷◌, ◌++◌, true, false, arith, length, take, length-take, min,
}
use my_unp.Nonblock.Client.{
  Kernel, got, read_would_block, wrote, Client, finished, start, round, run,
}
use my_unp.Nonblock.Client.Invariant.{Honest, Inv, Keeps}
use my_unp.Nonblock.Client.Rounds.{run-start-Inv, round_drops_unwritten}

-- A kernel that has `typed` on stdin and `answer` on the socket, and takes two bytes of each write.
abbrev ready : List ℕ → List ℕ → Kernel
ready typed answer = record {
  stdin_ready = true;
  socket_ready = true;
  stdout_writable = true;
  socket_writable = true;
  read_stdin = λ n. got (take n typed);
  read_socket = λ n. got (take n answer);
  write_stdout = λ bs. wrote (min 2 (length bs));
  write_socket = λ bs. wrote (min 2 (length bs));
}

take_fits : (xs : List ℕ) (n : ℕ) (bs : List ℕ) → got (take n xs) ≡ got bs → length bs ≤ n
take_fits xs n bs e =
    let e' : take n xs ≡ bs = cc e in omega (arith, length-take n xs, ap_length e')
  where
    ap_length : {a b : List ℕ} → a ≡ b → length a ≡ length b
    ap_length p = λ i. length (p i)

two_fit : (bs : List ℕ) (n : ℕ) → wrote (min 2 (length bs)) ≡ wrote n → n ≤ length bs
two_fit bs n e = let e' : min 2 (length bs) ≡ n = cc e in omega arith

ready-Honest : (typed answer : List ℕ) → Honest (ready typed answer)
ready-Honest typed answer = record {
  stdin_fits = take_fits typed;
  socket_fits = take_fits answer;
  stdout_takes = two_fit;
  socket_takes = two_fit;
}

run-start-Inv_example :
    Keeps Inv (run (ready (1 ∷ 2 ∷ 3 ∷ []) (4 ∷ 5 ∷ []) ∷ ready [] (6 ∷ []) ∷ []) start)
run-start-Inv_example =
    run-start-Inv (ready (1 ∷ 2 ∷ 3 ∷ []) (4 ∷ 5 ∷ []) ∷ ready [] (6 ∷ []) ∷ [])
      (ready-Honest (1 ∷ 2 ∷ 3 ∷ []) (4 ∷ 5 ∷ []), (ready-Honest [] (6 ∷ []), tt))

-- Stdin has ended, and three bytes of the server wait for stdout.
abbrev late : Client
late = record start {
  fr = record { stored = 1 ∷ 2 ∷ 3 ∷ []; out = 0 };
  stdineof = true;
  shutdowns = 1;
  from_socket = 1 ∷ 2 ∷ 3 ∷ [];
}

late-Inv : Inv late
late-Inv = record {
  outward = record {
    pointers = omega arith;
    in_bounds = omega arith;
    rewound = λ _. refl;
    account = refl;
  };
  inward = record {
    pointers = omega arith;
    in_bounds = omega arith;
    rewound = λ e. absurd (omega arith);
    account = refl;
  };
  fin_once = refl;
}

abbrev gone : Kernel
gone = record {
  stdin_ready = false;
  socket_ready = true;
  stdout_writable = true;
  socket_writable = true;
  read_stdin = λ n. read_would_block;
  read_socket = λ n. got [];
  write_stdout = λ bs. wrote (length bs);
  write_socket = λ bs. wrote (length bs);
}

unwritten_dropped :
    (d : Client) × (round gone late ≡ finished d)
    × (d.from_socket ≡ d.to_stdout ++ (1 ∷ 2 ∷ 3 ∷ []))
    × (d.to_stdout ≡ [])
unwritten_dropped =
    round_drops_unwritten gone late
      (record { stdin_done = refl; socket_readable = refl; eof = λ n. refl; space = omega arith })
      late-Inv
