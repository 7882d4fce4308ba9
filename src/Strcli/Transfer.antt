-- ===== src/Strcli/Transfer.antt =====
-- What the client over select has passed on when it stops.
use my_unp.Prelude.{
  ℕ, ◌≡◌, refl, sym, List, [], ◌∷◌, ◌++◌, Bool, true, false, ◌&&◌, if◌then◌else◌, Bool-cases,
  Option, none, some, ap, take, drop, take-append-drop, inl, inr, ◌⊎◌, arith,
}
use my_unp.Strcli.{
  Client, Kernel, Outcome, running, returned, terminated_prematurely, write_failed, call_failed,
  ◌>>=◌, start, select, on_socket, socket_stage, on_input, input_stage, round, run,
}

-- All is passed on, the FIN goes out once and at the end of stdin, and stdin is not read again.
pub record Inv (c : Client) : Type 0 where
  pub outward : c.to_socket ≡ c.from_stdin
  pub inward : c.to_stdout ≡ c.from_socket
  pub fin_once : c.shutdowns ≡ (if c.stdineof then 1 else 0)
  pub not_asked : c.stdineof ≡ true → c.rset_input ≡ false

-- The last read was passed on only in part, by a write that failed; all else was passed on.
pub record Cut (read passed buf : List ℕ) : Type 0 where
  pub part : List ℕ
  pub lost : List ℕ
  pub whole : buf ≡ part ++ lost
  pub before : List ℕ
  pub read_is : read ≡ before ++ buf
  pub passed_is : passed ≡ before ++ part

-- How the client stops: it returns only behind the end of stdin, and then nothing is held back;
-- the server ended too early only if stdin has not ended; a write failed within what was read last; or
-- another call failed, where nothing is held back.
abbrev pub Passes : Outcome → Type 0
Passes (running c) = Inv c
Passes (returned c) = Inv c × (c.stdineof ≡ true)
Passes (terminated_prematurely c) = Inv c × (c.stdineof ≡ false)
Passes (write_failed c) =
    Cut c.from_stdin c.to_socket c.buf × (c.to_stdout ≡ c.from_socket)
    ⊎ Cut c.from_socket c.to_stdout c.buf × (c.to_socket ≡ c.from_stdin)
Passes (call_failed c) = (c.to_socket ≡ c.from_stdin) × (c.to_stdout ≡ c.from_socket)

Passes-if :
    (t : Bool) (x y : Outcome)
    → (t ≡ true → Passes x)
    → (t ≡ false → Passes y)
    → Passes (if t then x else y)
Passes-if true x y f g = f refl
Passes-if false x y f g = g refl

select-Passes : (k : Kernel) (c : Client) → Inv c → Passes (select k c)
unfolding select
select-Passes k c v =
    Passes-if k.select_ok _ (call_failed c) (λ _. go c.stdineof refl) (λ _. (v.outward, v.inward))
  where
    go :
        (b : Bool)
        → c.stdineof ≡ b
        → Inv (record c {
          rset_input = (if c.stdineof then c.rset_input else true) && k.input_ready;
          rset_socket = k.socket_ready;
        })
    go true e = record {
      outward = v.outward;
      inward = v.inward;
      fin_once = v.fin_once;
      not_asked = λ q. ground (arith, v.not_asked e);
    }
    go false e = record {
      outward = v.outward;
      inward = v.inward;
      fin_once = v.fin_once;
      not_asked = λ q. cc;
    }

-- A write of all that was read last, or of the first `n` bytes.
cut : (n : ℕ) (read passed bs : List ℕ) → passed ≡ read → Cut (read ++ bs) (passed ++ take n bs) bs
cut n read passed bs e = record {
  part = take n bs;
  lost = drop n bs;
  whole = sym (take-append-drop n bs);
  before = read;
  read_is = refl;
  passed_is = ap (λ p. p ++ take n bs) e;
}

on_socket-Passes :
    (r : Option (List ℕ)) (w : Option ℕ) (c : Client) → Inv c → Passes (on_socket r w c)
unfolding on_socket
on_socket-Passes none w c v = (v.outward, v.inward)
on_socket-Passes (some []) w c v =
    Passes-if c.stdineof (returned c) (terminated_prematurely c) (λ e. (v, e)) (λ e. (v, e))
on_socket-Passes (some (b ∷ bs)) none c v = record {
  outward = v.outward;
  inward = ap (λ p. p ++ (b ∷ bs)) v.inward;
  fin_once = v.fin_once;
  not_asked = v.not_asked;
}
on_socket-Passes (some (b ∷ bs)) (some n) c v =
    inr (cut n c.from_socket c.to_stdout (b ∷ bs) v.inward, v.outward)

on_input-Passes :
    (r : Option (List ℕ)) (w : Option ℕ) (ok : Bool) (c : Client)
    → Inv c
    → c.stdineof ≡ false
    → Passes (on_input r w ok c)
unfolding on_input
on_input-Passes none w ok c v e = (v.outward, v.inward)
on_input-Passes (some []) w true c v e = record {
  outward = v.outward;
  inward = v.inward;
  fin_once = ground (arith, v.fin_once);
  not_asked = λ _. refl;
}
on_input-Passes (some []) w false c v e = (v.outward, v.inward)
on_input-Passes (some (b ∷ bs)) none ok c v e = record {
  outward = ap (λ p. p ++ (b ∷ bs)) v.outward;
  inward = v.inward;
  fin_once = v.fin_once;
  not_asked = v.not_asked;
}
on_input-Passes (some (b ∷ bs)) (some n) ok c v e =
    inl (cut n c.from_stdin c.to_socket (b ∷ bs) v.outward, v.inward)

Passes-bind :
    (m : Outcome) (f : Client → Outcome)
    → ((c : Client) → Inv c → Passes (f c))
    → Passes m
    → Passes (m >>= f)
Passes-bind (running c) f next h = next c h
Passes-bind (returned c) f next h = h
Passes-bind (terminated_prematurely c) f next h = h
Passes-bind (write_failed c) f next h = h
Passes-bind (call_failed c) f next h = h

socket_stage-Passes : (k : Kernel) (c : Client) → Inv c → Passes (socket_stage k c)
unfolding socket_stage
socket_stage-Passes k c v =
    Passes-if c.rset_socket _ (running c) (λ _. on_socket-Passes k.read_socket k.write_stdout c v)
      (λ _. v)

input_stage-Passes : (k : Kernel) (c : Client) → Inv c → Passes (input_stage k c)
unfolding input_stage
input_stage-Passes k c v =
    Passes-if c.rset_input _ (running c)
      (λ asked. on_input-Passes k.read_input k.write_socket k.shutdown_ok c v (open_input asked))
      (λ _. v)
  where
    open_input : c.rset_input ≡ true → c.stdineof ≡ false
    open_input asked = elim (Bool-cases c.stdineof) [
      | inl at_end ↦ let clash = v.not_asked at_end in cc
      | inr before ↦ before
    ]

run-Passes : (ks : List Kernel) (c : Client) → Inv c → Passes (run ks c)
unfolding run round
run-Passes [] c v = v
run-Passes (k ∷ ks) c v = Passes-bind (round k c) (run ks) (run-Passes ks) (
    Passes-bind (select k c >>= socket_stage k) (input_stage k) (input_stage-Passes k)
      (Passes-bind (select k c) (socket_stage k) (socket_stage-Passes k) (select-Passes k c v)))

-- A run of `str_cli`, whatever the calls answer, failures included: while it goes on, all that was read
-- from stdin is on its way to the server and all that came from the server is on stdout, in order;
-- Shutdown was called once if stdin has ended, else never. It returns only if stdin has ended, and
-- then nothing is held back; it reports a premature end of the server only if stdin has not ended;
-- where a write fails, what is missing is the end of the last read, and nothing of the other
-- direction; where another call fails, nothing is missing.
pub run-start-Passes : (ks : List Kernel) → Passes (run ks start)
run-start-Passes ks =
    run-Passes ks start
      (record { outward = refl; inward = refl; fin_once = refl; not_asked = λ q. cc })
