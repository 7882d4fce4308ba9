-- ===== src/Sock/Loop/Transfer.antt =====
-- What the sock loop has passed on when it ends, and why it ends.
use my_unp.Prelude.{
  ◌≡◌, refl, List, [], ◌∷◌, ◌++◌, Bool, true, false, if◌then◌else◌, Option, none, some, Text,
  Bool-cases, inl, inr, arith,
}
use my_unp.Sock.Crlf.{Converted, crlf_add}
use my_unp.Sock.Loop.{
  Options, Copier, Answers, Control, falls, continues, breaks, exits, ◌>>=◌, next_round, start,
  converted, sends, half_closes, select, input_read, on_socket, input_part, socket_stage, round,
  loop,
}
use my_unp.Sock.Loop.Stages.{
  Inv, Fails, SomeFails, Passes, Passes-if, select-Passes, nothing, input_read-Passes,
  on_socket-Passes,
}
use my_unp.Sock.Crlf.Returns.{with_returns, without_returns}

-- What holds where control goes on.
abbrev Falls : (Copier → Type 0) → Control → Type 0
Falls P (falls c) = P c
Falls P (continues c) = Unit
Falls P (breaks c) = Unit
Falls P exits = Unit

Falls-bind :
    (P Q : Copier → Type 0) (m : Control) (f : Copier → Control)
    → ((c : Copier) → P c → Falls Q (f c))
    → Falls P m
    → Falls Q (m >>= f)
Falls-bind P Q (falls c) f next h = next c h
Falls-bind P Q (continues c) f next h = tt
Falls-bind P Q (breaks c) f next h = tt
Falls-bind P Q exits f next h = tt

Falls-if :
    (P : Copier → Type 0) (b : Bool) (x y : Control)
    → Falls P x
    → Falls P y
    → Falls P (if b then x else y)
Falls-if P true x y h g = h
Falls-if P false x y h g = g

Passes-then :
    (F : Type 0) (o : Options) (P : Copier → Type 0) (m : Control) (f : Copier → Control)
    → ((c : Copier) → P c → Inv o c → Passes F o (f c))
    → Falls P m
    → Passes F o m
    → Passes F o (m >>= f)
Passes-then F o P (falls c) f next p h = next c p h
Passes-then F o P (continues c) f next p h = h
Passes-then F o P (breaks c) f next p h = h
Passes-then F o P exits f next p h = h

-- A bit that is set stands for a descriptor that is ready.
abbrev SocketReady : Answers → Copier → Type 0
SocketReady k c = c.rset_socket ≡ true → k.socket_ready ≡ true

abbrev BothReady : Answers → Copier → Type 0
BothReady k c = (c.rset_input ≡ true → k.input_ready ≡ true) × SocketReady k c

select-BothReady : (k : Answers) (c : Copier) → Falls (BothReady k) (select k c)
unfolding select
select-BothReady k c = elim (Bool-cases k.select_ok) [
  | inl fine ↦ rw fine ((λ q. ground arith), λ q. q)
  | inr bad ↦ rw bad tt
]

sends-SocketReady :
    (k : Answers) (r : Converted) (ok : Bool) (c : Copier)
    → SocketReady k c
    → Falls (SocketReady k) (sends r ok c)
sends-SocketReady k (some r) true c h = h
sends-SocketReady k (some r) false c h = tt
sends-SocketReady k none ok c h = tt

input_read-SocketReady :
    (o : Options) (k : Answers) (r : Option Text) (c : Copier)
    → SocketReady k c
    → Falls (SocketReady k) (input_read o k r c)
unfolding input_read
input_read-SocketReady o k none c h = tt
input_read-SocketReady o k (some []) c h =
    Falls-if (SocketReady k) o.halfclose (half_closes k.shutdown_ok c) (breaks c) (go k.shutdown_ok)
      tt
  where
    go : (ok : Bool) → Falls (SocketReady k) (half_closes ok c)
    go true = tt
    go false = tt
input_read-SocketReady o k (some (b ∷ bs)) c h =
    sends-SocketReady k (converted o.crlf (crlf_add o.writelen) (b ∷ bs)) k.write_socket_ok
      (record c { from_stdin = c.from_stdin ++ (b ∷ bs) }) h

input_part-SocketReady :
    (o : Options) (k : Answers) (c : Copier)
    → SocketReady k c
    → Falls (SocketReady k) (input_part o k c)
unfolding input_part
input_part-SocketReady o k c h =
    Falls-if (SocketReady k) c.rset_input (input_read o k k.read_input c) (falls c)
      (input_read-SocketReady o k k.read_input c h) h

input_part-Passes :
    (o : Options) (k : Answers) (c : Copier)
    → BothReady k c
    → Inv o c
    → Passes (Fails o k) o (input_part o k c)
unfolding input_part
input_part-Passes o k c ready v =
    Passes-if (Fails o k) o c.rset_input (input_read o k k.read_input c) (falls c)
      (λ asked.
        input_read-Passes o k k.read_input c (ready.0 asked) refl (unended c.stdineof refl asked) v)
      (λ _. v)
  where
    unended : (b : Bool) → c.stdineof ≡ b → c.rset_input ≡ true → c.stdineof ≡ false
    unended true e asked = absurd (ground (arith, v.not_asked e))
    unended false e asked = e

socket_stage-Passes :
    (o : Options) (k : Answers) (c : Copier)
    → SocketReady k c
    → Inv o c
    → Passes (Fails o k) o (socket_stage o k c)
unfolding socket_stage
socket_stage-Passes o k c ready v =
    Passes-if (Fails o k) o c.rset_socket (on_socket o k k.read_socket c) (falls c)
      (λ asked. on_socket-Passes o k k.read_socket c (ready asked) refl v) (λ _. v)

round-Passes :
    (o : Options) (k : Answers) (c : Copier) → Inv o c → Passes (Fails o k) o (round o k c)
unfolding round
round-Passes o k c v =
    Passes-then (Fails o k) o (SocketReady k) (select k c >>= input_part o k) (socket_stage o k)
      (socket_stage-Passes o k)
      (Falls-bind (BothReady k) (SocketReady k) (select k c) (input_part o k)
        (λ d ready. input_part-SocketReady o k d ready.1) (select-BothReady k c))
      (Passes-then (Fails o k) o (BothReady k) (select k c) (input_part o k) (input_part-Passes o k)
        (select-BothReady k c) (select-Passes o k c v))

Passes-next_round :
    (o : Options) (k : Answers) (ks : List Answers) (m : Control) (f : Copier → Control)
    → ((c : Copier) → Inv o c → Passes (SomeFails o ks) o (f c))
    → Passes (Fails o k) o m
    → Passes (SomeFails o (k ∷ ks)) o (next_round m f)
Passes-next_round o k ks (falls c) f next h = later (f c) (next c h)
  where
    later : (m : Control) → Passes (SomeFails o ks) o m → Passes (SomeFails o (k ∷ ks)) o m
    later (falls d) w = w
    later (continues d) w = w
    later (breaks d) w = w
    later exits w = inr w
Passes-next_round o k ks (continues c) f next h = later (f c) (next c h)
  where
    later : (m : Control) → Passes (SomeFails o ks) o m → Passes (SomeFails o (k ∷ ks)) o m
    later (falls d) w = w
    later (continues d) w = w
    later (breaks d) w = w
    later exits w = inr w
Passes-next_round o k ks (breaks c) f next h = h
Passes-next_round o k ks exits f next h = inl h

loop-Passes :
    (o : Options) (ks : List Answers) (c : Copier)
    → Inv o c
    → Passes (SomeFails o ks) o (loop o ks c)
unfolding loop
loop-Passes o [] c v = v
loop-Passes o (k ∷ ks) c v =
    Passes-next_round o k ks (round o k c) (loop o ks) (loop-Passes o ks) (round-Passes o k c v)

-- From the start, through any rounds: while the loop runs, and when it ends, what was read from
-- stdin is on the socket and what was read from the socket is on stdout, with carriage returns added
-- and stripped if `crlf` is set; the FIN goes out once, at the end of stdin and only with
-- `halfclose`, after which stdin is not asked for. It ends behind the loop only without `halfclose`
-- or where the socket may end, and at err_sys or err_quit only if a call failed or the bytes of one
-- read did not fit behind their conversion.
pub loop-start-Passes :
    (o : Options) (ks : List Answers) → Passes (SomeFails o ks) o (loop o ks start)
unfolding with_returns without_returns
loop-start-Passes o ks = loop-Passes o ks start (record {
  outward = nothing o.crlf with_returns refl;
  inward = nothing o.crlf without_returns refl;
  fin_once = refl;
  not_asked = λ q. absurd cc;
  asked_half = λ q. absurd cc;
})
