-- ===== src/Nonblock/Client.antt =====
-- `str_cli` of strclinonb.c: one round of its loop, from select to the last write.
pub mod Invariant
pub mod Rounds
use my_unp.Prelude.{
  ℕ, zero, suc, ◌+◌, ◌-◌, List, [], ◌∷◌, ◌++◌, Bool, true, false, not, ◌&&◌, ◌||◌, ltb, ◌==◌,
  if◌then◌else◌, length, drop, take,
}

-- MAXLINE
abbrev pub maxline : ℕ
maxline = 4096

-- What a nonblocking read or write hands back: bytes or a count, EWOULDBLOCK, another errno.
pub data InReply : Type 0 where
  got : List ℕ → InReply
  read_would_block : InReply
  read_error : InReply

pub data OutReply : Type 0 where
  wrote : ℕ → OutReply
  write_would_block : OutReply
  write_error : OutReply

-- What the kernel answers in one round: the descriptors that are ready, a read of at most that
-- many bytes, a write of those bytes.
pub record Kernel : Type 0 where
  pub stdin_ready : Bool
  pub socket_ready : Bool
  pub stdout_writable : Bool
  pub socket_writable : Bool
  pub read_stdin : ℕ → InReply
  pub read_socket : ℕ → InReply
  pub write_stdout : List ℕ → OutReply
  pub write_socket : List ℕ → OutReply

-- A buffer of MAXLINE bytes: `stored` is its bytes below the in-pointer (toiptr, friptr), `out` the
-- offset of the out-pointer (tooptr, froptr).
pub record Buffer : Type 0 where
  pub stored : List ℕ
  pub out : ℕ

-- The locals of `str_cli`, with the two descriptor sets; `shutdowns` counts the calls of Shutdown,
-- and the last four fields log what went through the descriptors.
pub record Client : Type 0 where
  pub to : Buffer
  pub fr : Buffer
  pub stdineof : Bool
  pub rset_stdin : Bool
  pub rset_socket : Bool
  pub wset_socket : Bool
  pub wset_stdout : Bool
  pub shutdowns : ℕ
  pub from_stdin : List ℕ
  pub to_socket : List ℕ
  pub from_socket : List ℕ
  pub to_stdout : List ℕ

-- How a stage ends: it goes on, `str_cli` returns, or the process ends with a message.
pub data Outcome : Type 0 where
  running : Client → Outcome
  finished : Client → Outcome
  terminated_prematurely : Client → Outcome
  failed : Client → Outcome

infixl 5 ◌>>=◌
abbrev pub ◌>>=◌ : Outcome → (Client → Outcome) → Outcome
running c >>= f = f c
finished c >>= f = finished c
terminated_prematurely c >>= f = terminated_prematurely c
failed c >>= f = failed c

abbrev pub fresh : Buffer
fresh = record { stored = []; out = 0 }

abbrev pub start : Client
start = record {
  to = fresh;
  fr = fresh;
  stdineof = false;
  rset_stdin = false;
  rset_socket = false;
  wset_socket = false;
  wset_stdout = false;
  shutdowns = 0;
  from_stdin = [];
  to_socket = [];
  from_socket = [];
  to_stdout = [];
}

-- The room behind the in-pointer, and the bytes between the pointers.
abbrev pub room : Buffer → ℕ
room b = maxline - length b.stored

abbrev pub unsent : Buffer → List ℕ
unsent b = drop b.out b.stored

-- The sets asked for, and of these what select says is ready.
unfoldable pub select : Kernel → Client → Client
select k c = record c {
  rset_stdin = (not c.stdineof && ltb (length c.to.stored) maxline) && k.stdin_ready;
  rset_socket = ltb (length c.fr.stored) maxline && k.socket_ready;
  wset_socket = not (c.to.out == length c.to.stored) && k.socket_writable;
  wset_stdout = not (c.fr.out == length c.fr.stored) && k.stdout_writable;
}

-- Shutdown(sockfd, SHUT_WR)
abbrev pub shutdown : Client → Client
shutdown c = record c { shutdowns = c.shutdowns + 1 }

-- read(STDIN_FILENO, ...) has answered.
unfoldable pub on_stdin : InReply → Client → Outcome
on_stdin (got []) c =
    let c' = record c { stdineof = true } in
    running (if c.to.out == length c.to.stored then shutdown c' else c')
on_stdin (got (b ∷ bs)) c = running (record c {
  to = record (c.to) { stored = c.to.stored ++ (b ∷ bs) };
  wset_socket = true;
  from_stdin = c.from_stdin ++ (b ∷ bs);
})
on_stdin read_would_block c = running c
on_stdin read_error c = failed c

unfoldable pub stdin_stage : Kernel → Client → Outcome
stdin_stage k c = if c.rset_stdin then on_stdin (k.read_stdin (room c.to)) c else running c

-- read(sockfd, ...) has answered.
unfoldable pub on_socket : InReply → Client → Outcome
on_socket (got []) c = if c.stdineof then finished c else terminated_prematurely c
on_socket (got (b ∷ bs)) c = running (record c {
  fr = record (c.fr) { stored = c.fr.stored ++ (b ∷ bs) };
  wset_stdout = true;
  from_socket = c.from_socket ++ (b ∷ bs);
})
on_socket read_would_block c = running c
on_socket read_error c = failed c

unfoldable pub socket_stage : Kernel → Client → Outcome
socket_stage k c = if c.rset_socket then on_socket (k.read_socket (room c.fr)) c else running c

-- The out-pointer moves on by `n`; where it meets the in-pointer, both go back to the start.
unfoldable pub consume : Buffer → ℕ → Buffer
consume b n = if b.out + n == length b.stored then fresh else record b { out = b.out + n }

-- write(STDOUT_FILENO, froptr, n) has answered.
unfoldable pub on_stdout : OutReply → Client → Outcome
unfolding consume
on_stdout (wrote n) c =
    running (record c { fr = consume c.fr n; to_stdout = c.to_stdout ++ take n (unsent c.fr) })
on_stdout write_would_block c = running c
on_stdout write_error c = failed c

unfoldable pub stdout_stage : Kernel → Client → Outcome
stdout_stage k c =
    if c.wset_stdout && ltb c.fr.out (length c.fr.stored)
    then on_stdout (k.write_stdout (unsent c.fr)) c
    else running c

-- write(sockfd, tooptr, n) has answered.
unfoldable pub on_to_socket : OutReply → Client → Outcome
unfolding consume
on_to_socket (wrote n) c =
    let c' = record c { to = consume c.to n; to_socket = c.to_socket ++ take n (unsent c.to) } in
    running (if (c.to.out + n == length c.to.stored) && c.stdineof then shutdown c' else c')
on_to_socket write_would_block c = running c
on_to_socket write_error c = failed c

unfoldable pub to_socket_stage : Kernel → Client → Outcome
to_socket_stage k c =
    if c.wset_socket && ltb c.to.out (length c.to.stored)
    then on_to_socket (k.write_socket (unsent c.to)) c
    else running c

-- One round of the `for` loop.
unfoldable pub round : Kernel → Client → Outcome
round k c = do
  c₁ ← stdin_stage k (select k c)
  c₂ ← socket_stage k c₁
  c₃ ← stdout_stage k c₂
  to_socket_stage k c₃

-- The rounds under a list of answers of the kernel.
unfoldable pub run : List Kernel → Client → Outcome
run [] c = running c
run (k ∷ ks) c = round k c >>= run ks
