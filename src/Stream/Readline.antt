-- ===== src/Stream/Readline.antt =====
-- origin-src/unpv13e/lib/readline.c: lines out of a stream, through the static buffer.
pub mod Refine
pub mod Counts
pub mod Reentrant
use my_unp.Prelude.{ℕ, zero, suc, ◌+◌, ◌-◌, List, [], ◌∷◌, ◌++◌, ◌==◌, true, false}
use my_unp.Stream.Kernel.{Kernel, got, read_intr, read_error}

-- MAXLINE
abbrev pub maxline : ℕ
maxline = 4096

-- The static variables: `ready` is the read_cnt bytes at read_ptr (none if read_cnt is -1), beside
-- the state of the stream.
pub record Buffered (S : Type 0) : Type 0 where
  pub ready : List ℕ
  pub stream : S

-- What `my_read` returns: 1 with a byte, 0 at end of file, -1, or out of the rounds given.
pub data MyRead (S : Type 0) : Type 0 where
  char : ℕ → Buffered S → MyRead S
  end : Buffered S → MyRead S
  fault : Buffered S → MyRead S
  no_fuel : MyRead S

-- What `readline` returns: a count beside the bytes stored before the null byte, or -1 with what
-- was stored till then.
pub data Readline (S : Type 0) : Type 0 where
  line : ℕ → List ℕ → Buffered S → Readline S
  fail : List ℕ → Buffered S → Readline S
  out_of_fuel : Readline S

module _ {S : Type 0} (k : Kernel S) where
  -- The `again:` loop, entered with an empty buffer.
  unfoldable pub refill : ℕ → S → MyRead S
  refill zero s = no_fuel
  refill (suc fuel) s =
      let (r, s') = k.read s maxline in
      elim r [
        | got [] ↦ end (record { ready = []; stream = s' })
        | got (b ∷ bs) ↦ char b (record { ready = bs; stream = s' })
        | read_intr ↦ refill fuel s'
        | read_error e ↦ fault (record { ready = []; stream = s' })
      ]

  unfoldable pub my_read : ℕ → List ℕ → S → MyRead S
  my_read fuel [] s = refill fuel s
  my_read fuel (b ∷ bs) s = char b (record { ready = bs; stream = s })

  -- The `for` loop with `rounds` = maxlen - n to go; `buf` is the bytes before `ptr`.
  unfoldable pub line_loop : ℕ → ℕ → ℕ → List ℕ → Buffered S → Readline S
  line_loop fuel zero n buf st = line n buf st
  line_loop fuel (suc rounds) n buf st = elim (my_read fuel st.ready st.stream) [
    | char c st' ↦ elim (c == 10) [
      | true ↦ line n (buf ++ (c ∷ [])) st'
      | false ↦ line_loop fuel rounds (n + 1) (buf ++ (c ∷ [])) st'
    ]
    | end st' ↦ line (n - 1) buf st'
    | fault st' ↦ fail buf st'
    | no_fuel ↦ out_of_fuel
  ]

  unfoldable pub readline : ℕ → ℕ → Buffered S → Readline S
  readline fuel maxlen st = line_loop fuel (maxlen - 1) 1 [] st
