-- ===== src/Stream/Frames.antt =====
-- What the calls of the stream leave alone: reading changes nothing of the bytes sent, writing
-- nothing of the bytes to come, and no call brings more signals.
use my_unp.Prelude.{
  ℕ, zero, suc, ◌+◌, ◌-◌, ◌≤◌, ◌≡◌, refl, ◌∙◌, List, [], ◌∷◌, ◌++◌, ◌==◌, Bool, true, false, drop,
  arith,
}
use my_unp.Stream.Kernel.{
  Kernel, ReadReply, got, read_intr, read_error, WriteReply, wrote, write_intr, write_error,
}
use my_unp.Stream.Writen.{WritenResult, written, write_loop, writen}
use my_unp.Stream.Writen as Writen
use my_unp.Stream.Readline.{
  maxline, Buffered, MyRead, char, end, fault, no_fuel, Readline, line, fail, out_of_fuel, refill,
  my_read, line_loop, readline,
}

-- The two directions of a socket do not touch each other.
pub record DuplexLaws {S : Type 0} (k : Kernel S) : Type 0 where
  pub read_keeps : (s : S) (n : ℕ) → k.sent (k.read s n).1 ≡ k.sent s
  pub write_keeps : (s : S) (bs : List ℕ) → k.pending (k.write s bs).1 ≡ k.pending s
  pub read_patience : (s : S) (n : ℕ) → k.patience (k.read s n).1 ≤ k.patience s
  pub write_patience : (s : S) (bs : List ℕ) → k.patience (k.write s bs).1 ≤ k.patience s

module _ {S : Type 0} (P : S → Type 0) where
  -- `P` holds of the stream that a call leaves.
  abbrev pub AfterMyRead : MyRead S → Type 0
  AfterMyRead (char c st) = P st.stream
  AfterMyRead (end st) = P st.stream
  AfterMyRead (fault st) = P st.stream
  AfterMyRead no_fuel = Unit

  abbrev pub AfterReadline : Readline S → Type 0
  AfterReadline (line n text st) = P st.stream
  AfterReadline (fail text st) = P st.stream
  AfterReadline out_of_fuel = Unit

  abbrev pub AfterWriten : WritenResult S → Type 0
  AfterWriten (written c s) = P s
  AfterWriten (Writen.failed s) = P s
  AfterWriten Writen.out_of_fuel = Unit

module _ {S : Type 0} (k : Kernel S) (P : S → Type 0)
    (keeps : (s : S) (n : ℕ) → P s → P (k.read s n).1) where
  refill-keeps : (fuel : ℕ) (s : S) → P s → AfterMyRead P (refill k fuel s)
  unfolding refill
  refill-keeps zero s h = tt
  refill-keeps (suc fuel) s h =
      go (k.read s maxline).0 (refill-keeps fuel (k.read s maxline).1 (keeps s maxline h))
        (keeps s maxline h)
    where
      s' : S
      s' = (k.read s maxline).1

      go :
          (r : ReadReply)
          → AfterMyRead P (refill k fuel s')
          → P s'
          → AfterMyRead P (elim r [
            | got [] ↦ end (record { ready = []; stream = s' })
            | got (b ∷ bs) ↦ char b (record { ready = bs; stream = s' })
            | read_intr ↦ refill k fuel s'
            | read_error e ↦ fault (record { ready = []; stream = s' })
          ])
      go (got []) ih p = p
      go (got (b ∷ bs)) ih p = p
      go read_intr ih p = ih
      go (read_error e) ih p = p

  my_read-keeps : (fuel : ℕ) (ready : List ℕ) (s : S) → P s → AfterMyRead P (my_read k fuel ready s)
  unfolding my_read
  my_read-keeps fuel [] s h = refill-keeps fuel s h
  my_read-keeps fuel (b ∷ bs) s h = h

  line_loop-keeps :
      (fuel rounds n : ℕ) (buf : List ℕ) (st : Buffered S)
      → P st.stream
      → AfterReadline P (line_loop k fuel rounds n buf st)
  unfolding line_loop
  line_loop-keeps fuel zero n buf st h = h
  line_loop-keeps fuel (suc rounds) n buf st h =
      go (my_read k fuel st.ready st.stream) (my_read-keeps fuel st.ready st.stream h)
        (λ c st'. line_loop-keeps fuel rounds (n + 1) (buf ++ (c ∷ [])) st')
    where
      at_char :
          (b : Bool) (c : ℕ) (st' : Buffered S)
          → P st'.stream
          → AfterReadline P (line_loop k fuel rounds (n + 1) (buf ++ (c ∷ [])) st')
          → AfterReadline P (elim b [
            | true ↦ line n (buf ++ (c ∷ [])) st'
            | false ↦ line_loop k fuel rounds (n + 1) (buf ++ (c ∷ [])) st'
          ])
      at_char true c st' p ih = p
      at_char false c st' p ih = ih

      go :
          (m : MyRead S)
          → AfterMyRead P m
          → ((c : ℕ) (st' : Buffered S)
              → P st'.stream
              → AfterReadline P (line_loop k fuel rounds (n + 1) (buf ++ (c ∷ [])) st'))
          → AfterReadline P (elim m [
            | char c st' ↦ elim (c == 10) [
              | true ↦ line n (buf ++ (c ∷ [])) st'
              | false ↦ line_loop k fuel rounds (n + 1) (buf ++ (c ∷ [])) st'
            ]
            | end st' ↦ line (n - 1) buf st'
            | fault st' ↦ fail buf st'
            | no_fuel ↦ out_of_fuel
          ])
      go (char c st') p ih = at_char (c == 10) c st' p (ih c st' p)
      go (end st') p ih = p
      go (fault st') p ih = p
      go no_fuel p ih = tt

  -- What every read(2) keeps, readline keeps.
  readline-keeps :
      (fuel maxlen : ℕ) (st : Buffered S)
      → P st.stream
      → AfterReadline P (readline k fuel maxlen st)
  unfolding readline
  readline-keeps fuel maxlen st h = line_loop-keeps fuel (maxlen - 1) 1 [] st h

module _ {S : Type 0} (k : Kernel S) (P : S → Type 0)
    (keeps : (s : S) (bs : List ℕ) → P s → P (k.write s bs).1) where
  write_loop-keeps :
      (fuel : ℕ) (s : S) (rest : List ℕ) (done : ℕ)
      → P s
      → AfterWriten P (write_loop k fuel s rest done)
  unfolding write_loop
  write_loop-keeps zero s rest done h = tt
  write_loop-keeps (suc fuel) s [] done h = h
  write_loop-keeps (suc fuel) s (b ∷ bs) done h =
      go (k.write s (b ∷ bs)).0 (keeps s (b ∷ bs) h)
        (λ rest done'. write_loop-keeps fuel (k.write s (b ∷ bs)).1 rest done' (keeps s (b ∷ bs) h))
    where
      s' : S
      s' = (k.write s (b ∷ bs)).1

      go :
          (r : WriteReply)
          → P s'
          → ((rest : List ℕ) (done' : ℕ) → AfterWriten P (write_loop k fuel s' rest done'))
          → AfterWriten P (elim r [
            | wrote zero ↦ Writen.failed s'
            | wrote (suc n) ↦ write_loop k fuel s' (drop n bs) (done + suc n)
            | write_intr ↦ write_loop k fuel s' (b ∷ bs) done
            | write_error e ↦ Writen.failed s'
          ])
      go (wrote zero) p ih = p
      go (wrote (suc n)) p ih = ih (drop n bs) (done + suc n)
      go write_intr p ih = ih (b ∷ bs) done
      go (write_error e) p ih = p

  -- What every write(2) keeps, writen keeps.
  writen-keeps : (fuel : ℕ) (s : S) (bs : List ℕ) → P s → AfterWriten P (writen k fuel s bs)
  unfolding writen
  writen-keeps fuel s bs h = write_loop-keeps fuel s bs 0 h

-- writen leaves the bytes to come as they are, and brings no more signals.
pub writen-leaves :
    {S : Type 0} (k : Kernel S)
    → DuplexLaws k
    → (fuel most : ℕ) (s : S) (bs : List ℕ) → k.patience s ≤ most
    → AfterWriten (λ s'. (k.pending s' ≡ k.pending s) × (k.patience s' ≤ most)) (writen k fuel s bs)
writen-leaves k duplex fuel most s bs few =
    writen-keeps k (λ s'. (k.pending s' ≡ k.pending s) × (k.patience s' ≤ most))
      (λ s' more h.
        (duplex.write_keeps s' more ∙ h.0, omega (arith, h.1, duplex.write_patience s' more)))
      fuel s bs (refl, few)

-- readline leaves the bytes sent as they are, and brings no more signals.
pub readline-leaves :
    {S : Type 0} (k : Kernel S)
    → DuplexLaws k
    → (fuel most maxlen : ℕ) (st : Buffered S) → k.patience st.stream ≤ most
    → AfterReadline
        (λ s'. (k.sent s' ≡ k.sent st.stream) × (k.patience s' ≤ most))
        (readline k fuel maxlen st)
readline-leaves k duplex fuel most maxlen st few =
    readline-keeps k (λ s'. (k.sent s' ≡ k.sent st.stream) × (k.patience s' ≤ most))
      (λ s n h. (duplex.read_keeps s n ∙ h.0, omega (arith, h.1, duplex.read_patience s n))) fuel
      maxlen st (refl, few)
