-- ===== src/Stream/Scripted.antt =====
-- A kernel that follows a script, for the examples: each entry is the most bytes that the next
-- call moves, 0 for a signal. It meets the laws.
use my_unp.Prelude.{
  ℕ, zero, suc, ◌≤◌, ◌<◌, ◌≡◌, refl, sym, List, [], ◌∷◌, ◌++◌, take, drop, take-append-drop, length,
  length-take, min, arith,
}
use my_unp.Stream.Kernel.{
  Kernel, ReadLaws, ReadReply, got, read_intr, read_error, WriteLaws, WriteReply, wrote, write_intr,
  write_error,
}
use my_unp.Stream.Frames.{DuplexLaws}

-- The script, the bytes to read, the bytes written.
abbrev pub Script : Type 0
Script = List ℕ × List ℕ × List ℕ

abbrev script_read : Script → ℕ → ReadReply × Script
script_read ([], input, output) n = (got (take n input), ([], drop n input, output))
script_read (zero ∷ cs, input, output) n = (read_intr, (cs, input, output))
script_read (suc c ∷ cs, input, output) n =
    (got (take (min (suc c) n) input), (cs, drop (min (suc c) n) input, output))

abbrev script_write : Script → List ℕ → WriteReply × Script
script_write ([], input, output) bs = (wrote (length bs), ([], input, output ++ bs))
script_write (zero ∷ cs, input, output) bs = (write_intr, (cs, input, output))
script_write (suc c ∷ cs, input, output) bs =
    (wrote (min (suc c) (length bs)), (cs, input, output ++ take (min (suc c) (length bs)) bs))

abbrev pub scripted : Kernel Script
scripted = record {
  read = script_read;
  write = script_write;
  pending = λ s. s.1;
  sent = λ s. s.2;
  patience = λ s. length s.0;
}

take_got :
    (n m : ℕ) (xs bs : List ℕ)
    → got (take n xs) ≡ got bs
    → n ≤ m
    → (xs ≡ bs ++ drop n xs) × (length bs ≤ m)
take_got n m xs bs e h =
    let e' : take n xs ≡ bs = cc e in
    (rw (← e') (sym (take-append-drop n xs)), rw (← e') (omega (arith, length-take n xs)))

take_nil : (n : ℕ) (xs : List ℕ) → got (take n xs) ≡ got [] → 0 < n → drop n xs ≡ []
take_nil zero xs e h = absurd (omega arith)
take_nil (suc n) [] e h = refl
take_nil (suc n) (x ∷ xs) e h = cc

scripted_got :
    (s : Script) (n : ℕ) (bs : List ℕ)
    → (script_read s n).0 ≡ got bs
    → (s.1 ≡ bs ++ (script_read s n).1.1)
      × (length bs ≤ n)
      × (length ((script_read s n).1.0) ≤ length s.0)
scripted_got ([], input, output) n bs e =
    let h = take_got n n input bs e (omega arith) in (h.0, h.1, omega arith)
scripted_got (zero ∷ cs, input, output) n bs e = cc
scripted_got (suc c ∷ cs, input, output) n bs e =
    let h = take_got (min (suc c) n) n input bs e (omega arith) in (h.0, h.1, omega arith)

scripted_nil :
    (s : Script) (n : ℕ) → (script_read s n).0 ≡ got [] → 0 < n → (script_read s n).1.1 ≡ []
scripted_nil ([], input, output) n e h = take_nil n input e h
scripted_nil (zero ∷ cs, input, output) n e h = cc
scripted_nil (suc c ∷ cs, input, output) n e h = take_nil (min (suc c) n) input e (omega arith)

scripted_intr :
    (s : Script) (n : ℕ)
    → (script_read s n).0 ≡ read_intr
    → (s.1 ≡ (script_read s n).1.1) × (length ((script_read s n).1.0) < length s.0)
scripted_intr ([], input, output) n e = cc
scripted_intr (zero ∷ cs, input, output) n e = (refl, omega arith)
scripted_intr (suc c ∷ cs, input, output) n e = cc

scripted_error :
    (s : Script) (n e : ℕ) → (script_read s n).0 ≡ read_error e → s.1 ≡ (script_read s n).1.1
scripted_error ([], input, output) n e h = cc
scripted_error (zero ∷ cs, input, output) n e h = cc
scripted_error (suc c ∷ cs, input, output) n e h = cc

pub scripted-ReadLaws : ReadLaws scripted
scripted-ReadLaws = record {
  got_prefix = scripted_got;
  got_nil = scripted_nil;
  intr_keeps = scripted_intr;
  error_keeps = scripted_error;
}

take_all : (xs : List ℕ) → take (length xs) xs ≡ xs
take_all [] = refl
take_all (x ∷ xs) = rw (take_all xs)

scripted_wrote :
    (s : Script) (bs : List ℕ) (n : ℕ)
    → (script_write s bs).0 ≡ wrote n
    → ((script_write s bs).1.2 ≡ s.2 ++ take n bs)
      × (n ≤ length bs)
      × (length ((script_write s bs).1.0) ≤ length s.0)
scripted_wrote ([], input, output) bs n e =
    let e' : length bs ≡ n = cc e in (rw (← e', take_all bs), omega arith, omega arith)
scripted_wrote (zero ∷ cs, input, output) bs n e = cc
scripted_wrote (suc c ∷ cs, input, output) bs n e =
    let e' : min (suc c) (length bs) ≡ n = cc e in (rw (← e'), omega arith, omega arith)

scripted_write_intr :
    (s : Script) (bs : List ℕ)
    → (script_write s bs).0 ≡ write_intr
    → ((script_write s bs).1.2 ≡ s.2) × (length ((script_write s bs).1.0) < length s.0)
scripted_write_intr ([], input, output) bs e = cc
scripted_write_intr (zero ∷ cs, input, output) bs e = (refl, omega arith)
scripted_write_intr (suc c ∷ cs, input, output) bs e = cc

scripted_write_error :
    (s : Script) (bs : List ℕ) (e : ℕ)
    → (script_write s bs).0 ≡ write_error e
    → (script_write s bs).1.2 ≡ s.2
scripted_write_error ([], input, output) bs e h = cc
scripted_write_error (zero ∷ cs, input, output) bs e h = cc
scripted_write_error (suc c ∷ cs, input, output) bs e h = cc

pub scripted-WriteLaws : WriteLaws scripted
scripted-WriteLaws = record {
  wrote_prefix = scripted_wrote;
  write_intr_keeps = scripted_write_intr;
  write_error_keeps = scripted_write_error;
}

read_keeps : (s : Script) (n : ℕ) → (script_read s n).1.2 ≡ s.2
read_keeps ([], input, output) n = refl
read_keeps (zero ∷ cs, input, output) n = refl
read_keeps (suc c ∷ cs, input, output) n = refl

write_keeps : (s : Script) (bs : List ℕ) → (script_write s bs).1.1 ≡ s.1
write_keeps ([], input, output) bs = refl
write_keeps (zero ∷ cs, input, output) bs = refl
write_keeps (suc c ∷ cs, input, output) bs = refl

read_patience : (s : Script) (n : ℕ) → length ((script_read s n).1.0) ≤ length s.0
read_patience ([], input, output) n = omega arith
read_patience (zero ∷ cs, input, output) n = omega arith
read_patience (suc c ∷ cs, input, output) n = omega arith

write_patience : (s : Script) (bs : List ℕ) → length ((script_write s bs).1.0) ≤ length s.0
write_patience ([], input, output) bs = omega arith
write_patience (zero ∷ cs, input, output) bs = omega arith
write_patience (suc c ∷ cs, input, output) bs = omega arith

pub scripted-DuplexLaws : DuplexLaws scripted
scripted-DuplexLaws = record {
  read_keeps = read_keeps;
  write_keeps = write_keeps;
  read_patience = read_patience;
  write_patience = write_patience;
}
