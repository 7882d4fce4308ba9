-- ===== src/Stream/Readn.antt =====
-- my-src/Chapter-03/readn.c: read exactly n bytes from a stream.
use my_unp.Prelude.{
  ℕ, zero, suc, ◌+◌, ◌-◌, ◌≤◌, ◌<◌, ◌≡◌, refl, ◌∙◌, sym, ap, List, [], ◌∷◌, ◌++◌, length, arith,
  length-append, append_assoc, ◌⊎◌, inl, inr,
}
use my_unp.Stream.Kernel.{Kernel, got, read_intr, read_error}
use my_unp.Stream.View.{eof, bytes, intr, error, read_view}
use my_unp.Stream.Kernel.{ReadLaws}

-- How a call of `read_n` ends: with the bytes stored (their number is the result), with -1 and
-- errno, or out of the rounds given.
pub data ReadnResult (S : Type 0) : Type 0 where
  stored : List ℕ → S → ReadnResult S
  failed : ℕ → List ℕ → S → ReadnResult S
  out_of_fuel : ReadnResult S

module _ {S : Type 0} (k : Kernel S) where
  -- The loop: `nleft` bytes wanted still, `buf` the bytes behind `ptr`.
  unfoldable pub read_loop : ℕ → S → ℕ → List ℕ → ReadnResult S
  read_loop zero s nleft buf = out_of_fuel
  read_loop (suc fuel) s zero buf = stored buf s
  read_loop (suc fuel) s (suc m) buf =
      let (r, s') = k.read s (suc m) in
      elim r [
        | got [] ↦ stored buf s'
        | got (b ∷ bs) ↦ read_loop fuel s' (suc m - length (b ∷ bs)) (buf ++ (b ∷ bs))
        | read_intr ↦ read_loop fuel s' (suc m) buf
        | read_error e ↦ failed e buf s'
      ]

  unfoldable pub read_n : ℕ → S → ℕ → ReadnResult S
  read_n fuel s n = read_loop fuel s n []

  -- What `read_n` promises of a result: the bytes come off the front of the stream, in order and
  -- at most n; they are fewer only at end of file.
  abbrev pub Reads : S → ℕ → ReadnResult S → Type 0
  Reads s n (stored bs s') =
      (k.pending s ≡ bs ++ k.pending s') × (length bs ≤ n) × ((length bs ≡ n) ⊎ (k.pending s' ≡ []))
  Reads s n (failed e bs s') = (k.pending s ≡ bs ++ k.pending s') × (length bs < n)
  Reads s n out_of_fuel = ⊥

module _ {S : Type 0} (k : Kernel S) (laws : ReadLaws k) (s₀ : S) (n : ℕ) where
  read_loop-Reads :
      (fuel : ℕ) (s : S) (nleft : ℕ) (buf : List ℕ)
      → nleft + k.patience s < fuel
      → k.pending s₀ ≡ buf ++ k.pending s
      → length buf + nleft ≡ n
      → Reads k s₀ n (read_loop k fuel s nleft buf)
  unfolding read_loop
  read_loop-Reads zero s nleft buf f h e = absurd (omega arith)
  read_loop-Reads (suc fuel) s zero buf f h e = (h, omega arith, inl (omega arith))
  read_loop-Reads (suc fuel) s (suc m) buf f h e = elim (read_view k laws s m) [
    | eof q same nil ↦ rw (q, read_loop) (keep same, omega arith, inr nil)
    | bytes b bs q here few less ↦
        rw (q, read_loop)
          (read_loop-Reads fuel s' (suc m - length (b ∷ bs)) (buf ++ (b ∷ bs)) (omega arith)
            (h ∙ ap (λ p. buf ++ p) here ∙ sym (append_assoc buf (b ∷ bs) (k.pending s')))
            (omega (arith, length-append buf (b ∷ bs))))
    | intr q same less ↦
        rw (q, read_loop) (read_loop-Reads fuel s' (suc m) buf (omega arith) (keep same) e)
    | error n q same ↦ rw (q, read_loop) (keep same, omega arith)
  ]
    where
      s' : S
      s' = (k.read s (suc m)).1

      keep : k.pending s ≡ k.pending s' → k.pending s₀ ≡ buf ++ k.pending s'
      keep same = h ∙ ap (λ p. buf ++ p) same

-- On a lawful stream, n + (signals to come) + 1 rounds are enough for `read_n`, and then: a result
-- holds the front of the stream in order, at most n bytes, and fewer than n only at end of file;
-- an error leaves the bytes read so far, fewer than n, off the front of the stream.
pub read_n-Reads :
    {S : Type 0} (k : Kernel S)
    → ReadLaws k
    → (fuel : ℕ) (s : S) (n : ℕ) → n + k.patience s < fuel
    → Reads k s n (read_n k fuel s n)
unfolding read_n
read_n-Reads k laws fuel s n enough =
    read_loop-Reads k laws s n fuel s n [] enough refl (omega arith)
