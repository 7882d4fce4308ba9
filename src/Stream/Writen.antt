-- ===== src/Stream/Writen.antt =====
-- my-src/Chapter-03/writen.c: write exactly n bytes to a stream.
use my_unp.Prelude.{
  ℕ, zero, suc, ◌+◌, ◌<◌, ◌≡◌, refl, ◌∙◌, sym, ap, List, [], ◌∷◌, ◌++◌, length, arith, take, drop,
  length-drop, take-append-drop, append_assoc, append-nil,
}
use my_unp.Stream.Kernel.{Kernel, WriteLaws, wrote, write_intr, write_error}
use my_unp.Stream.View.{some_bytes, write_signal, write_fault, write_view}

-- How a call of `writen` ends: with the count written, with -1, or out of the rounds given.
pub data WritenResult (S : Type 0) : Type 0 where
  written : ℕ → S → WritenResult S
  failed : S → WritenResult S
  out_of_fuel : WritenResult S

module _ {S : Type 0} (k : Kernel S) where
  -- The loop: `rest` is the nleft bytes from `ptr` on, and n - nleft of the n bytes are `done`. A
  -- write of no byte is an error.
  unfoldable pub write_loop : ℕ → S → List ℕ → ℕ → WritenResult S
  write_loop zero s rest done = out_of_fuel
  write_loop (suc fuel) s [] done = written done s
  write_loop (suc fuel) s (b ∷ bs) done =
      let (r, s') = k.write s (b ∷ bs) in
      elim r [
        | wrote zero ↦ failed s'
        | wrote (suc n) ↦ write_loop fuel s' (drop n bs) (done + suc n)
        | write_intr ↦ write_loop fuel s' (b ∷ bs) done
        | write_error e ↦ failed s'
      ]

  unfoldable pub writen : ℕ → S → List ℕ → WritenResult S
  writen fuel s bs = write_loop fuel s bs 0

  -- What `writen` promises of a result: all the bytes were accepted once, in order, or a proper
  -- prefix of them and the call failed.
  abbrev pub Writes : S → List ℕ → WritenResult S → Type 0
  Writes s bs (written c s') = (c ≡ length bs) × (k.sent s' ≡ k.sent s ++ bs)
  Writes s bs (failed s') =
      (front : List ℕ) × (back : List ℕ) × (bs ≡ front ++ back)
      × (0 < length back)
      × (k.sent s' ≡ k.sent s ++ front)
  Writes s bs out_of_fuel = ⊥

module _ {S : Type 0} (k : Kernel S) (laws : WriteLaws k) (s₀ : S) (all : List ℕ) where
  write_loop-Writes :
      (fuel : ℕ) (s : S) (rest : List ℕ) (done : ℕ) (front : List ℕ)
      → length rest + k.patience s < fuel
      → all ≡ front ++ rest
      → k.sent s ≡ k.sent s₀ ++ front
      → done + length rest ≡ length all
      → Writes k s₀ all (write_loop k fuel s rest done)
  unfolding write_loop
  write_loop-Writes zero s rest done front f h g e = absurd (omega arith)
  write_loop-Writes (suc fuel) s [] done front f h g e =
      (omega arith, g ∙ ap (λ p. k.sent s₀ ++ p) (sym (h ∙ append-nil front)))
  write_loop-Writes (suc fuel) s (b ∷ bs) done front f h g e = elim (write_view k laws s (b ∷ bs)) [
    | some_bytes zero q here few less ↦
        rw (q, write_loop) (front, b ∷ bs, h, omega arith, (here ∙ append-nil (k.sent s)) ∙ g)
    | some_bytes (suc n) q here few less ↦
        rw (q, write_loop)
          (write_loop-Writes fuel s' (drop n bs) (done + suc n) (front ++ (b ∷ take n bs))
            (omega (arith, length-drop n bs))
            (h
              ∙ ap (λ p. front ++ (b ∷ p)) (sym (take-append-drop n bs))
              ∙ sym (append_assoc front (b ∷ take n bs) (drop n bs)))
            (here
              ∙ ap (λ p. p ++ (b ∷ take n bs)) g
              ∙ append_assoc (k.sent s₀) front (b ∷ take n bs))
            (omega (arith, length-drop n bs)))
    | write_signal q same less ↦
        rw (q, write_loop)
          (write_loop-Writes fuel s' (b ∷ bs) done front (omega arith) h (same ∙ g) e)
    | write_fault n q same ↦ rw (q, write_loop) (front, b ∷ bs, h, omega arith, same ∙ g)
  ]
    where
      s' : S
      s' = (k.write s (b ∷ bs)).1

-- On a lawful stream, n + (signals to come) + 1 rounds are enough for `writen` of n bytes, and
-- then: either it returns n and exactly the n bytes were accepted, in order, or it returns -1 and
-- a proper prefix of them was.
pub writen-Writes :
    {S : Type 0} (k : Kernel S)
    → WriteLaws k
    → (fuel : ℕ) (s : S) (bs : List ℕ) → length bs + k.patience s < fuel
    → Writes k s bs (writen k fuel s bs)
unfolding writen
writen-Writes k laws fuel s bs enough =
    write_loop-Writes k laws s bs fuel s bs 0 [] enough refl (sym (append-nil (k.sent s)))
      (omega arith)
