-- ===== src/Lines/Echo.antt =====
-- my-src/Chapter-05/str_echo.c: the bytes that a client sends go back to it.
use my_unp.Prelude.{
  ℕ, zero, suc, ◌+◌, ◌≤◌, ◌<◌, ◌≡◌, refl, ◌∙◌, sym, ap, subst, List, [], ◌∷◌, ◌++◌, append-nil,
  append_assoc, length, length-append, arith,
}
use my_unp.Stream.Kernel.{Kernel, got, read_intr, read_error, ReadLaws, WriteLaws}
use my_unp.Stream.View.{read_view, eof, bytes, intr, error}
use my_unp.Stream.Readline.{maxline}
use my_unp.Stream.Writen.{WritenResult, written, writen, Writes, writen-Writes}
use my_unp.Stream.Writen as Writen
use my_unp.Stream.Frames.{DuplexLaws, AfterWriten, writen-leaves}
use my_unp.Lines.{Served, closed, io_failed, no_rounds, after_write}
use my_unp.Lines.Answers.{Session, ended, CarriesOut, CarriesOut-answered, CarriesOut-from}

-- The loop on the reads with its `goto again`, and err_sys at any other error.
unfoldable pub str_echo : {S : Type 0} → Kernel S → ℕ → ℕ → S → Served S
str_echo k fuel zero s = no_rounds
str_echo k fuel (suc rounds) s =
    let (r, s') = k.read s maxline in
    elim r [
      | got [] ↦ closed s'
      | got (b ∷ bs) ↦
          after_write (writen k fuel s' (b ∷ bs)) [] (λ st. str_echo k fuel rounds st.stream)
      | read_intr ↦ str_echo k fuel rounds s'
      | read_error e ↦ io_failed s'
    ]

-- All the bytes to come are sent back.
abbrev pub echo : {S : Type 0} → Kernel S → S → Session
echo k s = record { answers = k.pending s; why = ended }

module _ {S : Type 0} (k : Kernel S) (reads : ReadLaws k) (writes : WriteLaws k)
    (duplex : DuplexLaws k) (fuel most : ℕ) (enough : maxline + most < fuel) where
  Next : ℕ → Type 0
  Next rounds =
      (s : S)
      → k.patience s ≤ most
      → length (k.pending s) + k.patience s < rounds
      → CarriesOut k s (echo k s) (str_echo k fuel rounds s)

  back-CarriesOut :
      (rounds : ℕ) (s : S) (bs : List ℕ)
      → Next rounds
      → length (k.pending s) + k.patience s < rounds
      → (w : WritenResult S) → Writes k s bs w
      → AfterWriten (λ s'. (k.pending s' ≡ k.pending s) × (k.patience s' ≤ k.patience s)) w
      → k.patience s ≤ most
      → CarriesOut k s
          (record { answers = bs ++ k.pending s; why = ended })
          (after_write w [] (λ st. str_echo k fuel rounds st.stream))
  unfolding Next
  back-CarriesOut rounds s bs next f (written c s') (_, sent) (same, few) h =
      CarriesOut-answered k s s' bs (echo k s) (str_echo k fuel rounds s') sent (
        subst
          (λ p. CarriesOut k s' (record { answers = p; why = ended }) (str_echo k fuel rounds s'))
          same (next s' (omega (arith, few, h)) (omega (arith, ap length same, few, f))))
  back-CarriesOut rounds s bs next f (Writen.failed s') (front, back, split, _, sent) kept h = (
    front,
    back ++ k.pending s,
    ap (λ p. p ++ k.pending s) split ∙ append_assoc front back (k.pending s),
    sent,
  )
  back-CarriesOut rounds s bs next f Writen.out_of_fuel w kept h = absurd w

  echo-CarriesOut : (rounds : ℕ) → Next rounds
  unfolding Next str_echo
  echo-CarriesOut zero s h f = absurd (omega (arith, f))
  echo-CarriesOut (suc rounds) s h f = elim (read_view k reads s 4095) [
    | eof q same nil ↦
        rw (q, str_echo)
          (
            refl,
            duplex.read_keeps s maxline
                ∙ sym (append-nil (k.sent s))
                ∙ ap (λ p. k.sent s ++ p) (sym (same ∙ nil)),
          )
    | bytes b bs q here few less ↦
        rw (q, str_echo) (answered b bs here few less (echo-CarriesOut rounds))
    | intr q same less ↦
        rw (q, str_echo)
          (CarriesOut-from k s s' (echo k s) (str_echo k fuel rounds s')
            (duplex.read_keeps s maxline)
            (subst
              (λ p.
                CarriesOut k s' (record { answers = p; why = ended }) (str_echo k fuel rounds s'))
              (sym same)
              (echo-CarriesOut rounds s' (omega (arith, less, h))
                (omega (arith, ap length same, less, f)))))
    | error n q same ↦
        rw (q, str_echo)
          ([], k.pending s, refl, duplex.read_keeps s maxline ∙ sym (append-nil (k.sent s)))
  ]
    where
      s' : S
      s' = (k.read s maxline).1

      answered :
          (b : ℕ) (bs : List ℕ)
          → k.pending s ≡ (b ∷ bs) ++ k.pending s'
          → length (b ∷ bs) ≤ maxline
          → k.patience s' ≤ k.patience s
          → Next rounds
          → CarriesOut k s
              (echo k s)
              (after_write (writen k fuel s' (b ∷ bs)) [] (λ st. str_echo k fuel rounds st.stream))
      answered b bs here few less next =
          CarriesOut-from k s s' (echo k s) _ (duplex.read_keeps s maxline) (
            subst
              (λ p.
                CarriesOut k s' (record { answers = p; why = ended })
                  (after_write (writen k fuel s' (b ∷ bs)) []
                    (λ st. str_echo k fuel rounds st.stream)))
              (sym here)
              (back-CarriesOut rounds s' (b ∷ bs) next
                (omega (arith, ap length here, length-append (b ∷ bs) (k.pending s'), less, f))
                (writen k fuel s' (b ∷ bs))
                (writen-Writes k writes fuel s' (b ∷ bs) (omega (arith, few, less, h, enough)))
                (writen-leaves k duplex fuel (k.patience s') s' (b ∷ bs) (omega arith))
                (omega (arith, less, h))))

-- On a lawful stream, with fuel for the writen of a buffer, and more rounds than bytes and signals to
-- come: str_echo sends back all the bytes that the client sends, in order, and returns; where a read or
-- a write fails, it has sent back the first of them.
pub str_echo-CarriesOut :
    {S : Type 0} (k : Kernel S)
    → ReadLaws k
    → WriteLaws k
    → DuplexLaws k
    → (fuel rounds : ℕ) (s : S) → maxline + k.patience s < fuel
    → length (k.pending s) + k.patience s < rounds
    → CarriesOut k s (echo k s) (str_echo k fuel rounds s)
unfolding Next
str_echo-CarriesOut k reads writes duplex fuel rounds s enough f =
    echo-CarriesOut k reads writes duplex fuel (k.patience s) enough rounds s (omega arith) f
