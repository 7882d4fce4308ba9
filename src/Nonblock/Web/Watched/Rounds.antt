-- ===== src/Nonblock/Web/Watched/Rounds.antt =====
-- nonblock/web.c: the rounds of both loops of main.
use my_unp.Prelude.{
  ℕ, zero, suc, ◌≡◌, refl, ◌∙◌, sym, ap, subst, inl, inr, Bool, false, ◌&&◌, ltb, some, length,
  get_or, replicate, get_or-replicate, sum_by, Bool-cases, arith,
}
use my_unp.Nonblock.Web.{
  WebFile, untouched, Globals, Socket, Kernel, begin, next_file, select_stage, connect_stage,
}
use my_unp.Nonblock.Web.Watched.{Watched, fresh, live, undone, Inv}
use my_unp.Nonblock.Web.Watched.Files.{Keeps, check_files-Inv, connect_file-Inv, next_file-Found}

-- The conditions of the inner while.
abbrev pub may_connect : ℕ → Globals → Bool
may_connect maxnconn w = ltb w.nconn maxnconn && ltb 0 w.nlefttoconn

-- The rounds of main: of the inner while, on a socket whose descriptor is not in use, and, once its
-- conditions fail, of the outer one.
pub data Reach (maxnconn nfiles : ℕ) : Globals → Type 0 where
  at_start : Reach maxnconn nfiles (begin nfiles)
  connects :
      {w : Globals} (s : Socket) (x : Globals)
      → Reach maxnconn nfiles w
      → w.rset s.fd ≡ false
      → connect_stage maxnconn s w ≡ some x
      → Reach maxnconn nfiles x
  selects :
      {w : Globals} (k : Kernel) (x : Globals)
      → Reach maxnconn nfiles w
      → may_connect maxnconn w ≡ false
      → select_stage k w ≡ some x
      → Reach maxnconn nfiles x

connect_stage-Inv :
    (maxnconn : ℕ) (s : Socket) (w : Globals)
    → Inv maxnconn w
    → w.rset s.fd ≡ false
    → Keeps maxnconn (length w.file) (connect_stage maxnconn s w)
unfolding connect_stage
connect_stage-Inv maxnconn s w v new =
    elim (Bool-cases (ltb w.nconn maxnconn && ltb 0 w.nlefttoconn)) [
      | inl more ↦ rw more (
          connect_file-Inv maxnconn s w (next_file w.file) v (next_file-Found w.file) (ground arith)
            (ground arith) new)
      | inr full ↦ rw full (v, refl)
    ]

select_stage-Inv :
    (maxnconn : ℕ) (k : Kernel) (w : Globals)
    → Inv maxnconn w
    → Keeps maxnconn (length w.file) (select_stage k w)
unfolding select_stage
select_stage-Inv maxnconn k w v = check_files-Inv maxnconn k _ _ (length w.file) 0 w v (omega arith)

start-Inv : (maxnconn nfiles : ℕ) → Inv maxnconn (begin nfiles)
unfolding begin
start-Inv maxnconn nfiles = record {
  to_connect = ones fresh nfiles refl;
  connected = zeros live nfiles refl;
  to_read = ones undone nfiles refl;
  capped = omega arith;
  watched = λ i.
      subst (λ (f : WebFile). Watched (λ x. false) (λ x. false) 0 f.flags f.fd)
        (sym (get_or-replicate nfiles i untouched)) tt;
  apart = λ i j l m e. absurd (dead i l);
}
  where
    ones : (f : WebFile → ℕ) (n : ℕ) → f untouched ≡ 1 → n ≡ sum_by f (replicate n untouched)
    ones f zero e = refl
    ones f (suc n) e = omega (arith, e, ones f n e)

    zeros : (f : WebFile → ℕ) (n : ℕ) → f untouched ≡ 0 → 0 ≡ sum_by f (replicate n untouched)
    zeros f zero e = refl
    zeros f (suc n) e = omega (arith, e, zeros f n e)

    dead : (i : ℕ) → live (get_or (replicate nfiles untouched) i untouched) ≡ 1 → ⊥
    dead i l =
        let same : 1 ≡ 0 = sym l ∙ ap live (get_or-replicate nfiles i untouched) in
        omega (arith, same)

-- After any number of rounds of the loops of main, with every new socket on a descriptor that is not
-- in use: nlefttoconn, nconn and nlefttoread count the files that have not begun, that have a
-- connection, and that are not done, and nconn is at most maxnconn; Select is given each
-- descriptor that connects for reading and writing and each that is read from for reading, all of
-- them up to maxfd, and no two files share one.
pub Reach-Watched : (maxnconn nfiles : ℕ) {w : Globals} → Reach maxnconn nfiles w → Inv maxnconn w
Reach-Watched maxnconn nfiles at_start = start-Inv maxnconn nfiles
Reach-Watched maxnconn nfiles (connects {w} s x r new e) =
    (subst (Keeps maxnconn (length w.file)) e
      (connect_stage-Inv maxnconn s w (Reach-Watched maxnconn nfiles r) new)).0
Reach-Watched maxnconn nfiles (selects {w} k x r full e) =
    (subst (Keeps maxnconn (length w.file)) e
      (select_stage-Inv maxnconn k w (Reach-Watched maxnconn nfiles r))).0
