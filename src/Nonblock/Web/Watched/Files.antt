-- ===== src/Nonblock/Web/Watched/Files.antt =====
-- nonblock/web.c: what is done to one file, and the loop over them.
use my_unp.Prelude.{
  FdSet, fd_put, fd_put_self, fd_put_ne, ℕ, zero, suc, ◌+◌, ◌-◌, ◌≤◌, ◌<◌, ◌≡◌, ◌≢◌, refl, sym, ap,
  subst, List, [], ◌∷◌, Bool, true, false, ◌||◌, if◌then◌else◌, Option, none, some, length,
  length-set, get_or, set, sum_by, sum_by_bound, arith,
}
use my_unp.Nonblock.Web.{
  Status, unused, connecting, reading, done, WebFile, untouched, Globals, Connect, connected,
  in_progress, connect_error, Socket, Kernel, first_unused, next_file, raise, write_get_cmd,
  start_connect, count_conn, connect_file, on_readable, check_file, and_then, check_files,
}
use my_unp.Nonblock.Web.Watched.{
  Watched, fresh_at, live_at, undone_at, fresh, live, undone, Inv, change-Inv,
}

-- What a stage promises: the invariant, with as many files as before.
abbrev pub Keeps : ℕ → ℕ → Option Globals → Type 0
Keeps maxnconn n none = Unit
Keeps maxnconn n (some w) = Inv maxnconn w × (length w.file ≡ n)

abbrev pub Found : List WebFile → Option ℕ → Type 0
Found fs none = sum_by fresh fs ≡ 0
Found fs (some i) = (i < length fs) × ((get_or fs i untouched).flags ≡ unused)

pub next_file-Found : (fs : List WebFile) → Found fs (next_file fs)
unfolding next_file
next_file-Found [] = refl
next_file-Found (f ∷ fs) = go f.flags refl (next_file fs) (next_file-Found fs)
  where
    go :
        (s : Status) → f.flags ≡ s → (r : Option ℕ) → Found fs r → Found (f ∷ fs) (first_unused s r)
    go unused e r h = (omega arith, e)
    go connecting e none h = rw e (omega (arith, h))
    go connecting e (some i) h = (omega (arith, h.0), h.1)
    go reading e none h = rw e (omega (arith, h))
    go reading e (some i) h = (omega (arith, h.0), h.1)
    go done e none h = rw e (omega (arith, h))
    go done e (some i) h = (omega (arith, h.0), h.1)

Watched-live :
    (r w : FdSet) (m : ℕ) (s : Status) (fd : ℕ) → live_at s ≡ 1 → Watched r w m s fd → r fd ≡ true
Watched-live r w m unused fd l h = absurd (omega (arith, l))
Watched-live r w m connecting fd l h = h.0
Watched-live r w m reading fd l h = h.0
Watched-live r w m done fd l h = absurd (omega (arith, l))

module _ (maxnconn : ℕ) (w : Globals) (v : Inv maxnconn w) (i : ℕ) (here : i < length w.file) where
  -- The file becomes `f`, with one connection more, on a descriptor that is in no set.
  begin-Inv :
      (s : Status) (fd : ℕ) (wset : FdSet)
      → (get_or w.file i untouched).flags ≡ unused
      → fresh_at s ≡ 0
      → live_at s ≡ 1
      → undone_at s ≡ 1
      → w.nconn < maxnconn
      → 0 < w.nlefttoconn
      → w.rset fd ≡ false
      → ((x : ℕ) → x ≢ fd → wset x ≡ w.wset x)
      → Watched (fd_put fd true w.rset) wset (raise w.maxfd fd) s fd
      → Inv maxnconn (record {
        file = set w.file i (record { flags = s; fd = fd });
        nconn = w.nconn + 1;
        nlefttoconn = w.nlefttoconn - 1;
        nlefttoread = w.nlefttoread;
        maxfd = raise w.maxfd fd;
        rset = fd_put fd true w.rset;
        wset = wset;
      })
  begin-Inv s fd wset e a b c room left new same watch =
      change-Inv maxnconn w v i here (record { flags = s; fd = fd }) (w.nconn + 1)
        (w.nlefttoconn - 1) w.nlefttoread (raise w.maxfd fd) (fd_put fd true w.rset) wset
        (omega (arith, ap fresh_at e, a, left)) (omega (arith, ap live_at e, b))
        (omega (arith, ap undone_at e, c)) (omega (arith, room))
        (λ x ne. fd_put_ne fd x true w.rset ne) same (ground arith) watch
        (λ j ne l q. clash j q (Watched-live w.rset w.wset w.maxfd _ _ l (v.watched j)))
    where
      clash :
          (j : ℕ)
          → (get_or w.file j untouched).fd ≡ fd
          → w.rset ((get_or w.file j untouched).fd) ≡ true
          → ⊥
      clash j q t = cc

  start_connect-Inv :
      (c : Connect) (ok : Bool) (fd : ℕ)
      → (get_or w.file i untouched).flags ≡ unused
      → w.nconn < maxnconn
      → 0 < w.nlefttoconn
      → w.rset fd ≡ false
      → Keeps maxnconn (length w.file) (count_conn (start_connect c ok i fd w))
  start_connect-Inv connect_error ok fd e room left new = tt
  start_connect-Inv connected false fd e room left new = tt
  start_connect-Inv connected true fd e room left new = (
    begin-Inv reading fd w.wset e refl refl refl room left new (λ x ne. refl)
        (fd_put_self fd true w.rset, ground arith),
    length-set w.file i _,
  )
  start_connect-Inv in_progress ok fd e room left new = (
    begin-Inv connecting fd (fd_put fd true w.wset) e refl refl refl room left new
        (λ x ne. fd_put_ne fd x true w.wset ne)
        (fd_put_self fd true w.rset, fd_put_self fd true w.wset, ground arith),
    length-set w.file i _,
  )

  -- No other file has this one's descriptor.
  others :
      live (get_or w.file i untouched) ≡ 1
      → (j : ℕ) → i ≢ j
      → live (get_or w.file j untouched) ≡ 1
      → (get_or w.file j untouched).fd ≢ (get_or w.file i untouched).fd
  others mine j ne l q = ne (v.apart i j mine l (sym q))

  on_connected-Inv :
      (k : Kernel) (ok : Bool)
      → (get_or w.file i untouched).flags ≡ connecting
      → let fd = (get_or w.file i untouched).fd in
        Keeps maxnconn
          (length w.file)
          (write_get_cmd ok i fd (record w { wset = fd_put fd false w.wset }))
  on_connected-Inv k false e = tt
  on_connected-Inv k true e = (
    change-Inv maxnconn w v i here (record { flags = reading; fd = (get_or w.file i untouched).fd })
        w.nconn w.nlefttoconn w.nlefttoread (raise w.maxfd (get_or w.file i untouched).fd)
        (fd_put _ true w.rset) (fd_put _ false w.wset) (omega (arith, ap fresh_at e))
        (omega (arith, ap live_at e)) (omega (arith, ap undone_at e)) v.capped
        (λ x ne. fd_put_ne _ x true w.rset ne) (λ x ne. fd_put_ne _ x false w.wset ne)
        (ground arith) (fd_put_self _ true w.rset, ground arith) (others (ap live_at e)),
    length-set w.file i _,
  )

  on_readable-Inv :
      (fails at_end : Bool)
      → (get_or w.file i untouched).flags ≡ reading
      → Keeps maxnconn
          (length w.file)
          (on_readable fails at_end i ((get_or w.file i untouched).fd) w)
  on_readable-Inv true at_end e = tt
  on_readable-Inv false false e = (v, refl)
  on_readable-Inv false true e = (
    change-Inv maxnconn w v i here (record { flags = done; fd = (get_or w.file i untouched).fd })
        (w.nconn - 1) w.nlefttoconn (w.nlefttoread - 1) w.maxfd (fd_put _ false w.rset) w.wset
        (omega (arith, ap fresh_at e))
        (omega (arith, ap live_at e, v.connected, sum_by_bound live w.file i untouched here))
        (omega (arith, ap undone_at e, v.to_read, sum_by_bound undone w.file i untouched here))
        (omega (arith, v.capped)) (λ x ne. fd_put_ne _ x false w.rset ne) (λ x ne. refl)
        (omega arith) tt (others (ap live_at e)),
    length-set w.file i _,
  )

  pick :
      (b : Bool) (o : Option Globals)
      → Keeps maxnconn (length w.file) o
      → Keeps maxnconn (length w.file) (if b then o else some w)
  pick true o h = h
  pick false o h = (v, refl)

  check_file-Inv :
      (k : Kernel) (rs ws : FdSet) (s : Status)
      → (get_or w.file i untouched).flags ≡ s
      → Keeps maxnconn (length w.file) (check_file k rs ws i s ((get_or w.file i untouched).fd) w)
  check_file-Inv k rs ws unused e = (v, refl)
  check_file-Inv k rs ws done e = (v, refl)
  check_file-Inv k rs ws connecting e = pick (rs _ || ws _) _ (on_connected-Inv k (k.write_ok _) e)
  check_file-Inv k rs ws reading e = pick (rs _) _ (on_readable-Inv (k.read_fails _) (k.eof _) e)

pub check_files-Inv :
    (maxnconn : ℕ) (k : Kernel) (rs ws : FdSet) (rounds i : ℕ) (w : Globals)
    → Inv maxnconn w
    → i + rounds ≤ length w.file
    → Keeps maxnconn (length w.file) (check_files k rs ws rounds i w)
unfolding check_files
check_files-Inv maxnconn k rs ws zero i w v room = (v, refl)
check_files-Inv maxnconn k rs ws (suc rounds) i w v room =
    go (check_file k rs ws i ((get_or w.file i untouched).flags) ((get_or w.file i untouched).fd) w)
      (check_file-Inv maxnconn w v i (omega arith) k rs ws _ refl)
      (λ x u e. check_files-Inv maxnconn k rs ws rounds (i + 1) x u (omega (arith, e)))
  where
    go :
        (o : Option Globals)
        → Keeps maxnconn (length w.file) o
        → ((x : Globals)
            → Inv maxnconn x
            → length x.file ≡ length w.file
            → Keeps maxnconn (length x.file) (check_files k rs ws rounds (i + 1) x))
        → Keeps maxnconn (length w.file) (and_then o (check_files k rs ws rounds (i + 1)))
    go none h rest = tt
    go (some x) h rest =
        subst (λ n. Keeps maxnconn n (check_files k rs ws rounds (i + 1) x)) h.1 (rest x h.0 h.1)

pub connect_file-Inv :
    (maxnconn : ℕ) (s : Socket) (w : Globals) (r : Option ℕ)
    → Inv maxnconn w
    → Found w.file r
    → w.nconn < maxnconn
    → 0 < w.nlefttoconn
    → w.rset s.fd ≡ false
    → Keeps maxnconn (length w.file) (connect_file s r w)
connect_file-Inv maxnconn s w none v h room left new = tt
connect_file-Inv maxnconn s w (some i) v h room left new =
    start_connect-Inv maxnconn w v i h.0 s.connect s.write_ok s.fd h.1 room left new
