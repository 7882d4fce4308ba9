-- ===== src/Web/Counters/Interleaving.antt =====
-- web03.c: every step of main and of a thread keeps the counters right.
use my_unp.Prelude.{
  ℕ, zero, suc, ◌+◌, ◌-◌, ◌<◌, ◌≡◌, ◌≢◌, inl, inr, refl, ◌∙◌, sym, ap, subst, ◌&&◌, ltb, Option,
  none, some, length, get_or, replicate, sum_by, get_or-replicate, get_or_out, sum_by_bound,
  Bool-cases, arith,
}
use my_unp.Web.{
  Flags, unused, connecting, reading, done, joined, Thread, absent, getting, receiving, marked,
  terminated, File, Place, outer, inner, waiting, scanning, finished, nothing_found, Web, untouched,
  start, find_file, spawn, join, main_at, main_step, holds_mutex, thread_at, thread_step,
}
use my_unp.Web.Counters.{
  Found, find_file-Found, Fits, Inv, Keeps, counted, counted_at, fresh, live, live_at, unjoined,
  unjoined_at, weigh,
}

-- A place that main goes to while it is at work.
abbrev Working : Place → Type 0
Working p = (p ≢ nothing_found) × (p ≢ finished)

scanning-Working : (i : ℕ) → Working (scanning i)
scanning-Working i = (λ e. cc, λ e. cc)

-- Only the place changes.
move-Inv :
    (maxnconn : ℕ) (w : Web) (p : Place)
    → Inv maxnconn w
    → Working p
    → Inv maxnconn (record w { place = p })
move-Inv maxnconn w p v ok = record {
  fits = v.fits;
  to_connect = v.to_connect;
  connected = v.connected;
  to_read = v.to_read;
  to_join = v.to_join;
  capped = v.capped;
  found = ok.0;
  all_read = λ e. absurd (ok.1 e);
}

uncounted : (t : Thread) → counted_at unused t ≡ 0
uncounted absent = refl
uncounted getting = refl
uncounted receiving = refl
uncounted marked = refl
uncounted terminated = refl

module _ (maxnconn : ℕ) (w : Web) (v : Inv maxnconn w) where
  spawn-Inv :
      (r : Option ℕ)
      → Found w.files r
      → w.nconn < maxnconn
      → 0 < w.nlefttoconn
      → Inv maxnconn (spawn w r)
  spawn-Inv none h room left = absurd (omega (arith, h, v.to_connect, left))
  spawn-Inv (some i) (here, new) room left =
      weigh maxnconn w v i here unused ((get_or w.files i untouched).thread) new refl
        (record { flags = connecting; thread = getting }) (w.nconn + 1) (w.nlefttoconn - 1)
        w.nlefttoread w.ndone inner refl (omega (arith, left)) (omega arith) (omega arith)
        (omega (arith, uncounted ((get_or w.files i untouched).thread))) (omega (arith, room))
        (λ e. cc) (λ e. absurd cc)

  join-Inv :
      (i : ℕ) (fl : Flags) (t : Thread)
      → i < length w.files
      → (get_or w.files i untouched).flags ≡ fl
      → (get_or w.files i untouched).thread ≡ t
      → Keeps maxnconn (join i fl t w)
  join-Inv i unused t here ef et =
      move-Inv maxnconn w (scanning (i + 1)) v (scanning-Working (i + 1))
  join-Inv i connecting t here ef et =
      move-Inv maxnconn w (scanning (i + 1)) v (scanning-Working (i + 1))
  join-Inv i reading t here ef et =
      move-Inv maxnconn w (scanning (i + 1)) v (scanning-Working (i + 1))
  join-Inv i joined t here ef et =
      move-Inv maxnconn w (scanning (i + 1)) v (scanning-Working (i + 1))
  join-Inv i done absent here ef et = tt
  join-Inv i done getting here ef et = tt
  join-Inv i done receiving here ef et = tt
  join-Inv i done marked here ef et = tt
  join-Inv i done terminated here ef et =
      weigh maxnconn w v i here done terminated ef et
        (record { flags = joined; thread = terminated }) (w.nconn - 1) w.nlefttoconn
        (w.nlefttoread - 1) (w.ndone - 1) (scanning (i + 1)) (inr refl) (omega arith)
        (omega (arith, v.connected, sum_by_bound live w.files i untouched here, ap live_at ef))
        (omega
          (arith, v.to_read, sum_by_bound unjoined w.files i untouched here, ap unjoined_at ef))
        (omega (
          arith,
          v.to_join,
          sum_by_bound counted w.files i untouched here,
          ap (λ x. counted_at x (get_or w.files i untouched).thread) ef,
          ap (λ x. counted_at done x) et,
        ))
        (omega (arith, v.capped)) (λ e. cc) (λ e. absurd cc)

  main_at-Inv : (p : Place) → w.place ≡ p → Keeps maxnconn (main_at maxnconn p w)
  unfolding main_at
  main_at-Inv outer e = elim (Bool-cases (ltb 0 w.nlefttoread)) [
    | inl more ↦ rw more (move-Inv maxnconn w inner v (λ q. cc, λ q. cc))
    | inr none_left ↦ rw none_left (record {
      fits = v.fits;
      to_connect = v.to_connect;
      connected = v.connected;
      to_read = v.to_read;
      to_join = v.to_join;
      capped = v.capped;
      found = λ q. cc;
      all_read = λ q. ground arith;
    })
  ]
  main_at-Inv inner e = elim (Bool-cases (ltb w.nconn maxnconn && ltb 0 w.nlefttoconn)) [
    | inl more ↦
        rw more
          (spawn-Inv (find_file w.files) (find_file-Found w.files) (ground arith) (ground arith))
    | inr full ↦ rw full (move-Inv maxnconn w waiting v (λ q. cc, λ q. cc))
  ]
  main_at-Inv waiting e = elim (Bool-cases (ltb 0 w.ndone)) [
    | inl some_done ↦ rw some_done (move-Inv maxnconn w (scanning 0) v (scanning-Working 0))
    | inr no_one ↦ rw no_one tt
  ]
  main_at-Inv (scanning i) e = elim (Bool-cases (ltb i (length w.files))) [
    | inl here ↦ rw here (join-Inv i _ _ (ground arith) refl refl)
    | inr over ↦ rw over (move-Inv maxnconn w outer v (λ q. cc, λ q. cc))
  ]
  main_at-Inv finished e = tt
  main_at-Inv nothing_found e = tt

  -- The thread of file `i` is at `t`, which is not `absent`.
  module _ (i : ℕ) (t : Thread) (at : (get_or w.files i untouched).thread ≡ t) where
    flags_fit : Fits t ((get_or w.files i untouched).flags)
    flags_fit = subst (λ x. Fits x ((get_or w.files i untouched).flags)) at (v.fits i)

    in_table : t ≢ absent → i < length w.files
    in_table created = elim (Bool-cases (ltb i (length w.files))) [
      | inl here ↦ ground arith
      | inr over ↦ absurd (
          created
            (sym at ∙ ap (λ (f : File). f.thread) (get_or_out w.files i untouched (ground arith))))
    ]

  thread_at-Inv :
      (i : ℕ) (t : Thread)
      → (get_or w.files i untouched).thread ≡ t
      → Keeps maxnconn (thread_at i t w)
  unfolding thread_at
  thread_at-Inv i absent at = tt
  thread_at-Inv i getting at =
      weigh maxnconn w v i (in_table i getting at (λ e. cc)) connecting getting
        (flags_fit i getting at) at (record { flags = reading; thread = receiving }) w.nconn
        w.nlefttoconn w.nlefttoread w.ndone w.place refl refl refl refl refl v.capped v.found
        v.all_read
  thread_at-Inv i receiving at =
      weigh maxnconn w v i (in_table i receiving at (λ e. cc)) reading receiving
        (flags_fit i receiving at) at (record { flags = done; thread = marked }) w.nconn
        w.nlefttoconn w.nlefttoread w.ndone w.place refl refl refl refl refl v.capped v.found
        v.all_read
  thread_at-Inv i marked at = elim (Bool-cases (holds_mutex w.place)) [
    | inl held ↦ rw held tt
    | inr free ↦ rw free (
        weigh maxnconn w v i (in_table i marked at (λ e. cc)) done marked (flags_fit i marked at) at
          (record { flags = done; thread = terminated }) w.nconn w.nlefttoconn w.nlefttoread
          (w.ndone + 1) w.place (inl refl) refl refl refl (omega arith) v.capped v.found v.all_read)
  ]
  thread_at-Inv i terminated at = tt

-- A step of main or of a thread.
pub data Step (maxnconn : ℕ) (w : Web) : Web → Type 0 where
  main_steps : (w' : Web) → main_step maxnconn w ≡ some w' → Step maxnconn w w'
  thread_steps : (i : ℕ) (w' : Web) → thread_step i w ≡ some w' → Step maxnconn w w'

pub data Reach (maxnconn : ℕ) (w : Web) : Web → Type 0 where
  begin : Reach maxnconn w w
  later : {x y : Web} → Reach maxnconn w x → Step maxnconn x y → Reach maxnconn w y

start-Inv : (maxnconn nfiles : ℕ) → Inv maxnconn (start nfiles)
unfolding start
start-Inv maxnconn nfiles = record {
  fits = λ i.
      subst (λ (f : File). Fits f.thread f.flags) (sym (get_or-replicate nfiles i untouched)) refl;
  to_connect = ones fresh nfiles refl;
  connected = zeros live nfiles refl;
  to_read = ones unjoined nfiles refl;
  to_join = zeros counted nfiles refl;
  capped = omega arith;
  found = λ e. cc;
  all_read = λ e. absurd cc;
}
  where
    ones : (f : File → ℕ) (n : ℕ) → f untouched ≡ 1 → n ≡ sum_by f (replicate n untouched)
    ones f zero e = refl
    ones f (suc n) e = omega (arith, e, ones f n e)

    zeros : (f : File → ℕ) (n : ℕ) → f untouched ≡ 0 → 0 ≡ sum_by f (replicate n untouched)
    zeros f zero e = refl
    zeros f (suc n) e = omega (arith, e, zeros f n e)

-- In every state that main and the threads reach from the start, in any interleaving: nlefttoconn
-- counts the files not begun, nlefttoread those not joined, nconn the threads created and not
-- joined, of which there are at most maxnconn, and ndone those that have ended and are not joined;
-- f_flags says where each thread is; main never runs into the error of no file found, and has
-- joined all threads where it exits.
pub Reach-start-Inv :
    (maxnconn nfiles : ℕ) {w : Web} → Reach maxnconn (start nfiles) w → Inv maxnconn w
Reach-start-Inv maxnconn nfiles begin = start-Inv maxnconn nfiles
Reach-start-Inv maxnconn nfiles (later {x} r (main_steps w' e)) =
    subst (Keeps maxnconn) e
      (main_at-Inv maxnconn x (Reach-start-Inv maxnconn nfiles r) x.place refl)
Reach-start-Inv maxnconn nfiles (later {x} r (thread_steps i w' e)) =
    subst (Keeps maxnconn) e (thread_at-Inv maxnconn x (Reach-start-Inv maxnconn nfiles r) i _ refl)
