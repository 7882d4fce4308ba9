-- ===== src/Web/Counters.antt =====
-- The counters of web03.c are right in every interleaving of main and the threads.
pub mod Interleaving
use my_unp.Prelude.{
  ℕ, zero, suc, ◌+◌, ◌-◌, ◌≤◌, ◌<◌, ◌≡◌, ◌≢◌, ◌⊎◌, inl, inr, refl, ◌∙◌, sym, ap, subst, List, [],
  ◌∷◌, ◌&&◌, ltb, Option, none, some, length, get_or, set, replicate, sum_by, sum_by-set,
  get_or-set_keeps, get_or-replicate, get_or_out, sum_by_bound, Bool-cases, arith,
}
use my_unp.Web.{
  Flags, unused, connecting, reading, done, joined, Thread, absent, getting, receiving, marked,
  terminated, File, Place, outer, inner, waiting, scanning, finished, nothing_found, Web, untouched,
  start, here_or_behind, find_file, spawn, join, main_at, main_step, holds_mutex, thread_at,
  thread_step,
}

-- The flags that a file has where its thread is there.
abbrev pub Fits : Thread → Flags → Type 0
Fits absent fl = fl ≡ unused
Fits getting fl = fl ≡ connecting
Fits receiving fl = fl ≡ reading
Fits marked fl = fl ≡ done
Fits terminated fl = (fl ≡ done) ⊎ (fl ≡ joined)

-- Files not begun, those whose thread is created and not joined, those not joined, and those
-- whose thread has counted itself and is not joined.
abbrev pub fresh_at : Flags → ℕ
fresh_at unused = 1
fresh_at connecting = 0
fresh_at reading = 0
fresh_at done = 0
fresh_at joined = 0

abbrev pub fresh : File → ℕ
fresh f = fresh_at f.flags

abbrev pub live_at : Flags → ℕ
live_at unused = 0
live_at connecting = 1
live_at reading = 1
live_at done = 1
live_at joined = 0

abbrev pub live : File → ℕ
live f = live_at f.flags

abbrev pub unjoined_at : Flags → ℕ
unjoined_at unused = 1
unjoined_at connecting = 1
unjoined_at reading = 1
unjoined_at done = 1
unjoined_at joined = 0

abbrev pub unjoined : File → ℕ
unjoined f = unjoined_at f.flags

abbrev pub counted_at : Flags → Thread → ℕ
counted_at fl absent = 0
counted_at fl getting = 0
counted_at fl receiving = 0
counted_at fl marked = 0
counted_at unused terminated = 0
counted_at connecting terminated = 0
counted_at reading terminated = 0
counted_at done terminated = 1
counted_at joined terminated = 0

abbrev pub counted : File → ℕ
counted f = counted_at f.flags f.thread

pub record Inv (maxnconn : ℕ) (w : Web) : Type 0 where
  pub fits :
      (i : ℕ) → Fits ((get_or w.files i untouched).thread) ((get_or w.files i untouched).flags)
  pub to_connect : w.nlefttoconn ≡ sum_by fresh w.files
  pub connected : w.nconn ≡ sum_by live w.files
  pub to_read : w.nlefttoread ≡ sum_by unjoined w.files
  pub to_join : w.ndone ≡ sum_by counted w.files
  pub capped : w.nconn ≤ maxnconn
  pub found : w.place ≢ nothing_found
  pub all_read : w.place ≡ finished → w.nlefttoread ≡ 0

abbrev pub Keeps : ℕ → Option Web → Type 0
Keeps maxnconn none = Unit
Keeps maxnconn (some w) = Inv maxnconn w

-- The file found has not begun; none is found where all have.
abbrev pub Found : List File → Option ℕ → Type 0
Found fs none = sum_by fresh fs ≡ 0
Found fs (some i) = (i < length fs) × ((get_or fs i untouched).flags ≡ unused)

pub find_file-Found : (fs : List File) → Found fs (find_file fs)
unfolding find_file
find_file-Found [] = refl
find_file-Found (f ∷ fs) = go f.flags refl (find_file fs) (find_file-Found fs)
  where
    go :
        (fl : Flags)
        → f.flags ≡ fl
        → (r : Option ℕ) → Found fs r
        → Found (f ∷ fs) (here_or_behind fl r)
    go unused e r h = (omega arith, e)
    go connecting e none h = rw e (omega (arith, h))
    go connecting e (some i) h = (omega (arith, h.0), h.1)
    go reading e none h = rw e (omega (arith, h))
    go reading e (some i) h = (omega (arith, h.0), h.1)
    go done e none h = rw e (omega (arith, h))
    go done e (some i) h = (omega (arith, h.0), h.1)
    go joined e none h = rw e (omega (arith, h))
    go joined e (some i) h = (omega (arith, h.0), h.1)

-- A step that changes file `i` and the counters: what is left to see is the file before and after.
module _ (maxnconn : ℕ) (w : Web) (v : Inv maxnconn w) (i : ℕ) (here : i < length w.files) where
  -- The file at `i` as it is.
  abbrev old : File
  old = get_or w.files i untouched

  change-Inv :
      (f : File) (nconn nlefttoconn nlefttoread ndone : ℕ) (p : Place)
      → Fits f.thread f.flags
      → nlefttoconn + fresh old ≡ w.nlefttoconn + fresh f
      → nconn + live old ≡ w.nconn + live f
      → nlefttoread + unjoined old ≡ w.nlefttoread + unjoined f
      → ndone + counted old ≡ w.ndone + counted f
      → nconn ≤ maxnconn
      → p ≢ nothing_found
      → (p ≡ finished → nlefttoread ≡ 0)
      → Inv maxnconn (record {
        files = set w.files i f;
        nconn = nconn;
        nlefttoconn = nlefttoconn;
        nlefttoread = nlefttoread;
        ndone = ndone;
        place = p;
      })
  change-Inv f nconn nlefttoconn nlefttoread ndone p fit a b c d cap ok fin = record {
    fits = λ j.
        get_or-set_keeps (λ (g : File). Fits g.thread g.flags) w.files i j f untouched fit
          (v.fits j);
    to_connect = omega (arith, a, v.to_connect, sum_by-set fresh w.files i f untouched here);
    connected = omega (arith, b, v.connected, sum_by-set live w.files i f untouched here);
    to_read = omega (arith, c, v.to_read, sum_by-set unjoined w.files i f untouched here);
    to_join = omega (arith, d, v.to_join, sum_by-set counted w.files i f untouched here);
    capped = cap;
    found = ok;
    all_read = fin;
  }

  -- The files' weights where the flags and the thread at `i` are known.
  module _ (fl : Flags) (t : Thread) (ef : old.flags ≡ fl) (et : old.thread ≡ t) where
    pub weigh :
        (f : File) (nconn nlefttoconn nlefttoread ndone : ℕ) (p : Place)
        → Fits f.thread f.flags
        → nlefttoconn + fresh_at fl ≡ w.nlefttoconn + fresh f
        → nconn + live_at fl ≡ w.nconn + live f
        → nlefttoread + unjoined_at fl ≡ w.nlefttoread + unjoined f
        → ndone + counted_at fl t ≡ w.ndone + counted f
        → nconn ≤ maxnconn
        → p ≢ nothing_found
        → (p ≡ finished → nlefttoread ≡ 0)
        → Inv maxnconn (record {
          files = set w.files i f;
          nconn = nconn;
          nlefttoconn = nlefttoconn;
          nlefttoread = nlefttoread;
          ndone = ndone;
          place = p;
        })
    weigh f nconn nlefttoconn nlefttoread ndone p fit a b c d =
        change-Inv f nconn nlefttoconn nlefttoread ndone p fit (omega (arith, a, ap fresh_at ef))
          (omega (arith, b, ap live_at ef)) (omega (arith, c, ap unjoined_at ef))
          (omega (arith, d, ap (λ x. counted_at x old.thread) ef, ap (λ x. counted_at fl x) et))
