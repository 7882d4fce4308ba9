-- ===== src/Nonblock/Web/Watched.antt =====
-- nonblock/web.c: no connection is lost from the sets that Select is given, and the counters are right.
pub mod Files
pub mod Rounds
use my_unp.Prelude.{
  FdSet, fd_put, fd_put_self, fd_put_ne, equal?, ℕ, zero, suc, ◌+◌, ◌-◌, ◌≤◌, ◌<◌, ◌≡◌, ◌≢◌, refl,
  ◌∙◌, sym, ap, subst, inl, inr, List, [], ◌∷◌, Bool, true, false, length, get_or, set,
  get_or-set_self, get_or-set_ne, sum_by, sum_by-set, arith,
}
use my_unp.Nonblock.Web.{Status, unused, connecting, reading, done, WebFile, untouched, Globals}

-- Select is given the descriptor of a file that connects for reading and writing, and that of a file
-- that is read from for reading.
abbrev pub Watched : FdSet → FdSet → ℕ → Status → ℕ → Type 0
Watched rset wset maxfd unused fd = Unit
Watched rset wset maxfd connecting fd = (rset fd ≡ true) × (wset fd ≡ true) × (fd ≤ maxfd)
Watched rset wset maxfd reading fd = (rset fd ≡ true) × (fd ≤ maxfd)
Watched rset wset maxfd done fd = Unit

-- Weights: not begun, with a connection, not done.
abbrev pub fresh_at : Status → ℕ
fresh_at unused = 1
fresh_at connecting = 0
fresh_at reading = 0
fresh_at done = 0

abbrev pub live_at : Status → ℕ
live_at unused = 0
live_at connecting = 1
live_at reading = 1
live_at done = 0

abbrev pub undone_at : Status → ℕ
undone_at unused = 1
undone_at connecting = 1
undone_at reading = 1
undone_at done = 0

abbrev pub fresh : WebFile → ℕ
fresh f = fresh_at f.flags

abbrev pub live : WebFile → ℕ
live f = live_at f.flags

abbrev pub undone : WebFile → ℕ
undone f = undone_at f.flags

pub record Inv (maxnconn : ℕ) (w : Globals) : Type 0 where
  pub to_connect : w.nlefttoconn ≡ sum_by fresh w.file
  pub connected : w.nconn ≡ sum_by live w.file
  pub to_read : w.nlefttoread ≡ sum_by undone w.file
  pub capped : w.nconn ≤ maxnconn
  pub watched :
      (i : ℕ)
      → Watched w.rset w.wset w.maxfd
          ((get_or w.file i untouched).flags)
          ((get_or w.file i untouched).fd)
  pub apart :
      (i j : ℕ)
      → live (get_or w.file i untouched) ≡ 1
      → live (get_or w.file j untouched) ≡ 1
      → (get_or w.file i untouched).fd ≡ (get_or w.file j untouched).fd
      → i ≡ j

-- Sets that are the same at the descriptor watch the file as before.
Watched-same :
    (r w r' w' : FdSet) (m m' : ℕ) (s : Status) (fd : ℕ)
    → (live_at s ≡ 1 → r' fd ≡ r fd)
    → (live_at s ≡ 1 → w' fd ≡ w fd)
    → m ≤ m'
    → Watched r w m s fd
    → Watched r' w' m' s fd
Watched-same r w r' w' m m' unused fd a b up h = tt
Watched-same r w r' w' m m' connecting fd a b up h =
    (a refl ∙ h.0, b refl ∙ h.1, omega (arith, h.2, up))
Watched-same r w r' w' m m' reading fd a b up h = (a refl ∙ h.0, omega (arith, h.1, up))
Watched-same r w r' w' m m' done fd a b up h = tt

-- A step that changes file `i` to `f`, and the sets at most at its descriptor, which no other file
-- with a connection has.
module _ (maxnconn : ℕ) (w : Globals) (v : Inv maxnconn w) (i : ℕ) (here : i < length w.file)
    (f : WebFile) where
  pub change-Inv :
      (nconn nlefttoconn nlefttoread maxfd : ℕ) (rset wset : FdSet)
      → nlefttoconn + fresh (get_or w.file i untouched) ≡ w.nlefttoconn + fresh f
      → nconn + live (get_or w.file i untouched) ≡ w.nconn + live f
      → nlefttoread + undone (get_or w.file i untouched) ≡ w.nlefttoread + undone f
      → nconn ≤ maxnconn
      → ((x : ℕ) → x ≢ f.fd → rset x ≡ w.rset x)
      → ((x : ℕ) → x ≢ f.fd → wset x ≡ w.wset x)
      → w.maxfd ≤ maxfd
      → Watched rset wset maxfd f.flags f.fd
      → ((j : ℕ)
          → i ≢ j
          → live (get_or w.file j untouched) ≡ 1
          → (get_or w.file j untouched).fd ≢ f.fd)
      → Inv maxnconn (record {
        file = set w.file i f;
        nconn = nconn;
        nlefttoconn = nlefttoconn;
        nlefttoread = nlefttoread;
        maxfd = maxfd;
        rset = rset;
        wset = wset;
      })
  change-Inv nconn nlefttoconn nlefttoread maxfd rset wset a b c cap same_r same_w up watch others =
      record {
        to_connect = omega (arith, a, v.to_connect, sum_by-set fresh w.file i f untouched here);
        connected = omega (arith, b, v.connected, sum_by-set live w.file i f untouched here);
        to_read = omega (arith, c, v.to_read, sum_by-set undone w.file i f untouched here);
        capped = cap;
        watched = λ j. elim (equal? i j) [
          | inl same ↦ at_own j same
          | inr other ↦ subst Seen (sym (get_or-set_ne w.file i j f untouched other)) (
              Watched-same w.rset w.wset rset wset w.maxfd maxfd _ _
                (λ l. same_r _ (others j other l)) (λ l. same_w _ (others j other l)) up
                (v.watched j))
        ];
        apart = λ j k l m e. elim (equal? i j) [
          | inl mine ↦ elim (equal? i k) [
            | inl too ↦ sym mine ∙ too
            | inr other ↦
                absurd (others k other (kept k other m) (kept_fd k other ∙ sym e ∙ own_fd j mine))
          ]
          | inr other ↦ elim (equal? i k) [
            | inl too ↦
                absurd (others j other (kept j other l) (kept_fd j other ∙ e ∙ own_fd k too))
            | inr also ↦
                v.apart j k (kept j other l) (kept k also m)
                  (kept_fd j other ∙ e ∙ sym (kept_fd k also))
          ]
        ];
      }
    where
      Seen : WebFile → Type 0
      Seen g = Watched rset wset maxfd g.flags g.fd

      own : (j : ℕ) → i ≡ j → get_or (set w.file i f) j untouched ≡ f
      own j e =
          ap (λ x. get_or (set w.file i f) x untouched) (sym e)
          ∙ get_or-set_self w.file i f untouched here

      at_own : (j : ℕ) → i ≡ j → Seen (get_or (set w.file i f) j untouched)
      at_own j e = subst Seen (sym (own j e)) watch

      own_fd : (j : ℕ) → i ≡ j → (get_or (set w.file i f) j untouched).fd ≡ f.fd
      own_fd j e = ap (λ (g : WebFile). g.fd) (own j e)

      kept_fd :
          (j : ℕ)
          → i ≢ j
          → (get_or w.file j untouched).fd ≡ (get_or (set w.file i f) j untouched).fd
      kept_fd j ne = ap (λ (g : WebFile). g.fd) (sym (get_or-set_ne w.file i j f untouched ne))

      kept :
          (j : ℕ)
          → i ≢ j
          → live (get_or (set w.file i f) j untouched) ≡ 1
          → live (get_or w.file j untouched) ≡ 1
      kept j ne l = ap live (sym (get_or-set_ne w.file i j f untouched ne)) ∙ l
