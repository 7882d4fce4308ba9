-- ===== src/Sigio/Queue/Contents.antt =====
-- What the ring holds, oldest first, and how the handler extends it.
use my_unp.Prelude.{
  ℕ, zero, suc, ◌+◌, ◌%◌, ◌≤◌, ◌<◌, ◌≡◌, refl, ◌∙◌, ap, ap₂, List, [], ◌∷◌, ◌++◌, arith, length,
  length-set, get_or, set, get_or-set_self, get_or-set_ne, append_assoc, append-nil, leb,
  Bool-cases, inl, inr, ◌⊎◌,
}
use my_unp.Sigio.Queue.{
  q_size, Datagram, no_datagram, Queue, Recv, datagram, recv_error, Handled, returned,
  receive_overflow, recvfrom_error, put, count_read, sig_io_loop, sig_io,
}

-- The `n` slots from `h` on, going round at QSIZE.
abbrev pub slots : List Datagram → ℕ → ℕ → List Datagram
slots dg h zero = []
slots dg h (suc n) = get_or dg h no_datagram ∷ slots dg ((h + 1) % 8) n

-- Writing just behind the slots in use appends.
slots-set :
    (dg : List Datagram) (d : Datagram) (n h i : ℕ)
    → 8 ≤ length dg
    → h < 8
    → n < 8
    → i ≡ (h + n) % 8
    → slots (set dg i d) h (suc n) ≡ slots dg h n ++ (d ∷ [])
slots-set dg d zero h i big hh hn e =
    let same : i ≡ h = omega arith in rw (same, get_or-set_self dg h d no_datagram (omega arith))
slots-set dg d (suc n) h i big hh hn e =
    ap₂ ◌∷◌ (get_or-set_ne dg i h d no_datagram (omega arith))
      (slots-set dg d n ((h + 1) % 8) i big (omega arith) (omega arith) (omega arith))

-- The ring, when the slots in use start at `h` and are `n`.
pub record Ring (q : Queue) (h n : ℕ) : Type 0 where
  pub slots_there : length q.dg ≡ 8
  pub counters_there : length q.cntread ≡ 9
  pub from_in : h < 8
  pub counts : q.nqueue ≡ n
  pub fits : n ≤ 8
  pub behind : q.iput ≡ (h + n) % 8

pub put-slots :
    (q : Queue) (d : Datagram) (h n : ℕ)
    → Ring q h n
    → n < 8
    → slots (put q d).dg h (suc n) ≡ slots q.dg h n ++ (d ∷ [])
unfolding put
put-slots q d h n v room = slots-set q.dg d n h q.iput (omega arith) v.from_in room v.behind

pub put-Ring : (q : Queue) (d : Datagram) (h n : ℕ) → Ring q h n → n < 8 → Ring (put q d) h (suc n)
unfolding put
put-Ring q d h n v room = ground (arith, length-set q.dg q.iput d)

-- The datagrams among what recvfrom handed back.
abbrev pub datagrams : List Recv → List Datagram
datagrams [] = []
datagrams (datagram d ∷ rs) = d ∷ datagrams rs
datagrams (recv_error e ∷ rs) = datagrams rs

-- What the handler has done when it returns, from `n` slots in use to `n` and those of `ds`. The
-- histogram is counted up at an index in range.
pub record Filled (q q' : Queue) (h n nread : ℕ) (ds : List Datagram) : Type 0 where
  pub ring : Ring q' h (n + length ds)
  pub appended : slots q'.dg h (n + length ds) ≡ slots q.dg h n ++ ds
  pub unmoved : q'.iget ≡ q.iget
  pub index_in : nread + length ds < 9
  pub histogram :
      q'.cntread ≡ set q.cntread (nread + length ds) (get_or q.cntread (nread + length ds) 0 + 1)
  pub had_room : n + length ds < 8

-- recvfrom fails with `e` somewhere in the list.
abbrev pub Fails : ℕ → List Recv → Type 0
Fails e [] = ⊥
Fails e (datagram d ∷ rs) = Fails e rs
Fails e (recv_error x ∷ rs) = (e ≡ x) ⊎ Fails e rs

-- How the handler ends, started with `n` slots in use from `h` on: a return has filled the ring;
-- the overflow exit needs a ring that the datagrams fill; the other exit needs an error.
abbrev pub Handles : Queue → ℕ → ℕ → ℕ → List Recv → Handled → Type 0
Handles q h n nread rs (returned q') = Filled q q' h n nread (datagrams rs)
Handles q h n nread rs receive_overflow = 8 ≤ n + length rs
Handles q h n nread rs (recvfrom_error e) = Fails e rs

-- One datagram more in front of what the rest of the loop has done.
Handles-datagram :
    (q : Queue) (h n nread : ℕ) (d : Datagram) (rs : List Recv) (r : Handled)
    → Ring q h n
    → n < 8
    → Handles (put q d) h (suc n) (nread + 1) rs r
    → Handles q h n nread (datagram d ∷ rs) r
unfolding put
Handles-datagram q h n nread d rs (returned q') v room f =
    let e : n + length (d ∷ datagrams rs) ≡ suc n + length (datagrams rs) = omega arith in
    let e' : nread + length (d ∷ datagrams rs) ≡ nread + 1 + length (datagrams rs) = omega arith in
    record {
      ring = rw e f.ring;
      appended = rw e (
          f.appended
          ∙ ap (λ p. p ++ datagrams rs) (put-slots q d h n v room)
          ∙ append_assoc (slots q.dg h n) (d ∷ []) (datagrams rs));
      unmoved = f.unmoved;
      index_in = rw e' f.index_in;
      histogram = rw e' f.histogram;
      had_room = rw e f.had_room;
    }
Handles-datagram q h n nread d rs receive_overflow v room f = omega arith
Handles-datagram q h n nread d rs (recvfrom_error e) v room f = f

sig_io_loop-Handles :
    (rs : List Recv) (nread : ℕ) (q : Queue) (h n : ℕ)
    → Ring q h n
    → nread ≤ n
    → Handles q h n nread rs (sig_io_loop nread q rs)
unfolding sig_io_loop count_read
sig_io_loop-Handles [] nread q h n v few = elim (Bool-cases (leb q_size q.nqueue)) [
  | inl full ↦ rw full (ground arith)
  | inr room ↦ rw room (record {
    ring = record {
      slots_there = v.slots_there;
      counters_there = length-set q.cntread nread (get_or q.cntread nread 0 + 1) ∙ v.counters_there;
      from_in = v.from_in;
      counts = omega arith;
      fits = omega arith;
      behind = ground arith;
    };
    appended = let e : n + 0 ≡ n = omega arith in rw (e, append-nil);
    unmoved = refl;
    index_in = ground arith;
    histogram = let e : nread + 0 ≡ nread = omega arith in rw e;
    had_room = ground arith;
  })
]
sig_io_loop-Handles (datagram d ∷ rs) nread q h n v few = elim (Bool-cases (leb q_size q.nqueue)) [
  | inl full ↦ rw (full, sig_io_loop) (ground arith)
  | inr room ↦
      rw (room, sig_io_loop)
        (Handles-datagram q h n nread d rs (sig_io_loop (nread + 1) (put q d) rs) v (ground arith) (
          sig_io_loop-Handles rs (nread + 1) (put q d) h (suc n) (put-Ring q d h n v (ground arith))
            (omega arith)))
]
sig_io_loop-Handles (recv_error e ∷ rs) nread q h n v few =
    elim (Bool-cases (leb q_size q.nqueue)) [
      | inl full ↦ rw (full, sig_io_loop) (ground arith)
      | inr room ↦ rw (room, sig_io_loop) (inl refl)
    ]

-- The SIGIO handler, with a ring of `n` datagrams from slot `h` on: a return has appended the
-- datagrams of recvfrom in order, moved no other slot, kept the ring, left fewer than QSIZE in it,
-- and counted up the histogram at an index in range; the overflow exit is taken only if the ring
-- and the answers of recvfrom make up QSIZE, and the other exit only if recvfrom failed.
pub sig_io-Handles :
    (rs : List Recv) (q : Queue) (h n : ℕ) → Ring q h n → Handles q h n 0 rs (sig_io q rs)
unfolding sig_io
sig_io-Handles rs q h n v = sig_io_loop-Handles rs 0 q h n v (omega arith)

-- The handler does not need a datagram to overflow: with QSIZE datagrams in the ring it ends the
-- process whatever recvfrom would hand back, also nothing.
pub sig_io_full : (rs : List Recv) (q : Queue) → q.nqueue ≡ 8 → sig_io q rs ≡ receive_overflow
unfolding sig_io sig_io_loop
sig_io_full [] q e = ground arith
sig_io_full (r ∷ rs) q e = ground arith
