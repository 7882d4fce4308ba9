-- ===== src/Tcpserv/Poll/Table.antt =====
-- The table of tcpsrvpoll01.c: where a new client goes, and that a round keeps it in order.
use my_unp.Prelude.{
  ℕ, zero, suc, ◌+◌, ◌-◌, ◌≤◌, ◌<◌, ◌≡◌, ◌≢◌, refl, ◌∙◌, sym, ap, subst, List, [], ◌∷◌, arith, true,
  leb, Option, none, some, length, get_or, replicate, get_or-replicate, get_or-set_ne,
  get_or-set_self, length-set, Bool-cases, Option-cases, inl, inr,
}
use my_unp.Tcpserv.Poll.{
  Pollfd, available, init, Server, Kernel, Outcome, running, too_many_clients, failed, find_free,
  take_if_free, accept_at, clients_from_one, accept_client, serve_clients, round,
}
use my_unp.Tcpserv.Poll.Serve.{Spares, Ends, serve_loop-Spares}

-- `find_free` on the slots from `i` on: the first free one, or all are taken.
abbrev pub FirstFree : ℕ → List Pollfd → Option ℕ → Type 0
FirstFree i ps none = (j : ℕ) → j < length ps → (get_or ps j available).fd ≢ none
FirstFree i ps (some r) =
    (d : ℕ) × (r ≡ i + d)
    × (d < length ps)
    × ((get_or ps d available).fd ≡ none)
    × ((j : ℕ) → j < d → (get_or ps j available).fd ≢ none)

take_if_free-FirstFree :
    (i : ℕ) (p : Pollfd) (ps : List Pollfd) (o r : Option ℕ)
    → p.fd ≡ o
    → FirstFree (i + 1) ps r
    → FirstFree i (p ∷ ps) (take_if_free i o r)
take_if_free-FirstFree i p ps none r e h =
    (0, omega arith, omega arith, e, λ j h. absurd (omega arith))
take_if_free-FirstFree i p ps (some fd) none e h = used
  where
    used : (j : ℕ) → j < suc (length ps) → (get_or (p ∷ ps) j available).fd ≢ none
    used zero lt q = cc
    used (suc j) lt q = h j (omega arith) q
take_if_free-FirstFree i p ps (some fd) (some r) e (d, at, fits, free, before) =
    (suc d, omega arith, omega arith, free, used)
  where
    used : (j : ℕ) → j < suc d → (get_or (p ∷ ps) j available).fd ≢ none
    used zero lt q = cc
    used (suc j) lt q = before j (omega arith) q

find_free-FirstFree : (i : ℕ) (ps : List Pollfd) → FirstFree i ps (find_free i ps)
unfolding find_free
find_free-FirstFree i [] = λ j h. absurd (omega arith)
find_free-FirstFree i (p ∷ ps) =
    take_if_free-FirstFree i p ps (p.fd) (find_free (i + 1) ps) refl
      (find_free-FirstFree (i + 1) ps)

-- The table: the listening socket in slot 0, and no client behind slot maxi.
pub record Inv (listenfd : ℕ) (s : Server) : Type 0 where
  pub room : 0 < length s.client
  pub listening : get_or s.client 0 available ≡ record { fd = some listenfd; events = true }
  pub free_behind : (j : ℕ) → s.maxi < j → (get_or s.client j available).fd ≡ none

-- A new client goes to the lowest free slot but 0, and into no other; with all taken it is refused.
abbrev pub Accepts : ℕ → ℕ → Server → Option Server → Type 0
Accepts listenfd connfd s none =
    (j : ℕ) → 1 ≤ j → j < length s.client → (get_or s.client j available).fd ≢ none
Accepts listenfd connfd s (some t) =
    (i : ℕ) × (1 ≤ i)
    × ((get_or s.client i available).fd ≡ none)
    × ((j : ℕ) → 1 ≤ j → j < i → (get_or s.client j available).fd ≢ none)
    × (get_or t.client i available ≡ record { fd = some connfd; events = true })
    × ((j : ℕ) → i ≢ j → get_or t.client j available ≡ get_or s.client j available)
    × (i ≤ t.maxi)
    × Inv listenfd t

module _ (listenfd connfd : ℕ) (s : Server) (p : Pollfd) (ps : List Pollfd)
    (e : s.client ≡ p ∷ ps) where
  behind_first :
      (j : ℕ)
      → 1 ≤ j
      → (get_or s.client j available).fd ≡ none
      → (get_or ps (j - 1) available).fd ≡ none
  behind_first zero h q = absurd (omega arith)
  behind_first (suc j) h q =
      let same : suc j - 1 ≡ j = omega arith in
      rw same (ap (λ (c : List Pollfd). (get_or c (suc j) available).fd) (sym e) ∙ q)

  accept_slot :
      (r : Option ℕ)
      → Inv listenfd s
      → FirstFree 1 ps r
      → Accepts listenfd connfd s (accept_at connfd s r)
  accept_slot none v h = λ j pos lt q. h (j - 1) (omega (arith, ap length e)) (behind_first j pos q)
  accept_slot (some i) v (d, at, fits, free, before) =
      let at' : i ≡ suc d = omega arith in
      let there : i < length s.client = omega (arith, ap length e) in
      (
        i,
        omega arith,
        rw at' (ap (λ (c : List Pollfd). (get_or c (suc d) available).fd) e ∙ free),
        λ j pos lt q. before (j - 1) (omega arith) (behind_first j pos q),
        get_or-set_self s.client i (record { fd = some connfd; events = true }) available there,
        λ j ne.
            get_or-set_ne s.client i j (record { fd = some connfd; events = true }) available ne,
        ground arith,
        record {
          room =
              omega
                (arith, v.room, length-set s.client i (record { fd = some connfd; events = true }));
          listening =
              get_or-set_ne s.client i 0 (record { fd = some connfd; events = true }) available
                (omega arith)
              ∙ v.listening;
          free_behind = λ j lt.
              ap (λ (q : Pollfd). q.fd)
                (get_or-set_ne s.client i j (record { fd = some connfd; events = true }) available
                  (ground arith))
              ∙ v.free_behind j (ground arith);
        },
      )

-- Accepting a client: it takes the lowest free slot but 0, the one of the listening socket; no
-- other slot changes, maxi covers the new slot, and the invariant is kept. It is refused only
-- with every slot taken.
pub accept_client-Accepts :
    (listenfd connfd : ℕ) (s : Server)
    → Inv listenfd s
    → Accepts listenfd connfd s (accept_client connfd s)
unfolding accept_client
accept_client-Accepts listenfd connfd s v = go s.client refl
  where
    go :
        (c : List Pollfd)
        → s.client ≡ c
        → Accepts listenfd connfd s (accept_at connfd s (find_free 1 (clients_from_one s.client)))
    go [] e = absurd (omega (arith, v.room, ap length e))
    go (p ∷ ps) e =
        accept_slot listenfd connfd s p ps e (find_free 1 (clients_from_one s.client)) v
          (rw e (find_free-FirstFree 1 ps))

Spares-Inv : {listenfd m : ℕ} {s t : Server} → Spares m s t → Inv listenfd s → Inv listenfd t
Spares-Inv {listenfd} {m} {s} {t} p v = record {
  room = omega (arith, p.length_kept, v.room);
  listening = p.first_kept ∙ v.listening;
  free_behind = λ j lt. p.stays_free j (v.free_behind j (omega (arith, p.maxi_kept)));
}

serve_clients-Inv :
    (listenfd : ℕ) (k : Kernel) (nready : ℕ) (s : Server)
    → Inv listenfd s
    → Ends (Inv listenfd) (serve_clients k nready s)
serve_clients-Inv listenfd k nready s v =
    go (serve_clients k nready s)
      (serve_loop-Spares (s.maxi + 1) k (s.maxi - 1) 1 nready s (omega arith) (omega arith))
  where
    go : (r : Outcome) → Ends (Spares (s.maxi + 1) s) r → Ends (Inv listenfd) r
    go (running t) h = Spares-Inv h v
    go too_many_clients h = tt
    go (failed t) h = Spares-Inv h v

-- The table before the loop is in order.
init-Inv : (open_max listenfd : ℕ) → Inv listenfd (init open_max listenfd)
unfolding init
init-Inv open_max listenfd = record { room = omega arith; listening = refl; free_behind = behind }
  where
    behind :
        (j : ℕ)
        → 0 < j
        → (get_or
            (record { fd = some listenfd; events = true } ∷ replicate (open_max - 1) available)
            j
            available).fd
          ≡ none
    behind zero h = absurd (omega (arith, h))
    behind (suc j) h = ap (λ (q : Pollfd). q.fd) (get_or-replicate (open_max - 1) j available)

-- A round keeps the table in order, where it goes on and where read or Writen ends it in err_sys: the
-- listening socket stays in slot 0, asked for input, and no client is behind slot maxi. The table
-- is in order before the first round.
pub round-Inv :
    (listenfd : ℕ) (k : Kernel) (s : Server)
    → Inv listenfd s
    → Ends (Inv listenfd) (round k s) × ((open_max : ℕ) → Inv listenfd (init open_max listenfd))
unfolding round
round-Inv listenfd k s v = (kept, λ open_max. init-Inv open_max listenfd)
  where
    kept : Ends (Inv listenfd) (round k s)
    kept = elim (Bool-cases (k.revents 0)) [
      | inr quiet ↦ rw quiet (serve_clients-Inv listenfd k k.nready s v)
      | inl incoming ↦ elim (Option-cases (accept_client k.connfd s)) [
        | inl refused ↦ rw (incoming, refused) tt
        | inr (s', ok) ↦
            let v' =
              (subst (Accepts listenfd k.connfd s) ok
                (accept_client-Accepts listenfd k.connfd s v)).7 in
            elim (Bool-cases (leb k.nready 1)) [
              | inl last ↦ rw (incoming, ok, last) v'
              | inr more ↦
                  rw (incoming, ok, more) (serve_clients-Inv listenfd k (k.nready - 1) s' v')
            ]
      ]
    ]
