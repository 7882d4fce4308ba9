-- ===== src/Icmpd/Table/Rounds.antt =====
-- Every round of the daemon keeps the table.
use my_unp.Prelude.{
  ℕ, zero, suc, ◌+◌, ◌-◌, ◌≡◌, refl, ap, subst, Bool, true, false, ◌&&◌, if◌then◌else◌, Option,
  none, some, replicate, get_or-replicate, FdSet, arith,
}
use my_unp.Icmpd.Packet.{Read, too_short, other, from_udp, read_v4}
use my_unp.Icmpd.{
  unused, Icmpd, Kernel, init, client_at, readable_listen, readable_conn, deliver, readable_v4,
  conn_loop, or_next, after_v4, v4_stage, round,
}
use my_unp.Icmpd.Table.{Tabled, connfds}
use my_unp.Icmpd.Table.Clients.{readable_listen-Tabled, readable_conn-Tabled}

conn_loop-Tabled :
    (k : Kernel) (rset : FdSet) (rounds i : ℕ) (s : Icmpd)
    → Tabled s
    → Tabled (conn_loop k rset rounds i s)
unfolding conn_loop
conn_loop-Tabled k rset zero i s v = v
conn_loop-Tabled k rset (suc rounds) i s v =
    go (client_at i s).connfd refl (conn_loop-Tabled k rset rounds (i + 1))
  where
    Behind : Type 0
    Behind = (t : Icmpd) → Tabled t → Tabled (conn_loop k rset rounds (i + 1) t)

    stop :
        (n : ℕ) (t : Icmpd)
        → Tabled t
        → Behind
        → Tabled (elim n [ zero ↦ t | suc _ ↦ conn_loop k rset rounds (i + 1) t ])
    stop zero t w rest = w
    stop (suc n) t w rest = rest t w

    ready :
        (b : Bool) (fd : ℕ)
        → connfds s.client i ≡ some fd
        → Behind
        → Tabled (elim b [
          | false ↦ conn_loop k rset rounds (i + 1) s
          | true ↦
              let s' = readable_conn i fd (k.conn i) s in
              elim s'.nready [ zero ↦ s' | suc _ ↦ conn_loop k rset rounds (i + 1) s' ]
        ])
    ready false fd here rest = rest s v
    ready true fd here rest =
        stop (readable_conn i fd (k.conn i) s).nready (readable_conn i fd (k.conn i) s)
          (readable_conn-Tabled i fd (k.conn i) s here v) rest

    go :
        (o : Option ℕ)
        → (client_at i s).connfd ≡ o
        → Behind
        → Tabled (elim o [
          | none ↦ conn_loop k rset rounds (i + 1) s
          | some sockfd ↦ elim (rset sockfd) [
            | false ↦ conn_loop k rset rounds (i + 1) s
            | true ↦
                let s' = readable_conn i sockfd (k.conn i) s in
                elim s'.nready [ zero ↦ s' | suc _ ↦ conn_loop k rset rounds (i + 1) s' ]
          ]
        ])
    go none e rest = rest s v
    go (some fd) e rest = ready (rset fd) fd e rest

-- What may be returned, or err_quit.
abbrev pub TabledIf : Option Icmpd → Type 0
TabledIf none = Unit
TabledIf (some s) = Tabled s

or_next-Tabled :
    (n : ℕ) (s : Icmpd) (f : Icmpd → Option Icmpd)
    → ((t : Icmpd) → Tabled t → TabledIf (f t))
    → Tabled s
    → TabledIf (or_next n s f)
or_next-Tabled zero s f rest v = v
or_next-Tabled (suc n) s f rest v = rest s v

v4_stage-Tabled : (k : Kernel) (rset : FdSet) (s : Icmpd) → Tabled s → TabledIf (v4_stage k rset s)
unfolding v4_stage readable_v4
v4_stage-Tabled k rset s v = go (rset s.fd4) (read_v4 k.recvfrom)
  where
    conns : Icmpd → Option Icmpd
    conns t = some (conn_loop k rset t.top 0 t)

    conns-Tabled : (t : Icmpd) → Tabled t → TabledIf (conns t)
    conns-Tabled t w = conn_loop-Tabled k rset t.top 0 t w

    go : (b : Bool) (r : Read) → TabledIf (if b then after_v4 (deliver r s) conns else conns s)
    go false r = conns-Tabled s v
    go true too_short = tt
    go true other =
        or_next-Tabled (s.nready - 1) (record s { nready = s.nready - 1 }) conns conns-Tabled v
    go true (from_udp sport e) = or_next-Tabled (s.nready - 1) _ conns conns-Tabled v

-- Accept gives a descriptor that is not in use.
round-Tabled :
    (k : Kernel) (s : Icmpd) → s.allset k.accept ≡ false → Tabled s → TabledIf (round k s)
unfolding round
round-Tabled k s fresh v = go (s.allset s.listenfd && k.ready s.listenfd)
  where
    rset : FdSet
    rset x = s.allset x && k.ready x

    s₀ : Icmpd
    s₀ = record s { nready = k.nready }

    go :
        (b : Bool)
        → TabledIf (
            if b
            then or_next
                (readable_listen k.accept s₀).nready
                (readable_listen k.accept s₀)
                (v4_stage k rset)
            else v4_stage k rset s₀)
    go true =
        or_next-Tabled (readable_listen k.accept s₀).nready (readable_listen k.accept s₀)
          (v4_stage k rset) (v4_stage-Tabled k rset) (readable_listen-Tabled k.accept s₀ fresh v)
    go false = v4_stage-Tabled k rset s₀ v

pub data Reach (fd_setsize fd4 listenfd : ℕ) : Icmpd → Type 0 where
  begin : Reach fd_setsize fd4 listenfd (init fd_setsize fd4 listenfd)
  later :
      {s t : Icmpd}
      → Reach fd_setsize fd4 listenfd s
      → (k : Kernel) → s.allset k.accept ≡ false
      → round k s ≡ some t
      → Reach fd_setsize fd4 listenfd t

init-Tabled : (fd_setsize fd4 listenfd : ℕ) → Tabled (init fd_setsize fd4 listenfd)
unfolding init
init-Tabled fd_setsize fd4 listenfd = record {
  free_behind = λ i _. nobody i;
  watched = λ i fd h. absurd (cc (nobody i));
  apart = λ i j fd h k. absurd (cc (nobody i));
  sockets = (ground arith, ground arith);
  no_socket = λ i fd h. absurd (cc (nobody i));
  below = λ fd h. ground arith;
}
  where
    nobody : (i : ℕ) → connfds (replicate fd_setsize unused) i ≡ none
    nobody i = ap (λ c. c.connfd) (get_or-replicate fd_setsize i unused)

-- In every state between two rounds of the daemon, if Accept gives descriptors that are not in use:
-- the entries of client behind maxi are free; no two entries have the same descriptor; allset has
-- the descriptors of all entries and of the two sockets, which no entry has; and none is above maxfd.
pub Reach-Table :
    {fd_setsize fd4 listenfd : ℕ} {s : Icmpd} → Reach fd_setsize fd4 listenfd s → Tabled s
Reach-Table {fd_setsize} {fd4} {listenfd} begin = init-Tabled fd_setsize fd4 listenfd
Reach-Table (later {s} {t} r k fresh e) = subst TabledIf e (round-Tabled k s fresh (Reach-Table r))
