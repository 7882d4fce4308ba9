-- ===== src/Icmpd/Table.antt =====
-- The daemon's table of clients and its descriptor set fit each other after every round.
pub mod Clients
pub mod Rounds
use my_unp.Prelude.{
  ℕ, zero, suc, ◌+◌, ◌-◌, ◌≤◌, ◌<◌, ◌≡◌, ◌≢◌, ◌⊎◌, inl, inr, refl, ◌∙◌, sym, ap, subst, fun_ext,
  List, [], ◌∷◌, Bool, true, false, ◌&&◌, ltb, ◌==◌, if◌then◌else◌, Option, none, some, length,
  get_or, set, replicate, get_or-set_self, get_or-set_ne, get_or_out, get_or-replicate, FdSet,
  fd_put, equal?, arith,
}
use my_unp.Icmpd.Packet.{IcmpDatagram, Read, too_short, other, from_udp, read_v4}
use my_unp.Icmpd.{
  Client, unused, Icmpd, ReadFd, client_ended, no_descriptor, passed, Conn, Kernel, init, client_at,
  find_available, first_if_free, with_connfd, save_client, readable_listen, client_done, write_to,
  client_err, with_address, registered, at_address, known_port, named_socket, answer_client,
  readable_conn, deliver, readable_v4, conn_loop, or_next, after_v4, v4_stage, round,
}

-- The entries behind maxi are free; the descriptor set has the two sockets and every client, none
-- above maxfd; and no two entries have the same descriptor, nor any that of one of the two sockets.
pub record Table (at : ℕ → Option ℕ) (top maxfd fd4 listenfd : ℕ) (allset : FdSet) : Type 0 where
  pub free_behind : (i : ℕ) → top ≤ i → at i ≡ none
  pub watched : (i fd : ℕ) → at i ≡ some fd → allset fd ≡ true
  pub apart : (i j fd : ℕ) → at i ≡ some fd → at j ≡ some fd → i ≡ j
  pub sockets : (allset fd4 ≡ true) × (allset listenfd ≡ true)
  pub no_socket : (i fd : ℕ) → at i ≡ some fd → (fd ≢ fd4) × (fd ≢ listenfd)
  pub below : (fd : ℕ) → allset fd ≡ true → fd ≤ maxfd

abbrev pub connfds : List Client → ℕ → Option ℕ
connfds cs i = (get_or cs i unused).connfd

abbrev pub Tabled : Icmpd → Type 0
Tabled s = Table (connfds s.client) s.top s.maxfd s.fd4 s.listenfd s.allset

abbrev pub updated : ℕ → Option ℕ → (ℕ → Option ℕ) → ℕ → Option ℕ
updated i v at j = if j == i then v else at j

some_inj : (x y : ℕ) → some x ≡ some y → x ≡ y
some_inj x y h = cc

-- An entry other than `i` is as before.
updated-cases :
    (i j fd : ℕ) (v : Option ℕ) (at : ℕ → Option ℕ)
    → updated i v at j ≡ some fd
    → ((j ≡ i) × (v ≡ some fd)) ⊎ ((j ≢ i) × (at j ≡ some fd))
updated-cases i j fd v at h = go (j == i) refl h
  where
    go :
        (b : Bool)
        → (j == i) ≡ b
        → (if b then v else at j) ≡ some fd
        → ((j ≡ i) × (v ≡ some fd)) ⊎ ((j ≢ i) × (at j ≡ some fd))
    go true e q = inl (ground arith, q)
    go false e q = inr (λ same. ground arith, q)

fd_put-keeps : (fd x : ℕ) (s : FdSet) → s x ≡ true → fd_put fd true s x ≡ true
fd_put-keeps fd x s h = go (x == fd)
  where
    go : (b : Bool) → (if b then true else s x) ≡ true
    go true = refl
    go false = h

fd_put_here : (fd x : ℕ) (s : FdSet) → x ≡ fd → fd_put fd true s x ≡ true
fd_put_here fd x s h = ground arith

fd_put-clears : (fd x : ℕ) (s : FdSet) → x ≢ fd → s x ≡ true → fd_put fd false s x ≡ true
fd_put-clears fd x s n h = go (x == fd) refl
  where
    go : (b : Bool) → (x == fd) ≡ b → (if b then false else s x) ≡ true
    go true e = absurd (n (ground arith))
    go false e = h

put_cases :
    (fd x : ℕ) (v : Bool) (s : FdSet)
    → fd_put fd v s x ≡ true
    → ((x ≡ fd) × (v ≡ true)) ⊎ (s x ≡ true)
put_cases fd x v s h = go (x == fd) refl h
  where
    go :
        (b : Bool)
        → (x == fd) ≡ b
        → (if b then v else s x) ≡ true
        → ((x ≡ fd) × (v ≡ true)) ⊎ (s x ≡ true)
    go true e q = inl (ground arith, q)
    go false e q = inr q

module _ (at : ℕ → Option ℕ) (top maxfd fd4 listenfd : ℕ) (allset : FdSet) where
  pub new-Table :
      (i connfd : ℕ)
      → allset connfd ≡ false
      → Table at top maxfd fd4 listenfd allset
      → Table
          (updated i (some connfd) at)
          (if ltb top (i + 1) then i + 1 else top)
          (if ltb maxfd connfd then connfd else maxfd)
          fd4
          listenfd
          (fd_put connfd true allset)
  new-Table i connfd fresh v = record {
    free_behind = λ j h. behind j h;
    watched = λ j fd h. elim (updated-cases i j fd (some connfd) at h) [
      | inl (_, q) ↦ fd_put_here connfd fd allset (sym (some_inj connfd fd q))
      | inr (_, q) ↦ fd_put-keeps connfd fd allset (v.watched j fd q)
    ];
    apart = λ j m fd h k.
        one j m fd (updated-cases i j fd (some connfd) at h)
          (updated-cases i m fd (some connfd) at k);
    sockets = (
      fd_put-keeps connfd fd4 allset v.sockets.0,
      fd_put-keeps connfd listenfd allset v.sockets.1,
    );
    no_socket = λ j fd h. elim (updated-cases i j fd (some connfd) at h) [
      | inl (_, q) ↦ other_socket fd (some_inj connfd fd q)
      | inr (_, q) ↦ v.no_socket j fd q
    ];
    below = λ fd h. elim (put_cases connfd fd true allset h) [
      | inl (q, _) ↦ ground arith
      | inr q ↦ ground (arith, v.below fd q)
    ];
  }
    where
      behind :
          (j : ℕ)
          → (if ltb top (i + 1) then i + 1 else top) ≤ j
          → updated i (some connfd) at j ≡ none
      behind j h = ground (arith, v.free_behind j (ground arith))

      clash : (j fd : ℕ) → some connfd ≡ some fd → at j ≡ some fd → ⊥
      clash j fd q r = absurd (ground (arith, v.watched j fd r, some_inj connfd fd q, fresh))

      one :
          (j m fd : ℕ)
          → ((j ≡ i) × (some connfd ≡ some fd)) ⊎ ((j ≢ i) × (at j ≡ some fd))
          → ((m ≡ i) × (some connfd ≡ some fd)) ⊎ ((m ≢ i) × (at m ≡ some fd))
          → j ≡ m
      one j m fd (inl (e, q)) (inl (f, r)) = e ∙ sym f
      one j m fd (inl (e, q)) (inr (f, r)) = absurd (clash m fd q r)
      one j m fd (inr (e, q)) (inl (f, r)) = absurd (clash j fd r q)
      one j m fd (inr (e, q)) (inr (f, r)) = v.apart j m fd q r

      other_socket : (fd : ℕ) → connfd ≡ fd → (fd ≢ fd4) × (fd ≢ listenfd)
      other_socket fd e = (λ same. absurd (cc v.sockets.0), λ same. absurd (cc v.sockets.1))

  pub clear-Table :
      (i unixfd : ℕ)
      → at i ≡ some unixfd
      → Table at top maxfd fd4 listenfd allset
      → Table (updated i none at) top maxfd fd4 listenfd (fd_put unixfd false allset)
  clear-Table i unixfd here v = record {
    free_behind = λ j h. ground (arith, v.free_behind j h);
    watched = λ j fd h. elim (updated-cases i j fd none at h) [
      | inl (_, q) ↦ absurd cc
      | inr (ne, q) ↦
          fd_put-clears unixfd fd allset (λ same. ne (v.apart j i fd q (here ∙ ap some (sym same))))
            (v.watched j fd q)
    ];
    apart =
        λ j m fd h k. one j m fd (updated-cases i j fd none at h) (updated-cases i m fd none at k);
    sockets = (
      fd_put-clears unixfd fd4 allset (λ e. (v.no_socket i unixfd here).0 (sym e)) v.sockets.0,
      fd_put-clears unixfd listenfd allset (λ e. (v.no_socket i unixfd here).1 (sym e)) v.sockets.1,
    );
    no_socket = λ j fd h. elim (updated-cases i j fd none at h) [
      | inl (_, q) ↦ absurd cc
      | inr (_, q) ↦ v.no_socket j fd q
    ];
    below = λ fd h. elim (put_cases unixfd fd false allset h) [
      | inl (_, q) ↦ absurd cc
      | inr q ↦ v.below fd q
    ];
  }
    where
      one :
          (j m fd : ℕ)
          → ((j ≡ i) × (none ≡ some fd)) ⊎ ((j ≢ i) × (at j ≡ some fd))
          → ((m ≡ i) × (none ≡ some fd)) ⊎ ((m ≢ i) × (at m ≡ some fd))
          → j ≡ m
      one j m fd (inl (e, q)) w = absurd cc
      one j m fd (inr (e, q)) (inl (f, r)) = absurd cc
      one j m fd (inr (e, q)) (inr (f, r)) = v.apart j m fd q r
