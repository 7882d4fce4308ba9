-- ===== src/Icmpd/Table/Clients.antt =====
-- What the daemon does with one client keeps the table.
use my_unp.Prelude.{
  ℕ, zero, suc, ◌+◌, ◌≤◌, ◌<◌, ◌≡◌, ◌≢◌, ◌⊎◌, inl, inr, refl, sym, ap, fun_ext, List, [], ◌∷◌, Bool,
  true, false, ltb, ◌==◌, if◌then◌else◌, Option, none, some, length, get_or, set, get_or-set_self,
  get_or-set_ne, get_or_out, equal?, arith,
}
use my_unp.Icmpd.{
  Client, unused, Icmpd, ReadFd, client_ended, no_descriptor, passed, Conn, find_available,
  first_if_free, with_connfd, save_client, readable_listen, client_done, write_to, with_address,
  at_address, known_port, named_socket, error_occurred, minus_one, answer_client, readable_conn,
}
use my_unp.Icmpd.Table.{Tabled, connfds, updated, new-Table, clear-Table}

connfds-set :
    (cs : List Client) (i : ℕ) (v : Option ℕ)
    → i < length cs
    → connfds (set cs i (with_connfd v (get_or cs i unused))) ≡ updated i v (connfds cs)
connfds-set cs i v h = fun_ext (λ j. go j (j == i) refl)
  where
    go :
        (j : ℕ) (b : Bool)
        → (j == i) ≡ b
        → connfds (set cs i (with_connfd v (get_or cs i unused))) j
          ≡ (if b then v else connfds cs j)
    go j true e =
        let same : j ≡ i = ground arith in
        rw same
          (ap (λ c. c.connfd) (get_or-set_self cs i (with_connfd v (get_or cs i unused)) unused h))
    go j false e =
        ap (λ c. c.connfd)
          (get_or-set_ne cs i j (with_connfd v (get_or cs i unused)) unused (λ q. ground arith))

connfds-address :
    (cs : List Client) (i family lport : ℕ)
    → i < length cs
    → connfds (set cs i (with_address family lport (get_or cs i unused))) ≡ connfds cs
connfds-address cs i family lport h = fun_ext (λ j. go j (equal? i j))
  where
    go :
        (j : ℕ)
        → (i ≡ j) ⊎ (i ≢ j)
        → connfds (set cs i (with_address family lport (get_or cs i unused))) j ≡ connfds cs j
    go j (inl e) = rw (sym e) (
        ap (λ c. c.connfd)
          (get_or-set_self cs i (with_address family lport (get_or cs i unused)) unused h))
    go j (inr n) =
        ap (λ c. c.connfd)
          (get_or-set_ne cs i j (with_address family lport (get_or cs i unused)) unused n)

Found : Option ℕ → ℕ → ℕ → Type 0
Found none i n = Unit
Found (some j) i n = (i ≤ j) × (j < i + n)

find_available-Found : (cs : List Client) (i : ℕ) → Found (find_available i cs) i (length cs)
unfolding find_available Found
find_available-Found [] i = tt
find_available-Found (c ∷ cs) i =
    go c.connfd (find_available (i + 1) cs) (find_available-Found cs (i + 1))
  where
    go :
        (o r : Option ℕ)
        → Found r (i + 1) (length cs)
        → Found (first_if_free i o r) i (suc (length cs))
    go none r h = (omega arith, omega arith)
    go (some fd) none h = tt
    go (some fd) (some j) h = (omega (arith, h.0), omega (arith, h.1))

pub readable_listen-Tabled :
    (connfd : ℕ) (s : Icmpd)
    → s.allset connfd ≡ false
    → Tabled s
    → Tabled (readable_listen connfd s)
unfolding readable_listen Found
readable_listen-Tabled connfd s fresh v =
    go (find_available 0 s.client) (find_available-Found s.client 0)
  where
    go : (r : Option ℕ) → Found r 0 (length s.client) → Tabled (save_client connfd s r)
    go none h = v
    go (some i) h =
        rw (connfds-set s.client i (some connfd) (omega (arith, h.1)))
          (new-Table (connfds s.client) s.top s.maxfd s.fd4 s.listenfd s.allset i connfd fresh v)

there : (i fd : ℕ) (s : Icmpd) → connfds s.client i ≡ some fd → i < length s.client
there i fd s h = go (ltb i (length s.client)) refl
  where
    go : (b : Bool) → ltb i (length s.client) ≡ b → i < length s.client
    go true e = ground arith
    go false e =
        let out = get_or_out s.client i unused (ground arith) in
        absurd (cc (ap (λ c. c.connfd) out))

client_done-Tabled :
    (i unixfd : ℕ) (recvfd : Option ℕ) (s : Icmpd)
    → connfds s.client i ≡ some unixfd
    → Tabled s
    → Tabled (client_done i unixfd recvfd s)
client_done-Tabled i unixfd recvfd s here v =
    rw (connfds-set s.client i none (there i unixfd s here))
      (clear-Table (connfds s.client) s.top s.maxfd s.fd4 s.listenfd s.allset i unixfd here v)

at_address-Tabled :
    (i unixfd family lport : ℕ) (s : Icmpd)
    → connfds s.client i ≡ some unixfd
    → Tabled s
    → Tabled (at_address i family lport s)
      × (connfds (at_address i family lport s).client i ≡ some unixfd)
at_address-Tabled i unixfd family lport s here v =
    let same = connfds-address s.client i family lport (there i unixfd s here) in
    (rw same v, rw same here)

known_port-Tabled :
    (i unixfd recvfd family lport : ℕ) (wild : Option ℕ) (s : Icmpd)
    → connfds s.client i ≡ some unixfd
    → Tabled s
    → Tabled (known_port i unixfd recvfd family lport wild s)
known_port-Tabled i unixfd recvfd family (suc lport) wild s here v =
    (at_address-Tabled i unixfd family (suc lport) s here v).0
known_port-Tabled i unixfd recvfd family zero (some (suc lport)) s here v =
    (at_address-Tabled i unixfd family (suc lport) s here v).0
known_port-Tabled i unixfd recvfd family zero (some zero) s here v =
    let a = at_address-Tabled i unixfd family zero s here v in
    client_done-Tabled i unixfd (some recvfd)
      (write_to unixfd error_occurred (at_address i family zero s)) a.1 a.0
known_port-Tabled i unixfd recvfd family zero none s here v =
    let a = at_address-Tabled i unixfd family minus_one s here v in
    client_done-Tabled i unixfd (some recvfd)
      (write_to unixfd error_occurred (at_address i family minus_one s)) a.1 a.0

pub readable_conn-Tabled :
    (i unixfd : ℕ) (k : Conn) (s : Icmpd)
    → connfds s.client i ≡ some unixfd
    → Tabled s
    → Tabled (readable_conn i unixfd k s)
unfolding readable_conn
readable_conn-Tabled i unixfd k s here v = go k.read_fd k.sockname
  where
    named :
        (r : Option (ℕ × ℕ)) (recvfd : ℕ) → Tabled (named_socket i unixfd recvfd r k.bind_wild s)
    named none recvfd =
        client_done-Tabled i unixfd (some recvfd) (write_to unixfd error_occurred s) here v
    named (some a) recvfd = known_port-Tabled i unixfd recvfd a.0 a.1 k.bind_wild s here v

    go : (r : ReadFd) (a : Option (ℕ × ℕ)) → Tabled (answer_client i unixfd r k s)
    go (client_ended recvfd) a = client_done-Tabled i unixfd recvfd s here v
    go no_descriptor a = client_done-Tabled i unixfd none (write_to unixfd error_occurred s) here v
    go (passed recvfd) a = named k.sockname recvfd
