-- ===== src/Gai/Ports/Expand.antt =====
-- What ga_serv makes of the addresses that were found: the entries for each service, in order.
use my_unp.Prelude.{
  ℕ, zero, suc, ◌+◌, ◌*◌, ◌≡◌, ◌<◌, ◌≤◌, inl, inr, refl, ap, List, [], ◌∷◌, ◌++◌, length, Bool,
  true, false, if◌then◌else◌, Option, none, some, Text, isdigit, first_char, Bool-cases, arith,
}
use my_unp.Gai.{
  inet, inet6, sock_stream, sock_dgram, noname, Hints, Addrinfo, Result, ok, failed, M, ◌>>=◌,
}
use my_unp.Gai.Search.{entry}
use my_unp.Gai.Ports.{ga_port, with_port, check_found, port_number, ga_serv}

-- An IP address: a family of the two, and the bytes.
pub data Address : Type 0 where
  ipv4 : List ℕ → Address
  ipv6 : List ℕ → Address

abbrev pub address_entry : Hints → Address → Addrinfo
address_entry hints (ipv4 a) = entry hints a inet
address_entry hints (ipv6 a) = entry hints a inet6

-- The list that the search leaves.
abbrev pub entries : Hints → List Address → List Addrinfo
entries hints [] = []
entries hints (a ∷ rest) = address_entry hints a ∷ entries hints rest

-- The entry of an address for one socket type and port; AI_CLONE stands in the first one only.
abbrev pub at_port : Bool → Hints → ℕ → ℕ → Address → Addrinfo
at_port clone hints st port a = record (address_entry hints a) {
  clone = clone;
  socktype = st;
  port = port;
}

-- The services, by socket type: each address once for TCP and once for UDP, where there are ports for
-- them.
abbrev pub both : Hints → Option ℕ → Option ℕ → Address → List Addrinfo
both hints none none a = address_entry hints a ∷ []
both hints (some p) none a = at_port true hints sock_stream p a ∷ []
both hints none (some q) a = at_port true hints sock_dgram q a ∷ []
both hints (some p) (some q) a =
    at_port true hints sock_stream p a ∷ at_port false hints sock_dgram q a ∷ []

abbrev pub each : (Address → List Addrinfo) → List Address → List Addrinfo
each f [] = []
each f (a ∷ rest) = f a ++ each f rest

abbrev pub untyped : Hints → Hints
untyped hints = record hints { socktype = 0 }

one_more : {n : ℕ} → 1 + n ≡ suc n
one_more = omega arith

-- The first use of each entry.
abbrev one_each : Hints → ℕ → ℕ → Address → List Addrinfo
one_each hints st p a = at_port true hints st p a ∷ []

first_pass :
    (hints : Hints) (st p : ℕ) (addrs : List Address) (n : ℕ)
    → ga_port p st (entries (untyped hints) addrs) n
      ≡ ok (each (one_each (untyped hints) st p) addrs, length addrs) n
unfolding ga_port
first_pass hints st p [] n = refl
first_pass hints st p (ipv4 a ∷ rest) n = rw (first_pass hints st p rest n) (rw one_more refl)
first_pass hints st p (ipv6 a ∷ rest) n = rw (first_pass hints st p rest n) (rw one_more refl)

-- Two allocations for each address.
twice : ℕ → ℕ → ℕ
twice zero k = k
twice (suc m) k = suc (suc (twice m k))

second_pass :
    (hints : Hints) (s st p q : ℕ) (addrs : List Address) (k : ℕ)
    → ga_port q st (each (one_each hints (suc s) p) addrs) (twice (length addrs) k)
      ≡ ok
          (
            each (λ a. at_port true hints (suc s) p a ∷ at_port false hints st q a ∷ []) addrs,
            length addrs,
          )
          k
unfolding ga_port twice
second_pass hints s st p q [] k = refl
second_pass hints s st p q (ipv4 a ∷ rest) k =
    rw (second_pass hints s st p q rest k) (rw one_more refl)
second_pass hints s st p q (ipv6 a ∷ rest) k =
    rw (second_pass hints s st p q rest k) (rw one_more refl)

twice_split : (m n : ℕ) → 2 * m ≤ n → (k : ℕ) × (n ≡ twice m k)
unfolding twice
twice_split zero n h = (n, refl)
twice_split (suc m) zero h = absurd (omega (arith, h))
twice_split (suc m) (suc zero) h = absurd (omega (arith, h))
twice_split (suc m) (suc (suc n)) h =
    let (k, e) = twice_split m n (omega (arith, h)) in (k, ap (λ x. suc (suc x)) e)

check_found_some :
    (hints : Hints) (ais : List Addrinfo) (c n : ℕ)
    → 0 < c
    → check_found hints (ais, c) n ≡ ok ais n
check_found_some hints ais zero n h = absurd (omega (arith, h))
check_found_some hints ais (suc c) n h = refl

-- Both passes, by which of the ports there are.
abbrev passes : Hints → Option ℕ → Option ℕ → List Addrinfo → M (List Addrinfo)
passes hints p q ais n =
    (with_port p sock_stream (ais, 0) >>= λ r.
    with_port q sock_dgram r >>= λ r'. check_found hints r')
      n

abbrev pub Expands : Hints → Option ℕ → Option ℕ → List Address → Result (List Addrinfo) → Type 0
Expands hints none none addrs r = r ≡ failed noname
Expands hints (some p) none addrs r =
    (left : ℕ) × (r ≡ ok (each (both hints (some p) none) addrs) left)
Expands hints none (some q) addrs r =
    (left : ℕ) × (r ≡ ok (each (both hints none (some q)) addrs) left)
Expands hints (some p) (some q) addrs r =
    (left : ℕ) × (r ≡ ok (each (both hints (some p) (some q)) addrs) left)

passes-Expands :
    (hints : Hints) (p q : Option ℕ) (addrs : List Address) (n : ℕ)
    → 0 < length addrs
    → 2 * length addrs ≤ n
    → Expands
        (untyped hints)
        p
        q
        addrs
        (passes (untyped hints) p q (entries (untyped hints) addrs) n)
passes-Expands hints none none addrs n some_addr room = refl
passes-Expands hints (some p) none addrs n some_addr room = (
  n,
  rw (first_pass hints sock_stream p addrs n)
      (check_found_some (untyped hints) _ _ n (omega (arith, some_addr))),
)
passes-Expands hints none (some q) addrs n some_addr room = (
  n,
  rw (first_pass hints sock_dgram q addrs n)
      (check_found_some (untyped hints) _ _ n (omega (arith, some_addr))),
)
passes-Expands hints (some p) (some q) addrs n some_addr room =
    let (k, e) = twice_split (length addrs) n room in
    (
      k,
      rw (first_pass hints sock_stream p addrs n) (
          rw e (
            rw (second_pass (untyped hints) 0 sock_dgram p q addrs k)
              (check_found_some (untyped hints) _ _ k (omega (arith, some_addr))))),
    )

-- The port for a service: its number, or what getservbyname answers.
abbrev pub service_port : (Text → Option ℕ) → Text → Option ℕ
service_port lookup serv =
    if isdigit (first_char serv) then some (port_number serv) else lookup serv

-- ga_serv on the addresses found, where the caller gives no socket type and memory is enough: each address
-- in its order, with an entry for TCP and behind it one for UDP, at the ports of the service for
-- the two, or with the one entry whose service there is; EAI_NONAME where there is neither.
pub ga_serv-Expands :
    (tcp udp : Text → Option ℕ) (hints : Hints) (serv : Text) (addrs : List Address) (n : ℕ)
    → 0 < length addrs
    → 2 * length addrs ≤ n
    → Expands
        (untyped hints)
        (service_port tcp serv)
        (service_port udp serv)
        addrs
        (ga_serv tcp udp (untyped hints) serv (entries (untyped hints) addrs) n)
unfolding ga_serv
ga_serv-Expands tcp udp hints serv addrs n some_addr room =
    elim (Bool-cases (isdigit (first_char serv))) [
      | inl number ↦ rw number (
          passes-Expands hints (some (port_number serv)) (some (port_number serv)) addrs n some_addr
            room)
      | inr name ↦ rw name (passes-Expands hints (tcp serv) (udp serv) addrs n some_addr room)
    ]
