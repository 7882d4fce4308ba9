-- ===== src/Gai/Names/RoundTrip.antt =====
-- The numeric names of an address, given to getaddrinfo, lead back to the address.
use my_unp.Prelude.{
  ℕ, suc, ◌+◌, ◌-◌, ◌%◌, ◌≡◌, ◌<◌, ◌≤◌, refl, ap, ◌∙◌, [], ◌∷◌, length, take, take_all, Bool, true,
  false, ◌&&◌, ◌||◌, ◌==◌, Option, none, some, Text, contains, isdigit, isxdigit, first_char, arith,
  decimal, atoi-print, print-first_char,
}
use my_unp.Gai.{inet, inet6, sock_stream, sock_dgram, ok}
use my_unp.Gai.Ports.{port_number, ga_port, ga_serv}
use my_unp.Gai.Ports.Expand.{Address, ipv4, ipv6, address_entry, at_port}
use my_unp.Gai.Search.{
  search_of, Resolver, Found, read_dotted, search_one, search_all, ga_aistruct, ga_echeck,
  ga_nsearch,
}
use my_unp.Gai.Lookup.{getaddrinfo, no_hints}
use my_unp.Gai.Names.{
  NameResolver, NameFlags, SockAddr, sockaddr_in, sockaddr_in6, named, gn_ipv46, getnameinfo,
}

port_number-decimal : (port : ℕ) → port < 65536 → port_number (decimal port) ≡ port
port_number-decimal port h =
    ap (λ n. n % 65536) (atoi-print (port + 1) port [] (omega arith)) ∙ small
  where
    small : port % 65536 ≡ port
    small = omega (arith, h)

-- inet_pton reads the text as this address, and by its first characters getaddrinfo comes to ask it.
abbrev pub ReadsBack : Resolver → Text → Address → Type 0
ReadsBack r t (ipv4 a) = (isdigit (first_char t) ≡ true) × (r.pton4 t ≡ some a)
ReadsBack r t (ipv6 a) =
    (read_dotted r t ≡ none)
    × (((isxdigit (first_char t) || first_char t == b':') && contains b':' t) ≡ true)
    × (r.pton6 t ≡ some a)

abbrev nothing : Found
nothing = record { list = []; canon = none }

-- Of the two searches one adds the address.
search_both :
    (r : Resolver) (t : Text) (addr : Address) (k : ℕ)
    → ReadsBack r t addr
    → search_all r no_hints true false
        (search_of t inet6 ∷ search_of t inet ∷ [])
        nothing
        (suc (suc k))
      ≡ ok (record { list = address_entry no_hints addr ∷ []; canon = none }) k
unfolding search_all search_one ga_aistruct
search_both r t (ipv4 a) k (digit, reads) = rw (digit, reads) refl
search_both r t (ipv6 a) k (not_dotted, hex, reads) = rw (not_dotted, hex, reads) refl

-- The service is a port number.
serv_entries :
    (tcp udp : Text → Option ℕ) (serv : Text) (addr : Address) (k : ℕ)
    → isdigit (first_char serv) ≡ true
    → ga_serv tcp udp no_hints serv (address_entry no_hints addr ∷ []) (suc (suc k))
      ≡ ok
          (at_port true no_hints sock_stream (port_number serv) addr
            ∷ at_port false no_hints sock_dgram (port_number serv) addr
            ∷ [])
          k
unfolding ga_serv ga_port
serv_entries tcp udp serv (ipv4 a) k digit = rw digit refl
serv_entries tcp udp serv (ipv6 a) k digit = rw digit refl

digit-ne-slash : (c : ℕ) → isdigit c ≡ true → (c == b'/') ≡ false
digit-ne-slash c h = ground arith

and_false : (b : Bool) → (b && false) ≡ false
and_false true = refl
and_false false = refl

not_digit : isdigit 0 ≡ true → ⊥
not_digit h = cc

not_true : false ≡ true → ⊥
not_true h = cc

lookup_numeric :
    (r : Resolver) (host serv : Text) (addr : Address) (k : ℕ)
    → ReadsBack r host addr
    → isdigit (first_char serv) ≡ true
    → getaddrinfo r (some host) (some serv) none (suc (suc (suc (suc k))))
      ≡ ok
          (at_port true no_hints sock_stream (port_number serv) addr
            ∷ at_port false no_hints sock_dgram (port_number serv) addr
            ∷ [])
          k
unfolding getaddrinfo ga_echeck ga_nsearch
lookup_numeric r [] serv (ipv4 a) k reads digit = absurd (not_digit reads.0)
lookup_numeric r [] serv (ipv6 a) k reads digit = absurd (not_true reads.1)
lookup_numeric r (c ∷ cs) [] addr k reads digit = absurd (not_digit digit)
lookup_numeric r (c ∷ cs) (d ∷ ds) addr k reads digit =
    rw (digit-ne-slash d digit, and_false)
      (rw (search_both r (c ∷ cs) addr (suc (suc k)) reads)
        (serv_entries r.tcp_port r.udp_port (d ∷ ds) addr k digit))

-- NI_NUMERICHOST and NI_NUMERICSERV
abbrev pub numeric : NameFlags
numeric = record {
  nofqdn = false;
  numerichost = true;
  namereqd = false;
  numericserv = true;
  dgram = false;
}

abbrev pub sockaddr : Address → ℕ → SockAddr
sockaddr (ipv4 a) port = sockaddr_in a port
sockaddr (ipv6 a) port = sockaddr_in6 a port

-- inet_ntop gives this text, which fits.
abbrev pub Prints : NameResolver → Text → ℕ → Address → Type 0
Prints nr host size (ipv4 a) = nr.ntop inet a size ≡ some host
Prints nr host size (ipv6 a) = nr.ntop inet6 a size ≡ some host

-- The port fits too.
serv_fits :
    (port size : ℕ)
    → length (decimal port) ≤ size
    → take (suc size - 1) (decimal port) ≡ decimal port
serv_fits port size h =
    let same : suc size - 1 ≡ size = omega arith in rw same (take_all size (decimal port) h)

getnameinfo-numeric :
    (nr : NameResolver) (addr : Address) (port hostlen servlen : ℕ) (host : Text)
    → Prints nr host (suc hostlen) addr
    → length (decimal port) ≤ servlen
    → getnameinfo nr (sockaddr addr port) (suc hostlen) (suc servlen) numeric
      ≡ named (some host) (some (decimal port))
unfolding getnameinfo gn_ipv46
getnameinfo-numeric nr (ipv4 a) port hostlen servlen host prints fits =
    rw prints (ap (λ t. named (some host) (some t)) (serv_fits port servlen fits))
getnameinfo-numeric nr (ipv6 a) port hostlen servlen host prints fits =
    rw prints (ap (λ t. named (some host) (some t)) (serv_fits port servlen fits))

-- An address and a port through getnameinfo with NI_NUMERICHOST and NI_NUMERICSERV, into buffers that
-- the texts fit, and through getaddrinfo with no hints: the strings are the text of inet_ntop and
-- the decimal port, and from them come just the address at that port for SOCK_STREAM and for
-- SOCK_DGRAM. inet_pton is to read what inet_ntop prints, and memory to be there.
pub getaddrinfo-getnameinfo :
    (nr : NameResolver) (r : Resolver) (addr : Address) (port hostlen servlen : ℕ) (host : Text)
    (k : ℕ)
    → port < 65536
    → Prints nr host (suc hostlen) addr
    → ReadsBack r host addr
    → length (decimal port) ≤ servlen
    → (getnameinfo nr (sockaddr addr port) (suc hostlen) (suc servlen) numeric
        ≡ named (some host) (some (decimal port)))
      × (getaddrinfo r (some host) (some (decimal port)) none (suc (suc (suc (suc k))))
          ≡ ok
              (at_port true no_hints sock_stream port addr
                ∷ at_port false no_hints sock_dgram port addr
                ∷ [])
              k)
getaddrinfo-getnameinfo nr r addr port hostlen servlen host k small prints reads fits = (
  getnameinfo-numeric nr addr port hostlen servlen host prints fits,
  lookup_numeric r host (decimal port) addr k reads
        (print-first_char (port + 1) port [] (omega arith))
      ∙ ap
          (λ p.
            ok
              (at_port true no_hints sock_stream p addr
                ∷ at_port false no_hints sock_dgram p addr
                ∷ [])
              k)
          (port_number-decimal port small),
)
