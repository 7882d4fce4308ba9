-- ===== src/Gai/Tests.antt =====
-- Calls of getaddrinfo and getnameinfo with a small resolver.
use my_unp.Prelude.{
  ℕ, length, ◌≤◌, ◌≡◌, refl, List, [], ◌∷◌, true, false, if◌then◌else◌, none, some, codes,
  same_text, arith, print, decimal,
}
use my_unp.Gai.{inet, local, Hints, Addrinfo, Result, ok, failed, quit, memory}
use my_unp.Gai.Ports.{ga_port, ga_serv}
use my_unp.Gai.Ports.Expand.{ipv4, entries, untyped, at_port, Expands, ga_serv-Expands}
use my_unp.Gai.Search.{
  Resolver, host_not_found, found, lookup_failed, ga_echeck, ga_nsearch, ga_aistruct, search_one,
  search_all, add_addresses,
}
use my_unp.Gai.Lookup.{getaddrinfo, no_hints}
use my_unp.Gai.Lookup.Entries.{Ends, getaddrinfo-Ends, getaddrinfo_quits}
use my_unp.Gai.Names.{NameResolver, named, getnameinfo}
use my_unp.Gai.Names.RoundTrip.{numeric, sockaddr, getaddrinfo-getnameinfo}

abbrev loopback : List ℕ
loopback = 127 ∷ 0 ∷ 0 ∷ 1 ∷ []

-- One dotted address, one name with two addresses, one service for both protocols.
abbrev resolver : Resolver
resolver = record {
  pton4 = λ t. if same_text t (codes "127.0.0.1") then some loopback else none;
  pton6 = λ t. none;
  gethostbyname2 = λ t fam. lookup_failed host_not_found;
  gethostbyname =
      λ six t. found (codes "sun") inet ((10 ∷ 0 ∷ 0 ∷ 1 ∷ []) ∷ (10 ∷ 0 ∷ 0 ∷ 2 ∷ []) ∷ []);
  tcp_port = λ t. some 13;
  udp_port = λ t. some 13;
  nodename = none;
}

abbrev names : NameResolver
names = record {
  ntop = λ fam a size. some (codes "127.0.0.1");
  gethostbyaddr = λ a fam. some (codes "sun.example");
  getservbyport = λ port udp. some (codes "daytime");
}

abbrev ipv4_hints : Hints
ipv4_hints = record no_hints { family = inet }

abbrev local_hints : Hints
local_hints = record no_hints { family = local }

-- How many entries, or none at an error.
size : Result (List Addrinfo) → ℕ
size (ok ais n) = length ais
size (failed e) = 100
size quit = 200

two_by_two :
    size (getaddrinfo resolver (some (codes "sun")) (some (codes "daytime")) (some ipv4_hints) 20)
    ≡ 4
unfolding size getaddrinfo ga_echeck ga_nsearch search_all search_one add_addresses ga_aistruct
    ga_serv ga_port
two_by_two = refl

no_memory :
    getaddrinfo resolver (some (codes "sun")) (some (codes "daytime")) (some ipv4_hints) 3
    ≡ failed memory
unfolding getaddrinfo ga_echeck ga_nsearch search_all search_one add_addresses ga_aistruct
no_memory = refl

getaddrinfo-Ends_example :
    Ends ipv4_hints
      (some (codes "sun"))
      (some (codes "daytime"))
      (getaddrinfo resolver (some (codes "sun")) (some (codes "daytime")) (some ipv4_hints) 20)
getaddrinfo-Ends_example =
    getaddrinfo-Ends resolver (some (codes "sun")) (some (codes "daytime")) (some ipv4_hints) 20

ga_serv-Expands_example : Expands (untyped no_hints) (some 13) (some 13) (ipv4 loopback ∷ []) (
    ga_serv
      (λ t. some 13)
      (λ t. some 13)
      (untyped no_hints)
      (codes "daytime")
      (entries (untyped no_hints) (ipv4 loopback ∷ []))
      2)
ga_serv-Expands_example =
    ga_serv-Expands (λ t. some 13) (λ t. some 13) no_hints (codes "daytime") (ipv4 loopback ∷ []) 2
      (omega arith) (omega arith)

checks : ga_echeck (some (codes "sun")) none local_hints ≡ none
unfolding ga_echeck
checks = refl

local_host_quits : getaddrinfo resolver (some (codes "sun")) none (some local_hints) 20 ≡ quit
local_host_quits =
    getaddrinfo_quits resolver (some (codes "sun")) none local_hints 20 refl checks refl

two_digits : length (decimal 80) ≤ 9
unfolding print
two_digits = omega arith

getaddrinfo-getnameinfo_example :
    (getnameinfo names (sockaddr (ipv4 loopback) 80) 20 10 numeric
      ≡ named (some (codes "127.0.0.1")) (some (decimal 80)))
    × (getaddrinfo resolver (some (codes "127.0.0.1")) (some (decimal 80)) none 4
        ≡ ok
            (at_port true no_hints 1 80 (ipv4 loopback)
              ∷ at_port false no_hints 2 80 (ipv4 loopback)
              ∷ [])
            0)
getaddrinfo-getnameinfo_example =
    getaddrinfo-getnameinfo names resolver (ipv4 loopback) 80 19 9 (codes "127.0.0.1") 0
      (omega arith) refl (refl, refl) two_digits
