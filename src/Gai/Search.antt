-- ===== src/Gai/Search.antt =====
-- libgai/ga_echeck.c, ga_nsearch.c, ga_aistruct.c and the loop of getaddrinfo.c over the searches: from
-- the host to a list of addresses.
pub mod Matching
use my_unp.Prelude.{
  ℕ, zero, suc, ◌+◌, List, [], ◌∷◌, ◌++◌, length, Bool, true, false, not, ◌&&◌, ◌||◌, ◌==◌, leb,
  ltb, if◌then◌else◌, Option, none, some, Text, codes, contains, isdigit, isxdigit, first_char,
}
use my_unp.Gai.{
  Family, unspec, inet, inet6, local, other, is_family, sock_stream, sock_dgram, sock_raw, Error,
  addrfamily, again, badflags, fail, memory, nodata, noname, service, socktype, Hints, Addrinfo,
  Result, ok, failed, quit, M, ◌>>=◌, done, raise, alloc,
}
use my_unp.Gai.{Error}

-- A string that is NULL or empty.
abbrev pub is_blank : Option Text → Bool
is_blank none = true
is_blank (some []) = true
is_blank (some (c ∷ cs)) = false

-- The switch over the family; `some` is the error.
abbrev pub family_error : ℕ → Family → Option Error
family_error st unspec = none
family_error st inet =
    if st == 0 || (st == sock_stream || st == sock_dgram || st == sock_raw)
    then none
    else some socktype
family_error st inet6 =
    if st == 0 || (st == sock_stream || st == sock_dgram || st == sock_raw)
    then none
    else some socktype
family_error st local =
    if st == 0 || (st == sock_stream || st == sock_dgram) then none else some socktype
family_error st (other n) = some Error.family

unfoldable pub ga_echeck : Option Text → Option Text → Hints → Option Error
ga_echeck hostname servname hints =
    if hints.unknown_flags
    then some badflags
    else if is_blank hostname && is_blank servname
    then some noname
    else family_error hints.socktype hints.family

-- `struct search`
pub record Search : Type 0 where
  pub host : Text
  pub family : Family

abbrev pub search_of : Text → Family → Search
search_of host family = record { host = host; family = family }

-- The searches for one text for IPv6 and one for IPv4, by the family asked for.
abbrev pub searches : Text → Text → Family → List Search
searches host6 host4 inet = search_of host4 inet ∷ []
searches host6 host4 inet6 = search_of host6 inet6 ∷ []
searches host6 host4 unspec = search_of host6 inet6 ∷ search_of host4 inet ∷ []
searches host6 host4 local = []
searches host6 host4 (other n) = []

-- The array `search`; the caller quits where it has fewer than 1 or more than 2 entries.
unfoldable pub ga_nsearch : Option Text → Hints → List Search
ga_nsearch none hints =
    if hints.passive
    then searches (codes "0::0") (codes "0.0.0.0") hints.family
    else searches (codes "0::1") (codes "localhost") hints.family
ga_nsearch (some []) hints =
    if hints.passive
    then searches (codes "0::0") (codes "0.0.0.0") hints.family
    else searches (codes "0::1") (codes "localhost") hints.family
ga_nsearch (some (c ∷ cs)) hints = searches (c ∷ cs) (c ∷ cs) hints.family

-- The new entry of ga_aistruct.
abbrev pub entry : Hints → List ℕ → Family → Addrinfo
entry hints addr family = record {
  clone = hints.socktype == 0;
  family = family;
  socktype = hints.socktype;
  protocol = hints.protocol;
  addr = addr;
  port = 0;
  canonname = none;
}

-- sizeof(sun_path)
abbrev pub sun_path_size : ℕ
sun_path_size = 104

-- The switch of ga_aistruct: a socket address for the families that it knows.
abbrev pub socket_address : List ℕ → Family → M (Unit {0})
socket_address addr inet = alloc
socket_address addr inet6 = alloc
socket_address addr local = if leb sun_path_size (length addr) then raise service else alloc
socket_address addr unspec = done tt
socket_address addr (other n) = done tt

-- ga_aistruct, with the list that `*paipnext` ends.
unfoldable pub ga_aistruct : Hints → List ℕ → Family → List Addrinfo → M (List Addrinfo)
ga_aistruct hints addr family ais = do
  _ ← alloc
  _ ← socket_address addr family
  done (ais ++ (entry hints addr family ∷ []))

-- h_errno
pub data HostError : Type 0 where
  host_not_found try_again no_recovery no_data other_error : HostError

-- What the gethostby... functions answer: h_name, h_addrtype and h_addr_list, or NULL.
pub data Hostent : Type 0 where
  found : Text → Family → List (List ℕ) → Hostent
  lookup_failed : HostError → Hostent

-- The functions of the system that libgai calls.
pub record Resolver : Type 0 where
  pub pton4 : Text → Option (List ℕ)
  pub pton6 : Text → Option (List ℕ)
  pub gethostbyname2 : Text → Family → Hostent
  -- with RES_USE_INET6 or without
  pub gethostbyname : Bool → Text → Hostent
  pub tcp_port : Text → Option ℕ
  pub udp_port : Text → Option ℕ
  -- uname
  pub nodename : Option Text

abbrev pub host_error : HostError → Error
host_error host_not_found = noname
host_error try_again = again
host_error no_recovery = fail
host_error no_data = nodata
host_error other_error = noname

-- The list so far, and `canon`.
pub record Found : Type 0 where
  pub list : List Addrinfo
  pub canon : Option Text

-- `hints.ai_family != AF_UNSPEC && hints.ai_family != family`
abbrev pub mismatch : Hints → Family → Bool
mismatch hints family = not (is_family hints.family unspec) && not (is_family hints.family family)

-- An address string was read: it counts only in the search for its family.
abbrev pub numeric : Hints → Search → Family → List ℕ → Found → M Found
numeric hints s family addr f =
    if mismatch hints family
    then raise addrfamily
    else if is_family s.family family
    then (do ais ← ga_aistruct hints addr family f.list; done (record f { list = ais }))
    else done f

unfoldable pub add_addresses : Hints → Family → List (List ℕ) → List Addrinfo → M (List Addrinfo)
add_addresses hints family [] ais = done ais
add_addresses hints family (a ∷ rest) ais = do
  more ← ga_aistruct hints a family ais
  add_addresses hints family rest more

-- `canon` is set the first time, where the caller asked for it.
abbrev pub save_canon : Bool → Text → Option Text → M (Option Text)
save_canon true name none = do _ ← alloc; done (some name)
save_canon true name (some c) = done (some c)
save_canon false name c = done c

-- gethostbyname or gethostbyname2 has answered; `several` is nsearch == 2, `named` that the caller gave
-- a host and AI_CANONNAME.
abbrev pub looked_up : Hints → Bool → Bool → Hostent → Found → M Found
looked_up hints several named (lookup_failed e) f = if several then done f else raise (host_error e)
looked_up hints several named (found name family addrs) f =
    if mismatch hints family then raise addrfamily else (do
      c ← save_canon named name f.canon
      ais ← add_addresses hints family addrs f.list
      done (record { list = ais; canon = c }))

abbrev pub look_up : Resolver → Hints → Bool → Bool → Search → Found → M Found
look_up r hints several named s f =
    looked_up hints several named
      (if several
        then r.gethostbyname2 s.host s.family
        else r.gethostbyname (is_family s.family inet6) s.host)
      f

-- An IPv6 hex string, else a name.
abbrev pub search_hex : Resolver → Hints → Bool → Bool → Search → Option (List ℕ) → Found → M Found
search_hex r hints several named s (some addr) f = numeric hints s inet6 addr f
search_hex r hints several named s none f = look_up r hints several named s f

abbrev pub read_hex : Resolver → Text → Option (List ℕ)
read_hex r host =
    if (isxdigit (first_char host) || first_char host == b':') && contains b':' host
    then r.pton6 host
    else none

-- An IPv4 dotted-decimal string first.
abbrev pub search_dotted :
    Resolver → Hints → Bool → Bool → Search → Option (List ℕ) → Found → M Found
search_dotted r hints several named s (some addr) f = numeric hints s inet addr f
search_dotted r hints several named s none f =
    search_hex r hints several named s (read_hex r s.host) f

abbrev pub read_dotted : Resolver → Text → Option (List ℕ)
read_dotted r host = if isdigit (first_char host) then r.pton4 host else none

unfoldable pub search_one : Resolver → Hints → Bool → Bool → Search → Found → M Found
search_one r hints several named s f =
    search_dotted r hints several named s (read_dotted r s.host) f

-- The loop over the searches.
unfoldable pub search_all : Resolver → Hints → Bool → Bool → List Search → Found → M Found
search_all r hints several named [] f = done f
search_all r hints several named (s ∷ ss) f = do
  f' ← search_one r hints several named s f
  search_all r hints several named ss f'
