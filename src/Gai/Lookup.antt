-- ===== src/Gai/Lookup.antt =====
-- libgai/getaddrinfo.c and ga_unix.c.
pub mod Kept
pub mod Entries
use my_unp.Prelude.{
  ℕ, zero, suc, ◌+◌, List, [], ◌∷◌, ◌++◌, length, Bool, true, false, not, ◌&&◌, ◌||◌, ◌==◌, leb,
  ltb, if◌then◌else◌, Option, none, some, Text, codes, same_text, first_char,
}
use my_unp.Gai.{
  Family, unspec, inet, inet6, local, is_family, sock_stream, sock_dgram, Error, addrfamily, noname,
  system, Hints, Addrinfo, Result, ok, failed, quit, M, ◌>>=◌, done, raise, alloc,
}
use my_unp.Gai.Search.{
  is_blank, ga_echeck, Search, ga_nsearch, ga_aistruct, mismatch, Resolver, Found, search_all,
}
use my_unp.Gai.Ports.{ga_serv}

-- The canonical name belongs to the first entry.
abbrev pub name_head : Text → List Addrinfo → List Addrinfo
name_head name [] = []
name_head name (ai ∷ ais) = record ai { canonname = some name } ∷ ais

-- uname has answered, where AI_CANONNAME is set.
abbrev pub node_name : Bool → Option Text → List Addrinfo → M (List Addrinfo)
node_name false name ais = done ais
node_name true none ais = raise system
node_name true (some name) ais = do _ ← alloc; done (name_head name ais)

-- The stream entry of a path for which no socket type is given, and the hints for the next.
abbrev pub unix_stream : Bool → Text → Hints → M (List Addrinfo × Hints)
unix_stream true path hints = do
  ais ← ga_aistruct (record hints { socktype = sock_stream }) path local []
  done (ais, record hints { socktype = sock_dgram })
unix_stream false path hints = done ([], hints)

unfoldable pub ga_unix : Resolver → Text → Hints → M (List Addrinfo)
ga_unix r path hints = if mismatch hints local then raise addrfamily else (do
  (ais, hints') ← unix_stream (hints.socktype == 0) path hints
  both ← ga_aistruct hints' path local ais
  node_name hints.canonname r.nodename both)

-- The path, for `"/local"` or `"/unix"` with a path for the service.
abbrev pub unix_path : Option Text → Option Text → Option Text
unix_path none serv = none
unix_path (some h) none = none
unix_path (some h) (some s) =
    if (same_text h (codes "/local") || same_text h (codes "/unix")) && first_char s == b'/'
    then some s
    else none

-- The name that ends up in the first entry, where the caller gave a host and AI_CANONNAME: `canon`, or
-- the host of the first search.
abbrev pub add_canon : Bool → Text → Option Text → List Addrinfo → M (List Addrinfo)
add_canon false host canon ais = done ais
add_canon true host (some name) ais = done (name_head name ais)
add_canon true host none ais = do _ ← alloc; done (name_head host ais)

abbrev pub add_ports : Resolver → Hints → Option Text → List Addrinfo → M (List Addrinfo)
add_ports r hints none ais = done ais
add_ports r hints (some []) ais = done ais
add_ports r hints (some (c ∷ cs)) ais = ga_serv r.tcp_port r.udp_port hints (c ∷ cs) ais

abbrev pub finish_list :
    Resolver → Hints → Bool → Text → Option Text → Option Text → List Addrinfo → M (List Addrinfo)
finish_list r hints named host servname canon [] = raise noname
finish_list r hints named host servname canon (ai ∷ ais) =
    add_canon named host canon (ai ∷ ais) >>= add_ports r hints servname

-- Behind the loop over the searches.
abbrev pub finish_lookup : Resolver → Hints → Bool → Text → Option Text → Found → M (List Addrinfo)
finish_lookup r hints named host servname f = finish_list r hints named host servname f.canon f.list

abbrev pub named_canon : Hints → Option Text → Bool
named_canon hints hostname = not (is_blank hostname) && hints.canonname

-- `several` is nsearch == 2; err_quit where there is no search.
abbrev pub search_hosts :
    Resolver → Hints → Option Text → Option Text → List Search → M (List Addrinfo)
search_hosts r hints hostname servname [] n = quit
search_hosts r hints hostname servname (s ∷ ss) n =
    (search_all r hints (length (s ∷ ss) == 2) (named_canon hints hostname) (s ∷ ss)
          (record { list = []; canon = none })
        >>= finish_lookup r hints (named_canon hints hostname) s.host servname)
      n

abbrev pub unix_or_hosts :
    Resolver → Hints → Option Text → Option Text → Option Text → M (List Addrinfo)
unix_or_hosts r hints hostname servname (some path) = ga_unix r path hints
unix_or_hosts r hints hostname servname none =
    search_hosts r hints hostname servname (ga_nsearch hostname hints)

abbrev pub checked : Resolver → Hints → Option Text → Option Text → Option Error → M (List Addrinfo)
checked r hints hostname servname (some e) = raise e
checked r hints hostname servname none =
    unix_or_hosts r hints hostname servname (unix_path hostname servname)

-- `hintsp == NULL`
abbrev pub no_hints : Hints
no_hints = record {
  passive = false;
  canonname = false;
  unknown_flags = false;
  family = unspec;
  socktype = 0;
  protocol = 0;
}

abbrev pub hints_or : Option Hints → Hints
hints_or none = no_hints
hints_or (some h) = h

unfoldable pub getaddrinfo : Resolver → Option Text → Option Text → Option Hints → M (List Addrinfo)
getaddrinfo r hostname servname hintsp =
    checked r (hints_or hintsp) hostname servname (ga_echeck hostname servname (hints_or hintsp))
