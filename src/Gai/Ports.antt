-- ===== src/Gai/Ports.antt =====
-- libgai/ga_clone.c, ga_port.c and ga_serv.c: from the service to the ports in the list.
pub mod Expand
pub mod Matching
use my_unp.Prelude.{
  ℕ, zero, suc, ◌+◌, ◌-◌, ◌*◌, ◌%◌, List, [], ◌∷◌, ◌++◌, Bool, true, false, ◌||◌, ◌==◌,
  if◌then◌else◌, Option, none, some, Text, isdigit, first_char, atoi_from,
}
use my_unp.Gai.{
  Family, unspec, inet, inet6, local, other, sock_stream, sock_dgram, Error, noname, service, Hints,
  Addrinfo, Result, ok, failed, quit, M, ◌>>=◌, done, raise, alloc,
}

-- The new entry, behind the one it is made from.
abbrev pub ga_clone : Addrinfo → M Addrinfo
ga_clone ai = do _ ← alloc; _ ← alloc; done (record ai { clone = false; canonname = none })

-- The socket type and the port of an entry, and whether it counts as found.
abbrev pub fill_port : ℕ → ℕ → Family → Addrinfo → Addrinfo × ℕ
fill_port port st inet ai = (record ai { socktype = st; port = port }, 1)
fill_port port st inet6 ai = (record ai { socktype = st; port = port }, 1)
fill_port port st unspec ai = (record ai { socktype = st }, 0)
fill_port port st local ai = (record ai { socktype = st }, 0)
fill_port port st (other n) ai = (record ai { socktype = st }, 0)

abbrev pub filled : ℕ → ℕ → Addrinfo → Addrinfo × ℕ
filled port st ai = fill_port port st ai.family ai

-- What becomes of an entry with these AI_CLONE and socket type: the entries in its place, and how many
-- are found.
abbrev pub port_entry : ℕ → ℕ → Bool → ℕ → Addrinfo → M (List Addrinfo × ℕ)
port_entry port st true zero ai = let (a, c) = filled port st ai in done (a ∷ [], c)
port_entry port st true (suc s) ai = do
  new ← ga_clone ai
  let (a, c) = filled port st new
  done (ai ∷ a ∷ [], c)
port_entry port st false s ai =
    if s == st then (let (a, c) = filled port st ai in done (a ∷ [], c)) else done (ai ∷ [], 0)

unfoldable pub ga_port : ℕ → ℕ → List Addrinfo → M (List Addrinfo × ℕ)
ga_port port st [] = done ([], 0)
ga_port port st (ai ∷ ais) = do
  (here, c) ← port_entry port st ai.clone ai.socktype ai
  (behind, n) ← ga_port port st ais
  done (here ++ behind, c + n)

-- One call of ga_port, where there is a port; `nfound` is counted up.
abbrev pub with_port : Option ℕ → ℕ → List Addrinfo × ℕ → M (List Addrinfo × ℕ)
with_port none st (ais, nfound) = done (ais, nfound)
with_port (some port) st (ais, nfound) = do (ais', n) ← ga_port port st ais; done (ais', nfound + n)

-- htons(atoi(serv)), in host order.
abbrev pub port_number : Text → ℕ
port_number serv = atoi_from 0 serv % 65536

-- `nfound == 0` at the end.
abbrev pub check_found : Hints → List Addrinfo × ℕ → M (List Addrinfo)
check_found hints (ais, zero) = raise (if hints.socktype == 0 then noname else service)
check_found hints (ais, suc n) = done ais

-- The ports to fill in for one protocol, where the caller's socket type allows it.
abbrev pub asked : Hints → ℕ → Option ℕ → Option ℕ
asked hints st port = if hints.socktype == 0 || hints.socktype == st then port else none

-- What getservbyname answers for "tcp" and for "udp" is an argument.
unfoldable pub ga_serv :
    (Text → Option ℕ) → (Text → Option ℕ) → Hints → Text → List Addrinfo → M (List Addrinfo)
ga_serv tcp udp hints serv ais =
    if isdigit (first_char serv)
    then (if hints.socktype == 0
        then (do
          r ← with_port (some (port_number serv)) sock_stream (ais, 0)
          r' ← with_port (some (port_number serv)) sock_dgram r
          check_found hints r')
        else (do
          r ← with_port (some (port_number serv)) hints.socktype (ais, 0)
          check_found hints r))
    else (do
      r ← with_port (asked hints sock_stream (tcp serv)) sock_stream (ais, 0)
      r' ← with_port (asked hints sock_dgram (udp serv)) sock_dgram r
      check_found hints r')
