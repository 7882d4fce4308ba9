-- ===== src/Gai/Names.antt =====
-- libgai/getnameinfo.c and gn_ipv46.c: from a socket address to the names of its host and service.
pub mod RoundTrip
use my_unp.Prelude.{
  ℕ, zero, suc, ◌+◌, ◌-◌, ◌/◌, ◌%◌, List, [], ◌∷◌, take, Bool, true, false, ◌==◌, if◌then◌else◌,
  Option, none, some, Text, codes, decimal,
}
use my_unp.Gai.{Family, unspec, inet, inet6, local, other}

-- The functions of the system that these files call: inet_ntop, which gives NULL where the text does not fit;
-- gethostbyaddr, by its h_name; and getservbyport, by whether it is asked for "udp".
pub record NameResolver : Type 0 where
  pub ntop : Family → List ℕ → ℕ → Option Text
  pub gethostbyaddr : List ℕ → Family → Option Text
  pub getservbyport : ℕ → Bool → Option Text

-- The bits NI_xxx.
pub record NameFlags : Type 0 where
  pub nofqdn : Bool
  pub numerichost : Bool
  pub namereqd : Bool
  pub numericserv : Bool
  pub dgram : Bool

-- The socket address: of IP with the port in host order, of a path, or of another family.
pub data SockAddr : Type 0 where
  sockaddr_in : List ℕ → ℕ → SockAddr
  sockaddr_in6 : List ℕ → ℕ → SockAddr
  sockaddr_un : Text → SockAddr
  sockaddr_other : ℕ → SockAddr

-- The result 0, with what was written to host and serv (`none` where the caller gave no room), or 1.
pub data Naming : Type 0 where
  named : Option Text → Option Text → Naming
  unnamed : Naming

-- snprintf to a buffer of `size` bytes, the last of which is 0.
abbrev pub fit : ℕ → Text → Text
fit size t = take (size - 1) t

-- `if ((ptr = strchr(name, '.')) != NULL) *ptr = 0`
abbrev pub cut_dot : Text → Text
cut_dot [] = []
cut_dot (c ∷ cs) = if c == b'.' then [] else c ∷ cut_dot cs

abbrev pub found_name : NameFlags → Text → Text
found_name flags name = if flags.nofqdn then cut_dot name else name

-- The host, where there is room: `none` is the result 1.
abbrev pub name_or_number :
    NameResolver → NameFlags → List ℕ → Family → ℕ → Option Text → Option Text
name_or_number r flags addr family hostlen (some name) = some (fit hostlen (found_name flags name))
name_or_number r flags addr family hostlen none =
    if flags.namereqd then none else r.ntop family addr hostlen

abbrev pub host_part : NameResolver → NameFlags → List ℕ → Family → ℕ → Option Text
host_part r flags addr family hostlen =
    if flags.numerichost
    then r.ntop family addr hostlen
    else name_or_number r flags addr family hostlen (r.gethostbyaddr addr family)

abbrev pub service_or_number : ℕ → ℕ → Option Text → Text
service_or_number port servlen (some name) = fit servlen name
service_or_number port servlen none = fit servlen (decimal port)

abbrev pub serv_part : NameResolver → NameFlags → ℕ → ℕ → Text
serv_part r flags port servlen =
    if flags.numericserv
    then fit servlen (decimal port)
    else service_or_number port servlen (r.getservbyport port flags.dgram)

-- What is written to a buffer of this size.
abbrev pub room_for : ℕ → Text → Option Text
room_for zero t = none
room_for (suc size) t = some t

abbrev pub with_serv : NameResolver → NameFlags → ℕ → ℕ → Option Text → Naming
with_serv r flags port servlen host = named host (room_for servlen (serv_part r flags port servlen))

abbrev pub with_host : NameResolver → NameFlags → ℕ → ℕ → Option Text → Naming
with_host r flags port servlen none = unnamed
with_host r flags port servlen (some host) = with_serv r flags port servlen (some host)

unfoldable pub gn_ipv46 : NameResolver → NameFlags → List ℕ → Family → ℕ → ℕ → ℕ → Naming
gn_ipv46 r flags addr family port zero servlen = with_serv r flags port servlen none
gn_ipv46 r flags addr family port (suc size) servlen =
    with_host r flags port servlen (host_part r flags addr family (suc size))

unfoldable pub getnameinfo : NameResolver → SockAddr → ℕ → ℕ → NameFlags → Naming
getnameinfo r (sockaddr_in addr port) hostlen servlen flags =
    gn_ipv46 r flags addr inet port hostlen servlen
getnameinfo r (sockaddr_in6 addr port) hostlen servlen flags =
    gn_ipv46 r flags addr inet6 port hostlen servlen
getnameinfo r (sockaddr_un path) hostlen servlen flags =
    named (room_for hostlen (fit hostlen (codes "/local"))) (room_for servlen (fit servlen path))
getnameinfo r (sockaddr_other n) hostlen servlen flags = unnamed
