-- ===== src/Gai/Lookup/Kept.antt =====
-- The steps of getaddrinfo keep the entries that match the hints.
use my_unp.Prelude.{
  ℕ, ◌≡◌, inl, inr, refl, sym, ap, subst, List, [], ◌∷◌, ◌++◌, length, length-append, Bool, true,
  false, ◌==◌, ==_iff, Option, none, some, Text, arith,
}
use my_unp.Gai.{
  local, sock_stream, sock_dgram, addrfamily, Hints, Addrinfo, ◌>>=◌, done, raise, alloc, Post,
  Post-bind, Post-if, Post-weaken,
}
use my_unp.Gai.Matches.{Matches, AllMatch, AllMatch-append}
use my_unp.Gai.Search.{ga_aistruct, entry, mismatch, Resolver, Found}
use my_unp.Gai.Search.Matching.{Asked, mismatch-Asked, alloc-Post, ga_aistruct_adds}
use my_unp.Gai.Ports.Matching.{Kept, ga_serv-Kept}
use my_unp.Gai.Lookup.{
  name_head, node_name, unix_stream, ga_unix, add_canon, add_ports, finish_list, finish_lookup,
}

name_head-Kept :
    (hints : Hints) (l : ℕ) (name : Text) (ais : List Addrinfo)
    → Kept hints l ais
    → Kept hints l (name_head name ais)
name_head-Kept hints l name [] h = h
name_head-Kept hints l name (ai ∷ ais) h =
    let m = h.0.0 in
    (
      (
        record {
          family_asked = m.family_asked;
          protocol_asked = m.protocol_asked;
          type_asked = m.type_asked;
          clone_untyped = m.clone_untyped;
        },
        h.0.1,
      ),
      h.1,
    )

named-Kept :
    (hints : Hints) (l : ℕ) (name : Text) (ais : List Addrinfo) (n : ℕ)
    → Kept hints l ais
    → Post (λ ais'. Kept hints l ais') ((alloc >>= λ u. done (name_head name ais)) n)
named-Kept hints l name ais n h =
    Post-bind (λ u. Unit {0}) (λ ais'. Kept hints l ais') alloc (λ u. done (name_head name ais)) n
      (alloc-Post n) (λ u k t. name_head-Kept hints l name ais h)

node_name-Kept :
    (hints : Hints) (b : Bool) (o : Option Text) (ais : List Addrinfo) (n : ℕ)
    → Kept hints 1 ais
    → Post (λ ais'. Kept hints 1 ais') (node_name b o ais n)
node_name-Kept hints false o ais n h = h
node_name-Kept hints true none ais n h = tt
node_name-Kept hints true (some name) ais n h = named-Kept hints 1 name ais n h

-- An entry made with a socket type of its own, where the caller gave none.
untyped-Matches :
    (hints : Hints) (st : ℕ) (path : Text)
    → hints.socktype ≡ 0
    → Asked hints local
    → Matches hints (entry (record hints { socktype = st }) path local)
untyped-Matches hints st path z a = record {
  family_asked = a;
  protocol_asked = refl;
  type_asked = inl z;
  clone_untyped = λ e. z;
}

typed-Matches :
    (hints : Hints) (path : Text) → Asked hints local → Matches hints (entry hints path local)
typed-Matches hints path a = record {
  family_asked = a;
  protocol_asked = refl;
  type_asked = inr refl;
  clone_untyped = λ e. (==_iff hints.socktype 0).0 e;
}

-- The stream entry, and the hints for the entry behind it.
abbrev Staged : Hints → Text → List Addrinfo × Hints → Type 0
Staged hints path r = AllMatch hints r.0 × Matches hints (entry r.1 path local)

unix_stream-Staged :
    (hints : Hints) (b : Bool) (path : Text) (n : ℕ)
    → (hints.socktype == 0) ≡ b
    → Asked hints local
    → Post (λ r. Staged hints path r) (unix_stream b path hints n)
unix_stream-Staged hints true path n e a =
    Post-bind (λ ais. ais ≡ [] ++ (entry (record hints { socktype = sock_stream }) path local ∷ []))
      (λ r. Staged hints path r)
      (ga_aistruct (record hints { socktype = sock_stream }) path local []) _ n
      (ga_aistruct_adds (record hints { socktype = sock_stream }) path local [] n)
      (λ ais k q. (
        subst (AllMatch hints) (sym q)
            (untyped-Matches hints sock_stream path ((==_iff hints.socktype 0).0 e) a, tt),
        untyped-Matches hints sock_dgram path ((==_iff hints.socktype 0).0 e) a,
      ))
unix_stream-Staged hints false path n e a = (tt, typed-Matches hints path a)

pub ga_unix-Kept :
    (r : Resolver) (path : Text) (hints : Hints) (n : ℕ)
    → Post (λ ais. Kept hints 1 ais) (ga_unix r path hints n)
unfolding ga_unix
ga_unix-Kept r path hints n =
    Post-if (λ ais. Kept hints 1 ais) (mismatch hints local) (raise addrfamily) _ n (λ e. tt)
      (λ e.
        Post-bind (λ x. Staged hints path x) (λ ais. Kept hints 1 ais)
          (unix_stream (hints.socktype == 0) path hints) _ n
          (unix_stream-Staged hints (hints.socktype == 0) path n refl
            (mismatch-Asked hints local e))
          (λ x k s.
            Post-bind (λ ais. ais ≡ x.0 ++ (entry x.1 path local ∷ [])) (λ ais. Kept hints 1 ais)
              (ga_aistruct x.1 path local x.0) (node_name hints.canonname r.nodename) k
              (ga_aistruct_adds x.1 path local x.0 k)
              (λ ais k' q. node_name-Kept hints hints.canonname r.nodename ais k' (
                subst (AllMatch hints) (sym q) (AllMatch-append hints x.0 _ s.0 (s.1, tt)),
                omega (arith, ap length q, length-append x.0 (entry x.1 path local ∷ [])),
              ))))

add_canon-Kept :
    (hints : Hints) (l : ℕ) (b : Bool) (host : Text) (canon : Option Text) (ais : List Addrinfo)
    (n : ℕ)
    → Kept hints l ais
    → Post (λ ais'. Kept hints l ais') (add_canon b host canon ais n)
add_canon-Kept hints l false host canon ais n h = h
add_canon-Kept hints l true host (some name) ais n h = name_head-Kept hints l name ais h
add_canon-Kept hints l true host none ais n h = named-Kept hints l host ais n h

add_ports-Kept :
    (r : Resolver) (hints : Hints) (servname : Option Text) (ais : List Addrinfo) (n : ℕ)
    → Kept hints 1 ais
    → Post (λ ais'. Kept hints 1 ais') (add_ports r hints servname ais n)
add_ports-Kept r hints none ais n h = h
add_ports-Kept r hints (some []) ais n h = h
add_ports-Kept r hints (some (c ∷ cs)) ais n h =
    Post-weaken (λ ais'. Kept hints (length ais) ais') (λ ais'. Kept hints 1 ais') _
      (λ ais' k. (k.0, omega (arith, k.1, h.1)))
      (ga_serv-Kept r.tcp_port r.udp_port hints (c ∷ cs) ais n h.0)

pub finish_lookup-Kept :
    (r : Resolver) (hints : Hints) (named : Bool) (host : Text) (servname : Option Text) (f : Found)
    (n : ℕ)
    → AllMatch hints f.list
    → Post (λ ais. Kept hints 1 ais) (finish_lookup r hints named host servname f n)
finish_lookup-Kept r hints named host servname f n = go f.list
  where
    go :
        (ais : List Addrinfo)
        → AllMatch hints ais
        → Post (λ ais. Kept hints 1 ais) (finish_list r hints named host servname f.canon ais n)
    go [] h = tt
    go (x ∷ xs) h =
        Post-bind (λ ais. Kept hints 1 ais) (λ ais. Kept hints 1 ais)
          (add_canon named host f.canon (x ∷ xs)) (add_ports r hints servname) n
          (add_canon-Kept hints 1 named host f.canon (x ∷ xs) n (h, omega arith))
          (λ ais k g. add_ports-Kept r hints servname ais k g)

-- How getaddrinfo may end.
