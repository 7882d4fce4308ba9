-- ===== src/Gai/Ports/Matching.antt =====
-- Filling in the ports keeps what the hints ask for, and loses no entry.
use my_unp.Prelude.{
  Bool-cases, ℕ, zero, suc, ◌+◌, ◌≡◌, ◌≤◌, ◌⊎◌, inl, inr, refl, ◌∙◌, sym, ap, List, [], ◌∷◌, ◌++◌,
  length, length-append, Bool, true, false, ◌||◌, ◌==◌, ==_iff, if◌then◌else◌, Option, none, some,
  Text, isdigit, first_char, arith,
}
use my_unp.Gai.{
  Family, unspec, inet, inet6, local, other, sock_stream, sock_dgram, Hints, Addrinfo, ◌>>=◌, done,
  alloc, Post, Post-bind, Post-if,
}
use my_unp.Gai.Matches.{Matches, AllMatch, AllMatch-append}
use my_unp.Gai.Search.Matching.{alloc-Post}
use my_unp.Gai.Ports.{
  ga_clone, fill_port, port_entry, ga_port, with_port, check_found, asked, port_number, ga_serv,
}

-- The socket type that is filled in is the one asked for.
abbrev TypeAsked : Hints → ℕ → Type 0
TypeAsked hints st = (hints.socktype ≡ 0) ⊎ (st ≡ hints.socktype)

typed-Matches :
    (hints : Hints) (port st : ℕ) (ai : Addrinfo)
    → TypeAsked hints st
    → Matches hints ai
    → Matches hints (record ai { socktype = st; port = port })
typed-Matches hints port st ai t m = record {
  family_asked = m.family_asked;
  protocol_asked = m.protocol_asked;
  type_asked = t;
  clone_untyped = m.clone_untyped;
}

filled-Matches :
    (hints : Hints) (port st : ℕ) (fam : Family) (ai : Addrinfo)
    → TypeAsked hints st
    → Matches hints ai
    → Matches hints (fill_port port st fam ai).0
filled-Matches hints port st inet ai t m = typed-Matches hints port st ai t m
filled-Matches hints port st inet6 ai t m = typed-Matches hints port st ai t m
filled-Matches hints port st unspec ai t m = typed-Matches hints ai.port st ai t m
filled-Matches hints port st local ai t m = typed-Matches hints ai.port st ai t m
filled-Matches hints port st (other k) ai t m = typed-Matches hints ai.port st ai t m

-- A list in order: matching, and not shorter than `n`.
abbrev pub Kept : Hints → ℕ → List Addrinfo → Type 0
Kept hints n ais = AllMatch hints ais × (n ≤ length ais)

abbrev Counted : Hints → ℕ → List Addrinfo × ℕ → Type 0
Counted hints n r = Kept hints n r.0

ga_clone-Matches :
    (hints : Hints) (ai : Addrinfo) (n : ℕ)
    → Matches hints ai
    → Post (λ new. Matches hints new) (ga_clone ai n)
ga_clone-Matches hints ai n m =
    Post-bind (λ u. Unit {0}) (λ new. Matches hints new) alloc _ n (alloc-Post n)
      (λ u k t.
        Post-bind (λ u. Unit {0}) (λ new. Matches hints new) alloc _ k (alloc-Post k)
          (λ u' k' t'. record {
            family_asked = m.family_asked;
            protocol_asked = m.protocol_asked;
            type_asked = m.type_asked;
            clone_untyped = λ e. absurd cc;
          }))

port_entry-Counted :
    (hints : Hints) (port st : ℕ) (c : Bool) (s : ℕ) (ai : Addrinfo) (n : ℕ)
    → ai.clone ≡ c
    → TypeAsked hints st
    → Matches hints ai
    → Post (λ r. Counted hints 1 r) (port_entry port st c s ai n)
port_entry-Counted hints port st true zero ai n e t m =
    ((filled-Matches hints port st ai.family ai t m, tt), omega arith)
port_entry-Counted hints port st true (suc s) ai n e t m =
    Post-bind (λ new. Matches hints new) (λ r. Counted hints 1 r) (ga_clone ai) _ n
      (ga_clone-Matches hints ai n m)
      (λ new k h. ((m, (filled-Matches hints port st new.family new t h, tt)), omega arith))
port_entry-Counted hints port st false s ai n e t m =
    Post-if (λ r. Counted hints 1 r) (s == st) _ (done (ai ∷ [], 0)) n
      (λ q. ((filled-Matches hints port st ai.family ai t m, tt), omega arith))
      (λ q. ((m, tt), omega arith))

ga_port-Counted :
    (hints : Hints) (port st : ℕ) (ais : List Addrinfo) (n : ℕ)
    → TypeAsked hints st
    → AllMatch hints ais
    → Post (λ r. Counted hints (length ais) r) (ga_port port st ais n)
unfolding ga_port
ga_port-Counted hints port st [] n t h = (tt, omega arith)
ga_port-Counted hints port st (ai ∷ ais) n t h =
    Post-bind (λ r. Counted hints 1 r) (λ r. Counted hints (suc (length ais)) r)
      (port_entry port st ai.clone ai.socktype ai) _ n
      (port_entry-Counted hints port st ai.clone ai.socktype ai n refl t h.0)
      (λ here k g.
        Post-bind (λ r. Counted hints (length ais) r) (λ r. Counted hints (suc (length ais)) r)
          (ga_port port st ais) (λ behind. done (here.0 ++ behind.0, here.1 + behind.1)) k
          (ga_port-Counted hints port st ais k t h.1)
          (λ behind k' b. (
            AllMatch-append hints here.0 behind.0 g.0 b.0,
            omega (arith, length-append here.0 behind.0, g.1, b.1),
          )))

with_port-Counted :
    (hints : Hints) (port : Option ℕ) (st l : ℕ) (r : List Addrinfo × ℕ) (n : ℕ)
    → ((p : ℕ) → port ≡ some p → TypeAsked hints st)
    → Counted hints l r
    → Post (λ r'. Counted hints l r') (with_port port st r n)
with_port-Counted hints none st l r n t h = h
with_port-Counted hints (some p) st l r n t h =
    Post-bind (λ r'. Counted hints (length r.0) r') (λ r'. Counted hints l r') (ga_port p st r.0) _
      n (ga_port-Counted hints p st r.0 n (t p refl) h.0) (λ r' k g. (g.0, omega (arith, g.1, h.1)))

check_found-Kept :
    (hints : Hints) (l : ℕ) (r : List Addrinfo × ℕ) (n : ℕ)
    → Counted hints l r
    → Post (λ ais. Kept hints l ais) (check_found hints r n)
check_found-Kept hints l (ais, zero) n h = tt
check_found-Kept hints l (ais, suc c) n h = h

asked-TypeAsked :
    (hints : Hints) (st : ℕ) (port : Option ℕ) (p : ℕ)
    → asked hints st port ≡ some p
    → TypeAsked hints st
asked-TypeAsked hints st port p e =
    elim (Bool-cases (hints.socktype == 0 || hints.socktype == st)) [
      | inl ok ↦ ground arith
      | inr no_way ↦
          let z : none ≡ some p = sym (ap (λ b. if b then port else none) no_way) ∙ e in absurd cc
    ]

-- The two passes of ga_serv, over any ports that the hints allow.
passes-Kept :
    (hints : Hints) (p q : Option ℕ) (st st' l : ℕ) (ais : List Addrinfo) (n : ℕ)
    → ((x : ℕ) → p ≡ some x → TypeAsked hints st)
    → ((x : ℕ) → q ≡ some x → TypeAsked hints st')
    → Kept hints l ais
    → Post
        (λ ais'. Kept hints l ais')
        ((with_port p st (ais, 0) >>= λ r. with_port q st' r >>= check_found hints) n)
passes-Kept hints p q st st' l ais n t t' h =
    Post-bind (λ r. Counted hints l r) (λ ais'. Kept hints l ais') (with_port p st (ais, 0)) _ n
      (with_port-Counted hints p st l (ais, 0) n t h)
      (λ r k g.
        Post-bind (λ r. Counted hints l r) (λ ais'. Kept hints l ais') (with_port q st' r)
          (check_found hints) k (with_port-Counted hints q st' l r k t' g)
          (λ r' k' g'. check_found-Kept hints l r' k' g'))

pub ga_serv-Kept :
    (tcp udp : Text → Option ℕ) (hints : Hints) (serv : Text) (ais : List Addrinfo) (n : ℕ)
    → AllMatch hints ais
    → Post (λ ais'. Kept hints (length ais) ais') (ga_serv tcp udp hints serv ais n)
unfolding ga_serv
ga_serv-Kept tcp udp hints serv ais n h =
    Post-if (λ ais'. Kept hints (length ais) ais') (isdigit (first_char serv)) _ _ n
      (λ number.
        Post-if (λ ais'. Kept hints (length ais) ais') (hints.socktype == 0) _ _ n
          (λ e.
            passes-Kept hints number_port number_port sock_stream sock_dgram (length ais) ais n
              (λ x q. inl ((==_iff hints.socktype 0).0 e))
              (λ x q. inl ((==_iff hints.socktype 0).0 e)) kept)
          (λ e.
            Post-bind (λ r. Counted hints (length ais) r) (λ ais'. Kept hints (length ais) ais')
              (with_port (some (port_number serv)) hints.socktype (ais, 0)) (check_found hints) n
              (with_port-Counted hints number_port hints.socktype (length ais) (ais, 0) n
                (λ x q. inr refl) kept)
              (λ r k g. check_found-Kept hints (length ais) r k g)))
      (λ name.
        passes-Kept hints (asked hints sock_stream (tcp serv)) (asked hints sock_dgram (udp serv))
          sock_stream sock_dgram (length ais) ais n (λ x q. asked-TypeAsked hints sock_stream _ x q)
          (λ x q. asked-TypeAsked hints sock_dgram _ x q) kept)
  where
    kept : Kept hints (length ais) ais
    kept = (h, omega arith)

    number_port : Option ℕ
    number_port = some (port_number serv)
