-- ===== src/Gai/Lookup/Entries.antt =====
-- What getaddrinfo returns, however it ends.
use my_unp.Prelude.{
  ℕ, ◌≡◌, ◌≤◌, inl, inr, refl, List, [], ◌∷◌, length, Bool, true, false, ◌&&◌, ◌==◌, if◌then◌else◌,
  Option, none, some, Text, Option-cases,
}
use my_unp.Gai.{
  noname, badflags, Family, unspec, inet, inet6, local, other, Error, Hints, Addrinfo, Result, ok,
  failed, quit, Post, Post-bind,
}
use my_unp.Gai.Matches.{AllMatch}
use my_unp.Gai.Search.{
  family_error, is_blank, ga_echeck, Search, searches, ga_nsearch, Resolver, Found, search_all,
}
use my_unp.Gai.Search.Matching.{search_all-FoundMatch}
use my_unp.Gai.Ports.Matching.{Kept}
use my_unp.Gai.Lookup.{unix_path, finish_lookup, named_canon, search_hosts, hints_or, getaddrinfo}
use my_unp.Gai.Lookup.Kept.{ga_unix-Kept, finish_lookup-Kept}

abbrev pub Ends : Hints → Option Text → Option Text → Result (List Addrinfo) → Type 0
Ends hints hostname servname (ok ais n) = AllMatch hints ais × (1 ≤ length ais)
Ends hints hostname servname (failed e) = Unit
Ends hints hostname servname quit = (hints.family ≡ local) × (unix_path hostname servname ≡ none)

Ends-Post :
    (hints : Hints) (h s : Option Text) (r : Result (List Addrinfo))
    → Post (λ ais. Kept hints 1 ais) r
    → Ends hints h s r
Ends-Post hints h s (ok ais n) p = p
Ends-Post hints h s (failed e) p = tt
Ends-Post hints h s quit p = absurd p

-- There is no search just for AF_LOCAL, once ga_echeck has let the family through.
searches-none :
    (host6 host4 : Text) (st : ℕ) (fam : Family)
    → family_error st fam ≡ none
    → searches host6 host4 fam ≡ []
    → fam ≡ local
searches-none host6 host4 st unspec allowed e = absurd cc
searches-none host6 host4 st inet allowed e = absurd cc
searches-none host6 host4 st inet6 allowed e = absurd cc
searches-none host6 host4 st local allowed e = refl
searches-none host6 host4 st (other k) allowed e = absurd cc

-- The searches with no host.
either_none :
    (b : Bool) (h6 h4 k6 k4 : Text) (st : ℕ) (fam : Family)
    → family_error st fam ≡ none
    → (if b then searches h6 h4 fam else searches k6 k4 fam) ≡ []
    → fam ≡ local
either_none true h6 h4 k6 k4 st fam allowed e = searches-none h6 h4 st fam allowed e
either_none false h6 h4 k6 k4 st fam allowed e = searches-none k6 k4 st fam allowed e

nsearch_none :
    (hostname : Option Text) (hints : Hints)
    → family_error hints.socktype hints.family ≡ none
    → ga_nsearch hostname hints ≡ []
    → hints.family ≡ local
unfolding ga_nsearch
nsearch_none none hints allowed e =
    either_none hints.passive _ _ _ _ hints.socktype hints.family allowed e
nsearch_none (some []) hints allowed e =
    either_none hints.passive _ _ _ _ hints.socktype hints.family allowed e
nsearch_none (some (c ∷ cs)) hints allowed e =
    searches-none (c ∷ cs) (c ∷ cs) hints.socktype hints.family allowed e

echeck_family :
    (hostname servname : Option Text) (hints : Hints)
    → ga_echeck hostname servname hints ≡ none
    → family_error hints.socktype hints.family ≡ none
unfolding ga_echeck
echeck_family hostname servname hints e =
    last hints.unknown_flags (is_blank hostname && is_blank servname) _ e
  where
    last :
        (b c : Bool) (o : Option Error)
        → (if b then some badflags else if c then some noname else o) ≡ none
        → o ≡ none
    last true c o e = absurd cc
    last false true o e = absurd cc
    last false false o e = e

search_hosts-Ends :
    (r : Resolver) (hints : Hints) (hostname servname : Option Text) (ss : List Search) (n : ℕ)
    → (ss ≡ [] → hints.family ≡ local)
    → unix_path hostname servname ≡ none
    → Ends hints hostname servname (search_hosts r hints hostname servname ss n)
search_hosts-Ends r hints hostname servname [] n h u = (h refl, u)
search_hosts-Ends r hints hostname servname (s ∷ ss) n h u = Ends-Post hints hostname servname _ (
    Post-bind (λ f. AllMatch hints f.list) (λ ais. Kept hints 1 ais)
      (search_all r hints (length (s ∷ ss) == 2) (named_canon hints hostname) (s ∷ ss) none_yet)
      (finish_lookup r hints (named_canon hints hostname) s.host servname) n
      (search_all-FoundMatch r hints (length (s ∷ ss) == 2) (named_canon hints hostname) (s ∷ ss)
        none_yet n tt)
      (λ f k g. finish_lookup-Kept r hints (named_canon hints hostname) s.host servname f k g))
  where
    none_yet : Found
    none_yet = record { list = []; canon = none }

-- However the resolver answers and whenever memory runs out: where getaddrinfo returns a list, it is not
-- empty, and each entry has the family, the socket type and the protocol of the hints, where the
-- hints give them. The process ends in err_quit only for AF_LOCAL, and only where host and service
-- do not name a path, that is, not where the host is "/local" or "/unix" and the service begins
-- with a slash.
pub getaddrinfo-Ends :
    (r : Resolver) (hostname servname : Option Text) (hintsp : Option Hints) (n : ℕ)
    → Ends (hints_or hintsp) hostname servname (getaddrinfo r hostname servname hintsp n)
unfolding getaddrinfo
getaddrinfo-Ends r hostname servname hintsp n =
    elim (Option-cases (ga_echeck hostname servname hints)) [
      | inr (e, bad) ↦ rw bad tt
      | inl fine ↦ elim (Option-cases (unix_path hostname servname)) [
        | inr (path, special) ↦
            rw (fine, special) (Ends-Post hints hostname servname _ (ga_unix-Kept r path hints n))
        | inl u ↦
            rw (fine, u)
              (search_hosts-Ends r hints hostname servname (ga_nsearch hostname hints) n
                (nsearch_none hostname hints (echeck_family hostname servname hints fine)) u)
      ]
    ]
  where
    hints : Hints
    hints = hints_or hintsp

either_empty :
    (b : Bool)
    → let no_search : List Search = [] in (if b then no_search else no_search) ≡ no_search
either_empty true = refl
either_empty false = refl

searches-local :
    (hostname : Option Text) (hints : Hints) → hints.family ≡ local → ga_nsearch hostname hints ≡ []
unfolding ga_nsearch
searches-local none hints e = rw e (either_empty hints.passive)
searches-local (some []) hints e = rw e (either_empty hints.passive)
searches-local (some (c ∷ cs)) hints e = rw e refl

-- AF_LOCAL is let through by ga_echeck, but with a host and a service that are not the special ones for
-- a path, getaddrinfo ends the process of its caller, whatever the resolver and the memory.
pub getaddrinfo_quits :
    (r : Resolver) (hostname servname : Option Text) (hints : Hints) (n : ℕ)
    → hints.family ≡ local
    → ga_echeck hostname servname hints ≡ none
    → unix_path hostname servname ≡ none
    → getaddrinfo r hostname servname (some hints) n ≡ quit
unfolding getaddrinfo
getaddrinfo_quits r hostname servname hints n e checks no_path =
    rw (checks, no_path, searches-local hostname hints e) refl
