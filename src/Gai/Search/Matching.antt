-- ===== src/Gai/Search/Matching.antt =====
-- Each address that the searches add is of the family asked for.
use my_unp.Prelude.{
  leb, length, ℕ, zero, suc, ◌≡◌, ◌⊎◌, inl, inr, refl, sym, subst, List, [], ◌∷◌, ◌++◌, Bool, true,
  false, ==_iff, Option, none, some, Text, Bool-cases, arith,
}
use my_unp.Gai.{
  Family, unspec, inet, inet6, local, other, is_family, is_family_eq, Hints, Addrinfo, ◌>>=◌, done,
  raise, alloc, Post, Post-bind, Post-if, Post-weaken, service, addrfamily,
}
use my_unp.Gai.Matches.{Matches, AllMatch, AllMatch-append}
use my_unp.Gai.Search.{
  sun_path_size, host_error, entry, socket_address, ga_aistruct, Hostent, found, lookup_failed,
  Resolver, Found, mismatch, numeric, add_addresses, save_canon, looked_up, search_hex, read_hex,
  search_dotted, read_dotted, Search, search_one, search_all,
}

abbrev pub Asked : Hints → Family → Type 0
Asked hints family = (hints.family ≡ unspec) ⊎ (family ≡ hints.family)

pub mismatch-Asked :
    (hints : Hints) (family : Family) → mismatch hints family ≡ false → Asked hints family
mismatch-Asked hints family h = elim (Bool-cases (is_family hints.family unspec)) [
  | inl any ↦ inl (is_family_eq hints.family unspec any)
  | inr given ↦ elim (Bool-cases (is_family hints.family family)) [
    | inl same ↦ inr (sym (is_family_eq hints.family family same))
    | inr differs ↦ absurd (ground arith)
  ]
]

pub alloc-Post : (n : ℕ) → Post (λ u. Unit {0}) (alloc n)
alloc-Post zero = tt
alloc-Post (suc n) = tt

socket_address-Post :
    (addr : List ℕ) (family : Family) (n : ℕ) → Post (λ u. Unit {0}) (socket_address addr family n)
socket_address-Post addr inet n = alloc-Post n
socket_address-Post addr inet6 n = alloc-Post n
socket_address-Post addr local n =
    Post-if (λ u. Unit {0}) (leb sun_path_size (length addr)) (raise service) alloc n (λ e. tt)
      (λ e. alloc-Post n)
socket_address-Post addr unspec n = tt
socket_address-Post addr (other m) n = tt

entry-Matches :
    (hints : Hints) (addr : List ℕ) (family : Family)
    → Asked hints family
    → Matches hints (entry hints addr family)
entry-Matches hints addr family h = record {
  family_asked = h;
  protocol_asked = refl;
  type_asked = inr refl;
  clone_untyped = λ e. (==_iff hints.socktype 0).0 e;
}

-- ga_aistruct adds one entry at the end.
pub ga_aistruct_adds :
    (hints : Hints) (addr : List ℕ) (family : Family) (ais : List Addrinfo) (n : ℕ)
    → Post
        (λ ais'. ais' ≡ ais ++ (entry hints addr family ∷ []))
        (ga_aistruct hints addr family ais n)
unfolding ga_aistruct
ga_aistruct_adds hints addr family ais n =
    Post-bind (λ u. Unit {0}) (λ ais'. ais' ≡ ais ++ (entry hints addr family ∷ [])) alloc
      (λ u. socket_address addr family >>= λ u'. done (ais ++ (entry hints addr family ∷ []))) n
      (alloc-Post n)
      (λ u m t.
        Post-bind (λ u. Unit {0}) (λ ais'. ais' ≡ ais ++ (entry hints addr family ∷ []))
          (socket_address addr family) (λ u'. done (ais ++ (entry hints addr family ∷ []))) m
          (socket_address-Post addr family m) (λ u' m' t'. refl))

ga_aistruct-AllMatch :
    (hints : Hints) (addr : List ℕ) (family : Family) (ais : List Addrinfo) (n : ℕ)
    → Asked hints family
    → AllMatch hints ais
    → Post (λ ais'. AllMatch hints ais') (ga_aistruct hints addr family ais n)
ga_aistruct-AllMatch hints addr family ais n h k =
    Post-weaken (λ ais'. ais' ≡ ais ++ (entry hints addr family ∷ [])) (λ ais'. AllMatch hints ais')
      _
      (λ ais' e.
        subst (AllMatch hints) (sym e)
          (AllMatch-append hints ais _ k (entry-Matches hints addr family h, tt)))
      (ga_aistruct_adds hints addr family ais n)

-- What the loop has collected.
abbrev pub FoundMatch : Hints → Found → Type 0
FoundMatch hints f = AllMatch hints f.list

numeric-FoundMatch :
    (hints : Hints) (s : Search) (family : Family) (addr : List ℕ) (f : Found) (n : ℕ)
    → FoundMatch hints f
    → Post (λ f'. FoundMatch hints f') (numeric hints s family addr f n)
numeric-FoundMatch hints s family addr f n h =
    Post-if (λ f'. FoundMatch hints f') (mismatch hints family) (raise addrfamily) _ n (λ e. tt)
      (λ ok.
        Post-if (λ f'. FoundMatch hints f') (is_family s.family family) _ (done f) n
          (λ e.
            Post-bind (λ ais. AllMatch hints ais) (λ f'. FoundMatch hints f')
              (ga_aistruct hints addr family f.list) (λ ais. done (record f { list = ais })) n
              (ga_aistruct-AllMatch hints addr family f.list n (mismatch-Asked hints family ok) h)
              (λ ais k g. g))
          (λ e. h))

add_addresses-AllMatch :
    (hints : Hints) (family : Family) (addrs : List (List ℕ)) (ais : List Addrinfo) (n : ℕ)
    → Asked hints family
    → AllMatch hints ais
    → Post (λ ais'. AllMatch hints ais') (add_addresses hints family addrs ais n)
unfolding add_addresses
add_addresses-AllMatch hints family [] ais n a h = h
add_addresses-AllMatch hints family (x ∷ xs) ais n a h =
    Post-bind (λ ais'. AllMatch hints ais') (λ ais'. AllMatch hints ais')
      (ga_aistruct hints x family ais) (add_addresses hints family xs) n
      (ga_aistruct-AllMatch hints x family ais n a h)
      (λ more k g. add_addresses-AllMatch hints family xs more k a g)

save_canon-Post :
    (b : Bool) (name : Text) (c : Option Text) (n : ℕ)
    → Post (λ c'. Unit {0}) (save_canon b name c n)
save_canon-Post true name none n =
    Post-bind (λ u. Unit {0}) (λ c'. Unit {0}) alloc (λ u. done (some name)) n (alloc-Post n)
      (λ u k t. tt)
save_canon-Post true name (some c) n = tt
save_canon-Post false name c n = tt

looked_up-FoundMatch :
    (hints : Hints) (several named : Bool) (host : Hostent) (f : Found) (n : ℕ)
    → FoundMatch hints f
    → Post (λ f'. FoundMatch hints f') (looked_up hints several named host f n)
looked_up-FoundMatch hints several named (lookup_failed e) f n h =
    Post-if (λ f'. FoundMatch hints f') several (done f) (raise (host_error e)) n (λ q. h) (λ q. tt)
looked_up-FoundMatch hints several named (found name family addrs) f n h =
    Post-if (λ f'. FoundMatch hints f') (mismatch hints family) (raise addrfamily) _ n (λ e. tt)
      (λ ok.
        Post-bind (λ c. Unit {0}) (λ f'. FoundMatch hints f') (save_canon named name f.canon)
          (λ c. add_addresses hints family addrs f.list >>= λ ais.
            done (record { list = ais; canon = c }))
          n (save_canon-Post named name f.canon n)
          (λ c k t.
            Post-bind (λ ais. AllMatch hints ais) (λ f'. FoundMatch hints f')
              (add_addresses hints family addrs f.list)
              (λ ais. done (record { list = ais; canon = c })) k
              (add_addresses-AllMatch hints family addrs f.list k (mismatch-Asked hints family ok)
                h)
              (λ ais k' g. g)))

module _ (r : Resolver) (hints : Hints) (several named : Bool) where
  search_hex-FoundMatch :
      (s : Search) (o : Option (List ℕ)) (f : Found) (n : ℕ)
      → FoundMatch hints f
      → Post (λ f'. FoundMatch hints f') (search_hex r hints several named s o f n)
  search_hex-FoundMatch s (some addr) f n h = numeric-FoundMatch hints s inet6 addr f n h
  search_hex-FoundMatch s none f n h = looked_up-FoundMatch hints several named _ f n h

  search_dotted-FoundMatch :
      (s : Search) (o : Option (List ℕ)) (f : Found) (n : ℕ)
      → FoundMatch hints f
      → Post (λ f'. FoundMatch hints f') (search_dotted r hints several named s o f n)
  search_dotted-FoundMatch s (some addr) f n h = numeric-FoundMatch hints s inet addr f n h
  search_dotted-FoundMatch s none f n h = search_hex-FoundMatch s (read_hex r s.host) f n h

  pub search_all-FoundMatch :
      (ss : List Search) (f : Found) (n : ℕ)
      → FoundMatch hints f
      → Post (λ f'. FoundMatch hints f') (search_all r hints several named ss f n)
  unfolding search_all search_one
  search_all-FoundMatch [] f n h = h
  search_all-FoundMatch (s ∷ ss) f n h =
      Post-bind (λ f'. FoundMatch hints f') (λ f'. FoundMatch hints f')
        (search_one r hints several named s f) (search_all r hints several named ss) n
        (search_dotted-FoundMatch s (read_dotted r s.host) f n h)
        (λ f' k g. search_all-FoundMatch ss f' k g)
