-- ===== src/Tcpserv/Select/Sets.antt =====
-- tcpservselect01.c: the set of descriptors and the table of clients agree.
pub mod Rounds
use my_unp.Prelude.{
  FdSet, fd_put, fd_put_self, fd_put_ne, equal?, ℕ, zero, suc, ◌+◌, ◌-◌, ◌≤◌, ◌<◌, ◌≡◌, ◌≢◌, ◌⊎◌,
  inl, inr, refl, ◌∙◌, sym, ap, subst, List, [], ◌∷◌, Bool, true, false, ◌&&◌, ltb, leb, ◌==◌,
  if◌then◌else◌, Option, none, some, length, get_or, set, get_or-set_self, get_or-set_ne,
  get_or-replicate, replicate, Bool-cases, Option-cases, arith,
}
use my_unp.Tcpserv.Select.{
  Event, Server, Kernel, Outcome, running, too_many_clients, call_failed, init, find_free,
  accept_at, accept_client, serve_client, serve_loop, round,
}

-- The descriptor in an entry is in allset, at most maxfd, not the listening socket, and the entry is
-- at most maxi.
pub record Listed (listenfd : ℕ) (s : Server) (i fd : ℕ) : Type 0 where
  pub in_set : s.allset fd ≡ true
  pub up_to_maxfd : fd ≤ s.maxfd
  pub not_listening : fd ≢ listenfd
  pub up_to_maxi : i < s.top

-- allset has the listening socket and the clients' descriptors, and no two entries share one.
pub record Inv (listenfd : ℕ) (s : Server) : Type 0 where
  pub entries : (i fd : ℕ) → get_or s.client i none ≡ some fd → Listed listenfd s i fd
  pub owned :
      (fd : ℕ)
      → s.allset fd ≡ true
      → (fd ≡ listenfd) ⊎ ((i : ℕ) × (get_or s.client i none ≡ some fd))
  pub apart :
      (i j fd : ℕ) → get_or s.client i none ≡ some fd → get_or s.client j none ≡ some fd → i ≡ j
  pub listening : s.allset listenfd ≡ true
  pub below : listenfd ≤ s.maxfd

-- The entry found is in the table and free.
pub Free : ℕ → List (Option ℕ) → Option ℕ → Type 0
Free i cs none = Unit
Free i cs (some r) = (d : ℕ) × (r ≡ i + d) × (d < length cs) × (get_or cs d none ≡ none)

pub find_free-Free : (i : ℕ) (cs : List (Option ℕ)) → Free i cs (find_free i cs)
unfolding find_free Free
find_free-Free i [] = tt
find_free-Free i (none ∷ cs) = (0, omega arith, omega arith, refl)
find_free-Free i (some c ∷ cs) = go (find_free (i + 1) cs) (find_free-Free (i + 1) cs)
  where
    go : (r : Option ℕ) → Free (i + 1) cs r → Free i (some c ∷ cs) r
    go none h = tt
    go (some r) (d, at, fits, free) = (suc d, omega arith, omega arith, free)

-- What an entry is after a write: the one written, or another as it was.
written :
    (cs : List (Option ℕ)) (i j c fd : ℕ)
    → i < length cs
    → get_or (set cs i (some c)) j none ≡ some fd
    → ((j ≡ i) × (fd ≡ c)) ⊎ ((j ≢ i) × (get_or cs j none ≡ some fd))
written cs i j c fd here e = elim (equal? i j) [
  | inl same ↦
      let at_i : some c ≡ some fd =
        sym (get_or-set_self cs i (some c) none here)
        ∙ ap (λ x. get_or (set cs i (some c)) x none) same
        ∙ e in
      inl (sym same, cc)
  | inr other ↦ inr (λ q. other (sym q), sym (get_or-set_ne cs i j (some c) none other) ∙ e)
]

cleared : (cs : List (Option ℕ)) (i : ℕ) → get_or (set cs i none) i none ≡ none
cleared [] i = refl
cleared (c ∷ cs) zero = refl
cleared (c ∷ cs) (suc i) = cleared cs i

erased :
    (cs : List (Option ℕ)) (i j fd : ℕ)
    → get_or (set cs i none) j none ≡ some fd
    → (j ≢ i) × (get_or cs j none ≡ some fd)
erased cs i j fd e = elim (equal? i j) [
  | inl same ↦
      let at_i : none ≡ some fd =
        sym (cleared cs i) ∙ ap (λ x. get_or (set cs i none) x none) same ∙ e in
      absurd cc
  | inr other ↦ (λ q. other (sym q), sym (get_or-set_ne cs i j none none other) ∙ e)
]

module _ (l : ℕ) (s : Server) (v : Inv l s) where
  -- A descriptor in use is not one that accept hands out.
  pub accept_at-Inv :
      (c i : ℕ)
      → s.allset c ≡ false
      → i < length s.client
      → get_or s.client i none ≡ none
      → Inv l (record s {
        client = set s.client i (some c);
        allset = fd_put c true s.allset;
        maxfd = if ltb s.maxfd c then c else s.maxfd;
        top = if ltb s.top (i + 1) then i + 1 else s.top;
      })
  accept_at-Inv c i new here free = record {
    entries = λ j fd e. elim (written s.client i j c fd here e) [
      | inl (at, same) ↦ record {
        in_set = ap (fd_put c true s.allset) same ∙ fd_put_self c true s.allset;
        up_to_maxfd = ground (arith, same);
        not_listening = λ q. absurd (fresh l (sym same ∙ q) v.listening);
        up_to_maxi = ground (arith, at);
      }
      | inr (other, old) ↦
          let o = v.entries j fd old in
          record {
            in_set = fd_put_ne c fd true s.allset (λ q. fresh fd (sym q) o.in_set) ∙ o.in_set;
            up_to_maxfd = ground (arith, o.up_to_maxfd);
            not_listening = o.not_listening;
            up_to_maxi = ground (arith, o.up_to_maxi);
          }
    ];
    owned = λ fd e. elim (equal? fd c) [
      | inl same ↦
          inr (i, get_or-set_self s.client i (some c) none here ∙ ap (λ x. some x) (sym same))
      | inr other ↦ elim (v.owned fd (sym (fd_put_ne c fd true s.allset other) ∙ e)) [
        | inl q ↦ inl q
        | inr (j, q) ↦ inr (j, get_or-set_ne s.client i j (some c) none (λ r. taken j fd r q) ∙ q)
      ]
    ];
    apart = λ j k fd e f.
        both j k fd (written s.client i j c fd here e) (written s.client i k c fd here f);
    listening = fd_put_ne c l true s.allset (λ q. fresh l (sym q) v.listening) ∙ v.listening;
    below = ground (arith, v.below);
  }
    where
      fresh : (x : ℕ) → c ≡ x → s.allset x ≡ true → ⊥
      fresh x q e = cc

      taken : (j fd : ℕ) → i ≡ j → get_or s.client j none ≡ some fd → ⊥
      taken j fd r q = cc

      both :
          (j k fd : ℕ)
          → ((j ≡ i) × (fd ≡ c)) ⊎ ((j ≢ i) × (get_or s.client j none ≡ some fd))
          → ((k ≡ i) × (fd ≡ c)) ⊎ ((k ≢ i) × (get_or s.client k none ≡ some fd))
          → j ≡ k
      both j k fd (inl (a, b)) (inl (a', b')) = a ∙ sym a'
      both j k fd (inl (a, b)) (inr (a', old)) =
          absurd (fresh fd (sym b) (v.entries k fd old).in_set)
      both j k fd (inr (a, old)) (inl (a', b)) =
          absurd (fresh fd (sym b) (v.entries j fd old).in_set)
      both j k fd (inr (a, old)) (inr (a', old')) = v.apart j k fd old old'

  erase-Inv :
      (i fd : ℕ) (es : List Event)
      → get_or s.client i none ≡ some fd
      → Inv l
          (record s { client = set s.client i none; allset = fd_put fd false s.allset; log = es })
  erase-Inv i fd es here = record {
    entries = λ j x e.
        let (other, old) = erased s.client i j x e in
        let o = v.entries j x old in
        record {
          in_set = fd_put_ne fd x false s.allset (λ q. other (shared j x q old)) ∙ o.in_set;
          up_to_maxfd = o.up_to_maxfd;
          not_listening = o.not_listening;
          up_to_maxi = o.up_to_maxi;
        };
    owned = λ x e. elim (equal? x fd) [
      | inl same ↦ absurd (removed x same e)
      | inr other ↦ elim (v.owned x (sym (fd_put_ne fd x false s.allset other) ∙ e)) [
        | inl q ↦ inl q
        | inr (j, q) ↦
            inr (j, get_or-set_ne s.client i j none none (λ r. other (same_entry j x r q)) ∙ q)
      ]
    ];
    apart = λ j k x e f. v.apart j k x (erased s.client i j x e).1 (erased s.client i k x f).1;
    listening =
        fd_put_ne fd l false s.allset (λ q. (v.entries i fd here).not_listening (sym q))
        ∙ v.listening;
    below = v.below;
  }
    where
      shared : (j x : ℕ) → x ≡ fd → get_or s.client j none ≡ some x → j ≡ i
      shared j x q old = v.apart j i x old (here ∙ ap (λ y. some y) (sym q))

      same_entry : (j x : ℕ) → i ≡ j → get_or s.client j none ≡ some x → x ≡ fd
      same_entry j x r q = cc

      removed : (x : ℕ) → x ≡ fd → fd_put fd false s.allset x ≡ true → ⊥
      removed x same e = ground arith

  -- Only the log changes.
  log-Inv : (es : List Event) → Inv l (record s { log = es })
  log-Inv es = record {
    entries = λ i fd e.
        let o = v.entries i fd e in
        record {
          in_set = o.in_set;
          up_to_maxfd = o.up_to_maxfd;
          not_listening = o.not_listening;
          up_to_maxi = o.up_to_maxi;
        };
    owned = v.owned;
    apart = v.apart;
    listening = v.listening;
    below = v.below;
  }

  abbrev pub After : Option Server → Type 0
  After none = Unit
  After (some t) = Inv l t

  pub serve_client-Inv :
      (i fd : ℕ) (r : Option (List ℕ)) (ok : Bool)
      → get_or s.client i none ≡ some fd
      → After (serve_client i fd r ok s)
  serve_client-Inv i fd none ok e = tt
  serve_client-Inv i fd (some []) ok e = erase-Inv i fd _ e
  serve_client-Inv i fd (some (b ∷ bs)) true e = log-Inv _
  serve_client-Inv i fd (some (b ∷ bs)) false e = tt
