-- ===== src/Ping/Outside.antt =====
-- Where proc_v4 reads behind the packet received.
use my_unp.Prelude.{
  ℕ, zero, suc, ◌+◌, ◌-◌, ◌*◌, ◌%◌, ◌≤◌, ◌<◌, ◌≡◌, refl, ◌∙◌, sym, ap, List, [], ◌∷◌, Bool, true,
  false, ltb, ◌==◌, if◌then◌else◌, none, some, take, drop, length, length-drop, get_elem?, arith,
}
use my_unp.Cksum.{word}
use my_unp.Ping.{
  Timeval, loaded, Ping, ignored, other, reply_at, timeval_at, proc_icmp, proc_packet, proc_v4,
}

reply_at-none :
    (p : Ping) (icmplen seq ttl : ℕ) (now : Timeval) (bs : List ℕ)
    → reply_at (timeval_at p.order bs) icmplen seq ttl now ≡ none
    → length bs < 16
reply_at-none p icmplen seq ttl now bs = go (ltb (length bs) 16) refl
  where
    go :
        (few : Bool)
        → ltb (length bs) 16 ≡ few
        → reply_at
            (if few
              then none
              else some (record {
                sec = loaded p.order (take 8 bs);
                usec = loaded p.order (take 8 (drop 8 bs));
              }))
            icmplen
            seq
            ttl
            now
          ≡ none
        → length bs < 16
    go true e h = ground arith
    go false e h = absurd cc

proc_icmp-none :
    (p : Ping) (icmplen ttl : ℕ) (now : Timeval) (message : List ℕ)
    → 8 ≤ length message
    → proc_icmp p icmplen ttl now message ≡ none
    → (16 ≤ icmplen) × (length message < 24)
proc_icmp-none p icmplen ttl now [] h = λ e. absurd (omega (arith, h))
proc_icmp-none p icmplen ttl now (_ ∷ []) h = λ e. absurd (omega (arith, h))
proc_icmp-none p icmplen ttl now (_ ∷ _ ∷ []) h = λ e. absurd (omega (arith, h))
proc_icmp-none p icmplen ttl now (_ ∷ _ ∷ _ ∷ []) h = λ e. absurd (omega (arith, h))
proc_icmp-none p icmplen ttl now (_ ∷ _ ∷ _ ∷ _ ∷ []) h = λ e. absurd (omega (arith, h))
proc_icmp-none p icmplen ttl now (_ ∷ _ ∷ _ ∷ _ ∷ _ ∷ []) h = λ e. absurd (omega (arith, h))
proc_icmp-none p icmplen ttl now (_ ∷ _ ∷ _ ∷ _ ∷ _ ∷ _ ∷ []) h = λ e. absurd (omega (arith, h))
proc_icmp-none p icmplen ttl now (_ ∷ _ ∷ _ ∷ _ ∷ _ ∷ _ ∷ _ ∷ []) h = λ e. absurd (omega (arith, h))
proc_icmp-none p icmplen ttl now (t ∷ c ∷ _ ∷ _ ∷ i₀ ∷ i₁ ∷ s₀ ∷ s₁ ∷ bs) h =
    go (t == 0) (word p.order i₀ i₁ == p.pid) (ltb icmplen 16) refl
  where
    go :
        (echo ours few : Bool)
        → ltb icmplen 16 ≡ few
        → (if echo
            then (if ours
                then (if few
                    then some ignored
                    else reply_at (timeval_at p.order bs) icmplen (word p.order s₀ s₁) ttl now)
                else some ignored)
            else some (other icmplen t c))
          ≡ none
        → (16 ≤ icmplen) × (suc (suc (suc (suc (suc (suc (suc (suc (length bs)))))))) < 24)
    go false ours few e q = absurd cc
    go true false few e q = absurd cc
    go true true true e q = absurd cc
    go true true false e q =
        (ground arith, omega (arith, reply_at-none p icmplen (word p.order s₀ s₁) ttl now bs q))

has_elem : (xs : List ℕ) (i : ℕ) → i < length xs → (x : ℕ) × (get_elem? xs i ≡ some x)
has_elem [] i h = absurd (omega (arith, h))
has_elem (x ∷ xs) zero h = (x, refl)
has_elem (x ∷ xs) (suc i) h = has_elem xs i (omega (arith, h))

-- For a packet of 20 bytes and more, which the IP header makes sure of, a read outside of the bytes
-- received comes only with an ICMP message of 16 to 23 bytes: the test on 16 bytes lets it pass, and
-- the time of 16 bytes behind the header of 8 is read.
pub proc_v4-outside :
    (p : Ping) (now : Timeval) (b : ℕ) (rest : List ℕ)
    → 20 ≤ length (b ∷ rest)
    → proc_v4 p now (b ∷ rest) ≡ none
    → (4 * (b % 16) + 16 ≤ length (b ∷ rest)) × (length (b ∷ rest) < 4 * (b % 16) + 24)
unfolding proc_v4
proc_v4-outside p now b rest long q =
    let ttl = has_elem (b ∷ rest) 8 (omega (arith, long)) in
    let proto = has_elem (b ∷ rest) 9 (omega (arith, long)) in
    go ttl.0 (proto.0 == 1) (ltb (length (b ∷ rest)) (hlen1 + 8)) refl (
      sym (
        ap (λ x. proc_packet p now (b ∷ rest) (some b) x (get_elem? (b ∷ rest) 9)) ttl.1
        ∙ ap (λ x. proc_packet p now (b ∷ rest) (some b) (some ttl.0) x) proto.1)
      ∙ q)
  where
    hlen1 : ℕ
    hlen1 = 4 * (b % 16)

    go :
        (ttl : ℕ) (icmp short : Bool)
        → ltb (length (b ∷ rest)) (hlen1 + 8) ≡ short
        → (if icmp
            then (if short
                then some ignored
                else proc_icmp p (length (b ∷ rest) - hlen1) ttl now (drop hlen1 (b ∷ rest)))
            else some ignored)
          ≡ none
        → (hlen1 + 16 ≤ length (b ∷ rest)) × (length (b ∷ rest) < hlen1 + 24)
    go ttl false short f q = absurd cc
    go ttl true true f q = absurd cc
    go ttl true false f q =
        let few =
          proc_icmp-none p (length (b ∷ rest) - hlen1) ttl now (drop hlen1 (b ∷ rest))
            (ground (arith, f, length-drop hlen1 (b ∷ rest))) q in
        (omega (arith, few.0), ground (arith, f, few.1, length-drop hlen1 (b ∷ rest)))
