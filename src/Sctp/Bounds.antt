-- ===== src/Sctp/Bounds.antt =====
-- Which calls of sctp_recvmsg stay within the allocation.
use my_unp.Prelude.{
  ℕ, zero, suc, ◌+◌, ◌-◌, ◌≤◌, ◌<◌, ◌≡◌, refl, ◌∙◌, List, [], ◌∷◌, ◌++◌, Bool, true, false, ltb,
  not, ◌&&◌, if◌then◌else◌, length, length-append, inl, inr, ◌⊎◌, arith,
}
use my_unp.Sctp.{
  incr_sz, threshold, Offer, Buffer, Recv, piece, recv_error, Kernel, Result, message, null,
  waiting, allocate, offer, grow, on_piece, ready, gather, on_first, is_null, pdapi_recvmsg,
}

-- The room given lies within the allocation.
abbrev pub Within : Offer → Type 0
Within o = o.at + o.left ≤ o.allocated

abbrev pub AllWithin : List Offer → Type 0
AllWithin [] = Unit
AllWithin (o ∷ os) = Within o × AllWithin os

AllWithin-snoc :
    (os : List Offer) (o : Offer) → AllWithin os → Within o → AllWithin (os ++ (o ∷ []))
AllWithin-snoc [] o h k = (k, tt)
AllWithin-snoc (x ∷ os) o h k = (h.0, AllWithin-snoc os o h.1 k)

-- Where the buffer grows, with room left for less than SCTP_PDAPI_NEED_MODE_THRESHOLD bytes, the
-- allocation does not: the next sctp_recvmsg is given room past its end, at every size that
-- the buffer can have.
pub grow_overruns :
    (at : ℕ) (b : Buffer)
    → incr_sz ≤ b.rdbuf_sz
    → at ≤ b.rdbuf_sz
    → b.rdbuf_sz - at < threshold
    → ((grow at b).allocated ≡ incr_sz) × ((grow at b).allocated < at + ((grow at b).rdbuf_sz - at))
unfolding grow
grow_overruns at b big in_size low = (ground arith, ground arith)

-- A buffer whose recorded size is the one allocated, with all room given so far inside it.
pub record Sound (b : Buffer) : Type 0 where
  pub real : b.allocated ≡ b.rdbuf_sz
  pub within : AllWithin b.offers

-- What the loop, entered in `b` with `bytes` gathered, promises of a message, or of the bytes of one
-- that is still to come, that leaves the threshold free: the buffer was big enough all along.
abbrev pub Fits : Buffer → List ℕ → List ℕ → Buffer → Type 0
Fits b bytes m b' =
    (length bytes ≤ length m)
    × (length m + threshold ≤ b.rdbuf_sz → Sound b → Sound b' × (b'.rdbuf_sz ≡ b.rdbuf_sz))

abbrev pub Gathers : Buffer → List ℕ → Result → Type 0
Gathers b bytes (message m b') = Fits b bytes m b'
Gathers b bytes (null b') = Unit
Gathers b bytes (waiting m b') = Fits b bytes m b'

-- Without growth, what is offered is the rest of the allocation.
ready-Sound :
    (at : ℕ) (b : Buffer)
    → Sound b
    → at + threshold ≤ b.rdbuf_sz
    → Sound (ready at b) × ((ready at b).rdbuf_sz ≡ b.rdbuf_sz)
unfolding grow offer
ready-Sound at b v low = go (ltb (b.rdbuf_sz - at) threshold) refl
  where
    go :
        (t : Bool)
        → ltb (b.rdbuf_sz - at) threshold ≡ t
        → let g =
            if t then record b { allocated = incr_sz; rdbuf_sz = b.rdbuf_sz + incr_sz } else b in
          let b' = record g {
            offers =
                g.offers
                ++ (record { at = at; left = g.rdbuf_sz - at; allocated = g.allocated } ∷ []);
          } in
          Sound b' × (b'.rdbuf_sz ≡ b.rdbuf_sz)
    go true e = absurd (ground arith)
    go false e = (
      record { real = v.real; within = AllWithin-snoc b.offers _ v.within (omega (arith, v.real)) },
      refl,
    )

-- More bytes, in the buffer made ready for them.
Fits-ready :
    (bytes bs m : List ℕ) (b b' : Buffer)
    → Fits (ready (length bytes) b) (bytes ++ bs) m b'
    → Fits b bytes m b'
Fits-ready bytes bs m b b' h = (
  longer,
  λ low v.
      let r = ready-Sound (length bytes) b v (omega (arith, longer, low)) in
      let q = h.1 (omega (arith, low, r.1)) r.0 in (q.0, q.1 ∙ r.1),
)
  where
    longer : length bytes ≤ length m
    longer = omega (arith, h.0, length-append bytes bs)

Gathers-ready :
    (bytes bs : List ℕ) (b : Buffer) (r : Result)
    → Gathers (ready (length bytes) b) (bytes ++ bs) r
    → Gathers b bytes r
Gathers-ready bytes bs b (message m b') h = Fits-ready bytes bs m b b' h
Gathers-ready bytes bs b (null b') h = tt
Gathers-ready bytes bs b (waiting m b') h = Fits-ready bytes bs m b b' h

-- An answer of sctp_recvmsg, where the rest of the loop keeps the promise.
on_piece-Gathers :
    (bytes : List ℕ) (b : Buffer) (next : List ℕ → Result) (r : Recv)
    → ((m : List ℕ) → Gathers (ready (length bytes) b) m (next m))
    → Gathers b bytes (on_piece bytes (ready (length bytes) b) next r)
on_piece-Gathers bytes b next recv_error h = tt
on_piece-Gathers bytes b next (piece bs true) h =
    Fits-ready bytes bs (bytes ++ bs) b _ (omega arith, λ low v. (v, refl))
on_piece-Gathers bytes b next (piece bs false) h =
    Gathers-ready bytes bs b (next (bytes ++ bs)) (h (bytes ++ bs))

gather-Gathers :
    (ks : List Kernel) (bytes : List ℕ) (b : Buffer) → Gathers b bytes (gather ks bytes b)
unfolding gather
gather-Gathers [] bytes b = (omega arith, λ low v. (v, refl))
gather-Gathers (k ∷ ks) bytes b =
    pick (ltb (b.rdbuf_sz - length bytes) threshold && not k.realloc_ok) _ (
      on_piece-Gathers bytes b (λ m. gather ks m (ready (length bytes) b)) _
        (λ m. gather-Gathers ks m (ready (length bytes) b)))
  where
    pick :
        (t : Bool) (more : Result)
        → Gathers b bytes more
        → Gathers b bytes (if t then null (record b { allocated = 0 }) else more)
    pick true more h = tt
    pick false more h = h

-- The first sctp_recvmsg is given the whole of a sound buffer.
on_first-Gathers : (ks : List Kernel) (b : Buffer) (r : Recv) → Gathers b [] (on_first ks b r)
on_first-Gathers ks b recv_error = tt
on_first-Gathers ks b (piece [] eor) = tt
on_first-Gathers ks b (piece (x ∷ xs) true) = (omega arith, λ low v. (v, refl))
on_first-Gathers ks b (piece (x ∷ xs) false) =
    shorter (gather ks (x ∷ xs) b) (gather-Gathers ks (x ∷ xs) b)
  where
    shorter : (r : Result) → Gathers b (x ∷ xs) r → Gathers b [] r
    shorter (message m b') h = (omega arith, h.1)
    shorter (null b') h = tt
    shorter (waiting m b') h = (omega arith, h.1)

-- The allocation at the start, offered whole.
abbrev pub Offered : Buffer → Type 0
Offered a = Sound (offer 0 (a.rdbuf_sz) a)

offer-Sound : (b : Buffer) → b.allocated ≡ b.rdbuf_sz → AllWithin b.offers → Offered b
unfolding offer
offer-Sound b e w = record { real = e; within = AllWithin-snoc b.offers _ w (omega (arith, e)) }

allocate-Sound :
    (b : Buffer) → (b.allocated ≡ 0) ⊎ Sound b → AllWithin b.offers → Offered (allocate b)
unfolding allocate
allocate-Sound b h w = go (b.allocated) refl
  where
    real : (b.allocated ≡ 0) ⊎ Sound b → 1 ≤ b.allocated → b.allocated ≡ b.rdbuf_sz
    real (inl z) big = absurd (omega (arith, z, big))
    real (inr v) big = v.real

    go :
        (n : ℕ)
        → b.allocated ≡ n
        → Offered
            (elim n [ zero ↦ record b { allocated = incr_sz; rdbuf_sz = incr_sz } | suc m ↦ b ])
    go zero e = offer-Sound (record b { allocated = incr_sz; rdbuf_sz = incr_sz }) refl w
    go (suc n) e = offer-Sound b (real h (omega (arith, e))) w

-- All the room that the call has given to sctp_recvmsg lies in the allocation, and the size counted is
-- the size allocated, where the bytes gathered leave SCTP_PDAPI_NEED_MODE_THRESHOLD free in a buffer of
-- `size` bytes.
abbrev pub Stays : ℕ → Result → Type 0
Stays size (message m b') = length m + threshold ≤ size → Sound b' × (b'.rdbuf_sz ≡ size)
Stays size (null b') = Unit
Stays size (waiting m b') = length m + threshold ≤ size → Sound b' × (b'.rdbuf_sz ≡ size)

-- pdapi_recvmsg in a buffer that is not allocated yet, or in one whose counted size is the allocated
-- one: whatever the kernel answers, a message (or the part of one that has come) that leaves the
-- threshold free was received inside the allocation, and the buffer is sound again.
pub pdapi_recvmsg-Stays :
    (malloc_ok : Bool) (first : ℕ → Recv) (ks : List Kernel) (b : Buffer)
    → (b.allocated ≡ 0) ⊎ Sound b
    → AllWithin b.offers
    → Stays ((allocate b).rdbuf_sz) (pdapi_recvmsg malloc_ok first ks b)
unfolding pdapi_recvmsg offer
pdapi_recvmsg-Stays malloc_ok first ks b h w =
    pick (is_null b && not malloc_ok) _ (on_first-Gathers ks _ (first ((allocate b).rdbuf_sz)))
  where
    b₁ : Buffer
    b₁ = offer 0 ((allocate b).rdbuf_sz) (allocate b)

    stays : (r : Result) → Gathers b₁ [] r → Stays ((allocate b).rdbuf_sz) r
    stays (message m b') g = λ low. g.1 low (allocate-Sound b h w)
    stays (null b') g = tt
    stays (waiting m b') g = λ low. g.1 low (allocate-Sound b h w)

    pick :
        (t : Bool) (r : Result)
        → Gathers b₁ [] r
        → Stays ((allocate b).rdbuf_sz) (if t then null b else r)
    pick true r g = tt
    pick false r g = stays r g
