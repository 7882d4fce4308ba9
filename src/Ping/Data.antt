-- ===== src/Ping/Data.antt =====
-- The data of a request of ping: the time and the pattern.
use my_unp.Prelude.{
  ℕ, zero, suc, ◌-◌, ◌^◌, ◌≤◌, ◌<◌, ◌≡◌, refl, ◌∙◌, ap, List, [], ◌∷◌, ◌++◌, append_assoc, false,
  ltb, some, take, drop, take_all, length, length-append, length-replicate, replicate, get_elem?,
  arith,
}
use my_unp.Cksum.{ByteOrder}
use my_unp.Cksum.Verifies.{AllBytes}
use my_unp.Ping.{Timeval, stored, timeval_bytes, Ping, icmp_data, timeval_at}
use my_unp.Ping.Bytes.{length-stored, loaded-stored_long}

take-front : (n : ℕ) (xs ys : List ℕ) → length xs ≡ n → take n (xs ++ ys) ≡ xs
take-front zero [] ys e = refl
take-front zero (x ∷ xs) ys e = absurd (omega (arith, e))
take-front (suc n) [] ys e = absurd (omega (arith, e))
take-front (suc n) (x ∷ xs) ys e = ap (λ t. x ∷ t) (take-front n xs ys (omega (arith, e)))

pub drop-front : (n : ℕ) (xs ys : List ℕ) → length xs ≡ n → drop n (xs ++ ys) ≡ ys
drop-front zero [] ys e = refl
drop-front zero (x ∷ xs) ys e = absurd (omega (arith, e))
drop-front (suc n) [] ys e = absurd (omega (arith, e))
drop-front (suc n) (x ∷ xs) ys e = drop-front n xs ys (omega (arith, e))

pub get_elem?-append :
    (xs ys : List ℕ) (i x : ℕ) → get_elem? xs i ≡ some x → get_elem? (xs ++ ys) i ≡ some x
get_elem?-append [] ys i x e = absurd cc
get_elem?-append (a ∷ xs) ys zero x e = e
get_elem?-append (a ∷ xs) ys (suc i) x e = get_elem?-append xs ys i x e

pub AllBytes-take : (n : ℕ) (xs : List ℕ) → AllBytes xs → AllBytes (take n xs)
AllBytes-take zero xs h = tt
AllBytes-take (suc n) [] h = tt
AllBytes-take (suc n) (x ∷ xs) h = (h.0, AllBytes-take n xs h.1)

pub AllBytes-replicate : (n : ℕ) → AllBytes (replicate n 165)
AllBytes-replicate zero = tt
AllBytes-replicate (suc n) = (omega arith, AllBytes-replicate n)

length-timeval_bytes : (o : ByteOrder) (t : Timeval) → length (timeval_bytes o t) ≡ 16
length-timeval_bytes o t = omega (
  arith,
  length-append (stored o 8 t.sec) (stored o 8 t.usec),
  length-stored o 8 t.sec,
  length-stored o 8 t.usec,
)

-- With room for it, the time stands in front of the pattern.
pub icmp_data-split :
    (p : Ping) (t : Timeval)
    → 16 ≤ p.datalen
    → icmp_data p t ≡ timeval_bytes p.order t ++ replicate (p.datalen - 16) 165
icmp_data-split p t h = take_all p.datalen whole (omega (arith, full))
  where
    whole : List ℕ
    whole = timeval_bytes p.order t ++ replicate (p.datalen - 16) 165

    full : length whole ≡ p.datalen
    full = omega (
      arith,
      h,
      length-append (timeval_bytes p.order t) (replicate (p.datalen - 16) 165),
      length-timeval_bytes p.order t,
      length-replicate {A = ℕ} (p.datalen - 16) 165,
    )

pub length-icmp_data :
    (p : Ping) (t : Timeval) → 16 ≤ p.datalen → length (icmp_data p t) ≡ p.datalen
length-icmp_data p t h = omega (
  arith,
  h,
  ap length (icmp_data-split p t h),
  length-append (timeval_bytes p.order t) (replicate (p.datalen - 16) 165),
  length-timeval_bytes p.order t,
  length-replicate {A = ℕ} (p.datalen - 16) 165,
)

pub timeval_at-front :
    (o : ByteOrder) (t : Timeval) (rest : List ℕ)
    → t.sec < 2 ^ 64
    → t.usec < 2 ^ 64
    → timeval_at o (timeval_bytes o t ++ rest) ≡ some t
timeval_at-front o t rest h k =
    let room : ltb (length (timeval_bytes o t ++ rest)) 16 ≡ false =
      ground (arith, length-append (timeval_bytes o t) rest, length-timeval_bytes o t) in
    let first : take 8 (timeval_bytes o t ++ rest) ≡ stored o 8 t.sec =
      ap (take 8) (append_assoc (stored o 8 t.sec) (stored o 8 t.usec) rest)
      ∙ take-front 8 (stored o 8 t.sec) (stored o 8 t.usec ++ rest) (length-stored o 8 t.sec) in
    let second : take 8 (drop 8 (timeval_bytes o t ++ rest)) ≡ stored o 8 t.usec =
      ap (λ x. take 8 (drop 8 x)) (append_assoc (stored o 8 t.sec) (stored o 8 t.usec) rest)
      ∙ ap (take 8)
          (drop-front 8 (stored o 8 t.sec) (stored o 8 t.usec ++ rest) (length-stored o 8 t.sec))
      ∙ take-front 8 (stored o 8 t.usec) rest (length-stored o 8 t.usec) in
    rw (room, first, second, loaded-stored_long o t.sec h, loaded-stored_long o t.usec k) refl
