-- ===== src/Gai.antt =====
-- origin-src/unpv13e/libgai: an implementation of getaddrinfo and getnameinfo.
pub mod Matches
pub mod Ports
pub mod Search
pub mod Lookup
pub mod Names
mod Tests
use my_unp.Prelude.{
  ℕ, zero, suc, List, [], ◌∷◌, Bool, true, false, ◌==◌, Option, none, some, Text, if◌then◌else◌,
  ◌≡◌, refl, ap, ==_iff, arith,
}

-- AF_xxx; `other` is a family that the code does not know.
pub data Family : Type 0 where
  unspec inet inet6 local : Family
  other : ℕ → Family

abbrev pub family_code : Family → ℕ
family_code unspec = 0
family_code inet = 1
family_code inet6 = 2
family_code local = 3
family_code (other n) = suc (suc (suc (suc n)))

abbrev pub is_family : Family → Family → Bool
is_family a b = family_code a == family_code b

-- SOCK_xxx
abbrev pub sock_stream : ℕ
sock_stream = 1

abbrev pub sock_dgram : ℕ
sock_dgram = 2

abbrev pub sock_raw : ℕ
sock_raw = 3

-- EAI_xxx
pub data Error : Type 0 where
  addrfamily again badflags fail family memory nodata noname service socktype system : Error

-- `*hintsp`, with the bits of ai_flags.
pub record Hints : Type 0 where
  pub passive : Bool
  pub canonname : Bool
  pub unknown_flags : Bool
  pub family : Family
  pub socktype : ℕ
  pub protocol : ℕ

-- `struct addrinfo`, with its socket address: the IP address or the path, and the port in host order.
-- `clone` is the bit AI_CLONE of ai_flags.
pub record Addrinfo : Type 0 where
  pub clone : Bool
  pub family : Family
  pub socktype : ℕ
  pub protocol : ℕ
  pub addr : List ℕ
  pub port : ℕ
  pub canonname : Option Text

-- How a call ends: with a result and the number of allocations that will still succeed; with an error;
-- or in err_quit.
pub data Result (A : Type 0) : Type 0 where
  ok : A → ℕ → Result A
  failed : Error → Result A
  quit : Result A

-- The state is the number of allocations that succeed before one fails.
abbrev pub M : Type 0 → Type 0
M A = ℕ → Result A

abbrev pub after : {A B : Type 0} → Result A → (A → M B) → Result B
after (ok a n) f = f a n
after (failed e) f = failed e
after quit f = quit

infixl 5 ◌>>=◌
abbrev pub ◌>>=◌ : {A B : Type 0} → M A → (A → M B) → M B
◌>>=◌ m f n = after (m n) f

abbrev pub done : {A : Type 0} → A → M A
done a n = ok a n

abbrev pub raise : {A : Type 0} → Error → M A
raise e n = failed e

-- calloc, malloc or strdup.
abbrev pub alloc : M (Unit {0})
alloc zero = failed memory
alloc (suc n) = ok tt n

pub is_family_eq : (a b : Family) → is_family a b ≡ true → a ≡ b
is_family_eq unspec unspec h = refl
is_family_eq inet inet h = refl
is_family_eq inet6 inet6 h = refl
is_family_eq local local h = refl
is_family_eq (other m) (other n) h =
    ap other (omega (arith, (==_iff (suc (suc (suc (suc m)))) (suc (suc (suc (suc n))))).0 h))
is_family_eq unspec b h = ground arith
is_family_eq inet b h = ground arith
is_family_eq inet6 b h = ground arith
is_family_eq local b h = ground arith
is_family_eq (other m) b h = ground arith

-- What holds of the result of a call, where it has one; the call does not quit.
abbrev pub Post : {A : Type 0} → (A → Type 0) → Result A → Type 0
Post P (ok a n) = P a
Post P (failed e) = Unit
Post P quit = ⊥

-- The rule for a bind.
pub Post-bind :
    {A B : Type 0} (P : A → Type 0) (Q : B → Type 0) (m : M A) (f : A → M B) (n : ℕ)
    → Post P (m n)
    → ((a : A) (k : ℕ) → P a → Post Q (f a k))
    → Post Q ((m >>= f) n)
Post-bind {A} P Q m f n h rest = go (m n) h
  where
    go : (r : Result A) → Post P r → Post Q (after r f)
    go (ok a k) h = rest a k h
    go (failed e) h = tt
    go quit h = absurd h

pub Post-if :
    {A : Type 0} (P : A → Type 0) (b : Bool) (m m' : M A) (n : ℕ)
    → (b ≡ true → Post P (m n))
    → (b ≡ false → Post P (m' n))
    → Post P ((if b then m else m') n)
Post-if P true m m' n h k = h refl
Post-if P false m m' n h k = k refl

pub Post-weaken :
    {A : Type 0} (P Q : A → Type 0) (r : Result A) → ((a : A) → P a → Q a) → Post P r → Post Q r
Post-weaken P Q (ok a n) w h = w a h
Post-weaken P Q (failed e) w h = tt
Post-weaken P Q quit w h = h
