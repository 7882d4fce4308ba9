-- ===== src/Prelude/Sets.antt =====
-- fd_set as a test, with FD_SET and FD_CLR.
use Prim.Native.Nat.{ℕ}
use mathlib.Core.Path.{◌≡◌}
use mathlib.Core.Logic.{◌≢◌, ◌⊎◌, inl, inr}
use mathlib.Core.Bool.{Bool}
use native.Mathlib.Omega.{arith}
use my_unp.Prelude.Tests.{◌==◌, if◌then◌else◌, Bool-cases}

abbrev pub FdSet : Type 0
FdSet = ℕ → Bool

abbrev pub fd_put : ℕ → Bool → FdSet → FdSet
fd_put fd b s = λ x. if x == fd then b else s x

pub fd_put_self : (fd : ℕ) (b : Bool) (s : FdSet) → fd_put fd b s fd ≡ b
fd_put_self fd b s = ground arith

pub fd_put_ne : (fd x : ℕ) (b : Bool) (s : FdSet) → x ≢ fd → fd_put fd b s x ≡ s x
fd_put_ne fd x b s h = ground arith

pub equal? : (a b : ℕ) → (a ≡ b) ⊎ (a ≢ b)
equal? a b = elim (Bool-cases (a == b)) [
  | inl e ↦ inl (ground arith)
  | inr n ↦ inr (λ e. ground arith)
]
