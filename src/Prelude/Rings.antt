-- ===== src/Prelude/Rings.antt =====
-- Slots of a list read round and round.
use Prim.Native.Nat.{ℕ, zero, suc, ◌+◌, ◌-◌, ◌≤◌, ◌<◌}
use mathlib.Core.Path.{◌≡◌, refl, ap₂}
use mathlib.Core.List.{List, [], ◌∷◌, ◌++◌}
use native.Mathlib.Omega.{arith}
use my_unp.Prelude.Tests.{ltb, if◌then◌else◌}
use my_unp.Prelude.Lists.{length, get_or, set, get_or-set_self, get_or-set_ne}

-- An index below 2 * size, back in the ring.
abbrev pub around : ℕ → ℕ → ℕ
around size i = if ltb i size then i else i - size

module _ {ℓ} {A : Type ℓ} (size : ℕ) (d : A) where
  -- The `n` slots from `h` on.
  abbrev pub slots : List A → ℕ → ℕ → List A
  slots xs h zero = []
  slots xs h (suc n) = get_or xs h d ∷ slots xs (around size (h + 1)) n

  pub length-slots : (xs : List A) (h n : ℕ) → length (slots xs h n) ≡ n
  length-slots xs h zero = refl
  length-slots xs h (suc n) = omega (arith, length-slots xs (around size (h + 1)) n)

  -- Writing just behind the slots in use appends.
  pub slots-set :
      (xs : List A) (v : A) (n h i : ℕ)
      → size ≤ length xs
      → h < size
      → n < size
      → i ≡ around size (h + n)
      → slots (set xs i v) h (suc n) ≡ slots xs h n ++ (v ∷ [])
  slots-set xs v zero h i big hh hn e =
      let same : i ≡ h = ground arith in rw (same, get_or-set_self xs h v d (omega arith))
  slots-set xs v (suc n) h i big hh hn e =
      ap₂ ◌∷◌ (get_or-set_ne xs i h v d (ground arith))
        (slots-set xs v n (around size (h + 1)) i big (ground arith) (omega arith) (ground arith))
