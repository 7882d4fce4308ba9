-- ===== src/Rtt/Float.antt =====
-- The floating-point operations that rtt.c uses: a parameter, of which nothing is assumed.
use my_unp.Prelude.{ℕ, Bool}

pub record FloatOps (F : Type 0) : Type 0 where
  pub of_ℕ : ℕ → F
  pub three_quarters : F
  pub half : F
  pub add : F → F → F
  pub sub : F → F → F
  pub mul : F → F → F
  pub div : F → F → F
  pub neg : F → F
  pub lt : F → F → Bool
  -- The conversion to int, which truncates.
  pub to_int : F → ℕ
