-- ===== src/Float.antt =====
-- Floating-point numbers: a value is its bit pattern, and the operations that the code uses are a
-- parameter, whose rounding is left open. Where a theorem needs a
-- property of the comparison, it names it.
use chirpstack_network_serve.Prelude.{ℕ, Bool, ◌≡◌, false, true}
use chirpstack_network_serve.Prelude.Int.{ℤ}

pub record FloatOps : Type 0 where
  -- a conversion from an integer, or an integer literal
  pub of_ℤ : ℤ → ℕ
  -- a literal, given in tenths
  pub of_tenths : ℤ → ℕ
  -- the conversion to int, which truncates
  pub to_ℤ : ℕ → ℤ
  pub sub : ℕ → ℕ → ℕ
  pub mul : ℕ → ℕ → ℕ
  pub div : ℕ → ℕ → ℕ
  -- the test `<`
  pub lt : ℕ → ℕ → Bool

-- `<` as IEEE 754 gives it on values none of which is NaN.
pub record IsOrdered (f : FloatOps) : Type 0 where
  pub lt_irrefl : (a : ℕ) → f.lt a a ≡ false
  -- ¬ (b < a) and ¬ (c < b) give ¬ (c < a)
  pub le_trans : (a b c : ℕ) → f.lt b a ≡ false → f.lt c b ≡ false → f.lt c a ≡ false
  pub lt_asymm : (a b : ℕ) → f.lt a b ≡ true → f.lt b a ≡ false
