-- ===== src/Prelude/Int.antt =====
-- Signed integers over the native numbers, under the library's names (its ℤ stands on the unary ℕ).
use kiro_reverse_api.Prelude.{
  ℕ, zero, suc, ◌+◌, ◌-◌, if◌then◌else◌, ◌≡◌, ◌↔◌, Bool, true, false, leb, ltb, ◌==◌, arith,
}

-- `negsuc n` is -(n + 1).
pub data ℤ : Type 0 where
  pos : ℕ → ℤ
  negsuc : ℕ → ℤ

-- `-n` for a natural number `n`; JavaScript's -0 is read as 0.
abbrev pub neg_ℕ : ℕ → ℤ
neg_ℕ zero = pos 0
neg_ℕ (suc n) = negsuc n

-- The test of `if (z)`.
abbrev pub is_zero : ℤ → Bool
is_zero (pos zero) = true
is_zero (pos (suc n)) = false
is_zero (negsuc n) = false

-- `n >= z` for a natural number `n`.
abbrev pub leb_ℤ_ℕ : ℤ → ℕ → Bool
leb_ℤ_ℕ (pos m) n = leb m n
leb_ℤ_ℕ (negsuc m) n = true

abbrev pub eq_ℤ : ℤ → ℤ → Bool
eq_ℤ (pos m) (pos n) = m == n
eq_ℤ (negsuc m) (negsuc n) = m == n
eq_ℤ (pos m) (negsuc n) = false
eq_ℤ (negsuc m) (pos n) = false

pub eq_ℤ_iff : (a b : ℤ) → (eq_ℤ a b ≡ true) ↔ (a ≡ b)
eq_ℤ_iff a b = ground arith

-- `a < b`
abbrev pub ltb_ℤ : ℤ → ℤ → Bool
ltb_ℤ (pos m) (pos n) = ltb m n
ltb_ℤ (pos m) (negsuc n) = false
ltb_ℤ (negsuc m) (pos n) = true
ltb_ℤ (negsuc m) (negsuc n) = ltb n m

abbrev pub neg_ℤ : ℤ → ℤ
neg_ℤ (pos n) = neg_ℕ n
neg_ℤ (negsuc n) = pos (suc n)

-- `a - b` of natural numbers
unfoldable pub minus_ℕ : ℕ → ℕ → ℤ
minus_ℕ a b = if ltb a b then neg_ℕ (b - a) else pos (a - b)

-- `a - b`
abbrev pub minus_ℤ : ℤ → ℤ → ℤ
minus_ℤ (pos a) (pos b) = minus_ℕ a b
minus_ℤ (pos a) (negsuc b) = pos (suc (a + b))
minus_ℤ (negsuc a) (pos b) = negsuc (a + b)
minus_ℤ (negsuc a) (negsuc b) = minus_ℕ b a
