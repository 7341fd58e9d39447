-- ===== src/Accounts/Models.antt =====
-- ui/src/features/accounts/account-model.ts: the order of an account's models, and the states of its
-- overage switch. A rate is a whole number of units, of which a rate of 1 has `unit`.
use mathlib.Core.List.{Perm}
use kiro_reverse_api.Prelude.{
  ℕ, zero, suc, ◌≤◌, ◌≡◌, ◌⊎◌, Bool, true, false, not, List, Option, or_else, if◌then◌else◌, arith,
  Bool-cases, inl, inr,
}
use kiro_reverse_api.Prelude.Int.{ℤ, pos, negsuc, minus_ℕ}
use kiro_reverse_api.Prelude.Sort.{
  is_before, sort_by, sort_by-Perm, sort_by-Sorted, Sorted, minus_ℕ-before, minus_ℕ-after,
}
use kiro_reverse_api.Text.{Text, codes, text_eq}

pub record ModelInfo : Type 0 where
  pub model_id : Text
  pub rate_multiplier : Option ℕ

-- `rate || 1`: a rate of 0 counts as a missing one.
abbrev non_zero_rate : ℕ → ℕ → ℕ
non_zero_rate unit zero = unit
non_zero_rate unit (suc n) = suc n

unfoldable pub overage_enabled : (Text → Text) → Option Text → Bool
overage_enabled upper status = text_eq (upper (or_else status (codes ""))) (codes "ENABLED")

unfoldable pub overage_capable : (Text → Text) → Option Text → Bool
overage_capable upper capability =
    not (text_eq (upper (or_else capability (codes ""))) (codes "NOT_OVERAGE_CAPABLE"))

module _ (unit : ℕ) where
  unfoldable pub model_rate : ModelInfo → ℕ
  model_rate model = non_zero_rate unit (or_else model.rate_multiplier 0)

  abbrev pub is_auto : ModelInfo → Bool
  is_auto model = text_eq model.model_id (codes "auto")

  abbrev by_rate : ModelInfo → ModelInfo → ℤ
  by_rate a b =
      if is_auto a
      then negsuc 0
      else if is_auto b
      then pos 1
      else minus_ℕ (model_rate a) (model_rate b)

  -- The order of several `auto` models, of which JavaScript has no fixed one, is that of the list.
  unfoldable pub sort_models : List ModelInfo → List ModelInfo
  unfolding sort_by model_rate
  sort_models models = sort_by by_rate models

  -- An `auto` model stands before any, and of two others the cheaper one.
  abbrev pub StandsBefore : ModelInfo → ModelInfo → Type 0
  StandsBefore a b = (is_auto a ≡ true) ⊎ ((is_auto b ≡ false) × (model_rate a ≤ model_rate b))

  by_rate-before : (a b : ModelInfo) → is_before (by_rate a b) ≡ true → StandsBefore a b
  by_rate-before a b h = elim (Bool-cases (is_auto a)) [
    | inl e ↦ inl e
    | inr e ↦ elim (Bool-cases (is_auto b)) [
      | inl k ↦ absurd (cc (rw (e, k) at h))
      | inr k ↦ inr (k, minus_ℕ-before (model_rate a) (model_rate b) (rw (e, k) at h))
    ]
  ]

  by_rate-after : (a b : ModelInfo) → is_before (by_rate a b) ≡ false → StandsBefore b a
  by_rate-after a b h = elim (Bool-cases (is_auto a)) [
    | inl e ↦ absurd (cc (rw e at h))
    | inr e ↦ elim (Bool-cases (is_auto b)) [
      | inl k ↦ inl k
      | inr k ↦ inr (e, minus_ℕ-after (model_rate a) (model_rate b) (rw (e, k) at h))
    ]
  ]

  StandsBefore-trans : (a b c : ModelInfo) → StandsBefore a b → StandsBefore b c → StandsBefore a c
  StandsBefore-trans a b c (inl e) k = inl e
  StandsBefore-trans a b c (inr (e, h)) (inl f) = absurd (cc)
  StandsBefore-trans a b c (inr (e, h)) (inr (f, k)) = inr (f, omega (arith, h, k))

  -- The list of models keeps every model, `auto` stands first, and the others stand in the order of
  -- their rates, a missing rate as 1.
  pub sort_models-Sorted :
      (models : List ModelInfo)
      → Perm (sort_models models) models × Sorted StandsBefore (sort_models models)
  unfolding sort_models
  sort_models-Sorted models = (
    sort_by-Perm by_rate models,
    sort_by-Sorted by_rate StandsBefore by_rate-before by_rate-after StandsBefore-trans models,
  )
