-- ===== src/Text/Lines.antt =====
-- Texts split at separators, and joined by line ends.
use kiro_reverse_api.Prelude.{
  ℕ, ◌≡◌, refl, ap, ◌∙◌, Bool, true, false, List, [], ◌∷◌, ◌++◌, arith, any, All, Bool-cases, inl,
  inr,
}
use kiro_reverse_api.Text.{Text, split_on}

pub split_on_last : (sep : ℕ → Bool) (k : Text) → any sep k ≡ false → split_on sep k ≡ k ∷ []
split_on_last sep [] h = refl
split_on_last sep (c ∷ k) h = elim (Bool-cases (sep c)) [
  | inl e ↦ absurd (ground (arith, e))
  | inr e ↦ rw (e, split_on_last sep k (ground (arith, e))) refl
]

pub split_on_first :
    (sep : ℕ → Bool) (k : Text) (c : ℕ) (s : Text)
    → any sep k ≡ false
    → sep c ≡ true
    → split_on sep (k ++ c ∷ s) ≡ k ∷ split_on sep s
split_on_first sep [] c s h d = rw d refl
split_on_first sep (b ∷ k) c s h d = elim (Bool-cases (sep b)) [
  | inl e ↦ absurd (ground (arith, e))
  | inr e ↦ rw (e, split_on_first sep k c s (ground (arith, e)) d) refl
]

-- The texts with a line end between two: `ts.join("\n")`.
abbrev pub join_lines : List Text → Text
join_lines [] = []
join_lines (k ∷ []) = k
join_lines (k ∷ l ∷ ks) = k ++ 10 ∷ join_lines (l ∷ ks)

-- Lines that hold no separator are split as they were joined.
pub split_on-join_lines :
    (sep : ℕ → Bool) (k : Text) (ks : List Text)
    → sep 10 ≡ true
    → All (λ l. any sep l ≡ false) (k ∷ ks)
    → split_on sep (join_lines (k ∷ ks)) ≡ k ∷ ks
split_on-join_lines sep k [] e h = split_on_last sep k h.0
split_on-join_lines sep k (l ∷ ks) e h =
    split_on_first sep k 10 (join_lines (l ∷ ks)) h.0 e
    ∙ ap (λ ls. k ∷ ls) (split_on-join_lines sep l ks e h.1)
