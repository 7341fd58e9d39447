-- ===== src/Text/Trimmed.antt =====
-- Trimming what is trimmed changes nothing.
use mathlib.Core.List.{reverse-cons, reverse-append, reverse-reverse}
use kiro_reverse_api.Prelude.{
  ℕ, ◌≡◌, refl, ap, ◌∙◌, false, [], ◌∷◌, ◌++◌, Bool-cases, inl, inr, ◌⊎◌, reverse, any, Bool,
  or_parts, any-append,
}
use kiro_reverse_api.Text.{Text}
use kiro_reverse_api.Text.Trim.{trim, trim_start, trim_end, is_space}

-- What is left starts with a unit that is no space, or is empty.
trim_start-cases :
    (s : Text)
    → (trim_start s ≡ []) ⊎ ((c : ℕ) × (t : Text) × (trim_start s ≡ c ∷ t) × (is_space c ≡ false))
unfolding trim_start
trim_start-cases [] = inl refl
trim_start-cases (c ∷ s) = elim (Bool-cases (is_space c)) [
  | inl e ↦ rw e (trim_start-cases s)
  | inr e ↦ inr (c, s, rw e, e)
]

trim_start-append :
    (s : Text) (c : ℕ)
    → trim_start (s ++ c ∷ [])
      ≡ elim (trim_start s) [ [] ↦ trim_start (c ∷ []) | d ∷ t ↦ d ∷ t ++ c ∷ [] ]
unfolding trim_start
trim_start-append [] c = refl
trim_start-append (d ∷ s) c = elim (Bool-cases (is_space d)) [
  | inl e ↦ rw e (trim_start-append s c)
  | inr e ↦ rw e
]

trim_start_again : (s : Text) → trim_start (trim_start s) ≡ trim_start s
unfolding trim_start
trim_start_again [] = refl
trim_start_again (c ∷ s) = elim (Bool-cases (is_space c)) [
  | inl e ↦ rw e (trim_start_again s)
  | inr e ↦ rw (e, e)
]

trim_end_again : (s : Text) → trim_end (trim_end s) ≡ trim_end s
unfolding trim_end
trim_end_again s = rw (reverse-reverse (trim_start (reverse s)), trim_start_again (reverse s))

-- The reverse of what trimming the start leaves of `r ++ c ∷ []`, where `c` is no space.
reverse_kept :
    (r : Text) (c : ℕ)
    → is_space c ≡ false
    → reverse (elim r [ [] ↦ trim_start (c ∷ []) | d ∷ t ↦ d ∷ t ++ c ∷ [] ]) ≡ c ∷ reverse r
unfolding trim_start
reverse_kept [] c h = rw h
reverse_kept (d ∷ t) c h = reverse-append (d ∷ t) (c ∷ [])

-- The first unit stays if it is no space.
trim_end-cons : (c : ℕ) (s : Text) → is_space c ≡ false → trim_end (c ∷ s) ≡ c ∷ trim_end s
unfolding trim_end
trim_end-cons c s h =
    ap (λ (r : Text). reverse (trim_start r)) (reverse-cons c s)
    ∙ ap reverse (trim_start-append (reverse s) c)
    ∙ reverse_kept (trim_start (reverse s)) c h

trim_start-trim : (s : Text) → trim_start (trim s) ≡ trim s
unfolding trim trim_start
trim_start-trim s = elim (trim_start-cases s) [
  | inl e ↦ rw (e, trim_end)
  | inr (c, t, e, h) ↦ rw (e, trim_end-cons c t h, h)
]

pub trim_again : (s : Text) → trim (trim s) ≡ trim s
unfolding trim
trim_again s = ap trim_end (trim_start-trim s) ∙ trim_end_again (trim_start s)

trim_start-no_space : (s : Text) → any is_space s ≡ false → trim_start s ≡ s
unfolding trim_start
trim_start-no_space [] h = refl
trim_start-no_space (c ∷ s) h = rw ((or_parts (is_space c) (any is_space s) h).0) refl

any-reverse : (p : ℕ → Bool) (s : Text) → any p s ≡ false → any p (reverse s) ≡ false
any-reverse p [] h = refl
any-reverse p (c ∷ s) h =
    let (a, b) = or_parts (p c) (any p s) h in
    rw (reverse-cons c s) (any-append p (reverse s) (c ∷ []) (any-reverse p s b) (rw a refl))

-- A text without spaces is trimmed.
pub trim-no_space : (s : Text) → any is_space s ≡ false → trim s ≡ s
unfolding trim trim_end
trim-no_space s h = rw (
  trim_start-no_space s h,
  trim_start-no_space (reverse s) (any-reverse is_space s h),
  reverse-reverse s,
)
