-- ===== src/Text/Equality.antt =====
-- Equality and membership tests on strings decide equality and membership.
use kiro_reverse_api.Prelude.{◌≡◌, refl, ◌↔◌, true, List, [], ◌∷◌, ◌++◌, arith, ◌⊎◌}
use kiro_reverse_api.Text.{Text, text_eq, one_of_texts}

pub text_eq_self : (s : Text) → text_eq s s ≡ true
text_eq_self [] = refl
text_eq_self (c ∷ s) = ground (arith, text_eq_self s)

pub text_eq_sym : (s t : Text) → text_eq s t ≡ text_eq t s
text_eq_sym [] [] = refl
text_eq_sym [] (d ∷ t) = refl
text_eq_sym (c ∷ s) [] = refl
text_eq_sym (c ∷ s) (d ∷ t) = ground (arith, text_eq_sym s t)

text_eq_sound : (s t : Text) → text_eq s t ≡ true → s ≡ t
text_eq_sound [] [] h = refl
text_eq_sound [] (d ∷ t) h = cc
text_eq_sound (c ∷ s) [] h = cc
text_eq_sound (c ∷ s) (d ∷ t) h = ground (arith, text_eq_sound s t)

pub text_eq_iff : (s t : Text) → (text_eq s t ≡ true) ↔ (s ≡ t)
text_eq_iff s t = (text_eq_sound s t, λ e. rw e (text_eq_self t))

-- One of the listed values.
abbrev pub IsListed : List Text → Text → Type 0
IsListed [] s = ⊥
IsListed (t ∷ ts) s = (s ≡ t) ⊎ IsListed ts s

pub one_of_texts_sound : (ts : List Text) (s : Text) → one_of_texts ts s ≡ true → IsListed ts s
one_of_texts_sound [] s h = absurd (cc)
one_of_texts_sound (t ∷ ts) s h = ground (arith, text_eq_iff t s, one_of_texts_sound ts s)

pub append_left : (a s t : Text) → a ++ s ≡ a ++ t → s ≡ t
append_left [] s t e = e
append_left (c ∷ a) s t e = append_left a s t (cc)
