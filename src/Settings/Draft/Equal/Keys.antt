-- ===== src/Settings/Draft/Equal/Keys.antt =====
-- The keys that two objects share (ui/src/features/settings/lib/dirty.ts compares their number and
-- looks up one object's keys in the other).
use mathlib.Core.Path.{subst}
use kiro_reverse_api.Prelude.{
  suc, ◌≡◌, refl, sym, inl, inr, true, false, List, [], ◌∷◌, arith, if◌then◌else◌, All, Bool-cases,
  length,
}
use kiro_reverse_api.Text.{Text, text_eq, one_of_texts}
use kiro_reverse_api.Text.Equality.{text_eq_iff}
use kiro_reverse_api.Settings.Draft.Equal.{Entries, end, entry, is_defined, get_value, defined_keys}

-- The list without the first occurrence of the text.
remove_text : Text → List Text → List Text
remove_text k [] = []
remove_text k (t ∷ ts) = if text_eq t k then ts else t ∷ remove_text k ts

length-remove_text :
    (k : Text) (ts : List Text)
    → one_of_texts ts k ≡ true
    → length ts ≡ suc (length (remove_text k ts))
unfolding remove_text
length-remove_text k [] h = absurd (cc)
length-remove_text k (t ∷ ts) h = elim (Bool-cases (text_eq t k)) [
  | inl e ↦ rw e refl
  | inr e ↦ rw e (omega (arith, length-remove_text k ts (rw e at h)))
]

one_of_texts-remove_text :
    (k x : Text) (ts : List Text)
    → text_eq k x ≡ false
    → one_of_texts ts x ≡ true
    → one_of_texts (remove_text k ts) x ≡ true
unfolding remove_text
one_of_texts-remove_text k x [] n h = absurd (cc)
one_of_texts-remove_text k x (t ∷ ts) n h = elim (Bool-cases (text_eq t k)) [
  | inl e ↦
      let same : t ≡ k = (text_eq_iff t k).0 e in
      let other : text_eq t x ≡ false = subst (λ u. text_eq u x ≡ false) (sym same) n in
      rw e (rw other at h)
  | inr e ↦ rw e (elim (Bool-cases (text_eq t x)) [
    | inl f ↦ rw f refl
    | inr f ↦ rw f (one_of_texts-remove_text k x ts n (rw f at h))
  ])
]

abbrev pub AllDiffer : List Text → Type 0
AllDiffer [] = Unit
AllDiffer (t ∷ ts) = All (λ (u : Text). text_eq t u ≡ false) ts × AllDiffer ts

abbrev pub AllIn : List Text → List Text → Type 0
AllIn ts us = All (λ (t : Text). one_of_texts us t ≡ true) ts

All-remove_text :
    (k : Text) (ts us : List Text)
    → All (λ (u : Text). text_eq k u ≡ false) ts
    → AllIn ts us
    → AllIn ts (remove_text k us)
All-remove_text k [] us n h = tt
All-remove_text k (t ∷ ts) us n h =
    (one_of_texts-remove_text k t us n.0 h.0, All-remove_text k ts us n.1 h.1)

-- As many different texts, all of them in the other list, are the texts of the other list.
pub all_found :
    (ts us : List Text)
    → AllDiffer ts
    → AllIn ts us
    → length ts ≡ length us
    → (u : Text) → one_of_texts us u ≡ true
    → one_of_texts ts u ≡ true
all_found [] [] d h n u m = m
all_found [] (v ∷ us) d h n u m = absurd (omega (arith, n))
all_found (t ∷ ts) us d h n u m = elim (Bool-cases (text_eq t u)) [
  | inl e ↦ rw e refl
  | inr e ↦ rw e (
      all_found ts (remove_text t us) d.1 (All-remove_text t ts us d.0 h.1)
        (omega (arith, n, length-remove_text t us h.0)) u (one_of_texts-remove_text t u us e m))
]

-- A key is defined where its value is.
pub defined_keys-get_value :
    (k : Text) (es : Entries)
    → is_defined (get_value k es) ≡ true
    → one_of_texts (defined_keys es) k ≡ true
defined_keys-get_value k end h = absurd (cc)
defined_keys-get_value k (entry l v es) h = elim (Bool-cases (text_eq l k)) [
  | inl e ↦ let d : is_defined v ≡ true = rw e at h in rw d (rw e refl)
  | inr e ↦
      let g : is_defined (get_value k es) ≡ true = rw e at h in
      elim (Bool-cases (is_defined v)) [
        | inl d ↦ rw (d, e) (defined_keys-get_value k es g)
        | inr d ↦ rw d (defined_keys-get_value k es g)
      ]
]
