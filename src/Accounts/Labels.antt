-- ===== src/Accounts/Labels.antt =====
-- Accounts that a filter lists under one sign-in method.
use kiro_reverse_api.Prelude.{
  ◌≡◌, refl, sym, ap, ◌∙◌, List, [], ◌∷◌, Option, some, or_else, Bool-cases, inl, inr,
}
use kiro_reverse_api.Text.{Text, codes, text_eq, or_text}
use kiro_reverse_api.Text.Equality.{text_eq_iff}
use kiro_reverse_api.Accounts.{Account, auth_key, auth_keys, auth_ids, find_text}

-- The id that belongs to a label.
abbrev label_ids : List (Text × Text)
label_ids =
    (codes "auth.enterprise", codes "enterprise")
    ∷ (codes "auth.microsoft", codes "microsoft")
    ∷ (codes "auth.apiKey", codes "apiKey")
    ∷ (codes "auth.social", codes "social")
    ∷ (codes "auth.builderId", codes "builderId")
    ∷ (codes "auth.github", codes "github")
    ∷ (codes "auth.google", codes "google")
    ∷ []

-- The id of a value is the one of its label.
abbrev HasId : List (Text × Text) → Text → Text → Type 0
HasId ids value label =
    (id : Text) × (find_text ids value ≡ some id) × (find_text label_ids label ≡ some id)

-- Both tables agree on the values that the first one lists.
Agrees : List (Text × Text) → List (Text × Text) → Type 0
Agrees [] ids = Unit
Agrees ((k, v) ∷ es) ids = HasId ids k v × Agrees es ids

id_of_label :
    (es ids : List (Text × Text)) (r k : Text)
    → Agrees es ids
    → find_text es r ≡ some k
    → HasId ids r k
unfolding Agrees
id_of_label [] ids r k h e = absurd (cc)
id_of_label ((l, v) ∷ es) ids r k h e = elim (Bool-cases (text_eq l r)) [
  | inl t ↦
      let same : v ≡ k = ap (λ (o : Option Text). or_else o v) (rw t at e) in
      rw (sym same, sym ((text_eq_iff l r).0 t)) h.0
  | inr t ↦ id_of_label es ids r k h.1 (rw t at e)
]

auth_tables-Agrees : Agrees auth_keys auth_ids
unfolding Agrees
auth_tables-Agrees = (
  (codes "enterprise", refl, refl),
  (
    (codes "enterprise", refl, refl),
    (
      (codes "microsoft", refl, refl),
      (
        (codes "microsoft", refl, refl),
        (
          (codes "apiKey", refl, refl),
          (
            (codes "apiKey", refl, refl),
            (
              (codes "social", refl, refl),
              (
                (codes "builderId", refl, refl),
                ((codes "github", refl, refl), ((codes "google", refl, refl), tt)),
              ),
            ),
          ),
        ),
      ),
    ),
  ),
)

-- The text that the tables of sign-in methods are read by.
abbrev pub auth_raw : (Text → Text) → Account → Text
auth_raw lower a = lower (or_text a.provider a.auth_method)

auth_key_of_id :
    (lower : Text → Text) (a : Account) (id : Text)
    → find_text auth_ids (auth_raw lower a) ≡ some id
    → auth_key lower a ≡ id
unfolding auth_key
auth_key_of_id lower a id e = ap (λ (o : Option Text). or_else o (auth_raw lower a)) e

-- Two accounts whose sign-in methods the tables give the same label have the same value in the
-- filter.
pub auth_key_label :
    (lower : Text → Text) (a b : Account) (k : Text)
    → find_text auth_keys (auth_raw lower a) ≡ some k
    → find_text auth_keys (auth_raw lower b) ≡ some k
    → auth_key lower a ≡ auth_key lower b
auth_key_label lower a b k e f =
    let g = id_of_label auth_keys auth_ids (auth_raw lower a) k auth_tables-Agrees e in
    let h = id_of_label auth_keys auth_ids (auth_raw lower b) k auth_tables-Agrees f in
    let same : g.0 ≡ h.0 = ap (λ (o : Option Text). or_else o g.0) (sym g.2 ∙ h.2) in
    auth_key_of_id lower a g.0 g.1 ∙ same ∙ sym (auth_key_of_id lower b h.0 h.1)
