-- ===== src/Client/Downloads/Names.antt =====
-- The name of a backup comes back from the header that the server writes.
use kiro_reverse_api.Prelude.{
  ℕ, ◌≡◌, refl, true, [], ◌∷◌, ◌++◌, Option, some, or_else, arith, all, Bool-cases, inl, inr,
}
use kiro_reverse_api.Text.{Text, codes, is_full}
use kiro_reverse_api.Text.Trim.{trim}
use kiro_reverse_api.Client.Downloads.{is_name_unit, name_units, find_name, filename_from}

name_units-append :
    (name : Text) → all is_name_unit name ≡ true → name_units (name ++ b'"' ∷ []) ≡ name
name_units-append [] h = refl
name_units-append (c ∷ s) h = elim (Bool-cases (is_name_unit c)) [
  | inl e ↦ rw (e, name_units-append s (ground (arith, e))) refl
  | inr e ↦ absurd (ground (arith, e))
]

-- `attachment; filename="..."`, as the server writes it
abbrev pub attachment : Text → Text
attachment name = codes "attachment; filename=\"" ++ (name ++ b'"' ∷ [])

found_name :
    (c : ℕ) (s : Text)
    → all is_name_unit (c ∷ s) ≡ true
    → find_name (attachment (c ∷ s)) ≡ some (c ∷ s)
found_name c s h = rw (name_units-append (c ∷ s) h) refl

-- A download is named as the server wrote it between quotes, decoded where it can be. The name is not
-- empty, has no space around it, and holds no quote and no semicolon.
pub filename_from-attachment :
    (decode : Text → Option Text) (name : Text)
    → is_full name ≡ true
    → all is_name_unit name ≡ true
    → trim name ≡ name
    → filename_from decode (some (attachment name)) ≡ some (or_else (decode name) name)
unfolding filename_from
filename_from-attachment decode [] f h t = absurd (cc)
filename_from-attachment decode (c ∷ s) f h t = rw (found_name c s h, t) refl
