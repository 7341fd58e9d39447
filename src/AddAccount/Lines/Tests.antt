-- ===== src/AddAccount/Lines/Tests.antt =====
-- Two keys on lines of their own, and a region typed with capitals around spaces.
use kiro_reverse_api.Prelude.{
  ℕ, ◌+◌, ◌≡◌, refl, true, List, [], ◌∷◌, map, if◌then◌else◌, leb, ◌&&◌, all, arith,
}
use kiro_reverse_api.Text.{Text, codes}
use kiro_reverse_api.Text.Trim.{trim, trim_end, trim_start, is_space}
use kiro_reverse_api.AddAccount.Lines.{parse_api_key_lines, is_region, valid, parse_region}
use kiro_reverse_api.AddAccount.Lines.Keys.{IsLine}
use kiro_reverse_api.AddAccount.Lines.Again.{is_region_unit}

lines_run : Unit {0}
unfolding parse_api_key_lines parse_region is_region trim trim_end trim_start is_space
lines_run = tt

abbrev keys : List Text
keys = codes "ksk_a" ∷ codes "ksk_b|eu-central-1" ∷ []

IsLine-a : IsLine (codes "ksk_a")
unfolding lines_run
IsLine-a = record { full = refl; one_line = refl; trimmed = refl }

IsLine-b : IsLine (codes "ksk_b|eu-central-1")
unfolding lines_run
IsLine-b = record { full = refl; one_line = refl; trimmed = refl }

-- `toLowerCase` on ASCII.
abbrev lower_unit : ℕ → ℕ
lower_unit c = if leb b'A' c && leb c b'Z' then c + 32 else c

lower_fixes : (t : Text) → all is_region_unit t ≡ true → map lower_unit t ≡ t
lower_fixes [] h = refl
lower_fixes (c ∷ t) h = ground (arith, lower_fixes t)

typed : parse_region (map lower_unit) (codes " EU-Central-1 ") ≡ valid (codes "eu-central-1")
unfolding lines_run
typed = refl
