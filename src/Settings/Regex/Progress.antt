-- ===== src/Settings/Regex/Progress.antt =====
-- Every parser leaves no more than it was given, so the scan of a pattern comes to an end.
use kiro_reverse_api.Prelude.{
  ℕ, zero, suc, ◌+◌, ◌*◌, ◌-◌, ◌≤◌, Bool, ◌&&◌, ◌||◌, [], ◌∷◌, Option, none, some, arith, length,
  if_keeps, ◌==◌,
}
use kiro_reverse_api.Text.{Text}
use kiro_reverse_api.Settings.Regex.{
  break_at, break_at_pair, octal_more, hex_pair, hex_braces, hex_escape, single_escape,
  parse_escape, code_point, one_character, class_name, parse_unicode_class, known_class, first_is,
}
use kiro_reverse_api.Settings.Regex.Tables.{is_octal, control_escape, in_range}

-- A parser failed or left at most `n` units.
abbrev pub Within {ℓ} : {A : Type ℓ} → (A → Text) → ℕ → Option A → Type 0
Within left n none = Unit
Within left n (some a) = length (left a) ≤ n

abbrev pub rest_of {ℓ} : {A : Type ℓ} → A × Text → Text
rest_of p = p.1

abbrev pub same_text : Text → Text
same_text s = s

pub break_at-Within : (c : ℕ) (s : Text) → Within rest_of (length s) (break_at c s)
break_at-Within c [] = tt
break_at-Within c (d ∷ s) = ground (arith, break_at-Within c s)

pub break_at_pair-Within : (c d : ℕ) (s : Text) → Within rest_of (length s) (break_at_pair c d s)
break_at_pair-Within c d [] = tt
break_at_pair-Within c d (e ∷ []) = tt
break_at_pair-Within c d (e ∷ f ∷ s) = ground (arith, break_at_pair-Within c d (f ∷ s))

octal_more_le : (k cp : ℕ) (s : Text) → length (octal_more k cp s).1 ≤ length s
octal_more_le zero cp s = omega arith
octal_more_le (suc k) cp [] = omega arith
octal_more_le (suc k) cp (c ∷ s) = ground (arith, octal_more_le k (cp * 8 + (c - b'0')) s)

hex_braces-Within :
    (n : ℕ) (o : Option (Text × Text)) → Within rest_of n o → Within rest_of n (hex_braces o)
hex_braces-Within n none h = tt
hex_braces-Within n (some (ds, rest)) h = ground arith

hex_pair-Within : (s : Text) → Within rest_of (length s) (hex_pair s)
hex_pair-Within [] = tt
hex_pair-Within (c ∷ []) = tt
hex_pair-Within (c ∷ d ∷ s) = ground arith

pub Within-more {ℓ} :
    {A : Type ℓ} (left : A → Text) (n m : ℕ) (o : Option A)
    → n ≤ m
    → Within left n o
    → Within left m o
Within-more left n m none h k = tt
Within-more left n m (some a) h k = omega (arith, h, k)

hex_escape-Within : (s : Text) → Within rest_of (length s) (hex_escape s)
hex_escape-Within [] = tt
hex_escape-Within (c ∷ s) =
    let braced = hex_braces-Within (length s) (break_at b'}' s) (break_at-Within b'}' s) in
    let longer =
      Within-more rest_of (length s) (suc (length s)) (hex_braces (break_at b'}' s)) (omega arith)
        braced in
    let pair = hex_pair-Within (c ∷ s) in ground arith

single_escape-Within :
    (c : ℕ) (s : Text) (o : Option ℕ) → Within rest_of (length s) (single_escape c s o)
single_escape-Within c s (some k) = omega arith
single_escape-Within c s none = ground arith

pub parse_escape-Within : (s : Text) → Within rest_of (length s) (parse_escape s)
unfolding parse_escape
parse_escape-Within [] = tt
parse_escape-Within (c ∷ s) =
    let octal = octal_more_le 2 (c - b'0') s in
    let hex =
      Within-more rest_of (length s) (suc (length s)) (hex_escape s) (omega arith)
        (hex_escape-Within s) in
    let single =
      Within-more rest_of (length s) (suc (length s)) (single_escape c s (control_escape c))
        (omega arith) (single_escape-Within c s (control_escape c)) in
    if_keeps (Within rest_of (suc (length s)))
      (c == b'0' || (in_range b'1' b'7' c && first_is is_octal s))
      {x = some (octal_more 2 (c - b'0') s)} (omega (arith, octal))
      (if_keeps (Within rest_of (suc (length s))) (c == b'x') hex single)

pub code_point-Within : (c : ℕ) (s : Text) → Within rest_of (length s) (code_point (c ∷ s))
code_point-Within c [] = omega arith
code_point-Within c (d ∷ s) = ground arith

one_character-Within : (s : Text) → Within rest_of (length s) (one_character s)
one_character-Within [] = tt
one_character-Within (c ∷ []) = omega arith
one_character-Within (c ∷ d ∷ s) = ground arith

class_name-Within : (s : Text) → Within rest_of (length s) (class_name s)
class_name-Within [] = tt
class_name-Within (c ∷ s) =
    let braced =
      Within-more rest_of (length s) (suc (length s)) (break_at b'}' s) (omega arith)
        (break_at-Within b'}' s) in
    let one = one_character-Within (c ∷ s) in
    if_keeps (Within rest_of (suc (length s))) (c == b'{') braced one

module _ (lower upper : Text → Text) (has_script : Text → Bool) where
  known_class-Within :
      (n : ℕ) (o : Option (Text × Text))
      → Within rest_of n o
      → Within same_text n (known_class lower upper has_script o)
  known_class-Within n none h = tt
  known_class-Within n (some (name, rest)) h = ground arith

  pub parse_unicode_class-Within :
      (s : Text) → Within same_text (length s) (parse_unicode_class lower upper has_script s)
  unfolding parse_unicode_class
  parse_unicode_class-Within s = known_class-Within (length s) (class_name s) (class_name-Within s)
