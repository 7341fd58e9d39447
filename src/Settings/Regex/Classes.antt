-- ===== src/Settings/Regex/Classes.antt =====
-- The loop over a class and the parsers of groups and repetitions leave no more than they were given.
use mathlib.Core.Path.{subst}
use kiro_reverse_api.Prelude.{
  sym, ℕ, zero, suc, ◌≤◌, ◌<◌, ◌≡◌, refl, Bool, true, false, not, ◌&&◌, ◌||◌, [], ◌∷◌, Option, none,
  some, if◌then◌else◌, arith, length, if_keeps, ◌==◌,
}
use kiro_reverse_api.Text.{Text, one_of_texts}
use kiro_reverse_api.Settings.Regex.{break_at_pair, parse_unicode_class, drop_caret}
use kiro_reverse_api.Settings.Regex.Tables.{is_perl_class, posix_classes}
use kiro_reverse_api.Settings.Regex.Patterns.{
  parse_class_char, upper_bound, after_low, class_range, posix_class, posix_name, class_escape,
  class_single, class_item_of, class_item, class_items, parse_class, ClassEnd, out_of_fuel,
  rejected, ended,
}
use kiro_reverse_api.Settings.Regex.Progress.{
  Within, Within-more, rest_of, same_text, break_at_pair-Within, parse_escape-Within,
  code_point-Within, parse_unicode_class-Within,
}

class_char-Within : (c : ℕ) (s : Text) → Within rest_of (length s) (parse_class_char (c ∷ s))
class_char-Within c s =
    if_keeps (Within rest_of (length s)) (c == b'\\') (parse_escape-Within s)
      (code_point-Within c s)

upper_bound-Within :
    (n lo : ℕ) (o : Option (ℕ × Text)) → Within rest_of n o → Within same_text n (upper_bound lo o)
upper_bound-Within n lo none h = tt
upper_bound-Within n lo (some (hi, rest)) h = ground arith

after_low-Within : (lo : ℕ) (s : Text) → Within same_text (length s) (after_low lo s)
after_low-Within lo [] = omega arith
after_low-Within lo (c ∷ []) = omega arith
after_low-Within lo (c ∷ d ∷ s) =
    let bound =
      upper_bound-Within (length s) lo (parse_class_char (d ∷ s)) (class_char-Within d s) in
    let longer =
      Within-more same_text (length s) (suc (suc (length s)))
        (upper_bound lo (parse_class_char (d ∷ s))) (omega arith) bound in
    if_keeps (Within same_text (suc (suc (length s)))) (c == b'-' && not (d == b']'))
      {y = some (c ∷ d ∷ s)} longer (omega arith)

class_range-Within :
    (n : ℕ) (o : Option (ℕ × Text)) → Within rest_of n o → Within same_text n (class_range o)
class_range-Within n none h = tt
class_range-Within n (some (lo, rest)) h =
    Within-more same_text (length rest) n (after_low lo rest) h (after_low-Within lo rest)

posix_name-Within : (c : ℕ) (s : Text) → Within rest_of (length s) (posix_name (c ∷ s))
posix_name-Within c [] = tt
posix_name-Within c (d ∷ []) = tt
posix_name-Within c (d ∷ e ∷ s) =
    let pair =
      Within-more rest_of (suc (length s)) (suc (suc (length s))) (break_at_pair b':' b']' (e ∷ s))
        (omega arith) (break_at_pair-Within b':' b']' (e ∷ s)) in
    if_keeps (Within rest_of (suc (suc (length s)))) (c == b'[' && d == b':') {y = none} pair tt

posix_class-Within : (n : ℕ) (p : Text × Text) → length p.1 ≤ n → Within same_text n (posix_class p)
posix_class-Within n (name, rest) h =
    if_keeps (Within same_text n) (one_of_texts posix_classes (drop_caret name)) {x = some rest}
      {y = none} h tt

-- A class was rejected or left at most `n` units: its fuel was enough.
abbrev pub Ends : ℕ → ClassEnd → Type 0
Ends n out_of_fuel = ⊥
Ends n rejected = Unit
Ends n (ended s) = length s ≤ n

Ends-more : (n m : ℕ) (r : ClassEnd) → n ≤ m → Ends n r → Ends m r
Ends-more n m out_of_fuel h k = elim k [ ]
Ends-more n m rejected h k = tt
Ends-more n m (ended s) h k = omega (arith, h, k)

module _ (lower upper : Text → Text) (has_script : Text → Bool) where
  class_escape-Within :
      (c d : ℕ) (s : Text)
      → Within same_text (suc (length s)) (class_escape lower upper has_script d s (c ∷ d ∷ s))
  class_escape-Within c d s =
      if_keeps (Within same_text (suc (length s))) (d == b'p' || d == b'P')
        (Within-more same_text (length s) (suc (length s))
          (parse_unicode_class lower upper has_script s) (omega arith)
          (parse_unicode_class-Within lower upper has_script s))
        (if_keeps (Within same_text (suc (length s))) (is_perl_class d) {x = some s} (omega arith) (
          class_range-Within (suc (length s)) (parse_class_char (c ∷ d ∷ s))
            (class_char-Within c (d ∷ s))))

  class_single-Within :
      (c : ℕ) (s : Text) → Within same_text (length s) (class_single lower upper has_script (c ∷ s))
  class_single-Within c [] =
      class_range-Within 0 (parse_class_char (c ∷ [])) (class_char-Within c [])
  class_single-Within c (d ∷ s) =
      if_keeps (Within same_text (suc (length s))) (c == b'\\') (class_escape-Within c d s) (
        class_range-Within (suc (length s)) (parse_class_char (c ∷ d ∷ s))
          (class_char-Within c (d ∷ s)))

  class_item_of-Within :
      (c : ℕ) (s : Text) (o : Option (Text × Text))
      → Within rest_of (length s) o
      → Within same_text (length s) (class_item_of lower upper has_script o (c ∷ s))
  class_item_of-Within c s none h = class_single-Within c s
  class_item_of-Within c s (some p) h = posix_class-Within (length s) p h

  pub class_item-Within :
      (c : ℕ) (s : Text) → Within same_text (length s) (class_item lower upper has_script (c ∷ s))
  unfolding class_item
  class_item-Within c s = class_item_of-Within c s (posix_name (c ∷ s)) (posix_name-Within c s)

  -- What a round leaves, in the rest of the loop.
  abbrev next_items : ℕ → Option Text → ClassEnd
  next_items f none = rejected
  next_items f (some next) = class_items lower upper has_script f false next

  class_items-step :
      (f : ℕ) (first : Bool) (c : ℕ) (s : Text)
      → class_items lower upper has_script (suc f) first (c ∷ s) ≡ (
          if not first && c == b']'
          then ended s
          else next_items f (class_item lower upper has_script (c ∷ s)))
  unfolding class_items class_item
  class_items-step f first c s = refl

  next_items-Ends :
      (f n : ℕ) (o : Option Text)
      → ((s : Text) → length s ≤ n → Ends (length s) (class_items lower upper has_script f false s))
      → Within same_text n o
      → Ends n (next_items f o)
  next_items-Ends f n none ih h = tt
  next_items-Ends f n (some next) ih h =
      Ends-more (length next) n (class_items lower upper has_script f false next) h (ih next h)

  -- The loop ends before its fuel does, where that is more than the length.
  class_items-Ends :
      (f : ℕ) (first : Bool) (s : Text)
      → length s < f
      → Ends (length s) (class_items lower upper has_script f first s)
  unfolding class_items
  class_items-Ends zero first s h = absurd (omega (arith, h))
  class_items-Ends (suc f) first [] h = tt
  class_items-Ends (suc f) first (c ∷ s) h =
      let o = class_item lower upper has_script (c ∷ s) in
      let more =
        next_items-Ends f (length s) o (λ r l. class_items-Ends f false r (omega (arith, l, h)))
          (class_item-Within c s) in
      subst (Ends (suc (length s))) (sym (class_items-step f first c s)) (
        if_keeps (Ends (suc (length s))) (not first && c == b']') {x = ended s} (omega arith)
          (Ends-more (length s) (suc (length s)) (next_items f o) (omega arith) more))

  drop_caret_le : (s : Text) → length (drop_caret s) ≤ length s
  drop_caret_le [] = omega arith
  drop_caret_le (c ∷ s) = ground arith

  pub parse_class-Ends : (s : Text) → Ends (length s) (parse_class lower upper has_script s)
  unfolding parse_class
  parse_class-Ends s =
      Ends-more (length (drop_caret s)) (length s)
        (class_items lower upper has_script (suc (length (drop_caret s))) true (drop_caret s))
        (drop_caret_le s)
        (class_items-Ends (suc (length (drop_caret s))) true (drop_caret s) (omega arith))
