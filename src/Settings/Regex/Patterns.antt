-- ===== src/Settings/Regex/Patterns.antt =====
-- ui/src/features/settings/lib/go-regex.ts: classes, groups, repetitions and the scan of a pattern.
use kiro_reverse_api.Prelude.{
  ℕ, zero, suc, ◌+◌, ◌*◌, ◌-◌, Bool, true, false, not, ◌&&◌, ◌||◌, [], ◌∷◌, Option, none, some,
  if◌then◌else◌, ltb, ◌==◌, length,
}
use kiro_reverse_api.Text.{Text, is_full, one_of_texts}
use kiro_reverse_api.Settings.Regex.{
  break_at, break_at_pair, drop_caret, code_point, parse_escape, parse_unicode_class,
}
use kiro_reverse_api.Settings.Regex.Tables.{posix_classes, is_perl_class, in_range, is_capture_name}

abbrev pub max_repeat : ℕ
max_repeat = 1000

-- `parseClassChar`
abbrev pub parse_class_char : Text → Option (ℕ × Text)
parse_class_char [] = none
parse_class_char (c ∷ s) = if c == b'\\' then parse_escape s else code_point (c ∷ s)

-- What a round of the loop over a class does: fail, or go on with what is left.
abbrev pub upper_bound : ℕ → Option (ℕ × Text) → Option Text
upper_bound lo none = none
upper_bound lo (some (hi, rest)) = if ltb hi lo then none else some rest

-- After the lower bound: a range, or the character alone.
abbrev pub after_low : ℕ → Text → Option Text
after_low lo (c ∷ d ∷ s) =
    if c == b'-' && not (d == b']')
    then upper_bound lo (parse_class_char (d ∷ s))
    else some (c ∷ d ∷ s)
after_low lo (c ∷ []) = some (c ∷ [])
after_low lo [] = some []

abbrev pub class_range : Option (ℕ × Text) → Option Text
class_range none = none
class_range (some (lo, rest)) = after_low lo rest

-- A POSIX class; `none` is a name that Go does not know.
abbrev pub posix_class : Text × Text → Option Text
posix_class (name, rest) = if one_of_texts posix_classes (drop_caret name) then some rest else none

-- The text between `[:` and `:]`, where there is one.
abbrev pub posix_name : Text → Option (Text × Text)
posix_name (c ∷ d ∷ e ∷ s) =
    if c == b'[' && d == b':' then break_at_pair b':' b']' (e ∷ s) else none
posix_name (c ∷ d ∷ []) = none
posix_name (c ∷ []) = none
posix_name [] = none

-- The end of a class: `null` of the source, or what is left after it. The fuel of the loop may run
-- out, which is told apart.
pub data ClassEnd : Type 0 where
  out_of_fuel rejected : ClassEnd
  ended : Text → ClassEnd

module _ (lower upper : Text → Text) (has_script : Text → Bool) where
  abbrev pub class_escape : ℕ → Text → Text → Option Text
  class_escape c s whole =
      if c == b'p' || c == b'P'
      then parse_unicode_class lower upper has_script s
      else if is_perl_class c
      then some s
      else class_range (parse_class_char whole)

  abbrev pub class_single : Text → Option Text
  class_single [] = none
  class_single (c ∷ []) = class_range (parse_class_char (c ∷ []))
  class_single (c ∷ d ∷ s) =
      if c == b'\\'
      then class_escape d s (c ∷ d ∷ s)
      else class_range (parse_class_char (c ∷ d ∷ s))

  abbrev pub class_item_of : Option (Text × Text) → Text → Option Text
  class_item_of (some posix) s = posix_class posix
  class_item_of none s = class_single s

  -- One round of the loop of `parseClass`
  unfoldable pub class_item : Text → Option Text
  class_item s = class_item_of (posix_name s) s

  -- The rest of the loop: `first` until a round has run. The fuel is more than the length.
  unfoldable pub class_items : ℕ → Bool → Text → ClassEnd
  unfolding class_item
  class_items zero first s = out_of_fuel
  class_items (suc f) first [] = rejected
  class_items (suc f) first (c ∷ s) =
      let rest : ClassEnd = elim (class_item (c ∷ s)) [
        | none ↦ rejected
        | some next ↦ class_items f false next
      ] in
      if not first && c == b']' then ended s else rest

  -- `parseClass` for the text after `[`: what is left after `]`
  unfoldable pub parse_class : Text → ClassEnd
  unfolding class_items
  parse_class s = let body = drop_caret s in class_items (suc (length body)) true body

-- The rest of a group's opening, and whether a group opens.
abbrev pub Opening : Type 0
Opening = Bool × Text

abbrev pub named_group : Option (Text × Text) → Option Opening
named_group none = none
named_group (some (name, rest)) = if is_capture_name name then some (true, rest) else none

abbrev pub is_flag : ℕ → Bool
is_flag c = c == b'i' || c == b'm' || c == b's' || c == b'U'

unfoldable pub perl_flags : Bool → Bool → Text → Option Opening
perl_flags negated saw_flag [] = none
perl_flags negated saw_flag (c ∷ s) =
    let with_flag = perl_flags negated true s in
    let with_dash = perl_flags true false s in
    if is_flag c
    then with_flag
    else if c == b'-' && not negated
    then with_dash
    else if c == b':' || c == b')'
    then if negated && not saw_flag then none else some (c == b':', s)
    else none

-- `parsePerlGroup` for the text after `(?`
unfoldable pub parse_perl_group : Text → Option Opening
unfolding perl_flags
parse_perl_group [] = none
parse_perl_group (c ∷ []) = perl_flags false false (c ∷ [])
parse_perl_group (c ∷ d ∷ s) =
    if c == b'<'
    then named_group (break_at b'>' (d ∷ s))
    else if c == b'P' && d == b'<' && is_full s
    then named_group (break_at b'>' s)
    else perl_flags false false (c ∷ d ∷ s)

abbrev pub is_digit : ℕ → Bool
is_digit c = in_range b'0' b'9' c

unfoldable pub digits_from : ℕ → Text → ℕ × Text
digits_from n [] = (n, [])
digits_from n (c ∷ s) =
    let rest = digits_from (n * 10 + (c - b'0')) s in if is_digit c then rest else (n, c ∷ s)

-- `0|[1-9][0-9]*` at the start
unfoldable pub parse_count : Text → Option (ℕ × Text)
unfolding digits_from
parse_count [] = none
parse_count (c ∷ s) =
    if c == b'0'
    then some (0, s)
    else if in_range b'1' b'9' c
    then some (digits_from (c - b'0') s)
    else none

-- A counted repetition: `none` stands for no upper bound.
pub record Counted : Type 0 where
  pub low : ℕ
  pub high : Option ℕ

abbrev pub closed_by : Counted → Text → Option (Counted × Text)
closed_by counted [] = none
closed_by counted (c ∷ s) = if c == b'}' then some (counted, s) else none

abbrev pub upper_count : ℕ → Text → Option (ℕ × Text) → Option (Counted × Text)
upper_count n s none = closed_by (record { low = n; high = none }) s
upper_count n s (some (m, rest)) = closed_by (record { low = n; high = some m }) rest

abbrev pub after_count : ℕ → Text → Option (Counted × Text)
after_count n [] = none
after_count n (c ∷ s) =
    if c == b','
    then upper_count n s (parse_count s)
    else closed_by (record { low = n; high = some n }) (c ∷ s)

abbrev pub counted_of : Option (ℕ × Text) → Option (Counted × Text)
counted_of none = none
counted_of (some (n, rest)) = after_count n rest

-- `REPEAT` for the text after `{`
unfoldable pub parse_repeat : Text → Option (Counted × Text)
parse_repeat s = counted_of (parse_count s)
