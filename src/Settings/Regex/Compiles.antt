-- ===== src/Settings/Regex/Compiles.antt =====
-- ui/src/features/settings/lib/go-regex.ts: whether Go compiles a pattern (`compilesInGo`).
use kiro_reverse_api.Prelude.{
  ℕ, zero, suc, ◌*◌, max, Bool, true, false, not, ◌&&◌, ◌||◌, List, [], ◌∷◌, Option, none, some,
  or_else, if◌then◌else◌, ltb, ◌==◌, length,
}
use kiro_reverse_api.Text.{Text}
use kiro_reverse_api.Settings.Regex.{break_at_pair, code_point, parse_escape, parse_unicode_class}
use kiro_reverse_api.Settings.Regex.Tables.{is_perl_class}
use kiro_reverse_api.Settings.Regex.Patterns.{
  max_repeat, ClassEnd, out_of_fuel, rejected, ended, parse_class, Opening, parse_perl_group,
  Counted, parse_repeat,
}

-- `done` is the heaviest finished item of the group, `last` the item that a repetition applies to.
pub record Frame : Type 0 where
  pub done : ℕ
  pub last : Option ℕ

abbrev pub new_frame : Frame
new_frame = record { done = 1; last = none }

abbrev pub weight_of : Frame → ℕ
weight_of frame = max frame.done (or_else frame.last 1)

-- The open groups around `top`, the innermost first.
pub record Scan : Type 0 where
  pub top : Frame
  pub outer : List Frame
  pub last_was_repeat : Bool

abbrev pub item : ℕ → Scan → Scan
item weight st = record st {
  top = record { done = weight_of st.top; last = some weight };
  last_was_repeat = false;
}

abbrev pub repeat_count : Counted → ℕ
repeat_count counted = or_else counted.high counted.low

abbrev pub is_zero_count : Option ℕ → Bool
is_zero_count none = false
is_zero_count (some m) = m == 0

unfoldable pub repeat_weight : ℕ → Counted → ℕ
repeat_weight operand counted =
    if is_zero_count counted.high
    then 1
    else if ltb 0 (repeat_count counted)
    then operand * repeat_count counted
    else operand

abbrev pub high_allowed : ℕ → Option ℕ → Bool
high_allowed low none = true
high_allowed low (some high) = not (ltb max_repeat high) && not (ltb high low)

abbrev pub is_allowed : Counted → Bool
is_allowed counted = not (ltb max_repeat counted.low) && high_allowed counted.low counted.high

-- A round of the loop: `none` where the source returns false, else the next state and what is left.
abbrev pub Round : Type 0
Round = Option (Scan × Text)

abbrev pub open_group : Bool → Scan → Scan
open_group true st = record { top = new_frame; outer = st.top ∷ st.outer; last_was_repeat = false }
open_group false st = record st { last_was_repeat = false }

abbrev pub opened : Scan → Option Opening → Round
opened st none = none
opened st (some (opens, rest)) = some (open_group opens st, rest)

-- After `(`
abbrev pub group_start : Text → Scan → Round
group_start [] st = some (open_group true st, [])
group_start (c ∷ s) st =
    if c == b'?' then opened st (parse_perl_group s) else some (open_group true st, c ∷ s)

abbrev pub group_end : Frame → List Frame → Text → Round
group_end group [] s = none
group_end group (frame ∷ outer) s =
    some
      (item (weight_of group) (record { top = frame; outer = outer; last_was_repeat = false }), s)

abbrev pub alternative : Scan → Scan
alternative st = record st {
  top = record { done = weight_of st.top; last = none };
  last_was_repeat = false;
}

abbrev pub item_before : Scan → Option Text → Round
item_before st none = none
item_before st (some rest) = some (item 1 st, rest)

abbrev pub class_before : Scan → ClassEnd → Option Round
class_before st out_of_fuel = none
class_before st rejected = some none
class_before st (ended rest) = some (some (item 1 st, rest))

abbrev pub drop_lazy : Text → Text
drop_lazy [] = []
drop_lazy (c ∷ s) = if c == b'?' then s else c ∷ s

abbrev pub weighed : ℕ → Option Counted → ℕ
weighed operand none = operand
weighed operand (some counted) = repeat_weight operand counted

abbrev pub is_counted : Option Counted → Bool
is_counted none = false
is_counted (some counted) = true

abbrev pub repeat_of : Option ℕ → Option Counted → Scan → Text → Round
repeat_of none counted st s = none
repeat_of (some operand) counted st s =
    if is_counted counted && ltb max_repeat (weighed operand counted)
    then none
    else some (
      record st {
        top = record { done = st.top.done; last = some (weighed operand counted) };
        last_was_repeat = true;
      },
      drop_lazy s,
    )

-- A repetition operator, with the text after it
abbrev pub repetition : Option Counted → Text → Scan → Round
repetition counted s st = if st.last_was_repeat then none else repeat_of st.top.last counted st s

-- After `{`: a brace that starts no repetition is a literal.
abbrev pub braces : Text → Scan → Option (Counted × Text) → Round
braces s st none = some (item 1 st, s)
braces s st (some (counted, rest)) =
    if is_allowed counted then repetition (some counted) rest st else none

abbrev pub quoted_item : Scan → Text → Scan
quoted_item st [] = record st { last_was_repeat = false }
quoted_item st (c ∷ s) = item 1 st

-- After `\Q`: literal text to `\E` or to the end
abbrev pub quoted : Text → Scan → Option (Text × Text) → Round
quoted s st none = some (quoted_item st s, [])
quoted s st (some (literal, rest)) = some (quoted_item st literal, rest)

abbrev pub escaped_rest : Option (ℕ × Text) → Option Text
escaped_rest none = none
escaped_rest (some (cp, rest)) = some rest

abbrev pub is_closed : List Frame → Bool
is_closed [] = true
is_closed (f ∷ fs) = false

-- The state before the first round.
abbrev pub start_scan : Scan
start_scan = record { top = new_frame; outer = []; last_was_repeat = false }

module _ (lower upper : Text → Text) (has_script : Text → Bool) where
  -- What is left after an escape, for the text after the backslash.
  abbrev pub escape_rest : ℕ → Text → Option Text
  escape_rest c s =
      if c == b'A' || c == b'b' || c == b'B' || c == b'z'
      then some s
      else if c == b'p' || c == b'P'
      then parse_unicode_class lower upper has_script s
      else if is_perl_class c
      then some s
      else escaped_rest (parse_escape (c ∷ s))

  abbrev pub escape : Text → Scan → Round
  escape [] st = none
  escape (c ∷ s) st =
      if c == b'C'
      then none
      else if c == b'Q'
      then quoted s st (break_at_pair b'\\' b'E' s)
      else item_before st (escape_rest c s)

  -- `none` when the fuel of a class runs out
  unfoldable pub round : ℕ → Text → Scan → Option Round
  unfolding repeat_weight
  round c s st =
      if c == b'('
      then some (group_start s st)
      else if c == b')'
      then some (group_end st.top st.outer s)
      else if c == b'|'
      then some (some (alternative st, s))
      else if c == b'['
      then class_before st (parse_class lower upper has_script s)
      else if c == b'*' || c == b'+' || c == b'?'
      then some (repetition none s st)
      else if c == b'{'
      then some (braces s st (parse_repeat s))
      else if c == b'\\'
      then some (escape s st)
      else some (item_before st (escaped_rest (code_point (c ∷ s))))

  -- The loop; `none` when the fuel runs out, its own or that of a class.
  unfoldable pub rounds : ℕ → Text → Scan → Option Bool
  unfolding round
  rounds f [] st = some (is_closed st.outer)
  rounds zero (c ∷ s) st = none
  rounds (suc f) (c ∷ s) st = elim (round c s st) [
    | none ↦ none
    | some none ↦ some false
    | some (some (st', rest)) ↦ rounds f rest st'
  ]

  unfoldable pub compiles_in_go : Text → Option Bool
  unfolding rounds
  compiles_in_go pattern = rounds (length pattern) pattern start_scan
