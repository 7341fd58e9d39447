-- ===== src/Settings/Regex/Ending.antt =====
-- The scan of a pattern comes to an end, whatever the pattern.
use kiro_reverse_api.Prelude.{
  ℕ, zero, suc, ◌≤◌, ◌≡◌, refl, ◌∙◌, Bool, true, false, ◌&&◌, ◌||◌, List, [], ◌∷◌, Option, none,
  some, arith, length, if_keeps, ◌==◌, ltb,
}
use kiro_reverse_api.Text.{Text}
use kiro_reverse_api.Settings.Regex.{break_at_pair, parse_escape, code_point, parse_unicode_class}
use kiro_reverse_api.Settings.Regex.Tables.{is_perl_class}
use kiro_reverse_api.Settings.Regex.Patterns.{
  parse_perl_group, parse_repeat, Opening, Counted, parse_class, max_repeat, ClassEnd, out_of_fuel,
  rejected, ended,
}
use kiro_reverse_api.Settings.Regex.Compiles.{
  Scan, Frame, Round, opened, group_start, group_end, item_before, class_before, drop_lazy,
  repeat_of, repetition, braces, quoted, escaped_rest, escape_rest, escape, round, rounds,
  compiles_in_go, start_scan, is_closed, is_allowed, weighed, is_counted, open_group, alternative,
}
use kiro_reverse_api.Settings.Regex.Progress.{
  Within, Within-more, rest_of, same_text, break_at_pair-Within, parse_escape-Within,
  code_point-Within, parse_unicode_class-Within,
}
use kiro_reverse_api.Settings.Regex.Classes.{Ends, parse_class-Ends}
use kiro_reverse_api.Settings.Regex.Groups.{perl_group-Within, repeat-Within}

opened-Within :
    (n : ℕ) (st : Scan) (o : Option Opening) → Within rest_of n o → Within rest_of n (opened st o)
opened-Within n st none h = tt
opened-Within n st (some (b, rest)) h = h

group_start-Within : (s : Text) (st : Scan) → Within rest_of (length s) (group_start s st)
group_start-Within [] st = omega arith
group_start-Within (c ∷ s) st =
    let n = suc (length s) in
    if_keeps (Within rest_of n) (c == b'?') {y = some (open_group true st, c ∷ s)}
      (opened-Within n st (parse_perl_group s)
        (Within-more rest_of (length s) n (parse_perl_group s) (omega arith) (perl_group-Within s)))
      (omega arith)

group_end-Within :
    (group : Frame) (outer : List Frame) (s : Text)
    → Within rest_of (length s) (group_end group outer s)
group_end-Within group [] s = tt
group_end-Within group (f ∷ outer) s = omega arith

item_before-Within :
    (n : ℕ) (st : Scan) (o : Option Text)
    → Within same_text n o
    → Within rest_of n (item_before st o)
item_before-Within n st none h = tt
item_before-Within n st (some rest) h = h

drop_lazy_le : (s : Text) → length (drop_lazy s) ≤ length s
drop_lazy_le [] = omega arith
drop_lazy_le (c ∷ s) = ground arith

repeat_of-Within :
    (o : Option ℕ) (k : Option Counted) (st : Scan) (s : Text)
    → Within rest_of (length s) (repeat_of o k st s)
repeat_of-Within none k st s = tt
repeat_of-Within (some w) k st s =
    if_keeps (Within rest_of (length s)) (is_counted k && ltb max_repeat (weighed w k)) {x = none}
      {y = some (
        record st {
          top = record { done = st.top.done; last = some (weighed w k) };
          last_was_repeat = true;
        },
        drop_lazy s,
      )}
      tt (drop_lazy_le s)

repetition-Within :
    (k : Option Counted) (s : Text) (st : Scan) → Within rest_of (length s) (repetition k s st)
repetition-Within k s st =
    if_keeps (Within rest_of (length s)) st.last_was_repeat {x = none} tt
      (repeat_of-Within st.top.last k st s)

braces-Within :
    (s : Text) (st : Scan) (o : Option (Counted × Text))
    → Within rest_of (length s) o
    → Within rest_of (length s) (braces s st o)
braces-Within s st none h = omega arith
braces-Within s st (some (k, rest)) h =
    if_keeps (Within rest_of (length s)) (is_allowed k) {y = none}
      (Within-more rest_of (length rest) (length s) (repetition (some k) rest st) h
        (repetition-Within (some k) rest st))
      tt

quoted-Within :
    (s : Text) (st : Scan) (o : Option (Text × Text))
    → Within rest_of (length s) o
    → Within rest_of (length s) (quoted s st o)
quoted-Within s st none h = omega arith
quoted-Within s st (some (l, rest)) h = h

escaped_rest-Within :
    (n : ℕ) (o : Option (ℕ × Text)) → Within rest_of n o → Within same_text n (escaped_rest o)
escaped_rest-Within n none h = tt
escaped_rest-Within n (some (cp, rest)) h = h

-- A round comes to its end, the class that it reads included, and leaves at most `n` units.
abbrev RoundEnds : ℕ → Option Round → Type 0
RoundEnds n none = ⊥
RoundEnds n (some r) = Within rest_of n r

class_before-RoundEnds :
    (n : ℕ) (st : Scan) (r : ClassEnd) → Ends n r → RoundEnds n (class_before st r)
class_before-RoundEnds n st out_of_fuel h = elim h [ ]
class_before-RoundEnds n st rejected h = tt
class_before-RoundEnds n st (ended rest) h = h

-- Both fuels give the same verdict.
abbrev pub SameVerdict : Option Bool → Option Bool → Type 0
SameVerdict o p = (b : Bool) × (o ≡ some b) × (p ≡ some b)

module _ (lower upper : Text → Text) (has_script : Text → Bool) where
  escape_rest-Within :
      (c : ℕ) (s : Text)
      → Within same_text (suc (length s)) (escape_rest lower upper has_script c s)
  escape_rest-Within c s =
      let n = suc (length s) in
      if_keeps (Within same_text n) (c == b'A' || c == b'b' || c == b'B' || c == b'z') {x = some s}
        (omega arith)
        (if_keeps (Within same_text n) (c == b'p' || c == b'P')
          (Within-more same_text (length s) n (parse_unicode_class lower upper has_script s)
            (omega arith) (parse_unicode_class-Within lower upper has_script s))
          (if_keeps (Within same_text n) (is_perl_class c) {x = some s} (omega arith)
            (escaped_rest-Within n (parse_escape (c ∷ s)) (parse_escape-Within (c ∷ s)))))

  escape-Within :
      (s : Text) (st : Scan) → Within rest_of (length s) (escape lower upper has_script s st)
  escape-Within [] st = tt
  escape-Within (c ∷ s) st =
      let n = suc (length s) in
      if_keeps (Within rest_of n) (c == b'C') {x = none} tt (
        if_keeps (Within rest_of n) (c == b'Q')
          (Within-more rest_of (length s) n (quoted s st (break_at_pair b'\\' b'E' s)) (omega arith)
            (quoted-Within s st (break_at_pair b'\\' b'E' s) (break_at_pair-Within b'\\' b'E' s)))
          (item_before-Within n st (escape_rest lower upper has_script c s)
            (escape_rest-Within c s)))

  round-RoundEnds :
      (c : ℕ) (s : Text) (st : Scan) → RoundEnds (length s) (round lower upper has_script c s st)
  unfolding round
  round-RoundEnds c s st =
      let P = RoundEnds (length s) in
      if_keeps P (c == b'(') {x = some (group_start s st)} (group_start-Within s st) (
        if_keeps P (c == b')') {x = some (group_end st.top st.outer s)}
          (group_end-Within st.top st.outer s)
          (if_keeps P (c == b'|') {x = some (some (alternative st, s))} (omega arith) (
            if_keeps P (c == b'[')
              (class_before-RoundEnds (length s) st (parse_class lower upper has_script s)
                (parse_class-Ends lower upper has_script s))
              (if_keeps P (c == b'*' || c == b'+' || c == b'?') {x = some (repetition none s st)}
                (repetition-Within none s st)
                (if_keeps P (c == b'{') {x = some (braces s st (parse_repeat s))}
                  (braces-Within s st (parse_repeat s) (repeat-Within s))
                  (if_keeps P (c == b'\\') {x = some (escape lower upper has_script s st)}
                    {y = some (item_before st (escaped_rest (code_point (c ∷ s))))}
                    (escape-Within s st)
                    (item_before-Within (length s) st (escaped_rest (code_point (c ∷ s))) (
                      escaped_rest-Within (length s) (code_point (c ∷ s))
                        (code_point-Within c s)))))))))

  -- What a round leaves, in the rest of the loop.
  abbrev pub next_rounds : ℕ → Option Round → Option Bool
  next_rounds f none = none
  next_rounds f (some none) = some false
  next_rounds f (some (some (st, rest))) = rounds lower upper has_script f rest st

  pub rounds-step :
      (f c : ℕ) (s : Text) (st : Scan)
      → rounds lower upper has_script (suc f) (c ∷ s) st
        ≡ next_rounds f (round lower upper has_script c s st)
  unfolding rounds round
  rounds-step f c s st = refl

  next_rounds-SameVerdict :
      (f g n : ℕ) (r : Option Round)
      → ((s : Text) (st : Scan)
          → length s ≤ n
          → SameVerdict
              (rounds lower upper has_script f s st)
              (rounds lower upper has_script g s st))
      → RoundEnds n r
      → SameVerdict (next_rounds f r) (next_rounds g r)
  next_rounds-SameVerdict f g n none ih h = elim h [ ]
  next_rounds-SameVerdict f g n (some none) ih h = (false, refl, refl)
  next_rounds-SameVerdict f g n (some (some (st, rest))) ih h = ih rest st h

  rounds-SameVerdict :
      (f g : ℕ) (s : Text) (st : Scan)
      → length s ≤ f
      → length s ≤ g
      → SameVerdict (rounds lower upper has_script f s st) (rounds lower upper has_script g s st)
  unfolding rounds
  rounds-SameVerdict f g [] st h k = (is_closed st.outer, refl, refl)
  rounds-SameVerdict zero g (c ∷ s) st h k = absurd (omega (arith, h))
  rounds-SameVerdict (suc f) zero (c ∷ s) st h k = absurd (omega (arith, k))
  rounds-SameVerdict (suc f) (suc g) (c ∷ s) st h k =
      let n =
        next_rounds-SameVerdict f g (length s) (round lower upper has_script c s st)
          (λ r u l. rounds-SameVerdict f g r u (omega (arith, l, h)) (omega (arith, l, k)))
          (round-RoundEnds c s st) in
      (n.0, rounds-step f c s st ∙ n.1, rounds-step g c s st ∙ n.2)

  -- The scan of every pattern ends with a verdict: neither the fuel of the loop over the pattern nor
  -- that of the loop over a class runs out, and more of the first gives the same verdict.
  pub compiles_in_go-SameVerdict :
      (pattern : Text) (fuel : ℕ)
      → length pattern ≤ fuel
      → SameVerdict
          (compiles_in_go lower upper has_script pattern)
          (rounds lower upper has_script fuel pattern start_scan)
  unfolding compiles_in_go
  compiles_in_go-SameVerdict pattern fuel h =
      rounds-SameVerdict (length pattern) fuel pattern start_scan (omega arith) h
