-- ===== src/Settings/Regex/Groups.antt =====
-- The parsers of groups and repetitions leave no more than they were given.
use kiro_reverse_api.Prelude.{
  ℕ, suc, ◌+◌, ◌*◌, ◌-◌, ◌≤◌, Bool, true, false, ◌&&◌, [], ◌∷◌, Option, none, some, arith, length,
  if_keeps, ◌==◌,
}
use kiro_reverse_api.Text.{Text, is_full}
use kiro_reverse_api.Settings.Regex.{break_at}
use kiro_reverse_api.Settings.Regex.Patterns.{
  named_group, perl_flags, parse_perl_group, digits_from, parse_count, closed_by, upper_count,
  after_count, counted_of, parse_repeat, Counted,
}
use kiro_reverse_api.Settings.Regex.Progress.{Within, Within-more, rest_of, break_at-Within}

named_group-Within :
    (n : ℕ) (o : Option (Text × Text)) → Within rest_of n o → Within rest_of n (named_group o)
named_group-Within n none h = tt
named_group-Within n (some (name, rest)) h = ground arith

perl_flags-Within :
    (negated saw : Bool) (s : Text) → Within rest_of (length s) (perl_flags negated saw s)
unfolding perl_flags
perl_flags-Within negated saw [] = tt
perl_flags-Within negated saw (c ∷ s) =
    let flag =
      Within-more rest_of (length s) (suc (length s)) (perl_flags negated true s) (omega arith)
        (perl_flags-Within negated true s) in
    let dash =
      Within-more rest_of (length s) (suc (length s)) (perl_flags true false s) (omega arith)
        (perl_flags-Within true false s) in
    ground arith

pub perl_group-Within : (s : Text) → Within rest_of (length s) (parse_perl_group s)
unfolding parse_perl_group
perl_group-Within [] = tt
perl_group-Within (c ∷ []) = perl_flags-Within false false (c ∷ [])
perl_group-Within (c ∷ d ∷ s) =
    let short = named_group-Within (length s) (break_at b'>' s) (break_at-Within b'>' s) in
    let long =
      named_group-Within (suc (length s)) (break_at b'>' (d ∷ s)) (break_at-Within b'>' (d ∷ s)) in
    let n = suc (suc (length s)) in
    if_keeps (Within rest_of n) (c == b'<')
      (Within-more rest_of (suc (length s)) n (named_group (break_at b'>' (d ∷ s))) (omega arith)
        long)
      (if_keeps (Within rest_of n) (c == b'P' && d == b'<' && is_full s)
        (Within-more rest_of (length s) n (named_group (break_at b'>' s)) (omega arith) short)
        (perl_flags-Within false false (c ∷ d ∷ s)))

digits_from_le : (n : ℕ) (s : Text) → length (digits_from n s).1 ≤ length s
unfolding digits_from
digits_from_le n [] = omega arith
digits_from_le n (c ∷ s) = ground (arith, digits_from_le (n * 10 + (c - b'0')) s)

count-Within : (s : Text) → Within rest_of (length s) (parse_count s)
unfolding parse_count
count-Within [] = tt
count-Within (c ∷ s) = ground (arith, digits_from_le (c - b'0') s)

closed_by-Within : (k : Counted) (s : Text) → Within rest_of (length s) (closed_by k s)
closed_by-Within k [] = tt
closed_by-Within k (c ∷ s) = ground arith

upper_count-Within :
    (n : ℕ) (s : Text) (o : Option (ℕ × Text))
    → Within rest_of (length s) o
    → Within rest_of (length s) (upper_count n s o)
upper_count-Within n s none h = closed_by-Within (record { low = n; high = none }) s
upper_count-Within n s (some (m, rest)) h =
    Within-more rest_of (length rest) (length s)
      (closed_by (record { low = n; high = some m }) rest) h
      (closed_by-Within (record { low = n; high = some m }) rest)

after_count-Within : (n : ℕ) (s : Text) → Within rest_of (length s) (after_count n s)
after_count-Within n [] = tt
after_count-Within n (c ∷ s) =
    if_keeps (Within rest_of (suc (length s))) (c == b',')
      (Within-more rest_of (length s) (suc (length s)) (upper_count n s (parse_count s))
        (omega arith) (upper_count-Within n s (parse_count s) (count-Within s)))
      (closed_by-Within (record { low = n; high = some n }) (c ∷ s))

counted_of-Within :
    (n : ℕ) (o : Option (ℕ × Text)) → Within rest_of n o → Within rest_of n (counted_of o)
counted_of-Within n none h = tt
counted_of-Within n (some (k, rest)) h =
    Within-more rest_of (length rest) n (after_count k rest) h (after_count-Within k rest)

pub repeat-Within : (s : Text) → Within rest_of (length s) (parse_repeat s)
unfolding parse_repeat
repeat-Within s = counted_of-Within (length s) (parse_count s) (count-Within s)
