-- ===== src/Text/Decimal.antt =====
-- `String(n)` for a whole number and `Number.parseInt(s, 10)`; reading back what was printed.
use kiro_reverse_api.Prelude.{
  ℕ, zero, suc, ◌+◌, ◌-◌, ◌*◌, ◌/◌, ◌%◌, ◌<◌, ◌≡◌, refl, Bool, true, false, ◌&&◌, [], ◌∷◌, Option,
  none, some, arith, all, ap, sym, ◌∙◌, leb, ltb, ◌==◌, if◌then◌else◌, Bool-cases, inl, inr,
}
use kiro_reverse_api.Prelude.Int.{ℤ, pos, negsuc, neg_ℕ}
use kiro_reverse_api.Text.{Text, is_full}
use kiro_reverse_api.Text.Trim.{trim_start, is_space}

abbrev pub is_digit : ℕ → Bool
is_digit c = leb b'0' c && leb c b'9'

-- The digits of `n` in front of `rest`; the fuel bounds the number of digits.
print_from : ℕ → ℕ → Text → Text
print_from zero n rest = rest
print_from (suc f) n rest =
    let more = print_from f (n / 10) ((b'0' + n % 10) ∷ rest) in
    if ltb n 10 then (b'0' + n) ∷ rest else more

-- `String(n)`, n < 10^21
unfoldable pub print_ℕ : ℕ → Text
unfolding print_from
print_ℕ n = print_from (suc n) n []

unfoldable pub print_ℤ : ℤ → Text
unfolding print_ℕ
print_ℤ (pos n) = print_ℕ n
print_ℤ (negsuc n) = b'-' ∷ print_ℕ (suc n)

-- The value of the leading digits.
read_from : ℕ → Text → ℕ
read_from n [] = n
read_from n (c ∷ s) = let more = read_from (n * 10 + (c - b'0')) s in if is_digit c then more else n

-- `none` is NaN: there is no leading digit.
read_digits : Text → Option ℕ
unfolding read_from
read_digits [] = none
read_digits (c ∷ s) = if is_digit c then some (read_from 0 (c ∷ s)) else none

abbrev signed : (ℕ → ℤ) → Option ℕ → Option ℤ
signed f none = none
signed f (some n) = some (f n)

read_signed : Text → Option ℤ
unfolding read_digits
read_signed [] = none
read_signed (c ∷ s) =
    if c == b'-'
    then signed neg_ℕ (read_digits s)
    else if c == b'+'
    then signed pos (read_digits s)
    else signed pos (read_digits (c ∷ s))

-- `Number.parseInt(s, 10)`
unfoldable pub parse_int : Text → Option ℤ
unfolding read_signed
parse_int s = read_signed (trim_start s)

read_from-print_from :
    (f n : ℕ) (rest : Text) → n < f → read_from 0 (print_from f n rest) ≡ read_from n rest
unfolding print_from read_from
read_from-print_from zero n rest h = absurd (omega arith)
read_from-print_from (suc f) n rest h =
    ground (arith, read_from-print_from f (n / 10) ((b'0' + n % 10) ∷ rest))

-- A printed number begins with a digit.
print_from_head :
    (f n : ℕ) (rest : Text)
    → n < f
    → (c : ℕ) × (s : Text) × (print_from f n rest ≡ c ∷ s) × (is_digit c ≡ true)
unfolding print_from
print_from_head zero n rest h = absurd (omega arith)
print_from_head (suc f) n rest h = elim (Bool-cases (ltb n 10)) [
  | inl small ↦ (b'0' + n, rest, rw small, ground arith)
  | inr large ↦
      let (c, s, e, d) = print_from_head f (n / 10) ((b'0' + n % 10) ∷ rest) (ground arith) in
      (c, s, rw large e, d)
]

digit_unit :
    (c : ℕ)
    → is_digit c ≡ true
    → (is_space c ≡ false) × ((c == b'-') ≡ false) × ((c == b'+') ≡ false)
unfolding is_space
digit_unit c h = ground arith

-- Text that begins with a digit is read as its digits.
parse_int_digits :
    (c : ℕ) (s : Text) → is_digit c ≡ true → parse_int (c ∷ s) ≡ some (pos (read_from 0 (c ∷ s)))
unfolding parse_int trim_start
parse_int_digits c s h = ground (arith, digit_unit c h)

-- Parsing a printed number gives the number.
pub parse_int-print_ℕ : (n : ℕ) → parse_int (print_ℕ n) ≡ some (pos n)
unfolding print_ℕ
parse_int-print_ℕ n =
    let (c, s, e, d) = print_from_head (suc n) n [] (omega arith) in
    let read : read_from 0 (c ∷ s) ≡ n =
      rw (← e) (unfold read_from in read_from-print_from (suc n) n [] (omega arith)) in
    rw e (rw (parse_int_digits c s d, read))

read_digits_head :
    (c : ℕ) (s : Text) → is_digit c ≡ true → read_digits (c ∷ s) ≡ some (read_from 0 (c ∷ s))
unfolding read_digits
read_digits_head c s h = ground arith

parse_int_minus : (s : Text) → parse_int (b'-' ∷ s) ≡ signed neg_ℕ (read_digits s)
unfolding parse_int trim_start
parse_int_minus s = refl

-- The same for every integer, its sign included.
pub parse_int-print_ℤ : (z : ℤ) → parse_int (print_ℤ z) ≡ some z
unfolding print_ℤ
parse_int-print_ℤ (pos n) = parse_int-print_ℕ n
parse_int-print_ℤ (negsuc n) =
    let (c, s, e, d) = print_from_head (suc (suc n)) (suc n) [] (omega arith) in
    let read : read_from 0 (c ∷ s) ≡ suc n =
      rw (← e) (unfold read_from in read_from-print_from (suc (suc n)) (suc n) [] (omega arith)) in
    rw e (rw (parse_int_minus (c ∷ s), read_digits_head c s d, read))

is_full-print_from : (f n c : ℕ) (rest : Text) → is_full (print_from f n (c ∷ rest)) ≡ true
unfolding print_from
is_full-print_from zero n c rest = refl
is_full-print_from (suc f) n c rest =
    ground (arith, is_full-print_from f (n / 10) (b'0' + n % 10) (c ∷ rest))

is_full-print_ℕ : (n : ℕ) → is_full (print_ℕ n) ≡ true
unfolding print_ℕ print_from
is_full-print_ℕ n = ground (arith, is_full-print_from n (n / 10) (b'0' + n % 10) [])

pub is_full-print_ℤ : (z : ℤ) → is_full (print_ℤ z) ≡ true
unfolding print_ℤ
is_full-print_ℤ (pos n) = is_full-print_ℕ n
is_full-print_ℤ (negsuc n) = refl

all-print_from :
    (f n : ℕ) (rest : Text) → all is_digit rest ≡ true → all is_digit (print_from f n rest) ≡ true
unfolding print_from
all-print_from zero n rest h = h
all-print_from (suc f) n rest h = ground (arith, all-print_from f (n / 10) ((b'0' + n % 10) ∷ rest))

-- A printed number is made of digits.
pub all-print_ℕ : (n : ℕ) → all is_digit (print_ℕ n) ≡ true
unfolding print_ℕ
all-print_ℕ n = all-print_from (suc n) n [] refl

read_ℕ : Option ℤ → ℕ
read_ℕ (some (pos n)) = n
read_ℕ (some (negsuc n)) = 0
read_ℕ none = 0

-- Numbers that are printed the same are the same.
pub print_ℕ_inj : (m n : ℕ) → print_ℕ m ≡ print_ℕ n → m ≡ n
unfolding read_ℕ
print_ℕ_inj m n e = ap read_ℕ (sym (parse_int-print_ℕ m) ∙ ap parse_int e ∙ parse_int-print_ℕ n)
