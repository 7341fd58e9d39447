-- ===== src/Accounts/Tallies.antt =====
-- The count of an option is the number of accounts with its value.
use kiro_reverse_api.Prelude.{
  ℕ, ◌+◌, ◌≡◌, sym, ◌∙◌, Bool, true, false, List, [], ◌∷◌, All, All-both, All-weaken, keep, length,
  if◌then◌else◌, Bool-cases, inl, inr, arith,
}
use kiro_reverse_api.Prelude.Int.{ℤ}
use kiro_reverse_api.Text.{Text, text_eq}
use kiro_reverse_api.Text.Equality.{text_eq_iff, text_eq_self, text_eq_sym}
use kiro_reverse_api.Accounts.{Account}
use kiro_reverse_api.Accounts.Filters.{
  FilterDimension, FilterOption, dimension_value, count_option, tally,
}

abbrev count_of : List FilterOption → Text → ℕ
count_of [] v = 0
count_of (o ∷ os) v = if text_eq o.value v then o.count else count_of os v

abbrev one_if : Bool → ℕ
one_if true = 1
one_if false = 0

-- No option has the value.
abbrev LacksValue : Text → List FilterOption → Type 0
LacksValue v os = All (λ (o : FilterOption). text_eq o.value v ≡ false) os

abbrev Distinct : List FilterOption → Type 0
Distinct [] = Unit
Distinct (o ∷ os) = LacksValue o.value os × Distinct os

counts-own :
    (os : List FilterOption)
    → Distinct os
    → All (λ (o : FilterOption). o.count ≡ count_of os o.value) os
counts-own [] h = tt
counts-own (o ∷ os) h = (
  rw (text_eq_self o.value),
  All-both {P = λ (p : FilterOption). text_eq p.value o.value ≡ false}
      {Q = λ (p : FilterOption). p.count ≡ count_of os p.value}
      {R = λ (p : FilterOption). p.count ≡ count_of (o ∷ os) p.value} os
      (λ p n e. rw (text_eq_sym o.value p.value, n) e) h.0 (counts-own os h.1),
)

-- A value that differs from another one is not equal to the same as that one.
other_value : (a b v : Text) → text_eq a b ≡ false → text_eq a v ≡ true → text_eq b v ≡ false
other_value a b v n e = rw (sym ((text_eq_iff a v).0 e), text_eq_sym b a) n

module _ (lower upper t : Text → Text) (dimension : FilterDimension) (now : ℤ) where
  abbrev counted : Account → Text → List FilterOption → List FilterOption
  counted = count_option lower upper t dimension now

  -- The dimension's value of an account.
  abbrev pub value_of : Account → Text
  value_of a = dimension_value lower upper a dimension now

  -- How many accounts have the value.
  abbrev pub occurrences : Text → List Account → ℕ
  occurrences v accounts = length (keep (λ a. text_eq (value_of a) v) accounts)

  count_of-counted :
      (a : Account) (w : Text) (os : List FilterOption) (v : Text)
      → count_of (counted a w os) v ≡ one_if (text_eq w v) + count_of os v
  unfolding count_option
  count_of-counted a w [] v = ground arith
  count_of-counted a w (o ∷ os) v = elim (Bool-cases (text_eq o.value w)) [
    | inl e ↦ rw (e, (text_eq_iff o.value w).0 e) (ground arith)
    | inr e ↦ elim (Bool-cases (text_eq o.value v)) [
      | inl f ↦ rw (e, f, other_value o.value w v e f) (omega arith)
      | inr f ↦ rw (e, f) (count_of-counted a w os v)
    ]
  ]

  LacksValue-counted :
      (a : Account) (w : Text) (os : List FilterOption) (v : Text)
      → LacksValue v os
      → text_eq w v ≡ false
      → LacksValue v (counted a w os)
  unfolding count_option
  LacksValue-counted a w [] v h n = (n, tt)
  LacksValue-counted a w (o ∷ os) v h n = elim (Bool-cases (text_eq o.value w)) [
    | inl e ↦ rw e h
    | inr e ↦ rw e (h.0, LacksValue-counted a w os v h.1 n)
  ]

  Distinct-counted :
      (a : Account) (w : Text) (os : List FilterOption) → Distinct os → Distinct (counted a w os)
  unfolding count_option
  Distinct-counted a w [] h = (tt, tt)
  Distinct-counted a w (o ∷ os) h = elim (Bool-cases (text_eq o.value w)) [
    | inl e ↦ rw e h
    | inr e ↦ rw e (
      LacksValue-counted a w os o.value h.0 (text_eq_sym w o.value ∙ e),
      Distinct-counted a w os h.1,
    )
  ]

  All-counted :
      (Q : Text → Type 0) (a : Account) (w : Text) (os : List FilterOption)
      → Q w
      → All (λ (o : FilterOption). Q o.value) os
      → All (λ (o : FilterOption). Q o.value) (counted a w os)
  unfolding count_option
  All-counted Q a w [] q h = (q, tt)
  All-counted Q a w (o ∷ os) q h = elim (Bool-cases (text_eq o.value w)) [
    | inl e ↦ rw e h
    | inr e ↦ rw e (h.0, All-counted Q a w os q h.1)
  ]

  abbrev tallied : List FilterOption → List Account → List FilterOption
  tallied = tally lower upper t dimension now

  count_of-tallied :
      (os : List FilterOption) (accounts : List Account) (v : Text)
      → count_of (tallied os accounts) v ≡ count_of os v + occurrences v accounts
  unfolding tally
  count_of-tallied os [] v = omega arith
  count_of-tallied os (a ∷ rest) v = ground (
    arith,
    count_of-tallied (counted a (value_of a) os) rest v,
    count_of-counted a (value_of a) os v,
  )

  Distinct-tallied :
      (os : List FilterOption) (accounts : List Account)
      → Distinct os
      → Distinct (tallied os accounts)
  unfolding tally
  Distinct-tallied os [] h = h
  Distinct-tallied os (a ∷ rest) h =
      Distinct-tallied (counted a (value_of a) os) rest (Distinct-counted a (value_of a) os h)

  pub All-tallied :
      (Q : Text → Type 0) (os : List FilterOption) (accounts : List Account)
      → ((a : Account) → Q (value_of a))
      → All (λ (o : FilterOption). Q o.value) os
      → All (λ (o : FilterOption). Q o.value) (tallied os accounts)
  unfolding tally
  All-tallied Q os [] q h = h
  All-tallied Q os (a ∷ rest) q h =
      All-tallied Q (counted a (value_of a) os) rest q (All-counted Q a (value_of a) os (q a) h)

  pub counts-tallied :
      (accounts : List Account)
      → All (λ (o : FilterOption). o.count ≡ occurrences o.value accounts) (tallied [] accounts)
  counts-tallied accounts =
      All-weaken {R = λ (o : FilterOption). o.count ≡ occurrences o.value accounts}
        (tallied [] accounts) (λ o e. e ∙ omega (arith, count_of-tallied [] accounts o.value))
        (counts-own (tallied [] accounts) (Distinct-tallied [] accounts tt))
