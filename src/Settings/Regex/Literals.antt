-- ===== src/Settings/Regex/Literals.antt =====
-- Text that stands for itself compiles.
use kiro_reverse_api.Prelude.{
  ℕ, zero, suc, ◌≤◌, ◌≡◌, ◌≢◌, refl, ap, ◌∙◌, Bool, true, false, not, ◌&&◌, ◌||◌, List, [], ◌∷◌,
  ◌++◌, Option, none, some, if◌then◌else◌, arith, length, ◌==◌, Bool-cases, inl, inr, all,
}
use kiro_reverse_api.Text.{Text}
use kiro_reverse_api.Settings.Regex.{break_at_pair, code_point, is_surrogate_pair}
use kiro_reverse_api.Settings.Regex.Ending.{rounds-step, next_rounds}
use kiro_reverse_api.Settings.Regex.Compiles.{
  Scan, Frame, item_before, escaped_rest, round, rounds, compiles_in_go, start_scan, item, quoted,
  quoted_item, is_closed,
}

-- A unit with no meaning of its own in a pattern.
abbrev pub is_plain : ℕ → Bool
is_plain c =
    not (c == b'(')
    && not (c == b')')
    && not (c == b'|')
    && not (c == b'[')
    && not (c == b'*' || c == b'+' || c == b'?')
    && not (c == b'{')
    && not (c == b'\\')

some-ne-none {ℓ} : {A : Type ℓ} {a : A} → some a ≡ none → ⊥
some-ne-none e = absurd (cc)

none_before :
    (e : ℕ) (o : Option (Text × Text))
    → ◌≡◌ {A = Option (Text × Text)} (elim o [ none ↦ none | some (a, b) ↦ some (e ∷ a, b) ]) none
    → o ≡ none
none_before e none h = refl
none_before e (some (a, b)) h = absurd (cc)

both_true : (a b : Bool) → (a && b) ≡ true → (a ≡ true) × (b ≡ true)
both_true true true h = (refl, refl)
both_true true false h = absurd (cc)
both_true false b h = absurd (cc)

quoted_item-outer : (t : Text) → (quoted_item start_scan t).outer ≡ []
quoted_item-outer [] = refl
quoted_item-outer (c ∷ t) = refl

no_pair-cons :
    (c d e f : ℕ) (t : Text)
    → break_at_pair c d (e ∷ f ∷ t) ≡ none
    → ((e == c && f == d) ≡ false) × (break_at_pair c d (f ∷ t) ≡ none)
no_pair-cons c d e f t h = elim (Bool-cases (e == c && f == d)) [
  | inl b ↦ absurd (some-ne-none (rw b at h))
  | inr b ↦ (b, none_before e (break_at_pair c d (f ∷ t)) (rw b at h))
]

split_at_pair :
    (c d : ℕ) (t : Text)
    → c ≢ d
    → break_at_pair c d t ≡ none
    → break_at_pair c d (t ++ c ∷ d ∷ []) ≡ some (t, [])
split_at_pair c d [] n h = ground arith
split_at_pair c d (e ∷ []) n h = ground arith
split_at_pair c d (e ∷ f ∷ t) n h =
    let (b, rest) = no_pair-cons c d e f t h in rw (b, split_at_pair c d (f ∷ t) n rest) refl

-- The last alternative is the one where no test holds.
last_choice {ℓ} :
    {A : Type ℓ} (b1 b2 b3 b4 b5 b6 b7 : Bool) (x1 x2 x3 x4 x5 x6 x7 y : A)
    → (not b1 && not b2 && not b3 && not b4 && not b5 && not b6 && not b7) ≡ true
    → (if b1
        then x1
        else if b2
        then x2
        else if b3
        then x3
        else if b4
        then x4
        else if b5
        then x5
        else if b6
        then x6
        else if b7
        then x7
        else y)
      ≡ y
last_choice false false false false false false false x1 x2 x3 x4 x5 x6 x7 y h = refl
last_choice true b2 b3 b4 b5 b6 b7 x1 x2 x3 x4 x5 x6 x7 y h = absurd (cc)
last_choice false true b3 b4 b5 b6 b7 x1 x2 x3 x4 x5 x6 x7 y h = absurd (cc)
last_choice false false true b4 b5 b6 b7 x1 x2 x3 x4 x5 x6 x7 y h = absurd (cc)
last_choice false false false true b5 b6 b7 x1 x2 x3 x4 x5 x6 x7 y h = absurd (cc)
last_choice false false false false true b6 b7 x1 x2 x3 x4 x5 x6 x7 y h = absurd (cc)
last_choice false false false false false true b7 x1 x2 x3 x4 x5 x6 x7 y h = absurd (cc)
last_choice false false false false false false true x1 x2 x3 x4 x5 x6 x7 y h = absurd (cc)

-- What is left after a plain character is plain.
plain_left :
    (c : ℕ) (s : Text)
    → all is_plain s ≡ true
    → (r : Text) × (escaped_rest (code_point (c ∷ s)) ≡ some r)
      × (length r ≤ length s)
      × (all is_plain r ≡ true)
plain_left c [] h = ([], refl, omega arith, refl)
plain_left c (d ∷ s) h = elim (Bool-cases (is_surrogate_pair c d)) [
  | inl e ↦ (s, rw e refl, omega arith, (both_true (is_plain d) (all is_plain s) h).1)
  | inr e ↦ (d ∷ s, rw e refl, omega arith, h)
]

module _ (lower upper : Text → Text) (has_script : Text → Bool) where
  round-plain :
      (c : ℕ) (s : Text) (st : Scan)
      → is_plain c ≡ true
      → round lower upper has_script c s st
        ≡ some (item_before st (escaped_rest (code_point (c ∷ s))))
  unfolding round
  round-plain c s st h =
      last_choice (c == b'(') (c == b')') (c == b'|') (c == b'[')
        (c == b'*' || c == b'+' || c == b'?') (c == b'{') (c == b'\\') _ _ _ _ _ _ _
        (some (item_before st (escaped_rest (code_point (c ∷ s))))) h

  rounds-plain :
      (f : ℕ) (s : Text) (st : Scan)
      → length s ≤ f
      → all is_plain s ≡ true
      → st.outer ≡ []
      → rounds lower upper has_script f s st ≡ some true
  unfolding rounds
  rounds-plain f [] st l h e = rw e refl
  rounds-plain zero (c ∷ s) st l h e = absurd (omega (arith, l))
  rounds-plain (suc f) (c ∷ s) st l h e =
      let left = plain_left c s ((both_true (is_plain c) (all is_plain s) h).1) in
      rounds-step lower upper has_script f c s st
      ∙ ap (next_rounds lower upper has_script f) (
          round-plain c s st ((both_true (is_plain c) (all is_plain s) h).0)
          ∙ ap (λ r. some (item_before st r)) left.1)
      ∙ rounds-plain f left.0 (item 1 st) (omega (arith, left.2, l)) left.3 e

  quoted-compiles :
      (t : Text) (f : ℕ) (o : Option (Text × Text))
      → break_at_pair b'\\' b'E' t ≡ o
      → rounds lower upper has_script (suc f) (b'\\' ∷ b'Q' ∷ t) start_scan
        ≡ next_rounds lower upper has_script f (some (quoted t start_scan o))
  unfolding round
  quoted-compiles t f o h =
      rounds-step lower upper has_script f b'\\' (b'Q' ∷ t) start_scan
      ∙ ap
          (λ (p : Option (Text × Text)).
            next_rounds lower upper has_script f (some (quoted t start_scan p)))
          h

  -- A pattern without meta characters compiles.
  pub compiles_in_go-plain :
      (pattern : Text)
      → all is_plain pattern ≡ true
      → compiles_in_go lower upper has_script pattern ≡ some true
  unfolding compiles_in_go
  compiles_in_go-plain pattern h =
      rounds-plain (length pattern) pattern start_scan (omega arith) h refl

  -- Any text without \E compiles behind \Q, whether \E closes it or not.
  pub compiles_in_go-quoted :
      (t : Text)
      → break_at_pair b'\\' b'E' t ≡ none
      → (compiles_in_go lower upper has_script (b'\\' ∷ b'Q' ∷ t) ≡ some true)
        × (compiles_in_go lower upper has_script (b'\\' ∷ b'Q' ∷ (t ++ b'\\' ∷ b'E' ∷ []))
            ≡ some true)
  unfolding compiles_in_go
  compiles_in_go-quoted t h = (
    quoted-compiles t (suc (length t)) none h
        ∙ ap (λ (fs : List Frame). some (is_closed fs)) (quoted_item-outer t),
    quoted-compiles (t ++ b'\\' ∷ b'E' ∷ []) (suc (length (t ++ b'\\' ∷ b'E' ∷ []))) (some (t, []))
          (split_at_pair b'\\' b'E' t (ground arith) h)
        ∙ ap (λ (fs : List Frame). some (is_closed fs)) (quoted_item-outer t),
  )
