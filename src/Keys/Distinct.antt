-- ===== src/Keys/Distinct.antt =====
-- The keys of ui/src/lib/utils.ts are different from each other.
use mathlib.Core.Path.{subst}
use kiro_reverse_api.Prelude.{
  ℕ, suc, ◌≤◌, ◌≡◌, ◌≢◌, refl, sym, ◌∙◌, true, List, [], ◌∷◌, ◌++◌, map, arith, all, All,
  Bool-cases, inl, inr, All-weaken,
}
use kiro_reverse_api.Text.{Text, text_eq}
use kiro_reverse_api.Text.Equality.{text_eq_iff, text_eq_self}
use kiro_reverse_api.Text.Decimal.{is_digit, print_ℕ, all-print_ℕ, print_ℕ_inj}
use kiro_reverse_api.Keys.{Seen, seen_count, key_of, key_by_text_from, key_by_text}

-- No two elements are the same.
abbrev pub AllDiffer : List Text → Type 0
AllDiffer [] = Unit
AllDiffer (s ∷ ss) = All (λ t. s ≢ t) ss × AllDiffer ss

-- Digits up to a colon are told apart from what follows.
digits_end :
    (u v s t : Text)
    → all is_digit u ≡ true
    → all is_digit v ≡ true
    → u ++ b':' ∷ s ≡ v ++ b':' ∷ t
    → (u ≡ v) × (s ≡ t)
digits_end [] [] s t h k e = (refl, cc)
digits_end [] (d ∷ v) s t h k e = absurd (ground arith)
digits_end (c ∷ u) [] s t h k e = absurd (ground arith)
digits_end (c ∷ u) (d ∷ v) s t h k e =
    let (p, q) = digits_end u v s t (ground arith) (ground arith) (cc) in (cc, q)

key_of_inj : (m n : ℕ) (s t : Text) → key_of m s ≡ key_of n t → (m ≡ n) × (s ≡ t)
unfolding key_of
key_of_inj m n s t e =
    let (p, q) = digits_end (print_ℕ m) (print_ℕ n) s t (all-print_ℕ m) (all-print_ℕ n) e in
    (print_ℕ_inj m n p, q)

abbrev pub keys_of {ℓ} : {A : Type ℓ} → List (Text × A) → List Text
keys_of ps = map (λ p. p.0) ps

-- A key that counts at least as often as its text was seen.
IsLater : Seen → Text → Type 0
IsLater seen k = (n : ℕ) × (t : Text) × (k ≡ key_of n t) × (seen_count t seen ≤ n)

count_grows :
    (s t : Text) (seen : Seen)
    → seen_count t seen ≤ seen_count t ((s, suc (seen_count s seen)) ∷ seen)
count_grows s t seen = elim (Bool-cases (text_eq s t)) [
  | inl e ↦
      let same : s ≡ t = (text_eq_iff s t).0 e in
      rw e (subst (λ u. seen_count u seen ≤ suc (seen_count s seen)) same (omega arith))
  | inr e ↦ rw e (omega arith)
]

IsLater-weaken :
    (s : Text) (seen : Seen) (k : Text)
    → IsLater ((s, suc (seen_count s seen)) ∷ seen) k
    → IsLater seen k
unfolding IsLater
IsLater-weaken s seen k (n, t, e, h) = (n, t, e, omega (arith, count_grows s t seen, h))

key-IsLater :
    (s : Text) (seen : Seen) (k : Text)
    → IsLater ((s, suc (seen_count s seen)) ∷ seen) k
    → key_of (seen_count s seen) s ≢ k
unfolding IsLater
key-IsLater s seen k (n, t, e, h) same =
    let (p, q) = key_of_inj (seen_count s seen) n s t (same ∙ e) in
    let g : seen_count s ((s, suc (seen_count s seen)) ∷ seen) ≤ n =
      subst (λ u. seen_count u ((s, suc (seen_count s seen)) ∷ seen) ≤ n) (sym q) h in
    let r : suc (seen_count s seen) ≤ n = rw (text_eq_self s) at g in omega (arith, r, p)

module _ {ℓ} {A : Type ℓ} (text_of : A → Text) where
  all-IsLater :
      (seen : Seen) (xs : List A) → All (IsLater seen) (keys_of (key_by_text_from text_of seen xs))
  unfolding IsLater key_by_text_from
  all-IsLater seen [] = tt
  all-IsLater seen (x ∷ xs) =
      let s = text_of x in
      (
        (seen_count s seen, s, refl, omega arith),
        All-weaken {P = IsLater ((s, suc (seen_count s seen)) ∷ seen)} {R = IsLater seen} _
            (IsLater-weaken s seen) (all-IsLater ((s, suc (seen_count s seen)) ∷ seen) xs),
      )

  from-AllDiffer :
      (seen : Seen) (xs : List A) → AllDiffer (keys_of (key_by_text_from text_of seen xs))
  unfolding key_by_text_from
  from-AllDiffer seen [] = tt
  from-AllDiffer seen (x ∷ xs) =
      let s = text_of x in
      let after : Seen = (s, suc (seen_count s seen)) ∷ seen in
      (
        All-weaken {P = IsLater after} {R = λ t. key_of (seen_count s seen) s ≢ t} _
            (key-IsLater s seen) (all-IsLater after xs),
        from-AllDiffer after xs,
      )

  from_items : (seen : Seen) (xs : List A) → map (λ p. p.1) (key_by_text_from text_of seen xs) ≡ xs
  unfolding key_by_text_from
  from_items seen [] = refl
  from_items seen (x ∷ xs) =
      rw (from_items ((text_of x, suc (seen_count (text_of x) seen)) ∷ seen) xs)

  -- Each item gets a key of its own, also where texts repeat, and the items stay in their order.
  pub key_by_text-AllDiffer :
      (xs : List A)
      → AllDiffer (keys_of (key_by_text text_of xs))
        × (map (λ p. p.1) (key_by_text text_of xs) ≡ xs)
  unfolding key_by_text
  key_by_text-AllDiffer xs = (from-AllDiffer [] xs, from_items [] xs)
