-- ===== src/Accounts/InOrder.antt =====
-- The order of two rows that a column of the accounts page asks for
-- (ui/src/features/accounts/account-model.ts).
use kiro_reverse_api.Prelude.{
  ℕ, zero, suc, ◌≡◌, ◌≤◌, refl, sym, ap, ◌∙◌, ◌⊎◌, inl, inr, Bool, true, false, Option, none, some,
  arith,
}
use kiro_reverse_api.Prelude.Int.{ℤ, pos, negsuc, minus_ℕ}
use kiro_reverse_api.Prelude.Sort.{minus_ℕ-before, minus_ℕ-after, is_before}
use kiro_reverse_api.Accounts.Sorting.{directed, order_keys, or_number}
use kiro_reverse_api.Accounts.Comparing.{
  IsOrder, Sign, flip, join, less, more, same, sign, sign-neg,
}

-- The sign that puts the first key before the second.
abbrev pub first_sign : Bool → Sign
first_sign false = less
first_sign true = more

-- Rows without a key stand last, in the server's order; of two keys the smaller one stands first,
-- or the larger one where the order is descending; rows with equal keys are in the server's order.
abbrev pub InOrder {κ} :
    {K : Type κ} (compare : K → K → ℤ) (desc : Bool) → Option K → ℕ → Option K → ℕ → Type 0
InOrder compare desc none i none j = i ≤ j
InOrder compare desc none i (some l) j = ⊥
InOrder compare desc (some k) i none j = Unit
InOrder compare desc (some k) i (some l) j =
    (sign (compare k l) ≡ first_sign desc) ⊎ ((sign (compare k l) ≡ same) × (i ≤ j))

or_number-before :
    (z w : ℤ)
    → is_before (or_number z w) ≡ true
    → (sign z ≡ less) ⊎ ((sign z ≡ same) × (is_before w ≡ true))
or_number-before (pos zero) w h = inr (refl, h)
or_number-before (pos (suc n)) w h = absurd (cc)
or_number-before (negsuc n) w h = inl refl

or_number-after :
    (z w : ℤ)
    → is_before (or_number z w) ≡ false
    → (sign z ≡ more) ⊎ ((sign z ≡ same) × (is_before w ≡ false))
or_number-after (pos zero) w h = inr (refl, h)
or_number-after (pos (suc n)) w h = inl refl
or_number-after (negsuc n) w h = absurd (cc)

flip-flip : (s : Sign) → flip (flip s) ≡ s
flip-flip less = refl
flip-flip same = refl
flip-flip more = refl

module _ {κ} {K : Type κ} (compare : K → K → ℤ) (law : IsOrder compare) where
  directed-less :
      (desc : Bool) (k l : K)
      → sign (directed compare desc k l) ≡ less
      → sign (compare k l) ≡ first_sign desc
  directed-less false k l h = h
  directed-less true k l h = sym (flip-flip _) ∙ ap flip (sym (sign-neg (compare k l)) ∙ h)

  directed-same :
      (desc : Bool) (k l : K) → sign (directed compare desc k l) ≡ same → sign (compare k l) ≡ same
  directed-same false k l h = h
  directed-same true k l h = sym (flip-flip _) ∙ ap flip (sym (sign-neg (compare k l)) ∙ h)

  directed-more :
      (desc : Bool) (k l : K)
      → sign (directed compare desc k l) ≡ more
      → sign (compare l k) ≡ first_sign desc
  directed-more false k l h = law.flips k l ∙ ap flip h
  directed-more true k l h = law.flips k l ∙ sym (sign-neg (compare k l)) ∙ h

  pub order_keys-before :
      (desc : Bool) (a b : Option K) (i j : ℕ)
      → is_before (order_keys compare desc a i b j) ≡ true
      → InOrder compare desc a i b j
  order_keys-before desc none none i j h = minus_ℕ-before i j h
  order_keys-before desc none (some l) i j h = absurd (cc)
  order_keys-before desc (some k) none i j h = tt
  order_keys-before desc (some k) (some l) i j h =
      elim (or_number-before (directed compare desc k l) (minus_ℕ i j) h) [
        | inl e ↦ inl (directed-less desc k l e)
        | inr (e, w) ↦ inr (directed-same desc k l e, minus_ℕ-before i j w)
      ]

  pub order_keys-after :
      (desc : Bool) (a b : Option K) (i j : ℕ)
      → is_before (order_keys compare desc a i b j) ≡ false
      → InOrder compare desc b j a i
  order_keys-after desc none none i j h = minus_ℕ-after i j h
  order_keys-after desc none (some l) i j h = tt
  order_keys-after desc (some k) none i j h = absurd (cc)
  order_keys-after desc (some k) (some l) i j h =
      elim (or_number-after (directed compare desc k l) (minus_ℕ i j) h) [
        | inl e ↦ inl (directed-more desc k l e)
        | inr (e, w) ↦ inr (law.flips k l ∙ ap flip (directed-same desc k l e), minus_ℕ-after i j w)
      ]

  abbrev IsLow : Sign → Type 0
  IsLow less = Unit
  IsLow same = Unit
  IsLow more = ⊥

  before_of_low : (z : ℤ) (s : Sign) → sign z ≡ s → IsLow s → is_before z ≡ true
  before_of_low (pos zero) s e h = refl
  before_of_low (negsuc n) s e h = refl
  before_of_low (pos (suc n)) less e h = absurd (cc)
  before_of_low (pos (suc n)) same e h = absurd (cc)
  before_of_low (pos (suc n)) more e h = absurd h

  chain_up :
      (k l m : K) (s r : Sign)
      → sign (compare k l) ≡ s
      → sign (compare l m) ≡ r
      → IsLow s
      → IsLow r
      → sign (compare k m) ≡ join s r
  chain_up k l m s r d e h i =
      law.joins k l m (before_of_low (compare k l) s d h) (before_of_low (compare l m) r e i)
      ∙ rw (d, e) refl

  chain_down :
      (k l m : K) (s r : Sign)
      → sign (compare k l) ≡ flip s
      → sign (compare l m) ≡ flip r
      → IsLow s
      → IsLow r
      → sign (compare k m) ≡ flip (join r s)
  chain_down k l m s r d e h i =
      law.flips m k
      ∙ ap flip (
          chain_up m l k r s (law.flips l m ∙ ap flip e ∙ flip-flip r)
            (law.flips k l ∙ ap flip d ∙ flip-flip s) i h)

  pub InOrder-trans :
      (desc : Bool) (a b c : Option K) (i j n : ℕ)
      → InOrder compare desc a i b j
      → InOrder compare desc b j c n
      → InOrder compare desc a i c n
  InOrder-trans desc none none none i j n h k = omega (arith, h, k)
  InOrder-trans desc none none (some m) i j n h k = absurd k
  InOrder-trans desc none (some l) c i j n h k = absurd h
  InOrder-trans desc (some x) b none i j n h k = tt
  InOrder-trans desc (some x) none (some z) i j n h k = absurd k
  InOrder-trans false (some x) (some y) (some z) i j n (inl d) (inl e) =
      inl (chain_up x y z less less d e tt tt)
  InOrder-trans false (some x) (some y) (some z) i j n (inl d) (inr (e, q)) =
      inl (chain_up x y z less same d e tt tt)
  InOrder-trans false (some x) (some y) (some z) i j n (inr (d, p)) (inl e) =
      inl (chain_up x y z same less d e tt tt)
  InOrder-trans false (some x) (some y) (some z) i j n (inr (d, p)) (inr (e, q)) =
      inr (chain_up x y z same same d e tt tt, omega (arith, p, q))
  InOrder-trans true (some x) (some y) (some z) i j n (inl d) (inl e) =
      inl (chain_down x y z less less d e tt tt)
  InOrder-trans true (some x) (some y) (some z) i j n (inl d) (inr (e, q)) =
      inl (chain_down x y z less same d e tt tt)
  InOrder-trans true (some x) (some y) (some z) i j n (inr (d, p)) (inl e) =
      inl (chain_down x y z same less d e tt tt)
  InOrder-trans true (some x) (some y) (some z) i j n (inr (d, p)) (inr (e, q)) =
      inr (chain_down x y z same same d e tt tt, omega (arith, p, q))
