-- ===== src/Accounts/Comparing.antt =====
-- The signs that comparators give, and that the difference of numbers is an order.
use kiro_reverse_api.Prelude.{ℕ, zero, suc, ◌≡◌, refl, sym, ◌∙◌, true, arith}
use kiro_reverse_api.Prelude.Int.{ℤ, pos, negsuc, neg_ℤ, minus_ℕ, minus_ℤ}
use kiro_reverse_api.Prelude.Sort.{is_before}

pub data Sign : Type 0 where
  less same more : Sign

abbrev pub sign : ℤ → Sign
sign (pos zero) = same
sign (pos (suc n)) = more
sign (negsuc n) = less

abbrev pub flip : Sign → Sign
flip less = more
flip same = same
flip more = less

-- The sign of two steps together, neither of which goes up.
abbrev pub join : Sign → Sign → Sign
join less s = less
join same s = s
join more s = more

-- What a comparator must keep to: the other way round the sign flips, and steps that do not go up
-- join to one that does not.
pub record IsOrder {κ} {K : Type κ} (compare : K → K → ℤ) : Type κ where
  pub flips : (k l : K) → sign (compare l k) ≡ flip (sign (compare k l))
  pub joins :
      (k l m : K)
      → is_before (compare k l) ≡ true
      → is_before (compare l m) ≡ true
      → sign (compare k m) ≡ join (sign (compare k l)) (sign (compare l m))

minus_ℕ-flips : (a b : ℕ) → sign (minus_ℕ b a) ≡ flip (sign (minus_ℕ a b))
unfolding minus_ℕ
minus_ℕ-flips a b = ground arith

minus_ℕ-joins :
    (a b c : ℕ)
    → is_before (minus_ℕ a b) ≡ true
    → is_before (minus_ℕ b c) ≡ true
    → sign (minus_ℕ a c) ≡ join (sign (minus_ℕ a b)) (sign (minus_ℕ b c))
unfolding minus_ℕ
minus_ℕ-joins a b c h k = ground arith

minus_ℤ-flips : (a b : ℤ) → sign (minus_ℤ b a) ≡ flip (sign (minus_ℤ a b))
minus_ℤ-flips (pos a) (pos b) = minus_ℕ-flips a b
minus_ℤ-flips (pos a) (negsuc b) = refl
minus_ℤ-flips (negsuc a) (pos b) = refl
minus_ℤ-flips (negsuc a) (negsuc b) = minus_ℕ-flips b a

join-less : (z : ℤ) → is_before z ≡ true → join (sign z) less ≡ less
join-less (pos zero) h = refl
join-less (pos (suc n)) h = absurd (cc)
join-less (negsuc n) h = refl

join_comm :
    (z w : ℤ)
    → is_before z ≡ true
    → is_before w ≡ true
    → join (sign z) (sign w) ≡ join (sign w) (sign z)
join_comm (pos (suc m)) w h k = absurd (cc)
join_comm (pos zero) (pos zero) h k = refl
join_comm (pos zero) (pos (suc n)) h k = absurd (cc)
join_comm (pos zero) (negsuc n) h k = refl
join_comm (negsuc m) (pos zero) h k = refl
join_comm (negsuc m) (pos (suc n)) h k = absurd (cc)
join_comm (negsuc m) (negsuc n) h k = refl

minus_ℤ-joins :
    (a b c : ℤ)
    → is_before (minus_ℤ a b) ≡ true
    → is_before (minus_ℤ b c) ≡ true
    → sign (minus_ℤ a c) ≡ join (sign (minus_ℤ a b)) (sign (minus_ℤ b c))
minus_ℤ-joins (pos a) (pos b) (pos c) h k = minus_ℕ-joins a b c h k
minus_ℤ-joins (pos a) (pos b) (negsuc c) h k = absurd (cc)
minus_ℤ-joins (pos a) (negsuc b) c h k = absurd (cc)
minus_ℤ-joins (negsuc a) (pos b) (pos c) h k = refl
minus_ℤ-joins (negsuc a) (pos b) (negsuc c) h k = absurd (cc)
minus_ℤ-joins (negsuc a) (negsuc b) (pos c) h k = sym (join-less (minus_ℕ b a) h)
minus_ℤ-joins (negsuc a) (negsuc b) (negsuc c) h k =
    minus_ℕ-joins c b a k h ∙ join_comm (minus_ℕ c b) (minus_ℕ b a) k h

pub minus_ℤ-IsOrder : IsOrder minus_ℤ
minus_ℤ-IsOrder = record { flips = minus_ℤ-flips; joins = minus_ℤ-joins }

pub sign-neg : (z : ℤ) → sign (neg_ℤ z) ≡ flip (sign z)
sign-neg (pos zero) = refl
sign-neg (pos (suc n)) = refl
sign-neg (negsuc n) = refl
