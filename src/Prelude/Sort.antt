-- ===== src/Prelude/Sort.antt =====
-- `Array.prototype.sort` with a comparator: a stable sort. What it gives is a permutation in order.
use mathlib.Core.List.{Perm}
use mathlib.Core.List.Perm
use kiro_reverse_api.Prelude.{
  ℕ, zero, suc, ◌≤◌, ◌≡◌, arith, take, drop, inl, inr, Bool, true, false, List, [], ◌∷◌, All,
  if◌then◌else◌, Bool-cases,
}
use kiro_reverse_api.Prelude.Int.{ℤ, pos, negsuc, minus_ℕ}

-- `order <= 0`
abbrev pub is_before : ℤ → Bool
is_before (pos zero) = true
is_before (pos (suc n)) = false
is_before (negsuc n) = true

module _ {ℓ} {A : Type ℓ} where
  unfoldable pub insert_sorted : (A → A → ℤ) → A → List A → List A
  insert_sorted order x [] = x ∷ []
  insert_sorted order x (y ∷ ys) =
      if is_before (order x y) then x ∷ y ∷ ys else y ∷ insert_sorted order x ys

  unfoldable pub sort_by : (A → A → ℤ) → List A → List A
  unfolding insert_sorted
  sort_by order [] = []
  sort_by order (x ∷ xs) = insert_sorted order x (sort_by order xs)

  insert_sorted-Perm :
      (order : A → A → ℤ) (x : A) (ys : List A) → Perm (insert_sorted order x ys) (x ∷ ys)
  unfolding insert_sorted
  insert_sorted-Perm order x [] = Perm.refl (x ∷ [])
  insert_sorted-Perm order x (y ∷ ys) = elim (Bool-cases (is_before (order x y))) [
    | inl e ↦ rw e (Perm.refl (x ∷ y ∷ ys))
    | inr e ↦ rw e (Perm.trans (Perm.cons y (insert_sorted-Perm order x ys)) (Perm.swap x y ys))
  ]

  pub sort_by-Perm : (order : A → A → ℤ) (xs : List A) → Perm (sort_by order xs) xs
  unfolding sort_by
  sort_by-Perm order [] = Perm.refl []
  sort_by-Perm order (x ∷ xs) =
      Perm.trans (insert_sorted-Perm order x (sort_by order xs))
        (Perm.cons x (sort_by-Perm order xs))

  abbrev pub Sorted {κ} : (A → A → Type κ) → List A → Type (ℓ ⊔ κ)
  Sorted R [] = Unit
  Sorted R (x ∷ xs) = All (R x) xs × Sorted R xs

module _ {ℓ κ} {A : Type ℓ} (order : A → A → ℤ) where
  insert_sorted-All :
      (P : A → Type κ) (x : A) (ys : List A) → P x → All P ys → All P (insert_sorted order x ys)
  unfolding insert_sorted
  insert_sorted-All P x [] p h = (p, h)
  insert_sorted-All P x (y ∷ ys) p h = elim (Bool-cases (is_before (order x y))) [
    | inl e ↦ rw e (p, h)
    | inr e ↦ rw e (h.0, insert_sorted-All P x ys p h.1)
  ]

  -- What holds of every element holds of the sorted ones.
  pub sort_by-All : (P : A → Type κ) (xs : List A) → All P xs → All P (sort_by order xs)
  unfolding sort_by
  sort_by-All P [] h = h
  sort_by-All P (x ∷ xs) h = insert_sorted-All P x (sort_by order xs) h.0 (sort_by-All P xs h.1)

  unsorted_insert :
      (P : A → Type κ) (x : A) (ys : List A) → All P (insert_sorted order x ys) → P x × All P ys
  unfolding insert_sorted
  unsorted_insert P x [] h = h
  unsorted_insert P x (y ∷ ys) h = elim (Bool-cases (is_before (order x y))) [
    | inl e ↦ rw e at h
    | inr e ↦
        let k : P y × All P (insert_sorted order x ys) = rw e at h in
        let (p, q) = unsorted_insert P x ys k.1 in (p, (k.0, q))
  ]

  -- What holds of the sorted elements holds of every element.
  pub unsorted_all : (P : A → Type κ) (xs : List A) → All P (sort_by order xs) → All P xs
  unfolding sort_by
  unsorted_all P [] h = h
  unsorted_all P (x ∷ xs) h =
      let (p, q) = unsorted_insert P x (sort_by order xs) h in (p, unsorted_all P xs q)

module _ {ℓ κ} {A : Type ℓ} (order : A → A → ℤ) (R : A → A → Type κ)
    (before : (x y : A) → is_before (order x y) ≡ true → R x y)
    (after : (x y : A) → is_before (order x y) ≡ false → R y x)
    (trans : (x y z : A) → R x y → R y z → R x z) where
  All-trans : (x y : A) (zs : List A) → R x y → All (R y) zs → All (R x) zs
  All-trans x y [] h k = tt
  All-trans x y (z ∷ zs) h k = (trans x y z h k.0, All-trans x y zs h k.1)

  insert_sorted-Sorted : (x : A) (ys : List A) → Sorted R ys → Sorted R (insert_sorted order x ys)
  unfolding insert_sorted
  insert_sorted-Sorted x [] h = (tt, tt)
  insert_sorted-Sorted x (y ∷ ys) h = elim (Bool-cases (is_before (order x y))) [
    | inl e ↦ rw e ((before x y e, All-trans x y ys (before x y e) h.0), h)
    | inr e ↦
        rw e (insert_sorted-All order (R y) x ys (after x y e) h.0, insert_sorted-Sorted x ys h.1)
  ]

  pub sort_by-Sorted : (xs : List A) → Sorted R (sort_by order xs)
  unfolding sort_by
  sort_by-Sorted [] = tt
  sort_by-Sorted (x ∷ xs) = insert_sorted-Sorted x (sort_by order xs) (sort_by-Sorted xs)

-- An ascending sort of numbers.
pub minus_ℕ-before : (i j : ℕ) → is_before (minus_ℕ i j) ≡ true → i ≤ j
unfolding minus_ℕ
minus_ℕ-before i j h = ground arith

pub minus_ℕ-after : (i j : ℕ) → is_before (minus_ℕ i j) ≡ false → j ≤ i
unfolding minus_ℕ
minus_ℕ-after i j h = ground arith

module _ {ℓ κ} {A : Type ℓ} (P : A → Type κ) where
  pub All-drop : (n : ℕ) (xs : List A) → All P xs → All P (drop n xs)
  All-drop zero xs h = h
  All-drop (suc n) [] h = tt
  All-drop (suc n) (x ∷ xs) h = All-drop n xs h.1

  pub All-take : (n : ℕ) (xs : List A) → All P xs → All P (take n xs)
  All-take zero xs h = tt
  All-take (suc n) [] h = tt
  All-take (suc n) (x ∷ xs) h = (h.0, All-take n xs h.1)

module _ {ℓ κ} {A : Type ℓ} (R : A → A → Type κ) where
  -- The first elements of a sorted list stand before the rest.
  pub take-above :
      (n : ℕ) (xs : List A) → Sorted R xs → All (λ a. All (R a) (drop n xs)) (take n xs)
  take-above zero xs h = tt
  take-above (suc n) [] h = tt
  take-above (suc n) (x ∷ xs) h = (All-drop (R x) n xs h.0, take-above n xs h.1)

  pub take-Sorted : (n : ℕ) (xs : List A) → Sorted R xs → Sorted R (take n xs)
  take-Sorted zero xs h = tt
  take-Sorted (suc n) [] h = tt
  take-Sorted (suc n) (x ∷ xs) h = (All-take (R x) n xs h.0, take-Sorted n xs h.1)
