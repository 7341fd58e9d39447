-- ===== src/Requests/Mask.antt =====
-- What the mask of an API key shows.
use kiro_reverse_api.Prelude.{
  ℕ, zero, suc, ◌-◌, ◌<◌, ◌≤◌, ◌≡◌, refl, true, false, [], ◌∷◌, ◌++◌, arith, ◌⊎◌, Bool-cases, inl,
  inr, ◌||◌, leb, length, take, drop, length-append,
}
use kiro_reverse_api.Text.{Text, includes, starts_with}
use kiro_reverse_api.Requests.{mask, mask_key}

length-take : (n : ℕ) (s : Text) → n ≤ length s → length (take n s) ≡ n
length-take zero s h = refl
length-take (suc n) [] h = omega arith
length-take (suc n) (c ∷ s) h = omega (arith, length-take n s)

length-drop : (n : ℕ) (s : Text) → length (drop n s) ≡ length s - n
length-drop zero s = omega arith
length-drop (suc n) [] = omega arith
length-drop (suc n) (c ∷ s) = omega (arith, length-drop n s)

starts_with-append : (s p : Text) → starts_with (p ++ s) p ≡ true
starts_with-append s [] = refl
starts_with-append s (c ∷ p) = ground (arith, starts_with-append s p)

includes_start : (s p : Text) → starts_with s p ≡ true → includes s p ≡ true
includes_start [] p h = h
includes_start (c ∷ s) p h = rw h

includes-append : (a s p : Text) → includes (a ++ (p ++ s)) p ≡ true
includes-append [] s p = includes_start (p ++ s) p (starts_with-append s p)
includes-append (c ∷ a) s p = ground (arith, includes-append a s p)

mask_key-short : (v : Text) → (includes v mask || leb (length v) 10) ≡ true → mask_key v ≡ v
unfolding mask_key
mask_key-short v h = rw h

mask_key-long :
    (v : Text)
    → (includes v mask || leb (length v) 10) ≡ false
    → mask_key v ≡ take 6 v ++ (mask ++ drop (length v - 4) v)
unfolding mask_key
mask_key-long v h = rw h

long_key :
    (v : Text)
    → (includes v mask || leb (length v) 10) ≡ false
    → (includes (mask_key v) mask ≡ true) × (length (mask_key v) ≡ 14)
long_key v h =
    let long : 10 < length v = ground arith in
    rw (mask_key-long v h) (
      includes-append (take 6 v) (drop (length v - 4) v) mask,
      omega (
        arith,
        length-append (take 6 v) (mask ++ drop (length v - 4) v),
        length-take 6 v (omega arith),
        length-drop (length v - 4) v,
      ),
    )

-- A masked key is shown as it is, so masking twice is masking once; what is shown holds a mask or
-- has at most 10 units; and a key of more than 10 units without a mask is shown as its first 6 and
-- last 4 units around a mask, in 14 units.
pub mask_key_again :
    (v : Text)
    → (mask_key (mask_key v) ≡ mask_key v)
      × ((includes (mask_key v) mask || leb (length (mask_key v)) 10) ≡ true)
      × ((mask_key v ≡ v)
          ⊎ ((mask_key v ≡ take 6 v ++ (mask ++ drop (length v - 4) v))
              × (length (mask_key v) ≡ 14)))
mask_key_again v = elim (Bool-cases (includes v mask || leb (length v) 10)) [
  | inl h ↦ rw (mask_key-short v h, mask_key-short v h) (refl, h, inl refl)
  | inr h ↦
      let k : (includes (mask_key v) mask || leb (length (mask_key v)) 10) ≡ true =
        rw (long_key v h).0 refl in
      (mask_key-short (mask_key v) k, k, inr (mask_key-long v h, (long_key v h).1))
]
