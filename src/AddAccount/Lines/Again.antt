-- ===== src/AddAccount/Lines/Again.antt =====
-- A region that was accepted (ui/src/features/add-account/lib/region.ts) and is read again.
use mathlib.Core.Path.{subst}
use mathlib.Core.List.{reverse-cons, reverse-reverse}
use kiro_reverse_api.Prelude.{
  ℕ, ◌≡◌, refl, Bool, true, false, not, ◌&&◌, ◌||◌, List, [], ◌∷◌, ◌++◌, reverse, arith,
  if◌then◌else◌, all, Bool-cases, inl, inr, sym,
}
use kiro_reverse_api.Text.{Text, is_full, split_on, onto_first}
use kiro_reverse_api.Text.Trim.{trim, trim_end, trim_start, is_space}
use kiro_reverse_api.AddAccount.Lines.{
  default_region, is_dash, is_small, is_number, is_small_or_number, rest_parts, region_parts,
  is_region, ParsedRegion, valid, invalid, parse_region,
}

-- The units of a region.
abbrev pub is_region_unit : ℕ → Bool
is_region_unit c = is_small_or_number c || is_dash c

all_weaken :
    (p q : ℕ → Bool) (s : Text)
    → ((c : ℕ) → p c ≡ true → q c ≡ true)
    → all p s ≡ true
    → all q s ≡ true
all_weaken p q [] f h = refl
all_weaken p q (c ∷ s) f h = ground (arith, f c, all_weaken p q s f)

all_texts : (ℕ → Bool) → List Text → Bool
all_texts p [] = true
all_texts p (w ∷ ws) = all p w && all_texts p ws

all_onto_first :
    (p : ℕ → Bool) (c : ℕ) (ws : List Text)
    → all_texts p (onto_first c ws) ≡ true
    → (p c ≡ true) × (all_texts p ws ≡ true)
unfolding all_texts
all_onto_first p c [] h = ground arith
all_onto_first p c (w ∷ ws) h = ground arith

-- Text whose pieces hold units of one kind holds those and separators.
all-split_on :
    (p sep : ℕ → Bool) (s : Text)
    → all_texts p (split_on sep s) ≡ true
    → all (λ c. p c || sep c) s ≡ true
unfolding all_texts
all-split_on p sep [] h = refl
all-split_on p sep (c ∷ s) h = elim (Bool-cases (sep c)) [
  | inl e ↦ ground (arith, all-split_on p sep s, e)
  | inr e ↦ ground (arith, all-split_on p sep s, all_onto_first p c (split_on sep s), e)
]

small_weaken : (w : Text) → all is_small w ≡ true → all is_small_or_number w ≡ true
small_weaken w h = all_weaken is_small is_small_or_number w (λ c k. ground arith) h

number_weaken : (w : Text) → all is_number w ≡ true → all is_small_or_number w ≡ true
number_weaken w h = all_weaken is_number is_small_or_number w (λ c k. ground arith) h

and_parts : {a b : Bool} → (a && b) ≡ true → (a ≡ true) × (b ≡ true)
and_parts {a = true} {b = b} h = (refl, h)
and_parts {a = false} {b = b} h = absurd (cc)

and_true : {a b : Bool} → a ≡ true → b ≡ true → (a && b) ≡ true
and_true e f = rw (e, f) refl

rest_units : (ws : List Text) → rest_parts ws ≡ true → all_texts is_small_or_number ws ≡ true
unfolding all_texts
rest_units [] h = refl
rest_units (w ∷ []) h = absurd (cc)
rest_units (w ∷ v ∷ []) h = ground (arith, number_weaken v)
rest_units (w ∷ v ∷ u ∷ ws) h = ground (arith, rest_units (v ∷ u ∷ ws))

region_units : (ws : List Text) → region_parts ws ≡ true → all_texts is_small_or_number ws ≡ true
unfolding all_texts
region_units [] h = absurd (cc)
region_units (w ∷ ws) h = ground (arith, small_weaken w, rest_units ws)

pub is_region_units : (s : Text) → is_region s ≡ true → all is_region_unit s ≡ true
unfolding is_region
is_region_units s h =
    all-split_on is_small_or_number is_dash s (region_units (split_on is_dash s) h)

no_space : (c : ℕ) → is_region_unit c ≡ true → is_space c ≡ false
unfolding is_space
no_space c h = ground arith

trim_start_fixed : (s : Text) → all is_region_unit s ≡ true → trim_start s ≡ s
unfolding trim_start
trim_start_fixed [] h = refl
trim_start_fixed (c ∷ s) h =
    rw (no_space c (and_parts {a = is_region_unit c} {b = all is_region_unit s} h).0) refl

all-append : (p : ℕ → Bool) (s t : Text) → all p s ≡ true → all p t ≡ true → all p (s ++ t) ≡ true
all-append p [] t h k = k
all-append p (c ∷ s) t h k =
    let (a, b) = and_parts {a = p c} {b = all p s} h in and_true a (all-append p s t b k)

all-reverse : (p : ℕ → Bool) (s : Text) → all p s ≡ true → all p (reverse s) ≡ true
all-reverse p [] h = refl
all-reverse p (c ∷ s) h =
    let (a, b) = and_parts {a = p c} {b = all p s} h in
    rw (reverse-cons c s) (all-append p (reverse s) (c ∷ []) (all-reverse p s b) (and_true a refl))

trim_fixed : (s : Text) → all is_region_unit s ≡ true → trim s ≡ s
unfolding trim trim_end
trim_fixed s h = rw (
  trim_start_fixed s h,
  trim_start_fixed (reverse s) (all-reverse is_region_unit s h),
  reverse-reverse s,
)

-- What is known of the outcome, where it is a region.
abbrev GivesRegion : (Text → Type 0) → ParsedRegion → Type 0
GivesRegion P (valid s) = P s
GivesRegion P invalid = Unit

given : (P : Text → Type 0) (o : ParsedRegion) (s : Text) → GivesRegion P o → o ≡ valid s → P s
given P (valid t) s g e = subst P (ground arith) g
given P invalid s g e = absurd (cc)

full_region : (s : Text) → is_region s ≡ true → is_full s ≡ true
unfolding is_region
full_region [] h = absurd (cc)
full_region (c ∷ s) h = refl

module _ (lower : Text → Text) where
  parsed_region :
      (s : Text)
      → GivesRegion
          (λ r. is_region r ≡ true)
          (if not (is_full s)
            then valid default_region
            else if is_region s
            then valid s
            else invalid)
  unfolding is_region
  parsed_region [] = refl
  parsed_region (c ∷ s) = elim (Bool-cases (region_parts (split_on is_dash (c ∷ s)))) [
    | inl e ↦
        subst
          (λ b.
            GivesRegion (λ r. region_parts (split_on is_dash r) ≡ true)
              (if b then valid (c ∷ s) else invalid))
          (sym e) e
    | inr e ↦
        subst
          (λ b.
            GivesRegion (λ r. region_parts (split_on is_dash r) ≡ true)
              (if b then valid (c ∷ s) else invalid))
          (sym e) tt
  ]

  -- A region that is accepted has the form of one, and typed in again it is accepted as it is.
  -- `toLowerCase` leaves a text of small letters, digits and dashes as it is.
  pub parse_region-again :
      (lower_fixes : (t : Text) → all is_region_unit t ≡ true → lower t ≡ t) (raw region : Text)
      → parse_region lower raw ≡ valid region
      → (is_region region ≡ true) × (parse_region lower region ≡ valid region)
  unfolding parse_region
  parse_region-again lower_fixes raw region e =
      let good = given (λ r. is_region r ≡ true) _ region (parsed_region (lower (trim raw))) e in
      let units = is_region_units region good in
      (
        good,
        rw (trim_fixed region units, lower_fixes region units, full_region region good, good) refl,
      )
