-- ===== src/Search/Reading.antt =====
-- Which raw values the validators of ui/src/routes/-search.ts take.
use kiro_reverse_api.Prelude.{
  ℕ, zero, suc, ◌<◌, ◌≡◌, ◌≢◌, ◌↔◌, ◌⊎◌, refl, ap, sym, ◌∙◌, List, [], ◌∷◌, Option, none, some,
  arith, Option-cases, Bool-cases, inl, inr,
}
use kiro_reverse_api.Prelude.Int.{ℤ, pos, negsuc}
use kiro_reverse_api.Text.{Text, codes, text_eq}
use kiro_reverse_api.Text.Equality.{text_eq_iff}
use kiro_reverse_api.Search.{
  Raw, missing, boolean, number, string, other, Number, whole, fraction, not_finite, named, one_of,
  whole_part, page_number, integer, legacy_enabled, either, one_or_more,
}
use kiro_reverse_api.Search.Values.{OnOff, on_off_name, on, off}
use kiro_reverse_api.Search.Fields.{on_off_read}

-- The raw value is this number, or a text that `Number` reads as it.
abbrev pub IsWhole : (Text → Number) → Raw → ℤ → Type 0
IsWhole f v z = (v ≡ number (whole z)) ⊎ ((s : Text) × (v ≡ string s) × (f s ≡ whole z))

whole_of : (n : Number) (z : ℤ) → whole_part n ≡ some z → n ≡ whole z
whole_of (whole y) z h = cc
whole_of (fraction c s) z h = absurd (cc)
whole_of not_finite z h = absurd (cc)

integer-IsWhole : (f : Text → Number) (v : Raw) (z : ℤ) → integer f v ≡ some z → IsWhole f v z
unfolding integer
integer-IsWhole f missing z h = absurd (cc)
integer-IsWhole f other z h = absurd (cc)
integer-IsWhole f (boolean b) z h = absurd (cc)
integer-IsWhole f (number n) z h = inl (ap number (whole_of n z h))
integer-IsWhole f (string s) z h = inr (s, refl, whole_of (f s) z h)

IsWhole-integer : (f : Text → Number) (v : Raw) (z : ℤ) → IsWhole f v z → integer f v ≡ some z
unfolding integer
IsWhole-integer f v z (inl e) = rw e refl
IsWhole-integer f v z (inr (s, e, h)) = rw (e, h) refl

one_or_more_iff :
    (o : Option ℤ) (n : ℕ) → (one_or_more o ≡ some (pos n)) ↔ ((0 < n) × (o ≡ some (pos n)))
one_or_more_iff o n = (taken o, λ h. back n o h.0 h.1)
  where
    taken : (o : Option ℤ) → one_or_more o ≡ some (pos n) → (0 < n) × (o ≡ some (pos n))
    taken none h = absurd (cc)
    taken (some (pos zero)) h = absurd (cc)
    taken (some (pos (suc m))) h = let same : suc m ≡ n = cc in (omega (arith, same), h)
    taken (some (negsuc m)) h = absurd (cc)

    back : (n : ℕ) (o : Option ℤ) → 0 < n → o ≡ some (pos n) → one_or_more o ≡ some (pos n)
    back zero o l h = absurd (omega (arith, l))
    back (suc m) o l h = rw h refl

pub page_number_iff :
    (f : Text → Number) (v : Raw) (n : ℕ)
    → (page_number f v ≡ some (pos n)) ↔ ((0 < n) × IsWhole f v (pos n))
unfolding page_number
page_number_iff f v n =
    let both = one_or_more_iff (integer f v) n in
    (
      λ h. ((both.0 h).0, integer-IsWhole f v (pos n) (both.0 h).1),
      λ h. both.1 (h.0, IsWhole-integer f v (pos n) h.1),
    )

module _ {ℓ} {T : Type ℓ} (name : T → Text) where
  named_sound : (s : Text) (allowed : List T) (t : T) → named name s allowed ≡ some t → s ≡ name t
  named_sound s [] t h = absurd (cc)
  named_sound s (u ∷ us) t h = elim (Bool-cases (text_eq (name u) s)) [
    | inl e ↦
        let found : some u ≡ some t = rw e at h in
        let same : u ≡ t = cc in sym ((text_eq_iff (name u) s).0 e) ∙ ap name same
    | inr e ↦ let later : named name s us ≡ some t = rw e at h in named_sound s us t later
  ]

  pub one_of_iff :
      (allowed : List T)
      → ((t : T) → one_of name (string (name t)) allowed ≡ some t)
      → (v : Raw) (t : T) → (one_of name v allowed ≡ some t) ↔ (v ≡ string (name t))
  unfolding one_of
  one_of_iff allowed reads v t = (sound v, λ e. rw e (reads t))
    where
      sound : (v : Raw) → one_of name v allowed ≡ some t → v ≡ string (name t)
      sound missing h = absurd (cc)
      sound other h = absurd (cc)
      sound (boolean b) h = absurd (cc)
      sound (number n) h = absurd (cc)
      sound (string s) h = ap string (named_sound s allowed t h)

legacy_sound : (w : Raw) → legacy_enabled w ≡ some on → w ≡ string (codes "enabled")
legacy_sound missing h = absurd (cc)
legacy_sound other h = absurd (cc)
legacy_sound (boolean b) h = absurd (cc)
legacy_sound (number n) h = absurd (cc)
legacy_sound (string s) h = elim (Bool-cases (text_eq s (codes "enabled"))) [
  | inl e ↦ ap string ((text_eq_iff s (codes "enabled")).0 e)
  | inr e ↦ let no : none ≡ some on = rw e at h in absurd (cc)
]

-- "on" itself, or the old status of that meaning where the key does not say "off".
abbrev pub IsOn : Raw → Raw → Type 0
IsOn enabled status =
    (enabled ≡ string (codes "on"))
    ⊎ ((enabled ≢ string (codes "off")) × (status ≡ string (codes "enabled")))

module _ (v w : Raw) where
  abbrev read : Option OnOff
  read = one_of on_off_name v (on ∷ off ∷ [])

  reads : (t : OnOff) → (read ≡ some t) ↔ (v ≡ string (on_off_name t))
  reads t = one_of_iff on_off_name (on ∷ off ∷ []) on_off_read v t

  on_taken : either read (legacy_enabled w) ≡ some on → IsOn v w
  on_taken h = elim (Option-cases read) [
    | inl e ↦
        let old : legacy_enabled w ≡ some on = rw e at h in
        inr (
          (λ o. let clash : none ≡ some off = sym e ∙ (reads off).1 o in absurd (cc)),
          legacy_sound w old,
        )
    | inr (t, e) ↦ let found : some t ≡ some on = rw e at h in inl ((reads on).0 (e ∙ found))
  ]

  on_read : IsOn v w → either read (legacy_enabled w) ≡ some on
  on_read (inl e) = rw ((reads on).1 e) refl
  on_read (inr (n, e)) = elim (Option-cases read) [
    | inl none_read ↦ rw (none_read, e) refl
    | inr (on, found) ↦ rw found refl
    | inr (off, found) ↦ absurd (n ((reads off).0 found))
  ]

  pub enabled_on_iff : (either read (legacy_enabled w) ≡ some on) ↔ IsOn v w
  enabled_on_iff = (on_taken, on_read)
