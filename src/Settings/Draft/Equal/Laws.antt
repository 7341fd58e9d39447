-- ===== src/Settings/Draft/Equal/Laws.antt =====
-- `isEqual` of ui/src/features/settings/lib/dirty.ts is an equivalence on values whose objects have
-- each key once.
use mathlib.Core.Path.{subst}
use kiro_reverse_api.Prelude.{
  ℕ, ◌≡◌, refl, sym, ◌∙◌, Bool, true, false, ◌&&◌, ◌||◌, not, arith, ◌==◌, All, Bool-cases, inl,
  inr, length, or_parts,
}
use kiro_reverse_api.Text.{Text, text_eq, one_of_texts}
use kiro_reverse_api.Text.Equality.{text_eq_iff, text_eq_self, text_eq_sym}
use kiro_reverse_api.Settings.Draft.Equal.{
  Value, undefined, null, flag, num, str, arr, obj, Values, nil, cons, Entries, end, entry,
  is_defined, get_value, defined_keys, values_length, same_flag, is_equal, every_equal,
  entries_equal,
}
use kiro_reverse_api.Settings.Draft.Equal.Keys.{AllDiffer, AllIn, defined_keys-get_value}

abbrev pub has_key : Text → Entries → Bool
has_key k end = false
has_key k (entry l v es) = text_eq l k || has_key k es

unfoldable mutual
  pub IsPlain : Value → Type 0
  IsPlain undefined = Unit
  IsPlain null = Unit
  IsPlain (flag b) = Unit
  IsPlain (num n) = Unit
  IsPlain (str s) = Unit
  IsPlain (arr xs) = ArePlain xs
  IsPlain (obj es) = PlainEntries es

  pub ArePlain : Values → Type 0
  ArePlain nil = Unit
  ArePlain (cons x xs) = IsPlain x × ArePlain xs

  pub PlainEntries : Entries → Type 0
  PlainEntries end = Unit
  PlainEntries (entry k v es) = (has_key k es ≡ false) × IsPlain v × PlainEntries es

-- Each entry of the first is found in the second.
abbrev pub Within : Entries → Entries → Type 0
Within end b = Unit
Within (entry k v es) b = (get_value k b ≡ v) × Within es b

Within-entry :
    (k : Text) (v : Value) (es b : Entries)
    → has_key k es ≡ false
    → Within es b
    → Within es (entry k v b)
Within-entry k v end b n h = tt
Within-entry k v (entry l w es) b n h =
    let (other, rest) = or_parts (text_eq l k) (has_key k es) n in
    (rw (text_eq_sym k l ∙ other) h.0, Within-entry k v es b rest h.1)

pub Within-self : (es : Entries) → PlainEntries es → Within es es
unfolding IsPlain
Within-self end p = tt
Within-self (entry k v es) p =
    (rw (text_eq_self k) refl, Within-entry k v es es p.0 (Within-self es p.2))

pub and_both : {a b : Bool} → (a && b) ≡ true → (a ≡ true) × (b ≡ true)
and_both {a = true} e = (refl, e)
and_both {a = false} e = absurd (cc)

pub and_true : {a b : Bool} → a ≡ true → b ≡ true → (a && b) ≡ true
and_true e f = rw (e, f) refl

same_number : (n : ℕ) → (n == n) ≡ true
same_number n = ground arith

pub or_true : (a : Bool) {b : Bool} → b ≡ true → (a || b) ≡ true
or_true true e = refl
or_true false e = e

same_flag_self : (b : Bool) → same_flag b b ≡ true
same_flag_self true = refl
same_flag_self false = refl

mutual
  unfolding is_equal IsPlain

  pub is_equal_refl : (v : Value) → IsPlain v → is_equal v v ≡ true
  is_equal_refl undefined p = refl
  is_equal_refl null p = refl
  is_equal_refl (flag b) p = same_flag_self b
  is_equal_refl (num n) p = text_eq_self n
  is_equal_refl (str s) p = text_eq_self s
  is_equal_refl (arr xs) p = and_true (same_number (values_length xs)) (every_equal_refl xs p)
  is_equal_refl (obj es) p =
      and_true (same_number (length (defined_keys es)))
        (entries_equal_refl es es p (Within-self es p))

  every_equal_refl : (xs : Values) → ArePlain xs → every_equal xs xs ≡ true
  every_equal_refl nil p = refl
  every_equal_refl (cons x xs) p = and_true (is_equal_refl x p.0) (every_equal_refl xs p.1)

  entries_equal_refl : (es b : Entries) → PlainEntries es → Within es b → entries_equal es b ≡ true
  entries_equal_refl end b p w = refl
  entries_equal_refl (entry k v es) b p w =
      and_true
        (or_true (not (is_defined v))
          (subst (λ u. is_equal v u ≡ true) (sym w.0) (is_equal_refl v p.1)))
        (entries_equal_refl es b p.2 w.1)

pub equal_defined : (v w : Value) → is_equal v w ≡ true → is_defined v ≡ true → is_defined w ≡ true
unfolding is_equal
equal_defined undefined undefined h d = d
equal_defined v null h d = refl
equal_defined v (flag b) h d = refl
equal_defined v (num n) h d = refl
equal_defined v (str s) h d = refl
equal_defined v (arr xs) h d = refl
equal_defined v (obj es) h d = refl
equal_defined v undefined h d = absurd (cc)

-- A key that both objects have.
pub lookup_equal :
    (k : Text) (a b : Entries)
    → entries_equal a b ≡ true
    → is_defined (get_value k a) ≡ true
    → is_equal (get_value k a) (get_value k b) ≡ true
unfolding is_equal
lookup_equal k end b h d = absurd (cc)
lookup_equal k (entry l v es) b h d =
    let (first, rest) =
      and_both {a = not (is_defined v) || is_equal v (get_value l b)} {b = entries_equal es b} h in
    elim (Bool-cases (text_eq l k)) [
      | inl e ↦
          let same : l ≡ k = (text_eq_iff l k).0 e in
          let dv : is_defined v ≡ true = rw e at d in
          let found : is_equal v (get_value l b) ≡ true = rw dv at first in
          rw e (subst (λ t. is_equal v (get_value t b) ≡ true) same found)
      | inr e ↦ rw e (lookup_equal k es b rest (rw e at d))
    ]

keys_differ :
    (k : Text) (es : Entries)
    → has_key k es ≡ false
    → All (λ (u : Text). text_eq k u ≡ false) (defined_keys es)
keys_differ k end n = tt
keys_differ k (entry l v es) n =
    let (other, rest) = or_parts (text_eq l k) (has_key k es) n in
    elim (Bool-cases (is_defined v)) [
      | inl d ↦ rw d (text_eq_sym k l ∙ other, keys_differ k es rest)
      | inr d ↦ rw d (keys_differ k es rest)
    ]

pub defined_keys-AllDiffer : (es : Entries) → PlainEntries es → AllDiffer (defined_keys es)
unfolding IsPlain
defined_keys-AllDiffer end p = tt
defined_keys-AllDiffer (entry k v es) p = elim (Bool-cases (is_defined v)) [
  | inl d ↦ rw d (keys_differ k es p.0, defined_keys-AllDiffer es p.2)
  | inr d ↦ rw d (defined_keys-AllDiffer es p.2)
]

pub defined_keys-AllIn :
    (a b : Entries) → entries_equal a b ≡ true → AllIn (defined_keys a) (defined_keys b)
unfolding is_equal
defined_keys-AllIn end b h = tt
defined_keys-AllIn (entry k v es) b h =
    let (first, rest) =
      and_both {a = not (is_defined v) || is_equal v (get_value k b)} {b = entries_equal es b} h in
    elim (Bool-cases (is_defined v)) [
      | inl d ↦
          let found : is_equal v (get_value k b) ≡ true = rw d at first in
          rw d (
            defined_keys-get_value k b (equal_defined v (get_value k b) found d),
            defined_keys-AllIn es b rest,
          )
      | inr d ↦ rw d (defined_keys-AllIn es b rest)
    ]

no_key : (k : Text) (es : Entries) → has_key k es ≡ false → one_of_texts (defined_keys es) k ≡ false
no_key k end n = refl
no_key k (entry l v es) n =
    let (other, rest) = or_parts (text_eq l k) (has_key k es) n in
    elim (Bool-cases (is_defined v)) [
      | inl d ↦ rw (d, other) (no_key k es rest)
      | inr d ↦ rw d (no_key k es rest)
    ]

-- What stands among the defined keys is defined, where each key stands once.
pub get_value-defined :
    (k : Text) (es : Entries)
    → PlainEntries es
    → one_of_texts (defined_keys es) k ≡ true
    → is_defined (get_value k es) ≡ true
unfolding IsPlain
get_value-defined k end p h = absurd (cc)
get_value-defined k (entry l v es) p h = elim (Bool-cases (text_eq l k)) [
  | inl e ↦
      let same : l ≡ k = (text_eq_iff l k).0 e in
      let gone : one_of_texts (defined_keys es) k ≡ false =
        no_key k es (subst (λ t. has_key t es ≡ false) same p.0) in
      elim (Bool-cases (is_defined v)) [
        | inl d ↦ rw (e, d) refl
        | inr d ↦
            let m : one_of_texts (defined_keys es) k ≡ true = rw d at h in
            absurd (ground (arith, m, gone))
      ]
  | inr e ↦
      let m : one_of_texts (defined_keys es) k ≡ true = elim (Bool-cases (is_defined v)) [
        | inl d ↦
            let m1 : (text_eq l k || one_of_texts (defined_keys es) k) ≡ true = rw d at h in
            rw e at m1
        | inr d ↦ rw d at h
      ] in
      rw e (get_value-defined k es p.2 m)
]
