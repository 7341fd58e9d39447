-- ===== src/Settings/Draft/Equal/Equivalence.antt =====
-- `isEqual` of ui/src/features/settings/lib/dirty.ts is symmetric and transitive.
use mathlib.Core.Path.{subst}
use kiro_reverse_api.Prelude.{
  ℕ, ◌≡◌, refl, sym, ◌∙◌, Bool, true, false, ◌||◌, not, arith, ◌==◌, Bool-cases, inl, inr, length,
}
use kiro_reverse_api.Text.{Text, text_eq, one_of_texts}
use kiro_reverse_api.Text.Equality.{text_eq_iff, text_eq_sym}
use kiro_reverse_api.Settings.Draft.Equal.{
  Value, undefined, null, flag, num, str, arr, obj, Values, nil, cons, Entries, end, entry,
  is_defined, get_value, defined_keys, values_length, same_flag, is_equal, every_equal,
  entries_equal,
}
use kiro_reverse_api.Settings.Draft.Equal.Keys.{all_found, defined_keys-get_value}
use kiro_reverse_api.Settings.Draft.Equal.Laws.{
  IsPlain, ArePlain, PlainEntries, Within, Within-self, and_both, and_true, or_true, equal_defined,
  is_equal_refl, lookup_equal, defined_keys-AllDiffer, defined_keys-AllIn, get_value-defined,
}

module _ (a b : Entries)
    (turn : (k : Text) (w : Value)
      → IsPlain w
      → is_equal (get_value k a) w ≡ true
      → is_equal w (get_value k a) ≡ true)
    (plain : PlainEntries a)
    (back : (k : Text)
      → one_of_texts (defined_keys b) k ≡ true
      → one_of_texts (defined_keys a) k ≡ true)
    (same : entries_equal a b ≡ true) where
  entry_back :
      (k : Text) (w : Value)
      → get_value k b ≡ w
      → IsPlain w
      → is_defined w ≡ true
      → is_equal w (get_value k a) ≡ true
  entry_back k w g p d =
      let in_b : one_of_texts (defined_keys b) k ≡ true =
        defined_keys-get_value k b (subst (λ u. is_defined u ≡ true) (sym g) d) in
      let found : is_equal (get_value k a) (get_value k b) ≡ true =
        lookup_equal k a b same (get_value-defined k a plain (back k in_b)) in
      turn k w p (subst (λ u. is_equal (get_value k a) u ≡ true) g found)

  entries_back : (es : Entries) → PlainEntries es → Within es b → entries_equal es a ≡ true
  unfolding is_equal IsPlain
  entries_back end p w = refl
  entries_back (entry k v es) p w =
      and_true
        (elim (Bool-cases (is_defined v)) [
          | inl d ↦ or_true (not (is_defined v)) (entry_back k v w.0 p.1 d)
          | inr d ↦ rw d refl
        ])
        (entries_back es p.2 w.1)

flag_sym : (a b : Bool) → same_flag a b ≡ true → same_flag b a ≡ true
flag_sym true true h = h
flag_sym true false h = absurd (cc)
flag_sym false true h = absurd (cc)
flag_sym false false h = h

number_same : (m n : ℕ) → (m == n) ≡ true → m ≡ n
number_same m n h = ground arith

number_sym : (m n : ℕ) → (m == n) ≡ true → (n == m) ≡ true
number_sym m n h = ground arith

undefined_sym : (w : Value) → is_equal undefined w ≡ true → is_equal w undefined ≡ true
unfolding is_equal
undefined_sym undefined h = h
undefined_sym w h = absurd (cc)

mutual
  unfolding is_equal IsPlain

  is_equal_sym : (v w : Value) → IsPlain v → IsPlain w → is_equal v w ≡ true → is_equal w v ≡ true
  is_equal_sym undefined undefined p q h = refl
  is_equal_sym null null p q h = refl
  is_equal_sym (flag a) (flag b) p q h = flag_sym a b h
  is_equal_sym (num a) (num b) p q h = text_eq_sym b a ∙ h
  is_equal_sym (str a) (str b) p q h = text_eq_sym b a ∙ h
  is_equal_sym (arr xs) (arr ys) p q h =
      let (n, e) = and_both {a = values_length xs == values_length ys} {b = every_equal xs ys} h in
      and_true (number_sym (values_length xs) (values_length ys) n)
        (every_equal_sym xs ys p q (number_same (values_length xs) (values_length ys) n) e)
  is_equal_sym (obj a) (obj b) p q h =
      let (n, e) =
        and_both {a = length (defined_keys a) == length (defined_keys b)} {b = entries_equal a b}
          h in
      let back =
        all_found (defined_keys a) (defined_keys b) (defined_keys-AllDiffer a p)
          (defined_keys-AllIn a b e)
          (number_same (length (defined_keys a)) (length (defined_keys b)) n) in
      and_true (number_sym (length (defined_keys a)) (length (defined_keys b)) n)
        (entries_back a b (lookup_sym a p) p back e b q (Within-self b q))
  is_equal_sym v w p q h = absurd (cc)

  every_equal_sym :
      (xs ys : Values)
      → ArePlain xs
      → ArePlain ys
      → values_length xs ≡ values_length ys
      → every_equal xs ys ≡ true
      → every_equal ys xs ≡ true
  every_equal_sym nil nil p q n h = refl
  every_equal_sym nil (cons y ys) p q n h = absurd (omega (arith, n))
  every_equal_sym (cons x xs) nil p q n h = absurd (omega (arith, n))
  every_equal_sym (cons x xs) (cons y ys) p q n h =
      let (f, r) = and_both {a = is_equal x y} {b = every_equal xs ys} h in
      and_true (is_equal_sym x y p.0 q.0 f) (every_equal_sym xs ys p.1 q.1 (omega (arith, n)) r)

  lookup_sym :
      (es : Entries)
      → PlainEntries es
      → (k : Text) (w : Value) → IsPlain w
      → is_equal (get_value k es) w ≡ true
      → is_equal w (get_value k es) ≡ true
  lookup_sym end p k w q h = undefined_sym w h
  lookup_sym (entry l v es) p k w q h = elim (Bool-cases (text_eq l k)) [
    | inl e ↦ rw e (is_equal_sym v w p.1 q (rw e at h))
    | inr e ↦ rw e (lookup_sym es p.2 k w q (rw e at h))
  ]

number_trans : (l m n : ℕ) → (l == m) ≡ true → (m == n) ≡ true → (l == n) ≡ true
number_trans l m n h k = ground arith

flag_trans : (a b c : Bool) → same_flag a b ≡ true → same_flag b c ≡ true → same_flag a c ≡ true
flag_trans true true c h k = k
flag_trans true false c h k = absurd (cc)
flag_trans false true c h k = absurd (cc)
flag_trans false false c h k = k

text_trans : (a b c : Text) → text_eq a b ≡ true → text_eq b c ≡ true → text_eq a c ≡ true
text_trans a b c h k = subst (λ t. text_eq a t ≡ true) ((text_eq_iff b c).0 k) h

mutual
  unfolding is_equal

  is_equal_trans : (u v w : Value) → is_equal u v ≡ true → is_equal v w ≡ true → is_equal u w ≡ true
  is_equal_trans undefined undefined w h k = k
  is_equal_trans null null w h k = k
  is_equal_trans (flag a) (flag b) (flag c) h k = flag_trans a b c h k
  is_equal_trans (num a) (num b) (num c) h k = text_trans a b c h k
  is_equal_trans (str a) (str b) (str c) h k = text_trans a b c h k
  is_equal_trans (arr xs) (arr ys) (arr zs) h k =
      let (m, e) = and_both {a = values_length xs == values_length ys} {b = every_equal xs ys} h in
      let (n, f) = and_both {a = values_length ys == values_length zs} {b = every_equal ys zs} k in
      and_true (number_trans (values_length xs) (values_length ys) (values_length zs) m n) (
        every_equal_trans xs ys zs (number_same (values_length xs) (values_length ys) m)
          (number_same (values_length ys) (values_length zs) n) e f)
  is_equal_trans (obj a) (obj b) (obj c) h k =
      let (m, e) =
        and_both {a = length (defined_keys a) == length (defined_keys b)} {b = entries_equal a b}
          h in
      let (n, f) =
        and_both {a = length (defined_keys b) == length (defined_keys c)} {b = entries_equal b c}
          k in
      and_true
        (number_trans (length (defined_keys a)) (length (defined_keys b)) (length (defined_keys c))
          m n)
        (entries_trans a b c e f)
  is_equal_trans u v w h k = absurd (cc)

  every_equal_trans :
      (xs ys zs : Values)
      → values_length xs ≡ values_length ys
      → values_length ys ≡ values_length zs
      → every_equal xs ys ≡ true
      → every_equal ys zs ≡ true
      → every_equal xs zs ≡ true
  every_equal_trans nil ys zs m n h k = refl
  every_equal_trans (cons x xs) nil zs m n h k = absurd (omega (arith, m))
  every_equal_trans (cons x xs) (cons y ys) nil m n h k = absurd (omega (arith, n))
  every_equal_trans (cons x xs) (cons y ys) (cons z zs) m n h k =
      let (e, f) = and_both {a = is_equal x y} {b = every_equal xs ys} h in
      let (i, j) = and_both {a = is_equal y z} {b = every_equal ys zs} k in
      and_true (is_equal_trans x y z e i)
        (every_equal_trans xs ys zs (omega (arith, m)) (omega (arith, n)) f j)

  entries_trans :
      (a b c : Entries)
      → entries_equal a b ≡ true
      → entries_equal b c ≡ true
      → entries_equal a c ≡ true
  entries_trans end b c h k = refl
  entries_trans (entry l v es) b c h k =
      let (e, f) =
        and_both {a = not (is_defined v) || is_equal v (get_value l b)} {b = entries_equal es b}
          h in
      and_true
        (elim (Bool-cases (is_defined v)) [
          | inl d ↦
              let found : is_equal v (get_value l b) ≡ true = rw d at e in
              or_true (not (is_defined v)) (
                is_equal_trans v (get_value l b) (get_value l c) found
                  (lookup_equal l b c k (equal_defined v (get_value l b) found d)))
          | inr d ↦ rw d refl
        ])
        (entries_trans es b c f k)

-- The structural equality of drafts is an equivalence relation on values whose objects have each
-- key once: it looks up the keys of one object only, and their number settles the other direction.
pub is_equal_equivalence :
    (u v w : Value)
    → IsPlain u
    → IsPlain v
    → (is_equal u u ≡ true)
      × (is_equal u v ≡ true → is_equal v u ≡ true)
      × (is_equal u v ≡ true → is_equal v w ≡ true → is_equal u w ≡ true)
is_equal_equivalence u v w p q = (is_equal_refl u p, is_equal_sym u v p q, is_equal_trans u v w)
