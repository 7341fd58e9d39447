-- ===== src/Translation/Pieces.antt =====
-- The replacement of ui/src/lib/i18n/index.tsx against a message made of texts and placeholders.
use mathlib.Core.Path.{subst}
use mathlib.Core.List.{append_assoc, append-nil}
use kiro_reverse_api.Prelude.{
  ℕ, ◌≡◌, refl, sym, ap, ◌∙◌, Bool, true, false, List, [], ◌∷◌, ◌++◌, none, some, arith, ◌==◌, all,
  any, All, Bool-cases, inl, inr, if◌then◌else◌,
}
use kiro_reverse_api.Text.{Text, is_full, text_eq}
use kiro_reverse_api.Translation.Interpolation.{
  TParams, is_word, closing, kind_of, value_of, replace_from, interpolate,
}

-- A text without an open brace, or a placeholder.
pub data Piece : Type 0 where
  plain hole : Text → Piece

abbrev pub is_brace : ℕ → Bool
is_brace c = c == b'{'

abbrev pub IsPiece : Piece → Type 0
IsPiece (plain s) = any is_brace s ≡ false
IsPiece (hole name) = (is_full name ≡ true) × (all is_word name ≡ true)

-- The message as the catalog writes it.
abbrev pub written : List Piece → Text
written [] = []
written (plain s ∷ ps) = s ++ written ps
written (hole name ∷ ps) = b'{' ∷ name ++ b'}' ∷ written ps

-- What stands for a name: the value of the first parameter of that name, and the placeholder itself
-- where there is none.
abbrev pub shown : List (Text × Text) → Text → Text
shown [] name = b'{' ∷ name ++ b'}' ∷ []
shown ((k, v) ∷ values) name = if text_eq k name then v else shown values name

value_of-shown :
    (values : List (Text × Text)) (name : Text) → value_of values name ≡ shown values name
value_of-shown [] name = refl
value_of-shown ((k, v) ∷ values) name = elim (Bool-cases (text_eq k name)) [
  | inl e ↦ rw e refl
  | inr e ↦ rw e (value_of-shown values name)
]

-- The message with the values in place of the placeholders.
abbrev pub filled : List (Text × Text) → List Piece → Text
filled values [] = []
filled values (plain s ∷ ps) = s ++ filled values ps
filled values (hole name ∷ ps) = shown values name ++ filled values ps

plain_step :
    (values : List (Text × Text)) (c : ℕ) (s : Text)
    → is_brace c ≡ false
    → replace_from values none (c ∷ s) ≡ c ∷ replace_from values none s
unfolding replace_from
plain_step values c s h = ground (arith, h)

word_step :
    (values : List (Text × Text)) (m : Text) (c : ℕ) (s : Text)
    → is_word c ≡ true
    → replace_from values (some m) (c ∷ s) ≡ replace_from values (some (m ++ c ∷ [])) s
unfolding replace_from
word_step values m c s h = rw (h, replace_from) refl

plain_kept :
    (values : List (Text × Text)) (s rest : Text)
    → any is_brace s ≡ false
    → replace_from values none (s ++ rest) ≡ s ++ replace_from values none rest
unfolding replace_from
plain_kept values [] rest h = refl
plain_kept values (c ∷ s) rest h = elim (Bool-cases (is_brace c)) [
  | inl e ↦ absurd (ground (arith, e))
  | inr e ↦
      plain_step values c (s ++ rest) e
      ∙ ap (λ t. c ∷ t) (plain_kept values s rest (ground (arith, e)))
]

closing_kind : (c : ℕ) (name : Text) → kind_of b'}' (c ∷ name) ≡ closing
closing_kind c name = refl

hole_filled :
    (values : List (Text × Text)) (m name rest : Text)
    → is_full (m ++ name) ≡ true
    → all is_word name ≡ true
    → replace_from values (some m) (name ++ b'}' ∷ rest)
      ≡ value_of values (m ++ name) ++ replace_from values none rest
unfolding replace_from
hole_filled values m [] rest f h = last_unit m (subst (λ t. is_full t ≡ true) (append-nil m) f)
  where
    last_unit :
        (m : Text)
        → is_full m ≡ true
        → replace_from values (some m) (b'}' ∷ rest)
          ≡ value_of values (m ++ []) ++ replace_from values none rest
    last_unit [] f = absurd (cc)
    last_unit (c ∷ m) f = rw (append-nil (c ∷ m)) refl
hole_filled values m (c ∷ name) rest f h =
    let (w, k) = word_parts in
    word_step values m c (name ++ b'}' ∷ rest) w
    ∙ (subst
        (λ t.
          replace_from values (some (m ++ c ∷ [])) (name ++ b'}' ∷ rest)
          ≡ value_of values t ++ replace_from values none rest)
        (append_assoc m (c ∷ []) name)
        (hole_filled values (m ++ c ∷ []) name rest
          (subst (λ t. is_full t ≡ true) (sym (append_assoc m (c ∷ []) name)) f) k))
  where
    word_parts : (is_word c ≡ true) × (all is_word name ≡ true)
    word_parts = ground arith

open_step :
    (values : List (Text × Text)) (s : Text)
    → replace_from values none (b'{' ∷ s) ≡ replace_from values (some []) s
unfolding replace_from
open_step values s = refl

filled_all :
    (values : List (Text × Text)) (ps : List Piece)
    → All IsPiece ps
    → replace_from values none (written ps) ≡ filled values ps
unfolding replace_from
filled_all values [] h = refl
filled_all values (plain s ∷ ps) h =
    plain_kept values s (written ps) h.0 ∙ ap (λ t. s ++ t) (filled_all values ps h.1)
filled_all values (hole name ∷ ps) h =
    open_step values (name ++ b'}' ∷ written ps)
    ∙ hole_filled values [] name (written ps) h.0.0 h.0.1
    ∙ ap (λ t. value_of values name ++ t) (filled_all values ps h.1)
    ∙ ap (λ t. t ++ filled values ps) (value_of-shown values name)

-- In a message made of texts and placeholders, each placeholder is replaced by the value of its
-- parameter, one without a parameter stays as it is, and a value is not searched for placeholders.
-- The texts hold no open brace, and the names are made of letters, digits and underscores.
pub interpolate_pieces :
    (ps : TParams) (pieces : List Piece)
    → All IsPiece pieces
    → interpolate (written pieces) (some ps) ≡ filled ps.values pieces
unfolding interpolate
interpolate_pieces ps pieces h = filled_all ps.values pieces h
