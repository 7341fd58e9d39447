-- ===== src/Messages/Phrases.antt =====
-- Which phrase of the server's messages (ui/src/lib/api/server-errors.ts) is the one that counts.
use kiro_reverse_api.Prelude.{
  ℕ, ◌≤◌, ◌≡◌, refl, Bool, true, false, List, [], ◌∷◌, Option, none, some, arith, is_some, length,
  All, All-weaken,
}
use kiro_reverse_api.Prelude.Int.{minus_ℕ}
use kiro_reverse_api.Prelude.Sort.{is_before, Sorted, sort_by-Sorted, unsorted_all}
use kiro_reverse_api.Text.{Text, index_of_text}
use kiro_reverse_api.Text.Trim.{trim}
use kiro_reverse_api.Messages.{
  server_error_phrases, by_length, phrases, Phrase, phrase_or, first_phrase, server_error_phrase,
}

abbrev pub Shorter : Text × Text → Text × Text → Type 0
Shorter a b = length b.0 ≤ length a.0

before-Shorter : (a b : Text × Text) → is_before (by_length a b) ≡ true → Shorter a b
unfolding minus_ℕ
before-Shorter a b h = ground arith

after-Shorter : (a b : Text × Text) → is_before (by_length a b) ≡ false → Shorter b a
unfolding minus_ℕ
after-Shorter a b h = ground arith

phrases-Sorted : Sorted Shorter phrases
unfolding phrases
phrases-Sorted =
    sort_by-Sorted by_length Shorter before-Shorter after-Shorter (λ a b c h k. omega (arith, h, k))
      server_error_phrases

module _ (lower : Text → Text) where
  abbrev pub is_in : Text → Text × Text → Bool
  is_in s e = is_some (index_of_text (lower s) (lower e.0))

  -- The entry whose key is the phrase's is in the text, and no longer one of the list is.
  pub record IsLongest (s : Text) (es : List (Text × Text)) (p : Phrase) : Type 0 where
    pub entry : Text × Text
    pub entry_key : p.key ≡ entry.1
    pub entry_in : is_in s entry ≡ true
    pub longest : All (λ e. is_in s e ≡ true → length e.0 ≤ length entry.0) es

  abbrev pub Found : Text → List (Text × Text) → Option Phrase → Type 0
  Found s es none = All (λ e. is_in s e ≡ false) es
  Found s es (some p) = IsLongest s es p

  first-Found :
      (s : Text) (es : List (Text × Text))
      → Sorted Shorter es
      → Found s es (first_phrase lower s es)
  first-Found s [] h = tt
  first-Found s (e ∷ es) h =
      head_found (first-Found s es h.1) (index_of_text (lower s) (lower e.0)) refl
    where
      rest_found : (r : Option Phrase) → is_in s e ≡ false → Found s es r → Found s (e ∷ es) r
      rest_found none n f = (n, f)
      rest_found (some p) n f = record {
        entry = f.entry;
        entry_key = f.entry_key;
        entry_in = f.entry_in;
        longest = (λ i. absurd (ground (arith, i, n)), f.longest);
      }

      head_found :
          Found s es (first_phrase lower s es)
          → (o : Option ℕ) → index_of_text (lower s) (lower e.0) ≡ o
          → Found s (e ∷ es) (phrase_or lower s e (first_phrase lower s es) o)
      head_found f none i = rest_found (first_phrase lower s es) (rw i refl) f
      head_found f (some n) i = record {
        entry = e;
        entry_key = refl;
        entry_in = rw i refl;
        longest = (λ k. omega arith, All-weaken {P = Shorter e} es (λ x k j. k) h.0);
      }

  -- Of the phrases in a message the longest one counts, wherever it stands in the table and in the
  -- message, and no phrase counts exactly where none of the table is in it.
  pub server_error_phrase-Found :
      (message : Text)
      → Found (trim message) server_error_phrases (server_error_phrase lower message)
  unfolding server_error_phrase
  server_error_phrase-Found message =
      of_table (server_error_phrase lower message)
        (first-Found (trim message) phrases phrases-Sorted)
    where
      of_table :
          (r : Option Phrase)
          → Found (trim message) phrases r
          → Found (trim message) server_error_phrases r
      of_table none f =
          unsorted_all by_length (λ e. is_in (trim message) e ≡ false) server_error_phrases f
      of_table (some p) f = record {
        entry = f.entry;
        entry_key = f.entry_key;
        entry_in = f.entry_in;
        longest =
            unsorted_all by_length
              (λ e. is_in (trim message) e ≡ true → length e.0 ≤ length (f.entry).0)
              server_error_phrases f.longest;
      }
