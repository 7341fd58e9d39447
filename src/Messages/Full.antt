-- ===== src/Messages/Full.antt =====
-- The message of ui/src/lib/api/server-errors.ts is never blank.
use kiro_reverse_api.Prelude.{
  ℕ, ◌≡◌, refl, true, false, ◌||◌, List, [], ◌∷◌, ◌++◌, Option, none, some, any, is_some, or_else,
  Bool-cases, inl, inr, if_keeps, ◌==◌,
}
use kiro_reverse_api.Text.{Text, is_full}
use kiro_reverse_api.Text.Params.{Param}
use kiro_reverse_api.Text.Trim.{trim}
use kiro_reverse_api.Client.{ApiError}
use kiro_reverse_api.Messages.{
  Phrase, split_parts, server_error_key, server_error_phrase, server_error_code,
  translate_server_message, translated_or, translated_phrase, join_translated, is_translated,
  of_parts, of_message, of_code, code_key, error_message,
}

abbrev IsFull : Text → Type 0
IsFull s = is_full s ≡ true

append-IsFull : (a : Text) (c : ℕ) (s : Text) → IsFull (a ++ c ∷ s)
append-IsFull [] c s = refl
append-IsFull (b ∷ a) c s = refl

-- A text that is there is not empty.
abbrev FullIfSome : Option Text → Type 0
FullIfSome none = Unit
FullIfSome (some s) = IsFull s

module _ (lower : Text → Text) (t : Text → List Param → Text)
    (t_full : (key : Text) (ps : List Param) → is_full (t key ps) ≡ true) where
  phrase_full : (r : Option Phrase) → FullIfSome (translated_phrase lower t r)
  phrase_full none = tt
  phrase_full (some p) = if_keeps IsFull (is_full p.detail) (t_full _ _) (t_full p.key [])

  translated_full : (p : Text) → FullIfSome (translate_server_message lower t p)
  unfolding translate_server_message
  translated_full p = by_key (server_error_key lower p)
    where
      by_key : (k : Option Text) → FullIfSome (translated_or lower t k p)
      by_key none = phrase_full (server_error_phrase lower p)
      by_key (some key) = t_full key []

  single-IsFull :
      (o : Option Text) (p : Text)
      → FullIfSome o
      → (is_some o || false) ≡ true
      → IsFull (or_else o p)
  single-IsFull none p h e = absurd (cc)
  single-IsFull (some s) p h e = h

  join-IsFull :
      (parts : List Text)
      → any (is_translated lower t) parts ≡ true
      → IsFull (join_translated lower t parts)
  join-IsFull [] e = absurd (cc)
  join-IsFull (p ∷ []) e =
      single-IsFull (translate_server_message lower t p) p (translated_full p) e
  join-IsFull (p ∷ q ∷ ps) e =
      append-IsFull (or_else (translate_server_message lower t p) p) b' '
        (join_translated lower t (q ∷ ps))

  parts-IsFull : (message : Text) → IsFull message → IsFull (of_parts lower t message)
  parts-IsFull message h = elim (Bool-cases (any (is_translated lower t) (split_parts message))) [
    | inl e ↦ rw e (join-IsFull (split_parts message) e)
    | inr e ↦ rw e h
  ]

  message-IsFull :
      (message : Text) (k : Option Text) → IsFull message → IsFull (of_message lower t message k)
  message-IsFull message none h = parts-IsFull message h
  message-IsFull message (some key) h = t_full key []

  code-IsFull :
      (e : ApiError) (fallback_key : Text) (k : Option Text)
      → IsFull (of_code lower t e fallback_key k)
  code-IsFull e fallback_key (some key) = t_full key []
  code-IsFull e fallback_key none = elim (Bool-cases (is_full (trim e.server_message))) [
    | inl f ↦
        rw f (
          message-IsFull (trim e.server_message) (server_error_key lower (trim e.server_message)) f)
    | inr f ↦ rw f (t_full fallback_key [])
  ]

  -- Whatever is thrown, the user reads a message that is not empty. No translation is empty.
  pub error_message-is_full :
      (error : Option ApiError) (fallback_key : Text)
      → is_full (error_message lower t error fallback_key) ≡ true
  unfolding error_message
  error_message-is_full none fallback_key = t_full fallback_key []
  error_message-is_full (some e) fallback_key =
      if_keeps IsFull (e.status == 0) (t_full _ [])
        (code-IsFull e fallback_key (code_key lower t (server_error_code (some e))))
