-- ===== src/Accounts/Failures/Lines.antt =====
-- The description of failed rows has a line for each of the first ones and one that counts the rest.
use kiro_reverse_api.Prelude.{
  ℕ, zero, suc, ◌-◌, ◌≡◌, refl, Bool, false, List, [], ◌∷◌, ◌++◌, map, arith, any, keep, take,
  length, All, All-append, ◌==◌, ltb, Bool-cases, inl, inr,
}
use kiro_reverse_api.Prelude.Sort.{All-take}
use kiro_reverse_api.Text.{Text, codes, split_on}
use kiro_reverse_api.Text.Decimal.{print_ℕ}
use kiro_reverse_api.Text.Lines.{split_on-join_lines}
use kiro_reverse_api.Text.Params.{Param, param}
use kiro_reverse_api.Accounts.Failures.{
  AccountActionResult, failure_names_shown, is_failed, failure_line, more_lines, failure_text,
  describe_failures,
}

abbrev pub is_newline : ℕ → Bool
is_newline c = c == 10

abbrev pub HasOneLine : Text → Type 0
HasOneLine s = any is_newline s ≡ false

length-shown :
    (n : ℕ) (line : AccountActionResult → Text) (rs : List AccountActionResult)
    → length rs - length (map line (take n rs)) ≡ length rs - n
length-shown zero line rs = refl
length-shown (suc n) line [] = omega arith
length-shown (suc n) line (r ∷ rs) = omega (arith, length-shown n line rs)

module _ (t : Text → List Param → Text) (name_of : Text → Text) where
  abbrev pub shown_lines : List AccountActionResult → List Text
  shown_lines failed = map (failure_line t name_of) (take failure_names_shown failed)

  lines_of_shown :
      (rs : List AccountActionResult)
      → All (λ r. HasOneLine (failure_line t name_of r)) rs
      → All HasOneLine (map (failure_line t name_of) rs)
  lines_of_shown [] h = tt
  lines_of_shown (r ∷ rs) h = (h.0, lines_of_shown rs h.1)

  more-HasOneLine :
      (rest : ℕ)
      → ((ps : List Param) → HasOneLine (t (codes "batch.moreFailures") ps))
      → All HasOneLine (more_lines t name_of rest)
  more-HasOneLine rest h = elim (Bool-cases (ltb 0 rest)) [
    | inl e ↦ rw e (h (param (codes "count") (print_ℕ rest) ∷ []), tt)
    | inr e ↦ rw e tt
  ]

  failure_text_lines :
      (r : AccountActionResult) (rs : List AccountActionResult)
      → All (λ q. HasOneLine (failure_line t name_of q)) (r ∷ rs)
      → ((ps : List Param) → HasOneLine (t (codes "batch.moreFailures") ps))
      → split_on is_newline (failure_text t name_of (r ∷ rs))
        ≡ shown_lines (r ∷ rs) ++ more_lines t name_of (length (r ∷ rs) - failure_names_shown)
  failure_text_lines r rs h k =
      let rest = length (r ∷ rs) - failure_names_shown in
      let shown =
        lines_of_shown (take failure_names_shown (r ∷ rs))
          (All-take (λ q. HasOneLine (failure_line t name_of q)) failure_names_shown (r ∷ rs) h) in
      let e = length-shown failure_names_shown (failure_line t name_of) (r ∷ rs) in
      rw e (
        split_on-join_lines is_newline (failure_line t name_of r)
          (map (failure_line t name_of) (take 2 rs) ++ more_lines t name_of rest) refl
          (All-append HasOneLine (shown_lines (r ∷ rs)) (more_lines t name_of rest) shown
            (more-HasOneLine rest k)))

  -- What the description of the failed rows says.
  abbrev pub Describes : List AccountActionResult → Text → Type 0
  Describes [] text = text ≡ []
  Describes (r ∷ rs) text =
      split_on is_newline text
      ≡ shown_lines (r ∷ rs) ++ more_lines t name_of (length (r ∷ rs) - failure_names_shown)

  text-Describes :
      (failed : List AccountActionResult)
      → All (λ r. HasOneLine (failure_line t name_of r)) failed
      → ((ps : List Param) → HasOneLine (t (codes "batch.moreFailures") ps))
      → Describes failed (failure_text t name_of failed)
  text-Describes [] h k = refl
  text-Describes (r ∷ rs) h k = failure_text_lines r rs h k

  -- The description is empty where nothing failed. Otherwise it has one line for each of the first three
  -- failed rows, in their order, and where more failed a last line that counts them. No name, reason or
  -- translation holds a line end.
  pub describe_failures-Describes :
      (results : List AccountActionResult)
      → All (λ r. HasOneLine (failure_line t name_of r)) (keep is_failed results)
      → ((ps : List Param) → HasOneLine (t (codes "batch.moreFailures") ps))
      → Describes (keep is_failed results) (describe_failures t name_of results)
  unfolding describe_failures
  describe_failures-Describes results h k = text-Describes (keep is_failed results) h k
