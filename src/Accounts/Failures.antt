-- ===== src/Accounts/Failures.antt =====
-- ui/src/features/accounts/account-model.ts: the failed rows of a batch answer as one description.
pub mod Lines
mod Tests
use kiro_reverse_api.Prelude.{
  ℕ, ◌-◌, Bool, true, false, not, List, [], ◌∷◌, ◌++◌, map, Option, none, some, if◌then◌else◌, ltb,
  keep, take, length,
}
use kiro_reverse_api.Text.{Text, codes, is_full, or_text}
use kiro_reverse_api.Text.Decimal.{print_ℕ}
use kiro_reverse_api.Text.Lines.{join_lines}
use kiro_reverse_api.Text.Params.{Param, param}

-- `status` where there is one
pub data FailureStatus : Type 0 where
  not_found suspended_upstream : FailureStatus

pub record AccountActionResult : Type 0 where
  pub id : Text
  pub is_ok : Bool
  pub error : Text
  pub status : Option FailureStatus

abbrev pub failure_names_shown : ℕ
failure_names_shown = 3

abbrev pub is_failed : AccountActionResult → Bool
is_failed r = not r.is_ok

-- `t` is the translation of a key with its parameters, and `name_of` the shown name of an id.
module _ (t : Text → List Param → Text) (name_of : Text → Text) where
  abbrev status_reason : Option FailureStatus → Text
  status_reason (some not_found) = t (codes "batch.notFound") []
  status_reason (some suspended_upstream) = []
  status_reason none = []

  abbrev reason_of : AccountActionResult → Text
  reason_of r = or_text r.error (status_reason r.status)

  abbrev pub failure_line : AccountActionResult → Text
  failure_line r =
      if is_full (reason_of r) then name_of r.id ++ (codes ": " ++ reason_of r) else name_of r.id

  abbrev pub more_lines : ℕ → List Text
  more_lines rest =
      if ltb 0 rest
      then t (codes "batch.moreFailures") (param (codes "count") (print_ℕ rest) ∷ []) ∷ []
      else []

  abbrev pub failure_text : List AccountActionResult → Text
  failure_text [] = []
  failure_text (r ∷ rs) =
      let named = map failure_line (take failure_names_shown (r ∷ rs)) in
      join_lines (named ++ more_lines (length (r ∷ rs) - length named))

  unfoldable pub describe_failures : List AccountActionResult → Text
  unfolding print_ℕ
  describe_failures results = failure_text (keep is_failed results)
