-- ===== src/Accounts/Failures/Tests.antt =====
-- The description of failed rows, the order of models and the export on concrete values.
use kiro_reverse_api.Prelude.{
  ℕ, ◌≡◌, refl, Bool, true, false, List, [], ◌∷◌, ◌++◌, map, Option, none, some,
}
use kiro_reverse_api.Prelude.Int.{minus_ℕ}
use Prim.Native.String.{String}
use kiro_reverse_api.Text.{Text, codes}
use kiro_reverse_api.Text.Params.{Param}
use kiro_reverse_api.Accounts.Failures.{
  AccountActionResult, FailureStatus, not_found, describe_failures,
}
use kiro_reverse_api.Accounts.Models.{ModelInfo, sort_models, overage_enabled, overage_capable}
use kiro_reverse_api.Accounts.Export.{
  ExportCredentials, build_export_copy, export_filename, credit_tone, warning, format_token_expiry,
}
use kiro_reverse_api.Accounts.Expiry.{minutes}

abbrev result : String → Bool → String → Option FailureStatus → AccountActionResult
result id is_ok error status = record {
  id = codes id;
  is_ok = is_ok;
  error = codes error;
  status = status;
}

abbrev results : List AccountActionResult
results =
    result "a" false "down" none
    ∷ result "b" true "" none
    ∷ result "c" false "" (some not_found)
    ∷ result "d" false "" none
    ∷ result "e" false "late" none
    ∷ []

-- Translations show their key.
abbrev key_of : Text → List Param → Text
key_of key params = key

abbrev own_name : Text → Text
own_name id = id

described :
    describe_failures key_of own_name results
    ≡ codes "a: down"
      ++ (10
          ∷ (codes "c: batch.notFound" ++ (10 ∷ (codes "d" ++ (10 ∷ codes "batch.moreFailures")))))
unfolding describe_failures
described = refl

abbrev model : String → Option ℕ → ModelInfo
model id rate = record { model_id = codes id; rate_multiplier = rate }

-- Rates in tenths.
abbrev models : List ModelInfo
models =
    model "opus" (some 22)
    ∷ model "sonnet" (some 0)
    ∷ model "haiku" (some 4)
    ∷ model "auto" none
    ∷ []

sorted_models :
    map (λ (m : ModelInfo). m.model_id) (sort_models 10 models)
    ≡ codes "auto" ∷ codes "haiku" ∷ codes "sonnet" ∷ codes "opus" ∷ []
unfolding sort_models minus_ℕ
sorted_models = refl

overage : overage_enabled (λ s. s) (some (codes "ENABLED")) ≡ true
unfolding overage_enabled
overage = refl

capable : overage_capable (λ s. s) none ≡ true
unfolding overage_capable
capable = refl

abbrev key_credentials : ExportCredentials
key_credentials = record {
  client_id = none;
  client_secret = none;
  access_token = some (codes "ksk_1");
  refresh_token = none;
  auth_method = some (codes "api_key");
  region = some (codes "us-east-1");
}

exported :
    build_export_copy (some (some key_credentials ∷ []))
    ≡ ((codes "kiroApiKey", some (codes "ksk_1"))
        ∷ (codes "region", some (codes "us-east-1"))
        ∷ (codes "authMethod", some (codes "api_key"))
        ∷ [])
      ∷ []
unfolding build_export_copy
exported = refl

named_file : export_filename 2026 3 14 ≡ codes "kiro-accounts-2026-03-14.json"
unfolding export_filename
named_file = refl

toned : credit_tone 90000 ≡ warning
unfolding credit_tone
toned = refl

expires : format_token_expiry key_of (minutes 5) ≡ codes "time.minutes"
unfolding format_token_expiry
expires = refl
