-- ===== src/AddAccount/LocalCache/Tests.antt =====
-- Files of a Builder ID account, and what is wrong with others.
use kiro_reverse_api.Prelude.{◌≡◌, refl, [], Option, none, some, if◌then◌else◌}
use kiro_reverse_api.Text.{Text, codes, text_eq}
use kiro_reverse_api.Text.Trim.{trim, trim_end, trim_start, is_space}
use kiro_reverse_api.Json.{Json, str, obj, Fields, end, field}
use kiro_reverse_api.AddAccount.Credentials.{CredentialsImportRequest, is_microsoft_credential}
use kiro_reverse_api.AddAccount.Credentials.Sources.{text_field}
use kiro_reverse_api.AddAccount.LocalCache.{
  builder_id, microsoft, client_secret_missing, payload, failed, plain, is_uuid, padded,
  microsoft_client_id_missing,
}
use kiro_reverse_api.AddAccount.LocalCache.Build.{
  jwt_claims, is_local_microsoft_token, microsoft_client_id_from_token, microsoft_payload,
  plain_request, check_files, build_local_cache_payload,
}
use kiro_reverse_api.AddAccount.LocalCache.Checks.{build_local_cache_payload-IsComplete}
use kiro_reverse_api.AddAccount.LocalCache.Complete.{IsComplete, Holds}

cache_runs : Unit {0}
unfolding build_local_cache_payload check_files microsoft_payload microsoft_client_id_from_token
    jwt_claims is_local_microsoft_token is_microsoft_credential text_field is_uuid padded trim
    trim_end trim_start is_space
cache_runs = tt

-- Text without capitals, which `toLowerCase` leaves as it is.
abbrev lower : Text → Text
lower s = s

abbrev atob : Text → Option Text
atob s = none

abbrev token_file : Fields
token_file =
    field (codes "refreshToken") (str (codes "r1"))
      (field (codes "region") (str (codes "us-east-1")) end)

abbrev client_file : Fields
client_file =
    field (codes "clientId") (str (codes "c1"))
      (field (codes "clientSecret") (str (codes "s1")) end)

-- "t" and "c" stand for the texts of the two files.
abbrev json_parse : Text → Option Json
json_parse s =
    if text_eq s (codes "t")
    then some (obj token_file)
    else if text_eq s (codes "c")
    then some (obj client_file)
    else if text_eq s (codes "{}")
    then some (obj end)
    else none

abbrev built : CredentialsImportRequest
built = plain_request lower json_parse atob builder_id token_file (some client_file)

builds :
    build_local_cache_payload lower json_parse atob builder_id (codes " t ") (codes "c")
    ≡ payload built
unfolding cache_runs
builds = refl

refuses_client :
    build_local_cache_payload lower json_parse atob builder_id (codes "t") (codes "{}")
    ≡ failed (plain client_secret_missing)
unfolding cache_runs
refuses_client = refl

refuses_microsoft :
    build_local_cache_payload lower json_parse atob microsoft (codes "t") []
    ≡ failed (plain microsoft_client_id_missing)
unfolding cache_runs
refuses_microsoft = refl

build_local_cache_payload-IsComplete_example :
    IsComplete builder_id
      (Holds json_parse (trim (codes " t ")))
      (Holds json_parse (trim (codes "c")))
      built
build_local_cache_payload-IsComplete_example =
    build_local_cache_payload-IsComplete lower json_parse atob builder_id (codes " t ") (codes "c")
      built builds
