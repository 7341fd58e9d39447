-- ===== src/Accounts/Copy/Tests.antt =====
-- A Microsoft account and its copy.
use kiro_reverse_api.Prelude.{◌≡◌, refl, true, false}
use kiro_reverse_api.Text.{Text, codes}
use kiro_reverse_api.Text.Trim.{trim, trim_end, trim_start, is_space}
use kiro_reverse_api.AddAccount.LocalCache.{is_uuid}
use kiro_reverse_api.AddAccount.Credentials.{request, map_credential}
use kiro_reverse_api.Accounts.Copy.{
  AccountFull, build_copy_json, is_valid_machine_id, is_valid_proxy_url,
}
use kiro_reverse_api.Accounts.Copy.Paste.{imported, map_credential-build_copy_json}

abbrev lower : Text → Text
lower s = s

abbrev account : AccountFull
account = record {
  auth_method = codes "external_idp";
  provider = codes "AzureAD";
  region = codes "eu-central-1";
  user_id = codes "u";
  profile_arn = codes "arn";
  access_token = codes "at";
  refresh_token = codes "rt";
  kiro_api_key = codes "";
  client_id = codes "c";
  client_secret = codes "";
  token_endpoint = codes "https://login";
  issuer_url = codes "";
  scopes = codes "openid";
}

map_credential-build_copy_json_example :
    map_credential lower (build_copy_json account) ≡ request (imported account)
map_credential-build_copy_json_example = map_credential-build_copy_json lower account refl refl refl

checks :
    (is_valid_machine_id (codes " 0123456789abcdefABCDEF0123456789 ") ≡ true)
    × (is_valid_machine_id (codes "0123") ≡ false)
    × (is_valid_proxy_url (codes "socks5h://host:1080") ≡ true)
    × (is_valid_proxy_url (codes "ftp://host") ≡ false)
unfolding is_valid_machine_id is_valid_proxy_url is_uuid trim trim_end trim_start is_space
checks = (refl, refl, refl, refl)
