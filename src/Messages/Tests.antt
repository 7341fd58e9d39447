-- ===== src/Messages/Tests.antt =====
-- A failure of three single sign-on tokens, of which the panel knows two.
use kiro_reverse_api.Prelude.{◌≡◌, refl, true, List, [], ◌∷◌, ◌++◌, none, some}
use kiro_reverse_api.Prelude.Int.{minus_ℕ}
use kiro_reverse_api.Prelude.Sort.{sort_by, insert_sorted}
use kiro_reverse_api.Text.{Text, codes, is_full}
use kiro_reverse_api.Text.Params.{Param}
use kiro_reverse_api.Text.Trim.{trim, trim_end, trim_start, is_space}
use kiro_reverse_api.Client.{ApiError}
use kiro_reverse_api.Messages.{
  phrases, server_error_phrases, server_error_key, server_error_phrase, server_error_code,
  translate_server_message, error_message,
}
use kiro_reverse_api.Messages.Phrases.{Found, server_error_phrase-Found}

messages_run : Unit {0}
unfolding phrases sort_by insert_sorted minus_ℕ server_error_key server_error_phrase
    server_error_code translate_server_message error_message trim trim_end trim_start is_space
messages_run = tt

abbrev lower : Text → Text
lower s = s

abbrev translate : Text → List Param → Text
translate key [] = key
translate key (p ∷ ps) = key ++ b'=' ∷ p.value

abbrev thrown : ApiError
thrown = record {
  status = 400;
  server_message = codes "token 1: token 验证失败: 401; who knows; Unauthorized";
  body = none;
  retry_after = none;
  index = none;
}

approval :
    server_error_phrase lower (codes "批准授权失败：x")
    ≡ some (record { key = codes "errors:serverError.ssoTokenFlowFailed"; detail = codes "x" })
unfolding messages_run
approval = refl

joined :
    error_message lower translate (some thrown) (codes "errors:generic")
    ≡ codes
        "common:text.joinSentences=errors:serverError.ssoTokenRejected who knows errors:serverError.unauthorized"
unfolding messages_run
joined = refl

server_error_phrase-Found_example :
    Found lower
      (trim (codes "批准授权失败"))
      server_error_phrases
      (server_error_phrase lower (codes "批准授权失败"))
server_error_phrase-Found_example = server_error_phrase-Found lower (codes "批准授权失败")

translate_full : (key : Text) (ps : List Param) → is_full (codes "text" ++ key) ≡ true
translate_full key ps = refl
