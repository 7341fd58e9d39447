-- ===== src/Messages/Tables.antt =====
-- The tables of ui/src/lib/api/server-errors.ts: the server's messages and their translation keys.
use kiro_reverse_api.Prelude.{List, [], ◌∷◌}
use kiro_reverse_api.Text.{Text, codes}

abbrev pub server_error_codes : List (Text × Text)
server_error_codes = (codes "api_key_lockout", codes "errors:serverError.apiKeyLockout") ∷ []

abbrev pub server_error_keys : List (Text × Text)
server_error_keys =
    (codes "Invalid JSON", codes "errors:serverError.invalidJSON")
    ∷ (codes "Unauthorized", codes "errors:serverError.unauthorized")
    ∷ (codes "Not Found", codes "errors:serverError.notFound")
    ∷ (codes "Account not found", codes "errors:serverError.accountNotFound")
    ∷ (codes "API key not found", codes "errors:serverError.apiKeyNotFound")
    ∷ (codes "No account IDs provided", codes "errors:serverError.noAccountIds")
    ∷ (codes "startUrl is required", codes "errors:serverError.startUrlRequired")
    ∷ (codes "bearerToken is required", codes "errors:serverError.bearerTokenRequired")
    ∷ (codes "refreshToken is required", codes "errors:serverError.refreshTokenRequired")
    ∷ (
      codes "refreshToken or kiroApiKey is required",
      codes "errors:serverError.refreshTokenRequired",
    )
    ∷ (codes "kiroApiKey is empty", codes "errors:serverError.kiroApiKeyEmpty")
    ∷ (codes "kiroApiKey contains invalid characters", codes "errors:serverError.kiroApiKeyInvalid")
    ∷ (
      codes "kiroApiKey has more than one '|' separator",
      codes "errors:serverError.kiroApiKeyInvalid",
    )
    ∷ (codes "invalid Kiro API key region", codes "errors:serverError.kiroApiKeyRegion")
    ∷ (codes "this Kiro API key is already added", codes "errors:serverError.kiroApiKeyDuplicate")
    ∷ (
      codes "unsupported Kiro API key region: use us-east-1 or eu-central-1",
      codes "errors:serverError.kiroApiKeyRegionUnsupported",
    )
    ∷ (codes "invalid region", codes "errors:serverError.invalidRegion")
    ∷ (
      codes "Too many admin password attempts; try again later",
      codes "errors:serverError.tooManyPasswordAttempts",
    )
    ∷ (codes "Password must be at least 8 characters", codes "errors:serverError.passwordTooShort")
    ∷ (
      codes "autoContinueMax must be between 1 and 10",
      codes "errors:serverError.autoContinueMaxRange",
    )
    ∷ (codes "Account is not overage capable", codes "errors:serverError.notOverageCapable")
    ∷ (
      codes "API key accounts have no Kiro profile; their region is set at import",
      codes "errors:serverError.apiKeyAccountNoProfile",
    )
    ∷ (
      codes "Selected Kiro profile is not available for this account",
      codes "errors:serverError.profileNotAvailable",
    )
    ∷ (codes "profileArn is invalid", codes "errors:serverError.profileArnInvalid")
    ∷ (
      codes "proxyURL must start with http://, https://, socks5://, or socks5h://",
      codes "errors:serverError.proxyUrlScheme",
    )
    ∷ (
      codes "Invalid endpoint, must be: auto, kiro, codewhisperer, or amazonq",
      codes "errors:serverError.invalidEndpoint",
    )
    ∷ (codes "api key already exists", codes "errors:serverError.apiKeyExists")
    ∷ (
      codes "api key value collides with existing entry",
      codes "errors:serverError.apiKeyCollision",
    )
    ∷ (codes "token limit must be zero or positive", codes "errors:serverError.tokenLimitNegative")
    ∷ (
      codes "credit limit must be zero or positive",
      codes "errors:serverError.creditLimitNegative",
    )
    ∷ (codes "this Microsoft SSO login was canceled", codes "errors:serverError.microsoftCanceled")
    ∷ (
      codes "this Microsoft account is already added",
      codes "errors:serverError.microsoftDuplicate",
    )
    ∷ []

abbrev pub server_error_phrases : List (Text × Text)
server_error_phrases =
    (codes "会话不存在或已过期", codes "errors:serverError.ssoSessionExpired")
    ∷ (codes "会话已过期", codes "errors:serverError.ssoSessionExpired")
    ∷ (codes "无效的回调 URL", codes "errors:serverError.invalidCallbackUrl")
    ∷ (codes "状态不匹配，可能存在安全风险", codes "errors:serverError.ssoStateMismatch")
    ∷ (codes "未收到授权码", codes "errors:serverError.ssoNoCode")
    ∷ (codes "授权超时", codes "errors:serverError.ssoTimeout")
    ∷ (codes "授权失败", codes "errors:serverError.ssoDenied")
    ∷ (codes "授权错误", codes "errors:serverError.ssoDenied")
    ∷ (codes "注册客户端失败", codes "errors:serverError.ssoRegisterFailed")
    ∷ (codes "设备授权失败", codes "errors:serverError.ssoRegisterFailed")
    ∷ (codes "token 验证失败", codes "errors:serverError.ssoTokenRejected")
    ∷ (codes "获取设备会话失败", codes "errors:serverError.ssoTokenFlowFailed")
    ∷ (codes "接受用户代码失败", codes "errors:serverError.ssoTokenFlowFailed")
    ∷ (codes "批准授权失败", codes "errors:serverError.ssoTokenFlowFailed")
    ∷ (codes "获取 Token 失败", codes "errors:serverError.ssoTokenFlowFailed")
    ∷ []
