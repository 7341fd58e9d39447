-- ===== src/AddAccount/Credentials/Sources.antt =====
-- ui/src/features/add-account/lib/credentials-mapping.ts: the items of a pasted text, and their
-- fields.
use kiro_reverse_api.Prelude.{true, false, List, [], ◌∷◌, Option, none, some, if◌then◌else◌}
use kiro_reverse_api.Text.{Text, codes, text_eq, or_text}
use kiro_reverse_api.Json.{
  Json, null, flag, num, str, arr, obj, Items, nil, cons, Fields, end, field, get_field,
}

-- `Record<string, unknown>`
abbrev pub CredentialSource : Type 0
CredentialSource = Fields

-- The value as an object, `none` where `isRecord` is false.
abbrev pub is_record : Json → Option Fields
is_record (obj fs) = some fs
is_record null = none
is_record (flag b) = none
is_record (num n) = none
is_record (str s) = none
is_record (arr xs) = none

-- `String(value)` of a number, which prints negative zero without its sign.
abbrev number_text : Text → Text
number_text n = if text_eq n (codes "-0") then codes "0" else n

unfoldable pub text_field : Option Json → Text
text_field (some (str s)) = s
text_field (some (num n)) = number_text n
text_field (some (flag true)) = codes "true"
text_field (some (flag false)) = codes "false"
text_field (some null) = []
text_field (some (arr xs)) = []
text_field (some (obj fs)) = []
text_field none = []

-- `textField(item.key)`
abbrev pub text_at : Text → CredentialSource → Text
text_at key item = text_field (get_field key item)

abbrev pub object_or_empty : Option Json → CredentialSource
object_or_empty (some (obj fs)) = fs
object_or_empty (some null) = end
object_or_empty (some (flag b)) = end
object_or_empty (some (num n)) = end
object_or_empty (some (str s)) = end
object_or_empty (some (arr xs)) = end
object_or_empty none = end

-- `pick` of `fromAccountManager`
abbrev pick : CredentialSource → CredentialSource → Text → Text
pick credentials account key = or_text (text_at key credentials) (text_at key account)

unfoldable pub from_account_manager : Json → CredentialSource
unfolding text_field
from_account_manager entry =
    let account = object_or_empty (some entry) in
    let credentials = object_or_empty (get_field (codes "credentials") account) in
    field (codes "refreshToken") (str (pick credentials account (codes "refreshToken"))) (
      field (codes "accessToken") (str (pick credentials account (codes "accessToken"))) (
        field (codes "kiroApiKey") (str (pick credentials account (codes "kiroApiKey"))) (
          field (codes "clientId") (str (pick credentials account (codes "clientId"))) (
            field (codes "clientSecret") (str (pick credentials account (codes "clientSecret"))) (
              field (codes "region") (str (pick credentials account (codes "region"))) (
                field (codes "authMethod") (str (pick credentials account (codes "authMethod")))
                  (login_fields credentials account)))))))
  where
    login_fields : CredentialSource → CredentialSource → Fields
    login_fields credentials account =
        field (codes "provider")
          (str
            (or_text (pick credentials account (codes "provider")) (text_at (codes "idp") account)))
          (field (codes "userId") (str (text_at (codes "userId") account)) (
            field (codes "profileArn") (str (text_at (codes "profileArn") account)) (
              field (codes "tokenEndpoint") (str (text_at (codes "tokenEndpoint") credentials)) (
                field (codes "issuerUrl") (str (text_at (codes "issuerUrl") credentials))
                  (field (codes "scopes") (str (text_at (codes "scopes") credentials)) end)))))

abbrev map_items : (Json → CredentialSource) → Items → List CredentialSource
map_items f nil = []
map_items f (cons v vs) = f v ∷ map_items f vs

abbrev source_of : Json → CredentialSource
source_of item = object_or_empty (some item)

abbrev account_items : Option Json → Fields → List CredentialSource
account_items (some (arr items)) json = map_items from_account_manager items
account_items (some null) json = json ∷ []
account_items (some (flag b)) json = json ∷ []
account_items (some (num n)) json = json ∷ []
account_items (some (str s)) json = json ∷ []
account_items (some (obj fs)) json = json ∷ []
account_items none json = json ∷ []

-- The items of a parsed value.
unfoldable pub items_of : Json → List CredentialSource
items_of (obj fs) = account_items (get_field (codes "accounts") fs) fs
items_of (arr items) = map_items source_of items
items_of null = end ∷ []
items_of (flag b) = end ∷ []
items_of (num n) = end ∷ []
items_of (str s) = end ∷ []
