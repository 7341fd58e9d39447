-- ===== src/Settings/Proxy.antt =====
-- ui/src/features/settings/lib/proxy-url.ts: the outbound proxy form, split from a URL and joined
-- back into one.
pub mod Cuts
pub mod Pieces
pub mod Signs
pub mod Join
pub mod Again
mod Tests
use kiro_reverse_api.Prelude.{
  ℕ, suc, Bool, true, false, ◌&&◌, ◌||◌, not, List, [], ◌∷◌, ◌++◌, Option, none, some, or_else,
  if◌then◌else◌, ◌==◌, leb, any, all,
}
use kiro_reverse_api.Text.{Text, codes, text_eq, is_full, starts_with}
use kiro_reverse_api.Text.Trim.{trim}
use kiro_reverse_api.Settings.Proxy.Cuts.{
  cut_first, cut_last, is_unit, is_letter, is_scheme_unit, is_line_end, ends_authority,
}

pub data ProxyType : Type 0 where
  direct socks http_type : ProxyType

pub data ProxyScheme : Type 0 where
  socks5 socks5h http https : ProxyScheme

pub record ProxyModel : Type 0 where
  pub type : ProxyType
  pub scheme : ProxyScheme
  pub host : Text
  pub port : Text
  pub username : Text
  pub password : Text

abbrev pub direct_proxy : ProxyModel
direct_proxy = record {
  type = direct;
  scheme = socks5;
  host = [];
  port = [];
  username = [];
  password = [];
}

abbrev pub scheme_name : ProxyScheme → Text
scheme_name socks5 = codes "socks5"
scheme_name socks5h = codes "socks5h"
scheme_name http = codes "http"
scheme_name https = codes "https"

-- The scheme with this name, `none` where `isScheme` is false.
abbrev pub scheme_of : Text → Option ProxyScheme
scheme_of s =
    if text_eq s (codes "socks5")
    then some socks5
    else if text_eq s (codes "socks5h")
    then some socks5h
    else if text_eq s (codes "http")
    then some http
    else if text_eq s (codes "https")
    then some https
    else none

abbrev pub type_of_scheme : ProxyScheme → ProxyType
type_of_scheme socks5 = socks
type_of_scheme socks5h = socks
type_of_scheme http = http_type
type_of_scheme https = http_type

unfoldable pub scheme_for_type : ProxyType → ProxyScheme → ProxyScheme
scheme_for_type socks socks5h = socks5h
scheme_for_type socks socks5 = socks5
scheme_for_type socks http = socks5
scheme_for_type socks https = socks5
scheme_for_type http_type https = https
scheme_for_type http_type http = http
scheme_for_type http_type socks5 = http
scheme_for_type http_type socks5h = http
scheme_for_type direct current = current

abbrev scheme_text : Text → Bool
scheme_text [] = false
scheme_text (c ∷ s) = is_letter c && all is_scheme_unit s

abbrev after_slashes : Text → Text → Option (Text × Text)
after_slashes scheme (c ∷ d ∷ rest) =
    if scheme_text scheme && c == b'/' && d == b'/' && not (any is_line_end rest)
    then some (scheme, rest)
    else none
after_slashes scheme (c ∷ []) = none
after_slashes scheme [] = none

abbrev match_from : Option (Text × Text) → Option (Text × Text)
match_from none = none
match_from (some (scheme, rest)) = after_slashes scheme rest

-- The groups of the regular expression, where it matches.
abbrev pub match_url : Text → Option (Text × Text)
match_url s = match_from (cut_first (is_unit b':') s)

abbrev left_or : Text → Option (Text × Text) → Text
left_or s none = s
left_or s (some (a, b)) = a

-- `match[2].split(/[/?#]/, 1)[0]`
abbrev pub authority_of : Text → Text
authority_of s = left_or s (cut_first ends_authority s)

-- The parts at the sign, with the whole text on the right, or on the left, where there is none.
abbrev pub on_right : Text → Option (Text × Text) → Text × Text
on_right s none = ([], s)
on_right s (some parts) = parts

abbrev pub on_left : Text → Option (Text × Text) → Text × Text
on_left s none = (s, [])
on_left s (some parts) = parts

abbrev port_of : Text → Text
port_of [] = []
port_of (c ∷ s) = if c == b':' then s else []

abbrev bracketed : Text → Option (Text × Text) → Text × Text
bracketed s none = (s, [])
bracketed s (some (host, rest)) = (host, port_of rest)

-- The host without brackets, and the port.
abbrev pub host_port : Text → Text × Text
host_port [] = ([], [])
host_port (c ∷ s) =
    if c == b'['
    then bracketed s (cut_first (is_unit b']') s)
    else on_left (c ∷ s) (cut_last (is_unit b':') (c ∷ s))

-- The parameters are `decodeURIComponent`, which gives its argument where it throws, and
-- `toLowerCase`.
module _ (decode lower : Text → Text) where
  abbrev pub model_of : ProxyScheme → Text → ProxyModel
  model_of scheme authority =
      let parts = on_right authority (cut_last (is_unit b'@') authority) in
      let user = on_left parts.0 (cut_first (is_unit b':') parts.0) in
      let address = host_port parts.1 in
      record {
        type = type_of_scheme scheme;
        scheme = scheme;
        host = address.0;
        port = address.1;
        username = decode user.0;
        password = decode user.1;
      }

  abbrev from_scheme : Text → Option ProxyScheme → ProxyModel
  from_scheme rest none = direct_proxy
  from_scheme rest (some scheme) = model_of scheme (authority_of rest)

  abbrev from_match : Option (Text × Text) → ProxyModel
  from_match none = direct_proxy
  from_match (some (scheme, rest)) = from_scheme rest (scheme_of (lower scheme))

  unfoldable pub parse_proxy_url : Text → ProxyModel
  parse_proxy_url url = from_match (match_url (trim url))

-- The parameter is `encodeURIComponent`.
module _ (encode : Text → Text) where
  abbrev pub auth_text : Text → Text → Text
  auth_text username password =
      if is_full username
      then if is_full password
        then (encode username ++ b':' ∷ encode password) ++ b'@' ∷ []
        else encode username ++ b'@' ∷ []
      else []

  abbrev pub host_text : Text → Text
  host_text host =
      if any (is_unit b':') host && not (starts_with host (codes "["))
      then b'[' ∷ host ++ b']' ∷ []
      else host

  abbrev pub url_text : ProxyScheme → ProxyModel → Text
  url_text scheme m =
      scheme_name scheme
      ++ codes "://"
      ++ (auth_text (trim m.username) (trim m.password)
          ++ (host_text (trim m.host) ++ b':' ∷ trim m.port))

  unfoldable pub build_proxy_url : ProxyModel → Text
  unfolding scheme_for_type
  build_proxy_url m = elim m.type [
    | direct ↦ []
    | socks ↦ url_text (scheme_for_type socks m.scheme) m
    | http_type ↦ url_text (scheme_for_type http_type m.scheme) m
  ]
