-- ===== src/Settings/Proxy/Again.antt =====
-- A proxy form that was joined into a URL is split back into the form
-- (ui/src/features/settings/lib/proxy-url.ts).
use kiro_reverse_api.Prelude.{◌≡◌, refl, ap, ◌∙◌, false, [], ◌++◌, some, any, any_weaken}
use kiro_reverse_api.Text.{Text, codes, is_full}
use kiro_reverse_api.Text.Trim.{trim, is_space}
use kiro_reverse_api.Text.Trimmed.{trim-no_space}
use kiro_reverse_api.Settings.Proxy.{
  ProxyScheme, socks5, socks5h, http, https, ProxyModel, scheme_name, scheme_of, type_of_scheme,
  scheme_for_type, match_url, parse_proxy_url, url_text, build_proxy_url,
}
use kiro_reverse_api.Settings.Proxy.Cuts.{is_line_end}
use kiro_reverse_api.Settings.Proxy.Signs.{
  is_host_sign, is_sign, is_gap, gap_space, space_line, sign_host, no_gap,
}
use kiro_reverse_api.Settings.Proxy.Join.{rest_text, rest_no_gap, authority_of_rest, model_of_rest}

-- A form whose parts are as the fields give them: the scheme is one of its type, nothing has spaces
-- around it, a password comes with a user, and host and port hold no sign that parts a URL.
pub record IsForm (m : ProxyModel) : Type 0 where
  pub fits : m.type ≡ type_of_scheme m.scheme
  pub trimmed : (trim m.username ≡ m.username) × (trim m.password ≡ m.password)
  pub user : is_full m.username ≡ false → m.password ≡ []
  pub host_free : any is_host_sign m.host ≡ false
  pub port_free : any is_sign m.port ≡ false

host_space : (s : Text) → any is_host_sign s ≡ false → any is_space s ≡ false
host_space s h = gap_space s (any_weaken is_host_sign is_gap s no_gap h)

joined_no_space :
    (scheme : ProxyScheme) (s : Text)
    → any is_space s ≡ false
    → any is_space (scheme_name scheme ++ codes "://" ++ s) ≡ false
unfolding is_space
joined_no_space socks5 s h = h
joined_no_space socks5h s h = h
joined_no_space http s h = h
joined_no_space https s h = h

joined_match :
    (scheme : ProxyScheme) (s : Text)
    → any is_line_end s ≡ false
    → match_url (scheme_name scheme ++ codes "://" ++ s) ≡ some (scheme_name scheme, s)
joined_match socks5 s h = rw h refl
joined_match socks5h s h = rw h refl
joined_match http s h = rw h refl
joined_match https s h = rw h refl

named : (scheme : ProxyScheme) → scheme_of (scheme_name scheme) ≡ some scheme
named socks5 = refl
named socks5h = refl
named http = refl
named https = refl

module _ (encode decode lower : Text → Text) (safe : (s : Text) → any is_sign (encode s) ≡ false)
    (back : (s : Text) → decode (encode s) ≡ s) (back_empty : decode [] ≡ [])
    (lower_name : (scheme : ProxyScheme) → lower (scheme_name scheme) ≡ scheme_name scheme)
    (m : ProxyModel) (f : IsForm m) where
  abbrev rest : Text
  rest = rest_text encode decode lower safe back back_empty m f.host_free f.port_free f.user

  no_gap_rest : any is_gap rest ≡ false
  no_gap_rest =
      rest_no_gap encode decode lower safe back back_empty m f.host_free f.port_free f.user

  parse_joined :
      (scheme : ProxyScheme)
      → parse_proxy_url decode lower (scheme_name scheme ++ codes "://" ++ rest)
        ≡ record m { type = type_of_scheme scheme; scheme = scheme }
  unfolding parse_proxy_url
  parse_joined scheme =
      let spaces = gap_space rest no_gap_rest in
      rw
        (
          trim-no_space (scheme_name scheme ++ codes "://" ++ rest)
              (joined_no_space scheme rest spaces),
          joined_match scheme rest (any_weaken is_space is_line_end rest space_line spaces),
          lower_name scheme,
          named scheme,
          authority_of_rest encode decode lower safe back back_empty m f.host_free f.port_free
              f.user,
        )
        (model_of_rest encode decode lower safe back back_empty m f.host_free f.port_free f.user
          scheme)

  url_joined :
      (scheme : ProxyScheme) → url_text encode scheme m ≡ scheme_name scheme ++ codes "://" ++ rest
  url_joined scheme =
      rw
        (
          f.trimmed.0,
          f.trimmed.1,
          trim-no_space m.host (host_space m.host f.host_free),
          trim-no_space m.port (host_space m.port (sign_host m.port f.port_free)),
        )
        refl

  build_joined :
      (scheme : ProxyScheme)
      → m.scheme ≡ scheme
      → m.type ≡ type_of_scheme scheme
      → build_proxy_url encode m ≡ url_text encode scheme m
  unfolding build_proxy_url scheme_for_type
  build_joined socks5 e t = rw (t, e) refl
  build_joined socks5h e t = rw (t, e) refl
  build_joined http e t = rw (t, e) refl
  build_joined https e t = rw (t, e) refl

  -- A proxy form is joined into a URL that is split back into the same form, its scheme, an IPv6 host
  -- and encoded credentials included. The scheme is one of the form's type, a password comes with a
  -- user name, no field has spaces around it, and the host and the port hold none of the signs that
  -- part a URL; `decodeURIComponent` undoes `encodeURIComponent`, which escapes those signs.
  pub parse_proxy_url-build_proxy_url : parse_proxy_url decode lower (build_proxy_url encode m) ≡ m
  parse_proxy_url-build_proxy_url =
      ap (λ t. parse_proxy_url decode lower t)
        (build_joined m.scheme refl f.fits ∙ url_joined m.scheme)
      ∙ parse_joined m.scheme
      ∙ rw (f.fits) refl
