-- ===== src/Settings/Proxy/Tests.antt =====
-- A proxy at an IPv6 address with credentials that hold signs of a URL.
use kiro_reverse_api.Prelude.{◌+◌, ◌-◌, ◌≡◌, refl, false, [], ◌∷◌, map, any, arith}
use kiro_reverse_api.Text.{Text, codes}
use kiro_reverse_api.Text.Trim.{trim, trim_end, trim_start, is_space}
use kiro_reverse_api.Settings.Proxy.{
  socks, http_type, socks5h, http, ProxyModel, direct_proxy, parse_proxy_url, build_proxy_url,
}
use kiro_reverse_api.Settings.Proxy.Signs.{is_sign}
use kiro_reverse_api.Settings.Proxy.Again.{IsForm, parse_proxy_url-build_proxy_url}

-- An encoding that moves every unit past the signs.
abbrev encode : Text → Text
encode s = map (λ c. c + 0x10000) s

abbrev decode : Text → Text
decode s = map (λ c. c - 0x10000) s

encode-is_sign : (s : Text) → any is_sign (encode s) ≡ false
unfolding is_space
encode-is_sign [] = refl
encode-is_sign (c ∷ s) = ground (arith, encode-is_sign s)

decode-encode : (s : Text) → decode (encode s) ≡ s
decode-encode [] = refl
decode-encode (c ∷ s) = ground (arith, decode-encode s)

abbrev lower : Text → Text
lower s = s

abbrev form : ProxyModel
form = record {
  type = socks;
  scheme = socks5h;
  host = codes "::1";
  port = codes "1080";
  username = codes "a@b";
  password = codes "p:/";
}

form-IsForm : IsForm form
unfolding trim trim_end trim_start is_space
form-IsForm = record {
  fits = refl;
  trimmed = (refl, refl);
  user = λ h. absurd (cc);
  host_free = refl;
  port_free = refl;
}

parse_proxy_url-build_proxy_url_example :
    parse_proxy_url decode lower (build_proxy_url encode form) ≡ form
parse_proxy_url-build_proxy_url_example =
    parse_proxy_url-build_proxy_url encode decode lower encode-is_sign decode-encode refl
      (λ scheme. refl) form form-IsForm

splits :
    (parse_proxy_url lower lower (codes " http://u:p@[::1]:80/x ") ≡ record {
      type = http_type;
      scheme = http;
      host = codes "::1";
      port = codes "80";
      username = codes "u";
      password = codes "p";
    })
    × (parse_proxy_url lower lower (codes "ftp://host") ≡ direct_proxy)
unfolding parse_proxy_url trim trim_end trim_start is_space
splits = (refl, refl)
