-- ===== src/Settings/Proxy/Join.antt =====
-- What the parts of a joined proxy URL are split back into
-- (ui/src/features/settings/lib/proxy-url.ts).
use mathlib.Core.List.{append_assoc}
use kiro_reverse_api.Prelude.{
  ℕ, ◌≡◌, refl, sym, ◌∙◌, Bool, false, ◌&&◌, not, [], ◌∷◌, ◌++◌, if◌then◌else◌, any, any-append,
  or_parts, Bool-cases, inl, inr, if_keeps,
}
use kiro_reverse_api.Text.{Text, codes, is_full, starts_with}
use kiro_reverse_api.Text.Trim.{is_space}
use kiro_reverse_api.Settings.Proxy.{
  ProxyScheme, ProxyModel, type_of_scheme, authority_of, on_right, on_left, host_port, model_of,
  auth_text, host_text,
}
use kiro_reverse_api.Settings.Proxy.Cuts.{cut_first, cut_last, is_unit, ends_authority}
use kiro_reverse_api.Settings.Proxy.Pieces.{
  cut_first-none, cut_first-append, cut_last-none, cut_last-append,
}
use kiro_reverse_api.Settings.Proxy.Signs.{
  gap_end, host_has_no, host_no_gap, is_gap, is_host_sign, is_sign, no_at, no_close, no_colon,
  no_open, sign_host, starts_open,
}

-- The host and the port, as `buildProxyUrl` writes them.
abbrev pub address : (Text → Text) → Text → Text → Text
address encode host port = host_text encode host ++ b':' ∷ port

plain_host_port :
    (host port : Text)
    → any (is_unit b'[') host ≡ false
    → any (is_unit b':') port ≡ false
    → host_port (host ++ b':' ∷ port) ≡ (host, port)
plain_host_port [] port h k = rw (cut_last-append (is_unit b':') [] b':' port k refl) refl
plain_host_port (c ∷ s) port h k =
    rw
      (
        (or_parts (is_unit b'[' c) (any (is_unit b'[') s) h).0,
        cut_last-append (is_unit b':') (c ∷ s) b':' port k refl,
      )
      refl

bracket_host_port :
    (host port : Text)
    → any (is_unit b']') host ≡ false
    → host_port ((b'[' ∷ host ++ b']' ∷ []) ++ b':' ∷ port) ≡ (host, port)
bracket_host_port host port h =
    rw
      (
        append_assoc host (b']' ∷ []) (b':' ∷ port),
        cut_first-append (is_unit b']') host b']' (b':' ∷ port) h refl,
      )
      refl

at_no_gap : any is_gap (codes "@") ≡ false
unfolding is_space
at_no_gap = refl

signs_no_gap : any is_gap (codes "[]:") ≡ false
unfolding is_space
signs_no_gap = refl

colon_no_gap : (s : Text) → any is_gap s ≡ false → any is_gap (b':' ∷ s) ≡ false
unfolding is_space
colon_no_gap s h = h

module _ (encode decode lower : Text → Text) (safe : (s : Text) → any is_sign (encode s) ≡ false)
    (back : (s : Text) → decode (encode s) ≡ s) (back_empty : decode [] ≡ []) where
  host_port-address :
      (host port : Text)
      → any is_host_sign host ≡ false
      → any is_sign port ≡ false
      → host_port (address encode host port) ≡ (host, port)
  host_port-address host port h k = elim (Bool-cases (any (is_unit b':') host)) [
    | inl e ↦
        rw (e, starts_open host (host_has_no b'[' host no_open h))
          (bracket_host_port host port (host_has_no b']' host no_close h))
    | inr e ↦ rw e (plain_host_port host port (host_has_no b'[' host no_open h) (no_colon port k))
  ]

  address_keeps :
      (p : ℕ → Bool) (host port : Text)
      → any p host ≡ false
      → any p port ≡ false
      → any p (codes "[]:") ≡ false
      → any p (address encode host port) ≡ false
  address_keeps p host port h k signs =
      let (a, rest) = or_parts (p b'[') (any p (codes "]:")) signs in
      let (b, rest2) = or_parts (p b']') (any p (codes ":")) rest in
      let (c, none_left) = or_parts (p b':') false rest2 in
      any-append p (host_text encode host) (b':' ∷ port)
        (if_keeps (λ t. any p t ≡ false)
          (any (is_unit b':') host && not (starts_with host (codes "[")))
          (rw a (any-append p host (b']' ∷ []) h (rw b refl))) h)
        (rw c k)

  -- The part before the at sign.
  abbrev user_info : Text → Text → Text
  user_info username password =
      if is_full username
      then if is_full password then encode username ++ b':' ∷ encode password else encode username
      else []

  split_auth :
      (username password rest : Text)
      → any (is_unit b'@') rest ≡ false
      → let whole = auth_text encode username password ++ rest in
        on_right whole (cut_last (is_unit b'@') whole) ≡ (user_info username password, rest)
  split_auth [] password rest h = rw (cut_last-none (is_unit b'@') rest h) refl
  split_auth (u ∷ us) [] rest h =
      rw
        (
          append_assoc (encode (u ∷ us)) (b'@' ∷ []) rest,
          cut_last-append (is_unit b'@') (encode (u ∷ us)) b'@' rest h refl,
        )
        refl
  split_auth (u ∷ us) (p ∷ ps) rest h =
      let eu = encode (u ∷ us) in
      let ep = encode (p ∷ ps) in
      rw
        (
          append_assoc (eu ++ b':' ∷ ep) (b'@' ∷ []) rest,
          cut_last-append (is_unit b'@') (eu ++ b':' ∷ ep) b'@' rest h refl,
        )
        refl

  abbrev user_parts : Text → Text → Text × Text
  user_parts username password =
      let info = user_info username password in on_left info (cut_first (is_unit b':') info)

  decoded :
      (username password : Text)
      → (is_full username ≡ false → password ≡ [])
      → (decode (user_parts username password).0 ≡ username)
        × (decode (user_parts username password).1 ≡ password)
  decoded [] password h = (back_empty, back_empty ∙ sym (h refl))
  decoded (u ∷ us) [] h =
      rw
        (cut_first-none (is_unit b':') (encode (u ∷ us))
          (no_colon (encode (u ∷ us)) (safe (u ∷ us))))
        (back (u ∷ us), back_empty)
  decoded (u ∷ us) (p ∷ ps) h =
      rw
        (cut_first-append (is_unit b':') (encode (u ∷ us)) b':' (encode (p ∷ ps))
          (no_colon (encode (u ∷ us)) (safe (u ∷ us))) refl)
        (back (u ∷ us), back (p ∷ ps))

  encode_no_gap : (s : Text) → any is_gap (encode s) ≡ false
  encode_no_gap s = host_no_gap (encode s) (sign_host (encode s) (safe s))

  auth_no_gap : (username password : Text) → any is_gap (auth_text encode username password) ≡ false
  auth_no_gap [] password = refl
  auth_no_gap (u ∷ us) [] =
      any-append is_gap (encode (u ∷ us)) (b'@' ∷ []) (encode_no_gap (u ∷ us)) at_no_gap
  auth_no_gap (u ∷ us) (p ∷ ps) =
      any-append is_gap (encode (u ∷ us) ++ b':' ∷ encode (p ∷ ps)) (b'@' ∷ [])
        (any-append is_gap (encode (u ∷ us)) (b':' ∷ encode (p ∷ ps)) (encode_no_gap (u ∷ us))
          (colon_no_gap (encode (p ∷ ps)) (encode_no_gap (p ∷ ps))))
        at_no_gap

  module _ (m : ProxyModel) (host_ok : any is_host_sign m.host ≡ false)
      (port_ok : any is_sign m.port ≡ false)
      (user_ok : is_full m.username ≡ false → m.password ≡ []) where
    abbrev pub rest_text : Text
    rest_text = auth_text encode m.username m.password ++ address encode m.host m.port

    pub rest_no_gap : any is_gap rest_text ≡ false
    rest_no_gap =
        any-append is_gap (auth_text encode m.username m.password) (address encode m.host m.port)
          (auth_no_gap m.username m.password)
          (address_keeps is_gap m.host m.port (host_no_gap m.host host_ok)
            (host_no_gap m.port (sign_host m.port port_ok)) signs_no_gap)

    pub authority_of_rest : authority_of rest_text ≡ rest_text
    authority_of_rest =
        rw (cut_first-none ends_authority rest_text (gap_end rest_text rest_no_gap)) refl

    pub model_of_rest :
        (scheme : ProxyScheme)
        → model_of decode lower scheme rest_text
          ≡ record m { type = type_of_scheme scheme; scheme = scheme }
    model_of_rest scheme =
        let no_at_sign : any (is_unit b'@') (address encode m.host m.port) ≡ false =
          address_keeps (is_unit b'@') m.host m.port (host_has_no b'@' m.host no_at host_ok)
            (host_has_no b'@' m.port no_at (sign_host m.port port_ok)) refl in
        let (u, p) = decoded m.username m.password user_ok in
        rw
          (
            split_auth m.username m.password (address encode m.host m.port) no_at_sign,
            host_port-address m.host m.port host_ok port_ok,
            u,
            p,
          )
          refl
