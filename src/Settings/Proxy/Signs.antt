-- ===== src/Settings/Proxy/Signs.antt =====
-- What the parts of a proxy URL may hold (ui/src/features/settings/lib/proxy-url.ts).

use kiro_reverse_api.Prelude.{
  ℕ, ◌≡◌, refl, Bool, false, ◌||◌, [], ◌∷◌, arith, ◌==◌, any, any_weaken, or_parts,
}
use kiro_reverse_api.Text.{Text, codes, starts_with}
use kiro_reverse_api.Text.Trim.{is_space}
use kiro_reverse_api.Settings.Proxy.Cuts.{is_unit, is_line_end, ends_authority}

-- What may not stand in a host: spaces and the signs between the parts of a URL, but for the colon of
-- an IPv6 address.
abbrev pub is_host_sign : ℕ → Bool
is_host_sign c =
    is_space c || c == b'@' || c == b'/' || c == b'?' || c == b'#' || c == b'[' || c == b']'

-- The same with the colon.
abbrev pub is_sign : ℕ → Bool
is_sign c = is_host_sign c || c == b':'

pub host_has_no :
    (d : ℕ) (s : Text)
    → ((c : ℕ) → is_host_sign c ≡ false → is_unit d c ≡ false)
    → any is_host_sign s ≡ false
    → any (is_unit d) s ≡ false
host_has_no d s f h = any_weaken is_host_sign (is_unit d) s f h

pub sign_host : (s : Text) → any is_sign s ≡ false → any is_host_sign s ≡ false
sign_host s h =
    any_weaken is_sign is_host_sign s (λ c k. (or_parts (is_host_sign c) (c == b':') k).0) h

pub no_at : (c : ℕ) → is_host_sign c ≡ false → is_unit b'@' c ≡ false
no_at c h = ground (arith)

pub no_open : (c : ℕ) → is_host_sign c ≡ false → is_unit b'[' c ≡ false
no_open c h = ground (arith)

pub no_close : (c : ℕ) → is_host_sign c ≡ false → is_unit b']' c ≡ false
no_close c h = ground (arith)

pub no_colon : (s : Text) → any is_sign s ≡ false → any (is_unit b':') s ≡ false
no_colon s h =
    any_weaken is_sign (is_unit b':') s (λ c k. (or_parts (is_host_sign c) (c == b':') k).1) h

-- A space or an end of the authority.
abbrev pub is_gap : ℕ → Bool
is_gap c = is_space c || ends_authority c

pub no_gap : (c : ℕ) → is_host_sign c ≡ false → is_gap c ≡ false
no_gap c h = ground (arith)

pub host_no_gap : (s : Text) → any is_host_sign s ≡ false → any is_gap s ≡ false
host_no_gap s h = any_weaken is_host_sign is_gap s no_gap h

pub gap_space : (s : Text) → any is_gap s ≡ false → any is_space s ≡ false
gap_space s h =
    any_weaken is_gap is_space s (λ c k. (or_parts (is_space c) (ends_authority c) k).0) h

pub gap_end : (s : Text) → any is_gap s ≡ false → any ends_authority s ≡ false
gap_end s h =
    any_weaken is_gap ends_authority s (λ c k. (or_parts (is_space c) (ends_authority c) k).1) h

pub space_line : (c : ℕ) → is_space c ≡ false → is_line_end c ≡ false
unfolding is_space
space_line c h = ground (arith)

pub starts_open : (s : Text) → any (is_unit b'[') s ≡ false → starts_with s (codes "[") ≡ false
starts_open [] h = refl
starts_open (c ∷ s) h = rw ((or_parts (is_unit b'[' c) (any (is_unit b'[') s) h).0) refl
