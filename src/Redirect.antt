-- ===== src/Redirect.antt =====
-- ui/src/routes/-search.ts: the guard of the login page's redirect, and its split into a target.
pub mod Laws
mod Tests
use kiro_reverse_api.Prelude.{
  ℕ, suc, Bool, true, false, not, ◌&&◌, List, [], ◌∷◌, Option, none, some, if◌then◌else◌, ◌==◌,
  take, drop,
}
use kiro_reverse_api.Text.{Text, codes, text_eq, starts_with, index_of}
use kiro_reverse_api.Search.{Raw, missing, other, boolean, number, string}

-- `isSafeRedirect` on a string
unfoldable pub is_safe_redirect : Text → Bool
is_safe_redirect s =
    starts_with s (codes "/")
    && not (starts_with s (codes "//"))
    && not (starts_with s (b'/' ∷ b'\\' ∷ []))

abbrev pub safe_redirect : Raw → Option Text
safe_redirect (string s) = if is_safe_redirect s then some s else none
safe_redirect missing = none
safe_redirect other = none
safe_redirect (boolean b) = none
safe_redirect (number n) = none

unfoldable pub validate_login_search : (Text → Raw) → Option Text
validate_login_search input = safe_redirect (input (codes "redirect"))

pub record Target : Type 0 where
  pub to : Text
  pub search : List (Text × Text)

-- `s.split(c)[0]` for one code unit
abbrev pub until : ℕ → Text → Text
until c [] = []
until c (d ∷ s) = if d == c then [] else d ∷ until c s

abbrev pub put_entry : Text → Text → List (Text × Text) → List (Text × Text)
put_entry key value [] = (key, value) ∷ []
put_entry key value ((k, v) ∷ es) =
    if text_eq k key then (k, value) ∷ es else (k, v) ∷ put_entry key value es

-- `search[key] = value`; a string assigned to "__proto__" is ignored.
abbrev pub assign : Text → Text → List (Text × Text) → List (Text × Text)
assign key value es = if text_eq key (codes "__proto__") then es else put_entry key value es

abbrev pub assign_all : List (Text × Text) → List (Text × Text) → List (Text × Text)
assign_all [] es = es
assign_all ((k, v) ∷ ps) es = assign_all ps (assign k v es)

abbrev or_root : Text → Text
or_root [] = codes "/"
or_root (c ∷ s) = c ∷ s

-- The parameter `params` lists the entries of `new URLSearchParams(s)`.
module _ (params : Text → List (Text × Text)) where
  split_target : Text → Option ℕ → Target
  split_target s none = record { to = or_root s; search = [] }
  split_target s (some i) = record {
    to = or_root (take i s);
    search = assign_all (params (drop (suc i) s)) [];
  }

  target_of : Text → Target
  unfolding split_target
  target_of s = split_target s (index_of s b'?')

  unfoldable pub redirect_target : Option Text → Target
  unfolding is_safe_redirect target_of
  redirect_target none = record { to = codes "/"; search = [] }
  redirect_target (some redirect) =
      if is_safe_redirect redirect
      then target_of (until b'#' redirect)
      else record { to = codes "/"; search = [] }
