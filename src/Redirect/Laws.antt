-- ===== src/Redirect/Laws.antt =====
-- The redirect's target stays on the app's origin.
use kiro_reverse_api.Prelude.{
  ℕ, suc, ◌≡◌, ◌≢◌, refl, ap, ◌∙◌, true, false, List, [], ◌∷◌, ◌++◌, Option, none, some, arith,
  Bool-cases, inl, inr, take, drop, length, sym,
}
use mathlib.Core.List.{append_assoc}
use kiro_reverse_api.Text.{Text, codes, index_of}
use kiro_reverse_api.Redirect.{
  until, is_safe_redirect, redirect_target, split_target, target_of, assign_all, or_root,
}

-- The text before the first `c`.
cut : ℕ → Text → Option ℕ → Text
cut c s none = s
cut c s (some i) = take i s

cut-index_of : (c : ℕ) (s : Text) → cut c s (index_of s c) ≡ until c s
unfolding cut
cut-index_of c [] = refl
cut-index_of c (d ∷ s) = ground (arith, cut-index_of c s)

index_of-until : (c : ℕ) (s : Text) → index_of (until c s) c ≡ none
index_of-until c [] = refl
index_of-until c (d ∷ s) = ground (arith, index_of-until c s)

-- Cutting at one unit does not bring back another.
index_of-until_other : (c d : ℕ) (s : Text) → index_of s d ≡ none → index_of (until c s) d ≡ none
index_of-until_other c d [] h = refl
index_of-until_other c d (e ∷ s) h = ground (arith, index_of-until_other c d s)

until_safe :
    (c : ℕ) (s : Text) → c ≢ b'/' → is_safe_redirect s ≡ true → is_safe_redirect (until c s) ≡ true
unfolding is_safe_redirect
until_safe c [] n h = h
until_safe c (d ∷ []) n h = ground arith
until_safe c (d ∷ e ∷ s) n h = ground arith

safe-or_root : (s : Text) → is_safe_redirect s ≡ true → or_root s ≡ s
unfolding is_safe_redirect
safe-or_root [] h = absurd (cc)
safe-or_root (c ∷ s) h = refl

split_target-to :
    (params : Text → List (Text × Text)) (s : Text) (o : Option ℕ)
    → (split_target params s o).to ≡ or_root (cut b'?' s o)
unfolding split_target cut
split_target-to params s none = refl
split_target-to params s (some i) = refl

-- The text starts with one slash, which neither a slash nor a backslash follows.
abbrev pub StartsLocal : Text → Type 0
StartsLocal [] = ⊥
StartsLocal (c ∷ []) = c ≡ b'/'
StartsLocal (c ∷ d ∷ s) = (c ≡ b'/') × (d ≢ b'/') × (d ≢ b'\\')

safe-StartsLocal : (s : Text) → is_safe_redirect s ≡ true → StartsLocal s
unfolding is_safe_redirect
safe-StartsLocal [] h = absurd (cc)
safe-StartsLocal (c ∷ []) h = ground arith
safe-StartsLocal (c ∷ d ∷ s) h = ground arith

-- Its path is one of the app, with no query and no fragment.
abbrev pub IsLocal : Text → Type 0
IsLocal s = StartsLocal s × (index_of s b'?' ≡ none) × (index_of s b'#' ≡ none)

target_of-IsLocal :
    (params : Text → List (Text × Text)) (s : Text)
    → is_safe_redirect s ≡ true
    → index_of s b'#' ≡ none
    → IsLocal (target_of params s).to
unfolding target_of
target_of-IsLocal params s h n =
    let safe = until_safe b'?' s (ground arith) h in
    let e : (target_of params s).to ≡ until b'?' s =
      split_target-to params s (index_of s b'?')
      ∙ ap or_root (cut-index_of b'?' s)
      ∙ safe-or_root (until b'?' s) safe in
    rw e (
      safe-StartsLocal (until b'?' s) safe,
      index_of-until b'?' s,
      index_of-until_other b'?' b'#' s n,
    )

redirect_target-safe :
    (params : Text → List (Text × Text)) (s : Text)
    → is_safe_redirect s ≡ true
    → redirect_target params (some s) ≡ target_of params (until b'#' s)
unfolding redirect_target
redirect_target-safe params s h = rw h

redirect_target-unsafe :
    (params : Text → List (Text × Text)) (s : Text)
    → is_safe_redirect s ≡ false
    → redirect_target params (some s) ≡ record { to = codes "/"; search = [] }
unfolding redirect_target
redirect_target-unsafe params s h = rw h

root-IsLocal : IsLocal (codes "/")
unfolding is_safe_redirect
root-IsLocal = (refl, refl, refl)

-- Whatever the redirect of the URL, the login page navigates to a path of the app: it starts with
-- one slash that neither a slash nor a backslash follows, and holds no query and no fragment.
pub redirect_target-IsLocal :
    (params : Text → List (Text × Text)) (redirect : Option Text)
    → IsLocal (redirect_target params redirect).to
unfolding redirect_target
redirect_target-IsLocal params none = root-IsLocal
redirect_target-IsLocal params (some s) = elim (Bool-cases (is_safe_redirect s)) [
  | inl h ↦ rw (redirect_target-safe params s h) (
      target_of-IsLocal params (until b'#' s) (until_safe b'#' s (ground arith) h)
        (index_of-until b'#' s))
  | inr h ↦ rw (redirect_target-unsafe params s h) root-IsLocal
]

index_of-cons : (c d : ℕ) (s : Text) → index_of (d ∷ s) c ≡ none → (d ≢ c) × (index_of s c ≡ none)
index_of-cons c d s h = ground (arith)

index_of-append :
    (c : ℕ) (s t : Text) → index_of s c ≡ none → index_of t c ≡ none → index_of (s ++ t) c ≡ none
index_of-append c [] t h k = k
index_of-append c (d ∷ s) t h k =
    ground (arith, index_of-append c s t (index_of-cons c d s h).1 k, index_of-cons c d s h)

until-append : (c : ℕ) (s t : Text) → index_of s c ≡ none → until c (s ++ c ∷ t) ≡ s
until-append c [] t h = ground arith
until-append c (d ∷ s) t h =
    ground (arith, until-append c s t (index_of-cons c d s h).1, index_of-cons c d s h)

index_of_split :
    (c : ℕ) (s t : Text) → index_of s c ≡ none → index_of (s ++ c ∷ t) c ≡ some (length s)
index_of_split c [] t h = ground arith
index_of_split c (d ∷ s) t h =
    ground (arith, index_of_split c s t (index_of-cons c d s h).1, index_of-cons c d s h)

drop_split : (c : ℕ) (s t : Text) → drop (suc (length s)) (s ++ c ∷ t) ≡ t
drop_split c [] t = refl
drop_split c (d ∷ s) t = drop_split c s t

take_split : (s t : Text) → take (length s) (s ++ t) ≡ s
take_split [] t = refl
take_split (d ∷ s) t = rw (take_split s t)

safe-append : (s t : Text) → is_safe_redirect s ≡ true → is_safe_redirect (s ++ b'?' ∷ t) ≡ true
unfolding is_safe_redirect
safe-append [] t h = absurd (cc)
safe-append (c ∷ []) t h = ground arith
safe-append (c ∷ d ∷ s) t h = ground arith

target_of_split :
    (params : Text → List (Text × Text)) (s t : Text)
    → is_safe_redirect s ≡ true
    → index_of s b'?' ≡ none
    → target_of params (s ++ b'?' ∷ t) ≡ record { to = s; search = assign_all (params t) [] }
unfolding target_of split_target
target_of_split params s t h n =
    rw (index_of_split b'?' s t n, take_split s (b'?' ∷ t), drop_split b'?' s t, safe-or_root s h)

-- A redirect made of a safe path, a query and a fragment is split back into the path and the
-- entries of the query, and the fragment is dropped. The path holds no question mark and no hash,
-- and the query no hash.
pub redirect_target_parts :
    (params : Text → List (Text × Text)) (path query fragment : Text)
    → is_safe_redirect path ≡ true
    → index_of path b'?' ≡ none
    → index_of path b'#' ≡ none
    → index_of query b'#' ≡ none
    → redirect_target params (some (path ++ b'?' ∷ (query ++ b'#' ∷ fragment)))
      ≡ record { to = path; search = assign_all (params query) [] }
redirect_target_parts params path query fragment safe no_mark no_hash no_hash_q =
    let whole_safe = safe-append path (query ++ b'#' ∷ fragment) safe in
    let before : until b'#' (path ++ b'?' ∷ (query ++ b'#' ∷ fragment)) ≡ path ++ b'?' ∷ query =
      ap (until b'#') (sym (append_assoc path (b'?' ∷ query) (b'#' ∷ fragment)))
      ∙ until-append b'#' (path ++ b'?' ∷ query) fragment
          (index_of-append b'#' path (b'?' ∷ query) no_hash (ground (arith, no_hash_q))) in
    redirect_target-safe params (path ++ b'?' ∷ (query ++ b'#' ∷ fragment)) whole_safe
    ∙ ap (target_of params) before
    ∙ target_of_split params path query safe no_mark
