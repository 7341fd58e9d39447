-- ===== src/Redirect/Tests.antt =====
-- Redirects at concrete paths.
use kiro_reverse_api.Prelude.{◌≡◌, refl, List, [], ◌∷◌, some}
use kiro_reverse_api.Text.{Text, codes}
use kiro_reverse_api.Redirect.{redirect_target, is_safe_redirect}
use kiro_reverse_api.Redirect.Laws.{redirect_target-IsLocal, IsLocal}

-- Stands for the entries of URLSearchParams: the whole query is one value.
abbrev one_value : Text → List (Text × Text)
one_value s = (codes "q", s) ∷ []

other_host :
    redirect_target one_value (some (codes "//evil.example/x"))
    ≡ record { to = codes "/"; search = [] }
unfolding redirect_target is_safe_redirect
other_host = refl

redirect_target-IsLocal_example :
    IsLocal (redirect_target one_value (some (codes "/requests?page=2"))).to
redirect_target-IsLocal_example =
    redirect_target-IsLocal one_value (some (codes "/requests?page=2"))
