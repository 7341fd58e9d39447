-- ===== src/Text/Trim.antt =====
-- `String.prototype.trim`: white space and line terminators of ECMAScript.
use kiro_reverse_api.Prelude.{ℕ, Bool, ◌&&◌, ◌||◌, [], ◌∷◌, reverse, leb, ◌==◌, if◌then◌else◌}
use kiro_reverse_api.Text.{Text}

unfoldable pub is_space : ℕ → Bool
is_space c =
    (leb 9 c && leb c 13)
    || c == 32
    || c == 160
    || c == 0x1680
    || (leb 0x2000 c && leb c 0x200a)
    || c == 0x2028
    || c == 0x2029
    || c == 0x202f
    || c == 0x205f
    || c == 0x3000
    || c == 0xfeff

unfoldable pub trim_start : Text → Text
unfolding is_space
trim_start [] = []
trim_start (c ∷ s) = if is_space c then trim_start s else c ∷ s

unfoldable pub trim_end : Text → Text
unfolding trim_start
trim_end s = reverse (trim_start (reverse s))

-- `s.trim()`
unfoldable pub trim : Text → Text
unfolding trim_end
trim s = trim_end (trim_start s)
