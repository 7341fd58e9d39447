-- ===== src/AddAccount/Lines/Keys.antt =====
-- Pasted API keys (ui/src/features/add-account/lib/api-key-lines.ts) against the list of them.
use kiro_reverse_api.Prelude.{◌≡◌, refl, true, false, List, [], ◌∷◌, map, any, keep, All}
use kiro_reverse_api.Text.{Text, is_full, split_on}
use kiro_reverse_api.Text.Trim.{trim, trim_end, trim_start}
use kiro_reverse_api.Text.Lines.{join_lines, split_on_last, split_on_first}
use kiro_reverse_api.AddAccount.Lines.{is_newline, line_request, parse_api_key_lines}

-- A key that fills a line: not empty, with no line end in it and no space around it.
pub record IsLine (k : Text) : Type 0 where
  pub full : is_full k ≡ true
  pub one_line : any is_newline k ≡ false
  pub trimmed : trim k ≡ k

kept :
    (k : Text) (ks : List Text)
    → IsLine k
    → keep is_full (map trim (k ∷ ks)) ≡ k ∷ keep is_full (map trim ks)
kept k ks h = rw (h.trimmed, h.full) refl

keep-join_lines :
    (ks : List Text)
    → All IsLine ks
    → keep is_full (map trim (split_on is_newline (join_lines ks))) ≡ ks
unfolding trim trim_end trim_start
keep-join_lines [] h = refl
keep-join_lines (k ∷ []) h = rw (split_on_last is_newline k h.0.one_line) (kept k [] h.0)
keep-join_lines (k ∷ l ∷ ks) h =
    rw (split_on_first is_newline k 10 (join_lines (l ∷ ks)) h.0.one_line refl) (
      rw (kept k (split_on is_newline (join_lines (l ∷ ks))) h.0, keep-join_lines (l ∷ ks) h.1)
        refl)

-- Keys pasted one per line give one request per key, in their order. Each key is not empty, holds no
-- line end and has no space around it.
pub parse_api_key_lines-join_lines :
    (ks : List Text) (region : Text)
    → All IsLine ks
    → parse_api_key_lines (join_lines ks) region ≡ map (line_request region) ks
unfolding parse_api_key_lines
parse_api_key_lines-join_lines ks region h = rw (keep-join_lines ks h)
