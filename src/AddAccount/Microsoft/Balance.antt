-- ===== src/AddAccount/Microsoft/Balance.antt =====
-- The logins of ui/src/features/add-account/flows/microsoft-flow.tsx, counted.
use kiro_reverse_api.Prelude.{
  ℕ, ◌+◌, ◌≡◌, refl, true, List, [], ◌∷◌, Option, none, some, arith, if◌then◌else◌,
}
use kiro_reverse_api.Text.{Text, text_eq}
use kiro_reverse_api.AddAccount.{reset, stop_builder_id, cancel_microsoft}
use kiro_reverse_api.AddAccount.Microsoft.{Dialog, leave, leaves, Reach, next, new_dialog}
use kiro_reverse_api.AddAccount.Microsoft.Logins.{
  Logins, Change, stays, begins, ends, refuses, Changes, same, more, view, Reach-Changes,
}

abbrev pub count_text : Text → List Text → ℕ
count_text id [] = 0
count_text id (t ∷ ts) = (if text_eq id t then 1 else 0) + count_text id ts

abbrev pub count_held : Text → Option Text → ℕ
count_held id none = 0
count_held id (some t) = if text_eq id t then 1 else 0

abbrev pub IsBalanced : Logins → Type 0
IsBalanced l = (id : Text) → count_text id l.begun ≡ count_held id l.held + count_text id l.over

Change-IsBalanced : {l m : Logins} → Change l m → IsBalanced l → IsBalanced m
Change-IsBalanced (stays l) h id = h id
Change-IsBalanced (begins t begun over) h id = omega (arith, h id)
Change-IsBalanced (ends t begun over) h id = omega (arith, h id)
Change-IsBalanced (refuses t held begun over) h id = omega (arith, h id)

Changes-IsBalanced : {l : Logins} → Changes (view new_dialog) l → IsBalanced l
Changes-IsBalanced same id = refl
Changes-IsBalanced (more c s) id = Change-IsBalanced s (Changes-IsBalanced c) id

-- In every order of submits, replies and ways out, each login that began is the one that the dialog
-- holds or ended, as often as it began: none is left open at the server and none is ended twice.
pub Reach-IsBalanced : {d : Dialog} → Reach new_dialog d → IsBalanced (view d)
Reach-IsBalanced r id = Changes-IsBalanced (Reach-Changes r) id

-- After a way out every login that began has ended.
pub leave-ended :
    {d : Dialog}
    → Reach new_dialog d
    → (id : Text) → let l = view (leave true d) in count_text id l.begun ≡ count_text id l.over
unfolding leave reset stop_builder_id cancel_microsoft
leave-ended {d = d} r id = omega (arith, Reach-IsBalanced (next r (leaves d)) id)
