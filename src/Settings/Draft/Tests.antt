-- ===== src/Settings/Draft/Tests.antt =====
-- Drafts of numbers.
use kiro_reverse_api.Prelude.{ℕ, ◌≡◌, refl, true, false, [], ◌∷◌, ◌==◌, arith}
use kiro_reverse_api.Settings.Draft.{
  DraftState, initial_draft_state, set_draft, receive_server, receive_all,
}
use kiro_reverse_api.Settings.Draft.Laws.{edits_survive}

eq_self : (n : ℕ) → (n == n) ≡ true
eq_self n = ground arith

abbrev edited : DraftState ℕ
edited = record { base = 1; draft = 5; seen = 1; server_changed = false }

edited_from_start : set_draft (λ n. 5) (initial_draft_state 1) ≡ edited
unfolding set_draft initial_draft_state
edited_from_start = refl

edits_survive_example : (receive_server ◌==◌ 3 (receive_all ◌==◌ (2 ∷ []) edited)).draft ≡ 5
edits_survive_example = (edits_survive ◌==◌ eq_self (2 ∷ []) 3 edited refl).0
