-- ===== src/Settings/Draft.antt =====
-- ui/src/features/settings/lib/dirty.ts, the draft of a settings card on top of its server copy.
-- Each function gives the next state of the `useDraft` hook; `receive_server` runs at every render.
pub mod Laws
pub mod Equal
mod Tests
use kiro_reverse_api.Prelude.{Bool, true, false, not, ◌&&◌, List, [], ◌∷◌, if◌then◌else◌}

-- `base` is what the draft started from, `seen` the last server copy passed in.
pub record DraftState {ℓ} (T : Type ℓ) : Type ℓ where
  pub base : T
  pub draft : T
  pub seen : T
  pub server_changed : Bool

module _ {ℓ} {T : Type ℓ} where
  unfoldable pub initial_draft_state : T → DraftState T
  initial_draft_state server = record {
    base = server;
    draft = server;
    seen = server;
    server_changed = false;
  }

  unfoldable pub set_draft : (T → T) → DraftState T → DraftState T
  set_draft next st = record st { draft = next st.draft }

  -- `reload`
  unfoldable pub reload : DraftState T → DraftState T
  unfolding initial_draft_state
  reload st = initial_draft_state st.seen

  unfoldable pub commit : T → DraftState T → DraftState T
  commit saved st = record st { base = saved; draft = saved; server_changed = false }

module _ {ℓ} {T : Type ℓ} (equal : T → T → Bool) where
  unfoldable pub receive_server : T → DraftState T → DraftState T
  unfolding initial_draft_state
  receive_server server st =
      if equal st.seen server
      then st
      else if equal st.draft st.base
      then initial_draft_state server
      else record st { seen = server; server_changed = true }

  abbrev pub is_dirty : DraftState T → Bool
  is_dirty st = not (equal st.draft st.base)

  -- The flag that the hook returns.
  abbrev pub shows_change : DraftState T → Bool
  shows_change st = is_dirty st && st.server_changed

  -- One render after another, each with the server copy of that render.
  unfoldable pub receive_all : List T → DraftState T → DraftState T
  receive_all [] st = st
  receive_all (s ∷ ss) st = receive_all ss (receive_server s st)
