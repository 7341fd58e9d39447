-- ===== src/AddAccount.antt =====
-- ui/src/features/add-account: the wizard that adds accounts. Here the login state that the flows
-- share (flow-sessions.ts); the modules below model the flows and what they send.
pub mod Microsoft
pub mod Credentials
pub mod LocalCache
pub mod Lines
pub mod BuilderId
use kiro_reverse_api.Prelude.{
  ℕ, suc, Bool, true, false, ◌||◌, List, [], ◌∷◌, Option, none, some, if◌then◌else◌, ◌==◌,
}
use kiro_reverse_api.Text.{Text, is_full}

-- What the server is told, or tells, about the end of a Microsoft login: a call of
-- `cancelMicrosoftSso` with a session and a selection, or a reply that says the account was saved
-- and the login with it closed.
pub data Ended : Type 0 where
  canceled : Text → Text → Ended
  saved : Text → Ended

-- `class FlowSessions`, with the timers that it set and that neither fired nor were cleared, and
-- the Microsoft logins that ended, the latest first.
pub record FlowSessions : Type 0 where
  pub generation : ℕ
  pub microsoft_session_id : Text
  pub microsoft_selection_id : Text
  pub builder_id_session : Text
  pub builder_id_timer : Option ℕ
  pub iam_session : Text
  pub timers : List ℕ
  pub ended : List Ended

abbrev pub new_sessions : FlowSessions
new_sessions = record {
  generation = 0;
  microsoft_session_id = [];
  microsoft_selection_id = [];
  builder_id_session = [];
  builder_id_timer = none;
  iam_session = [];
  timers = [];
  ended = [];
}

unfoldable pub is_current : ℕ → FlowSessions → Bool
is_current generation st = generation == st.generation

abbrev pub without : ℕ → List ℕ → List ℕ
without i [] = []
without i (t ∷ ts) = if i == t then without i ts else t ∷ without i ts

-- `if (timer) clearTimeout(timer)`
abbrev pub clear_timer : Option ℕ → List ℕ → List ℕ
clear_timer none ts = ts
clear_timer (some i) ts = without i ts

unfoldable pub stop_builder_id : FlowSessions → FlowSessions
stop_builder_id st = record st {
  timers = clear_timer st.builder_id_timer st.timers;
  builder_id_timer = none;
  builder_id_session = [];
}

-- A call of `cancelMicrosoftSso`, where there is a session or a selection to cancel.
abbrev pub cancel_call : Text → Text → List Ended → List Ended
cancel_call session_id selection_id ended =
    if is_full session_id || is_full selection_id
    then canceled session_id selection_id ∷ ended
    else ended

unfoldable pub cancel_microsoft : FlowSessions → FlowSessions
cancel_microsoft st = record st {
  microsoft_session_id = [];
  microsoft_selection_id = [];
  ended = cancel_call st.microsoft_session_id st.microsoft_selection_id st.ended;
}

unfoldable pub reset : Bool → FlowSessions → FlowSessions
unfolding stop_builder_id cancel_microsoft
reset cancel st =
    let st1 = if cancel then cancel_microsoft st else st in
    let st2 =
      stop_builder_id (record st1 { microsoft_session_id = []; microsoft_selection_id = [] }) in
    record st2 { iam_session = []; generation = suc st2.generation }
