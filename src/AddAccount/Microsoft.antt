-- ===== src/AddAccount/Microsoft.antt =====
-- ui/src/features/add-account/flows/microsoft-flow.tsx inside add-account-dialog.tsx: the requests
-- of a Microsoft sign-in, whose replies may arrive after the user has left the flow.
pub mod Valid
pub mod Single
pub mod Logins
pub mod Balance
mod Tests
use kiro_reverse_api.Prelude.{ℕ, ◌≡◌, Bool, true, false, not, List, [], ◌∷◌, ◌++◌, if◌then◌else◌}
use kiro_reverse_api.Text.{Text, is_full}
use kiro_reverse_api.Text.Trim.{trim}
use kiro_reverse_api.AddAccount.{FlowSessions, saved, new_sessions, is_current, cancel_call, reset}

pub data Stage : Type 0 where
  idle kiro microsoft profile : Stage

pub data Request : Type 0 where
  start_sso complete_sso select_profile : Request

-- The replies that each request can have. `failed` is a rejected promise.
pub data Reply : Request → Type 0 where
  started : Text → Reply start_sso
  completed : Reply complete_sso
  selecting : Text → Reply complete_sso
  continued : Reply complete_sso
  selected : Reply select_profile
  failed : (q : Request) → Reply q

-- A request under way, with the generation that `step` noted before it.
pub record Pending : Type 0 where
  pub generation : ℕ
  pub request : Request

-- The dialog with its Microsoft flow: `busy` is the `busyRef` of the mounted flow, and `begun` the
-- sessions that replies to `startMicrosoftSso` gave, the latest first.
pub record Dialog : Type 0 where
  pub sessions : FlowSessions
  pub stage : Stage
  pub busy : Bool
  pub pending : List Pending
  pub begun : List Text

abbrev pub new_dialog : Dialog
new_dialog = record {
  sessions = new_sessions;
  stage = idle;
  busy = false;
  pending = [];
  begun = [];
}

abbrev pub pending_of : Request → Dialog → Pending
pending_of q d = record { generation = d.sessions.generation; request = q }

-- `step` up to its await.
unfoldable pub begin_step : Request → Dialog → Dialog
begin_step q d =
    if d.busy then d else record d { busy = true; pending = pending_of q d ∷ d.pending }

-- The requests that `onSubmit` makes, `callback` and `selected_arn` being what the form holds.
unfoldable pub submit : Stage → Text → Text → Dialog → Dialog
unfolding begin_step
submit idle callback selected_arn d = begin_step start_sso d
submit profile callback selected_arn d =
    if is_full selected_arn then begin_step select_profile d else d
submit kiro callback selected_arn d =
    if is_full (trim callback) then begin_step complete_sso d else d
submit microsoft callback selected_arn d =
    if is_full (trim callback) then begin_step complete_sso d else d

-- Every way out of the flow resets the sessions and unmounts it; the next visit starts anew.
unfoldable pub leave : Bool → Dialog → Dialog
unfolding reset
leave cancel d = record d { sessions = reset cancel d.sessions; stage = idle; busy = false }

-- `done`, with the reset of `finishAdd`.
unfoldable pub finish : Dialog → Dialog
unfolding leave
finish d = leave false (record d {
  sessions = record (d.sessions) {
    microsoft_session_id = [];
    microsoft_selection_id = [];
    ended = saved d.sessions.microsoft_session_id ∷ d.sessions.ended;
  };
})

-- `apply` of each request.
unfoldable pub accept : (q : Request) → Reply q → Dialog → Dialog
unfolding finish
accept start_sso (started session_id) d = record d {
  sessions = record (d.sessions) { microsoft_session_id = session_id };
  stage = kiro;
}
accept complete_sso completed d = finish d
accept complete_sso (selecting selection_id) d = record d {
  sessions = record (d.sessions) { microsoft_selection_id = selection_id };
  stage = profile;
}
accept complete_sso continued d = record d { stage = microsoft }
accept select_profile selected d = finish d
accept q (failed _) d = d

-- The `sessionId` and the `selectionId` of a late reply, "" where it has none.
abbrev late_session : (q : Request) → Reply q → Text
late_session start_sso (started session_id) = session_id
late_session q r = []

abbrev late_selection : (q : Request) → Reply q → Text
late_selection complete_sso (selecting selection_id) = selection_id
late_selection q r = []

unfoldable pub cancel_late : (q : Request) → Reply q → Dialog → Dialog
cancel_late q r d = record d {
  sessions = record (d.sessions) {
    ended = cancel_call (late_session q r) (late_selection q r) d.sessions.ended;
  };
}

abbrev pub note_begun : (q : Request) → Reply q → Dialog → Dialog
note_begun q r d = record d {
  begun = if is_full (late_session q r) then late_session q r ∷ d.begun else d.begun;
}

-- `step` from its await on. A reply of the current generation is one to the mounted flow.
unfoldable pub end_step : Pending → (q : Request) → Reply q → Dialog → Dialog
unfolding accept cancel_late is_current
end_step p q r d =
    if is_current p.generation d.sessions
    then accept q r (record (note_begun q r d) { busy = false })
    else cancel_late q r (note_begun q r d)

-- What happens to the dialog, in any order.
pub data Step : Dialog → Dialog → Type 0 where
  submits :
      (d : Dialog) (callback selected_arn : Text) → Step d (submit d.stage callback selected_arn d)
  leaves : (d : Dialog) → Step d (leave true d)
  replies :
      (before after : List Pending) (p : Pending) (r : Reply p.request) (d : Dialog)
      → d.pending ≡ before ++ p ∷ after
      → Step d (end_step p p.request r (record d { pending = before ++ after }))

pub data Reach (s : Dialog) : Dialog → Type 0 where
  here : Reach s s
  next : {t u : Dialog} → Reach s t → Step t u → Reach s u
