-- ===== src/AddAccount/Microsoft/Logins.antt =====
-- The promise of the dialog about Microsoft logins, which the flow of
-- ui/src/features/add-account/flows/microsoft-flow.tsx and its dialog keep.
use mathlib.Core.Path.{subst}
use kiro_reverse_api.Prelude.{
  ◌≡◌, refl, sym, Bool, true, false, List, [], ◌∷◌, ◌++◌, Option, none, some, arith, ◌==◌,
  if◌then◌else◌, Bool-cases, inl, inr, if_keeps,
}
use kiro_reverse_api.Text.{Text, is_full}
use kiro_reverse_api.Text.Trim.{trim}
use kiro_reverse_api.AddAccount.{
  Ended, canceled, saved, is_current, reset, stop_builder_id, cancel_microsoft, cancel_call,
}
use kiro_reverse_api.AddAccount.Microsoft.{
  Stage, idle, kiro, microsoft, profile, Request, start_sso, complete_sso, select_profile, Reply,
  started, completed, selecting, continued, selected, failed, Pending, Dialog, begin_step, submit,
  leave, finish, accept, cancel_late, note_begun, end_step, Step, submits, leaves, replies, Reach,
  here, next, new_dialog,
}
use kiro_reverse_api.AddAccount.Microsoft.Single.{known_reply, replied, Reach-IsValid}
use kiro_reverse_api.AddAccount.Microsoft.Valid.{IsValid, Fits, HoldsNone}

-- What the promise speaks of: the login that is held, those that began and those that ended.
pub record Logins : Type 0 where
  pub held : Option Text
  pub begun : List Text
  pub over : List Text

abbrev pub logins : Option Text → List Text → List Text → Logins
logins held begun over = record { held = held; begun = begun; over = over }

-- The promise: a login begins when none is held, the one that is held ends, and one that began too
-- late ends at once.
pub data Change : Logins → Logins → Type 0 where
  stays : (l : Logins) → Change l l
  begins :
      (id : Text) (begun over : List Text)
      → Change (logins none begun over) (logins (some id) (id ∷ begun) over)
  ends :
      (id : Text) (begun over : List Text)
      → Change (logins (some id) begun over) (logins none begun (id ∷ over))
  refuses :
      (id : Text) (held : Option Text) (begun over : List Text)
      → Change (logins held begun over) (logins held (id ∷ begun) (id ∷ over))

pub data Changes (s : Logins) : Logins → Type 0 where
  same : Changes s s
  more : {t u : Logins} → Changes s t → Change t u → Changes s u

-- The sessions that ended; a call for a selection alone ends none that the dialog held.
abbrev pub over_of : List Ended → List Text
over_of [] = []
over_of (canceled [] selection ∷ es) = over_of es
over_of (canceled (c ∷ s) selection ∷ es) = (c ∷ s) ∷ over_of es
over_of (saved [] ∷ es) = over_of es
over_of (saved (c ∷ s) ∷ es) = (c ∷ s) ∷ over_of es

abbrev held_of : Text → Option Text
held_of [] = none
held_of (c ∷ s) = some (c ∷ s)

-- What the dialog's state says of the logins.
abbrev pub view : Dialog → Logins
view d = logins (held_of d.sessions.microsoft_session_id) d.begun (over_of d.sessions.ended)

-- Giving up the held login, by a call of `cancelMicrosoftSso` or after the account was saved.
cancel-Change :
    (id selection : Text) (begun : List Text) (es : List Ended)
    → Change
        (logins (held_of id) begun (over_of es))
        (logins none begun (over_of (cancel_call id selection es)))
cancel-Change [] [] begun es = stays _
cancel-Change [] (c ∷ s) begun es = stays _
cancel-Change (c ∷ s) selection begun es = ends (c ∷ s) begun (over_of es)

saved-Change :
    (id : Text) (begun : List Text) (es : List Ended)
    → Change (logins (held_of id) begun (over_of es)) (logins none begun (over_of (saved id ∷ es)))
saved-Change [] begun es = stays _
saved-Change (c ∷ s) begun es = ends (c ∷ s) begun (over_of es)

leave-Change : (d : Dialog) → Change (view d) (view (leave true d))
unfolding leave reset stop_builder_id cancel_microsoft
leave-Change d =
    cancel-Change d.sessions.microsoft_session_id d.sessions.microsoft_selection_id d.begun
      d.sessions.ended

finish-Change : (d : Dialog) → Change (view d) (view (finish d))
unfolding finish leave reset stop_builder_id
finish-Change d = saved-Change d.sessions.microsoft_session_id d.begun d.sessions.ended

begin_step-view : (q : Request) (d : Dialog) → view (begin_step q d) ≡ view d
unfolding begin_step
begin_step-view q d = elim (Bool-cases d.busy) [
  | inl e ↦ ground (arith, e)
  | inr e ↦ ground (arith, e)
]

submit-view :
    (s : Stage) (callback selected_arn : Text) (d : Dialog)
    → view (submit s callback selected_arn d) ≡ view d
unfolding submit
submit-view idle callback selected_arn d = begin_step-view start_sso d
submit-view profile callback selected_arn d =
    if_keeps (λ u. view u ≡ view d) (is_full selected_arn) (begin_step-view select_profile d) refl
submit-view kiro callback selected_arn d =
    if_keeps (λ u. view u ≡ view d) (is_full (trim callback)) (begin_step-view complete_sso d) refl
submit-view microsoft callback selected_arn d =
    if_keeps (λ u. view u ≡ view d) (is_full (trim callback)) (begin_step-view complete_sso d) refl

started-Change :
    (id : Text) (begun over : List Text)
    → Change
        (logins none begun over)
        (logins (held_of id) (if is_full id then id ∷ begun else begun) over)
started-Change [] begun over = stays _
started-Change (c ∷ s) begun over = begins (c ∷ s) begun over

refused-Change :
    (id : Text) (held : Option Text) (begun : List Text) (es : List Ended)
    → Change
        (logins held begun (over_of es))
        (logins held (if is_full id then id ∷ begun else begun) (over_of (cancel_call id [] es)))
refused-Change [] held begun es = stays _
refused-Change (c ∷ s) held begun es = refuses (c ∷ s) held begun (over_of es)

late_selection_over :
    (selection : Text) (es : List Ended) → over_of (cancel_call [] selection es) ≡ over_of es
late_selection_over [] es = refl
late_selection_over (c ∷ s) es = refl

-- No login is held where the flow's request is the one that begins a login.
Begins : Request → Text → Type 0
Begins start_sso id = id ≡ []
Begins complete_sso id = Unit
Begins select_profile id = Unit

accept-Change :
    (q : Request) (r : Reply q) (d : Dialog)
    → Begins q d.sessions.microsoft_session_id
    → Change (view d) (view (accept q r (record (note_begun q r d) { busy = false })))
unfolding accept Begins
accept-Change start_sso (started id) d e =
    subst
      (λ held. Change (logins (held_of held) d.begun (over_of d.sessions.ended)) (
        logins (held_of id) (if is_full id then id ∷ d.begun else d.begun)
          (over_of d.sessions.ended)))
      (sym e) (started-Change id d.begun (over_of d.sessions.ended))
accept-Change complete_sso completed d e = finish-Change (record (d) { busy = false })
accept-Change complete_sso (selecting selection) d e = stays _
accept-Change complete_sso continued d e = stays _
accept-Change select_profile selected d e = finish-Change (record (d) { busy = false })
accept-Change start_sso (failed _) d e = stays _
accept-Change complete_sso (failed _) d e = stays _
accept-Change select_profile (failed _) d e = stays _

late-Change :
    (q : Request) (r : Reply q) (d : Dialog)
    → Change (view d) (view (cancel_late q r (note_begun q r d)))
unfolding cancel_late
late-Change start_sso (started id) d =
    refused-Change id (held_of d.sessions.microsoft_session_id) d.begun d.sessions.ended
late-Change complete_sso completed d = stays _
late-Change complete_sso (selecting selection) d =
    subst (λ over. Change (view d) (logins (view d).held d.begun over))
      (sym (late_selection_over selection d.sessions.ended)) (stays _)
late-Change complete_sso continued d = stays _
late-Change select_profile selected d = stays _
late-Change start_sso (failed _) d = stays _
late-Change complete_sso (failed _) d = stays _
late-Change select_profile (failed _) d = stays _

module _ (before after : List Pending) (p : Pending) (r : Reply p.request) (d : Dialog)
    (e : d.pending ≡ before ++ p ∷ after) (h : IsValid d) where
  -- A request of the mounted flow that begins a login was made where none is held.
  Begins-alone : (q : Request) (s : Stage) (id : Text) → Fits q s → HoldsNone s id → Begins q id
  unfolding Begins
  Begins-alone start_sso s id f k = subst (λ t. HoldsNone t id) f k
  Begins-alone complete_sso s id f k = tt
  Begins-alone select_profile s id f k = tt

  reply-Begins :
      p.generation ≡ d.sessions.generation → Begins p.request d.sessions.microsoft_session_id
  reply-Begins g =
      Begins-alone p.request d.stage d.sessions.microsoft_session_id
        (ground (arith, (known_reply before after p r d e h).0, g)) h.empty

  end_step-Change : Change (view d) (view (end_step p p.request r (replied before after p r d e h)))
  unfolding end_step is_current
  end_step-Change = elim (Bool-cases (p.generation == d.sessions.generation)) [
    | inl c ↦
        subst (λ b. Change (view d) (view (outcome b))) (sym c)
          (accept-Change p.request r (replied before after p r d e h)
            (reply-Begins (ground (arith, c))))
    | inr c ↦
        subst (λ b. Change (view d) (view (outcome b))) (sym c)
          (late-Change p.request r (replied before after p r d e h))
  ]
    where
      outcome : Bool → Dialog
      outcome b =
          if b
          then accept p.request r
              (record (note_begun p.request r (replied before after p r d e h)) { busy = false })
          else cancel_late p.request r (note_begun p.request r (replied before after p r d e h))

-- Each thing that happens to the dialog is a change of the promise.
pub Step-Change : {d e : Dialog} → Step d e → IsValid d → Change (view d) (view e)
Step-Change (submits d callback selected_arn) h =
    subst (λ l. Change (view d) l) (sym (submit-view d.stage callback selected_arn d))
      (stays (view d))
Step-Change (leaves d) h = leave-Change d
Step-Change (replies before after p r d e) h = end_step-Change before after p r d e h

-- In every order of submits, replies and ways out, what the dialog says to the server of its logins
-- is a history of the promise.
pub Reach-Changes : {d : Dialog} → Reach new_dialog d → Changes (view new_dialog) (view d)
Reach-Changes here = same
Reach-Changes (next r s) = more (Reach-Changes r) (Step-Change s (Reach-IsValid r))
