-- ===== src/AddAccount/Microsoft/Single.antt =====
-- The state that the dialog keeps in step with its requests: the mounted flow has at most one
-- request under way, it is of the flow's stage, and an idle flow holds no login.
use kiro_reverse_api.Prelude.{
  ◌≤◌, ◌≡◌, refl, Bool, true, false, List, ◌∷◌, ◌++◌, inl, inr, arith, ◌==◌, All, if◌then◌else◌,
  Bool-cases, sym,
}
use mathlib.Core.Path.{subst}
use kiro_reverse_api.AddAccount.{is_current, reset, stop_builder_id}
use kiro_reverse_api.AddAccount.Microsoft.{
  Stage, idle, kiro, microsoft, profile, Request, start_sso, complete_sso, select_profile, Reply,
  started, completed, selecting, continued, selected, failed, Pending, Dialog, leave, finish,
  accept, cancel_late, note_begun, end_step, Step, submits, leaves, replies, Reach, here, next,
  new_dialog,
}
use kiro_reverse_api.AddAccount.Microsoft.Valid.{
  count_of, IsKnown, HoldsNone, IsValid, count_of-append, All-split, known_later, count_of_later,
  known_moved, leave-IsValid, submit-IsValid,
}

-- What a reply to the mounted flow finds: no other request of it.
pub record IsAnswered (d : Dialog) : Type 0 where
  pub none_left : count_of d.sessions.generation d.pending ≡ 0
  pub known : All (IsKnown d.sessions.generation d.stage) d.pending
  pub empty : HoldsNone d.stage d.sessions.microsoft_session_id
  pub ready : d.busy ≡ false

answered-IsValid : (d : Dialog) → IsAnswered d → IsValid d
answered-IsValid d h = record {
  single = ground (arith, h.none_left, h.ready);
  known = h.known;
  empty = h.empty;
}

finish-IsValid : (d : Dialog) → IsAnswered d → IsValid (finish d)
unfolding finish leave reset stop_builder_id
finish-IsValid d h = record {
  single = omega (arith, count_of_later d.sessions.generation d.stage d.pending h.known);
  known = known_later d.sessions.generation d.stage idle d.pending h.known;
  empty = refl;
}

moved : (d : Dialog) (t : Stage) → IsAnswered d → All (IsKnown d.sessions.generation t) d.pending
moved d t h = known_moved d.sessions.generation d.stage t d.pending h.none_left h.known

accept-IsValid : (q : Request) (r : Reply q) (d : Dialog) → IsAnswered d → IsValid (accept q r d)
unfolding accept
accept-IsValid start_sso (started session_id) d h = record {
  single = ground (arith, h.none_left, h.ready);
  known = moved d kiro h;
  empty = tt;
}
accept-IsValid complete_sso completed d h = finish-IsValid d h
accept-IsValid complete_sso (selecting selection_id) d h = record {
  single = ground (arith, h.none_left, h.ready);
  known = moved d profile h;
  empty = tt;
}
accept-IsValid complete_sso continued d h = record {
  single = ground (arith, h.none_left, h.ready);
  known = moved d microsoft h;
  empty = tt;
}
accept-IsValid select_profile selected d h = finish-IsValid d h
accept-IsValid start_sso (failed _) d h = answered-IsValid d h
accept-IsValid complete_sso (failed _) d h = answered-IsValid d h
accept-IsValid select_profile (failed _) d h = answered-IsValid d h

module _ (before after : List Pending) (p : Pending) (r : Reply p.request) (d : Dialog)
    (e : d.pending ≡ before ++ p ∷ after) (h : IsValid d) where
  -- The dialog when the reply is there, its request taken out of those under way.
  abbrev pub replied : Dialog
  replied = record d { pending = before ++ after }

  known_all : All (IsKnown d.sessions.generation d.stage) (before ++ p ∷ after)
  known_all = subst (λ ps. All (IsKnown d.sessions.generation d.stage) ps) e h.known

  single_all : count_of d.sessions.generation (before ++ p ∷ after) ≤ (if d.busy then 1 else 0)
  single_all =
      subst (λ ps. count_of d.sessions.generation ps ≤ (if d.busy then 1 else 0)) e h.single

  pub known_reply :
      IsKnown d.sessions.generation d.stage p
      × All (IsKnown d.sessions.generation d.stage) (before ++ after)
  known_reply = All-split (IsKnown d.sessions.generation d.stage) p before after known_all

  pub reply-IsAnswered :
      p.generation ≡ d.sessions.generation
      → IsAnswered (record (note_begun p.request r replied) { busy = false })
  reply-IsAnswered g = record {
    none_left = ground (arith, count_of-append d.sessions.generation p before after, single_all, g);
    known = known_reply.1;
    empty = h.empty;
    ready = refl;
  }

  late-IsValid : IsValid (cancel_late p.request r (note_begun p.request r replied))
  unfolding cancel_late
  late-IsValid = record {
    single = omega (arith, count_of-append d.sessions.generation p before after, single_all);
    known = known_reply.1;
    empty = h.empty;
  }

  end_step-IsValid : IsValid (end_step p p.request r replied)
  unfolding end_step is_current
  end_step-IsValid = elim (Bool-cases (p.generation == d.sessions.generation)) [
    | inl c ↦
        subst (λ b. IsValid (outcome b)) (sym c)
          (accept-IsValid p.request r _ (reply-IsAnswered (ground (arith, c))))
    | inr c ↦ subst (λ b. IsValid (outcome b)) (sym c) late-IsValid
  ]
    where
      outcome : Bool → Dialog
      outcome b =
          if b
          then accept p.request r (record (note_begun p.request r replied) { busy = false })
          else cancel_late p.request r (note_begun p.request r replied)

pub Step-IsValid : {d e : Dialog} → Step d e → IsValid d → IsValid e
Step-IsValid (submits d callback selected_arn) h =
    submit-IsValid d.stage callback selected_arn d refl h
Step-IsValid (leaves d) h = leave-IsValid true d h
Step-IsValid (replies before after p r d e) h = end_step-IsValid before after p r d e h

-- In every order of submits, replies and ways out, the flow on screen has at most one request under
-- way, and exactly then it is busy or has none, that request is one its stage makes, and a flow
-- that is idle holds no login.
pub Reach-IsValid : {d : Dialog} → Reach new_dialog d → IsValid d
Reach-IsValid here = record { single = omega arith; known = tt; empty = refl }
Reach-IsValid (next r s) = Step-IsValid s (Reach-IsValid r)
