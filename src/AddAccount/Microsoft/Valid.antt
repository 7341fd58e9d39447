-- ===== src/AddAccount/Microsoft/Valid.antt =====
-- The state that the dialog of Microsoft logins keeps in step with its requests
-- (ui/src/features/add-account/flows), over submits and ways out.
use kiro_reverse_api.Prelude.{
  ℕ, suc, ◌+◌, ◌≤◌, ◌<◌, ◌≡◌, refl, Bool, true, false, List, [], ◌∷◌, ◌++◌, ◌⊎◌, inl, inr, arith,
  ◌==◌, All, All-weaken, if◌then◌else◌, Bool-cases, sym, if_keeps,
}
use mathlib.Core.Path.{subst}
use kiro_reverse_api.Text.{Text, is_full}
use kiro_reverse_api.Text.Trim.{trim}
use kiro_reverse_api.AddAccount.{reset, stop_builder_id, cancel_microsoft}
use kiro_reverse_api.AddAccount.Microsoft.{
  Stage, idle, kiro, microsoft, profile, Request, start_sso, complete_sso, select_profile, Pending,
  Dialog, pending_of, begin_step, submit, leave,
}

abbrev pub count_of : ℕ → List Pending → ℕ
count_of g [] = 0
count_of g (p ∷ ps) = (if p.generation == g then 1 else 0) + count_of g ps

abbrev pub Fits : Request → Stage → Type 0
Fits start_sso s = s ≡ idle
Fits complete_sso s = Unit
Fits select_profile s = Unit

-- A request of an earlier visit, or one that fits the stage of the mounted flow.
abbrev pub IsKnown : ℕ → Stage → Pending → Type 0
IsKnown g s p = (p.generation < g) ⊎ ((p.generation ≡ g) × Fits p.request s)

abbrev pub HoldsNone : Stage → Text → Type 0
HoldsNone idle id = id ≡ []
HoldsNone s id = Unit

pub record IsValid (d : Dialog) : Type 0 where
  pub single : count_of d.sessions.generation d.pending ≤ (if d.busy then 1 else 0)
  pub known : All (IsKnown d.sessions.generation d.stage) d.pending
  pub empty : HoldsNone d.stage d.sessions.microsoft_session_id

pub count_of-append :
    (g : ℕ) (p : Pending) (before after : List Pending)
    → count_of g (before ++ p ∷ after)
      ≡ (if p.generation == g then 1 else 0) + count_of g (before ++ after)
count_of-append g p [] after = refl
count_of-append g p (b ∷ before) after = omega (arith, count_of-append g p before after)

pub All-split :
    (P : Pending → Type 0) (p : Pending) (before after : List Pending)
    → All P (before ++ p ∷ after)
    → P p × All P (before ++ after)
All-split P p [] after h = h
All-split P p (b ∷ before) after h =
    let rest = All-split P p before after h.1 in (rest.0, (h.0, rest.1))

-- A reset makes every request one of an earlier visit.
pub known_later :
    (g : ℕ) (s t : Stage) (ps : List Pending) → All (IsKnown g s) ps → All (IsKnown (suc g) t) ps
known_later g s t ps h =
    All-weaken {P = IsKnown g s} {R = IsKnown (suc g) t} ps (λ p k. ground (arith)) h

pub count_of_later :
    (g : ℕ) (s : Stage) (ps : List Pending) → All (IsKnown g s) ps → count_of (suc g) ps ≡ 0
count_of_later g s [] h = refl
count_of_later g s (p ∷ ps) h = ground (arith, count_of_later g s ps h.1)

-- Where no request is of the mounted flow, its stage may change.
pub known_moved :
    (g : ℕ) (s t : Stage) (ps : List Pending)
    → count_of g ps ≡ 0
    → All (IsKnown g s) ps
    → All (IsKnown g t) ps
known_moved g s t [] z h = tt
known_moved g s t (p ∷ ps) z h = (ground arith, known_moved g s t ps (ground arith) h.1)

pub leave-IsValid : (cancel : Bool) (d : Dialog) → IsValid d → IsValid (leave cancel d)
unfolding leave reset stop_builder_id cancel_microsoft
leave-IsValid true d h = record {
  single = omega (arith, count_of_later d.sessions.generation d.stage d.pending h.known);
  known = known_later d.sessions.generation d.stage idle d.pending h.known;
  empty = refl;
}
leave-IsValid false d h = record {
  single = omega (arith, count_of_later d.sessions.generation d.stage d.pending h.known);
  known = known_later d.sessions.generation d.stage idle d.pending h.known;
  empty = refl;
}

begin_step-IsValid :
    (q : Request) (d : Dialog) → Fits q d.stage → IsValid d → IsValid (begin_step q d)
unfolding begin_step
begin_step-IsValid q d f h =
    let new : Dialog = record d { busy = true; pending = pending_of q d ∷ d.pending } in
    let step : Bool → Dialog = λ b. if b then d else new in
    elim (Bool-cases d.busy) [
      | inl e ↦ subst (λ b. IsValid (step b)) (sym e) h
      | inr e ↦
          subst (λ b. IsValid (step b)) (sym e)
            (record {
              single = ground (arith, h.single);
              known = (inr (refl, f), h.known);
              empty = h.empty;
            })
    ]

pub submit-IsValid :
    (s : Stage) (callback selected_arn : Text) (d : Dialog)
    → d.stage ≡ s
    → IsValid d
    → IsValid (submit s callback selected_arn d)
unfolding submit
submit-IsValid idle callback selected_arn d e h = begin_step-IsValid start_sso d e h
submit-IsValid profile callback selected_arn d e h =
    if_keeps IsValid (is_full selected_arn) (begin_step-IsValid select_profile d tt h) h
submit-IsValid kiro callback selected_arn d e h =
    if_keeps IsValid (is_full (trim callback)) (begin_step-IsValid complete_sso d tt h) h
submit-IsValid microsoft callback selected_arn d e h =
    if_keeps IsValid (is_full (trim callback)) (begin_step-IsValid complete_sso d tt h) h
