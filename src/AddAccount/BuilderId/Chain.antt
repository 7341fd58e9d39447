-- ===== src/AddAccount/BuilderId/Chain.antt =====
-- -- What the polling of ui/src/features/add-account/flows/builder-id-flow.tsx keeps, and counts of polls.
use kiro_reverse_api.Prelude.{
  ℕ, suc, ◌+◌, ◌≤◌, ◌≡◌, refl, Bool, true, false, ◌&&◌, List, [], ◌∷◌, ◌++◌, Option, none, some,
  arith, if◌then◌else◌, ◌==◌, any, All, length,
}
use kiro_reverse_api.Text.{Text, text_eq, is_full}
use kiro_reverse_api.Text.Equality.{text_eq_sym}
use kiro_reverse_api.AddAccount.{clear_timer}
use kiro_reverse_api.AddAccount.BuilderId.{Poll, Flow, without_timer, is_set}

-- A poll whose reply would be taken.
abbrev pub is_live : ℕ → Text → Poll → Bool
is_live g s p = p.generation == g && text_eq s p.session

abbrev pub count_live : ℕ → Text → List Poll → ℕ
count_live g s [] = 0
count_live g s (p ∷ ps) = (if is_live g s p then 1 else 0) + count_live g s ps

abbrev pub held_timers : Option ℕ → List ℕ
held_timers none = []
held_timers (some t) = t ∷ []

abbrev pub IsPast : ℕ → Poll → Type 0
IsPast g p = (p.generation ≤ g) × (is_full p.session ≡ true)

-- The timers that are set are the one that the sessions hold, if any; and there is a timer, or a
-- poll whose reply would be taken, or neither, but never two of them.
pub record IsSingle (f : Flow) : Type 0 where
  pub held : f.sessions.timers ≡ held_timers f.sessions.builder_id_timer
  pub one :
      count_live f.sessions.generation f.sessions.builder_id_session f.polls
        + length f.sessions.timers
      ≤ 1
  pub past : All (IsPast f.sessions.generation) f.polls

-- No timer is set, and no reply that is still to come would be taken.
pub record IsStopped (f : Flow) : Type 0 where
  pub no_timer : f.sessions.timers ≡ []
  pub none_held : f.sessions.builder_id_timer ≡ none
  pub none_live : count_live f.sessions.generation f.sessions.builder_id_session f.polls ≡ 0
  pub past : All (IsPast f.sessions.generation) f.polls

pub stopped-IsSingle : (f : Flow) → IsStopped f → IsSingle f
stopped-IsSingle f h = record {
  held = rw (h.no_timer, h.none_held) refl;
  one = rw (h.no_timer, h.none_live) (omega arith);
  past = h.past;
}

pub count_live_later :
    (g : ℕ) (s : Text) (ps : List Poll) → All (IsPast g) ps → count_live (suc g) s ps ≡ 0
count_live_later g s [] h = refl
count_live_later g s (p ∷ ps) h = ground (arith, count_live_later g s ps h.1)

pub count_live_empty : (g k : ℕ) (ps : List Poll) → All (IsPast k) ps → count_live g [] ps ≡ 0
count_live_empty g k [] h = refl
count_live_empty g k (p ∷ ps) h =
    rw (empty_ne p.session h.0.1) (rest_zero (p.generation == g) (count_live_empty g k ps h.1))
  where
    empty_ne : (s : Text) → is_full s ≡ true → text_eq [] s ≡ false
    empty_ne [] e = absurd (cc)
    empty_ne (c ∷ s) e = refl

    rest_zero : (b : Bool) {n : ℕ} → n ≡ 0 → (if b && false then 1 else 0) + n ≡ 0
    rest_zero true e = omega (arith, e)
    rest_zero false e = omega (arith, e)

pub count_live_fresh :
    (g : ℕ) (s : Text) (ps : List Poll)
    → All (λ (p : Poll). text_eq p.session s ≡ false) ps
    → count_live g s ps ≡ 0
count_live_fresh g s [] h = refl
count_live_fresh g s (p ∷ ps) h =
    ground (arith, count_live_fresh g s ps h.1, text_eq_sym s p.session, h.0)

pub count_live-append :
    (g : ℕ) (s : Text) (p : Poll) (before after : List Poll)
    → count_live g s (before ++ p ∷ after)
      ≡ (if is_live g s p then 1 else 0) + count_live g s (before ++ after)
count_live-append g s p [] after = refl
count_live-append g s p (b ∷ before) after = omega (arith, count_live-append g s p before after)

pub All-split :
    (P : Poll → Type 0) (p : Poll) (before after : List Poll)
    → All P (before ++ p ∷ after)
    → P p × All P (before ++ after)
All-split P p [] after h = h
All-split P p (b ∷ before) after h =
    let rest = All-split P p before after h.1 in (rest.0, (h.0, rest.1))

pub cleared : (t : Option ℕ) (ts : List ℕ) → ts ≡ held_timers t → clear_timer t ts ≡ []
cleared none ts e = e
cleared (some t) ts e = rw e (ground arith)

pub taken :
    (i : ℕ) (t : Option ℕ) (ts : List ℕ)
    → ts ≡ held_timers t
    → is_set i ts ≡ true
    → (without_timer i ts ≡ []) × (length ts ≡ 1)
taken i none ts e s = absurd (ground (arith, e, s))
taken i (some t) ts e s =
    let s' : any (λ u. i == u) (t ∷ []) ≡ true = rw e at s in rw e (ground (arith, s'), refl)
