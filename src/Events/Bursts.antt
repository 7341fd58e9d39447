-- ===== src/Events/Bursts.antt =====
-- Bursts of events on one connection refetch once.
use mathlib.Core.List.{append_assoc, append-nil}
use mathlib.Core.Path.{subst}
use kiro_reverse_api.Prelude.{
  ◌≡◌, refl, sym, ap, ◌∙◌, Bool, true, false, ◌||◌, List, [], ◌∷◌, ◌++◌, Option, arith,
  if◌then◌else◌, Bool-cases, inl, inr,
}
use kiro_reverse_api.Text.{Text}
use kiro_reverse_api.Events.{
  Events, react, dispatch, set_change_timer, has_timer, drop_timer, change_fires, refetch_all,
  is_repeat, seq_after,
}
use kiro_reverse_api.Events.Kinds.{
  EventType, observe_tick, AdminEvent, is_change_event, change_invalidations, same_type,
}

-- The events of a connection, one after the other.
abbrev pub react_all : List AdminEvent → Events → Events
react_all [] st = st
react_all (e ∷ es) st = react_all es (react e st)

-- Events of one type, with any payloads.
abbrev pub of_type : EventType → List (Option Text) → List AdminEvent
of_type type [] = []
of_type type (p ∷ ps) = record { type = type; payload = p } ∷ of_type type ps

same_type_self : (t : EventType) → same_type t t ≡ true
same_type_self t = ground arith

has_timer-append : (t : EventType) (timers : List EventType) → has_timer t (timers ++ t ∷ []) ≡ true
has_timer-append t [] = ground (arith, same_type_self t)
has_timer-append t (u ∷ us) = ground (arith, has_timer-append t us)

drop_timer-append :
    (t : EventType) (timers : List EventType)
    → has_timer t timers ≡ false
    → drop_timer t (timers ++ t ∷ []) ≡ timers
drop_timer-append t [] h = ground (arith, same_type_self t)
drop_timer-append t (u ∷ us) h = ground (arith, drop_timer-append t us)

react-change :
    (t : EventType) (p : Option Text) (st : Events)
    → is_change_event t ≡ true
    → react (record { type = t; payload = p }) st ≡ record (set_change_timer t st) {
      handled = (set_change_timer t st).handled ++ record { type = t; payload = p } ∷ [];
    }
unfolding react dispatch
react-change EventType.hello p st c = absurd (cc)
react-change EventType.observe_tick p st c = absurd (cc)
react-change EventType.backup_created p st c = absurd (cc)
react-change EventType.backup_restored p st c = absurd (cc)
react-change EventType.backup_deleted p st c = refl
react-change EventType.accounts_changed p st c = refl
react-change EventType.api_keys_changed p st c = refl
react-change EventType.settings_changed p st c = refl
react-change EventType.stats_reset p st c = refl

-- A change event while its timer is pending is handed to the handlers, and that is all.
react-pending :
    (t : EventType) (p : Option Text) (st : Events)
    → is_change_event t ≡ true
    → has_timer t st.change_timers ≡ true
    → react (record { type = t; payload = p }) st
      ≡ record st { handled = st.handled ++ record { type = t; payload = p } ∷ [] }
unfolding set_change_timer
react-pending t p st c h = react-change t p st c ∙ rw (c, h) refl

react-first :
    (t : EventType) (p : Option Text) (st : Events)
    → is_change_event t ≡ true
    → has_timer t st.change_timers ≡ false
    → react (record { type = t; payload = p }) st ≡ record st {
      change_timers = st.change_timers ++ t ∷ [];
      handled = st.handled ++ record { type = t; payload = p } ∷ [];
    }
unfolding set_change_timer
react-first t p st c h = react-change t p st c ∙ rw (c, h) refl

react_all-pending :
    (t : EventType) (ps : List (Option Text)) (st : Events)
    → is_change_event t ≡ true
    → has_timer t st.change_timers ≡ true
    → react_all (of_type t ps) st ≡ record st { handled = st.handled ++ of_type t ps }
react_all-pending t [] st c h = rw (append-nil st.handled) refl
react_all-pending t (p ∷ ps) st c h =
    let e : AdminEvent = record { type = t; payload = p } in
    let st' = record st { handled = st.handled ++ e ∷ [] } in
    ap (react_all (of_type t ps)) (react-pending t p st c h)
    ∙ react_all-pending t ps st' c h
    ∙ ap (λ (es : List AdminEvent). record st { handled = es })
        (append_assoc st.handled (e ∷ []) (of_type t ps))

-- A burst of change events of one type, none of them pending before, refetches once: when its timer
-- fires, the queries of the change are refetched, and nothing else was; each event reached the
-- handlers, in order; and afterwards the state is the one before the burst but for these.
pub react_all-change_fires :
    (t : EventType) (p : Option Text) (ps : List (Option Text)) (st : Events)
    → is_change_event t ≡ true
    → has_timer t st.change_timers ≡ false
    → change_fires t (react_all (of_type t (p ∷ ps)) st) ≡ record st {
      refetched = st.refetched ++ refetch_all (change_invalidations t);
      handled = st.handled ++ of_type t (p ∷ ps);
    }
unfolding change_fires
react_all-change_fires t p ps st c h =
    let e : AdminEvent = record { type = t; payload = p } in
    let st' = record st {
      change_timers = st.change_timers ++ t ∷ [];
      handled = st.handled ++ e ∷ [];
    } in
    ap (change_fires t) (
      ap (react_all (of_type t ps)) (react-first t p st c h)
      ∙ react_all-pending t ps st' c (has_timer-append t st.change_timers))
    ∙ rw (drop_timer-append t st.change_timers h, append_assoc st.handled (e ∷ []) (of_type t ps))
        refl

-- The ticks that bring a new change counter, of those that come after `seq`.
abbrev pub fresh : Option Text → List (Option Text) → List (Option Text)
fresh seq [] = []
fresh seq (p ∷ ps) =
    if is_repeat observe_tick p seq
    then fresh seq ps
    else p ∷ fresh (seq_after observe_tick p seq) ps

react-tick :
    (p : Option Text) (st : Events)
    → react (record { type = observe_tick; payload = p }) st ≡ (
        if is_repeat observe_tick p st.observe_seq then st else record st {
          observe_seq = seq_after observe_tick p st.observe_seq;
          observe_timer = true;
          handled = st.handled ++ record { type = observe_tick; payload = p } ∷ [];
        })
unfolding react dispatch set_change_timer
react-tick p st = refl

abbrev is_filled {ℓ} : {T : Type ℓ} → List T → Bool
is_filled [] = false
is_filled (x ∷ xs) = true

-- What a burst of ticks leaves: nothing refetched, the fresh ticks handled, and a timer if one of
-- them was fresh or one was pending.
abbrev pub TicksDone : List (Option Text) → Events → Events → Type 0
TicksDone ps st st' =
    (st'.refetched ≡ st.refetched)
    × (st'.handled ≡ st.handled ++ of_type observe_tick (fresh st.observe_seq ps))
    × (st'.observe_timer ≡ (st.observe_timer || is_filled (fresh st.observe_seq ps)))

-- The state after a fresh tick.
abbrev ticked : Option Text → Events → Events
ticked p st = record st {
  observe_seq = seq_after observe_tick p st.observe_seq;
  observe_timer = true;
  handled = st.handled ++ record { type = observe_tick; payload = p } ∷ [];
}

or_false : (b : Bool) → b ≡ (b || false)
or_false true = refl
or_false false = refl

or_true : (b : Bool) → true ≡ (b || true)
or_true true = refl
or_true false = refl

react-repeat :
    (p : Option Text) (st : Events)
    → is_repeat observe_tick p st.observe_seq ≡ true
    → react (record { type = observe_tick; payload = p }) st ≡ st
react-repeat p st e = react-tick p st ∙ rw e refl

react-fresh :
    (p : Option Text) (st : Events)
    → is_repeat observe_tick p st.observe_seq ≡ false
    → react (record { type = observe_tick; payload = p }) st ≡ ticked p st
react-fresh p st e = react-tick p st ∙ rw e refl

TicksDone-ticked :
    (p : Option Text) (ps : List (Option Text)) (st st' : Events)
    → is_repeat observe_tick p st.observe_seq ≡ false
    → TicksDone ps (ticked p st) st'
    → TicksDone (p ∷ ps) st st'
TicksDone-ticked p ps st st' e h = rw e (
  h.0,
  h.1
      ∙ append_assoc st.handled (record { type = observe_tick; payload = p } ∷ [])
          (of_type observe_tick (fresh (seq_after observe_tick p st.observe_seq) ps)),
  h.2 ∙ or_true st.observe_timer,
)

-- The ticks of a burst set one timer, refetch nothing before it fires, and reach the handlers but
-- for the repeats of the last change counter.
pub react_all-TicksDone :
    (ps : List (Option Text)) (st : Events)
    → TicksDone ps st (react_all (of_type observe_tick ps) st)
react_all-TicksDone [] st = (refl, sym (append-nil st.handled), or_false st.observe_timer)
react_all-TicksDone (p ∷ ps) st = elim (Bool-cases (is_repeat observe_tick p st.observe_seq)) [
  | inl e ↦
      subst (λ (u : Events). TicksDone (p ∷ ps) st (react_all (of_type observe_tick ps) u))
        (sym (react-repeat p st e)) (rw e (react_all-TicksDone ps st))
  | inr e ↦
      subst (λ (u : Events). TicksDone (p ∷ ps) st (react_all (of_type observe_tick ps) u))
        (sym (react-fresh p st e))
        (TicksDone-ticked p ps st (react_all (of_type observe_tick ps) (ticked p st)) e
          (react_all-TicksDone ps (ticked p st)))
]
