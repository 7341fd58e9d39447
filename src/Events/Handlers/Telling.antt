-- ===== src/Events/Handlers/Telling.antt =====
-- Which of the events that arrive a handler of ui/src/lib/events/admin-events.tsx is called with.
use kiro_reverse_api.Prelude.{
  ◌≡◌, refl, ap, ◌∙◌, Bool, true, false, List, [], ◌∷◌, ◌++◌, Option, none, some, if◌then◌else◌,
  Bool-cases, inl, inr,
}
use kiro_reverse_api.Text.{Text, text_eq}
use kiro_reverse_api.Events.{is_repeat, seq_after}
use kiro_reverse_api.Events.Kinds.{
  EventType, hello, observe_tick, backup_created, backup_restored, backup_deleted, accounts_changed,
  api_keys_changed, settings_changed, stats_reset, AdminEvent, same_type,
}
use kiro_reverse_api.Events.Handlers.{Change, mounts, unmounts, connects, arrives}
use kiro_reverse_api.Events.Handlers.Held.{events_of}

-- Every event of this type
abbrev pub all_of : EventType → List Change → List AdminEvent
all_of type [] = []
all_of type (arrives event ∷ cs) =
    if same_type type event.type then event ∷ all_of type cs else all_of type cs
all_of type (mounts t ∷ cs) = all_of type cs
all_of type (unmounts t i ∷ cs) = all_of type cs
all_of type (connects ∷ cs) = all_of type cs

abbrev repeats : Option Text → Option Text → Bool
repeats last none = false
repeats none (some counter) = false
repeats (some last) (some counter) = text_eq counter last

abbrev last_counter : Option Text → Option Text → Option Text
last_counter last none = last
last_counter last (some counter) = some counter

-- Every tick but those that repeat the counter before them on the same connection; a tick without a
-- counter repeats nothing.
abbrev pub new_ticks : Option Text → List Change → List AdminEvent
new_ticks last [] = []
new_ticks last (arrives event ∷ cs) =
    let others = new_ticks last cs in
    let after = new_ticks (last_counter last event.payload) cs in
    if same_type observe_tick event.type
    then if repeats last event.payload then others else event ∷ after
    else others
new_ticks last (mounts t ∷ cs) = new_ticks last cs
new_ticks last (unmounts t i ∷ cs) = new_ticks last cs
new_ticks last (connects ∷ cs) = new_ticks none cs

abbrev pub told : EventType → Option Text → List Change → List AdminEvent
told observe_tick last cs = new_ticks last cs
told hello last cs = all_of hello cs
told backup_created last cs = all_of backup_created cs
told backup_restored last cs = all_of backup_restored cs
told backup_deleted last cs = all_of backup_deleted cs
told accounts_changed last cs = all_of accounts_changed cs
told api_keys_changed last cs = all_of api_keys_changed cs
told settings_changed last cs = all_of settings_changed cs
told stats_reset last cs = all_of stats_reset cs

-- The same, one change at a time, by the tests of the code.
abbrev pub handed : Option Text → AdminEvent → List AdminEvent → List AdminEvent
handed seq event events = if is_repeat event.type event.payload seq then [] else events

abbrev pub arrived_one : EventType → Option Text → Change → List AdminEvent
arrived_one type seq (mounts t) = []
arrived_one type seq (unmounts t i) = []
arrived_one type seq connects = []
arrived_one type seq (arrives event) = handed seq event (events_of type event)

abbrev pub next_seq : Option Text → Change → Option Text
next_seq seq (mounts t) = seq
next_seq seq (unmounts t i) = seq
next_seq seq connects = none
next_seq seq (arrives event) =
    if is_repeat event.type event.payload seq then seq else seq_after event.type event.payload seq

abbrev pub arrived : EventType → Option Text → List Change → List AdminEvent
arrived type seq [] = []
arrived type seq (c ∷ cs) = arrived_one type seq c ++ arrived type (next_seq seq c) cs

tick_step :
    (t : EventType) (p seq : Option Text) (cs : List Change)
    → ((s : Option Text) → arrived observe_tick s cs ≡ new_ticks s cs)
    → let event : AdminEvent = record { type = t; payload = p } in
      arrived observe_tick seq (arrives event ∷ cs) ≡ new_ticks seq (arrives event ∷ cs)
tick_step observe_tick none seq cs ih =
    ap (λ es. record { type = observe_tick; payload = none } ∷ es) (ih seq)
tick_step observe_tick (some p) none cs ih =
    ap (λ es. record { type = observe_tick; payload = some p } ∷ es) (ih (some p))
tick_step observe_tick (some p) (some l) cs ih = elim (Bool-cases (text_eq p l)) [
  | inl e ↦ rw e (ih (some l))
  | inr e ↦ rw e (ap (λ es. record { type = observe_tick; payload = some p } ∷ es) (ih (some p)))
]
tick_step hello p seq cs ih = ih seq
tick_step backup_created p seq cs ih = ih seq
tick_step backup_restored p seq cs ih = ih seq
tick_step backup_deleted p seq cs ih = ih seq
tick_step accounts_changed p seq cs ih = ih seq
tick_step api_keys_changed p seq cs ih = ih seq
tick_step settings_changed p seq cs ih = ih seq
tick_step stats_reset p seq cs ih = ih seq

arrived-new_ticks :
    (seq : Option Text) (cs : List Change) → arrived observe_tick seq cs ≡ new_ticks seq cs
arrived-new_ticks seq [] = refl
arrived-new_ticks seq (mounts t ∷ cs) = arrived-new_ticks seq cs
arrived-new_ticks seq (unmounts t i ∷ cs) = arrived-new_ticks seq cs
arrived-new_ticks seq (connects ∷ cs) = arrived-new_ticks none cs
arrived-new_ticks seq (arrives event ∷ cs) =
    tick_step event.type event.payload seq cs (λ s. arrived-new_ticks s cs)

-- Only ticks are dropped.
repeat-tick : (t : EventType) (p seq : Option Text) → is_repeat t p seq ≡ true → t ≡ observe_tick
repeat-tick observe_tick p seq h = refl
repeat-tick hello p seq h = absurd (cc)
repeat-tick backup_created p seq h = absurd (cc)
repeat-tick backup_restored p seq h = absurd (cc)
repeat-tick backup_deleted p seq h = absurd (cc)
repeat-tick accounts_changed p seq h = absurd (cc)
repeat-tick api_keys_changed p seq h = absurd (cc)
repeat-tick settings_changed p seq h = absurd (cc)
repeat-tick stats_reset p seq h = absurd (cc)

arrived-all_of :
    (type : EventType) (seq : Option Text) (cs : List Change)
    → same_type type observe_tick ≡ false
    → arrived type seq cs ≡ all_of type cs
arrived-all_of type seq [] h = refl
arrived-all_of type seq (mounts t ∷ cs) h = arrived-all_of type seq cs h
arrived-all_of type seq (unmounts t i ∷ cs) h = arrived-all_of type seq cs h
arrived-all_of type seq (connects ∷ cs) h = arrived-all_of type none cs h
arrived-all_of type seq (arrives event ∷ cs) h =
    elim (Bool-cases (is_repeat event.type event.payload seq)) [
      | inl r ↦
          let other : same_type type event.type ≡ false =
            ap (same_type type) (repeat-tick event.type event.payload seq r) ∙ h in
          rw (r, other) (arrived-all_of type seq cs h)
      | inr r ↦
          let rest = arrived-all_of type (seq_after event.type event.payload seq) cs h in
          elim (Bool-cases (same_type type event.type)) [
            | inl s ↦ rw (r, s) (ap (λ es. event ∷ es) rest)
            | inr s ↦ rw (r, s) rest
          ]
    ]

pub arrived-told :
    (type : EventType) (seq : Option Text) (cs : List Change)
    → arrived type seq cs ≡ told type seq cs
arrived-told observe_tick seq cs = arrived-new_ticks seq cs
arrived-told hello seq cs = arrived-all_of hello seq cs refl
arrived-told backup_created seq cs = arrived-all_of backup_created seq cs refl
arrived-told backup_restored seq cs = arrived-all_of backup_restored seq cs refl
arrived-told backup_deleted seq cs = arrived-all_of backup_deleted seq cs refl
arrived-told accounts_changed seq cs = arrived-all_of accounts_changed seq cs refl
arrived-told api_keys_changed seq cs = arrived-all_of api_keys_changed seq cs refl
arrived-told settings_changed seq cs = arrived-all_of settings_changed seq cs refl
arrived-told stats_reset seq cs = arrived-all_of stats_reset seq cs refl
