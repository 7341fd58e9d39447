-- ===== src/Events/Handlers/Hearing.antt =====
-- What the handlers of ui/src/lib/events/admin-events.tsx hear between their mounts and unmounts.
use mathlib.Core.List.{append_assoc, append-nil}
use kiro_reverse_api.Prelude.{
  ℕ, ◌<◌, ◌≡◌, ◌≢◌, refl, ap, sym, ◌∙◌, List, [], ◌∷◌, ◌++◌, arith, All, Option, Bool-cases, inl,
  inr, if_keeps,
}
use kiro_reverse_api.Text.{Text}
use kiro_reverse_api.Events.{is_repeat, seq_after}
use kiro_reverse_api.Events.Kinds.{EventType, AdminEvent}
use kiro_reverse_api.Events.Handlers.{
  Entry, Registry, new_registry, mount, unmount, calls_for, call_handlers, Change, mounts, unmounts,
  connects, arrives, take_event, apply, apply_all,
}
use kiro_reverse_api.Events.Handlers.Telling.{arrived, arrived_one, next_seq, told, arrived-told}
use kiro_reverse_api.Events.Handlers.Held.{
  heard, IsFree, IsHeld, heard-append, heard_free, heard_held, IsFree-append, IsHeld-append,
  IsFree-remove_entry, IsHeld-remove_entry, remove_entry-IsFree, held_head, held_tail,
}
use kiro_reverse_api.Events.Handlers.Numbers.{IsValid, apply_all-IsValid, nothing_heard}

abbrev LeavesOne : ℕ → Change → Type 0
LeavesOne id (mounts t) = Unit
LeavesOne id (unmounts t i) = i ≢ id
LeavesOne id connects = Unit
LeavesOne id (arrives event) = Unit

-- No change takes this entry out.
abbrev pub Leaves : ℕ → List Change → Type 0
Leaves id cs = All (LeavesOne id) cs

-- What holds between the mount and the unmount.
record IsMounted (type : EventType) (id : ℕ) (r : Registry) : Type 0 where
  held : IsHeld type id r.entries
  used : id < r.fresh

-- What holds after the unmount.
record IsGone (id : ℕ) (r : Registry) : Type 0 where
  free : IsFree id r.entries
  used : id < r.fresh

mount-IsMounted :
    (type : EventType) (r : Registry) → IsValid r → IsMounted type r.fresh (mount type r)
unfolding mount
mount-IsMounted type r h = record { held = last_held r.entries h.held_below; used = omega arith }
  where
    last_held :
        (es : List Entry)
        → All (λ (e : Entry). e.id < r.fresh) es
        → IsHeld type r.fresh (es ++ record { type = type; id = r.fresh } ∷ [])
    last_held [] k =
        held_head type r.fresh (record { type = type; id = r.fresh }) [] (ground arith)
          (ground arith) tt
    last_held (e ∷ es) k =
        held_tail type r.fresh e (es ++ record { type = type; id = r.fresh } ∷ [])
          (ground (arith, k.0)) (last_held es k.1)

-- What a change does to an entry that is mounted.
record Hears (type : EventType) (id : ℕ) (c : Change) (r r' : Registry) : Type 0 where
  mounted : IsMounted type id r'
  told_now : heard id r'.calls ≡ heard id r.calls ++ arrived_one type r.observe_seq c
  seq_now : r'.observe_seq ≡ next_seq r.observe_seq c

arrives-Hears :
    (type : EventType) (id : ℕ) (event : AdminEvent) (r : Registry)
    → IsMounted type id r
    → Hears type id (arrives event) r (take_event event r)
unfolding take_event call_handlers
arrives-Hears type id event r h =
    elim (Bool-cases (is_repeat event.type event.payload r.observe_seq)) [
      | inl e ↦ rw e (record {
        mounted = h;
        told_now = rw e (sym (append-nil (heard id r.calls)));
        seq_now = rw e refl;
      })
      | inr e ↦ rw e (record {
        mounted = record { held = h.held; used = h.used };
        told_now = rw e (
            heard-append id r.calls (calls_for event r.entries)
            ∙ ap (λ es. heard id r.calls ++ es) (heard_held type id event r.entries h.held));
        seq_now = rw e refl;
      })
    ]

apply-Hears :
    (type : EventType) (id : ℕ) (c : Change) (r : Registry)
    → LeavesOne id c
    → IsMounted type id r
    → Hears type id c r (apply c r)
unfolding apply mount unmount
apply-Hears type id (mounts t) r l h = record {
  mounted = record {
    held =
        IsHeld-append type id r.entries (record { type = t; id = r.fresh }) h.held
          (ground (arith, h.used));
    used = omega (arith, h.used);
  };
  told_now = sym (append-nil (heard id r.calls));
  seq_now = refl;
}
apply-Hears type id (unmounts t i) r l h = record {
  mounted = record { held = IsHeld-remove_entry type id t i r.entries l h.held; used = h.used };
  told_now = sym (append-nil (heard id r.calls));
  seq_now = refl;
}
apply-Hears type id connects r l h = record {
  mounted = record { held = h.held; used = h.used };
  told_now = sym (append-nil (heard id r.calls));
  seq_now = refl;
}
apply-Hears type id (arrives event) r l h = arrives-Hears type id event r h

apply_all-heard :
    (type : EventType) (id : ℕ) (cs : List Change) (r : Registry)
    → Leaves id cs
    → IsMounted type id r
    → IsMounted type id (apply_all cs r)
      × (heard id (apply_all cs r).calls ≡ heard id r.calls ++ arrived type r.observe_seq cs)
apply_all-heard type id [] r l h = (h, sym (append-nil (heard id r.calls)))
apply_all-heard type id (c ∷ cs) r l h =
    let one = apply-Hears type id c r l.0 h in
    let (m, e) = apply_all-heard type id cs (apply c r) l.1 one.mounted in
    (
      m,
      e
          ∙ ap (λ q. heard id (apply c r).calls ++ arrived type q cs) one.seq_now
          ∙ ap (λ es. es ++ arrived type (next_seq r.observe_seq c) cs) one.told_now
          ∙ append_assoc (heard id r.calls) (arrived_one type r.observe_seq c)
              (arrived type (next_seq r.observe_seq c) cs),
    )

-- What a change does to an entry that is gone.
record Silent (id : ℕ) (r r' : Registry) : Type 0 where
  gone : IsGone id r'
  same : heard id r'.calls ≡ heard id r.calls

call_handlers-Silent :
    (id : ℕ) (event : AdminEvent) (seq : Option Text) (r : Registry)
    → IsGone id r
    → Silent id r (call_handlers event (record r { observe_seq = seq }))
unfolding call_handlers
call_handlers-Silent id event seq r h = record {
  gone = record { free = h.free; used = h.used };
  same =
      heard-append id r.calls (calls_for event r.entries)
      ∙ ap (λ es. heard id r.calls ++ es) (heard_free id event r.entries h.free)
      ∙ append-nil (heard id r.calls);
}

apply-Silent : (id : ℕ) (c : Change) (r : Registry) → IsGone id r → Silent id r (apply c r)
unfolding apply mount unmount take_event
apply-Silent id (mounts t) r h = record {
  gone = record {
    free =
        IsFree-append id r.entries (record { type = t; id = r.fresh }) h.free
          (ground (arith, h.used));
    used = omega (arith, h.used);
  };
  same = refl;
}
apply-Silent id (unmounts t i) r h = record {
  gone = record { free = IsFree-remove_entry id t i r.entries h.free; used = h.used };
  same = refl;
}
apply-Silent id connects r h = record {
  gone = record { free = h.free; used = h.used };
  same = refl;
}
apply-Silent id (arrives event) r h =
    if_keeps (Silent id r) (is_repeat event.type event.payload r.observe_seq)
      (record { gone = h; same = refl })
      (call_handlers-Silent id event (seq_after event.type event.payload r.observe_seq) r h)

gone_all :
    (id : ℕ) (cs : List Change) (r : Registry)
    → IsGone id r
    → heard id (apply_all cs r).calls ≡ heard id r.calls
gone_all id [] r h = refl
gone_all id (c ∷ cs) r h =
    let one = apply-Silent id c r h in gone_all id cs (apply c r) one.gone ∙ one.same

-- The entry is new: it has heard nothing before its mount.
mount_calls :
    (type : EventType) (r : Registry) → IsValid r → heard r.fresh (mount type r).calls ≡ []
unfolding mount
mount_calls type r h = nothing_heard r.fresh r.calls h.called_below

mount-observe_seq : (type : EventType) (r : Registry) → (mount type r).observe_seq ≡ r.observe_seq
unfolding mount
mount-observe_seq type r = refl

unmount-IsGone :
    (type : EventType) (id : ℕ) (r : Registry)
    → IsMounted type id r
    → IsGone id (unmount type id r) × (heard id (unmount type id r).calls ≡ heard id r.calls)
unfolding unmount
unmount-IsGone type id r m =
    (record { free = remove_entry-IsFree type id r.entries m.held; used = m.used }, refl)

-- From its mount to its unmount a handler hears every event of its type, once and in order, but of
-- the ticks only those that do not repeat the last counter of their connection. It hears nothing
-- before or after, whatever other handlers are mounted and unmounted meanwhile and however often.
pub handler_hears :
    (type : EventType) (before during after : List Change)
    → Leaves (apply_all before new_registry).fresh during
    → let r = apply_all before new_registry in
      heard r.fresh (apply_all after (unmount type r.fresh (apply_all during (mount type r)))).calls
      ≡ told type (apply_all before new_registry).observe_seq during
handler_hears type before during after l =
    let r = apply_all before new_registry in
    let valid =
      apply_all-IsValid before new_registry (record { held_below = tt; called_below = tt }) in
    let (m, hears) =
      apply_all-heard type r.fresh during (mount type r) l (mount-IsMounted type r valid) in
    let (gone, same) = unmount-IsGone type r.fresh (apply_all during (mount type r)) m in
    gone_all r.fresh after (unmount type r.fresh (apply_all during (mount type r))) gone
    ∙ same
    ∙ hears
    ∙ ap (λ es. es ++ arrived type (mount type r).observe_seq during) (mount_calls type r valid)
    ∙ ap (λ q. arrived type q during) (mount-observe_seq type r)
    ∙ arrived-told type r.observe_seq during
