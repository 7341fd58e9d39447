-- ===== src/Events/Handlers/Numbers.antt =====
-- The numbers of the entries of ui/src/lib/events/admin-events.tsx are new at their mounts.
use kiro_reverse_api.Prelude.{
  ℕ, suc, ◌<◌, ◌≡◌, refl, false, List, [], ◌∷◌, ◌==◌, arith, All, All-append, All-weaken, if_keeps,
  ◌&&◌,
}
use kiro_reverse_api.Events.{is_repeat}
use kiro_reverse_api.Events.Kinds.{EventType, AdminEvent, same_type}
use kiro_reverse_api.Events.Handlers.{
  Entry, Called, Registry, mount, unmount, remove_entry, calls_for, call_handlers, Change, mounts,
  unmounts, connects, arrives, take_event, apply, apply_all,
}
use kiro_reverse_api.Events.Handlers.Held.{heard}

-- Every number in use is below the next one.
pub record IsValid (r : Registry) : Type 0 where
  pub held_below : All (λ (e : Entry). e.id < r.fresh) r.entries
  pub called_below : All (λ (c : Called). c.id < r.fresh) r.calls

calls_below :
    (n : ℕ) (event : AdminEvent) (es : List Entry)
    → All (λ (e : Entry). e.id < n) es
    → All (λ (c : Called). c.id < n) (calls_for event es)
calls_below n event [] h = tt
calls_below n event (e ∷ es) h =
    if_keeps (All (λ (c : Called). c.id < n)) (same_type e.type event.type)
      (h.0, calls_below n event es h.1) (calls_below n event es h.1)

remove_below :
    (n : ℕ) (t : EventType) (i : ℕ) (es : List Entry)
    → All (λ (e : Entry). e.id < n) es
    → All (λ (e : Entry). e.id < n) (remove_entry t i es)
remove_below n t i [] h = tt
remove_below n t i (e ∷ es) h =
    if_keeps (All (λ (d : Entry). d.id < n)) (same_type e.type t && e.id == i) h.1
      (h.0, remove_below n t i es h.1)

apply-IsValid : (c : Change) (r : Registry) → IsValid r → IsValid (apply c r)
unfolding apply mount unmount take_event call_handlers
apply-IsValid (mounts t) r h = record {
  held_below =
      All-append (λ (e : Entry). e.id < suc r.fresh) r.entries
        (record { type = t; id = r.fresh } ∷ [])
        (All-weaken r.entries (λ e l. omega (arith, l)) h.held_below) (omega arith, tt);
  called_below = All-weaken r.calls (λ c l. omega (arith, l)) h.called_below;
}
apply-IsValid (unmounts t i) r h = record {
  held_below = remove_below r.fresh t i r.entries h.held_below;
  called_below = h.called_below;
}
apply-IsValid connects r h = record { held_below = h.held_below; called_below = h.called_below }
apply-IsValid (arrives event) r h =
    if_keeps IsValid (is_repeat event.type event.payload r.observe_seq) h (record {
      held_below = h.held_below;
      called_below =
          All-append (λ (c : Called). c.id < r.fresh) r.calls (calls_for event r.entries)
            h.called_below (calls_below r.fresh event r.entries h.held_below);
    })

pub apply_all-IsValid : (cs : List Change) (r : Registry) → IsValid r → IsValid (apply_all cs r)
apply_all-IsValid [] r h = h
apply_all-IsValid (c ∷ cs) r h = apply_all-IsValid cs (apply c r) (apply-IsValid c r h)

pub nothing_heard :
    (id : ℕ) (cs : List Called) → All (λ (c : Called). c.id < id) cs → heard id cs ≡ []
nothing_heard id [] h = refl
nothing_heard id (c ∷ cs) h =
    let other : (c.id == id) ≡ false = ground (arith, h.0) in rw other (nothing_heard id cs h.1)
