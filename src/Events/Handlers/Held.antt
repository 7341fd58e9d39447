-- ===== src/Events/Handlers/Held.antt =====
-- The entries of the registry of ui/src/lib/events/admin-events.tsx: which are held, and what a call
-- of the handlers tells them.
use mathlib.Core.Path.{subst}
use kiro_reverse_api.Prelude.{
  ℕ, ◌<◌, ◌≡◌, ◌≢◌, refl, true, false, ◌&&◌, List, [], ◌∷◌, ◌++◌, if◌then◌else◌, ◌==◌, arith, All,
  All-append, if_keeps, Bool-cases, inl, inr,
}
use kiro_reverse_api.Events.Kinds.{EventType, AdminEvent, same_type}
use kiro_reverse_api.Events.Handlers.{Entry, Called, remove_entry, calls_for}

-- The events that an entry was called with.
abbrev pub heard : ℕ → List Called → List AdminEvent
heard id [] = []
heard id (c ∷ cs) = if c.id == id then c.event ∷ heard id cs else heard id cs

-- The entry is held once, under this type.
abbrev pub IsFree : ℕ → List Entry → Type 0
IsFree id es = All (λ (e : Entry). (e.id == id) ≡ false) es

abbrev pub IsHeld : EventType → ℕ → List Entry → Type 0
IsHeld type id [] = ⊥
IsHeld type id (e ∷ es) =
    if e.id == id then (same_type e.type type ≡ true) × IsFree id es else IsHeld type id es

-- The numbers to come are not in use.
abbrev pub IsFresh : ℕ → List Entry → Type 0
IsFresh n es = All (λ (e : Entry). e.id < n) es

pub heard-append : (id : ℕ) (cs ds : List Called) → heard id (cs ++ ds) ≡ heard id cs ++ heard id ds
heard-append id [] ds = refl
heard-append id (c ∷ cs) ds = elim (Bool-cases (c.id == id)) [
  | inl e ↦ rw (e, heard-append id cs ds) refl
  | inr e ↦ rw (e, heard-append id cs ds) refl
]

pub heard_free :
    (id : ℕ) (event : AdminEvent) (es : List Entry)
    → IsFree id es
    → heard id (calls_for event es) ≡ []
heard_free id event [] h = refl
heard_free id event (e ∷ es) h = elim (Bool-cases (same_type e.type event.type)) [
  | inl k ↦ rw (k, h.0) (heard_free id event es h.1)
  | inr k ↦ rw k (heard_free id event es h.1)
]

-- The events that are of this type
abbrev pub events_of : EventType → AdminEvent → List AdminEvent
events_of type event = if same_type type event.type then event ∷ [] else []

-- An entry that is held is the first one, or among the others.
pub held_head :
    (type : EventType) (id : ℕ) (e : Entry) (es : List Entry)
    → (e.id == id) ≡ true
    → same_type e.type type ≡ true
    → IsFree id es
    → IsHeld type id (e ∷ es)
held_head type id e es k t f = rw k (t, f)

pub held_tail :
    (type : EventType) (id : ℕ) (e : Entry) (es : List Entry)
    → (e.id == id) ≡ false
    → IsHeld type id es
    → IsHeld type id (e ∷ es)
held_tail type id e es k h = rw k h

held_parts {κ} :
    (type : EventType) (id : ℕ) (e : Entry) (es : List Entry) {C : Type κ}
    → IsHeld type id (e ∷ es)
    → ((e.id == id) ≡ true → same_type e.type type ≡ true → IsFree id es → C)
    → ((e.id == id) ≡ false → IsHeld type id es → C)
    → C
held_parts type id e es h first later = elim (Bool-cases (e.id == id)) [
  | inl k ↦
      let (t, f) =
        subst (λ b. if b then (same_type e.type type ≡ true) × IsFree id es else IsHeld type id es)
          k h in
      first k t f
  | inr k ↦ later k (
      subst (λ b. if b then (same_type e.type type ≡ true) × IsFree id es else IsHeld type id es) k
        h)
]

pub heard_held :
    (type : EventType) (id : ℕ) (event : AdminEvent) (es : List Entry)
    → IsHeld type id es
    → heard id (calls_for event es) ≡ events_of type event
heard_held type id event [] h = elim h [ ]
heard_held type id event (e ∷ es) h =
    held_parts type id e es h
      (λ k t f.
        let same : same_type e.type event.type ≡ same_type type event.type = ground (arith, t) in
        let rest = heard_free id event es f in
        elim (Bool-cases (same_type type event.type)) [
          | inl s ↦ rw (same, s, k, rest) refl
          | inr s ↦ rw (same, s) rest
        ])
      (λ k l. elim (Bool-cases (same_type e.type event.type)) [
        | inl s ↦ rw (s, k) (heard_held type id event es l)
        | inr s ↦ rw s (heard_held type id event es l)
      ])

pub IsFree-append :
    (id : ℕ) (es : List Entry) (e : Entry)
    → IsFree id es
    → (e.id == id) ≡ false
    → IsFree id (es ++ e ∷ [])
IsFree-append id es e h k = All-append (λ (d : Entry). (d.id == id) ≡ false) es (e ∷ []) h (k, tt)

pub IsHeld-append :
    (type : EventType) (id : ℕ) (es : List Entry) (e : Entry)
    → IsHeld type id es
    → (e.id == id) ≡ false
    → IsHeld type id (es ++ e ∷ [])
IsHeld-append type id [] e h k = elim h [ ]
IsHeld-append type id (d ∷ es) e h k =
    held_parts type id d es h
      (λ i t f. held_head type id d (es ++ e ∷ []) i t (IsFree-append id es e f k))
      (λ i l. held_tail type id d (es ++ e ∷ []) i (IsHeld-append type id es e l k))

pub IsFree-remove_entry :
    (id : ℕ) (type : EventType) (i : ℕ) (es : List Entry)
    → IsFree id es
    → IsFree id (remove_entry type i es)
IsFree-remove_entry id type i [] h = tt
IsFree-remove_entry id type i (e ∷ es) h =
    if_keeps (IsFree id) (same_type e.type type && e.id == i) h.1
      (h.0, IsFree-remove_entry id type i es h.1)

pub IsHeld-remove_entry :
    (type : EventType) (id : ℕ) (t : EventType) (i : ℕ) (es : List Entry)
    → i ≢ id
    → IsHeld type id es
    → IsHeld type id (remove_entry t i es)
IsHeld-remove_entry type id t i [] n h = elim h [ ]
IsHeld-remove_entry type id t i (e ∷ es) n h =
    held_parts type id e es h
      (λ k s f.
        let other : (e.id == i) ≡ false = ground (arith, k) in
        let kept : (same_type e.type t && e.id == i) ≡ false = ground (arith, other) in
        rw kept (held_head type id e (remove_entry t i es) k s (IsFree-remove_entry id t i es f)))
      (λ k l.
        if_keeps (IsHeld type id) (same_type e.type t && e.id == i) l
          (held_tail type id e (remove_entry t i es) k (IsHeld-remove_entry type id t i es n l)))

pub remove_entry-IsFree :
    (type : EventType) (id : ℕ) (es : List Entry)
    → IsHeld type id es
    → IsFree id (remove_entry type id es)
remove_entry-IsFree type id [] h = elim h [ ]
remove_entry-IsFree type id (e ∷ es) h =
    held_parts type id e es h (λ k s f. rw (s, k) f)
      (λ k l.
        let kept : (same_type e.type type && e.id == id) ≡ false = ground (arith, k) in
        rw kept (k, remove_entry-IsFree type id es l))
