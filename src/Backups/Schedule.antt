-- ===== src/Backups/Schedule.antt =====
-- The schedule form of ui/src/features/backups/backup-model.ts and what the server accepts.
use kiro_reverse_api.Prelude.{
  ◌≤◌, ◌≡◌, refl, ◌↔◌, ◌⊎◌, inl, inr, Bool, true, false, not, ◌||◌, Option, none, some, arith, leb,
  Bool-cases, sym, ap, is_some, or_else,
}
use kiro_reverse_api.Prelude.Int.{ℤ, pos, negsuc, eq_ℤ, eq_ℤ_iff}
use kiro_reverse_api.Backups.{
  Entered, not_finite, finite, rounded, into_range, clamp_keep, clamp_whole, schedule_body,
  BackupCadence, hourly, daily, weekly, ScheduleForm, CurrentForm, schedule_dirty, same_flag,
  same_cadence,
}

-- The server's rule for the keep of an update: 1 to 200, or the keep that is stored.
abbrev pub IsAccepted : ℤ → ℤ → Type 0
IsAccepted stored (pos n) = (stored ≡ pos n) ⊎ ((1 ≤ n) × (n ≤ 200))
IsAccepted stored (negsuc n) = stored ≡ negsuc n

into_range-IsAccepted : (stored z : ℤ) → IsAccepted stored (into_range z)
into_range-IsAccepted stored (negsuc n) = inr (omega arith, omega arith)
into_range-IsAccepted stored (pos n) = elim (Bool-cases (leb n 1)) [
  | inl e ↦ rw e (inr (omega arith, omega arith))
  | inr e ↦ elim (Bool-cases (leb 200 n)) [
    | inl f ↦ rw (e, f) (inr (omega arith, omega arith))
    | inr f ↦ rw (e, f) (inr (ground arith, ground arith))
  ]
]

IsAccepted-self : (stored : ℤ) → IsAccepted stored stored
IsAccepted-self (pos n) = inl refl
IsAccepted-self (negsuc n) = refl

into_range_again : (z : ℤ) → into_range (into_range z) ≡ into_range z
into_range_again (negsuc n) = refl
into_range_again (pos n) = ground arith

whole-IsAccepted :
    (w stored : ℤ)
    → IsAccepted stored (clamp_whole w stored)
      × (clamp_whole (clamp_whole w stored) stored ≡ clamp_whole w stored)
whole-IsAccepted w stored = elim (Bool-cases (eq_ℤ w stored)) [
  | inl e ↦ rw e (IsAccepted-self stored, rw ((eq_ℤ_iff stored stored).1 refl) refl)
  | inr e ↦ rw e (
    into_range-IsAccepted stored w,
    elim (Bool-cases (eq_ℤ (into_range w) stored)) [
      | inl f ↦ rw f (sym ((eq_ℤ_iff (into_range w) stored).0 f))
      | inr f ↦ rw f (into_range_again w)
    ],
  )
]

-- The keep that is sent is one that the server accepts, and entering it again sends the same.
pub clamp_keep-IsAccepted :
    (value : Entered) (stored : ℤ)
    → let kept = clamp_keep value stored in
      IsAccepted stored kept × (clamp_keep (finite kept false) stored ≡ kept)
unfolding clamp_keep
clamp_keep-IsAccepted not_finite stored = (IsAccepted-self stored, ground arith)
clamp_keep-IsAccepted (finite z up) stored = whole-IsAccepted (rounded z up) stored

same_flag_iff : (a b : Bool) → (same_flag a b ≡ true) ↔ (a ≡ b)
same_flag_iff true true = (λ e. refl, λ e. refl)
same_flag_iff true false = (λ e. absurd (cc), λ e. absurd (cc))
same_flag_iff false true = (λ e. absurd (cc), λ e. absurd (cc))
same_flag_iff false false = (λ e. refl, λ e. refl)

same_cadence_iff : (a b : BackupCadence) → (same_cadence a b ≡ true) ↔ (a ≡ b)
same_cadence_iff hourly b = ground (arith)
same_cadence_iff daily b = ground (arith)
same_cadence_iff weekly b = ground (arith)

dirty_iff :
    (a b : Bool) (c d : BackupCadence) (k : ℤ) (stored : ℤ)
    → ((not (same_flag a b) || not (same_cadence c d) || not (eq_ℤ k stored)) ≡ false)
      ↔ ((a ≡ b) × (c ≡ d) × (k ≡ stored))
dirty_iff a b c d k stored =
    ground (arith, same_flag_iff a b, same_cadence_iff c d, eq_ℤ_iff k stored)

abbrev form_of : Bool → BackupCadence → ℤ → ScheduleForm
form_of enabled cadence keep = record { enabled = enabled; cadence = cadence; keep = keep }

-- The form is clean exactly when the keep field holds something and a save would send the schedule
-- that the form began with.
pub schedule_dirty-schedule_body :
    (initial : ScheduleForm) (current : CurrentForm)
    → (schedule_dirty initial current ≡ false)
      ↔ ((is_some current.keep ≡ true) × (schedule_body initial current ≡ initial))
unfolding schedule_dirty schedule_body
schedule_dirty-schedule_body initial current =
    dirty_case initial current.enabled current.cadence current.keep
  where
    dirty_case :
        (initial : ScheduleForm) (enabled : Bool) (cadence : BackupCadence) (keep : Option Entered)
        → (schedule_dirty initial (record { enabled = enabled; cadence = cadence; keep = keep })
            ≡ false)
          ↔ ((is_some keep ≡ true)
              × (form_of enabled cadence (clamp_keep (or_else keep not_finite) initial.keep)
                  ≡ initial))
    dirty_case initial enabled cadence none = (λ e. absurd (cc), λ e. absurd (ground arith))
    dirty_case initial enabled cadence (some value) =
        let k : ℤ = clamp_keep value initial.keep in
        let same = dirty_iff enabled initial.enabled cadence initial.cadence k initial.keep in
        (
          λ e. (refl, let h = same.0 e in rw (h.0, h.1, h.2) refl),
          λ e. same.1 (
            ap (λ (f : ScheduleForm). f.enabled) e.1,
            ap (λ (f : ScheduleForm). f.cadence) e.1,
            ap (λ (f : ScheduleForm). f.keep) e.1,
          ),
        )
