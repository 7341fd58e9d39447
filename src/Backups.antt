-- ===== src/Backups.antt =====
-- ui/src/features/backups/backup-model.ts: the schedule form and the words of the backup list.
pub mod Schedule
pub mod Notes
mod Tests
use kiro_reverse_api.Prelude.{
  ℕ, zero, suc, Bool, true, false, ◌&&◌, ◌||◌, not, List, [], ◌∷◌, Option, none, some,
  if◌then◌else◌, leb, ltb, ◌==◌, length, any, drop, or_else, ◌+◌,
}
use kiro_reverse_api.Prelude.Int.{ℤ, pos, negsuc, neg_ℕ, eq_ℤ}
use kiro_reverse_api.Text.{Text, codes, text_eq, is_full, starts_with, or_text}
use kiro_reverse_api.Text.Trim.{trim}

abbrev pub keep_min : ℕ
keep_min = 1

abbrev pub keep_max_count : ℕ
keep_max_count = 200

abbrev pub keep_default : ℕ
keep_default = 50

pub data BackupCadence : Type 0 where
  hourly daily weekly : BackupCadence

abbrev pub same_cadence : BackupCadence → BackupCadence → Bool
same_cadence hourly hourly = true
same_cadence daily daily = true
same_cadence weekly weekly = true
same_cadence a b = false

-- What `Math.round` reads of a number: whether it is finite, the whole number at or below it, and
-- whether what is left over is a half or more.
pub data Entered : Type 0 where
  not_finite : Entered
  finite : ℤ → Bool → Entered

abbrev next_ℤ : ℤ → ℤ
next_ℤ (pos n) = pos (suc n)
next_ℤ (negsuc n) = neg_ℕ n

-- `Math.round`
abbrev pub rounded : ℤ → Bool → ℤ
rounded z up = if up then next_ℤ z else z

-- `Math.min(KEEP_MAX, Math.max(KEEP_MIN, whole))`
abbrev pub into_range : ℤ → ℤ
into_range (negsuc n) = pos keep_min
into_range (pos n) =
    if leb n keep_min
    then pos keep_min
    else if leb keep_max_count n
    then pos keep_max_count
    else pos n

abbrev pub clamp_whole : ℤ → ℤ → ℤ
clamp_whole whole stored = if eq_ℤ whole stored then stored else into_range whole

unfoldable pub clamp_keep : Entered → ℤ → ℤ
clamp_keep not_finite stored = stored
clamp_keep (finite z up) stored = clamp_whole (rounded z up) stored

-- The stored keep is one that the form shows, above zero.
unfoldable pub keep_max : ℕ → ℕ
keep_max stored = if leb keep_max_count stored then stored else keep_max_count

pub record ScheduleForm : Type 0 where
  pub enabled : Bool
  pub cadence : BackupCadence
  pub keep : ℤ

-- A schedule as the server sends it, where `cadence` is the text sent.
pub record BackupSchedule : Type 0 where
  pub enabled : Option Bool
  pub cadence : Option Text
  pub keep : Option ℤ

abbrev cadence_text : Text → BackupCadence
cadence_text s =
    if text_eq s (codes "hourly")
    then hourly
    else if text_eq s (codes "weekly")
    then weekly
    else daily

abbrev cadence_of : Option Text → BackupCadence
cadence_of none = daily
cadence_of (some s) = cadence_text s

abbrev keep_of : Option ℤ → ℤ
keep_of none = pos keep_default
keep_of (some (negsuc n)) = pos keep_default
keep_of (some (pos zero)) = pos keep_default
keep_of (some (pos (suc n))) = pos (suc n)

unfoldable pub schedule_form : BackupSchedule → ScheduleForm
schedule_form s = record {
  enabled = or_else s.enabled false;
  cadence = cadence_of s.cadence;
  keep = keep_of s.keep;
}

-- The form's current values; the keep field is empty where `keep` is `none`.
pub record CurrentForm : Type 0 where
  pub enabled : Bool
  pub cadence : BackupCadence
  pub keep : Option Entered

abbrev pub same_flag : Bool → Bool → Bool
same_flag true true = true
same_flag false false = true
same_flag a b = false

abbrev changed_with : ScheduleForm → CurrentForm → Option Entered → Bool
changed_with initial current none = true
changed_with initial current (some value) =
    not (same_flag current.enabled initial.enabled)
    || not (same_cadence current.cadence initial.cadence)
    || not (eq_ℤ (clamp_keep value initial.keep) initial.keep)

unfoldable pub schedule_dirty : ScheduleForm → CurrentForm → Bool
unfolding clamp_keep
schedule_dirty initial current = changed_with initial current current.keep

-- The body of a save, with NaN for an empty keep field.
unfoldable pub schedule_body : ScheduleForm → CurrentForm → ScheduleForm
unfolding clamp_keep
schedule_body initial current = record {
  enabled = current.enabled;
  cadence = current.cadence;
  keep = clamp_keep (or_else current.keep not_finite) initial.keep;
}
